-- ===== src/Azblob/Multipart/Content.antt =====
-- What is left of the content of a part when streamReader of azblob/upload.go uploads it.
use mathlib.Core.List.{append-nil}
use mathlib.Core.Path.{Σ_path}
use go_rkvstcommon.Prelude.{
  ℕ, suc, ◌≡◌, refl, ap, sym, ◌∙◌, ◌⊎◌, String, Option, none, some, List, [], ◌∷◌, arith, length,
  inl, inr,
}
use go_rkvstcommon.Prelude.Dict.{string_key}
use go_rkvstcommon.Prelude.Outcome.{Outcome, ok, err, panic, Outcome-cases}
use go_rkvstcommon.Prelude.Int.{pos}
use go_rkvstcommon.Azblob.Error.{GoError, eof}
use go_rkvstcommon.Azblob.Options.{StorerOptions}
use go_rkvstcommon.Azblob.HashingReader.{
  Reader, Bytes, ReadResult, copy_all, buffer_reader, rejoin, drain_all, int64,
}
use go_rkvstcommon.Azblob.HashingReader.Laws.{
  EndsOnce, fresh, drain_all-Accounts, drain-copy_all, copy_all-rejoin,
}
use go_rkvstcommon.Azblob.Service.{Service}
use go_rkvstcommon.Azblob.Multipart.{Part, check_size, detect_type, then_type, prepare, body_of}

-- The body of an upload, and what was hashed and counted of it, for a sound reader.
pub drained :
    (r : Reader) (b : Bytes)
    → copy_all r ≡ (b, none)
    → (body_of (drain_all (fresh r)).0 ≡ (b, none))
      × ((drain_all (fresh r)).1.hasher ≡ b)
      × ((drain_all (fresh r)).1.size ≡ int64 (length b))
drained r b e =
    let got : (drain_all (fresh r)).0 ≡ (b, some eof) =
      drain-copy_all (suc (length r)) [] (pos 0) r (omega arith)
        (ap (λ (t : Bytes × Option GoError). t.1) e)
      ∙ Σ_path (ap (λ (t : Bytes × Option GoError). t.0) e) refl in
    let bytes = ap (λ (t : ReadResult). t.0) got in
    let (ends, hashed, counted) = drain_all-Accounts r in
    (ap body_of got, hashed ∙ bytes, counted ∙ ap (λ (t : Bytes). int64 (length t)) bytes)

module _ (azp : Service) where
  check_size-cases :
      (o : StorerOptions) (c r : Reader)
      → check_size azp o c ≡ ok r
      → (r ≡ c) ⊎ (r ≡ buffer_reader (copy_all c).0)
  unfolding check_size
  check_size-cases o c r k = ground arith

  buffer-copy_all :
      (b : Bytes) → EndsOnce (buffer_reader b) × (copy_all (buffer_reader b) ≡ (b, none))
  unfolding copy_all
  buffer-copy_all [] = (tt, refl)
  buffer-copy_all (b ∷ bs) = (tt, rw (append-nil bs))

  check_size-copy_all :
      (o : StorerOptions) (c r : Reader)
      → (copy_all c).1 ≡ none
      → EndsOnce c
      → check_size azp o c ≡ ok r
      → EndsOnce r × (copy_all r ≡ copy_all c)
  check_size-copy_all o c r sound w k = elim (check_size-cases o c r k) [
    | inl same ↦ rw same (w, refl)
    | inr buffered ↦
        let (w', e) = buffer-copy_all (copy_all c).0 in
        rw buffered (w', e ∙ Σ_path refl (sym sound))
  ]

  detect_type-cases :
      (s : Option (List String)) (c r : Reader) (m : String)
      → detect_type azp s c ≡ ok (m, r)
      → (r ≡ c) ⊎ ((n : ℕ) × (r ≡ rejoin n c))
  unfolding detect_type
  detect_type-cases (some (t ∷ ts)) c r m k = inl (ground arith)
  detect_type-cases _ c r m k = elim (Outcome-cases (azp.detect c)) [
    | inl (found, e) ↦ inr (found.1, ground arith)
    | inr bad ↦ absurd (ground arith)
  ]

  detect_type-copy_all :
      (s : Option (List String)) (c r : Reader) (m : String)
      → (copy_all c).1 ≡ none
      → EndsOnce c
      → detect_type azp s c ≡ ok (m, r)
      → copy_all r ≡ copy_all c
  detect_type-copy_all s c r m sound w k = elim (detect_type-cases s c r m k) [
    | inl same ↦ rw same
    | inr (n, joined) ↦ rw joined (copy_all-rejoin n c w sound)
  ]

  then_type-ok :
      (s : Option (List String)) (o : Outcome GoError Reader) (m : String) (r : Reader)
      → then_type azp s o ≡ ok (m, r)
      → (c : Reader) × (o ≡ ok c) × (detect_type azp s c ≡ ok (m, r))
  unfolding then_type
  then_type-ok s (ok c) m r k = (c, refl, k)
  then_type-ok s (err e) m r k = cc
  then_type-ok s panic m r k = cc

  -- What is uploaded of a part is its content, whether it was buffered, partly read ahead, or neither.
  pub prepare-copy_all :
      (o : StorerOptions) (p : Part) (mime_type : String) (source : Reader)
      → (copy_all p.content).1 ≡ none
      → EndsOnce p.content
      → prepare azp o p ≡ ok (mime_type, source)
      → copy_all source ≡ copy_all p.content
  unfolding prepare
  prepare-copy_all o p mime_type source sound w k =
      let (c, sized, typed) = then_type-ok _ (check_size azp o p.content) mime_type source k in
      let (w', e) = check_size-copy_all o p.content c sound w sized in
      detect_type-copy_all _ c source mime_type (ap (λ (t : Bytes × Option GoError). t.1) e ∙ sound)
        w' typed
      ∙ e
