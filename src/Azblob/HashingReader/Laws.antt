-- ===== src/Azblob/HashingReader/Laws.antt =====
-- What a consumer that reads a hashingReader (azblob/hashingreader.go) to its end gets of it.
use mathlib.Core.List.{append-nil, append_assoc}
use mathlib.Core.Path.{Σ_path}
use go_rkvstcommon.Prelude.{
  ℕ, zero, suc, ◌≡◌, ◌≢◌, ◌≤◌, ◌<◌, refl, ap, sym, Option, none, some, [], ◌∷◌, ◌++◌, length, drop,
  ◌∙◌, arith, length-append,
}
use go_rkvstcommon.Prelude.Int.{ℤ, pos}
use go_rkvstcommon.Azblob.Error.{GoError, eof}
use go_rkvstcommon.Azblob.HashingReader.{
  ReadResult, Bytes, HashingReader, Reader, int64, add_int64, add_int64-add_int64, add_int64-once,
  add_int64-first, int64-small, next, read, stop_or, drain, drain_all, copy_all, rejoin, read_bytes,
  buffer_reader,
}

-- Between two states, the bytes handed on were hashed and counted, and nothing else was.
pub record Accounts (up : HashingReader) (bytes : Bytes) (up' : HashingReader) : Type 0 where
  pub hashed : up'.hasher ≡ up.hasher ++ bytes
  pub counted : up'.size ≡ add_int64 up.size (length bytes)

read-Accounts :
    (up : HashingReader) → add_int64 up.size 0 ≡ up.size → Accounts up (read up).0.0 (read up).1
unfolding read
read-Accounts up h = ground (arith, append-nil up.hasher, sym h)

read-progress :
    (up : HashingReader) → (read up).0.1 ≡ none → suc (length (read up).1.part) ≤ length up.part
unfolding read
read-progress up h = ground arith

Accounts-trans :
    (up up' up'' : HashingReader) (xs ys : Bytes)
    → Accounts up xs up'
    → Accounts up' ys up''
    → Accounts up (xs ++ ys) up''
Accounts-trans up up' up'' xs ys h k = record {
  hashed = rw (k.hashed, h.hashed) (append_assoc up.hasher xs ys);
  counted =
      k.counted
      ∙ ap (λ z. add_int64 z (length ys)) h.counted
      ∙ add_int64-add_int64 up.size (length xs) (length ys)
      ∙ ap (add_int64 up.size) (sym (length-append xs ys));
}

read-size :
    (up : HashingReader)
    → add_int64 up.size 0 ≡ up.size
    → add_int64 (read up).1.size 0 ≡ (read up).1.size
unfolding read
read-size up h = ground (arith, h, add_int64-once up.size (length (next up.part).0.0))

stop_or-Accounts :
    (up up' up'' : HashingReader) (xs ys : Bytes) (e e' : Option GoError)
    → Accounts up xs up'
    → Accounts up' ys up''
    → let r = stop_or (xs, e) up' ((ys, e'), up'') in Accounts up r.0.0 r.1
unfolding stop_or
stop_or-Accounts up up' up'' xs ys none e' h k = Accounts-trans up up' up'' xs ys h k
stop_or-Accounts up up' up'' xs ys (some e) e' h k = h

drain-Accounts :
    (fuel : ℕ) (up : HashingReader)
    → add_int64 up.size 0 ≡ up.size
    → Accounts up (drain fuel up).0.0 (drain fuel up).1
unfolding drain
drain-Accounts zero up h = record { hashed = sym (append-nil _); counted = sym h }
drain-Accounts (suc fuel) up h =
    stop_or-Accounts up (read up).1 (drain fuel (read up).1).1 (read up).0.0
      (drain fuel (read up).1).0.0 (read up).0.1 (drain fuel (read up).1).0.1 (read-Accounts up h)
      (drain-Accounts fuel (read up).1 (read-size up h))

-- With more fuel than coming results the reading ends by an error, io.EOF or another.
drain-ends : (fuel : ℕ) (up : HashingReader) → length up.part < fuel → (drain fuel up).0.1 ≢ none
unfolding drain
drain-ends zero up h = elim h [ ]
drain-ends (suc fuel) up h = ground (arith, read-progress up, drain-ends fuel (read up).1)

abbrev pub fresh : Reader → HashingReader
fresh part = record { hasher = []; size = pos 0; part = part }

-- A fresh hashing reader, read by a consumer to its end: the reading does end, by an error; the
-- bytes that the consumer got are those that were hashed, and their number, as an int64, is the size.
pub drain_all-Accounts :
    (part : Reader)
    → ((drain_all (fresh part)).0.1 ≢ none)
      × ((drain_all (fresh part)).1.hasher ≡ (drain_all (fresh part)).0.0)
      × ((drain_all (fresh part)).1.size ≡ int64 (length (drain_all (fresh part)).0.0))
drain_all-Accounts part =
    let a =
      drain-Accounts (suc (length part)) (fresh part)
        (add_int64-first 0 ∙ int64-small 0 (omega arith)) in
    (
      drain-ends (suc (length part)) (fresh part) (omega arith),
      a.hashed,
      a.counted ∙ add_int64-first _,
    )

stop_or-next :
    (xs ys : Bytes) (e : Option GoError) (up up' : HashingReader)
    → (stop_or (xs, none) up ((ys, e), up')).0 ≡ (xs ++ ys, e)
unfolding stop_or
stop_or-next xs ys e up up' = refl

-- A reader whose copying meets no fault is handed on whole.
pub drain-copy_all :
    (fuel : ℕ) (hasher : Bytes) (size : ℤ) (part : Reader)
    → length part < fuel
    → (copy_all part).1 ≡ none
    → (drain fuel (record { hasher = hasher; size = size; part = part })).0
      ≡ ((copy_all part).0, some eof)
unfolding drain copy_all
drain-copy_all zero hasher size part h k = elim h [ ]
drain-copy_all (suc fuel) hasher size [] h k = refl
drain-copy_all (suc fuel) hasher size (([], none) ∷ rest) h k =
    drain-copy_all fuel hasher size rest (omega arith) k
drain-copy_all (suc fuel) hasher size ((b ∷ bs, none) ∷ rest) h k =
    ground (arith, drain-copy_all fuel (hasher ++ b ∷ bs) (add_int64 size (suc (length bs))) rest)
drain-copy_all (suc fuel) hasher size (([], some e) ∷ rest) h k = ground arith
drain-copy_all (suc fuel) hasher size ((b ∷ bs, some e) ∷ rest) h k = ground arith

-- A reader that returns nothing more after its first error.
abbrev pub EndsOnce : Reader → Type 0
EndsOnce [] = Unit
EndsOnce ((bytes, none) ∷ rest) = EndsOnce rest
EndsOnce ((bytes, some e) ∷ rest) = rest ≡ []

pub copy_all-buffer :
    (bytes : Bytes) (r : Reader)
    → ((copy_all (buffer_reader bytes ++ r)).0 ≡ bytes ++ (copy_all r).0)
      × ((copy_all (buffer_reader bytes ++ r)).1 ≡ (copy_all r).1)
unfolding copy_all
copy_all-buffer [] r = (refl, refl)
copy_all-buffer (b ∷ bs) r = (refl, refl)

read_bytes-drop_nil :
    (n : ℕ) → (read_bytes n [] ≡ []) × (copy_all (drop {A = ReadResult} n []) ≡ ([], none))
unfolding copy_all read_bytes
read_bytes-drop_nil zero = (refl, refl)
read_bytes-drop_nil (suc n) = (refl, refl)

read_bytes-drop :
    (n : ℕ) (r : Reader)
    → EndsOnce r
    → (copy_all r).1 ≡ none
    → (read_bytes n r ++ (copy_all (drop n r)).0 ≡ (copy_all r).0)
      × ((copy_all (drop n r)).1 ≡ none)
unfolding copy_all read_bytes
read_bytes-drop zero r w h = (refl, h)
read_bytes-drop (suc n) [] w h = (refl, refl)
read_bytes-drop (suc n) ((bytes, none) ∷ r) w h =
    let (same, sound) = read_bytes-drop n r w h in
    (append_assoc bytes (read_bytes n r) _ ∙ ap (◌++◌ bytes) same, sound)
read_bytes-drop (suc n) ((bytes, some eof) ∷ r) w h =
    let (one, two) = read_bytes-drop_nil n in
    rw w (rw (one, two, append-nil bytes) (simp append-nil, refl))
read_bytes-drop (suc n) ((bytes, some e) ∷ r) w h = ground arith

-- The bytes that were read ahead and put back in front make up the same reader again.
pub copy_all-rejoin :
    (n : ℕ) (r : Reader) → EndsOnce r → (copy_all r).1 ≡ none → copy_all (rejoin n r) ≡ copy_all r
unfolding rejoin
copy_all-rejoin n r w h =
    let (same, sound) = read_bytes-drop n r w h in
    let (front, back) = copy_all-buffer (read_bytes n r) (drop n r) in
    Σ_path (front ∙ same) (back ∙ sound ∙ sym h)
