-- ===== src/Azblob/Download/Copy.antt =====
-- DownloadToWriter of azblob/download.go, with io.Copy of Go's library.
use mathlib.Core.List.{append_assoc, append-nil}
use go_rkvstcommon.Prelude.{
  ℕ, ◌+◌, ◌≡◌, ◌≢◌, refl, sym, ap, ◌∙◌, false, Option, none, some, [], ◌∷◌, ◌++◌, length, take,
  nat_eq, nat_eq_iff, arith, if◌then◌else◌, Bool-cases, inl, inr,
}
use go_rkvstcommon.Prelude.Outcome.{ok, panic, ok-injective}
use go_rkvstcommon.Prelude.Exec.{Exec}
use mathlib.Core.Path.{Σ_path}
use go_rkvstcommon.Azblob.Error.{GoError, eof, plain}
use go_rkvstcommon.Azblob.HashingReader.{Bytes, Reader, is_eof, copy_all}
use go_rkvstcommon.Azblob.Response.{ReaderResponse}

-- An io.Writer: how many bytes of a chunk it writes after those that it wrote before, and its error
abbrev pub Writer : Type 0
Writer = Bytes → Bytes → ℕ × Option GoError

abbrev short_write : GoError
short_write = plain "short write"

-- io.Copy's handling of what Write returns, for a chunk of n bytes
write_error : ℕ → ℕ × Option GoError → Option GoError
write_error n (m, some e) = some e
write_error n (m, none) = if nat_eq m n then none else some short_write

-- One round of io.Copy: what was written, and the error of the write
write_chunk : Writer → Bytes → Bytes → Bytes × Option GoError
unfolding write_error
write_chunk w bytes out =
    if nat_eq (length bytes) 0
    then (out, none)
    else (out ++ take (w out bytes).0 bytes, write_error (length bytes) (w out bytes))

-- What follows a round, by its error, the error of the read, and the rounds to come
after_chunk :
    Bytes × Option GoError → Option GoError → Bytes × Option GoError → Bytes × Option GoError
after_chunk (out, some e) read_error rest = (out, some e)
after_chunk (out, none) (some eof) rest = (out, none)
after_chunk (out, none) (some e) rest = (out, some e)
after_chunk (out, none) none rest = rest

-- io.Copy, where `out` is what was written before
unfoldable pub io_copy : Writer → Reader → Bytes → Bytes × Option GoError
unfolding write_chunk after_chunk
io_copy w [] out = (out, none)
io_copy w ((bytes, e) ∷ rest) out =
    let chunk = write_chunk w bytes out in after_chunk chunk e (io_copy w rest chunk.0)

-- defer r.Close(), around what the function does: a reader is known by how often it was closed.
abbrev deferred_close : {A : Type 0} → Exec ℕ GoError A → Exec ℕ GoError A
deferred_close body closed = ((body closed).0, (body closed).1 + 1)

-- The deferred Close of a reader that is nil panics at once.
copied : Writer → Option Reader → Exec ℕ GoError (Option GoError × Bytes)
copied w none closed = (panic, closed)
copied w (some r) closed =
    deferred_close (λ n. (ok ((io_copy w r []).1, (io_copy w r []).0), n)) closed

-- (*ReaderResponse).DownloadToWriter: the error, and what was written
unfoldable pub download_to_writer :
    Writer → ReaderResponse → Exec ℕ GoError (Option GoError × Bytes)
unfolding copied io_copy
download_to_writer w r = copied w r.reader

take-length : (xs : Bytes) → take (length xs) xs ≡ xs
take-length [] = refl
take-length (x ∷ xs) = ap (λ t. x ∷ t) (take-length xs)

write_error-none : (n : ℕ) (p : ℕ × Option GoError) → write_error n p ≡ none → p.0 ≡ n
unfolding write_error
write_error-none n (m, some e) h = absurd (cc)
write_error-none n (m, none) h = elim (Bool-cases (nat_eq m n)) [
  | inl t ↦ (nat_eq_iff m n).0 t
  | inr f ↦ (let k : ◌≡◌ {A = Option GoError} (some short_write) none = rw f at h in absurd (cc))
]

write_chunk-whole :
    (w : Writer) (bytes out : Bytes)
    → (write_chunk w bytes out).1 ≡ none
    → (write_chunk w bytes out).0 ≡ out ++ bytes
unfolding write_chunk
write_chunk-whole w [] out h = sym (append-nil out)
write_chunk-whole w (b ∷ bytes) out h =
    let whole = write_error-none (length (b ∷ bytes)) (w out (b ∷ bytes)) (ground (arith, h)) in
    ground (arith, ap (λ n. take n (b ∷ bytes)) whole, take-length (b ∷ bytes))

after_chunk-none :
    (c : Bytes × Option GoError) (rest : Bytes × Option GoError)
    → (after_chunk c none rest).1 ≡ none
    → (c.1 ≡ none) × (after_chunk c none rest ≡ rest)
unfolding after_chunk
after_chunk-none (out, none) rest h = (refl, refl)
after_chunk-none (out, some e) rest h = absurd (cc)

after_chunk-eof :
    (c : Bytes × Option GoError) (rest : Bytes × Option GoError)
    → (after_chunk c (some eof) rest).1 ≡ none
    → (c.1 ≡ none) × ((after_chunk c (some eof) rest).0 ≡ c.0)
unfolding after_chunk
after_chunk-eof (out, none) rest h = (refl, refl)
after_chunk-eof (out, some e) rest h = absurd (cc)

after_chunk-fault :
    (c : Bytes × Option GoError) (e : GoError) (rest : Bytes × Option GoError)
    → is_eof (some e) ≡ false
    → (after_chunk c (some e) rest).1 ≢ none
unfolding after_chunk
after_chunk-fault (out, some x) e rest f h = cc
after_chunk-fault (out, none) eof rest f h = cc
after_chunk-fault (out, none) e rest f h = cc

io_copy-whole :
    (w : Writer) (r : Reader) (out : Bytes)
    → (io_copy w r out).1 ≡ none
    → ((io_copy w r out).0 ≡ out ++ (copy_all r).0) × ((copy_all r).1 ≡ none)
unfolding io_copy copy_all
io_copy-whole w [] out h = (sym (append-nil out), refl)
io_copy-whole w ((bytes, none) ∷ rest) out h =
    let (fine, same) = after_chunk-none (write_chunk w bytes out) _ h in
    let now = write_chunk-whole w bytes out fine in
    let (wrote, ends) =
      io_copy-whole w rest (write_chunk w bytes out).0
        (sym (ap (λ (t : Bytes × Option GoError). t.1) same) ∙ h) in
    (
      ap (λ (t : Bytes × Option GoError). t.0) same
          ∙ wrote
          ∙ ap (λ t. t ++ (copy_all rest).0) now
          ∙ append_assoc out bytes (copy_all rest).0,
      ends,
    )
io_copy-whole w ((bytes, some eof) ∷ rest) out h =
    let (fine, same) = after_chunk-eof (write_chunk w bytes out) _ h in
    (same ∙ write_chunk-whole w bytes out fine, refl)
io_copy-whole w ((bytes, some e) ∷ rest) out h =
    absurd (after_chunk-fault (write_chunk w bytes out) e _ refl h)

-- A copy that returns no error has written the whole content, which was read without a fault.
copied-whole :
    (w : Writer) (reader : Option Reader) (out : Bytes) (closed : ℕ)
    → (copied w reader closed).0 ≡ ok (none, out)
    → (content : Reader) × (reader ≡ some content) × (copy_all content ≡ (out, none))
unfolding copied
copied-whole w none out closed h = absurd (cc)
copied-whole w (some r) out closed h =
    let p = ok-injective h in
    let (wrote, ends) = io_copy-whole w r [] (ap (λ (t : Option GoError × Bytes). t.0) p) in
    (r, refl, Σ_path (sym wrote ∙ ap (λ (t : Option GoError × Bytes). t.1) p) ends)
