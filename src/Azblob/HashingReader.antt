-- ===== src/Azblob/HashingReader.antt =====
-- azblob/hashingreader.go with its int64, and the readers of the standard library that it is put together with.
pub mod Laws
use go_rkvstcommon.Prelude.{
  ℕ, zero, suc, ◌+◌, ◌-◌, ◌%◌, ◌^◌, ◌<◌, ◌≡◌, ◌∙◌, sym, ap, arith, ltb, Bool, true, false, Option,
  none, some, List, [], ◌∷◌, ◌++◌, length, nat_eq, if◌then◌else◌, take, drop,
}
use go_rkvstcommon.Prelude.Int.{ℤ, pos, negsuc}
use go_rkvstcommon.Azblob.Error.{GoError, eof, storage, plain, blob, blob_nil, wrapped}

abbrev pub Bytes : Type 0
Bytes = List ℕ

-- What one call of Read returns: the bytes that it put into the buffer, and its error.
abbrev pub ReadResult : Type 0
ReadResult = Bytes × Option GoError

-- An io.Reader, as the results of its coming calls of Read; after them it returns 0, io.EOF.
abbrev pub Reader : Type 0
Reader = List ReadResult

abbrev pub next : Reader → ReadResult × Reader
next [] = (([], some eof), [])
next (r ∷ rest) = (r, rest)

-- err == io.EOF
abbrev pub is_eof : Option GoError → Bool
is_eof (some eof) = true
is_eof _ = false

-- err != nil && err != io.EOF
abbrev pub is_fault : Option GoError → Bool
is_fault none = false
is_fault (some eof) = false
is_fault _ = true

-- The int64 of 64 bits, in two's complement.
abbrev of_bits : ℕ → ℤ
of_bits r = if ltb r (2 ^ 63) then pos r else negsuc (2 ^ 64 - 1 - r)

-- int64 of a number, of which the lowest 64 bits are kept.
unfoldable pub int64 : ℕ → ℤ
int64 n = of_bits (n % 2 ^ 64)

-- z + int64(n), which wraps
unfoldable pub add_int64 : ℤ → ℕ → ℤ
add_int64 (pos a) n = int64 (a + n)
add_int64 (negsuc a) n = int64 (2 ^ 64 - 1 - a + n)

add_int64-of_bits : (r n : ℕ) → r < 2 ^ 64 → add_int64 (of_bits r) n ≡ int64 (r + n)
unfolding add_int64
add_int64-of_bits r n h =
    let back : 2 ^ 64 - 1 - (2 ^ 64 - 1 - r) ≡ r = omega (arith, h) in
    ground (arith, ap (λ a. int64 (a + n)) back)

pub add_int64-int64 : (a n : ℕ) → add_int64 (int64 a) n ≡ int64 (a + n)
unfolding int64
add_int64-int64 a n = add_int64-of_bits (a % 2 ^ 64) n (omega arith) ∙ ap of_bits (omega arith)

pub add_int64-add_int64 : (z : ℤ) (m n : ℕ) → add_int64 (add_int64 z m) n ≡ add_int64 z (m + n)
unfolding add_int64
add_int64-add_int64 (pos a) m n = add_int64-int64 (a + m) n ∙ ap int64 (omega arith)
add_int64-add_int64 (negsuc a) m n = add_int64-int64 (2 ^ 64 - 1 - a + m) n ∙ ap int64 (omega arith)

pub add_int64-once : (z : ℤ) (n : ℕ) → add_int64 (add_int64 z n) 0 ≡ add_int64 z n
add_int64-once z n = add_int64-add_int64 z n 0 ∙ ap (add_int64 z) (omega arith)

pub add_int64-first : (n : ℕ) → add_int64 (pos 0) n ≡ int64 n
unfolding add_int64
add_int64-first n = ap int64 (omega arith)

pub int64-small : (n : ℕ) → n < 2 ^ 63 → int64 n ≡ pos n
unfolding int64
int64-small n h = ground arith

-- type hashingReader struct. The hasher is the bytes written to it: Write of a hash.Hash adds bytes to
-- the running hash and never returns an error, and Sum is a function of them.
pub record HashingReader : Type 0 where
  pub hasher : Bytes
  pub size : ℤ
  pub part : Reader

-- What Read does with the result of up.part.Read.
receive : HashingReader → ReadResult → ReadResult × HashingReader
receive up (bytes, err) =
    if is_fault err then (([], err), up) else if nat_eq (length bytes) 0 then (([], err), up) else (
      (bytes, if is_eof err then err else none),
      record up { hasher = up.hasher ++ bytes; size = add_int64 up.size (length bytes) },
    )

-- (*hashingReader).Read
unfoldable pub read : HashingReader → ReadResult × HashingReader
unfolding receive
read up = let (result, rest) = next up.part in receive (record up { part = rest }) result

-- One call of Read, and then the coming ones if it returned no error.
stop_or : ReadResult → HashingReader → ReadResult × HashingReader → ReadResult × HashingReader
stop_or (bytes, some e) up rest = ((bytes, some e), up)
stop_or (bytes, none) up ((more, e), up') = ((bytes ++ more, e), up')

-- Read until it returns an error, as a consumer of a whole io.Reader does: the bytes that it got,
-- the error that ended it, and the reader after that. `fuel` bounds the calls.
unfoldable pub drain : ℕ → HashingReader → ReadResult × HashingReader
unfolding read stop_or
drain zero up = (([], none), up)
drain (suc fuel) up =
    let (result, up') = read up in let rest = drain fuel up' in stop_or result up' rest

-- A reader of n coming results ends after n + 1 calls.
abbrev pub drain_all : HashingReader → ReadResult × HashingReader
drain_all up = drain (suc (length up.part)) up

-- io.Copy(io.Discard, io.TeeReader(part, &buffer)): the bytes left in the buffer, and the error
unfoldable pub copy_all : Reader → Bytes × Option GoError
copy_all [] = ([], none)
copy_all ((bytes, some eof) ∷ rest) = (bytes, none)
copy_all ((bytes, some e) ∷ rest) = (bytes, some e)
copy_all ((bytes, none) ∷ rest) = let (more, e) = copy_all rest in (bytes ++ more, e)

-- A bytes.Buffer as a reader.
abbrev pub buffer_reader : Bytes → Reader
buffer_reader [] = []
buffer_reader (b ∷ bs) = (b ∷ bs, none) ∷ []

-- The bytes that the first n calls of Read return.
unfoldable pub read_bytes : ℕ → Reader → Bytes
read_bytes zero r = []
read_bytes (suc n) [] = []
read_bytes (suc n) ((bytes, e) ∷ rest) = bytes ++ read_bytes n rest

-- io.MultiReader(header, part), where header has the bytes of the first n reads of part
unfoldable pub rejoin : ℕ → Reader → Reader
unfolding read_bytes
rejoin n part = buffer_reader (read_bytes n part) ++ drop n part
