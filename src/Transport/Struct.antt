-- ===== src/Transport/Struct.antt =====
-- The two formats of Python's `struct` that frames use, "!H" and "!I": big-endian, an error out of
-- range, and an error where the bytes are too few or too many.
use awarekv.Prelude.{
  ℕ, ◌+◌, ◌*◌, ◌/◌, ◌%◌, ◌^◌, ◌<◌, ◌≡◌, List, [], ◌∷◌, ◌++◌, Result, ok, raise, struct_error,
  if◌then◌else◌, ltb, arith,
}

abbrev pub Bytes : Type 0
Bytes = List ℕ

-- b"".join(bs)
abbrev pub concat : List Bytes → Bytes
concat [] = []
concat (b ∷ bs) = b ++ concat bs

unfoldable pub pack_h : ℕ → Result Bytes
pack_h n = if ltb n (2 ^ 16) then ok (n / 256 ∷ n % 256 ∷ []) else raise struct_error

unfoldable pub unpack_h : Bytes → Result ℕ
unpack_h (a ∷ b ∷ []) = ok (a * 256 + b)
unpack_h _ = raise struct_error

-- the four bytes of a number below 2 ^ 32
abbrev pub be32 : ℕ → Bytes
be32 n = n / 16777216 ∷ n / 65536 % 256 ∷ n / 256 % 256 ∷ n % 256 ∷ []

unfoldable pub pack_i : ℕ → Result Bytes
pack_i n = if ltb n (2 ^ 32) then ok (be32 n) else raise struct_error

unfoldable pub unpack_i : Bytes → Result ℕ
unpack_i (a ∷ b ∷ c ∷ d ∷ []) = ok (a * 16777216 + b * 65536 + c * 256 + d)
unpack_i _ = raise struct_error

-- What is packed is unpacked, over the whole range of the format.
pub unpack_i-be32 : (n : ℕ) → unpack_i (be32 n) ≡ ok n
unfolding unpack_i
unpack_i-be32 n = ground arith

pub pack_i-eq-ok : (n : ℕ) {b : Bytes} → pack_i n ≡ ok b → (n < 2 ^ 32) × (b ≡ be32 n)
unfolding pack_i
pack_i-eq-ok n h = ground arith

pub pack_i_fits : (n : ℕ) → n < 2 ^ 32 → pack_i n ≡ ok (be32 n)
unfolding pack_i
pack_i_fits n h = ground arith
