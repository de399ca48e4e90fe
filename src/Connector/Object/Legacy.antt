-- ===== src/Connector/Object/Legacy.antt =====
-- The objects as the class `ObjectHeader` stands: what src/dakv/connector/loader.py makes of any object.
use awarekv.Prelude.{
  ℕ, Bool-cases, Option, none, some, ◌≡◌, refl, ltb, length, take, Result, ok, raise, ◌>>=◌, inl,
  inr,
}
use awarekv.Common.Calls.{accepts, call}
use awarekv.Transport.Struct.{Bytes}
use awarekv.Transport.Protocol.{slice, starts_with}
use awarekv.Codec.{Codec}
use awarekv.Connector.Object.{
  ObjectHeader, make_header, object_magic, try_parse_header, decode_legacy_format, decode_new,
  parse_and_decode_object, unpack_le32,
}

abbrev NoHeader : Result (Option ObjectHeader) → Type 0
NoHeader (ok (some h)) = ⊥
NoHeader _ = Unit

bind-NoHeader :
    {A : Type 0} (m : Result A) (k : A → Result (Option ObjectHeader))
    → ((a : A) → NoHeader (k a))
    → NoHeader (m >>= k)
bind-NoHeader (ok a) k h = h a
bind-NoHeader (raise e) k h = tt

try_parse_header-NoHeader : (b : Bytes) → NoHeader (try_parse_header b)
unfolding try_parse_header make_header call accepts
try_parse_header-NoHeader b = elim (Bool-cases (ltb (length b) 128)) [
  | inl e ↦ rw e tt
  | inr e ↦ elim (Bool-cases (starts_with object_magic b)) [
    | inr m ↦ rw (e, m) tt
    | inl m ↦
        rw (e, m)
          (bind-NoHeader (unpack_le32 (slice 8 4 b)) _ λ v.
            bind-NoHeader (unpack_le32 (slice 12 4 b)) _ λ l.
              bind-NoHeader (unpack_le32 (slice 16 4 b)) _ λ t.
                bind-NoHeader (unpack_le32 (slice 20 4 b)) _
                  λ k. bind-NoHeader (unpack_le32 (slice 24 4 b)) _ λ s. tt)
  ]
]

module _ {T : Type 0} (c : Codec T) where
  decode_new-NoHeader :
      (b : Bytes) (r : Result (Option ObjectHeader))
      → try_parse_header (take 128 b) ≡ r
      → NoHeader r
      → decode_new c b ≡ none
  unfolding decode_new
  decode_new-NoHeader b (raise e) p h = rw (decode_new, p) refl
  decode_new-NoHeader b (ok none) p h = rw (decode_new, p) refl
  decode_new-NoHeader b (ok (some x)) p h = elim h [ ]

  decode_new-refused : (b : Bytes) → decode_new c b ≡ none
  decode_new-refused b = decode_new-NoHeader b _ refl (try_parse_header-NoHeader (take 128 b))

  -- As the class `ObjectHeader` stands it refuses the call: every object is decoded in the old
  -- format, whatever its first bytes are.
  pub parse_and_decode_object-legacy :
      (b : Bytes) (n : ℕ) → parse_and_decode_object (ok c) b n ≡ decode_legacy_format c b n
  unfolding parse_and_decode_object
  parse_and_decode_object-legacy b n = elim (Bool-cases (ltb (length b) 128)) [
    | inl e ↦ rw e refl
    | inr e ↦ rw (e, decode_new-refused b) refl
  ]
