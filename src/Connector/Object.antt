-- ===== src/Connector/Object.antt =====
-- The objects that src/dakv/connector/saver.py writes and src/dakv/connector/loader.py reads: a header of
-- 128 bytes and the data of the layers. Both modules create the header by a call of the class
-- `ObjectHeader` of src/dakv/common/types.py, which checks its arguments against the fields of the class.
pub mod Header
pub mod Layers
pub mod Encoded
pub mod Legacy
use awarekv.Prelude.{
  ℕ, zero, suc, ◌+◌, ◌-◌, ◌*◌, ◌/◌, ◌%◌, ◌^◌, String, Bool, true, false, not, Option, none, some,
  List, [], ◌∷◌, ◌++◌, if◌then◌else◌, ltb, nat_eqb, length, take, drop, Result, ok, raise,
  struct_error, ◌>>=◌,
}
use awarekv.Common.Calls.{object_header_signature, call}
use awarekv.Transport.Struct.{Bytes, concat}
use awarekv.Transport.Protocol.{slice, starts_with}
use awarekv.Codec.{Codec}

-- The arguments of the call that are read again; the data type, the layout and the checksum are not.
pub record ObjectHeader : Type 0 where
  pub object_format_version : ℕ
  pub num_layers : ℕ
  pub matched_tokens : ℕ
  pub matched_blocks : ℕ
  pub block_size : ℕ

-- the names in the call of `ObjectHeader`, the same in both modules
abbrev pub header_names : List String
header_names =
    "object_format_version" ∷ "num_layers" ∷ "matched_tokens" ∷ "matched_blocks" ∷ "block_size"
    ∷ "cache_dtype" ∷ "kv_layout_version" ∷ "checksum" ∷ []

unfoldable pub make_header : ObjectHeader → Result ObjectHeader
unfolding call
make_header h = call object_header_signature header_names h

abbrev pub object_magic : Bytes
object_magic = b'D' ∷ b'A' ∷ b'K' ∷ b'V' ∷ b'O' ∷ b'B' ∷ b'J' ∷ 0 ∷ []

-- one "I" of the little-endian format
abbrev pub le32 : ℕ → Bytes
le32 n = n % 256 ∷ n / 256 % 256 ∷ n / 65536 % 256 ∷ n / 16777216 ∷ []

unfoldable pub pack_le32 : ℕ → Result Bytes
pack_le32 n = if ltb n (2 ^ 32) then ok (le32 n) else raise struct_error

abbrev pub zeros : ℕ → Bytes
zeros zero = []
zeros (suc n) = 0 ∷ zeros n

-- b.ljust(n, b"\x00")
abbrev pub ljust : ℕ → Bytes → Bytes
ljust n b = b ++ zeros (n - length b)

-- `_serialize_header`
unfoldable pub serialize_header : ObjectHeader → Result Bytes
unfolding pack_le32
serialize_header h = do
  version ← pack_le32 h.object_format_version
  layers ← pack_le32 h.num_layers
  tokens ← pack_le32 h.matched_tokens
  blocks ← pack_le32 h.matched_blocks
  size ← pack_le32 h.block_size
  ok (ljust 128 (object_magic ++ version ++ layers ++ tokens ++ blocks ++ size ++ zeros 12))

-- `_build_object_with_header`
unfoldable pub build_object_with_header : ObjectHeader → List Bytes → Result Bytes
unfolding serialize_header
build_object_with_header h layers = do
  header_bytes ← serialize_header h
  ok (header_bytes ++ concat layers)

-- one "I" of thirty-two bytes that are unpacked together
unfoldable pub unpack_le32 : Bytes → Result ℕ
unpack_le32 (a ∷ b ∷ c ∷ d ∷ []) = ok (a + b * 256 + c * 65536 + d * 16777216)
unpack_le32 _ = raise struct_error

-- `_try_parse_header`
unfoldable pub try_parse_header : Bytes → Result (Option ObjectHeader)
unfolding starts_with unpack_le32 make_header
try_parse_header b =
    if ltb (length b) 128 then ok none else if not (starts_with object_magic b) then ok none else do
      version ← unpack_le32 (slice 8 4 b)
      layers ← unpack_le32 (slice 12 4 b)
      tokens ← unpack_le32 (slice 16 4 b)
      blocks ← unpack_le32 (slice 20 4 b)
      size ← unpack_le32 (slice 24 4 b)
      h ← make_header (record {
        object_format_version = version;
        num_layers = layers;
        matched_tokens = tokens;
        matched_blocks = blocks;
        block_size = size;
      })
      ok (some h)

module _ {T : Type 0} where
  -- one round of the two decoding loops: the layer `i`, of `per` bytes behind the first `start`
  unfoldable pub decode_layer : Codec T → Bytes → ℕ → ℕ → ℕ → Result T
  decode_layer c b start per i = c.decode (record {
    codec_name = c.name;
    content = slice (start + i * per) per b;
    shape = none;
    dtype = if c.is_int8 then "int8" else "float16";
  })

  -- the rounds that are left, from the index `i` on
  unfoldable pub decode_layers : Codec T → Bytes → ℕ → ℕ → ℕ → ℕ → Result (List T)
  unfolding decode_layer
  decode_layers c b start per zero i = ok []
  decode_layers c b start per (suc left) i = do
    t ← decode_layer c b start per i
    rest ← decode_layers c b start per left (suc i)
    ok (t ∷ rest)

  -- `_decode_with_header`
  unfoldable pub decode_with_header :
      Codec T → Bytes → ObjectHeader → Result (Option ObjectHeader × List T)
  unfolding decode_layers
  decode_with_header c b h = if nat_eqb h.num_layers 0 then ok (some h, []) else do
    ts ← decode_layers c b 128 ((length b - 128) / h.num_layers) h.num_layers 0
    ok (some h, ts)

  -- `_decode_legacy_format`
  unfoldable pub decode_legacy_format : Codec T → Bytes → ℕ → Result (Option ObjectHeader × List T)
  unfolding decode_layers
  decode_legacy_format c b num_layers =
      if nat_eqb num_layers 0
      then ok (none, [])
      else do ts ← decode_layers c b 0 (length b / num_layers) num_layers 0; ok (none, ts)

  -- the `try` block of `_parse_and_decode_object`; `none` stands for the fall through to the old format
  unfoldable pub decode_new : Codec T → Bytes → Option (Option ObjectHeader × List T)
  unfolding try_parse_header decode_with_header
  decode_new c b = elim (try_parse_header (take 128 b)) [
    | raise e ↦ none
    | ok none ↦ none
    | ok (some h) ↦
        if ltb h.object_format_version 1
        then none
        else elim (decode_with_header c b h) [ raise e ↦ none | ok r ↦ some r ]
  ]

  -- `_parse_and_decode_object`, with the codec that `get_codec` found
  unfoldable pub parse_and_decode_object :
      Result (Codec T) → Bytes → ℕ → Result (Option ObjectHeader × List T)
  unfolding decode_new decode_legacy_format
  parse_and_decode_object codec b num_layers = do
    c ← codec
    if ltb (length b) 128
        then decode_legacy_format c b num_layers
        else elim (decode_new c b) [ none ↦ decode_legacy_format c b num_layers | some r ↦ ok r ]
