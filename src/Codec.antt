-- ===== src/Codec.antt =====
-- src/dakv/codec: what the other parts ask of a codec, and the registry of src/dakv/codec/registry.py.
-- The tensors `T` and what a codec does to them are parameters.
pub mod Tensors
use awarekv.Prelude.{
  ℕ, String, Bool, Option, none, some, List, [], ◌∷◌, Result, ok, raise, value_error, ◌>>=◌,
  string_eq,
}
use awarekv.Dict.{Dict, find, insert}
use awarekv.Transport.Struct.{Bytes}

-- `EncodedBlob` of src/dakv/common/types.py, with the fields that the codecs read
pub record EncodedBlob : Type 0 where
  pub codec_name : String
  pub content : Bytes
  pub shape : Option (List ℕ)
  pub dtype : String

-- `is_int8` is the test "int8" in name
pub record Codec (T : Type 0) : Type 0 where
  pub name : String
  pub is_int8 : Bool
  pub encode : T → Result EncodedBlob
  pub decode : EncodedBlob → Result T

module _ {T : Type 0} where
  -- `_CODEC_REGISTRY` is an argument and a result.
  unfoldable pub register_codec : Codec T → Dict String (Codec T) → Dict String (Codec T)
  register_codec c registry = insert c.name c registry

  unfoldable pub get_codec : Dict String (Codec T) → String → Result (Codec T)
  get_codec registry name = elim (find name registry) [ none ↦ raise value_error | some c ↦ ok c ]

  -- `init_default_codecs`, on the two codecs that it creates
  unfoldable pub init_default_codecs :
      Codec T → Codec T → Dict String (Codec T) → Dict String (Codec T)
  unfolding register_codec
  init_default_codecs fp16 int8 registry = register_codec int8 (register_codec fp16 registry)

  -- the data of the encodings of some tensors, one after the other
  unfoldable pub encode_all : Codec T → List T → Result (List Bytes)
  encode_all c [] = ok []
  encode_all c (t ∷ ts) = do blob ← c.encode t; rest ← encode_all c ts; ok (blob.content ∷ rest)
