-- ===== src/Codec/Tensors.antt =====
-- The two codecs, src/dakv/codec/fp16_raw.py and src/dakv/codec/int8_symm.py, with the functions of
-- src/dakv/common/tensor_io.py that they call. The arithmetic of floats and numpy's `reshape` are
-- parameters. A tensor is on the CPU and has elements of sixteen bits.
pub mod RoundTrip
pub mod Into
use awarekv.Prelude.{
  ℕ, zero, suc, ◌+◌, ◌*◌, String, Bool, true, false, not, Option, none, some, List, [], ◌∷◌, ◌++◌,
  map, if◌then◌else◌, length, take, drop, ◌==◌, string_eq, Result, ok, raise, value_error, ◌>>=◌,
}
use awarekv.Transport.Struct.{Bytes, concat}
use awarekv.Codec.{EncodedBlob, Codec}

-- What the codecs use of numpy and of the floats.
pub record Numeric : Type 1 where
  pub Half : Type 0
  pub Single : Type 0
  -- the two bytes of an element, and back
  pub half_bytes : Half → ℕ × ℕ
  pub half_of : ℕ → ℕ → Half
  pub widen : Half → Single
  pub narrow : Single → Half
  -- np.abs(x).max(), of the first element and the others
  pub abs_max : Single → List Single → Single
  pub is_zero : Single → Bool
  pub one : Single
  -- x / 127.0
  pub per_127 : Single → Single
  -- np.round(x / scale).astype(np.int8), as a byte, and its product with the scale
  pub quantise : Single → Single → ℕ
  pub dequantise : ℕ → Single → Single
  -- struct's format "f"
  pub pack_single : Single → Bytes
  pub unpack_single : Bytes → Result Single
  -- the shape that an array of some elements gets
  pub reshape : Option (List ℕ) → ℕ → Result (List ℕ)

module _ (n : Numeric) where
  pub record Tensor : Type 0 where
    pub shape : List ℕ
    pub elements : List n.Half

-- the test of `decode`
abbrev pub check_name : String → EncodedBlob → Result (Unit {0})
check_name name blob = if blob.codec_name == name then ok tt else raise value_error

module _ (n : Numeric) where
  -- the two functions of tensor_io.py, for elements of sixteen bits
  unfoldable pub halves_to_bytes : List n.Half → Bytes
  halves_to_bytes [] = []
  halves_to_bytes (h ∷ hs) = (n.half_bytes h).0 ∷ (n.half_bytes h).1 ∷ halves_to_bytes hs

  unfoldable pub halves_of_bytes : Bytes → Result (List n.Half)
  halves_of_bytes [] = ok []
  halves_of_bytes (a ∷ []) = raise value_error
  halves_of_bytes (a ∷ b ∷ bs) = do hs ← halves_of_bytes bs; ok (n.half_of a b ∷ hs)

  unfoldable pub bytes_to_tensor : Bytes → Option (List ℕ) → Result (Tensor n)
  unfolding halves_of_bytes
  bytes_to_tensor b shape = do
    hs ← halves_of_bytes b
    dims ← n.reshape shape (length hs)
    ok (record { shape = dims; elements = hs })

  unfoldable pub fp16_encode : Tensor n → Result EncodedBlob
  unfolding halves_to_bytes
  fp16_encode t = ok (record {
    codec_name = "fp16_raw";
    content = halves_to_bytes t.elements;
    shape = some t.shape;
    dtype = "torch.float16";
  })

  unfoldable pub fp16_decode : EncodedBlob → Result (Tensor n)
  unfolding bytes_to_tensor
  fp16_decode blob = do
    checked ← check_name "fp16_raw" blob
    bytes_to_tensor blob.content blob.shape

  -- `FP16RawCodec`
  abbrev pub fp16_raw : Codec (Tensor n)
  fp16_raw = record {
    name = "fp16_raw";
    is_int8 = false;
    encode = fp16_encode;
    decode = fp16_decode;
  }

  -- the scale; the maximum of no element raises
  unfoldable pub scale_of : List n.Half → Result n.Single
  scale_of [] = raise value_error
  scale_of (h ∷ hs) =
      let abs_max = n.abs_max (n.widen h) (map n.widen hs) in
      ok (n.per_127 (if n.is_zero abs_max then n.one else abs_max))

  abbrev pub quantised : n.Single → List n.Half → Bytes
  quantised scale hs = map (λ h. n.quantise (n.widen h) scale) hs

  unfoldable pub int8_encode : Tensor n → Result EncodedBlob
  unfolding scale_of
  int8_encode t = do
    scale ← scale_of t.elements
    ok (record {
      codec_name = "int8_symm";
      content = n.pack_single scale ++ quantised scale t.elements;
      shape = some t.shape;
      dtype = "int8";
    })

  unfoldable pub int8_decode : EncodedBlob → Result (Tensor n)
  int8_decode blob = do
    checked ← check_name "int8_symm" blob
    scale ← n.unpack_single (take 4 blob.content)
    let quantized_bytes = drop 4 blob.content
    dims ← n.reshape blob.shape (length quantized_bytes)
    ok (record {
      shape = dims;
      elements = map (λ b. n.narrow (n.dequantise b scale)) quantized_bytes;
    })

  -- `Int8SymmetricCodec`
  abbrev pub int8_symm : Codec (Tensor n)
  int8_symm = record {
    name = "int8_symm";
    is_int8 = true;
    encode = int8_encode;
    decode = int8_decode;
  }
