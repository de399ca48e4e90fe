-- ===== src/Codec/Tensors/Into.antt =====
-- `decode_to` of the two codecs, src/dakv/codec/fp16_raw.py and src/dakv/codec/int8_symm.py, and
-- `get_tensor_nbytes` of src/dakv/common/tensor_io.py. What the destination makes of the elements that
-- are copied into it, and what raises there, is a parameter.
use awarekv.Prelude.{
  ℕ, ◌*◌, some, List, [], ◌∷◌, length, Result, ok, ◌>>=◌, ◌≡◌, refl, ap, sym, ◌∙◌, arith,
}
use awarekv.Codec.{EncodedBlob}
use awarekv.Codec.Tensors.{
  Numeric, Tensor, check_name, halves_to_bytes, bytes_to_tensor, fp16_encode, fp16_decode,
  int8_decode,
}
use awarekv.Codec.Tensors.RoundTrip.{product}

module _ (n : Numeric) where
  -- `FP16RawCodec.decode_to`
  unfoldable pub fp16_decode_to : (Tensor n → Result (Tensor n)) → EncodedBlob → Result (Tensor n)
  fp16_decode_to copy blob = do
    checked ← check_name "fp16_raw" blob
    decoded ← bytes_to_tensor n blob.content blob.shape
    copy decoded

  -- `Int8SymmetricCodec.decode_to`, which tests the name twice
  unfoldable pub int8_decode_to : (Tensor n → Result (Tensor n)) → EncodedBlob → Result (Tensor n)
  int8_decode_to copy blob = do
    checked ← check_name "int8_symm" blob
    decoded ← int8_decode n blob
    copy decoded

  -- `get_tensor_nbytes`, with the size of an element
  unfoldable pub get_tensor_nbytes : List ℕ → ℕ → ℕ
  get_tensor_nbytes shape element_size = product shape * element_size

  -- Decoding into a destination is decoding and copying, for both codecs, errors included.
  pub decode_to-decode :
      (copy : Tensor n → Result (Tensor n)) (blob : EncodedBlob)
      → (fp16_decode_to copy blob ≡ (fp16_decode n blob >>= copy))
        × (int8_decode_to copy blob ≡ (int8_decode n blob >>= copy))
  unfolding fp16_decode_to int8_decode_to fp16_decode int8_decode
  decode_to-decode copy blob = (ground arith, ground arith)

  length-halves_to_bytes : (hs : List n.Half) → length (halves_to_bytes n hs) ≡ length hs * 2
  unfolding halves_to_bytes
  length-halves_to_bytes [] = refl
  length-halves_to_bytes (h ∷ hs) = omega (arith, length-halves_to_bytes hs)

  -- A tensor whose shape counts its elements is encoded into as many bytes as `get_tensor_nbytes` says
  -- for elements of two bytes.
  pub length-fp16_encode :
      (t : Tensor n)
      → product t.shape ≡ length t.elements
      → (blob : EncodedBlob) × (fp16_encode n t ≡ ok blob)
        × (length blob.content ≡ get_tensor_nbytes t.shape 2)
  unfolding fp16_encode get_tensor_nbytes
  length-fp16_encode t h = (
    record {
      codec_name = "fp16_raw";
      content = halves_to_bytes n t.elements;
      shape = some t.shape;
      dtype = "torch.float16";
    },
    refl,
    length-halves_to_bytes t.elements ∙ ap (λ k. k * 2) (sym h),
  )
