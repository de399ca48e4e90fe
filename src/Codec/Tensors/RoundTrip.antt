-- ===== src/Codec/Tensors/RoundTrip.antt =====
-- What the codecs of src/dakv/codec decode of what they encode.
use awarekv.Prelude.{
  ℕ, suc, ◌+◌, ◌*◌, some, List, [], ◌∷◌, ◌++◌, map, length, take, drop, ◌≡◌, refl, sym, ap, ◌∙◌,
  subst, arith, ok, ◌>>=◌, take-append_self, drop-append_self, length-append,
}
use awarekv.Transport.Struct.{Bytes}
use awarekv.Codec.{EncodedBlob}
use awarekv.Codec.Tensors.{
  Numeric, Tensor, halves_to_bytes, halves_of_bytes, bytes_to_tensor, fp16_encode, fp16_decode,
  scale_of, quantised, int8_encode, int8_decode,
}

-- the number of elements of a shape
abbrev pub product : List ℕ → ℕ
product [] = 1
product (d ∷ ds) = d * product ds

-- What numpy and the formats promise: two bytes give back the element that they are of, four bytes the
-- float, and a shape of the right size is taken.
pub record NumericLaws (n : Numeric) : Type 0 where
  pub half-half_bytes : (h : n.Half) → n.half_of (n.half_bytes h).0 (n.half_bytes h).1 ≡ h
  pub pack_single-length : (s : n.Single) → length (n.pack_single s) ≡ 4
  pub unpack-pack_single : (s : n.Single) → n.unpack_single (n.pack_single s) ≡ ok s
  pub reshape-product : (ds : List ℕ) → n.reshape (some ds) (product ds) ≡ ok ds

module _ {n : Numeric} (laws : NumericLaws n) where
  halves-round_trip : (hs : List n.Half) → halves_of_bytes n (halves_to_bytes n hs) ≡ ok hs
  unfolding halves_of_bytes halves_to_bytes
  halves-round_trip [] = refl
  halves-round_trip (h ∷ hs) = rw (halves-round_trip hs, laws.half-half_bytes h) refl

  -- The raw codec gives back the tensor that it encodes, where the shape counts the elements and
  -- `reshape` and the bytes of an element do what numpy promises.
  pub fp16_decode-fp16_encode :
      (t : Tensor n)
      → product t.shape ≡ length t.elements
      → (fp16_encode n t >>= fp16_decode n) ≡ ok t
  unfolding fp16_encode fp16_decode bytes_to_tensor
  fp16_decode-fp16_encode t h =
      rw (halves-round_trip t.elements, sym h, laws.reshape-product t.shape) refl

  length-map : {A B : Type 0} (f : A → B) (xs : List A) → length (map f xs) ≡ length xs
  length-map f [] = refl
  length-map f (x ∷ xs) = ap suc (length-map f xs)

  take-packed : (s : n.Single) (bs : Bytes) → take 4 (n.pack_single s ++ bs) ≡ n.pack_single s
  take-packed s bs =
      subst (λ k. take k (n.pack_single s ++ bs) ≡ n.pack_single s) (laws.pack_single-length s)
        (take-append_self (n.pack_single s) bs)

  drop-packed : (s : n.Single) (bs : Bytes) → drop 4 (n.pack_single s ++ bs) ≡ bs
  drop-packed s bs =
      subst (λ k. drop k (n.pack_single s ++ bs) ≡ bs) (laws.pack_single-length s)
        (drop-append_self (n.pack_single s) bs)

  reshape-quantised :
      (t : Tensor n) (scale : n.Single)
      → product t.shape ≡ length t.elements
      → n.reshape (some t.shape) (length (quantised n scale t.elements)) ≡ ok t.shape
  reshape-quantised t scale h =
      ap (n.reshape (some t.shape))
        (length-map (λ x. n.quantise (n.widen x) scale) t.elements ∙ sym h)
      ∙ laws.reshape-product t.shape

  -- The quantised codec, on a tensor with a scale whose shape counts its elements, gives back a
  -- tensor of the same shape, each element quantised with the scale and multiplied by it; its data
  -- are four bytes and one for each element. Packing and `reshape` do what numpy and the formats
  -- promise.
  pub int8_decode-int8_encode :
      (t : Tensor n) (scale : n.Single)
      → scale_of n t.elements ≡ ok scale
      → product t.shape ≡ length t.elements
      → (blob : EncodedBlob) × (int8_encode n t ≡ ok blob)
        × (length blob.content ≡ 4 + length t.elements)
        × (int8_decode n blob
            ≡ ok (record {
              shape = t.shape;
              elements = map (λ b. n.narrow (n.dequantise b scale)) (quantised n scale t.elements);
            }))
  unfolding int8_encode int8_decode
  int8_decode-int8_encode t scale e h =
      let content = n.pack_single scale ++ quantised n scale t.elements in
      (
        record {
          codec_name = "int8_symm";
          content = content;
          shape = some t.shape;
          dtype = "int8";
        },
        rw e refl,
        length-append (n.pack_single scale) (quantised n scale t.elements)
            ∙ grind (
              arith,
              laws.pack_single-length scale,
              length-map (λ x. n.quantise (n.widen x) scale) t.elements,
            ),
        rw
            (
              take-packed scale (quantised n scale t.elements),
              drop-packed scale (quantised n scale t.elements),
              laws.unpack-pack_single scale,
              reshape-quantised t scale h,
            )
            refl,
      )
