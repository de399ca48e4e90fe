-- ===== src/Connector/Object/Encoded.antt =====
-- What src/dakv/codec encodes, layer by layer, and src/dakv/connector/loader.py decodes.
use awarekv.Prelude.{ℕ, suc, List, [], ◌∷◌, ◌≡◌, refl, ap, subst, length, ok-injective, bind-ok, ok}
use awarekv.Transport.Struct.{Bytes}
use awarekv.Codec.{EncodedBlob, Codec, encode_all}
use awarekv.Connector.Object.Layers.{AllLength, decode_bytes, decode_all}

module _ {T : Type 0} (k : Codec T) (per : ℕ) where
  -- Every tensor that the codec encodes gets `per` bytes.
  abbrev pub EncodesTo : Type 0
  EncodesTo = (t : T) (blob : EncodedBlob) → k.encode t ≡ ok blob → length blob.content ≡ per

  pub length-encode_all :
      (ts : List T) (bs : List Bytes)
      → EncodesTo
      → encode_all k ts ≡ ok bs
      → (length bs ≡ length ts) × AllLength per bs
  unfolding encode_all
  length-encode_all [] bs h e =
      subst (λ xs. (length xs ≡ 0) × AllLength per xs) (ok-injective e) (refl, tt)
  length-encode_all (t ∷ ts) bs h e =
      let (blob, f, e1) = bind-ok (k.encode t) _ e in
      let (rest, g, e2) = bind-ok (encode_all k ts) _ e1 in
      let (n, same) = length-encode_all ts rest h g in
      subst (λ xs. (length xs ≡ suc (length ts)) × AllLength per xs) (ok-injective e2)
        (ap suc n, (h t blob f, same))

module _ {T : Type 0} (k : Codec T) where
  -- The data of an encoding, decoded as the loader does it, is the tensor.
  abbrev pub Decodes : Type 0
  Decodes = (t : T) (blob : EncodedBlob) → k.encode t ≡ ok blob → decode_bytes k blob.content ≡ ok t

  pub decode-encode_all :
      (ts : List T) (bs : List Bytes) → Decodes → encode_all k ts ≡ ok bs → decode_all k bs ≡ ok ts
  unfolding encode_all decode_all
  decode-encode_all [] bs h e = subst (λ xs. decode_all k xs ≡ ok []) (ok-injective e) refl
  decode-encode_all (t ∷ ts) bs h e =
      let (blob, f, e1) = bind-ok (k.encode t) _ e in
      let (rest, g, e2) = bind-ok (encode_all k ts) _ e1 in
      subst (λ xs. decode_all k xs ≡ ok (t ∷ ts)) (ok-injective e2)
        (rw (h t blob f, decode-encode_all ts rest h g) refl)
