-- ===== src/Connector/Object/Layers.antt =====
-- The layers of an object without a header: what src/dakv/connector/loader.py decodes.
use native.Mathlib.Nat.{div-eq_of_eq-mul_right}
use awarekv.Prelude.{
  ℕ, suc, ◌+◌, ◌*◌, ◌/◌, ◌<◌, ◌≡◌, refl, sym, ap, ◌∙◌, arith, false, none, List, [], ◌∷◌, ◌++◌,
  if◌then◌else◌, nat_eqb, length, take, drop, Result, ok, ◌>>=◌, take-append_self, drop-append_self,
  drop-add, length-append,
}
use awarekv.Transport.Struct.{Bytes, concat}
use awarekv.Transport.Protocol.{slice}
use awarekv.Codec.{Codec}
use awarekv.Connector.Object.{decode_layer, decode_layers, decode_legacy_format}

-- Every layer has `per` bytes.
abbrev pub AllLength : ℕ → List Bytes → Type 0
AllLength per [] = Unit
AllLength per (b ∷ bs) = (length b ≡ per) × AllLength per bs

pub length-concat :
    (per : ℕ) (bs : List Bytes) → AllLength per bs → length (concat bs) ≡ length bs * per
length-concat per [] h = omega arith
length-concat per (b ∷ bs) h = grind (arith, length-append b (concat bs), length-concat per bs h.1)

nonzero : (n : ℕ) → 0 < n → nat_eqb n 0 ≡ false
nonzero n h = ground arith

module _ {T : Type 0} (c : Codec T) where
  -- the decoding of one layer's bytes
  abbrev pub decode_bytes : Bytes → Result T
  decode_bytes b = c.decode (record {
    codec_name = c.name;
    content = b;
    shape = none;
    dtype = if c.is_int8 then "int8" else "float16";
  })

  unfoldable pub decode_all : List Bytes → Result (List T)
  decode_all [] = ok []
  decode_all (b ∷ bs) = do t ← decode_bytes b; ts ← decode_all bs; ok (t ∷ ts)

  decode_layer-slice :
      (b x : Bytes) (start per i : ℕ)
      → slice (start + i * per) per b ≡ x
      → decode_layer c b start per i ≡ decode_bytes x
  unfolding decode_layer
  decode_layer-slice b x start per i e = ap decode_bytes e

  decode_layers-concat :
      (b : Bytes) (start per i : ℕ) (bs : List Bytes)
      → AllLength per bs
      → drop (start + i * per) b ≡ concat bs
      → decode_layers c b start per (length bs) i ≡ decode_all bs
  unfolding decode_layers decode_all
  decode_layers-concat b start per i [] h e = refl
  decode_layers-concat b start per i (x ∷ bs) h e = rw (
    decode_layer-slice b x start per i piece,
    decode_layers-concat b start per (suc i) bs h.1 next,
  )
    where
      piece : slice (start + i * per) per b ≡ x
      piece =
          ap (take per) e
          ∙ ap (λ n. take n (x ++ concat bs)) (sym h.0)
          ∙ take-append_self x (concat bs)

      next_start : start + suc i * per ≡ start + i * per + per
      next_start = grind arith

      next : drop (start + suc i * per) b ≡ concat bs
      next =
          ap (λ n. drop n b) next_start
          ∙ drop-add (start + i * per) per b
          ∙ ap (drop per) e
          ∙ ap (λ n. drop n (x ++ concat bs)) (sym h.0)
          ∙ drop-append_self x (concat bs)

  -- What is behind no header is decoded to the decodings of its layers.
  pub decode_legacy_format-concat :
      (per : ℕ) (bs : List Bytes) {ts : List T}
      → 0 < length bs
      → AllLength per bs
      → decode_all bs ≡ ok ts
      → decode_legacy_format c (concat bs) (length bs) ≡ ok (none, ts)
  unfolding decode_legacy_format
  decode_legacy_format-concat per bs some_layer same d =
      ground (arith, nonzero (length bs) some_layer, layers, d)
    where
      per_layer : length (concat bs) / length bs ≡ per
      per_layer = div-eq_of_eq-mul_right some_layer (length-concat per bs same)

      zero_start : (n : ℕ) → 0 + 0 * n ≡ 0
      zero_start n = omega arith

      start : drop (0 + 0 * per) (concat bs) ≡ concat bs
      start = ap (λ n. drop n (concat bs)) (zero_start per)

      layers :
          decode_layers c (concat bs) 0 (length (concat bs) / length bs) (length bs) 0
          ≡ decode_all bs
      layers = rw per_layer (decode_layers-concat (concat bs) 0 per 0 bs same start)
