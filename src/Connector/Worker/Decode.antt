-- ===== src/Connector/Worker/Decode.antt =====
-- `_decode_critical_kv` of src/dakv/connector/worker_side.py: the bytes of each layer.
use awarekv.Prelude.{
  ℕ, zero, suc, ◌+◌, ◌-◌, ◌*◌, ◌/◌, ◌<◌, ◌≡◌, ap, ◌∙◌, arith, List, [], ◌∷◌, append-nil, length,
  drop, take-append-drop, drop-add, lt→ltb, le→ltb, ok, ◌≤◌, refl, some, if◌then◌else◌, nat_eqb,
  Bool-cases, inl, inr, max, bind-ok, length-drop, length-take_of_le,
}
use native.Mathlib.Nat.{div-mul-le_self, mul-le-mul_right}
use awarekv.Transport.Struct.{Bytes, concat}
use awarekv.Codec.{Codec}
use awarekv.Connector.Worker.{
  WorkerConfig, layer_slice, estimated_shape, decode_layer, decode_from, decode_critical_kv,
}

-- the slices of the layers from `i` on
unfoldable pub slices_from : Bytes → ℕ → ℕ → ℕ → List Bytes
slices_from bs n zero i = []
slices_from bs n (suc left) i = layer_slice bs n i ∷ slices_from bs n left (suc i)

next_start : (k m : ℕ) → suc k * m ≡ k * m + m
next_start k m = grind arith

concat-slices_from :
    (bs : Bytes) (n left i : ℕ)
    → suc left + i ≡ n
    → concat (slices_from bs n (suc left) i) ≡ drop (i * (length bs / n)) bs
unfolding slices_from layer_slice
concat-slices_from bs n zero i h = rw (le→ltb i (n - 1) (omega arith), append-nil)
concat-slices_from bs n (suc left) i h =
    let c = length bs / n in
    rw (lt→ltb i (n - 1) (omega arith), concat-slices_from bs n left (suc i) (omega arith))
      (rw (next_start i c, drop-add) (take-append-drop c (drop (i * c) bs)))

-- The layers' slices are the fetched bytes, cut into as many pieces as there are layers: no byte is
-- lost and none belongs to two layers.
pub concat-slices : (bs : Bytes) (n : ℕ) → 0 < n → concat (slices_from bs n n 0) ≡ bs
concat-slices bs zero h = absurd (omega arith)
concat-slices bs (suc n) h =
    concat-slices_from bs (suc n) n 0 (omega arith)
    ∙ ap (λ k. drop k bs) (zero_start (length bs / suc n))
  where
    zero_start : (k : ℕ) → 0 * k ≡ 0
    zero_start k = omega arith

-- All pieces but the last have a length, and the last has no less.
abbrev pub IsEven : ℕ → List Bytes → Type 0
IsEven per [] = Unit
IsEven per (b ∷ []) = per ≤ length b
IsEven per (b ∷ b' ∷ rest) = (length b ≡ per) × IsEven per (b' ∷ rest)

length-slices_from : (bs : Bytes) (n left i : ℕ) → length (slices_from bs n left i) ≡ left
unfolding slices_from
length-slices_from bs n zero i = refl
length-slices_from bs n (suc left) i = ap suc (length-slices_from bs n left (suc i))

-- The slices before the last, and their own lengths, are within the bytes.
slice_end : (size n i : ℕ) → i < n → i * (size / n) + size / n ≤ size
slice_end size n i h =
    let all = mul-le-mul_right (size / n) h in omega (arith, rounds, all, div-mul-le_self size n)
  where
    rounds : suc i * (size / n) ≡ i * (size / n) + size / n
    rounds = next_start i (size / n)

slices_from-IsEven :
    (bs : Bytes) (n left i : ℕ)
    → 0 < n
    → left + i ≡ n
    → IsEven (length bs / n) (slices_from bs n left i)
unfolding slices_from layer_slice
slices_from-IsEven bs n zero i some_layer h = tt
slices_from-IsEven bs n (suc zero) i some_layer h =
    rw (le→ltb i (n - 1) (omega (arith, h)), length-drop (i * (length bs / n)) bs)
      (omega (arith, slice_end (length bs) n i (omega (arith, h))))
slices_from-IsEven bs n (suc (suc left)) i some_layer h = (
  rw (lt→ltb i (n - 1) (omega (arith, h))) (
      length-take_of_le (length bs / n) (drop (i * (length bs / n)) bs) (
        rw (length-drop (i * (length bs / n)) bs)
          (omega (arith, slice_end (length bs) n i (omega (arith, h)))))),
  slices_from-IsEven bs n (suc left) (suc i) some_layer (omega (arith, h)),
)

module _ {A : Type 0} (c : WorkerConfig) (codec : Codec (List A)) where
  -- The codec's decoding of some bytes to some blocks of the configured shape is the tensor.
  abbrev pub IsDecoded : Bytes → List A → Type 0
  IsDecoded b t =
      (blocks : ℕ) × (1 ≤ blocks)
      × (codec.decode (record {
        codec_name = codec.name;
        content = b;
        shape = some (blocks ∷ c.block_size ∷ c.num_kv_heads ∷ c.head_size ∷ []);
        dtype = if codec.is_int8 then "int8" else "float16";
      })
          ≡ ok t)

  abbrev pub AllDecoded : List Bytes → List (List A) → Type 0
  AllDecoded [] [] = Unit
  AllDecoded (b ∷ rest) (t ∷ ts) = IsDecoded b t × AllDecoded rest ts
  AllDecoded _ _ = ⊥

  decode_layer-IsDecoded : (b : Bytes) (t : List A) → decode_layer c codec b ≡ ok t → IsDecoded b t
  unfolding decode_layer estimated_shape
  decode_layer-IsDecoded b t e =
      elim (Bool-cases (nat_eqb (c.block_size * c.num_kv_heads * c.head_size) 0)) [
        | inl z ↦ absurd (ground arith)
        | inr z ↦ (
          max 1 (
              length b
              / (if codec.is_int8 then 1 else 2)
              / (c.block_size * c.num_kv_heads * c.head_size)),
          ground arith,
          ground arith,
        )
      ]

  decode_from-AllDecoded :
      (bs : Bytes) (n left i : ℕ) (kvs : List (List A))
      → decode_from c codec bs n left i ≡ ok kvs
      → AllDecoded (slices_from bs n left i) kvs
  unfolding decode_from slices_from
  decode_from-AllDecoded bs n zero i [] e = tt
  decode_from-AllDecoded bs n zero i (t ∷ ts) e = absurd (ground arith)
  decode_from-AllDecoded bs n (suc left) i [] e = absurd (ground arith)
  decode_from-AllDecoded bs n (suc left) i (t ∷ ts) e =
      let (t', f, e1) = bind-ok (decode_layer c codec (layer_slice bs n i)) _ e in
      let (ts', g, e2) = bind-ok (decode_from c codec bs n left (suc i)) _ e1 in
      (
        decode_layer-IsDecoded (layer_slice bs n i) t (ground arith),
        decode_from-AllDecoded bs n left (suc i) ts (ground arith),
      )

-- When decoding succeeds, the bytes are cut into as many pieces as there are layers, one behind the
-- other, none left out and of equal length but for the last, which takes the rest; and each layer is
-- the codec's decoding of its piece to blocks of the configured shape.
pub decode_critical_kv-AllDecoded :
    {A : Type 0} (c : WorkerConfig) (codec : Codec (List A)) (bs : Bytes) (n : ℕ)
    {kvs : List (List A)}
    → decode_critical_kv c (ok codec) bs n ≡ ok kvs
    → (pieces : List Bytes) × (0 < n)
      × (length pieces ≡ n)
      × (concat pieces ≡ bs)
      × IsEven (length bs / n) pieces
      × AllDecoded c codec pieces kvs
unfolding decode_critical_kv
decode_critical_kv-AllDecoded c codec bs n {kvs} e =
    let some_layer : 0 < n = ground arith in
    (
      slices_from bs n n 0,
      some_layer,
      length-slices_from bs n n 0,
      concat-slices bs n some_layer,
      slices_from-IsEven bs n n 0 some_layer (omega arith),
      decode_from-AllDecoded c codec bs n n 0 kvs (ground arith),
    )
