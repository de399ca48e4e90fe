-- ===== src/Connector/Paged.antt =====
-- src/dakv/connector/paged_kv_ops.py: reading a prefix out of a layer's paged cache and writing it
-- in. A tensor is the list of its rows; the conversion of device and type of a row is a parameter.
pub mod RoundTrip
use awarekv.Prelude.{
  ℕ, zero, suc, ◌+◌, min, Bool, true, false, Option, none, some, List, [], ◌∷◌, ◌++◌, map, ℤ, pos,
  negsuc, if◌then◌else◌, ltb, length, take, drop, get_elem?, ◌||◌, nat_eqb, not,
}
use awarekv.Tier.Rows.{write_at, write_rows, gather}

-- slot_mapping[slot_mapping >= 0]
unfoldable pub valid_slots : List ℤ → List ℕ
valid_slots [] = []
valid_slots (pos i ∷ ss) = i ∷ valid_slots ss
valid_slots (negsuc i ∷ ss) = valid_slots ss

module _ {ℓ} {A : Type ℓ} where
  -- the rows of the blocks that are in range
  unfoldable pub block_rows : List ℤ → List A → List A
  block_rows [] t = []
  block_rows (pos i ∷ bs) t =
      let rest = block_rows bs t in elim (get_elem? t i) [ none ↦ rest | some r ↦ r ∷ rest ]
  block_rows (negsuc i ∷ bs) t = block_rows bs t

  -- the part of `extract_prefix_kv_from_layer` below the slot mapping
  unfoldable pub extract_blocks : List A → List ℤ → ℕ → List A
  unfolding block_rows
  extract_blocks t blocks tokens = elim (block_rows blocks t) [
    | [] ↦ take tokens t
    | r ∷ rs ↦ r ∷ rs
  ]

  -- An index out of range raises, and the handler takes the first rows.
  unfoldable pub extract_slots : List A → List ℕ → ℕ → List A
  extract_slots t slots tokens = elim (gather (take tokens slots) t) [
    | none ↦ take (min tokens (length t)) t
    | some rows ↦ rows
  ]

  unfoldable pub extract_prefix_kv_from_layer : List A → Option (List ℤ) → List ℤ → ℕ → List A
  unfolding extract_slots extract_blocks valid_slots
  extract_prefix_kv_from_layer t none blocks tokens = extract_blocks t blocks tokens
  extract_prefix_kv_from_layer t (some ss) blocks tokens = elim (valid_slots ss) [
    | [] ↦ extract_blocks t blocks tokens
    | i ∷ is ↦ extract_slots t (i ∷ is) tokens
  ]

  -- the loop over `matched_blocks`: a row is used up by each block in range
  unfoldable pub inject_blocks : List ℤ → List A → List A → List A
  inject_blocks [] rows t = t
  inject_blocks (negsuc i ∷ bs) rows t = inject_blocks bs rows t
  inject_blocks (pos i ∷ bs) [] t = inject_blocks bs [] t
  inject_blocks (pos i ∷ bs) (r ∷ rs) t =
      let there = inject_blocks bs rs (write_at (pos i) r t) in
      let beyond = inject_blocks bs (r ∷ rs) t in if ltb i (length t) then there else beyond

  -- `dst[:n] = src[:n]` for the smaller of the two lengths
  unfoldable pub overwrite : List A → List A → List A
  overwrite [] t = t
  overwrite (r ∷ rs) [] = []
  overwrite (r ∷ rs) (x ∷ t) = r ∷ overwrite rs t

  unfoldable pub inject_prefix_kv_into_layer :
      (A → A) → List A → List A → Option (List ℤ) → List ℤ → Bool × List A
  unfolding write_rows inject_blocks overwrite
  inject_prefix_kv_into_layer convert dst src (some (s ∷ ss)) blocks =
      (true, write_rows (s ∷ ss) (map convert src) dst)
  inject_prefix_kv_into_layer convert dst src slots (b ∷ bs) =
      (true, inject_blocks (b ∷ bs) (map convert src) dst)
  inject_prefix_kv_into_layer convert dst src slots [] = (true, overwrite (map convert src) dst)

-- the loop over the dimensions behind the first, on shapes of one length
unfoldable pub same_dims : List ℕ → List ℕ → Bool
same_dims [] ds = true
same_dims (s ∷ ss) [] = true
same_dims (s ∷ ss) (d ∷ ds) = let rest = same_dims ss ds in if nat_eqb s d then rest else false

-- `validate_kv_shape_compatibility`, on a source shape with a first dimension: an empty one raises
unfoldable pub validate_kv_shape_compatibility : ℕ → List ℕ → List ℕ → ℕ → Bool
unfolding same_dims
validate_kv_shape_compatibility n src dst tokens =
    if not (nat_eqb (suc (length src)) (length dst))
    then false
    else if ltb n tokens
    then false
    else same_dims src (drop 1 dst)
