-- ===== src/Connector/Paged/RoundTrip.antt =====
-- Injection and extraction of src/dakv/connector/paged_kv_ops.py.
use awarekv.Prelude.{
  ℕ, suc, ◌≤◌, ◌≡◌, refl, ap, arith, some, List, [], ◌∷◌, map, ℤ, pos, length, take_all,
}
use awarekv.Tier.Rows.{AllBelow, AllDistinct, gather-write_rows}
use awarekv.Connector.Paged.{valid_slots, extract_prefix_kv_from_layer, inject_prefix_kv_into_layer}

valid_slots-map : (is : List ℕ) → valid_slots (map pos is) ≡ is
unfolding valid_slots
valid_slots-map [] = refl
valid_slots-map (i ∷ is) = ap (◌∷◌ i) (valid_slots-map is)

length-map : {A B : Type 0} (f : A → B) (xs : List A) → length (map f xs) ≡ length xs
length-map f [] = refl
length-map f (x ∷ xs) = ap suc (length-map f xs)

-- For a mapping of the rows to distinct slots in range, and a token count that covers them, what was
-- injected into a layer is extracted again, converted to the layer's device and type.
pub extract-inject :
    {A : Type 0} (convert : A → A) (dst src : List A) (i : ℕ) (is : List ℕ) (blocks bs : List ℤ)
    (tokens : ℕ)
    → AllBelow (length dst) (i ∷ is)
    → AllDistinct (i ∷ is)
    → length (i ∷ is) ≡ length src
    → length src ≤ tokens
    → extract_prefix_kv_from_layer
        (inject_prefix_kv_into_layer convert dst src (some (map pos (i ∷ is))) blocks).1
        (some (map pos (i ∷ is)))
        bs
        tokens
      ≡ map convert src
unfolding extract_prefix_kv_from_layer inject_prefix_kv_into_layer
extract-inject convert dst src i is blocks bs tokens below distinct same covers = ground (
  arith,
  valid_slots-map is,
  take_all tokens (i ∷ is) (omega arith),
  gather-write_rows (i ∷ is) (map convert src) dst below distinct
      (omega (arith, length-map convert src)),
)
