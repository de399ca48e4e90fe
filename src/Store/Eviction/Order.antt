-- ===== src/Store/Eviction/Order.antt =====
-- src/dakv/store/eviction.py: the bound on the keys and their order.
use awarekv.Prelude.{
  ℕ, ◌+◌, ◌≤◌, String, none, some, [], ◌∷◌, ◌++◌, string_eq, ◌≡◌, arith, ==_iff, length,
  length-append, length-drop, map-append, Option-cases, inl, inr,
}
use awarekv.Dict.{Dict, find, remove, keys, Distinct}
use awarekv.Dict.Laws.{
  contains-find, remove_absent, remove-Distinct, append-Distinct, find-remove_self, drop-Distinct,
}
use awarekv.Store.Eviction.{LruEvictionPolicy, move_to_end, touch, add, get_eviction_candidates}

length-remove :
    (k : String) (d : Dict String ℕ) (n : ℕ)
    → Distinct d
    → find k d ≡ some n
    → length (remove k d) + 1 ≡ length d
unfolding remove find
length-remove k [] n h e = absurd (cc)
length-remove k ((j, m) ∷ d) n h e =
    ground (arith, length-remove k d n, remove_absent k d, ==_iff j k)

-- At most `max_items` keys, none of them twice.
pub record IsValid (p : LruEvictionPolicy) : Type 0 where
  pub bounded : length p.cache ≤ p.max_items
  pub distinct : Distinct p.cache

move_to_end-IsValid :
    (key : String) (p : LruEvictionPolicy)
    → IsValid p
    → IsValid (record p { cache = move_to_end key p.cache })
unfolding move_to_end
move_to_end-IsValid key p v = elim (Option-cases (find key p.cache)) [
  | inl e ↦ rw (e, move_to_end) v
  | inr (n, e) ↦
      rw (e, move_to_end)
        (record {
          bounded = omega (
            arith,
            length-append (remove key p.cache) ((key, n) ∷ []),
            length-remove key p.cache n v.distinct e,
            v.bounded,
          );
          distinct =
              append-Distinct key n (remove key p.cache) (find-remove_self key p.cache)
                (remove-Distinct key p.cache v.distinct);
        })
]

pub touch-IsValid : (key : String) (p : LruEvictionPolicy) → IsValid p → IsValid (touch key p)
unfolding touch
touch-IsValid key p v = ground (arith, move_to_end-IsValid key p v)

-- Adding a key keeps the bound, and no key is held twice.
pub add-IsValid :
    (key : String) (size : ℕ) (p : LruEvictionPolicy) → IsValid p → IsValid (add key size p)
unfolding add
add-IsValid key size p v = ground (
  arith,
  move_to_end-IsValid key p v,
  length-append p.cache ((key, size) ∷ []),
  length-drop 1 (p.cache ++ (key, size) ∷ []),
  append-Distinct key size p.cache,
  drop-Distinct 1 (p.cache ++ (key, size) ∷ []),
  contains-find key p.cache,
)

-- A full policy that takes a new key gives up its first eviction candidate and nothing else: the
-- other candidates stay in order, and the new key is the last.
pub add-evicts :
    (key oldest : String) (size n : ℕ) (d : Dict String ℕ) (p : LruEvictionPolicy)
    → p.cache ≡ (oldest, n) ∷ d
    → find key p.cache ≡ none
    → length p.cache ≡ p.max_items
    → (get_eviction_candidates 1 p ≡ oldest ∷ []) × ((add key size p).cache ≡ d ++ (key, size) ∷ [])
unfolding add get_eviction_candidates
add-evicts key oldest size n d p e absent full =
    ground (arith, contains-find key p.cache, length-append d ((key, size) ∷ []))

-- A touched key is the last to be evicted, and the others keep their order.
pub touch-candidates :
    (key : String) (n : ℕ) (p : LruEvictionPolicy)
    → find key p.cache ≡ some n
    → keys (touch key p).cache ≡ keys (remove key p.cache) ++ key ∷ []
unfolding touch move_to_end
touch-candidates key n p e =
    rw (contains-find key p.cache, e)
      (rw (e, move_to_end)
        (map-append (λ (x : String × ℕ). x.0) (remove key p.cache) ((key, n) ∷ [])))
