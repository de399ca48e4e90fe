-- ===== src/Store/Eviction.antt =====
-- `LruEvictionPolicy` of src/dakv/store/eviction.py: keys with sizes, least recently used first.
pub mod Order
use awarekv.Prelude.{
  ℕ, String, Bool, true, false, Option, none, some, List, [], ◌∷◌, ◌++◌, if◌then◌else◌, string_eq,
  ltb, length, take, drop,
}
use awarekv.Dict.{Dict, find, contains, remove, keys}

pub record LruEvictionPolicy : Type 0 where
  pub max_items : ℕ
  pub cache : Dict String ℕ

-- `move_to_end`, of a key that is present
unfoldable pub move_to_end : String → Dict String ℕ → Dict String ℕ
move_to_end key d = elim (find key d) [ none ↦ d | some n ↦ remove key d ++ (key, n) ∷ [] ]

unfoldable pub touch : String → LruEvictionPolicy → LruEvictionPolicy
unfolding move_to_end
touch key p = if contains key p.cache then record p { cache = move_to_end key p.cache } else p

-- `popitem(last=False)` is the drop of the first entry.
unfoldable pub add : String → ℕ → LruEvictionPolicy → LruEvictionPolicy
unfolding move_to_end
add key size p =
    if contains key p.cache
    then record p { cache = move_to_end key p.cache }
    else (let d = p.cache ++ (key, size) ∷ [] in
        if ltb p.max_items (length d)
        then record p { cache = drop 1 d }
        else record p { cache = d })

unfoldable pub remove_key : String → LruEvictionPolicy → LruEvictionPolicy
remove_key key p = if contains key p.cache then record p { cache = remove key p.cache } else p

unfoldable pub get_eviction_candidates : ℕ → LruEvictionPolicy → List String
get_eviction_candidates target_count p = take target_count (keys p.cache)
