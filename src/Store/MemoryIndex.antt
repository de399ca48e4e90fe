-- ===== src/Store/MemoryIndex.antt =====
-- src/dakv/store/memory_index.py. The lock makes each method one step; `now` is the clock's reading
-- in milliseconds.
pub mod Expiry
pub mod Runs
use awarekv.Prelude.{
  ℕ, suc, ◌-◌, ◌*◌, String, Bool, true, false, Option, none, some, List, [], ◌∷◌, if◌then◌else◌,
  string_eq, nat_eqb, ltb, length,
}
use awarekv.Common.Types.{PrefixManifest}
use awarekv.Dict.{Dict, find, contains, insert, remove, modify, values}

pub record MemoryIndex : Type 0 where
  pub index : Dict String PrefixManifest

unfoldable pub new_index : MemoryIndex
new_index = record { index = [] }

-- `_is_expired`; a clock that was set back makes the age negative, which is no age above the limit
unfoldable pub is_expired : ℕ → PrefixManifest → Bool
is_expired now m = if nat_eqb m.ttl_s 0 then false else ltb (m.ttl_s * 1000) (now - m.created_at_ms)

unfoldable pub get : ℕ → String → MemoryIndex → Option PrefixManifest × MemoryIndex
unfolding is_expired
get now key ix = elim (find key ix.index) [
  | none ↦ (none, ix)
  | some m ↦
      if is_expired now m then (none, record ix { index = remove key ix.index }) else (some m, ix)
]

unfoldable pub put : PrefixManifest → MemoryIndex → MemoryIndex
put m ix = record ix { index = insert m.prefix_key m ix.index }

unfoldable pub delete : String → MemoryIndex → Bool × MemoryIndex
delete key ix =
    if contains key ix.index then (true, record ix { index = remove key ix.index }) else (false, ix)

abbrev pub touched : ℕ → PrefixManifest → PrefixManifest
touched now m = record m { last_access_ms = now }

unfoldable pub touch : ℕ → String → MemoryIndex → Bool × MemoryIndex
touch now key ix =
    if contains key ix.index
    then (true, record ix { index = modify key (touched now) ix.index })
    else (false, ix)

unfoldable pub list_all : MemoryIndex → List PrefixManifest
list_all ix = values ix.index

-- The two loops of `evict_expired`. Each reading of the clock is taken to be the same.
unfoldable pub expired_keys : ℕ → Dict String PrefixManifest → List String
unfolding is_expired
expired_keys now [] = []
expired_keys now ((key, m) ∷ d) =
    let rest = expired_keys now d in if is_expired now m then key ∷ rest else rest

unfoldable pub delete_keys : List String → Dict String PrefixManifest → Dict String PrefixManifest
delete_keys [] d = d
delete_keys (key ∷ ks) d = delete_keys ks (remove key d)

unfoldable pub evict_expired : ℕ → MemoryIndex → ℕ × MemoryIndex
unfolding expired_keys delete_keys
evict_expired now ix =
    let ks = expired_keys now ix.index in (length ks, record ix { index = delete_keys ks ix.index })
