-- ===== src/Store/MemoryIndex/Expiry.antt =====
-- src/dakv/store/memory_index.py against a specification: the manifests that live at a time.
use awarekv.Prelude.{
  ℕ, String, Bool, true, false, Option, none, some, List, [], ◌∷◌, if◌then◌else◌, string_eq, ◌==◌,
  ◌≡◌, arith, refl, ==_iff,
}
use awarekv.Common.Types.{PrefixManifest}
use awarekv.Dict.{Dict, find, remove, Distinct}
use awarekv.Dict.Laws.{find-insert, find-remove, find-modify, contains-find, option_map}
use awarekv.Store.MemoryIndex
use awarekv.Store.MemoryIndex.{
  MemoryIndex, touched, is_expired, expired_keys, delete_keys, evict_expired,
}

-- What lives at a time.
abbrev pub live : ℕ → Option PrefixManifest → Option PrefixManifest
live now none = none
live now (some m) = if is_expired now m then none else some m

-- The abstract view of the index at a time: the manifests that a query may return.
unfoldable pub view : ℕ → MemoryIndex → String → Option PrefixManifest
view now ix key = live now (find key ix.index)

-- `get` returns the view of its key, and no view of any key changes by it.
pub get-eq-view :
    (now : ℕ) (key j : String) (ix : MemoryIndex)
    → ((MemoryIndex.get now key ix).0 ≡ view now ix key)
      × (view now (MemoryIndex.get now key ix).1 j ≡ view now ix j)
unfolding MemoryIndex.get view
get-eq-view now key j ix = ground (arith, find-remove key j ix.index, ==_iff key j)

-- A manifest stays readable until its age passes `ttl_s` seconds, then it is gone; with `ttl_s` 0
-- it stays for ever. Other keys are not affected by the write.
pub get-put :
    (now : ℕ) (key : String) (m : PrefixManifest) (ix : MemoryIndex)
    → (MemoryIndex.get now key (MemoryIndex.put m ix)).0
      ≡ (if m.prefix_key == key then live now (some m) else view now ix key)
unfolding MemoryIndex.get MemoryIndex.put view
get-put now key m ix = ground (arith, find-insert m.prefix_key key m ix.index)

-- `touch` reports whether the key is stored, and prolongs no life: what is readable at any later
-- time is what was readable before, but for the access time.
pub view-touch :
    (now later : ℕ) (key j : String) (ix : MemoryIndex)
    → view later (MemoryIndex.touch now key ix).1 j
      ≡ (if key == j then option_map (touched now) (view later ix j) else view later ix j)
unfolding MemoryIndex.touch view is_expired
view-touch now later key j ix =
    grind
      (arith, find-modify key j (touched now) ix.index, contains-find key ix.index, ==_iff key j)

-- After `delete` the key is not readable, and the result says whether it was stored.
pub view-delete :
    (now : ℕ) (key j : String) (ix : MemoryIndex)
    → view now (MemoryIndex.delete key ix).1 j ≡ (if key == j then none else view now ix j)
unfolding MemoryIndex.delete view
view-delete now key j ix =
    ground (arith, find-remove key j ix.index, contains-find key ix.index, ==_iff key j)

mem : String → List String → Bool
mem j [] = false
mem j (k ∷ ks) = if k == j then true else mem j ks

find-delete_keys :
    (ks : List String) (j : String) (d : Dict String PrefixManifest)
    → find j (delete_keys ks d) ≡ (if mem j ks then none else find j d)
unfolding delete_keys mem
find-delete_keys [] j d = refl
find-delete_keys (k ∷ ks) j d =
    ground (arith, find-delete_keys ks j (remove k d), find-remove k j d)

mem-absent :
    (now : ℕ) (j : String) (d : Dict String PrefixManifest)
    → find j d ≡ none
    → mem j (expired_keys now d) ≡ false
unfolding mem expired_keys find
mem-absent now j [] h = refl
mem-absent now j ((i, m) ∷ d) h = ground (arith, mem-absent now j d)

mem-expired_keys :
    (now : ℕ) (j : String) (d : Dict String PrefixManifest)
    → Distinct d
    → (if mem j (expired_keys now d) then none else find j d) ≡ live now (find j d)
unfolding mem expired_keys find
mem-expired_keys now j [] h = refl
mem-expired_keys now j ((i, m) ∷ d) h =
    ground (arith, mem-expired_keys now j d, mem-absent now j d, ==_iff i j)

-- `evict_expired` removes exactly what has expired: the table it leaves is the view.
pub find-evict_expired :
    (now : ℕ) (j : String) (ix : MemoryIndex)
    → Distinct ix.index
    → find j (evict_expired now ix).1.index ≡ view now ix j
unfolding evict_expired view
find-evict_expired now j ix h = ground (
  arith,
  find-delete_keys (expired_keys now ix.index) j ix.index,
  mem-expired_keys now j ix.index,
)
