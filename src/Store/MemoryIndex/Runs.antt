-- ===== src/Store/MemoryIndex/Runs.antt =====
-- src/dakv/store/memory_index.py over any calls, in the order in which the lock lets them in, against
-- a store that forgets nothing.
use awarekv.Prelude.{
  ℕ, ◌≤◌, String, true, Option, none, some, List, [], ◌∷◌, if◌then◌else◌, string_eq, ◌==◌, ◌≡◌,
  refl, ◌∙◌, ap, arith, ==_iff,
}
use awarekv.Common.Types.{PrefixManifest}
use awarekv.Dict.{Dict, find, remove, Distinct}
use awarekv.Dict.Laws.{
  find-insert, find-remove, find-modify, contains-find, option_map, insert-Distinct,
  remove-Distinct, modify-Distinct,
}
use awarekv.Store.MemoryIndex
use awarekv.Store.MemoryIndex.{
  MemoryIndex, new_index, touched, is_expired, expired_keys, delete_keys, evict_expired,
}
use awarekv.Store.MemoryIndex.Expiry.{live, view, get-eq-view, find-evict_expired}

pub data Call : Type 0 where
  gets deletes touches : String → Call
  puts : PrefixManifest → Call
  evicts : Call

-- the index after a call at a time
unfoldable pub after : ℕ → Call → MemoryIndex → MemoryIndex
after now (gets key) ix = (MemoryIndex.get now key ix).1
after now (deletes key) ix = (MemoryIndex.delete key ix).1
after now (touches key) ix = (MemoryIndex.touch now key ix).1
after now (puts m) ix = MemoryIndex.put m ix
after now evicts ix = (evict_expired now ix).1

-- the calls, each with the reading of the clock
unfoldable pub run : List (ℕ × Call) → MemoryIndex → MemoryIndex
unfolding after
run [] ix = ix
run ((now, call) ∷ calls) ix = run calls (after now call ix)

-- the store that forgets nothing
abbrev pub Record : Type 0
Record = String → Option PrefixManifest

abbrev pub noted : ℕ → Call → Record → Record
noted now (gets key) r j = r j
noted now (deletes key) r j = if key == j then none else r j
noted now (touches key) r j = if key == j then option_map (touched now) (r j) else r j
noted now (puts m) r j = if m.prefix_key == j then some m else r j
noted now evicts r j = r j

abbrev pub all_noted : List (ℕ × Call) → Record → Record
all_noted [] r = r
all_noted ((now, call) ∷ calls) r = all_noted calls (noted now call r)

-- The clock does not go back, from a time to an end.
abbrev pub IsOrdered : ℕ → List (ℕ × Call) → ℕ → Type 0
IsOrdered t [] end = t ≤ end
IsOrdered t ((now, call) ∷ calls) end = (t ≤ now) × IsOrdered now calls end

-- From a time on the index shows what the record shows.
record Shows (t : ℕ) (ix : MemoryIndex) (r : Record) : Type 0 where
  same : (now : ℕ) (j : String) → t ≤ now → live now (find j ix.index) ≡ live now (r j)
  distinct : Distinct ix.index

is_expired_mono :
    (s t : ℕ) (m : PrefixManifest) → s ≤ t → is_expired s m ≡ true → is_expired t m ≡ true
unfolding is_expired
is_expired_mono s t m h e = ground arith

live-later : (s t : ℕ) (o : Option PrefixManifest) → s ≤ t → live t (live s o) ≡ live t o
live-later s t none h = refl
live-later s t (some m) h = ground (arith, is_expired_mono s t m h)

live-touched :
    (s t : ℕ) (o p : Option PrefixManifest)
    → live t o ≡ live t p
    → live t (option_map (touched s) o) ≡ live t (option_map (touched s) p)
unfolding is_expired
live-touched s t none none e = refl
live-touched s t none (some p) e = ground arith
live-touched s t (some o) none e = ground arith
live-touched s t (some o) (some p) e = ground arith

delete_keys-Distinct :
    (ks : List String) (d : Dict String PrefixManifest) → Distinct d → Distinct (delete_keys ks d)
unfolding delete_keys
delete_keys-Distinct [] d h = h
delete_keys-Distinct (k ∷ ks) d h = delete_keys-Distinct ks (remove k d) (remove-Distinct k d h)

after-Distinct :
    (now : ℕ) (call : Call) (ix : MemoryIndex)
    → Distinct ix.index
    → Distinct (after now call ix).index
unfolding after MemoryIndex.get MemoryIndex.delete MemoryIndex.touch MemoryIndex.put evict_expired
after-Distinct now (gets key) ix h = ground (arith, remove-Distinct key ix.index h)
after-Distinct now (deletes key) ix h = ground (arith, remove-Distinct key ix.index h)
after-Distinct now (touches key) ix h = ground (arith, modify-Distinct key (touched now) ix.index h)
after-Distinct now (puts m) ix h = insert-Distinct m.prefix_key m ix.index h
after-Distinct now evicts ix h = delete_keys-Distinct (expired_keys now ix.index) ix.index h

-- what a call does to what the index shows later
live-after :
    (now later : ℕ) (call : Call) (ix : MemoryIndex) (j : String)
    → Distinct ix.index
    → now ≤ later
    → live later (find j (after now call ix).index)
      ≡ live later (noted now call (λ k. find k ix.index) j)
unfolding after MemoryIndex.get MemoryIndex.delete MemoryIndex.touch MemoryIndex.put
live-after now later (gets key) ix j d h = ground (
  arith,
  find-remove key j ix.index,
  ==_iff key j,
  λ (m : PrefixManifest). is_expired_mono now later m h,
)
live-after now later (deletes key) ix j d h =
    ground (arith, find-remove key j ix.index, contains-find key ix.index, ==_iff key j)
live-after now later (touches key) ix j d h =
    ground
      (arith, find-modify key j (touched now) ix.index, contains-find key ix.index, ==_iff key j)
live-after now later (puts m) ix j d h = ground (arith, find-insert m.prefix_key j m ix.index)
live-after now later evicts ix j d h =
    ap (live later) (find-evict_expired now j ix d)
    ∙ (unfold view in live-later now later (find j ix.index) h)

noted-live :
    (now later : ℕ) (call : Call) (r r' : Record) (j : String)
    → live later (r j) ≡ live later (r' j)
    → live later (noted now call r j) ≡ live later (noted now call r' j)
noted-live now later (gets key) r r' j e = e
noted-live now later (deletes key) r r' j e = ground arith
noted-live now later (touches key) r r' j e = ground (arith, live-touched now later (r j) (r' j) e)
noted-live now later (puts m) r r' j e = ground arith
noted-live now later evicts r r' j e = e

after-Shows :
    (t now : ℕ) (call : Call) (ix : MemoryIndex) (r : Record)
    → t ≤ now
    → Shows t ix r
    → Shows now (after now call ix) (noted now call r)
after-Shows t now call ix r h s = record {
  same = λ later j le.
      live-after now later call ix j s.distinct le
      ∙ noted-live now later call (λ k. find k ix.index) r j (s.same later j (omega arith));
  distinct = after-Distinct now call ix s.distinct;
}

view-run :
    (calls : List (ℕ × Call)) (t end : ℕ) (ix : MemoryIndex) (r : Record) (j : String)
    → Shows t ix r
    → IsOrdered t calls end
    → view end (run calls ix) j ≡ live end (all_noted calls r j)
unfolding run view
view-run [] t end ix r j s h = s.same end j h
view-run ((now, call) ∷ calls) t end ix r j s h =
    view-run calls now end (after now call ix) (noted now call r) j
      (after-Shows t now call ix r h.0 s) h.1

-- A get after any calls of a new index, while the clock does not go back, returns what a store that
-- forgets nothing has for the key, if that has not expired by then: when and how often the index
-- removes expired manifests cannot be seen.
pub get-run :
    (calls : List (ℕ × Call)) (end : ℕ) (key : String)
    → IsOrdered 0 calls end
    → (MemoryIndex.get end key (run calls new_index)).0 ≡ live end (all_noted calls (λ _. none) key)
unfolding new_index find
get-run calls end key h =
    (get-eq-view end key key (run calls new_index)).0
    ∙ view-run calls 0 end new_index (λ _. none) key
        (record { same = λ now j le. refl; distinct = tt }) h
