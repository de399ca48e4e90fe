-- ===== src/Connector/State/Stats.antt =====
-- The garbage collector and the statistics of src/dakv/connector/state.py.
use awarekv.Prelude.{
  ℕ, ◌+◌, String, Bool, true, false, Option, none, some, List, [], ◌∷◌, if◌then◌else◌, ◌==◌, ◌≡◌,
  arith, ==_iff, refl, string_eq,
}
use awarekv.Common.Types.{RequestTransferState, RequestStatus, status_eq}
use awarekv.Dict.{Dict, find, insert, remove, Distinct}
use awarekv.Dict.Laws.{find-insert, find-remove}
use awarekv.Connector.State.{
  StateManager, get, finished_ids, delete_all, gc_finished, stat, count_states, get_stats,
}

-- Whether the collector is to drop what is stored under a key.
abbrev pub kept : Option RequestTransferState → Option RequestTransferState
kept none = none
kept (some st) = if st.request_finished then none else some st

mem : String → List String → Bool
mem j [] = false
mem j (rid ∷ rids) = if rid == j then true else mem j rids

find-delete_all :
    (rids : List String) (j : String) (d : Dict String RequestTransferState)
    → find j (delete_all rids d) ≡ (if mem j rids then none else find j d)
unfolding delete_all mem
find-delete_all [] j d = refl
find-delete_all (rid ∷ rids) j d =
    ground (arith, find-delete_all rids j (remove rid d), find-remove rid j d)

mem-absent :
    (j : String) (d : Dict String RequestTransferState)
    → find j d ≡ none
    → mem j (finished_ids d) ≡ false
unfolding mem finished_ids find
mem-absent j [] h = refl
mem-absent j ((i, st) ∷ d) h = ground (arith, mem-absent j d)

mem-finished_ids :
    (j : String) (d : Dict String RequestTransferState)
    → Distinct d
    → (if mem j (finished_ids d) then none else find j d) ≡ kept (find j d)
unfolding mem finished_ids find
mem-finished_ids j [] h = refl
mem-finished_ids j ((i, st) ∷ d) h =
    ground (arith, mem-finished_ids j d, mem-absent j d, ==_iff i j)

-- The collector drops exactly the states of finished requests and changes no other.
pub get-gc_finished :
    (j : String) (s : StateManager) → Distinct s.states → get j (gc_finished s) ≡ kept (get j s)
unfolding get gc_finished
get-gc_finished j s h =
    ground (arith, find-delete_all (finished_ids s.states) j s.states, mem-finished_ids j s.states)

-- How many states have a status.
unfoldable pub with_status : RequestStatus → Dict String RequestTransferState → ℕ
with_status st [] = 0
with_status st ((rid, t) ∷ d) = (if t.status == st then 1 else 0) + with_status st d

stat-count_states :
    (st : RequestStatus) (d : Dict String RequestTransferState) (stats : Dict RequestStatus ℕ)
    → stat st (count_states d stats) ≡ stat st stats + with_status st d
unfolding count_states with_status stat
stat-count_states st [] stats = omega arith
stat-count_states st ((rid, t) ∷ d) stats = ground (
  arith,
  stat-count_states st d (insert t.status (stat t.status stats + 1) stats),
  find-insert t.status st (stat t.status stats + 1) stats,
  ==_iff t.status st,
)

-- The statistics count, for every status, the states that have it.
pub stat-get_stats :
    (st : RequestStatus) (s : StateManager) → stat st (get_stats s) ≡ with_status st s.states
unfolding get_stats stat find
stat-get_stats st s = omega (arith, stat-count_states st s.states [])
