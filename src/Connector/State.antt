-- ===== src/Connector/State.antt =====
-- `StateManager` of src/dakv/connector/state.py. Its lock makes each method one step. A method that
-- assigns to fields of `self.states[request_id]` is a `modify`, which does nothing on a missing key.
pub mod Ops
pub mod Stats
use awarekv.Prelude.{
  ℕ, ◌+◌, String, Bool, true, false, Option, none, some, List, [], ◌∷◌, ℤ, if◌then◌else◌, ◌==◌,
  string_eq,
}
use awarekv.Common.Types
use awarekv.Common.Types.{
  PrefixManifest, TransferPlan, DeadlineConnectorMetadata, RequestTransferState, RequestStatus,
  status_eq, new_state, miss, hit_planned, critical_loading, critical_ready, refining, done, failed,
}
use awarekv.Dict
use awarekv.Dict.{Dict, find, contains, insert, remove, modify, keys}

pub record StateManager : Type 0 where
  pub states : Dict String RequestTransferState

unfoldable pub new_manager : StateManager
new_manager = record { states = [] }

-- An assignment through `self.states[request_id]`, or through a reference to that object.
unfoldable pub assign :
    String → (RequestTransferState → RequestTransferState) → StateManager → StateManager
assign rid f s = record s { states = modify rid f s.states }

-- The returned object is the stored one: the caller's assignments to it are `assign`.
unfoldable pub create_or_get : String → StateManager → StateManager
create_or_get rid s =
    if contains rid s.states then s else record s { states = insert rid (new_state rid) s.states }

unfoldable pub get : String → StateManager → Option RequestTransferState
get rid s = find rid s.states

unfoldable pub put : String → RequestTransferState → StateManager → StateManager
put rid state s = record s { states = insert rid state s.states }

unfoldable pub mark_manifest_hit : String → PrefixManifest → StateManager → StateManager
mark_manifest_hit rid m = assign rid λ st. record st { manifest = some m; status = hit_planned }

unfoldable pub mark_manifest_miss : String → String → StateManager → StateManager
mark_manifest_miss rid reason =
    assign rid λ st. record st { status = miss; fallback_reason = some reason }

unfoldable pub set_plan : String → TransferPlan → StateManager → StateManager
set_plan rid p = assign rid λ st. record st { plan = some p }

unfoldable pub set_allocated_blocks : String → List ℤ → StateManager → StateManager
set_allocated_blocks rid blocks = assign rid λ st. record st { allocated_block_ids = blocks }

unfoldable pub set_connector_metadata :
    String → DeadlineConnectorMetadata → StateManager → StateManager
set_connector_metadata rid md = assign rid λ st. record st { connector_metadata = some md }

unfoldable pub mark_load_started : String → StateManager → StateManager
mark_load_started rid = assign rid λ st. record st { status = critical_loading }

unfoldable pub mark_load_finished : String → Bool → StateManager → StateManager
mark_load_finished rid success = assign rid λ st.
    if success
    then record st { critical_load_done = some true; status = critical_ready }
    else record st { status = failed }

unfoldable pub mark_load_failed : String → String → StateManager → StateManager
mark_load_failed rid message =
    assign rid λ st. record st { status = failed; fallback_reason = some message }

unfoldable pub mark_refine_started : String → StateManager → StateManager
mark_refine_started rid = assign rid λ st. record st { status = refining }

unfoldable pub mark_refine_finished : String → StateManager → StateManager
mark_refine_finished rid = assign rid λ st. record st { refinement_load_done = some true }

unfoldable pub mark_done : String → StateManager → StateManager
mark_done rid = assign rid λ st. record st { status = done; request_finished = true }

unfoldable pub mark_recompute : String → String → StateManager → StateManager
mark_recompute rid reason =
    assign rid λ st. record st { status = miss; fallback_reason = some reason }

unfoldable pub update_status : String → RequestStatus → StateManager → StateManager
update_status rid status = assign rid λ st. record st { status = status }

-- `mark_save_started`, `mark_save_finished`, `mark_save_failed` and `mark_refine_dropped` only log.
unfoldable pub mark_logged : String → StateManager → StateManager
mark_logged rid s = s

unfoldable pub remove_state : String → StateManager → StateManager
remove_state rid s = record s { states = remove rid s.states }

-- The loop of `gc_finished` that collects the keys, and the one that deletes them.
unfoldable pub finished_ids : Dict String RequestTransferState → List String
finished_ids [] = []
finished_ids ((rid, st) ∷ d) =
    let rest = finished_ids d in if st.request_finished then rid ∷ rest else rest

unfoldable pub delete_all :
    List String → Dict String RequestTransferState → Dict String RequestTransferState
delete_all [] d = d
delete_all (rid ∷ rids) d = delete_all rids (remove rid d)

unfoldable pub gc_finished : StateManager → StateManager
unfolding finished_ids delete_all
gc_finished s = record s { states = delete_all (finished_ids s.states) s.states }

unfoldable pub get_all_request_ids : StateManager → List String
get_all_request_ids s = keys s.states

-- stats.get(status, 0)
unfoldable pub stat : RequestStatus → Dict RequestStatus ℕ → ℕ
stat st stats = elim (find st stats) [ none ↦ 0 | some n ↦ n ]

unfoldable pub count_states :
    Dict String RequestTransferState → Dict RequestStatus ℕ → Dict RequestStatus ℕ
unfolding stat
count_states [] stats = stats
count_states ((rid, st) ∷ d) stats =
    count_states d (insert st.status (stat st.status stats + 1) stats)

unfoldable pub get_stats : StateManager → Dict RequestStatus ℕ
unfolding count_states
get_stats s = count_states s.states []
