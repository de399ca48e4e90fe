-- ===== src/Connector/State/Ops.antt =====
-- The methods of `StateManager` of src/dakv/connector/state.py as operations.
use awarekv.Prelude.{String, Bool, List, ℤ, ◌≡◌, ◌≢◌, arith, ==_iff, string_eq}
use awarekv.Common.Types.{
  PrefixManifest, TransferPlan, DeadlineConnectorMetadata, RequestTransferState, RequestStatus,
  new_state,
}
use awarekv.Dict.{Distinct}
use awarekv.Dict.Laws.{
  find-insert, find-remove, find-modify, remove-Distinct, insert-Distinct, modify-Distinct,
}
use awarekv.Connector.State
use awarekv.Connector.State.{StateManager, finished_ids, delete_all}

-- One constructor for each method that may change the manager, but for the collector.
pub data Op : Type 0 where
  create : Op
  put : RequestTransferState → Op
  manifest_hit : PrefixManifest → Op
  manifest_miss : String → Op
  plan : TransferPlan → Op
  blocks : List ℤ → Op
  connector_metadata : DeadlineConnectorMetadata → Op
  load_started : Op
  load_finished : Bool → Op
  load_failed : String → Op
  refine_started refine_finished done : Op
  recompute : String → Op
  status : RequestStatus → Op
  logged drop : Op

unfoldable pub apply : Op → String → StateManager → StateManager
unfolding State.assign State.create_or_get State.put State.mark_manifest_hit
    State.mark_manifest_miss State.set_plan State.set_allocated_blocks State.set_connector_metadata
    State.mark_load_started State.mark_load_finished State.mark_load_failed
    State.mark_refine_started State.mark_refine_finished State.mark_done State.mark_recompute
    State.update_status State.mark_logged State.remove_state
apply create rid = State.create_or_get rid
apply (put st) rid = State.put rid st
apply (manifest_hit m) rid = State.mark_manifest_hit rid m
apply (manifest_miss r) rid = State.mark_manifest_miss rid r
apply (plan p) rid = State.set_plan rid p
apply (blocks b) rid = State.set_allocated_blocks rid b
apply (connector_metadata md) rid = State.set_connector_metadata rid md
apply load_started rid = State.mark_load_started rid
apply (load_finished b) rid = State.mark_load_finished rid b
apply (load_failed m) rid = State.mark_load_failed rid m
apply refine_started rid = State.mark_refine_started rid
apply refine_finished rid = State.mark_refine_finished rid
apply done rid = State.mark_done rid
apply (recompute r) rid = State.mark_recompute rid r
apply (status st) rid = State.update_status rid st
apply logged rid = State.mark_logged rid
apply drop rid = State.remove_state rid

-- Each method touches the state of its own request alone.
pub get-apply_ne :
    (o : Op) (rid j : String) (s : StateManager)
    → rid ≢ j
    → State.get j (apply o rid s) ≡ State.get j s
unfolding State.get apply
get-apply_ne create rid j s h =
    ground (arith, find-insert rid j (new_state rid) s.states, ==_iff rid j)
get-apply_ne (put st) rid j s h = ground (arith, find-insert rid j st s.states, ==_iff rid j)
get-apply_ne drop rid j s h = ground (arith, find-remove rid j s.states, ==_iff rid j)
get-apply_ne _ rid j s h = grind (arith, find-modify, ==_iff rid j)

-- No method makes a request stand twice in the table.
pub apply-Distinct :
    (o : Op) (rid : String) (s : StateManager) → Distinct s.states → Distinct (apply o rid s).states
unfolding apply
apply-Distinct create rid s h = ground (arith, insert-Distinct rid (new_state rid) s.states)
apply-Distinct (put st) rid s h = insert-Distinct rid st s.states h
apply-Distinct drop rid s h = remove-Distinct rid s.states h
apply-Distinct logged rid s h = h
apply-Distinct _ rid s h = modify-Distinct rid _ s.states h
