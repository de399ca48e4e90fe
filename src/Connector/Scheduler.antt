-- ===== src/Connector/Scheduler.antt =====
-- `SchedulerSide` of src/dakv/connector/scheduler_side.py. The floats of the planner, the digest
-- behind the prefix key and the answer of the manifest service are parameters; `now` is a reading
-- of the clock and `plan_id` the planner's fresh id.
pub mod Manager
pub mod Planned
pub mod Lifecycle
pub mod Settled
use awarekv.Prelude.{
  ℕ, ◌-◌, String, Bool, true, false, not, ◌||◌, Option, none, some, List, [], ◌∷◌, ℤ, if◌then◌else◌,
  ◌==◌, string_eq, nat_eqb, ltb, length, Result, ok, raise,
}
use awarekv.Common.Types
use awarekv.Common.Types.{
  PrefixManifest, TransferPlan, PlanMode, DeadlineConnectorMetadata, RequestTransferState,
  RequestStatus, status_eqb, hit_planned,
}
use awarekv.Common.Hashing.{KeyData, compute_prefix_key}
use awarekv.Metrics
use awarekv.Metrics.{Counters}
use awarekv.Store.Models.{ManifestDict}
use awarekv.Planner.Floats.{Floats}
use awarekv.Planner.Deadline.{DeadlinePlanner, make_plan}
use awarekv.Connector.Adapter.{Request, extract_request_id, extract_prompt_tokens}
use awarekv.Connector.State
use awarekv.Connector.State.{StateManager}
use awarekv.Connector.Metadata.{build_metadata_from_state}

-- the fields of `DeadlineKVConfig` that the scheduler reads
pub record SchedulerConfig : Type 0 where
  pub model_id : String
  pub tokenizer_id : String
  pub kv_layout_version : String
  pub cache_dtype : String
  pub block_size : ℕ
  pub min_prefix_tokens : ℕ
  pub enable_refinement : Bool

-- What `requests.post` gives: a timeout, any other failure (a body that is no JSON, or a manifest
-- that `PrefixManifest(**…)` refuses, among them), or a status with the body's two entries.
pub data Reply : Type 0 where
  timeout failure : Reply
  answer : ℕ → Bool → Option ManifestDict → Reply

-- `PrefixManifest(**manifest_dict)`; the dictionary has no format version, so the default is used
unfoldable pub manifest_of_dict : ManifestDict → PrefixManifest
manifest_of_dict d = record {
  prefix_key = d.prefix_key;
  model_id = d.model_id;
  tokenizer_id = d.tokenizer_id;
  kv_layout_version = d.kv_layout_version;
  block_size = d.block_size;
  cache_dtype = d.cache_dtype;
  matched_tokens = d.matched_tokens;
  matched_blocks = d.matched_blocks;
  num_layers = d.num_layers;
  created_at_ms = d.created_at_ms;
  last_access_ms = d.last_access_ms;
  ttl_s = d.ttl_s;
  critical_codec = d.critical_codec;
  critical_nbytes = d.critical_nbytes;
  critical_object_id = d.critical_object_id;
  refinement_codec = d.refinement_codec;
  refinement_nbytes = d.refinement_nbytes;
  refinement_object_id = d.refinement_object_id;
  quality_mode = d.quality_mode;
  checksum = d.checksum;
  object_format_version = "v1";
}

-- `_query_manifest`, on the reply to its request
unfoldable pub read_reply : Reply → Option PrefixManifest
unfolding manifest_of_dict
read_reply timeout = none
read_reply failure = none
read_reply (answer status hit d) =
    if not (nat_eqb status 200)
    then none
    else if not hit
    then none
    else elim d [ none ↦ none | some m ↦ some (manifest_of_dict m) ]

pub record SchedulerSide : Type 0 where
  pub state_manager : StateManager
  pub metrics : Counters

abbrev pub on_states : (StateManager → StateManager) → SchedulerSide → SchedulerSide
on_states f s = record s { state_manager = f s.state_manager }

abbrev pub is_recompute : PlanMode → Bool
is_recompute Types.PlanMode.recompute = true
is_recompute _ = false

-- state.status in [HIT_PLANNED, RECOMPUTE]
abbrev pub is_prepared : RequestStatus → Bool
is_prepared st = status_eqb st hit_planned || status_eqb st Types.RequestStatus.recompute

-- what a lifecycle call returns beside the new state; the Boolean is `is_external_load`
abbrev pub Matched : Type 0
Matched = Result (ℕ × Bool) × SchedulerSide

-- the end of `prepare_request_state`, from the planner's plan on
unfoldable pub apply_plan : String → ℕ → Result TransferPlan → SchedulerSide → Matched
unfolding State.mark_recompute State.set_plan Metrics.record_recompute
apply_plan rid computed (raise e) s = (raise e, s)
apply_plan rid computed (ok p) s =
    if is_recompute p.mode
    then (
      ok (0, false),
      on_states
          (λ sm.
            State.assign rid (λ st. record st { matched_tokens = 0 })
              (State.mark_recompute rid p.reason_code sm))
          (record s { metrics = Metrics.record_recompute s.metrics }),
    )
    else (ok (p.matched_tokens - computed, false), on_states (State.set_plan rid p) s)

module _ (f : Floats) (digest : KeyData → String) where
  -- the part from the manifest's answer on
  unfoldable pub apply_manifest :
      SchedulerConfig
      → DeadlinePlanner f
      → String
      → ℕ
      → String
      → Option PrefixManifest
      → SchedulerSide
      → Matched
  unfolding apply_plan State.mark_manifest_miss State.mark_manifest_hit
      Metrics.record_manifest_query
  apply_manifest c p rid computed plan_id none s = (
    ok (0, false),
    on_states
        (λ sm.
          State.assign rid (λ st. record st { matched_tokens = 0 })
            (State.mark_manifest_miss rid "no_match" sm))
        (record s { metrics = Metrics.record_manifest_query false s.metrics }),
  )
  apply_manifest c p rid computed plan_id (some m) s =
      apply_plan rid computed (make_plan f p m c.enable_refinement plan_id) (
        on_states
          (λ sm.
            State.assign rid
              (λ st. record st {
                matched_tokens = m.matched_tokens;
                matched_blocks = m.matched_blocks;
              })
              (State.mark_manifest_hit rid m sm))
          (record s { metrics = Metrics.record_manifest_query true s.metrics }))

  -- the key that is computed for the whole prompt
  unfoldable pub request_key : SchedulerConfig → List ℕ → String
  request_key c toks =
      compute_prefix_key digest c.model_id c.tokenizer_id c.kv_layout_version c.cache_dtype
        c.block_size toks (length toks) none

  -- the part from the creation of the state on
  unfoldable pub prepare_fresh :
      SchedulerConfig
      → DeadlinePlanner f
      → String
      → List ℕ
      → ℕ
      → ℕ
      → String
      → (String → Reply)
      → SchedulerSide
      → Matched
  unfolding apply_manifest
  prepare_fresh c p rid toks computed now plan_id ask s =
      let key = request_key c toks in
      apply_manifest c p rid computed plan_id (read_reply (ask key)) (
        on_states
          (λ sm.
            State.assign rid (λ st. record st { start_time_ms = now; prefix_key = some key })
              (State.create_or_get rid sm))
          s)

  -- `prepare_request_state`
  unfoldable pub prepare_request_state :
      SchedulerConfig
      → DeadlinePlanner f
      → Request
      → ℕ
      → ℕ
      → String
      → (String → Reply)
      → SchedulerSide
      → Matched
  unfolding prepare_fresh
  prepare_request_state c p r computed now plan_id ask s =
      let rid = extract_request_id r in
      let toks = extract_prompt_tokens r in
      if nat_eqb (length toks) 0
      then (ok (0, false), s)
      else if ltb (length toks) c.min_prefix_tokens
      then (ok (0, false), s)
      else elim (State.get rid s.state_manager) [
        | none ↦ prepare_fresh c p rid toks computed now plan_id ask s
        | some st ↦
            if is_prepared st.status
            then (ok (st.matched_tokens, false), s)
            else prepare_fresh c p rid toks computed now plan_id ask s
      ]

-- `bind_allocated_blocks`
unfoldable pub bind_allocated_blocks : String → List ℤ → SchedulerSide → SchedulerSide
unfolding State.set_allocated_blocks
bind_allocated_blocks rid blocks s = on_states (State.set_allocated_blocks rid blocks) s

-- `build_request_metadata`
unfoldable pub build_request_metadata : String → SchedulerSide → Option DeadlineConnectorMetadata
build_request_metadata rid s = elim (State.get rid s.state_manager) [
  | none ↦ none
  | some st ↦
      if not (status_eqb st.status hit_planned)
      then none
      else build_metadata_from_state st (some st.allocated_block_ids)
]

-- `remove_state`
unfoldable pub remove_request : String → SchedulerSide → SchedulerSide
unfolding State.remove_state
remove_request rid s = on_states (State.remove_state rid) s
