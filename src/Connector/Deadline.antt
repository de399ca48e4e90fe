-- ===== src/Connector/Deadline.antt =====
-- `DeadlinePrefixKVConnector` of src/dakv/connector/deadline_connector.py: the calls of vLLM, which go
-- to the scheduler's half and the worker's half. What these need is passed on as arguments. The two
-- halves count on one collector in the source; here each has its own counters, which no call reads.
pub mod Requests
pub mod Statuses
pub mod Pipeline
use awarekv.Prelude.{
  ℕ, String, Bool, true, false, not, ◌||◌, Option, none, some, List, [], ◌∷◌, ◌++◌, ℤ,
  if◌then◌else◌, ◌==◌, string_eq, Result, ok, raise, Error, value_error,
}
use awarekv.Common.Types.{DeadlineConnectorMetadata, WorkerLoadResult, done}
use awarekv.Common.Hashing.{KeyData}
use awarekv.Dict.{Dict, find, insert, remove}
use awarekv.Metrics.{Counters}
use awarekv.Planner.Floats.{Floats}
use awarekv.Planner.Deadline.{DeadlinePlanner}
use awarekv.Transport.Struct.{Bytes}
use awarekv.Connector.Adapter.{Request, extract_request_id, validate_connector_role}
use awarekv.Connector.State
use awarekv.Connector.Scheduler
use awarekv.Connector.Scheduler.{SchedulerConfig, SchedulerSide, Reply, on_states}
use awarekv.Connector.Worker
use awarekv.Connector.LayerName.{Text}
use awarekv.Codec.{Codec}
use awarekv.Connector.Worker.{WorkerConfig, WorkerSide}

pub record Connector (A : Type 0) : Type 0 where
  pub scheduler_side : Option SchedulerSide
  pub worker_side : Option (WorkerSide A)
  pub pending_metadata : Dict String DeadlineConnectorMetadata
  pub worker_results : Dict String WorkerLoadResult
  pub finished_requests : List String

-- the handler of the exceptions
abbrev or_no_match : Result (ℕ × Bool) → ℕ × Bool
or_no_match (ok r) = r
or_no_match (raise e) = (0, false)

module _ {A : Type 0} where
  -- the constructor, less the configuration and the metrics server; only two of the roles get halves
  unfoldable pub new_connector : String → Counters → Result (Connector A)
  unfolding validate_connector_role State.new_manager Worker.new_worker
  new_connector role m =
      if not (validate_connector_role role)
      then raise value_error
      else (let both = role == "kv_both" || role == "kv_consumer" in
          ok (record {
            scheduler_side =
                if both
                then some (record { state_manager = State.new_manager; metrics = m })
                else none;
            worker_side = if both then some (Worker.new_worker m) else none;
            pending_metadata = [];
            worker_results = [];
            finished_requests = [];
          }))

  unfoldable pub get_num_new_matched_tokens :
      (f : Floats)
      → (KeyData → String)
      → SchedulerConfig
      → DeadlinePlanner f
      → Request
      → ℕ
      → ℕ
      → String
      → (String → Reply)
      → Connector A
      → (ℕ × Bool) × Connector A
  unfolding Scheduler.prepare_request_state
  get_num_new_matched_tokens f digest c p r computed now plan_id ask k = elim k.scheduler_side [
    | none ↦ ((0, false), k)
    | some s ↦
        let (result, s') =
          Scheduler.prepare_request_state f digest c p r computed now plan_id ask s in
        (or_no_match result, record k { scheduler_side = some s' })
  ]

  -- `allocated` is what `extract_allocated_blocks` finds
  unfoldable pub update_state_after_alloc : Request → List ℤ → Connector A → Connector A
  unfolding Scheduler.bind_allocated_blocks
  update_state_after_alloc r [] k = k
  update_state_after_alloc r (b ∷ bs) k = elim k.scheduler_side [
    | none ↦ k
    | some s ↦ record k {
      scheduler_side = some (Scheduler.bind_allocated_blocks (extract_request_id r) (b ∷ bs) s);
    }
  ]

  unfoldable pub build_connector_meta :
      Request → Connector A → Option DeadlineConnectorMetadata × Connector A
  unfolding Scheduler.build_request_metadata
  build_connector_meta r k = elim k.scheduler_side [
    | none ↦ (none, k)
    | some s ↦ elim (Scheduler.build_request_metadata (extract_request_id r) s) [
      | none ↦ (none, k)
      | some md ↦ (
        some md,
        record k { pending_metadata = insert (extract_request_id r) md k.pending_metadata },
      )
    ]
  ]

  unfoldable pub update_connector_output :
      String → Option WorkerLoadResult → Connector A → Connector A
  update_connector_output rid none k = k
  update_connector_output rid (some r) k = record k {
    worker_results = insert rid r k.worker_results;
  }

  unfoldable pub get_finished : Connector A → List String × Connector A
  get_finished k = (k.finished_requests, record k { finished_requests = [] })

  -- The result of the worker is not looked at. The worker's call does not raise: it catches all
  -- exceptions itself, so the handler here is never reached.
  unfoldable pub start_load_kv :
      WorkerConfig
      → (String → Result (Codec (List A)))
      → (Error → String)
      → ℕ
      → String
      → Option Bytes
      → Connector A
      → Connector A
  unfolding Worker.start_load_kv
  start_load_kv c get_codec text elapsed rid fetched k = elim k.worker_side [
    | none ↦ k
    | some w ↦ if rid == "" then k else elim (find rid k.pending_metadata) [
      | none ↦ k
      | some md ↦ record k {
        worker_side = some (Worker.start_load_kv c get_codec text elapsed md fetched w).1;
      }
    ]
  ]

  abbrev or_no_layer : Result (Option (List A)) → Option (List A)
  or_no_layer (ok t) = t
  or_no_layer (raise e) = none

  unfoldable pub wait_for_layer_load : Text → Connector A → Option (List A)
  unfolding Worker.wait_for_layer_load
  wait_for_layer_load name k = elim k.worker_side [
    | none ↦ none
    | some w ↦ or_no_layer (Worker.wait_for_layer_load name w)
  ]

  unfoldable pub save_kv_layer :
      WorkerConfig
      → (List A → List A)
      → Text
      → List A
      → Option (List ℤ)
      → String
      → Connector A
      → Connector A
  unfolding Worker.save_kv_layer
  save_kv_layer c host name kv slots rid k = elim k.worker_side [
    | none ↦ k
    | some w ↦
        if rid == ""
        then k
        else record k { worker_side = some (Worker.save_kv_layer c host name kv slots rid w) }
  ]

  -- the first part of `request_finished`
  unfoldable pub close_request : String → Connector A → Connector A
  unfolding State.assign
  close_request rid k = record k {
    scheduler_side = elim k.scheduler_side [
      | none ↦ none
      | some s ↦ some (
          on_states (State.assign rid λ st. record st { status = done; request_finished = true }) s)
    ];
    pending_metadata = remove rid k.pending_metadata;
    worker_results = remove rid k.worker_results;
  }

  -- the end of `request_finished`, when the worker has returned
  unfoldable pub track_finished : String → Connector A → Connector A
  track_finished rid k = record k { finished_requests = k.finished_requests ++ rid ∷ [] }

  -- `request_finished`: what the worker raises is not caught
  unfoldable pub request_finished : String → Connector A → Result (Unit {0}) × Connector A
  unfolding close_request track_finished Worker.request_finished
  request_finished rid k = elim k.worker_side [
    | none ↦ (ok tt, track_finished rid (close_request rid k))
    | some w ↦
        let (r, w') = Worker.request_finished rid w in
        let k' : Connector A = record (close_request rid k) { worker_side = some w' } in
        elim r [ ok u ↦ (ok tt, track_finished rid k') | raise e ↦ (raise e, k') ]
  ]
