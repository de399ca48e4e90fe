-- ===== src/Connector/Deadline/Pipeline.antt =====
-- From the scheduler's answer to the worker's load, through the connector.
use awarekv.Prelude.{
  ℕ, ◌-◌, String, Bool, false, Option, some, List, ◌≡◌, ◌≢◌, arith, Result, ok, Error, ◌==◌,
  string_eq,
}
use awarekv.Common.Types
use awarekv.Common.Types.{PrefixManifest, TransferPlan, DeadlineConnectorMetadata}
use awarekv.Common.Hashing.{KeyData}
use awarekv.Dict.Laws.{find-insert_self}
use awarekv.Planner.Floats.{Floats}
use awarekv.Planner.Deadline.{DeadlinePlanner, make_plan}
use awarekv.Transport.Struct.{Bytes}
use awarekv.Connector.Adapter.{Request}
use awarekv.Connector.Metadata.{metadata_of}
use awarekv.Connector.Scheduler.{SchedulerConfig, SchedulerSide, Reply}
use awarekv.Connector.Scheduler.Lifecycle.{IsFresh, rid_of, answered, begun, prepare-accepted}
use awarekv.Connector.Scheduler.Planned.{on_hit, with_plan}
use awarekv.Connector.Worker
use awarekv.Codec.{Codec}
use awarekv.Connector.Worker.{WorkerConfig, WorkerSide}
use awarekv.Connector.Deadline.{
  Connector, get_num_new_matched_tokens, build_connector_meta, start_load_kv,
}

module _ {A : Type 0} (f : Floats) (digest : KeyData → String) (c : SchedulerConfig)
    (p : DeadlinePlanner f) (r : Request) (computed now : ℕ) (plan_id : String)
    (ask : String → Reply) (s : SchedulerSide) (w : WorkerSide A) (k : Connector A) where
  -- the three calls that vLLM makes for a new request
  abbrev pub asked : (ℕ × Bool) × Connector A
  asked = get_num_new_matched_tokens f digest c p r computed now plan_id ask k

  abbrev pub built : Option DeadlineConnectorMetadata × Connector A
  built = build_connector_meta r asked.1

  -- the metadata of an accepted plan
  abbrev pub accepted : PrefixManifest → TransferPlan → DeadlineConnectorMetadata
  accepted m pl =
      let st = begun f digest c p r computed now plan_id ask s in
      metadata_of (with_plan pl (on_hit m st)) m pl (some st.allocated_block_ids)

  -- For a fresh request with a nonempty id, whose manifest is found and whose plan is accepted, a
  -- connector with both halves reports the tokens that are not yet
  -- computed and builds the metadata of the manifest and the plan, and the load that is then started is
  -- the worker's load with exactly this metadata.
  pub start_load_kv-accepted :
      (m : PrefixManifest) (pl : TransferPlan) (wc : WorkerConfig)
      (get_codec : String → Result (Codec (List A))) (text : Error → String) (elapsed : ℕ)
      (fetched : Option Bytes)
      → k.scheduler_side ≡ some s
      → k.worker_side ≡ some w
      → (rid_of f digest c p r computed now plan_id ask s == "") ≡ false
      → IsFresh f digest c p r computed now plan_id ask s
      → answered f digest c p r computed now plan_id ask s ≡ some m
      → make_plan f p m c.enable_refinement plan_id ≡ ok pl
      → pl.mode ≢ Types.PlanMode.recompute
      → (asked.0 ≡ (m.matched_tokens - computed, false))
        × (built.0 ≡ some (accepted m pl))
        × ((start_load_kv wc get_codec text elapsed
              (rid_of f digest c p r computed now plan_id ask s)
              fetched
              built.1).worker_side
            ≡ some (Worker.start_load_kv wc get_codec text elapsed (accepted m pl) fetched w).1)
  unfolding get_num_new_matched_tokens build_connector_meta start_load_kv
  start_load_kv-accepted m pl wc get_codec text elapsed fetched es ew named fresh hit planned mode =
      let (a, b) =
        prepare-accepted f digest c p r computed now plan_id ask s m pl fresh hit planned mode in
      let rid = rid_of f digest c p r computed now plan_id ask s in
      ground (arith, a, b, find-insert_self rid (accepted m pl) k.pending_metadata)
