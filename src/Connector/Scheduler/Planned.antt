-- ===== src/Connector/Scheduler/Planned.antt =====
-- What src/dakv/connector/scheduler_side.py makes of a request whose state or plan is known.
use awarekv.Prelude.{
  ℕ, ◌-◌, ◌≤◌, ◌<◌, String, Bool, true, false, not, Option, none, some, string_eq, ◌≡◌, ◌≢◌, arith,
  ok, length,
}
use awarekv.Common.Types
use awarekv.Common.Types.{
  PrefixManifest, TransferPlan, PlanMode, RequestTransferState, DeadlineConnectorMetadata,
  new_state, hit_planned, status_eqb,
}
use awarekv.Common.Hashing.{KeyData}
use awarekv.Dict.Laws.{option_map}
use awarekv.Planner.Floats.{Floats}
use awarekv.Planner.Deadline.{DeadlinePlanner, make_plan}
use awarekv.Connector.Adapter.{Request, extract_request_id, extract_prompt_tokens}
use awarekv.Connector.State
use awarekv.Connector.State.{StateManager}
use awarekv.Connector.Metadata.{metadata_of, build_metadata_from_state}
use awarekv.Connector.Scheduler.Manager.{manager_laws}
use awarekv.Connector.Scheduler.{
  SchedulerConfig, SchedulerSide, Reply, is_recompute, is_prepared, apply_plan,
  prepare_request_state, build_request_metadata,
}

-- Whether a request's stored state makes `prepare_request_state` answer from it.

abbrev pub cached : Option RequestTransferState → Bool
cached none = false
cached (some st) = is_prepared st.status

abbrev pub not_planned : Option RequestTransferState → Bool
not_planned none = true
not_planned (some st) = not (status_eqb st.status hit_planned)

pub build-not_planned :
    (rid : String) (s : SchedulerSide)
    → not_planned (State.get rid s.state_manager) ≡ true
    → build_request_metadata rid s ≡ none
unfolding build_request_metadata
build-not_planned rid s h = ground arith

pub apply_plan-recompute :
    (rid : String) (computed : ℕ) (pl : TransferPlan) (s : SchedulerSide)
    → is_recompute pl.mode ≡ true
    → ((apply_plan rid computed (ok pl) s).0 ≡ ok (0, false))
      × (not_planned (State.get rid (apply_plan rid computed (ok pl) s).1.state_manager) ≡ true)
unfolding apply_plan
apply_plan-recompute rid computed pl s h = rw h (simp manager_laws (ground arith))

-- the state of a request, after the planner's plan was stored in it
abbrev pub with_plan : TransferPlan → RequestTransferState → RequestTransferState
with_plan pl st = record st { plan = some pl }

pub apply_plan-accepted :
    (rid : String) (computed : ℕ) (pl : TransferPlan) (s : SchedulerSide)
    → is_recompute pl.mode ≡ false
    → ((apply_plan rid computed (ok pl) s).0 ≡ ok (pl.matched_tokens - computed, false))
      × (State.get rid (apply_plan rid computed (ok pl) s).1.state_manager
          ≡ option_map (with_plan pl) (State.get rid s.state_manager))
unfolding apply_plan
apply_plan-accepted rid computed pl s h = rw h (simp manager_laws (ground arith))

-- the state of a request, after a manifest was found for it
abbrev pub on_hit : PrefixManifest → RequestTransferState → RequestTransferState
on_hit m st = record st {
  manifest = some m;
  status = hit_planned;
  matched_tokens = m.matched_tokens;
  matched_blocks = m.matched_blocks;
}

pub build-planned :
    (rid : String) (s : SchedulerSide) (st : RequestTransferState) (m : PrefixManifest)
    (pl : TransferPlan)
    → State.get rid s.state_manager ≡ some st
    → st.status ≡ hit_planned
    → st.manifest ≡ some m
    → st.plan ≡ some pl
    → build_request_metadata rid s ≡ some (metadata_of st m pl (some st.allocated_block_ids))
unfolding build_request_metadata build_metadata_from_state
build-planned rid s st m pl e es em ep = ground arith

pub build-no_plan :
    (rid : String) (s : SchedulerSide) (st : RequestTransferState)
    → State.get rid s.state_manager ≡ some st
    → st.plan ≡ none
    → build_request_metadata rid s ≡ none
unfolding build_request_metadata build_metadata_from_state
build-no_plan rid s st e ep = ground arith

-- A request that is marked as planned is answered from its state, and the state stays.
pub prepare-cached :
    (f : Floats) (digest : KeyData → String) (c : SchedulerConfig) (p : DeadlinePlanner f)
    (r : Request) (computed now : ℕ) (plan_id : String) (ask : String → Reply) (s : SchedulerSide)
    (st : RequestTransferState)
    → 0 < length (extract_prompt_tokens r)
    → c.min_prefix_tokens ≤ length (extract_prompt_tokens r)
    → State.get (extract_request_id r) s.state_manager ≡ some st
    → st.status ≡ hit_planned
    → prepare_request_state f digest c p r computed now plan_id ask s
      ≡ (ok (st.matched_tokens, false), s)
unfolding prepare_request_state
prepare-cached f digest c p r computed now plan_id ask s st pos long e es = ground arith

pub make_plan-tokens :
    (f : Floats) (p : DeadlinePlanner f) (m : PrefixManifest) (enable : Bool) (plan_id : String)
    {pl : TransferPlan}
    → make_plan f p m enable plan_id ≡ ok pl
    → pl.mode ≢ Types.PlanMode.recompute
    → pl.matched_tokens ≡ m.matched_tokens
unfolding make_plan
make_plan-tokens f p m enable plan_id e h = ground arith
