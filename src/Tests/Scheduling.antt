-- ===== src/Tests/Scheduling.antt =====
-- The scheduler's theorems for one request of sixty-four tokens.
use awarekv.Prelude.{
  ℕ, ◌≡◌, string_eq, refl, arith, String, Bool, true, none, some, [], ◌∷◌, Result,
}
use awarekv.Common.Types.{RequestTransferState, DeadlineConnectorMetadata, hit_planned, new_state}
use awarekv.Common.Hashing.{KeyData}
use awarekv.Dict.{find, Distinct}
use awarekv.Metrics.{no_counts}
use awarekv.Connector.Adapter.{Request, extract_request_id, extract_prompt_tokens}
use awarekv.Connector.State
use awarekv.Connector.State.{StateManager}
use awarekv.Connector.Metadata.{metadata_of}
use awarekv.Connector.Scheduler.{
  SchedulerConfig, SchedulerSide, Reply, answer, read_reply, prepare_request_state,
}
use awarekv.Connector.Scheduler.Lifecycle.{IsFresh, begun}
use awarekv.Tests.TestData.{test_manifest, test_dict}
use awarekv.Tests.Planning.{whole, planner_of, int8_plan}

abbrev pub config : SchedulerConfig
config = record {
  model_id = "model";
  tokenizer_id = "tok";
  kv_layout_version = "v1";
  cache_dtype = "float16";
  block_size = 32;
  min_prefix_tokens = 2;
  enable_refinement = true;
}

abbrev pub digest : KeyData → String
digest d = "key"

abbrev pub request : Request
request = record {
  request_id = some "r1";
  id = none;
  object_id = "7";
  prompt_token_ids = some (11 ∷ 12 ∷ 13 ∷ []);
  inputs_prompt_token_ids = none;
  tokens = none;
}

abbrev pub scheduler : SchedulerSide
scheduler = record { state_manager = record { states = [] }; metrics = no_counts }

abbrev pub hit_reply : String → Reply
hit_reply key = answer 200 true (some test_dict)

pub fresh :
    (bps : ℕ) (ask : String → Reply)
    → IsFresh whole digest config (planner_of bps) request 16 5000 "p" ask scheduler
unfolding extract_prompt_tokens extract_request_id State.get find
fresh bps ask = record { nonempty = omega arith; long_enough = omega arith; uncached = refl }

abbrev run : ℕ → (String → Reply) → Result (ℕ × Bool) × SchedulerSide
run bps ask =
    prepare_request_state whole digest config (planner_of bps) request 16 5000 "p" ask scheduler

pub is_hit : read_reply (hit_reply "key") ≡ some test_manifest
unfolding read_reply
is_hit = refl

abbrev begun_state : RequestTransferState
begun_state = begun whole digest config (planner_of 500000) request 16 5000 "p" hit_reply scheduler

-- two requests, one of them finished
abbrev two_states : StateManager
two_states = record {
  states =
      ("r1", new_state "r1") ∷ ("r2", record (new_state "r2") { request_finished = true }) ∷ [];
}

two_states-Distinct : Distinct two_states.states
unfolding find
two_states-Distinct = (refl, (refl, tt))

abbrev planned_state : RequestTransferState
planned_state = record (new_state "r1") {
  status = hit_planned;
  manifest = some test_manifest;
  plan = some int8_plan;
}

abbrev planned_metadata : DeadlineConnectorMetadata
planned_metadata = metadata_of planned_state test_manifest int8_plan none
