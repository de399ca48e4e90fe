-- ===== src/Tests/Statuses.antt =====
-- The statuses of requests at a run of the connector.
use awarekv.Prelude.{ℕ, refl, Option, none, some, List, [], ◌∷◌, pos}
use awarekv.Common.Types.{RequestTransferState, new_state}
use awarekv.Dict.{find, modify, contains, insert}
use awarekv.Metrics.{no_counts}
use awarekv.Connector.State
use awarekv.Connector.Scheduler.{SchedulerSide, timeout, read_reply}
use awarekv.Connector.Scheduler.Settled.{IsSettled}
use awarekv.Connector.Worker
use awarekv.Connector.Deadline.{
  Connector, new_connector, build_connector_meta, update_state_after_alloc,
  get_num_new_matched_tokens,
}
use awarekv.Connector.Adapter.{extract_prompt_tokens, extract_request_id}
use awarekv.Connector.Deadline.Statuses.{Call, match_request, allocate, build, run, run-IsSettled}
use awarekv.Tests.Planning.{whole, planner_of}
use awarekv.Tests.Scheduling.{config, digest, request}
use awarekv.Tests.Working.{worker_config, find_codec, text}

abbrev no_requests : Connector ℕ
no_requests = record {
  scheduler_side = some (record { state_manager = record { states = [] }; metrics = no_counts });
  worker_side = some (Worker.new_worker no_counts);
  pending_metadata = [];
  worker_results = [];
  finished_requests = [];
}

abbrev calls : List Call
calls =
    match_request request 0 1000 "p" (λ key. timeout)
    ∷ allocate request (pos 4 ∷ [])
    ∷ build request
    ∷ []

abbrev the_side : Option SchedulerSide → SchedulerSide
the_side none = record { state_manager = State.new_manager; metrics = no_counts }
the_side (some s) = s

abbrev the_state : Option RequestTransferState → RequestTransferState
the_state none = new_state ""
the_state (some st) = st

abbrev side : SchedulerSide
side =
    the_side
      (run whole digest config (planner_of 1) worker_config find_codec text (λ t. t) calls
        no_requests).scheduler_side

run-IsSettled_example : IsSettled (the_state (State.get "r1" side.state_manager))
unfolding new_connector run build_connector_meta update_state_after_alloc get_num_new_matched_tokens
    State.get find State.assign modify extract_prompt_tokens read_reply State.create_or_get contains
    insert extract_request_id
run-IsSettled_example =
    run-IsSettled whole digest config (planner_of 1) worker_config find_codec text (λ t. t)
      "kv_both" no_counts no_requests calls side "r1"
      (the_state (State.get "r1" side.state_manager)) refl refl refl
