-- ===== src/Tests/Connecting.antt =====
-- The connector's theorems for the request of the scheduler's tests.
use awarekv.Prelude.{ℕ, ◌-◌, ◌≡◌, refl, arith, string_eq, false, none, some, List, [], ◌∷◌, ◌++◌}
use awarekv.Dict.{find, remove, modify}
use awarekv.Connector.Adapter.{extract_request_id}
use awarekv.Connector.SaveSession.{new_session}
use awarekv.Connector.Worker
use awarekv.Connector.Worker.{WorkerSide}
use awarekv.Connector.Deadline.{Connector, start_load_kv, build_connector_meta, request_finished}
use awarekv.Connector.State
use awarekv.Connector.Deadline.Requests.{run, all_completed, run-finished}
use awarekv.Connector.Deadline.Statuses.{Call, build, finish, poll, load}
use awarekv.Connector.Deadline.Pipeline.{asked, built, accepted, start_load_kv-accepted}
use awarekv.Tests.TestData.{test_manifest}
use awarekv.Tests.Planning.{whole, planner_of, int8_plan, make_plan_int8}
use awarekv.Tests.Scheduling.{config, digest, request, scheduler, hit_reply, fresh, is_hit}
use awarekv.Tests.Working.{worker_config, find_codec, text, worker, five}

abbrev connector : Connector ℕ
connector = record {
  scheduler_side = some scheduler;
  worker_side = some worker;
  pending_metadata = [];
  worker_results = [];
  finished_requests = [];
}

start_load_kv-accepted_example :
    ((asked whole digest config
        (planner_of 500000)
        request
        16
        5000
        "p"
        hit_reply
        scheduler
        worker
        connector).0
      ≡ (test_manifest.matched_tokens - 16, false))
    × ((built whole digest config
          (planner_of 500000)
          request
          16
          5000
          "p"
          hit_reply
          scheduler
          worker
          connector).0
        ≡ some (
            accepted whole digest config
              (planner_of 500000)
              request
              16
              5000
              "p"
              hit_reply
              scheduler
              worker
              connector
              test_manifest
              int8_plan))
    × ((start_load_kv worker_config find_codec text 3
          (extract_request_id request)
          (some five)
          (built whole digest config
            (planner_of 500000)
            request
            16
            5000
            "p"
            hit_reply
            scheduler
            worker
            connector).1).worker_side
        ≡ some
            (Worker.start_load_kv worker_config find_codec text 3
              (accepted whole digest config
                (planner_of 500000)
                request
                16
                5000
                "p"
                hit_reply
                scheduler
                worker
                connector
                test_manifest
                int8_plan)
              (some five)
              worker).1)
unfolding extract_request_id
start_load_kv-accepted_example =
    start_load_kv-accepted whole digest config (planner_of 500000) request 16 5000 "p" hit_reply
      scheduler worker connector test_manifest int8_plan worker_config find_codec text 3 (some five)
      refl refl refl (fresh 500000 hit_reply) is_hit make_plan_int8 (λ e. ground arith)

-- The worker still has a save session of "r2" that was not aborted.
abbrev saving : Connector ℕ
saving = record connector {
  worker_side = some (record worker { save_sessions = ("r2", new_session "r2" "key" 2 [] 2) ∷ [] });
}

abbrev calls : List Call
calls = finish "r1" ∷ build request ∷ load 3 "r1" none ∷ poll ∷ finish "r2" ∷ finish "r3" ∷ []

run-finished_example :
    (run whole digest config
        (planner_of 500000)
        worker_config
        find_codec
        text
        (λ t. t)
        calls
        saving).0
      ++ (run whole digest config
          (planner_of 500000)
          worker_config
          find_codec
          text
          (λ t. t)
          calls
          saving).1.finished_requests
    ≡ all_completed whole digest config
        (planner_of 500000)
        worker_config
        find_codec
        text
        (λ t. t)
        calls
        saving
run-finished_example =
    run-finished whole digest config (planner_of 500000) worker_config find_codec text (λ t. t)
      calls saving

-- what the calls deliver and leave: "r2" is lost
calls_deliver :
    (run whole digest config
      (planner_of 500000)
      worker_config
      find_codec
      text
      (λ t. t)
      calls
      saving).0
    ≡ "r1" ∷ []
unfolding run find remove start_load_kv build_connector_meta request_finished State.get modify
calls_deliver = refl

calls_leave :
    (run whole digest config
      (planner_of 500000)
      worker_config
      find_codec
      text
      (λ t. t)
      calls
      saving).1.finished_requests
    ≡ "r3" ∷ []
unfolding run find remove new_session request_finished start_load_kv build_connector_meta State.get
    modify
calls_leave = refl
