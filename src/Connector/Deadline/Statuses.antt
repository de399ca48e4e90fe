-- ===== src/Connector/Deadline/Statuses.antt =====
-- The statuses of requests under the calls of src/dakv/connector/deadline_connector.py.
use awarekv.Prelude.{
  ℕ, String, true, Option, none, some, List, [], ◌∷◌, ℤ, string_eq, ◌≡◌, refl, subst, arith, Result,
  ok, Error, Option-cases, ◌⊎◌, sym, inl, inr,
}
use awarekv.Common.Types.{
  RequestStatus, RequestTransferState, WorkerLoadResult, miss, hit_planned, done,
}
use awarekv.Dict.{find}
use awarekv.Metrics.{Counters}
use awarekv.Common.Hashing.{KeyData}
use awarekv.Planner.Floats.{Floats}
use awarekv.Planner.Deadline.{DeadlinePlanner}
use awarekv.Transport.Struct.{Bytes}
use awarekv.Codec.{Codec}
use awarekv.Connector.Adapter.{Request, extract_request_id}
use awarekv.Connector.State
use awarekv.Connector.Scheduler.{SchedulerConfig, SchedulerSide, Reply, bind_allocated_blocks}
use awarekv.Connector.Scheduler.Settled.{
  Says, IsSettled, AllSettled, assign-AllSettled, prepare-AllSettled,
}
use awarekv.Connector.Worker.{WorkerConfig}
use awarekv.Connector.LayerName.{Text}
use awarekv.Connector.Deadline.{
  Connector, new_connector, get_num_new_matched_tokens, update_state_after_alloc,
  build_connector_meta, update_connector_output, get_finished, start_load_kv, save_kv_layer,
  close_request, track_finished, request_finished,
}

-- The calls of vLLM that change the connector, in any order.
pub data Call : Type 0 where
  match_request : Request → (computed now : ℕ) → (plan_id : String) → (String → Reply) → Call
  allocate : Request → List ℤ → Call
  build : Request → Call
  report : String → Option WorkerLoadResult → Call
  poll : Call
  load : ℕ → String → Option Bytes → Call
  save : Text → List ℕ → Option (List ℤ) → String → Call
  finish : String → Call

-- Every state of the scheduler's half is settled.
abbrev pub SideSettled : Option SchedulerSide → Type 0
SideSettled none = Unit
SideSettled (some s) = AllSettled s.state_manager

Says-blocks :
    (status : RequestStatus) (blocks : List ℤ) (st : RequestTransferState)
    → Says status st
    → Says status (record st { allocated_block_ids = blocks })
Says-blocks miss blocks st h = h
Says-blocks hit_planned blocks st h = h
Says-blocks done blocks st h = h
Says-blocks _ blocks st h = h

new_connector-side :
    (role : String) (m : Counters) (k : Connector ℕ)
    → new_connector role m ≡ ok k
    → (k.scheduler_side ≡ none)
      ⊎ (k.scheduler_side ≡ some (record { state_manager = State.new_manager; metrics = m }))
unfolding new_connector
new_connector-side role m k e = ground arith

new_connector-SideSettled :
    (role : String) (m : Counters) (k : Connector ℕ)
    → new_connector role m ≡ ok k
    → SideSettled k.scheduler_side
unfolding State.new_manager State.get find
new_connector-SideSettled role m k e = elim (new_connector-side role m k e) [
  | inl n ↦ subst SideSettled (sym n) tt
  | inr n ↦ subst SideSettled (sym n) (λ j st at. absurd (ground arith))
]

module _ (f : Floats) (digest : KeyData → String) (sc : SchedulerConfig) (p : DeadlinePlanner f)
    (wc : WorkerConfig) (get_codec : String → Result (Codec (List ℕ))) (text : Error → String)
    (host : List ℕ → List ℕ) where
  unfoldable pub after : Call → Connector ℕ → Connector ℕ
  after (match_request r computed now plan_id ask) k =
      (get_num_new_matched_tokens f digest sc p r computed now plan_id ask k).1
  after (allocate r blocks) k = update_state_after_alloc r blocks k
  after (build r) k = (build_connector_meta r k).1
  after (report rid r) k = update_connector_output rid r k
  after poll k = (get_finished k).1
  after (load elapsed rid fetched) k = start_load_kv wc get_codec text elapsed rid fetched k
  after (save name kv slots rid) k = save_kv_layer wc host name kv slots rid k
  after (finish rid) k = (request_finished rid k).1

  unfoldable pub run : List Call → Connector ℕ → Connector ℕ
  unfolding after
  run [] k = k
  run (x ∷ xs) k = run xs (after x k)

  match-SideSettled :
      (r : Request) (computed now : ℕ) (plan_id : String) (ask : String → Reply) (k : Connector ℕ)
      → SideSettled k.scheduler_side
      → SideSettled
          (get_num_new_matched_tokens f digest sc p r computed now plan_id ask k).1.scheduler_side
  unfolding get_num_new_matched_tokens
  match-SideSettled r computed now plan_id ask k h = elim (Option-cases k.scheduler_side) [
    | inl e ↦ rw (get_num_new_matched_tokens, e) h
    | inr (s, e) ↦
        rw (get_num_new_matched_tokens, e)
          (prepare-AllSettled f digest sc p computed plan_id r now ask s (subst SideSettled e h))
  ]

  allocate-SideSettled :
      (r : Request) (blocks : List ℤ) (k : Connector ℕ)
      → SideSettled k.scheduler_side
      → SideSettled (update_state_after_alloc r blocks k).scheduler_side
  unfolding update_state_after_alloc bind_allocated_blocks State.set_allocated_blocks
  allocate-SideSettled r [] k h = h
  allocate-SideSettled r (b ∷ bs) k h = elim (Option-cases k.scheduler_side) [
    | inl e ↦ rw (update_state_after_alloc, e) h
    | inr (s, e) ↦
        rw (update_state_after_alloc, e)
          (assign-AllSettled (extract_request_id r)
            (λ st. record st { allocated_block_ids = b ∷ bs }) s.state_manager
            (subst SideSettled e h) (λ st. Says-blocks st.status (b ∷ bs) st))
  ]

  close-SideSettled :
      (rid : String) (k : Connector ℕ)
      → SideSettled k.scheduler_side
      → SideSettled (close_request rid k).scheduler_side
  unfolding close_request
  close-SideSettled rid k h = elim (Option-cases k.scheduler_side) [
    | inl e ↦ rw (close_request, e) tt
    | inr (s, e) ↦
        rw (close_request, e)
          (assign-AllSettled rid (λ st. record st { status = done; request_finished = true })
            s.state_manager (subst SideSettled e h) (λ st x. refl))
  ]

  -- the calls that leave the scheduler's half as it is
  finish-side :
      (rid : String) (k : Connector ℕ)
      → (request_finished rid k).1.scheduler_side ≡ (close_request rid k).scheduler_side
  unfolding request_finished track_finished
  finish-side rid k = ground arith

  build-side :
      (r : Request) (k : Connector ℕ)
      → (build_connector_meta r k).1.scheduler_side ≡ k.scheduler_side
  unfolding build_connector_meta
  build-side r k = ground arith

  load-side :
      (elapsed : ℕ) (rid : String) (fetched : Option Bytes) (k : Connector ℕ)
      → (start_load_kv wc get_codec text elapsed rid fetched k).scheduler_side ≡ k.scheduler_side
  unfolding start_load_kv
  load-side elapsed rid fetched k = ground arith

  save-side :
      (name : Text) (kv : List ℕ) (slots : Option (List ℤ)) (rid : String) (k : Connector ℕ)
      → (save_kv_layer wc host name kv slots rid k).scheduler_side ≡ k.scheduler_side
  unfolding save_kv_layer
  save-side name kv slots rid k = ground arith

  after-SideSettled :
      (x : Call) (k : Connector ℕ)
      → SideSettled k.scheduler_side
      → SideSettled (after x k).scheduler_side
  unfolding after update_connector_output get_finished
  after-SideSettled (match_request r computed now plan_id ask) k h =
      match-SideSettled r computed now plan_id ask k h
  after-SideSettled (allocate r blocks) k h = allocate-SideSettled r blocks k h
  after-SideSettled (build r) k h = rw (build-side r k) h
  after-SideSettled (report rid none) k h = h
  after-SideSettled (report rid (some r)) k h = h
  after-SideSettled poll k h = h
  after-SideSettled (load elapsed rid fetched) k h = rw (load-side elapsed rid fetched k) h
  after-SideSettled (save name kv slots rid) k h = rw (save-side name kv slots rid k) h
  after-SideSettled (finish rid) k h = rw (finish-side rid k) (close-SideSettled rid k h)

  run-SideSettled :
      (xs : List Call) (k : Connector ℕ)
      → SideSettled k.scheduler_side
      → SideSettled (run xs k).scheduler_side
  unfolding run
  run-SideSettled [] k h = h
  run-SideSettled (x ∷ xs) k h = run-SideSettled xs (after x k) (after-SideSettled x k h)

  -- After any calls of a new connector, in any order, the status of every request that the scheduler
  -- knows is MISS, HIT_PLANNED or DONE: a missed one counts no matched tokens, a planned one has a
  -- manifest, whose tokens it counts, and one that is done is marked as finished. No call leaves a
  -- request INIT, CRITICAL_LOADING, CRITICAL_READY, REFINING, FAILED or RECOMPUTE.
  pub run-IsSettled :
      (role : String) (m : Counters) (k : Connector ℕ) (xs : List Call) (s : SchedulerSide)
      (rid : String) (st : RequestTransferState)
      → new_connector role m ≡ ok k
      → (run xs k).scheduler_side ≡ some s
      → State.get rid s.state_manager ≡ some st
      → IsSettled st
  run-IsSettled role m k xs s rid st new e at =
      subst SideSettled e (run-SideSettled xs k (new_connector-SideSettled role m k new)) rid st at
