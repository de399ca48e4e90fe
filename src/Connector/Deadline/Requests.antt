-- ===== src/Connector/Deadline/Requests.antt =====
-- The requests that src/dakv/connector/deadline_connector.py reports as finished.
use awarekv.Prelude.{
  ℕ, String, Option, none, some, List, [], ◌∷◌, ◌++◌, append_assoc, append-nil, sym, ap, ◌∙◌, ◌≡◌,
  refl, arith, Result, ok, raise, Error, string_eq, ℤ, Option-cases, inl, inr,
}
use awarekv.Common.Hashing.{KeyData}
use awarekv.Planner.Floats.{Floats}
use awarekv.Planner.Deadline.{DeadlinePlanner}
use awarekv.Transport.Struct.{Bytes}
use awarekv.Codec.{Codec}
use awarekv.Connector.Adapter.{Request}
use awarekv.Connector.Scheduler.{SchedulerConfig, Reply}
use awarekv.Connector.Worker.{WorkerConfig}
use awarekv.Connector.LayerName.{Text}
use awarekv.Connector.Deadline.{
  Connector, get_num_new_matched_tokens, update_state_after_alloc, build_connector_meta,
  get_finished, update_connector_output, start_load_kv, save_kv_layer, close_request,
  track_finished, request_finished,
}
use awarekv.Connector.Deadline.Statuses.{
  Call, match_request, allocate, build, report, poll, load, save, finish, after,
}

abbrev pub tracked : String → Result (Unit {0}) → List String
tracked rid (ok u) = rid ∷ []
tracked rid (raise e) = []

module _ (f : Floats) (digest : KeyData → String) (sc : SchedulerConfig) (p : DeadlinePlanner f)
    (wc : WorkerConfig) (get_codec : String → Result (Codec (List ℕ))) (text : Error → String)
    (host : List ℕ → List ℕ) where
  abbrev after_call : Call → Connector ℕ → Connector ℕ
  after_call = after f digest sc p wc get_codec text host

  -- the ids that a call returns to vLLM as finished, and the connector behind it
  unfoldable pub call : Call → Connector ℕ → List String × Connector ℕ
  unfolding get_finished after
  call poll k = get_finished k
  call x k = ([], after_call x k)

  -- the request that a call finishes, if it returns
  unfoldable pub completed : Call → Connector ℕ → List String
  unfolding request_finished
  completed (finish rid) k = tracked rid (request_finished rid k).0
  completed _ k = []

  -- all ids that the calls return, and all requests that they finish
  unfoldable pub run : List Call → Connector ℕ → List String × Connector ℕ
  unfolding call
  run [] k = ([], k)
  run (x ∷ xs) k = let (ids, k1) = call x k in let (more, k2) = run xs k1 in (ids ++ more, k2)

  unfoldable pub all_completed : List Call → Connector ℕ → List String
  unfolding call completed
  all_completed [] k = []
  all_completed (x ∷ xs) k = completed x k ++ all_completed xs (call x k).1

  -- the calls that leave the finished requests as they are
  match-keeps :
      (r : Request) (computed now : ℕ) (plan_id : String) (ask : String → Reply) (k : Connector ℕ)
      → (get_num_new_matched_tokens f digest sc p r computed now plan_id ask k).1.finished_requests
        ≡ k.finished_requests
  unfolding get_num_new_matched_tokens
  match-keeps r computed now plan_id ask k = elim (Option-cases k.scheduler_side) [
    | inl e ↦ rw (get_num_new_matched_tokens, e) refl
    | inr (s, e) ↦ rw (get_num_new_matched_tokens, e) refl
  ]

  allocate-keeps :
      (r : Request) (blocks : List ℤ) (k : Connector ℕ)
      → (update_state_after_alloc r blocks k).finished_requests ≡ k.finished_requests
  unfolding update_state_after_alloc
  allocate-keeps r [] k = refl
  allocate-keeps r (b ∷ bs) k = elim (Option-cases k.scheduler_side) [
    | inl e ↦ rw (update_state_after_alloc, e) refl
    | inr (s, e) ↦ rw (update_state_after_alloc, e) refl
  ]

  build-keeps :
      (r : Request) (k : Connector ℕ)
      → (build_connector_meta r k).1.finished_requests ≡ k.finished_requests
  unfolding build_connector_meta
  build-keeps r k = ground arith

  load-keeps :
      (elapsed : ℕ) (rid : String) (fetched : Option Bytes) (k : Connector ℕ)
      → (start_load_kv wc get_codec text elapsed rid fetched k).finished_requests
        ≡ k.finished_requests
  unfolding start_load_kv
  load-keeps elapsed rid fetched k = ground arith

  save-keeps :
      (name : Text) (kv : List ℕ) (slots : Option (List ℤ)) (rid : String) (k : Connector ℕ)
      → (save_kv_layer wc host name kv slots rid k).finished_requests ≡ k.finished_requests
  unfolding save_kv_layer
  save-keeps name kv slots rid k = ground arith

  finish-finished :
      (rid : String) (k : Connector ℕ)
      → (request_finished rid k).1.finished_requests
        ≡ k.finished_requests ++ tracked rid (request_finished rid k).0
  unfolding request_finished track_finished close_request
  finish-finished rid k = ground (arith, append-nil k.finished_requests)

  -- one call: what it returns, before what is left to report, is what was left and what it finishes
  call-finished :
      (x : Call) (k : Connector ℕ)
      → (call x k).0 ++ (call x k).1.finished_requests ≡ k.finished_requests ++ completed x k
  unfolding call completed after get_finished update_connector_output
  call-finished (finish rid) k = finish-finished rid k
  call-finished poll k = refl
  call-finished (report rid none) k = sym (append-nil k.finished_requests)
  call-finished (report rid (some r)) k = sym (append-nil k.finished_requests)
  call-finished (match_request r computed now plan_id ask) k =
      match-keeps r computed now plan_id ask k ∙ sym (append-nil k.finished_requests)
  call-finished (allocate r blocks) k =
      allocate-keeps r blocks k ∙ sym (append-nil k.finished_requests)
  call-finished (build r) k = build-keeps r k ∙ sym (append-nil k.finished_requests)
  call-finished (load elapsed rid fetched) k =
      load-keeps elapsed rid fetched k ∙ sym (append-nil k.finished_requests)
  call-finished (save name kv slots rid) k =
      save-keeps name kv slots rid k ∙ sym (append-nil k.finished_requests)

  -- Whatever the order of the calls that change the connector, the ids that `get_finished` has returned, followed by those it has
  -- still to return, are those of the start and the requests whose `request_finished` returned, in
  -- order: each is delivered once and none is lost. A request whose `request_finished` raises is never
  -- delivered.
  pub run-finished :
      (xs : List Call) (k : Connector ℕ)
      → (run xs k).0 ++ (run xs k).1.finished_requests ≡ k.finished_requests ++ all_completed xs k
  unfolding run all_completed
  run-finished [] k = sym (append-nil k.finished_requests)
  run-finished (x ∷ xs) k =
      let k1 = (call x k).1 in
      append_assoc (call x k).0 (run xs k1).0 (run xs k1).1.finished_requests
      ∙ ap (λ l. (call x k).0 ++ l) (run-finished xs k1)
      ∙ sym (append_assoc (call x k).0 k1.finished_requests (all_completed xs k1))
      ∙ ap (λ l. l ++ all_completed xs k1) (call-finished x k)
      ∙ append_assoc k.finished_requests (completed x k) (all_completed xs k1)
