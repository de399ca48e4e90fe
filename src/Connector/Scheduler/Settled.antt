-- ===== src/Connector/Scheduler/Settled.antt =====
-- The states of requests that the calls of src/dakv/connector/scheduler_side.py leave.
use awarekv.Prelude.{
  ℕ, String, true, Option, none, some, List, inl, inr, string_eq, ◌==◌, ◌≡◌, refl, subst, ◌∙◌,
  arith, ==_iff, Bool-cases, Option-cases, Result, ok, raise, if◌then◌else◌, ltb, nat_eqb, length,
}
use awarekv.Common.Types.{
  PrefixManifest, TransferPlan, RequestTransferState, RequestStatus, miss, hit_planned, done,
}
use awarekv.Common.Hashing.{KeyData}
use awarekv.Dict.Laws.{option_map}
use awarekv.Planner.Floats.{Floats}
use awarekv.Planner.Deadline.{DeadlinePlanner, make_plan}
use awarekv.Connector.Adapter.{Request, extract_request_id, extract_prompt_tokens}
use awarekv.Connector.State
use awarekv.Connector.State.{StateManager}
use awarekv.Connector.Scheduler.Planned.{on_hit, with_plan}
use awarekv.Connector.Scheduler.Manager.{created, get-assign, get-create_or_get}
use awarekv.Connector.Scheduler.{
  SchedulerConfig, SchedulerSide, Reply, read_reply, is_recompute, is_prepared, apply_plan,
  apply_manifest, request_key, prepare_fresh, prepare_request_state,
}

-- What the status of a request says about its other fields; no other status is stored.
abbrev pub Says : RequestStatus → RequestTransferState → Type 0
Says miss st = st.matched_tokens ≡ 0
Says hit_planned st =
    (m : PrefixManifest) × (st.manifest ≡ some m) × (st.matched_tokens ≡ m.matched_tokens)
Says done st = st.request_finished ≡ true
Says _ st = ⊥

abbrev pub IsSettled : RequestTransferState → Type 0
IsSettled st = Says st.status st

abbrev pub AllSettled : StateManager → Type 0
AllSettled sm = (j : String) (st : RequestTransferState) → State.get j sm ≡ some st → IsSettled st

-- A change of the state of one request.
pub change-AllSettled :
    (rid : String) (new : Option RequestTransferState) (sm sm' : StateManager)
    → ((j : String) → State.get j sm' ≡ (if rid == j then new else State.get j sm))
    → AllSettled sm
    → ((st : RequestTransferState) → new ≡ some st → IsSettled st)
    → AllSettled sm'
change-AllSettled rid new sm sm' law all settled j st e = elim (Bool-cases (rid == j)) [
  | inl b ↦ settled st (ground (arith, law j))
  | inr b ↦ all j st (ground (arith, law j))
]

-- An assignment that keeps what a status says.
pub assign-AllSettled :
    (rid : String) (f : RequestTransferState → RequestTransferState) (sm : StateManager)
    → AllSettled sm
    → ((st : RequestTransferState) → IsSettled st → IsSettled (f st))
    → AllSettled (State.assign rid f sm)
assign-AllSettled rid f sm all keeps =
    change-AllSettled rid (option_map f (State.get rid sm)) sm (State.assign rid f sm)
      (λ j. ground (arith, get-assign rid j f sm, ==_iff rid j)) all
      λ st e. elim (Option-cases (State.get rid sm)) [
        | inl n ↦ absurd (ground arith)
        | inr (old, o) ↦ subst IsSettled (ground arith) (keeps old (all rid old o))
      ]

-- what a plan makes of the state of its request
abbrev planned : Result TransferPlan → RequestTransferState → RequestTransferState
planned (raise e) st = st
planned (ok pl) st =
    if is_recompute pl.mode
    then record st { matched_tokens = 0; status = miss; fallback_reason = some pl.reason_code }
    else with_plan pl st

get-apply_plan :
    (rid j : String) (computed : ℕ) (r : Result TransferPlan) (s : SchedulerSide)
    → State.get j (apply_plan rid computed r s).1.state_manager ≡ (
        if rid == j
        then option_map (planned r) (State.get rid s.state_manager)
        else State.get j s.state_manager)
unfolding apply_plan State.mark_recompute State.set_plan
get-apply_plan rid j computed (raise e) s = ground (arith, ==_iff rid j)
get-apply_plan rid j computed (ok pl) s = elim (Bool-cases (is_recompute pl.mode)) [
  | inl b ↦ rw b (simp get-assign (ground (arith, ==_iff rid j)))
  | inr b ↦ rw b (simp get-assign (ground (arith, ==_iff rid j)))
]

module _ (f : Floats) (digest : KeyData → String) (c : SchedulerConfig) (p : DeadlinePlanner f)
    (computed : ℕ) (plan_id : String) where
  -- what the answer of the manifest service makes of the state of its request
  abbrev outcome : Option PrefixManifest → RequestTransferState → RequestTransferState
  outcome none st = record st {
    matched_tokens = 0;
    status = miss;
    fallback_reason = some "no_match";
  }
  outcome (some m) st = planned (make_plan f p m c.enable_refinement plan_id) (on_hit m st)

  get-apply_manifest :
      (rid j : String) (m : Option PrefixManifest) (s : SchedulerSide)
      → State.get j (apply_manifest f digest c p rid computed plan_id m s).1.state_manager ≡ (
          if rid == j
          then option_map (outcome m) (State.get rid s.state_manager)
          else State.get j s.state_manager)
  unfolding apply_manifest State.mark_manifest_miss State.mark_manifest_hit
  get-apply_manifest rid j none s = simp get-assign (ground (arith, ==_iff rid j))
  get-apply_manifest rid j (some m) s =
      get-apply_plan rid j computed (make_plan f p m c.enable_refinement plan_id) _
      ∙ simp get-assign (ground (arith, ==_iff rid j))

  planned-IsSettled :
      (m : PrefixManifest) (r : Result TransferPlan) (st : RequestTransferState)
      → IsSettled (planned r (on_hit m st))
  planned-IsSettled m (raise e) st = (m, refl, refl)
  planned-IsSettled m (ok pl) st = elim (Bool-cases (is_recompute pl.mode)) [
    | inl b ↦ rw b refl
    | inr b ↦ rw b (m, refl, refl)
  ]

  outcome-IsSettled :
      (m : Option PrefixManifest) (st : RequestTransferState) → IsSettled (outcome m st)
  outcome-IsSettled none st = refl
  outcome-IsSettled (some m) st =
      planned-IsSettled m (make_plan f p m c.enable_refinement plan_id) st

  -- The state of the request that `prepare_request_state` begins with.
  abbrev started : String → ℕ → String → RequestTransferState → RequestTransferState
  started rid now key st = record st { start_time_ms = now; prefix_key = some key }

  prepare_fresh-AllSettled :
      (rid : String) (toks : List ℕ) (now : ℕ) (ask : String → Reply) (s : SchedulerSide)
      → AllSettled s.state_manager
      → AllSettled (prepare_fresh f digest c p rid toks computed now plan_id ask s).1.state_manager
  unfolding prepare_fresh
  prepare_fresh-AllSettled rid toks now ask s all =
      let key = request_key f digest c toks in
      let m = read_reply (ask key) in
      let st = started rid now key (created rid (State.get rid s.state_manager)) in
      change-AllSettled rid (some (outcome m st)) s.state_manager
        (prepare_fresh f digest c p rid toks computed now plan_id ask s).1.state_manager
        (λ j.
          get-apply_manifest rid j m _
          ∙ simp (get-assign, get-create_or_get) (ground (arith, ==_iff rid j)))
        all λ t e. subst IsSettled (ground arith) (outcome-IsSettled m st)

  -- Preparing a request leaves every request with a status that says what it should.
  pub prepare-AllSettled :
      (r : Request) (now : ℕ) (ask : String → Reply) (s : SchedulerSide)
      → AllSettled s.state_manager
      → AllSettled (prepare_request_state f digest c p r computed now plan_id ask s).1.state_manager
  unfolding prepare_request_state
  prepare-AllSettled r now ask s all =
      let rid = extract_request_id r in
      let toks = extract_prompt_tokens r in
      let fresh = prepare_fresh-AllSettled rid toks now ask s all in
      elim (Bool-cases (nat_eqb (length toks) 0)) [
        | inl b ↦ rw b all
        | inr b ↦ elim (Bool-cases (ltb (length toks) c.min_prefix_tokens)) [
          | inl d ↦ rw (b, d) all
          | inr d ↦ elim (Option-cases (State.get rid s.state_manager)) [
            | inl n ↦ rw (b, d, n) fresh
            | inr (st, e) ↦ elim (Bool-cases (is_prepared st.status)) [
              | inl h ↦ rw (b, d, e, h) all
              | inr h ↦ rw (b, d, e, h) fresh
            ]
          ]
        ]
      ]
