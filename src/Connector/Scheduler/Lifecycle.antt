-- ===== src/Connector/Scheduler/Lifecycle.antt =====
-- Preparing a request and then building its metadata, on every outcome of the query and the plan.
use awarekv.Prelude.{
  ℕ, ◌-◌, ◌≤◌, ◌<◌, String, true, false, Option, none, some, string_eq, ◌≡◌, ◌≢◌, arith, ok, raise,
  Error, length, refl, ap, ◌∙◌,
}
use awarekv.Common.Types
use awarekv.Common.Types.{
  PrefixManifest, TransferPlan, PlanMode, RequestTransferState, DeadlineConnectorMetadata,
  new_state, hit_planned, status_eqb,
}
use awarekv.Common.Hashing.{KeyData}
use awarekv.Dict.Laws.{option_map}
use awarekv.Planner.Floats.{Floats}
use awarekv.Planner.Deadline.{DeadlinePlanner, make_plan}
use awarekv.Connector.Adapter.{Request, extract_request_id, extract_prompt_tokens}
use awarekv.Connector.State
use awarekv.Connector.State.{StateManager}
use awarekv.Connector.Metadata.{metadata_of}
use awarekv.Connector.Scheduler.Manager.{manager_laws, created}
use awarekv.Connector.Scheduler.{
  SchedulerConfig, SchedulerSide, Reply, Matched, read_reply, apply_plan, apply_manifest,
  request_key, prepare_fresh, prepare_request_state, build_request_metadata,
}
-- Whether a request's stored state makes `prepare_request_state` answer from it.
use awarekv.Connector.Scheduler.Planned.{
  cached, not_planned, build-not_planned, apply_plan-recompute, with_plan, apply_plan-accepted,
  on_hit, build-planned, build-no_plan, prepare-cached, make_plan-tokens,
}

module _ (f : Floats) (digest : KeyData → String) (c : SchedulerConfig) (p : DeadlinePlanner f)
    (r : Request) (computed now : ℕ) (plan_id : String) (ask : String → Reply)
    (s : SchedulerSide) where
  abbrev pub rid_of : String
  rid_of = extract_request_id r

  -- The prompt is long enough, and no earlier call has prepared the request.
  pub record IsFresh : Type 0 where
    pub nonempty : 0 < length (extract_prompt_tokens r)
    pub long_enough : c.min_prefix_tokens ≤ length (extract_prompt_tokens r)
    pub uncached : cached (State.get (extract_request_id r) s.state_manager) ≡ false

  abbrev pub answered : Option PrefixManifest
  answered = read_reply (ask (request_key f digest c (extract_prompt_tokens r)))

  abbrev pub prepared : Matched
  prepared = prepare_request_state f digest c p r computed now plan_id ask s

  prepared_fresh :
      IsFresh
      → prepared
        ≡ prepare_fresh f digest c p
            (extract_request_id r)
            (extract_prompt_tokens r)
            computed
            now
            plan_id
            ask
            s
  unfolding prepare_request_state
  prepared_fresh h = ground arith

  -- the state that the request has when the manifest's answer arrives
  abbrev pub begun : RequestTransferState
  begun = record (created rid_of (State.get rid_of s.state_manager)) {
    start_time_ms = now;
    prefix_key = some (request_key f digest c (extract_prompt_tokens r));
  }

  prepared_manifest :
      IsFresh
      → (s' : SchedulerSide) × (prepared
          ≡ apply_manifest f digest c p rid_of computed plan_id answered s')
        × (State.get rid_of s'.state_manager ≡ some begun)
  unfolding prepare_fresh
  prepared_manifest h = (_, prepared_fresh h, simp manager_laws)

  apply_manifest-miss :
      (s' : SchedulerSide) (rid : String)
      → ((apply_manifest f digest c p rid computed plan_id none s').0 ≡ ok (0, false))
        × (not_planned (
              State.get rid
                (apply_manifest f digest c p rid computed plan_id none s').1.state_manager)
            ≡ true)
  unfolding apply_manifest
  apply_manifest-miss s' rid = simp manager_laws (ground arith)

  apply_manifest-hit :
      (m : PrefixManifest) (s' : SchedulerSide) (rid : String) (st : RequestTransferState)
      → State.get rid s'.state_manager ≡ some st
      → (s2 : SchedulerSide) × (apply_manifest f digest c p rid computed plan_id (some m) s'
          ≡ apply_plan rid computed (make_plan f p m c.enable_refinement plan_id) s2)
        × (State.get rid s2.state_manager ≡ some (on_hit m st))
  unfolding apply_manifest
  apply_manifest-hit m s' rid st h = (_, refl, simp manager_laws (rw h))

  -- When no call has prepared the request and the service knows no manifest, nothing is to be loaded: no token is reported, and no
  -- metadata is built for the worker.
  pub prepare-miss :
      IsFresh
      → answered ≡ none
      → (prepared.0 ≡ ok (0, false)) × (build_request_metadata rid_of prepared.1 ≡ none)
  prepare-miss h e =
      let (s', step, _) = prepared_manifest h in
      let (a, b) = apply_manifest-miss s' rid_of in rw (step, e) (a, build-not_planned rid_of _ b)

  -- When no call has prepared the request and the planner decides to recompute, nothing is to be loaded either, even though there is a
  -- manifest: no token is reported, and no metadata is built.
  pub prepare-recompute :
      (m : PrefixManifest) (pl : TransferPlan)
      → IsFresh
      → answered ≡ some m
      → make_plan f p m c.enable_refinement plan_id ≡ ok pl
      → pl.mode ≡ Types.PlanMode.recompute
      → (prepared.0 ≡ ok (0, false)) × (build_request_metadata rid_of prepared.1 ≡ none)
  prepare-recompute m pl h e planned mode =
      let (s', step, at) = prepared_manifest h in
      let (s2, hit, _) = apply_manifest-hit m s' rid_of begun at in
      let (a, b) = apply_plan-recompute rid_of computed pl s2 (rw mode) in
      rw (step, e, hit, planned) (a, build-not_planned rid_of _ b)

  pub prepare-accepted :
      (m : PrefixManifest) (pl : TransferPlan)
      → IsFresh
      → answered ≡ some m
      → make_plan f p m c.enable_refinement plan_id ≡ ok pl
      → pl.mode ≢ Types.PlanMode.recompute
      → (prepared.0 ≡ ok (m.matched_tokens - computed, false))
        × (build_request_metadata rid_of prepared.1
            ≡ some
                (metadata_of (with_plan pl (on_hit m begun)) m pl (some begun.allocated_block_ids)))
  prepare-accepted m pl h e planned mode =
      let (s', step, at) = prepared_manifest h in
      let (s2, hit, at2) = apply_manifest-hit m s' rid_of begun at in
      let (a, b) = apply_plan-accepted rid_of computed pl s2 (ground arith) in
      rw (step, e, hit, planned)
        (
          rw a (rw (make_plan-tokens f p m c.enable_refinement plan_id planned mode)),
          build-planned rid_of _ _ m pl (b ∙ ap (option_map (with_plan pl)) at2) refl refl refl,
        )

  -- A second call for an accepted request reports all tokens of the manifest, whatever number is
  -- computed by then: what the first call subtracted is not subtracted again.
  pub prepare-again :
      (m : PrefixManifest) (pl : TransferPlan) (computed' now' : ℕ) (plan_id' : String)
      → IsFresh
      → answered ≡ some m
      → make_plan f p m c.enable_refinement plan_id ≡ ok pl
      → pl.mode ≢ Types.PlanMode.recompute
      → (prepare_request_state f digest c p r computed' now' plan_id' ask prepared.1).0
        ≡ ok (m.matched_tokens, false)
  prepare-again m pl computed' now' plan_id' h e planned mode =
      let (s', step, at) = prepared_manifest h in
      let (s2, hit, at2) = apply_manifest-hit m s' rid_of begun at in
      let (a, b) = apply_plan-accepted rid_of computed pl s2 (ground arith) in
      rw (step, e, hit, planned)
        (rw (
          prepare-cached f digest c p r computed' now' plan_id' ask
            (apply_plan rid_of computed (ok pl) s2).1 (with_plan pl (on_hit m begun)) h.nonempty
            h.long_enough (b ∙ ap (option_map (with_plan pl)) at2) refl))

  -- Should the planner raise (by a division by zero), the request stays marked as planned: no
  -- metadata can be built for it, and yet the next call reports all tokens of the manifest.
  pub prepare-raised :
      (m : PrefixManifest) (err : Error) (computed' now' : ℕ) (plan_id' : String)
      → IsFresh
      → answered ≡ some m
      → make_plan f p m c.enable_refinement plan_id ≡ raise err
      → begun.plan ≡ none
      → (prepared.0 ≡ raise err)
        × (build_request_metadata rid_of prepared.1 ≡ none)
        × ((prepare_request_state f digest c p r computed' now' plan_id' ask prepared.1).0
            ≡ ok (m.matched_tokens, false))
  unfolding apply_plan
  prepare-raised m err computed' now' plan_id' h e planned no_plan =
      let (s', step, at) = prepared_manifest h in
      let (s2, hit, at2) = apply_manifest-hit m s' rid_of begun at in
      rw (step, e, hit, planned)
        (
          refl,
          build-no_plan rid_of s2 (on_hit m begun) at2 no_plan,
          rw (
              prepare-cached f digest c p r computed' now' plan_id' ask s2 (on_hit m begun)
                h.nonempty h.long_enough at2 refl),
        )
