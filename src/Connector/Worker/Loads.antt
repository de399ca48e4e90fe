-- ===== src/Connector/Worker/Loads.antt =====
-- The life of a load in src/dakv/connector/worker_side.py.
use awarekv.Prelude.{
  ℕ, ◌<◌, ◌≡◌, ◌≢◌, refl, arith, true, false, Option, none, some, List, [], ◌∷◌, length, get_elem?,
  String, string_eq, ◌⊎◌, inl, inr, Result-cases, attribute_error, lt→ltb, ap, sym, subst, ◌∙◌,
  ◌==◌, if◌then◌else◌, Result, ok, raise, Error,
}
use awarekv.Dict.{Dict, find, insert}
use awarekv.Dict.Laws.{find-remove, find-remove_self, find-insert_self, insert_ne}
use awarekv.Common.Types.{DeadlineConnectorMetadata, WorkerLoadResult}
use awarekv.Transport.Struct.{Bytes}
use awarekv.Transport.Channels.{critical_fetch, refine_fetch}
use awarekv.Connector.Metadata.{create_load_result}
use awarekv.Connector.SaveSession.{SaveSession}
use awarekv.Connector.LayerName.{extract_layer_name}
use awarekv.Connector.LayerName.RoundTrip.{extract_layer_idx-extract_layer_name}
use awarekv.Codec.{Codec}
use awarekv.Connector.Worker.{
  WorkerConfig, WorkerSide, fetch_critical_kv, decode_critical_kv, load_failed, load_done, schedule,
  start_load_kv, load_refinement, not_loaded, load_error, find_layer, layer_at, wait_for_index,
  wait_for_layer_load, request_finished, without_loads,
}

module _ {A : Type 0} (c : WorkerConfig) (get_codec : String → Result (Codec (List A)))
    (text : Error → String) (elapsed : ℕ) (md : DeadlineConnectorMetadata) where
  -- what a load reports and leaves when its bytes `bs` are decoded to the layers `kvs`
  abbrev pub IsLoaded : Bytes → List (List A) → WorkerLoadResult × WorkerSide A → Type 0
  IsLoaded bs kvs (r, v) =
      (r.success ≡ true)
      × (r.loaded_tokens ≡ md.matched_tokens)
      × (r.critical_bytes ≡ length bs)
      × (find md.request_id v.loaded_kvs ≡ some kvs)
      × (find md.request_id v.active_loads ≡ some md)

  -- what a load reports and leaves when it fails
  abbrev pub IsNotLoaded : WorkerSide A → WorkerLoadResult × WorkerSide A → Type 0
  IsNotLoaded w (r, v) =
      (r.success ≡ false)
      × (r.loaded_tokens ≡ 0)
      × (r.error_code ≡ "load_failed")
      × (v.loaded_kvs ≡ w.loaded_kvs)
      × (v.load_futures ≡ w.load_futures)
      × (find md.request_id v.active_loads ≡ none)

  schedule-keeps :
      (v : WorkerSide A)
      → ((schedule md v).loaded_kvs ≡ v.loaded_kvs)
        × ((schedule md v).active_loads ≡ v.active_loads)
  unfolding schedule
  schedule-keeps v = ground arith

  load_done-IsLoaded :
      (bs : Bytes) (kvs : List (List A)) (v : WorkerSide A)
      → find md.request_id v.active_loads ≡ some md
      → IsLoaded bs kvs (load_done md bs kvs elapsed v)
  unfolding load_done create_load_result
  load_done-IsLoaded bs kvs v h =
      let u = record v { loaded_kvs = insert md.request_id kvs v.loaded_kvs } in
      let k = schedule-keeps u in
      (
        refl,
        refl,
        refl,
        ap (find md.request_id) k.0 ∙ find-insert_self md.request_id kvs v.loaded_kvs,
        ap (find md.request_id) k.1 ∙ h,
      )

  -- A load keeps the loaded layers, or inserts those of its request.
  start_load_kv-loaded_kvs :
      (fetched : Option Bytes) (w : WorkerSide A)
      → let out = start_load_kv c get_codec text elapsed md fetched w in
        (out.1.loaded_kvs ≡ w.loaded_kvs)
        ⊎ ((kvs : List (List A)) × (out.1.loaded_kvs ≡ insert md.request_id kvs w.loaded_kvs))
  unfolding start_load_kv fetch_critical_kv critical_fetch load_failed load_done schedule
  start_load_kv-loaded_kvs none w = inl refl
  start_load_kv-loaded_kvs (some bs) w =
      elim (Result-cases (decode_critical_kv c (get_codec md.critical_codec) bs md.num_layers)) [
        | inl (kvs, e) ↦ inr (kvs, rw (start_load_kv, e) (ground arith))
        | inr (x, e) ↦ inl (rw (start_load_kv, e) refl)
      ]

  wait-first :
      (a : String) (kvs : List (List A)) (d : Dict String (List (List A))) (v : WorkerSide A)
      (i : ℕ)
      → i < length kvs
      → v.loaded_kvs ≡ (a, kvs) ∷ d
      → wait_for_layer_load (extract_layer_name i) v ≡ ok (get_elem? kvs i)
  unfolding wait_for_layer_load wait_for_index find_layer layer_at
  wait-first a kvs d v i lt h =
      rw ((extract_layer_idx-extract_layer_name i).0, h, lt→ltb i (length kvs) lt) refl

  -- what a load reports and leaves, by the bytes that arrive and what they decode to
  abbrev pub IsOutcome :
      WorkerSide A → Bytes → Result (List (List A)) → WorkerLoadResult × WorkerSide A → Type 0
  IsOutcome w bs (ok kvs) out = IsLoaded bs kvs out
  IsOutcome w bs (raise e) out = IsNotLoaded w out

  abbrev pub IsFetched : WorkerSide A → Option Bytes → WorkerLoadResult × WorkerSide A → Type 0
  IsFetched w none out = IsNotLoaded w out
  IsFetched w (some bs) out =
      IsOutcome w bs (decode_critical_kv c (get_codec md.critical_codec) bs md.num_layers) out

  not_loaded_lem :
      (bs : Bytes) (x : Error) (w : WorkerSide A)
      → decode_critical_kv c (get_codec md.critical_codec) bs md.num_layers ≡ raise x
      → IsNotLoaded w (start_load_kv c get_codec text elapsed md (some bs) w)
  unfolding start_load_kv fetch_critical_kv critical_fetch load_failed create_load_result
  not_loaded_lem bs x w e =
      rw (start_load_kv, e)
        (
          refl,
          refl,
          refl,
          refl,
          refl,
          find-remove_self md.request_id (insert md.request_id md w.active_loads),
        )

  loaded_lem :
      (bs : Bytes) (kvs : List (List A)) (w : WorkerSide A)
      → decode_critical_kv c (get_codec md.critical_codec) bs md.num_layers ≡ ok kvs
      → IsLoaded bs kvs (start_load_kv c get_codec text elapsed md (some bs) w)
  unfolding start_load_kv fetch_critical_kv critical_fetch
  loaded_lem bs kvs w e =
      rw (start_load_kv, e)
        (load_done-IsLoaded bs kvs _ (find-insert_self md.request_id md w.active_loads))

  -- A load whose bytes arrive and decode reports all the matched tokens and the number of bytes, and
  -- the worker then has the decoded layers. Any other load reports a failure, and leaves no active
  -- load for the request, and the loaded layers and the refinements of before.
  pub start_load_kv-total :
      (fetched : Option Bytes) (w : WorkerSide A)
      → IsFetched w fetched (start_load_kv c get_codec text elapsed md fetched w)
  unfolding start_load_kv fetch_critical_kv critical_fetch load_failed create_load_result
  start_load_kv-total none w = (
    refl,
    refl,
    refl,
    refl,
    refl,
    find-remove_self md.request_id (insert md.request_id md w.active_loads),
  )
  start_load_kv-total (some bs) w =
      elim (Result-cases (decode_critical_kv c (get_codec md.critical_codec) bs md.num_layers)) [
        | inl (kvs, e) ↦
            subst (λ r. IsOutcome w bs r (start_load_kv c get_codec text elapsed md (some bs) w))
              (sym e) (loaded_lem bs kvs w e)
        | inr (x, e) ↦
            subst (λ r. IsOutcome w bs r (start_load_kv c get_codec text elapsed md (some bs) w))
              (sym e) (not_loaded_lem bs x w e)
      ]

  -- While the layers of a request `a` are the first in the table and reach beyond the index `i`, a load
  -- of another request does not change what a wait for the name of the layer `i` gives: it is the
  -- layer of `a`.
  pub wait_for_layer_load-start_load_kv :
      (fetched : Option Bytes) (w : WorkerSide A) (a : String) (kvs : List (List A))
      (d : Dict String (List (List A))) (i : ℕ)
      → w.loaded_kvs ≡ (a, kvs) ∷ d
      → a ≢ md.request_id
      → i < length kvs
      → wait_for_layer_load
          (extract_layer_name i)
          (start_load_kv c get_codec text elapsed md fetched w).1
        ≡ ok (get_elem? kvs i)
  wait_for_layer_load-start_load_kv fetched w a kvs d i h n lt =
      elim (start_load_kv-loaded_kvs fetched w) [
        | inl e ↦ wait-first a kvs d _ i lt (e ∙ h)
        | inr (ls, e) ↦
            wait-first a kvs (insert md.request_id ls d) _ i lt
              (e ∙ ap (insert md.request_id ls) h ∙ insert_ne md.request_id a ls kvs d n)
      ]

module _ {A : Type 0} (rid : String) where
  -- How `request_finished` ends, by the session that the request has: the exception is that of the
  -- missing method, which the code calls for a session that was not aborted.
  abbrev pub IsFinished :
      WorkerSide A → Option (SaveSession (List A)) → Result (Unit {0}) × WorkerSide A → Type 0
  IsFinished w none (r, v) = (r ≡ ok tt) × (find rid v.save_sessions ≡ none)
  IsFinished w (some s) (r, v) =
      (r ≡ (if s.aborted then ok tt else raise attribute_error))
      × (find rid v.save_sessions ≡ (if s.aborted then none else some s))

  request_finished-IsFinished :
      (w : WorkerSide A) (o : Option (SaveSession (List A)))
      → find rid w.save_sessions ≡ o
      → IsFinished w o (request_finished rid w)
  unfolding request_finished without_loads
  request_finished-IsFinished w none e = rw (request_finished, e) (refl, e)
  request_finished-IsFinished w (some s) e =
      (ground arith, ground (arith, find-remove_self rid w.save_sessions))

  -- After `request_finished` the worker has no load, layers or refinement of the request, and all that
  -- it had of others, their save sessions among it. The request's save session is gone as well, and
  -- the call returns, unless there was one that was not aborted: then the call raises and the session
  -- stays.
  pub request_finished-forgets :
      (j : String) (w : WorkerSide A)
      → (find j (request_finished rid w).1.active_loads
          ≡ (if rid == j then none else find j w.active_loads))
        × (find j (request_finished rid w).1.loaded_kvs
            ≡ (if rid == j then none else find j w.loaded_kvs))
        × (find j (request_finished rid w).1.load_futures
            ≡ (if rid == j then none else find j w.load_futures))
        × ((if rid == j then none else find j (request_finished rid w).1.save_sessions)
            ≡ (if rid == j then none else find j w.save_sessions))
        × IsFinished w (find rid w.save_sessions) (request_finished rid w)
  unfolding request_finished without_loads
  request_finished-forgets j w = (
    ground (arith, find-remove rid j w.active_loads),
    ground (arith, find-remove rid j w.loaded_kvs),
    ground (arith, find-remove rid j w.load_futures),
    ground (arith, find-remove rid j w.save_sessions),
    request_finished-IsFinished w (find rid w.save_sessions) refl,
  )

-- No refinement is ever loaded: the thread ends with a warning or an error, whatever bytes arrive, and
-- leaves the worker, the counted refinement bytes among it, as it was.
pub load_refinement-nothing :
    {A : Type 0} (fetched : Option Bytes) (w : WorkerSide A)
    → ((load_refinement fetched w).1 ≡ w)
      × (((load_refinement fetched w).0 ≡ not_loaded)
          ⊎ ((load_refinement fetched w).0 ≡ load_error attribute_error))
unfolding load_refinement refine_fetch
load_refinement-nothing none w = (refl, inl refl)
load_refinement-nothing (some []) w = (refl, inl refl)
load_refinement-nothing (some (b ∷ bs)) w = (refl, inr refl)
