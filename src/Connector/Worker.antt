-- ===== src/Connector/Worker.antt =====
-- `WorkerSide` of src/dakv/connector/worker_side.py. A tensor is the list of its rows. The results of
-- the network calls, the codecs and the texts of exceptions are parameters.
pub mod Decode
pub mod Loads
use awarekv.Prelude.{
  ℕ, zero, suc, ◌+◌, ◌-◌, ◌*◌, ◌/◌, max, String, Bool, true, false, not, ◌&&◌, Option, none, some,
  List, [], ◌∷◌, ℤ, pos, negsuc, if◌then◌else◌, ◌==◌, string_eq, nat_eqb, ltb, leb, length, take,
  drop, get_elem?, truthy, Result, ok, raise, Error, runtime_error, index_error,
  zero_division_error, attribute_error, ◌>>=◌,
}
use awarekv.Common.Types.{DeadlineConnectorMetadata, WorkerLoadResult}
use awarekv.Dict
use awarekv.Dict.{Dict, find, contains, insert, remove}
use awarekv.Metrics
use awarekv.Metrics.{Counters}
use awarekv.Transport.Struct.{Bytes}
use awarekv.Codec.{EncodedBlob, Codec}
use awarekv.Transport.Channels.{critical_fetch, refine_fetch}
use awarekv.Connector.Metadata.{create_load_result}
use awarekv.Connector.LayerName.{Text, extract_layer_idx}
use awarekv.Connector.Paged.{extract_prefix_kv_from_layer}
use awarekv.Connector.SaveSession.{SaveSession, new_session, add_layer, is_complete}

-- the fields of the configuration that the worker reads
pub record WorkerConfig : Type 0 where
  pub block_size : ℕ
  pub num_kv_heads : ℕ
  pub head_size : ℕ
  pub num_layers : ℕ

-- data[start:end] for the layer `i` of `n`: the last one takes the rest
unfoldable pub layer_slice : Bytes → ℕ → ℕ → Bytes
layer_slice bs n i =
    let chunk_size = length bs / n in
    let start = i * chunk_size in
    if ltb i (n - 1) then take chunk_size (drop start bs) else drop start bs

-- the shape that is guessed from the size; a size of zero divides by zero
unfoldable pub estimated_shape : WorkerConfig → Bool → Bytes → Result (List ℕ)
estimated_shape c is_int8 layer =
    let per_block = c.block_size * c.num_kv_heads * c.head_size in
    let total = length layer / (if is_int8 then 1 else 2) in
    if nat_eqb per_block 0
    then raise zero_division_error
    else ok (max 1 (total / per_block) ∷ c.block_size ∷ c.num_kv_heads ∷ c.head_size ∷ [])

-- The futures of refinement loads are known by their requests only.
pub record WorkerSide (A : Type 0) : Type 0 where
  pub active_loads : Dict String DeadlineConnectorMetadata
  pub loaded_kvs : Dict String (List (List A))
  pub load_futures : Dict String (Unit {0})
  pub save_sessions : Dict String (SaveSession (List A))
  pub metrics : Counters

-- `_fetch_critical_kv`: the channel's exception is caught
unfoldable pub fetch_critical_kv : Option Bytes → Option Bytes
unfolding critical_fetch
fetch_critical_kv fetched = elim (critical_fetch fetched) [ ok b ↦ some b | raise e ↦ none ]

abbrev wants_refinement : DeadlineConnectorMetadata → Bool
wants_refinement md = md.need_refinement && truthy md.refinement_object_id

-- how the thread of a refinement ends, as its log says
pub data Refinement : Type 0 where
  not_loaded : Refinement
  load_error : Error → Refinement

module _ {A : Type 0} where
  -- one round of the loop of `_decode_critical_kv`
  unfoldable pub decode_layer : WorkerConfig → Codec (List A) → Bytes → Result (List A)
  unfolding estimated_shape
  decode_layer c codec layer = do
    shape ← estimated_shape c codec.is_int8 layer
    codec.decode (record {
      codec_name = codec.name;
      content = layer;
      shape = some shape;
      dtype = if codec.is_int8 then "int8" else "float16";
    })

  -- the loop, with the rounds that are left and the index
  unfoldable pub decode_from :
      WorkerConfig → Codec (List A) → Bytes → ℕ → ℕ → ℕ → Result (List (List A))
  unfolding decode_layer layer_slice
  decode_from c codec bs n zero i = ok []
  decode_from c codec bs n (suc left) i = do
    layer ← decode_layer c codec (layer_slice bs n i)
    rest ← decode_from c codec bs n left (suc i)
    ok (layer ∷ rest)

  -- `_decode_critical_kv`, with the codec that `get_codec` found
  unfoldable pub decode_critical_kv :
      WorkerConfig → Result (Codec (List A)) → Bytes → ℕ → Result (List (List A))
  unfolding decode_from
  decode_critical_kv c codec bs num_layers = do
    k ← codec
    if nat_eqb num_layers 0
        then raise zero_division_error
        else decode_from c k bs num_layers num_layers 0

  unfoldable pub new_worker : Counters → WorkerSide A
  new_worker m = record {
    active_loads = [];
    loaded_kvs = [];
    load_futures = [];
    save_sessions = [];
    metrics = m;
  }

  -- `_schedule_refinement_load`, if it is asked for
  unfoldable pub schedule : DeadlineConnectorMetadata → WorkerSide A → WorkerSide A
  schedule md w =
      if wants_refinement md
      then record w { load_futures = insert md.request_id tt w.load_futures }
      else w

  -- `_load_refinement`, which the thread runs. It applies nothing, and where there are bytes it calls a
  -- method that the collector does not have, and catches that exception.
  unfoldable pub load_refinement : Option Bytes → WorkerSide A → Refinement × WorkerSide A
  unfolding refine_fetch
  load_refinement fetched w = elim (refine_fetch fetched) [
    | none ↦ (not_loaded, w)
    | some [] ↦ (not_loaded, w)
    | some (b ∷ bs) ↦ (load_error attribute_error, w)
  ]

  -- the handler of the exceptions of `start_load_kv`
  unfoldable pub load_failed :
      DeadlineConnectorMetadata → String → WorkerSide A → WorkerLoadResult × WorkerSide A
  unfolding create_load_result
  load_failed md message w = (
    create_load_result md.request_id false false false 0 0 0 0 0 0 "load_failed" message,
    record w { active_loads = remove md.request_id w.active_loads },
  )

  -- the end of the `try` block, once the layers are decoded
  unfoldable pub load_done :
      DeadlineConnectorMetadata
      → Bytes
      → List (List A)
      → ℕ
      → WorkerSide A
      → WorkerLoadResult × WorkerSide A
  unfolding schedule create_load_result
  load_done md bs kvs elapsed w = (
    create_load_result md.request_id true true false md.matched_tokens (length md.matched_blocks)
        (length bs) 0 elapsed 0 "" "",
    schedule md (record w { loaded_kvs = insert md.request_id kvs w.loaded_kvs }),
  )

  -- `start_load_kv`; `fetched` is what the client's `get_critical` returns
  unfoldable pub start_load_kv :
      WorkerConfig
      → (String → Result (Codec (List A)))
      → (Error → String)
      → ℕ
      → DeadlineConnectorMetadata
      → Option Bytes
      → WorkerSide A
      → WorkerLoadResult × WorkerSide A
  unfolding fetch_critical_kv load_failed load_done Metrics.record_critical_bytes
  start_load_kv c get_codec text elapsed md fetched w =
      let w1 = record w { active_loads = insert md.request_id md w.active_loads } in
      elim (fetch_critical_kv fetched) [
        | none ↦ load_failed md "Critical KV fetch failed" w1
        | some bs ↦
            let w2 = record w1 { metrics = Metrics.record_critical_bytes (length bs) w1.metrics } in
            elim (decode_critical_kv c (get_codec md.critical_codec) bs md.num_layers) [
              | raise e ↦ load_failed md (text e) w2
              | ok kvs ↦ load_done md bs kvs elapsed w2
            ]
      ]

  -- kvs[layer_idx], where a negative index counts from the end
  unfoldable pub layer_at : ℤ → List (List A) → Result (Option (List A))
  layer_at (pos i) kvs = ok (get_elem? kvs i)
  layer_at (negsuc i) kvs =
      if ltb i (length kvs) then ok (get_elem? kvs (length kvs - suc i)) else raise index_error

  -- layer_idx < len(kvs)
  abbrev pub has_layer : ℤ → List (List A) → Bool
  has_layer (pos i) kvs = ltb i (length kvs)
  has_layer (negsuc i) kvs = true

  -- the loop of `wait_for_layer_load`, over the requests in the order of their first load
  unfoldable pub find_layer : ℤ → Dict String (List (List A)) → Result (Option (List A))
  unfolding layer_at
  find_layer i [] = ok none
  find_layer i ((rid, kvs) ∷ d) =
      let rest = find_layer i d in if has_layer i kvs then layer_at i kvs else rest

  -- the search of `wait_for_layer_load` for an index, if the name has one
  unfoldable pub wait_for_index : Option ℤ → WorkerSide A → Result (Option (List A))
  unfolding find_layer
  wait_for_index none w = ok none
  wait_for_index (some i) w = find_layer i w.loaded_kvs

  -- `wait_for_layer_load`
  unfoldable pub wait_for_layer_load : Text → WorkerSide A → Result (Option (List A))
  unfolding wait_for_index extract_layer_idx
  wait_for_layer_load name w = wait_for_index (extract_layer_idx name) w

  -- the session of a request, or the default one
  unfoldable pub session_for : WorkerConfig → String → WorkerSide A → SaveSession (List A)
  unfolding new_session
  session_for c rid w = elim (find rid w.save_sessions) [
    | none ↦ new_session rid "temp_key" 0 [] c.num_layers
    | some s ↦ s
  ]

  -- `save_kv_layer`; the tensor operations are taken not to raise
  unfoldable pub save_kv_layer :
      WorkerConfig
      → (List A → List A)
      → Text
      → List A
      → Option (List ℤ)
      → String
      → WorkerSide A
      → WorkerSide A
  unfolding session_for add_layer extract_prefix_kv_from_layer
  save_kv_layer c host name kv slots rid w =
      let s = session_for c rid w in
      let prefix = extract_prefix_kv_from_layer kv slots s.matched_blocks s.matched_tokens in
      record w { save_sessions = insert rid (add_layer host name prefix s).1 w.save_sessions }

  -- what `request_finished` drops before it comes to the save session
  unfoldable pub without_loads : String → WorkerSide A → WorkerSide A
  without_loads rid w = record w {
    active_loads = remove rid w.active_loads;
    loaded_kvs = remove rid w.loaded_kvs;
    load_futures = remove rid w.load_futures;
  }

  -- `request_finished`. For a session that was not aborted it logs `session.num_layers_saved()`, and
  -- `SaveSession` has no such method: that raises, before the session is deleted.
  unfoldable pub request_finished : String → WorkerSide A → Result (Unit {0}) × WorkerSide A
  unfolding without_loads is_complete
  request_finished rid w =
      let w1 = without_loads rid w in
      elim (find rid w.save_sessions) [
        | none ↦ (ok tt, w1)
        | some s ↦
            if is_complete s && not s.aborted
            then (raise attribute_error, w1)
            else if s.aborted
            then (ok tt, record w1 { save_sessions = remove rid w1.save_sessions })
            else (raise attribute_error, w1)
      ]
