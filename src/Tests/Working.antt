-- ===== src/Tests/Working.antt =====
-- The worker's theorems with one layer slice per byte.
use awarekv.Prelude.{
  Option, length, ℕ, ◌<◌, ◌≡◌, refl, arith, String, string_eq, true, false, none, some, List, [],
  ◌∷◌, pos, Result, ok, Error,
}
use awarekv.Common.Types
use awarekv.Common.Types.{DeadlineConnectorMetadata, WorkerLoadResult}
use awarekv.Dict.{find}
use awarekv.Metrics.{no_counts}
use awarekv.Connector.LayerName.{extract_layer_name, extract_layer_idx, named_layer_idx}
use awarekv.Connector.LayerName.RoundTrip.{extract_layer_idx-extract_layer_name}
use awarekv.Connector.SaveSession.{int_eq}
use awarekv.Codec.{Codec}
use awarekv.Connector.Worker.{
  WorkerConfig, WorkerSide, decode_critical_kv, start_load_kv, wait_for_layer_load,
  request_finished,
}
use awarekv.Transport.Struct.{concat}
use awarekv.Connector.SaveSession.{SaveSession, new_session}
use awarekv.Connector.Worker.Decode.{IsEven, AllDecoded, decode_critical_kv-AllDecoded}
use awarekv.Tests.TestData.{text_ne}
use awarekv.Connector.Worker.Loads.{
  IsLoaded, IsFinished, start_load_kv-total, wait_for_layer_load-start_load_kv,
  request_finished-forgets,
}

abbrev pub worker_config : WorkerConfig
worker_config = record { block_size = 1; num_kv_heads = 1; head_size = 1; num_layers = 2 }

-- a codec that returns the bytes
abbrev plain : Codec (List ℕ)
plain = record {
  name = "plain";
  is_int8 = true;
  encode = λ t. ok (record { codec_name = "plain"; content = t; shape = none; dtype = "int8" });
  decode = λ blob. ok blob.content;
}

abbrev pub find_codec : String → Result (Codec (List ℕ))
find_codec name = ok plain

abbrev pub text : Error → String
text e = "error"

abbrev metadata : DeadlineConnectorMetadata
metadata = record {
  request_id = "r2";
  prefix_key = some "key";
  plan_mode = Types.PlanMode.critical_int8_only;
  matched_tokens = 2;
  matched_blocks = pos 0 ∷ [];
  num_layers = 2;
  critical_object_id = "obj";
  critical_codec = "plain";
  critical_nbytes = 5;
  refinement_object_id = none;
  refinement_codec = none;
  refinement_nbytes = none;
  need_refinement = false;
  load_deadline_ms = 50;
  allocated_block_ids = [];
  load_from_tier = Types.Tier.t2_remote;
}

abbrev pub five : List ℕ
five = 1 ∷ 2 ∷ 3 ∷ 4 ∷ 5 ∷ []

-- the layers of an earlier request are there
abbrev pub worker : WorkerSide ℕ
worker = record {
  active_loads = [];
  loaded_kvs = ("r1", (7 ∷ []) ∷ (8 ∷ []) ∷ []) ∷ [];
  load_futures = [];
  save_sessions = [];
  metrics = no_counts;
}

five_decoded :
    decode_critical_kv worker_config (ok plain) five 2 ≡ ok ((1 ∷ 2 ∷ []) ∷ (3 ∷ 4 ∷ 5 ∷ []) ∷ [])
unfolding decode_critical_kv
five_decoded = refl

decode_critical_kv-AllDecoded_example :
    (pieces : List (List ℕ)) × (0 < 2)
    × (length pieces ≡ 2)
    × (concat pieces ≡ five)
    × IsEven 2 pieces
    × AllDecoded worker_config plain pieces ((1 ∷ 2 ∷ []) ∷ (3 ∷ 4 ∷ 5 ∷ []) ∷ [])
decode_critical_kv-AllDecoded_example =
    decode_critical_kv-AllDecoded worker_config plain five 2 five_decoded

abbrev loaded : WorkerLoadResult × WorkerSide ℕ
loaded = start_load_kv worker_config find_codec text 3 metadata (some five) worker

start_load_kv-total_example :
    IsLoaded worker_config find_codec text 3 metadata five
      ((1 ∷ 2 ∷ []) ∷ (3 ∷ 4 ∷ 5 ∷ []) ∷ [])
      loaded
unfolding decode_critical_kv
start_load_kv-total_example =
    start_load_kv-total worker_config find_codec text 3 metadata (some five) worker

wait_for_layer_load-start_load_kv_example :
    wait_for_layer_load (extract_layer_name 1) loaded.1 ≡ ok (some (8 ∷ []))
wait_for_layer_load-start_load_kv_example =
    wait_for_layer_load-start_load_kv worker_config find_codec text 3 metadata (some five) worker
      "r1" ((7 ∷ []) ∷ (8 ∷ []) ∷ []) [] 1 refl (text_ne "r1" "r2" refl) (omega arith)

-- a session that was not aborted
abbrev open_session : SaveSession (List ℕ)
unfolding new_session
open_session = new_session "r1" "key" 2 [] 2

abbrev saving_worker : WorkerSide ℕ
saving_worker = record worker { save_sessions = ("r1", open_session) ∷ [] }

request_finished-forgets_example :
    (find "r1" (request_finished "r1" saving_worker).1.active_loads ≡ none)
    × (find "r1" (request_finished "r1" saving_worker).1.loaded_kvs ≡ none)
    × (find "r1" (request_finished "r1" saving_worker).1.load_futures ≡ none)
    × (◌≡◌ {A = Option (SaveSession (List ℕ))} none none)
    × IsFinished "r1" saving_worker (some open_session) (request_finished "r1" saving_worker)
unfolding find
request_finished-forgets_example = request_finished-forgets "r1" "r1" saving_worker

extract_layer_idx-extract_layer_name_example :
    (extract_layer_idx (extract_layer_name 27) ≡ some (pos 27))
    × (named_layer_idx (extract_layer_name 27) ≡ some (pos 27))
extract_layer_idx-extract_layer_name_example = extract_layer_idx-extract_layer_name 27
