-- ===== src/Tests/Saving.antt =====
-- The theorems on the saver and the loader, with one layer of two elements.
use awarekv.Prelude.{
  ℕ, suc, ◌≡◌, ◌≢◌, refl, String, string_eq, Bool, true, false, none, some, List, [], ◌∷◌, pos, ℤ,
  negsuc, length, Result, ok, raise, value_error,
}
use awarekv.Common.Types
use awarekv.Common.Types.{DeadlineConnectorMetadata, PlanMode}
use awarekv.Dict.{Dict, find, insert, remove}
use awarekv.Codec.{EncodedBlob, Codec, get_codec}
use awarekv.Transport.Struct.{Bytes}
use awarekv.Tier.Rows.{write_rows}
use awarekv.Connector.Object.{ObjectHeader}
use awarekv.Connector.Object.{parse_and_decode_object, decode_legacy_format}
use awarekv.Connector.Object.Legacy.{parse_and_decode_object-legacy}
use awarekv.Connector.Publish.{SaverConfig, Network, answered}
use awarekv.Connector.Saver.{save_prefix_kv}
use awarekv.Connector.Saver.Refused.{save_prefix_kv-refused}
use awarekv.Connector.Loader.{
  Pending, start_refinement_load, apply_refinement_to_layer, apply_refinement_if_ready,
}
use awarekv.Connector.Loader.Refinement.{
  apply_refinement_to_layer-write_rows, apply_refinement_if_ready-once,
}

-- a codec that takes tensors of two elements only
abbrev encode_pair : List ℕ → Result EncodedBlob
encode_pair (a ∷ b ∷ []) =
    ok (record {
      codec_name = "pair";
      content = a ∷ b ∷ [];
      shape = some (2 ∷ []);
      dtype = "float16";
    })
encode_pair _ = raise value_error

abbrev pair : Codec (List ℕ)
pair = record {
  name = "pair";
  is_int8 = false;
  encode = encode_pair;
  decode = λ blob. ok blob.content;
}

abbrev registry : Dict String (Codec (List ℕ))
registry = ("pair", pair) ∷ []

abbrev config : SaverConfig
config = record {
  critical_codec = "pair";
  refinement_codec = "pair";
  enable_refinement = false;
  model_id = "model";
  kv_layout_version = "v1";
  block_size = 16;
  cache_dtype = "float16";
  tokenizer_id = none;
  object_format_version = some 1;
}

abbrev digest : String → String
digest s = "digest"

abbrev show : ℕ → String
show n = "1"

-- a network that counts the calls and accepts all
abbrev network : Network ℕ
network = record {
  put_critical = λ oid object codec s. (true, suc s);
  put_refinement = λ oid object codec s. (true, suc s);
  post = λ p s. (answered 200, suc s);
}

abbrev tensors : List (List ℕ)
tensors = (7 ∷ 8 ∷ []) ∷ []

-- the bytes of the layer, behind no header
abbrev encoded : Bytes
encoded = 7 ∷ 8 ∷ []

abbrev metadata : DeadlineConnectorMetadata
metadata = record {
  request_id = "r1";
  prefix_key = some "key";
  plan_mode = Types.full_fp16;
  matched_tokens = 16;
  matched_blocks = [];
  num_layers = 1;
  critical_object_id = "digest";
  critical_codec = "pair";
  critical_nbytes = 130;
  refinement_object_id = some "digest";
  refinement_codec = some "pair";
  refinement_nbytes = some 130;
  need_refinement = true;
  load_deadline_ms = 100;
  allocated_block_ids = pos 0 ∷ [];
  load_from_tier = Types.t2_remote;
}

save_prefix_kv-refused_example :
    ((save_prefix_kv digest show network registry config "key" tensors 32 2 "r1" 0).1 ≡ 0)
    × ((save_prefix_kv digest show network registry config "key" tensors 32 2 "r1" 0).0 ≢ ok true)
save_prefix_kv-refused_example =
    save_prefix_kv-refused digest show network registry config "key" tensors 32 2 "r1" 0

parse_and_decode_object-legacy_example :
    parse_and_decode_object (ok pair) encoded 1 ≡ decode_legacy_format pair encoded 1
parse_and_decode_object-legacy_example = parse_and_decode_object-legacy pair encoded 1

apply_refinement_to_layer-write_rows_example :
    apply_refinement_to_layer {A = ℕ} (7 ∷ 8 ∷ []) (1 ∷ 2 ∷ 3 ∷ []) (pos 2 ∷ negsuc 0 ∷ pos 0 ∷ [])
    ≡ write_rows (pos 2 ∷ negsuc 0 ∷ pos 0 ∷ []) (7 ∷ 8 ∷ []) (1 ∷ 2 ∷ 3 ∷ [])
apply_refinement_to_layer-write_rows_example =
    apply_refinement_to_layer-write_rows (7 ∷ 8 ∷ []) (1 ∷ 2 ∷ 3 ∷ [])
      (pos 2 ∷ negsuc 0 ∷ pos 0 ∷ [])

abbrev none_left : Pending ℕ
none_left = []

abbrev waiting : Pending ℕ
waiting = ("r1", record { tensors = tensors; header = none; metadata = metadata }) ∷ []

applied :
    apply_refinement_if_ready "r1" ((1 ∷ 2 ∷ 3 ∷ []) ∷ []) (pos 2 ∷ []) waiting
    ≡ (true, (1 ∷ 2 ∷ 7 ∷ []) ∷ [], [])
unfolding apply_refinement_if_ready find remove
applied = refl

apply_refinement_if_ready-once_example :
    ((ls : List (List ℕ)) (bs : List ℤ) → apply_refinement_if_ready "r1" ls bs [] ≡ (false, ls, []))
    × ((other : String) → other ≢ "r1" → find other none_left ≡ find other waiting)
    × (length {A = List ℕ} ((1 ∷ 2 ∷ 7 ∷ []) ∷ []) ≡ length {A = List ℕ} ((1 ∷ 2 ∷ 3 ∷ []) ∷ []))
apply_refinement_if_ready-once_example =
    apply_refinement_if_ready-once "r1" ((1 ∷ 2 ∷ 3 ∷ []) ∷ []) (pos 2 ∷ []) waiting
      ((1 ∷ 2 ∷ 7 ∷ []) ∷ []) [] applied

abbrev always : PlanMode → Bool
always mode = true

refined : start_refinement_load always registry metadata (some encoded) [] ≡ (true, waiting)
unfolding start_refinement_load get_codec find insert
refined = refl

abbrev header : ObjectHeader
header = record {
  object_format_version = 1;
  num_layers = 32;
  matched_tokens = 4096;
  matched_blocks = 256;
  block_size = 16;
}
