-- ===== src/Tests/Configuring.antt =====
-- The theorems on the configuration, the codecs, the adapter and the waiting refinements.
use awarekv.Prelude.{
  ℕ, ◌≡◌, refl, String, string_eq, false, none, some, Option, List, [], ◌∷◌, pos, length, Result,
  ok, raise, value_error,
}
use awarekv.Dict.{Dict, find, contains, insert}
use awarekv.Transport.Struct.{Bytes}
use awarekv.Tests.Planning.{whole}
use awarekv.Config.Unknown.{IsUnknown, from_yaml-unknown}
use awarekv.Config.{
  Literals, Input, mapping, plain, section, value, Config, default_config, from_yaml, from_dict,
  read_property,
}
use awarekv.Config.Properties.{read_property-from_yaml}
use awarekv.Config.Agree.{from_dict-from_yaml}
use awarekv.Codec.{EncodedBlob}
use awarekv.Codec.Tensors.{Numeric, Tensor, scale_of, int8_encode, int8_decode}
use awarekv.Codec.Tensors.RoundTrip.{NumericLaws, int8_decode-int8_encode}
use awarekv.Connector.Adapter.{Request}
use awarekv.Connector.Adapter.Contexts.{SchedulerOutput, extract_allocated_blocks}
use awarekv.Connector.Adapter.Blocks.{IsOwn, extract_allocated_blocks-IsOwn}
use awarekv.Connector.RefineManager.{RefineManager, cleanup_stale}
use awarekv.Connector.RefineManager.Stale.{fresh, find-cleanup_stale}

abbrev literals : Literals String
literals = record { text = λ s. s; int = λ n. "number"; truth = λ b. "truth"; real = λ s. s }

-- a section, a field and an unknown key
abbrev items : Dict String (Input String)
items =
    ("manifest", mapping (("port", "9000") ∷ []))
    ∷ ("model_id", plain "other")
    ∷ ("unknown", plain "x")
    ∷ []

abbrev set_manifest : Config String
set_manifest =
    insert "manifest"
      (section (("host", "127.0.0.1") ∷ ("port", "9000") ∷ ("url", "http://127.0.0.1:8081") ∷ []))
      (default_config literals)

configured : from_yaml literals items ≡ ok (insert "model_id" (value (plain "other")) set_manifest)
unfolding from_yaml find contains insert
configured = refl

read_property-from_yaml_example :
    (v : String) × (read_property
        (insert "model_id" (value (plain "other")) set_manifest)
        "manifest_url"
      ≡ ok v)
unfolding contains
read_property-from_yaml_example =
    read_property-from_yaml literals items (insert "model_id" (value (plain "other")) set_manifest)
      "manifest_url" configured refl

from_dict-from_yaml_example : from_dict literals items ≡ from_yaml literals items
unfolding find
from_dict-from_yaml_example = from_dict-from_yaml literals items (tt, (tt, (tt, tt)))

abbrev unpack : Bytes → Result ℕ
unpack [] = raise value_error
unpack (a ∷ bs) = ok a

abbrev reshape_to : Option (List ℕ) → ℕ → Result (List ℕ)
reshape_to none n = raise value_error
reshape_to (some ds) n = ok ds

abbrev numeric : Numeric
numeric = record {
  Half = ℕ;
  Single = ℕ;
  half_bytes = λ h. (h, 0);
  half_of = λ a b. a;
  widen = λ h. h;
  narrow = λ s. s;
  abs_max = λ a rest. a;
  is_zero = λ a. false;
  one = 1;
  per_127 = λ a. a;
  quantise = λ x scale. x;
  dequantise = λ b scale. b;
  pack_single = λ s. s ∷ 0 ∷ 0 ∷ 0 ∷ [];
  unpack_single = unpack;
  reshape = reshape_to;
}

numeric_laws : NumericLaws numeric
numeric_laws = record {
  half-half_bytes = λ h. refl;
  pack_single-length = λ s. refl;
  unpack-pack_single = λ s. refl;
  reshape-product = λ ds. refl;
}

abbrev tensor : Tensor numeric
tensor = record { shape = 2 ∷ []; elements = 7 ∷ 8 ∷ [] }

scaled : scale_of numeric (7 ∷ 8 ∷ []) ≡ ok 7
unfolding scale_of
scaled = refl

int8_decode-int8_encode_example :
    (blob : EncodedBlob) × (int8_encode numeric tensor ≡ ok blob)
    × (length blob.content ≡ 6)
    × (int8_decode numeric blob ≡ ok tensor)
int8_decode-int8_encode_example = int8_decode-int8_encode numeric_laws tensor 7 scaled refl

abbrev request : Request
request = record {
  request_id = some "r1";
  id = none;
  object_id = "7";
  prompt_token_ids = none;
  inputs_prompt_token_ids = none;
  tokens = none;
}

abbrev output : SchedulerOutput
output = record {
  blocks = none;
  scheduled_seq_groups =
      some (record { seq_group = some request; block_table = some (pos 3 ∷ []) } ∷ []);
  seq_group_metadata_list = none;
}

extract_allocated_blocks-IsOwn_example : IsOwn output "r1" (extract_allocated_blocks output "r1")
extract_allocated_blocks-IsOwn_example = extract_allocated_blocks-IsOwn output "r1" refl

abbrev manager : RefineManager whole (List ℕ)
manager = record {
  pending_refinements =
      ("old", record { refined_kv = []; metadata = none; timestamp = 1 })
      ∷ ("new", record { refined_kv = []; metadata = none; timestamp = 90 })
      ∷ [];
}

find-cleanup_stale_example :
    find "old" (cleanup_stale 100 30 manager).pending_refinements
    ≡ fresh 100 30 (find "old" manager.pending_refinements)
unfolding find
find-cleanup_stale_example = find-cleanup_stale 100 30 "old" manager (refl, (refl, tt))

-- the attribute that the saver reads
version-IsUnknown : IsUnknown literals "object_format_version"
unfolding find contains
version-IsUnknown = (refl, refl, refl, refl)

from_yaml-unknown_example :
    find "object_format_version" (insert "model_id" (value (plain "other")) set_manifest) ≡ none
from_yaml-unknown_example =
    from_yaml-unknown literals "object_format_version" items
      (insert "model_id" (value (plain "other")) set_manifest) version-IsUnknown configured
