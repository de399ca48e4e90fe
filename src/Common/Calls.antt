-- ===== src/Common/Calls.antt =====
-- Calls with keyword arguments, as Python checks them: a name that is no parameter, or a parameter that
-- is left out and has no default, raises `TypeError`.
use awarekv.Prelude.{
  String, Bool, true, false, ◌&&◌, List, [], ◌∷◌, ◌==◌, string_eq, if◌then◌else◌, Option, none,
  some, Result, ok, raise, type_error, attribute_error,
}

pub record Signature : Type 0 where
  pub parameters : List String
  pub required : List String

unfoldable pub listed : String → List String → Bool
listed x [] = false
listed x (y ∷ ys) = let rest = listed x ys in if y == x then true else rest

unfoldable pub all_listed : List String → List String → Bool
unfolding listed
all_listed [] names = true
all_listed (x ∷ xs) names = let rest = all_listed xs names in if listed x names then rest else false

unfoldable pub accepts : Signature → List String → Bool
unfolding all_listed
accepts s names = all_listed names s.parameters && all_listed s.required names

-- the value, if the call with these names is accepted
unfoldable pub call {ℓ} : {A : Type ℓ} → Signature → List String → A → Result A
unfolding accepts
call s names a = if accepts s names then ok a else raise type_error

-- an attribute that an object may lack
abbrev pub attribute {ℓ} : {A : Type ℓ} → Option A → Result A
attribute none = raise attribute_error
attribute (some a) = ok a

-- the parameters of `ObjectHeader` of src/dakv/common/types.py
abbrev pub object_header_signature : Signature
object_header_signature = record {
  parameters =
      "format_version" ∷ "num_layers" ∷ "block_size" ∷ "cache_dtype" ∷ "codec_name" ∷ "total_bytes"
      ∷ "layer_offsets" ∷ "layer_shapes" ∷ "checksum" ∷ [];
  required =
      "format_version" ∷ "num_layers" ∷ "block_size" ∷ "cache_dtype" ∷ "codec_name" ∷ "total_bytes"
      ∷ "layer_offsets" ∷ "layer_shapes" ∷ [];
}

-- those of `compute_object_id` of src/dakv/common/hashing.py
abbrev pub object_id_signature : Signature
object_id_signature = record {
  parameters = "prefix_key" ∷ "tier" ∷ "codec" ∷ "object_format_version" ∷ [];
  required = "prefix_key" ∷ "tier" ∷ "codec" ∷ [];
}

-- those of `WorkerSaveResult` of src/dakv/common/types.py
abbrev pub save_result_signature : Signature
save_result_signature = record {
  parameters =
      "request_id" ∷ "success" ∷ "saved_tokens" ∷ "saved_blocks" ∷ "critical_bytes"
      ∷ "refinement_bytes" ∷ "error_code" ∷ "error_message" ∷ "save_time_ms" ∷ [];
  required = "request_id" ∷ "success" ∷ [];
}
