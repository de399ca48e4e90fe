-- ===== src/Connector/Adapter.antt =====
-- src/dakv/connector/vllm_adapter.py: what the connector reads from vLLM's objects. An attribute
-- that the object may lack is an `Option`.
pub mod Contexts
pub mod Blocks
use awarekv.Prelude.{ℕ, String, Bool, Option, none, some, List, [], ◌||◌, ◌==◌, string_eq}

pub record Request : Type 0 where
  pub request_id : Option String
  pub id : Option String
  -- `str(id(request))`
  pub object_id : String
  pub prompt_token_ids : Option (List ℕ)
  -- `request.inputs.prompt_token_ids`
  pub inputs_prompt_token_ids : Option (List ℕ)
  pub tokens : Option (List ℕ)

abbrev pub attr_or {ℓ} : {A : Type ℓ} → Option A → A → A
attr_or none d = d
attr_or (some a) d = a

unfoldable pub extract_request_id : Request → String
extract_request_id r = attr_or r.request_id (attr_or r.id r.object_id)

unfoldable pub extract_prompt_tokens : Request → List ℕ
extract_prompt_tokens r =
    attr_or r.prompt_token_ids (attr_or r.inputs_prompt_token_ids (attr_or r.tokens []))

unfoldable pub validate_connector_role : String → Bool
validate_connector_role role = role == "kv_producer" || (role == "kv_consumer" || role == "kv_both")
