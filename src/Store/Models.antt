-- ===== src/Store/Models.antt =====
-- src/dakv/store/manifest_models.py: the bodies of the manifest service's requests and responses.
use awarekv.Prelude.{ℕ, String, Bool, Option, List, ℤ}

-- The dictionary that `ManifestService._manifest_to_dict` fills.
pub record ManifestDict : Type 0 where
  pub prefix_key : String
  pub model_id : String
  pub tokenizer_id : String
  pub kv_layout_version : String
  pub block_size : ℕ
  pub cache_dtype : String
  pub matched_tokens : ℕ
  pub matched_blocks : List ℤ
  pub num_layers : ℕ
  pub created_at_ms : ℕ
  pub last_access_ms : ℕ
  pub ttl_s : ℕ
  pub critical_codec : String
  pub critical_nbytes : ℕ
  pub critical_object_id : String
  pub refinement_codec : Option String
  pub refinement_nbytes : Option ℕ
  pub refinement_object_id : Option String
  pub quality_mode : String
  pub checksum : String

pub record ManifestQueryRequest : Type 0 where
  pub prefix_key : String
  pub request_id : String
  pub need_refinement : Bool

pub record ManifestQueryResponse : Type 0 where
  pub hit : Bool
  pub manifest : Option ManifestDict
  pub tier : Option String

pub record ManifestPutRequest : Type 0 where
  pub prefix_key : String
  pub model_id : String
  pub tokenizer_id : String
  pub kv_layout_version : String
  pub block_size : ℕ
  pub cache_dtype : String
  pub matched_tokens : ℕ
  pub matched_blocks : List ℤ
  pub num_layers : ℕ
  pub ttl_s : ℕ
  pub critical_codec : String
  pub critical_nbytes : ℕ
  pub critical_object_id : String
  pub refinement_codec : Option String
  pub refinement_nbytes : Option ℕ
  pub refinement_object_id : Option String
  pub quality_mode : String
  pub checksum : String

pub record ManifestPutResponse : Type 0 where
  pub success : Bool
  pub message : String

pub record ManifestStatsResponse : Type 0 where
  pub total_manifests : ℕ
  pub total_objects : ℕ
  pub total_bytes : ℕ
