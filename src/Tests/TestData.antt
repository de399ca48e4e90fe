-- ===== src/Tests/TestData.antt =====
-- The values that the tests share.
use awarekv.Prelude.{
  String, some, true, [], ◌∷◌, pos, false, ◌==◌, ==_iff, string_eq, ◌≡◌, ◌≢◌, arith,
}
use awarekv.Common.Types.{PrefixManifest}
use awarekv.Store.Models.{ManifestDict, ManifestPutRequest, ManifestQueryRequest}

-- a manifest of 64 tokens in two blocks, with a refinement, that lives 60 seconds
abbrev pub test_manifest : PrefixManifest
test_manifest = record {
  prefix_key = "key";
  model_id = "model";
  tokenizer_id = "tok";
  kv_layout_version = "v1";
  block_size = 32;
  cache_dtype = "float16";
  matched_tokens = 64;
  matched_blocks = pos 0 ∷ pos 1 ∷ [];
  num_layers = 2;
  created_at_ms = 1000;
  last_access_ms = 1000;
  ttl_s = 60;
  critical_codec = "int8";
  critical_nbytes = 4000;
  critical_object_id = "obj";
  refinement_codec = some "fp16";
  refinement_nbytes = some 8000;
  refinement_object_id = some "obj2";
  quality_mode = "balanced";
  checksum = "";
  object_format_version = "v1";
}

abbrev pub test_dict : ManifestDict
test_dict = record {
  prefix_key = "key";
  model_id = "model";
  tokenizer_id = "tok";
  kv_layout_version = "v1";
  block_size = 32;
  cache_dtype = "float16";
  matched_tokens = 64;
  matched_blocks = pos 0 ∷ pos 1 ∷ [];
  num_layers = 2;
  created_at_ms = 1000;
  last_access_ms = 1000;
  ttl_s = 60;
  critical_codec = "int8";
  critical_nbytes = 4000;
  critical_object_id = "obj";
  refinement_codec = some "fp16";
  refinement_nbytes = some 8000;
  refinement_object_id = some "obj2";
  quality_mode = "balanced";
  checksum = "";
}

abbrev pub test_put : ManifestPutRequest
test_put = record {
  prefix_key = "key";
  model_id = "model";
  tokenizer_id = "tok";
  kv_layout_version = "v1";
  block_size = 32;
  cache_dtype = "float16";
  matched_tokens = 64;
  matched_blocks = pos 0 ∷ pos 1 ∷ [];
  num_layers = 2;
  ttl_s = 60;
  critical_codec = "int8";
  critical_nbytes = 4000;
  critical_object_id = "obj";
  refinement_codec = some "fp16";
  refinement_nbytes = some 8000;
  refinement_object_id = some "obj2";
  quality_mode = "balanced";
  checksum = "";
}

abbrev pub test_query : ManifestQueryRequest
test_query = record { prefix_key = "key"; request_id = "r1"; need_refinement = true }

-- Two texts that are not the same.
pub text_ne : (a b : String) → (a == b) ≡ false → a ≢ b
text_ne a b h e = ground (arith, (==_iff a b).1 e)
