-- ===== src/Common/Hashing.antt =====
-- src/dakv/common/hashing.py and src/dakv/common/checksum.py. SHA-256 over the JSON text, or over
-- the bytes, is a parameter.
use Prim.Native.String.{◌++◌}
use awarekv.Prelude.{ℕ, String, Bool, Option, none, some, List, [], take, ◌==◌, string_eq}

-- The dictionary that `compute_prefix_key` serialises with sorted keys.
pub record KeyData : Type 0 where
  pub model_id : String
  pub tokenizer_id : String
  pub kv_layout_version : String
  pub cache_dtype : String
  pub block_size : ℕ
  pub prompt_tokens : List ℕ
  pub mm_hashes : List String

-- mm_hashes or []
abbrev pub or_empty : Option (List String) → List String
or_empty none = []
or_empty (some hs) = hs

module _ (digest : KeyData → String) where
  -- `compute_prefix_key`
  unfoldable pub compute_prefix_key :
      (model_id tokenizer_id kv_layout_version cache_dtype : String) (block_size : ℕ)
      (prompt_token_ids : List ℕ) (matched_prefix_len : ℕ) (mm_hashes : Option (List String))
      → String
  compute_prefix_key model tok layout dtype bs prompt n mm = digest (record {
    model_id = model;
    tokenizer_id = tok;
    kv_layout_version = layout;
    cache_dtype = dtype;
    block_size = bs;
    prompt_tokens = take n prompt;
    mm_hashes = or_empty mm;
  })

  -- `verify_prefix_key_consistency`
  unfoldable pub verify_prefix_key_consistency :
      (prefix_key model_id tokenizer_id kv_layout_version cache_dtype : String) (block_size : ℕ)
      (prompt_token_ids : List ℕ) (matched_prefix_len : ℕ)
      → Bool
  unfolding compute_prefix_key
  verify_prefix_key_consistency key model tok layout dtype bs prompt n =
      compute_prefix_key model tok layout dtype bs prompt n none == key

-- `verify_checksum`, for the digest of bytes
unfoldable pub verify_checksum : (List ℕ → String) → List ℕ → String → Bool
verify_checksum sha256 data_bytes expected = sha256 data_bytes == expected

-- the text under which an object's digest is taken
abbrev pub object_text : (prefix_key tier codec object_format_version : String) → String
object_text key tier codec version = key ++ ":" ++ tier ++ ":" ++ codec ++ ":" ++ version

-- `compute_object_id`, with the version as the text that is formatted
unfoldable pub compute_object_id :
    (String → String) → (prefix_key tier codec object_format_version : String) → String
compute_object_id sha256_hex key tier codec version =
    sha256_hex (object_text key tier codec version)

-- `compute_layout_fingerprint`, over the digest of the two entries of its dictionary
unfoldable pub compute_layout_fingerprint :
    {C : Type 0} → (String → C → String) → String → C → String
compute_layout_fingerprint digest_layout kv_layout_version config =
    digest_layout kv_layout_version config
