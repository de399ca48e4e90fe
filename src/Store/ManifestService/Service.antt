-- ===== src/Store/ManifestService/Service.antt =====
-- src/dakv/store/manifest_service.py, as its clients see it.
use awarekv.Prelude.{ℕ, ◌+◌, ◌*◌, ◌≤◌, true, some, string_eq, ◌≡◌, arith, ==_iff}
use awarekv.Dict.Laws.{find-insert, option_map}
use awarekv.Store.MemoryIndex.{MemoryIndex, touched}
use awarekv.Store.MemoryIndex.Expiry.{view}
use awarekv.Store.ManifestService.{manifest_to_dict, new_manifest, query_manifest, put_manifest}
use awarekv.Store.Models.{ManifestDict, ManifestQueryRequest, ManifestPutRequest}

-- A query hits exactly when the index holds a live manifest, and then its body is that manifest
-- with the access time of the query.
pub query_manifest-eq-view :
    (now later : ℕ) (req : ManifestQueryRequest) (ix : MemoryIndex)
    → (query_manifest now later req ix).0.manifest
      ≡ option_map (λ m. manifest_to_dict (touched later m)) (view now ix req.prefix_key)
unfolding query_manifest view
query_manifest-eq-view now later req ix = ground arith

-- what a client that put a manifest at a time reads later, field by field
abbrev pub answer_of : ℕ → ℕ → ManifestPutRequest → ManifestDict
answer_of t later put = record {
  prefix_key = put.prefix_key;
  model_id = put.model_id;
  tokenizer_id = put.tokenizer_id;
  kv_layout_version = put.kv_layout_version;
  block_size = put.block_size;
  cache_dtype = put.cache_dtype;
  matched_tokens = put.matched_tokens;
  matched_blocks = put.matched_blocks;
  num_layers = put.num_layers;
  created_at_ms = t;
  last_access_ms = later;
  ttl_s = put.ttl_s;
  critical_codec = put.critical_codec;
  critical_nbytes = put.critical_nbytes;
  critical_object_id = put.critical_object_id;
  refinement_codec = put.refinement_codec;
  refinement_nbytes = put.refinement_nbytes;
  refinement_object_id = put.refinement_object_id;
  quality_mode = put.quality_mode;
  checksum = put.checksum;
}

-- While its age is at most `ttl_s` seconds, a manifest that was put is returned by a query of its key:
-- every field that the client sent, the time of the put as the time of its creation, and the time of
-- the query as that of its last access.
pub query-put :
    (t now later : ℕ) (put : ManifestPutRequest) (query : ManifestQueryRequest) (ix : MemoryIndex)
    → query.prefix_key ≡ put.prefix_key
    → now ≤ t + put.ttl_s * 1000
    → ((query_manifest now later query (put_manifest t put ix).1).0.hit ≡ true)
      × ((query_manifest now later query (put_manifest t put ix).1).0.manifest
          ≡ some (answer_of t later put))
unfolding query_manifest put_manifest new_manifest manifest_to_dict
query-put t now later put query ix e h = ground (
  arith,
  find-insert put.prefix_key query.prefix_key (new_manifest t put) ix.index,
  ==_iff put.prefix_key query.prefix_key,
)
