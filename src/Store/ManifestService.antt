-- ===== src/Store/ManifestService.antt =====
-- src/dakv/store/manifest_service.py: the handlers that `_setup_routes` installs, as functions of
-- the index. The handlers are coroutines without an `await`, so each runs as one step. `now` and
-- `later` are readings of the clock.
pub mod Service
pub mod Runs
use awarekv.Prelude.{
  ℕ, ◌+◌, ◌*◌, String, Bool, true, false, Option, none, some, List, [], ◌∷◌, length,
}
use awarekv.Common.Types.{PrefixManifest}
use awarekv.Store.MemoryIndex
use awarekv.Store.MemoryIndex.{MemoryIndex, touched}
use awarekv.Store.Models.{
  ManifestDict, ManifestQueryRequest, ManifestQueryResponse, ManifestPutRequest,
  ManifestPutResponse, ManifestStatsResponse,
}

-- `_manifest_to_dict`
unfoldable pub manifest_to_dict : PrefixManifest → ManifestDict
manifest_to_dict m = record {
  prefix_key = m.prefix_key;
  model_id = m.model_id;
  tokenizer_id = m.tokenizer_id;
  kv_layout_version = m.kv_layout_version;
  block_size = m.block_size;
  cache_dtype = m.cache_dtype;
  matched_tokens = m.matched_tokens;
  matched_blocks = m.matched_blocks;
  num_layers = m.num_layers;
  created_at_ms = m.created_at_ms;
  last_access_ms = m.last_access_ms;
  ttl_s = m.ttl_s;
  critical_codec = m.critical_codec;
  critical_nbytes = m.critical_nbytes;
  critical_object_id = m.critical_object_id;
  refinement_codec = m.refinement_codec;
  refinement_nbytes = m.refinement_nbytes;
  refinement_object_id = m.refinement_object_id;
  quality_mode = m.quality_mode;
  checksum = m.checksum;
}

-- `get` returns the stored object itself, so the handler sees what `touch` writes to it.
unfoldable pub query_manifest :
    ℕ → ℕ → ManifestQueryRequest → MemoryIndex → ManifestQueryResponse × MemoryIndex
unfolding MemoryIndex.get MemoryIndex.touch manifest_to_dict
query_manifest now later req ix =
    let (found, ix') = MemoryIndex.get now req.prefix_key ix in
    elim found [
      | none ↦ (record { hit = false; manifest = none; tier = none }, ix')
      | some m ↦
          let (_, ix'') = MemoryIndex.touch later req.prefix_key ix' in
          (
            record {
              hit = true;
              manifest = some (manifest_to_dict (touched later m));
              tier = some "T2";
            },
            ix'',
          )
    ]

-- the manifest that `put_manifest` builds
unfoldable pub new_manifest : ℕ → ManifestPutRequest → PrefixManifest
new_manifest now req = record {
  prefix_key = req.prefix_key;
  model_id = req.model_id;
  tokenizer_id = req.tokenizer_id;
  kv_layout_version = req.kv_layout_version;
  block_size = req.block_size;
  cache_dtype = req.cache_dtype;
  matched_tokens = req.matched_tokens;
  matched_blocks = req.matched_blocks;
  num_layers = req.num_layers;
  created_at_ms = now;
  last_access_ms = now;
  ttl_s = req.ttl_s;
  critical_codec = req.critical_codec;
  critical_nbytes = req.critical_nbytes;
  critical_object_id = req.critical_object_id;
  refinement_codec = req.refinement_codec;
  refinement_nbytes = req.refinement_nbytes;
  refinement_object_id = req.refinement_object_id;
  quality_mode = req.quality_mode;
  checksum = req.checksum;
  object_format_version = "v1";
}

unfoldable pub put_manifest :
    ℕ → ManifestPutRequest → MemoryIndex → ManifestPutResponse × MemoryIndex
unfolding new_manifest MemoryIndex.put
put_manifest now req ix = (
  record { success = true; message = "Manifest saved" },
  MemoryIndex.put (new_manifest now req) ix,
)

unfoldable pub touch_manifest : ℕ → String → MemoryIndex → Bool × MemoryIndex
unfolding MemoryIndex.touch
touch_manifest now key ix = MemoryIndex.touch now key ix

unfoldable pub delete_manifest : String → MemoryIndex → Bool × MemoryIndex
unfolding MemoryIndex.delete
delete_manifest key ix = MemoryIndex.delete key ix

-- m.critical_nbytes + (m.refinement_nbytes or 0), summed
unfoldable pub sum_bytes : List PrefixManifest → ℕ
sum_bytes [] = 0
sum_bytes (m ∷ ms) =
    m.critical_nbytes + elim m.refinement_nbytes [ none ↦ 0 | some n ↦ n ] + sum_bytes ms

unfoldable pub get_stats : MemoryIndex → ManifestStatsResponse
unfolding MemoryIndex.list_all sum_bytes
get_stats ix = record {
  total_manifests = length (MemoryIndex.list_all ix);
  total_objects = length (MemoryIndex.list_all ix) * 2;
  total_bytes = sum_bytes (MemoryIndex.list_all ix);
}
