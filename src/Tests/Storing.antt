-- ===== src/Tests/Storing.antt =====
-- The theorems on the stores and the host cache at small contents.
use awarekv.Prelude.{ℕ, ◌≤◌, List, ◌≡◌, refl, arith, string_eq, true, none, some, [], ◌∷◌, pos}
use awarekv.Dict.{Distinct}
use awarekv.Dict.Laws.{option_map}
use awarekv.Store.MemoryIndex
use awarekv.Store.MemoryIndex.{MemoryIndex, touched, new_index}
use awarekv.Store.MemoryIndex.Expiry.{live}
use awarekv.Store.ManifestService.{manifest_to_dict, query_manifest, put_manifest}
use awarekv.Store.ManifestService.Service.{answer_of, query-put}
use awarekv.Store.MemoryIndex.Runs as IndexRuns
use awarekv.Store.MemoryIndex.Runs.{Call as IndexCall, IsOrdered, all_noted, get-run}
use awarekv.Store.ManifestService.Runs.{Request, serve, all_calls, query-serve}
use awarekv.Tier.HostCache.Runs as CacheRuns
use awarekv.Tier.HostCache.Runs.{run-within_budget}
use awarekv.Tier.HostCache.{Tensors, new_cache}
use awarekv.Tier.HostCache.Held.{held}
use awarekv.Connector.Paged.{extract_prefix_kv_from_layer, inject_prefix_kv_into_layer}
use awarekv.Connector.Paged.RoundTrip.{extract-inject}
use awarekv.Tests.TestData.{test_manifest, test_put, test_query}

abbrev one_manifest : MemoryIndex
one_manifest = record { index = ("key", test_manifest) ∷ [] }

query-put_example :
    ((query_manifest 61000 61001 test_query (put_manifest 1000 test_put one_manifest).1).0.hit
      ≡ true)
    × ((query_manifest 61000 61001 test_query
          (put_manifest 1000 test_put one_manifest).1).0.manifest
        ≡ some (answer_of 1000 61001 test_put))
query-put_example = query-put 1000 61000 61001 test_put test_query one_manifest refl (omega arith)

-- A tensor is its size.
abbrev sizes : Tensors
sizes = record {
  Tensor = ℕ;
  is_cuda = λ t. true;
  cpu = λ t. t;
  pin_memory = λ t. t;
  nbytes = λ t. t;
}

extract-inject_example :
    extract_prefix_kv_from_layer
      (inject_prefix_kv_into_layer
        (λ (r : ℕ). r)
        (0 ∷ 0 ∷ 0 ∷ [])
        (10 ∷ 20 ∷ [])
        (some (pos 2 ∷ pos 0 ∷ []))
        []).1
      (some (pos 2 ∷ pos 0 ∷ []))
      []
      2
    ≡ 10 ∷ 20 ∷ []
extract-inject_example =
    extract-inject (λ r. r) (0 ∷ 0 ∷ 0 ∷ []) (10 ∷ 20 ∷ []) 2 (0 ∷ []) [] [] 2
      (omega arith, (omega arith, tt)) (((λ e. omega arith), tt), (tt, tt)) refl (omega arith)

-- A manifest that lives for 60 seconds is put at second 1, read, and evicted with the expired ones.
abbrev index_calls : List (ℕ × IndexCall)
index_calls =
    (1000, IndexCall.puts test_manifest)
    ∷ (2000, IndexCall.touches "key")
    ∷ (3000, IndexCall.gets "key")
    ∷ (50000, IndexCall.evicts)
    ∷ []

index_calls-IsOrdered : IsOrdered 0 index_calls 60000
index_calls-IsOrdered = (omega arith, (omega arith, (omega arith, (omega arith, omega arith))))

get-run_example :
    (MemoryIndex.get 60000 "key" (IndexRuns.run index_calls new_index)).0
    ≡ live 60000 (all_noted index_calls (λ _. none) "key")
get-run_example = get-run index_calls 60000 "key" index_calls-IsOrdered

abbrev requests : List (ℕ × Request)
requests =
    (1000, Request.put_request test_put)
    ∷ (2000, Request.query_request 1 test_query)
    ∷ (3000, Request.touch_request "key")
    ∷ []

query-serve_example :
    (query_manifest 4000 4001 test_query (serve requests new_index)).0.manifest
    ≡ option_map
        (λ m. manifest_to_dict (touched 4001 m))
        (live 4000 (all_noted (all_calls requests) (λ _. none) "key"))
query-serve_example =
    query-serve requests 4000 4001 test_query
      (omega arith, (omega arith, (omega arith, (omega arith, omega arith))))

-- 8 and 5 bytes do not fit 10: the first tensor is evicted
abbrev cache_calls : List (CacheRuns.Call sizes)
cache_calls =
    CacheRuns.Call.puts "a" 8
    ∷ CacheRuns.Call.gets "a"
    ∷ CacheRuns.Call.puts "b" 5
    ∷ CacheRuns.Call.deletes "c"
    ∷ []

run-within_budget_example :
    let c = CacheRuns.run sizes cache_calls (new_cache sizes 10) in
    (held sizes c.cache ≤ 10) × (c.current_bytes ≡ held sizes c.cache) × Distinct c.cache
run-within_budget_example = run-within_budget sizes cache_calls 10
