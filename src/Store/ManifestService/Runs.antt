-- ===== src/Store/ManifestService/Runs.antt =====
-- src/dakv/store/manifest_service.py over any requests, one after the other, as the event loop runs the
-- handlers.
use awarekv.Prelude.{
  ℕ, ◌+◌, String, none, List, [], ◌∷◌, ◌++◌, string_eq, ◌≡◌, refl, ap, ◌∙◌, sym, arith,
}
use awarekv.Dict.{remove}
use awarekv.Dict.Laws.{find-remove_self, contains-find, option_map}
use awarekv.Store.Models.{ManifestQueryRequest, ManifestPutRequest}
use awarekv.Store.MemoryIndex
use awarekv.Store.MemoryIndex.{MemoryIndex, new_index, touched}
use awarekv.Store.MemoryIndex.Expiry.{live, view, get-eq-view}
use awarekv.Store.MemoryIndex.Runs.{Call, run, after, all_noted, IsOrdered, get-run}
use awarekv.Store.ManifestService.{
  manifest_to_dict, new_manifest, query_manifest, put_manifest, touch_manifest, delete_manifest,
}
use awarekv.Store.ManifestService.Service.{query_manifest-eq-view}

-- A query reads the clock twice; `lag` is the time between the two.
pub data Request : Type 0 where
  query_request : (lag : ℕ) → ManifestQueryRequest → Request
  put_request : ManifestPutRequest → Request
  touch_request delete_request : String → Request

-- the index that a handler leaves
unfoldable pub handled : ℕ → Request → MemoryIndex → MemoryIndex
handled now (query_request lag req) ix = (query_manifest now (now + lag) req ix).1
handled now (put_request req) ix = (put_manifest now req ix).1
handled now (touch_request key) ix = (touch_manifest now key ix).1
handled now (delete_request key) ix = (delete_manifest key ix).1

unfoldable pub serve : List (ℕ × Request) → MemoryIndex → MemoryIndex
unfolding handled
serve [] ix = ix
serve ((now, req) ∷ reqs) ix = serve reqs (handled now req ix)

-- the calls of the index that a handler makes
abbrev pub calls_of : ℕ → Request → List (ℕ × Call)
calls_of now (query_request lag req) =
    (now, Call.gets req.prefix_key) ∷ (now + lag, Call.touches req.prefix_key) ∷ []
calls_of now (put_request req) = (now, Call.puts (new_manifest now req)) ∷ []
calls_of now (touch_request key) = (now, Call.touches key) ∷ []
calls_of now (delete_request key) = (now, Call.deletes key) ∷ []

abbrev pub all_calls : List (ℕ × Request) → List (ℕ × Call)
all_calls [] = []
all_calls ((now, req) ∷ reqs) = calls_of now req ++ all_calls reqs

run-append : (xs ys : List (ℕ × Call)) (ix : MemoryIndex) → run (xs ++ ys) ix ≡ run ys (run xs ix)
unfolding run
run-append [] ys ix = refl
run-append ((now, call) ∷ xs) ys ix = run-append xs ys (after now call ix)

-- A query that misses touches nothing, as there is nothing left under the key.
handled-run :
    (now : ℕ) (req : Request) (ix : MemoryIndex) → handled now req ix ≡ run (calls_of now req) ix
unfolding handled run after query_manifest put_manifest touch_manifest delete_manifest
    MemoryIndex.get MemoryIndex.touch
handled-run now (query_request lag req) ix = ground (
  arith,
  contains-find req.prefix_key ix.index,
  contains-find req.prefix_key (remove req.prefix_key ix.index),
  find-remove_self req.prefix_key ix.index,
)
handled-run now (put_request req) ix = refl
handled-run now (touch_request key) ix = refl
handled-run now (delete_request key) ix = refl

serve-run : (reqs : List (ℕ × Request)) (ix : MemoryIndex) → serve reqs ix ≡ run (all_calls reqs) ix
unfolding serve run
serve-run [] ix = refl
serve-run ((now, req) ∷ reqs) ix =
    serve-run reqs (handled now req ix)
    ∙ ap (run (all_calls reqs)) (handled-run now req ix)
    ∙ sym (run-append (calls_of now req) (all_calls reqs) ix)

-- What a query returns after any requests to a new service, while the clock does not go back: the
-- manifest that a store that forgets nothing has for the key, as a dictionary with the access time of
-- the query, if it has not expired by then, and otherwise nothing.
pub query-serve :
    (reqs : List (ℕ × Request)) (now later : ℕ) (req : ManifestQueryRequest)
    → IsOrdered 0 (all_calls reqs) now
    → (query_manifest now later req (serve reqs new_index)).0.manifest
      ≡ option_map
          (λ m. manifest_to_dict (touched later m))
          (live now (all_noted (all_calls reqs) (λ _. none) req.prefix_key))
query-serve reqs now later req h =
    query_manifest-eq-view now later req (serve reqs new_index)
    ∙ ap (option_map (λ m. manifest_to_dict (touched later m))) (
        ap (λ ix. view now ix req.prefix_key) (serve-run reqs new_index)
        ∙ sym (get-eq-view now req.prefix_key req.prefix_key (run (all_calls reqs) new_index)).0
        ∙ get-run (all_calls reqs) now req.prefix_key h)
