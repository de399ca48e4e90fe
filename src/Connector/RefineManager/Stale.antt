-- ===== src/Connector/RefineManager/Stale.antt =====
-- What src/dakv/connector/refine_manager.py hands out and what its cleaning removes.
use awarekv.Prelude.{
  String, false, Option, none, some, List, [], ◌∷◌, if◌then◌else◌, string_eq, ==_iff, ◌≡◌, refl,
  ◌∙◌, arith,
}
use awarekv.Common.Types.{DeadlineConnectorMetadata}
use awarekv.Dict.{Dict, find, remove, Distinct}
use awarekv.Dict.Laws.{find-insert_self, find-remove_self, find-remove}
use awarekv.Planner.Floats.{Floats}
use awarekv.Common.Calls.{listed}
use awarekv.Connector.RefineManager.{
  Refinement, RefineManager, add_pending, get_pending, is_stale, stale_requests, delete_all,
  cleanup_stale,
}

module _ {f : Floats} {T : Type 0} where
  -- A refinement that was added is handed out once: a second call finds nothing.
  pub get_pending-add_pending :
      (now : f.F) (rid : String) (kv : T) (md : Option DeadlineConnectorMetadata)
      (m : RefineManager f T)
      → let first = get_pending rid (add_pending now rid kv md m) in
        (first.0 ≡ some (record { refined_kv = kv; metadata = md; timestamp = now }))
        × ((get_pending rid first.1).0 ≡ none)
  unfolding get_pending add_pending
  get_pending-add_pending now rid kv md m =
      (find-insert_self rid _ m.pending_refinements, find-remove_self rid _)

  -- the entry, unless it is too old
  abbrev pub fresh : f.F → f.F → Option (Refinement f T) → Option (Refinement f T)
  fresh now max_age none = none
  fresh now max_age (some r) = if is_stale now max_age r then none else some r

  find-delete_all :
      (rids : List String) (rid : String) (d : Dict String (Refinement f T))
      → find rid (delete_all rids d) ≡ (if listed rid rids then none else find rid d)
  unfolding delete_all listed
  find-delete_all [] rid d = refl
  find-delete_all (r ∷ rids) rid d =
      ground (arith, find-delete_all rids rid (remove r d), find-remove r rid d)

  listed-absent :
      (now max_age : f.F) (rid : String) (d : Dict String (Refinement f T))
      → find rid d ≡ none
      → listed rid (stale_requests now max_age d) ≡ false
  unfolding stale_requests listed find
  listed-absent now max_age rid [] h = refl
  listed-absent now max_age rid ((j, r) ∷ d) h = ground (arith, listed-absent now max_age rid d)

  listed-stale :
      (now max_age : f.F) (rid : String) (d : Dict String (Refinement f T))
      → Distinct d
      → (if listed rid (stale_requests now max_age d) then none else find rid d)
        ≡ fresh now max_age (find rid d)
  unfolding stale_requests listed find
  listed-stale now max_age rid [] h = refl
  listed-stale now max_age rid ((j, r) ∷ d) h = ground (
    arith,
    listed-stale now max_age rid d h.1,
    listed-absent now max_age rid d,
    ==_iff j rid,
    h.0,
  )

  -- In a table in which no request stands twice, the cleaning removes the requests that are older
  -- than the limit and no other.
  pub find-cleanup_stale :
      (now max_age : f.F) (rid : String) (m : RefineManager f T)
      → Distinct m.pending_refinements
      → find rid (cleanup_stale now max_age m).pending_refinements
        ≡ fresh now max_age (find rid m.pending_refinements)
  unfolding cleanup_stale
  find-cleanup_stale now max_age rid m h =
      find-delete_all (stale_requests now max_age m.pending_refinements) rid m.pending_refinements
      ∙ listed-stale now max_age rid m.pending_refinements h
