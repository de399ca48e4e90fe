-- ===== src/Connector/RefineManager.antt =====
-- `RefineManager` of src/dakv/connector/refine_manager.py: refinements that wait, with the time at which
-- they came. Each method runs under the lock, so that it is one step. Floats are a parameter.
pub mod Stale
use awarekv.Prelude.{
  String, Bool, true, false, Option, none, some, List, [], ◌∷◌, if◌then◌else◌, string_eq,
}
use awarekv.Common.Types.{DeadlineConnectorMetadata}
use awarekv.Dict.{Dict, find, contains, insert, remove, keys}
use awarekv.Planner.Floats.{Floats}

module _ (f : Floats) (T : Type 0) where
  pub record Refinement : Type 0 where
    pub refined_kv : T
    pub metadata : Option DeadlineConnectorMetadata
    pub timestamp : f.F

  pub record RefineManager : Type 0 where
    pub pending_refinements : Dict String Refinement

module _ {f : Floats} {T : Type 0} where
  abbrev pub new_manager : RefineManager f T
  new_manager = record { pending_refinements = [] }

  -- the first argument is the current time
  unfoldable pub add_pending :
      f.F → String → T → Option DeadlineConnectorMetadata → RefineManager f T → RefineManager f T
  add_pending now rid kv md m = record m {
    pending_refinements =
        insert rid (record { refined_kv = kv; metadata = md; timestamp = now })
          m.pending_refinements;
  }

  unfoldable pub get_pending :
      String → RefineManager f T → Option (Refinement f T) × RefineManager f T
  get_pending rid m = (
    find rid m.pending_refinements,
    record m { pending_refinements = remove rid m.pending_refinements },
  )

  unfoldable pub has_pending : String → RefineManager f T → Bool
  has_pending rid m = contains rid m.pending_refinements

  unfoldable pub clear_pending : String → RefineManager f T → RefineManager f T
  clear_pending rid m =
      if contains rid m.pending_refinements
      then record m { pending_refinements = remove rid m.pending_refinements }
      else m

  unfoldable pub clear_all : RefineManager f T → RefineManager f T
  clear_all m = record m { pending_refinements = [] }

  unfoldable pub get_all_pending_requests : RefineManager f T → List String
  get_all_pending_requests m = keys m.pending_refinements

  -- current_time - timestamp > max_age_seconds
  abbrev pub is_stale : f.F → f.F → Refinement f T → Bool
  is_stale now max_age r = f.lt max_age (f.sub now r.timestamp)

  -- the first loop of `cleanup_stale`
  unfoldable pub stale_requests : f.F → f.F → Dict String (Refinement f T) → List String
  stale_requests now max_age [] = []
  stale_requests now max_age ((rid, r) ∷ d) =
      let rest = stale_requests now max_age d in if is_stale now max_age r then rid ∷ rest else rest

  -- the second loop, whose keys are all present
  unfoldable pub delete_all :
      List String → Dict String (Refinement f T) → Dict String (Refinement f T)
  delete_all [] d = d
  delete_all (rid ∷ rids) d = delete_all rids (remove rid d)

  unfoldable pub cleanup_stale : f.F → f.F → RefineManager f T → RefineManager f T
  unfolding stale_requests delete_all
  cleanup_stale now max_age m =
      let stale = stale_requests now max_age m.pending_refinements in
      record m { pending_refinements = delete_all stale m.pending_refinements }
