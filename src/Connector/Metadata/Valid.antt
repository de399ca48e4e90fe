-- ===== src/Connector/Metadata/Valid.antt =====
-- Building and validation of src/dakv/connector/metadata.py.
use awarekv.Prelude.{
  ◌<◌, true, false, Option, none, some, List, ℤ, ◌≡◌, ◌↔◌, ◌==◌, string_eq, arith, truthy, ◌&&◌,
}
use awarekv.Common.Types.{PrefixManifest, RequestTransferState, DeadlineConnectorMetadata}
use awarekv.Dict.Laws.{is_some}
use awarekv.Connector.Metadata.{mode_refines, build_metadata_from_state, validate_metadata}

-- Metadata is built exactly when the state holds both a manifest and a plan.
pub build_metadata_from_state_iff :
    (st : RequestTransferState) (allocated : Option (List ℤ))
    → (build_metadata_from_state st allocated ≡ none)
      ↔ ((is_some st.manifest && is_some st.plan) ≡ false)
unfolding build_metadata_from_state
build_metadata_from_state_iff st allocated = (ground arith, ground arith)

-- A manifest whose texts are filled in, and which matches at least one token.
pub record IsUsable (m : PrefixManifest) : Type 0 where
  pub key : (m.prefix_key == "") ≡ false
  pub tokens : 0 < m.matched_tokens
  pub critical : (m.critical_object_id == "") ≡ false
  pub refinement : is_some m.refinement_object_id ≡ true → truthy m.refinement_object_id ≡ true

-- What is built for a named request from a usable manifest passes the validation, and asks for a
-- refinement only with the object to fetch and under a plan that refines.
pub validate-build :
    (st : RequestTransferState) (allocated : Option (List ℤ)) (m : PrefixManifest)
    {md : DeadlineConnectorMetadata}
    → st.manifest ≡ some m
    → IsUsable m
    → (st.request_id == "") ≡ false
    → build_metadata_from_state st allocated ≡ some md
    → (validate_metadata md ≡ (true, ""))
      × (is_some md.refinement_object_id ≡ md.need_refinement)
      × (md.need_refinement ≡ true → mode_refines md.plan_mode ≡ true)
unfolding build_metadata_from_state validate_metadata
validate-build st allocated m e usable named built = ground (arith, usable.refinement)
