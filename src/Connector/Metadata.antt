-- ===== src/Connector/Metadata.antt =====
-- src/dakv/connector/metadata.py: the load instructions that the scheduler hands to the worker.
pub mod Valid
use awarekv.Prelude.{
  ℕ, suc, String, Bool, true, false, not, ◌&&◌, Option, none, some, List, [], ◌∷◌, ℤ, if◌then◌else◌,
  ◌==◌, string_eq, nat_eqb, truthy, Result, raise, type_error, ◌≡◌, refl,
}
use awarekv.Common.Calls.{Signature, call, accepts, save_result_signature}
use awarekv.Dict.Laws.{is_some}
use awarekv.Common.Types.{
  PrefixManifest, TransferPlan, PlanMode, DeadlineConnectorMetadata, RequestTransferState,
  WorkerLoadResult, full_fp16, critical_int8_then_fp16,
}

-- plan.mode in ["CRITICAL_INT8_THEN_FP16", "FULL_FP16"]
abbrev pub mode_refines : PlanMode → Bool
mode_refines critical_int8_then_fp16 = true
mode_refines full_fp16 = true
mode_refines _ = false

-- `prefix_key or other`
abbrev or_key : Option String → String → Option String
or_key key other = if truthy key then key else some other

-- `allocated or other`
abbrev or_blocks : Option (List ℤ) → List ℤ → List ℤ
or_blocks none other = other
or_blocks (some []) other = other
or_blocks (some (b ∷ bs)) other = b ∷ bs

abbrev only_if {ℓ} : {A : Type ℓ} → Bool → Option A → Option A
only_if b x = if b then x else none

unfoldable pub needs_refinement : TransferPlan → PrefixManifest → Bool
needs_refinement p m = mode_refines p.mode && is_some m.refinement_object_id

-- the construction, once the state is known to hold a manifest and a plan
unfoldable pub metadata_of :
    RequestTransferState
    → PrefixManifest
    → TransferPlan
    → Option (List ℤ)
    → DeadlineConnectorMetadata
unfolding needs_refinement
metadata_of st m p allocated =
    let need = needs_refinement p m in
    record {
      request_id = st.request_id;
      prefix_key = or_key st.prefix_key m.prefix_key;
      plan_mode = p.mode;
      matched_tokens = m.matched_tokens;
      matched_blocks = m.matched_blocks;
      num_layers = m.num_layers;
      critical_object_id = m.critical_object_id;
      critical_codec = m.critical_codec;
      critical_nbytes = m.critical_nbytes;
      refinement_object_id = only_if need m.refinement_object_id;
      refinement_codec = only_if need m.refinement_codec;
      refinement_nbytes = only_if need m.refinement_nbytes;
      need_refinement = need;
      load_deadline_ms = p.critical_deadline_ms;
      allocated_block_ids = or_blocks allocated st.allocated_block_ids;
      load_from_tier = p.load_from_tier;
    }

unfoldable pub build_metadata_from_state :
    RequestTransferState → Option (List ℤ) → Option DeadlineConnectorMetadata
unfolding metadata_of
build_metadata_from_state st allocated = elim st.manifest [
  | none ↦ none
  | some m ↦ elim st.plan [ none ↦ none | some p ↦ some (metadata_of st m p allocated) ]
]

-- The optional arguments of the source are all written out.
unfoldable pub create_load_result :
    (request_id : String) (success critical_done refinement_done : Bool)
    (loaded_tokens loaded_blocks critical_bytes refinement_bytes critical_load_ms : ℕ)
    (refinement_load_ms : ℕ) (error_code error_message : String)
    → WorkerLoadResult
create_load_result rid s cd rd lt lb cb rb cms rms code msg = record {
  request_id = rid;
  success = s;
  loaded_tokens = lt;
  loaded_blocks = lb;
  critical_load_done = cd;
  refinement_load_done = rd;
  critical_bytes = cb;
  refinement_bytes = rb;
  critical_load_ms = cms;
  refinement_load_ms = rms;
  error_code = code;
  error_message = msg;
}

unfoldable pub validate_metadata : DeadlineConnectorMetadata → Bool × String
validate_metadata md =
    if md.request_id == ""
    then (false, "request_id is required")
    else if not (truthy md.prefix_key)
    then (false, "prefix_key is required")
    else if nat_eqb md.matched_tokens 0
    then (false, "matched_tokens must be positive")
    else if md.critical_object_id == ""
    then (false, "critical_object_id is required")
    else if md.need_refinement && not (truthy md.refinement_object_id)
    then (false, "refinement_object_id required when need_refinement=True")
    else (true, "")

-- the names in the call of `WorkerSaveResult`
abbrev pub save_result_names : List String
save_result_names =
    "request_id" ∷ "success" ∷ "saved_tokens" ∷ "saved_blocks" ∷ "critical_bytes"
    ∷ "refinement_bytes" ∷ "save_ms" ∷ "manifest_updated" ∷ "error_code" ∷ "error_message" ∷ []

-- `create_save_result`, over the signature of the class and the result that the call would give
unfoldable pub create_save_result {ℓ} : {A : Type ℓ} → Signature → A → Result A
unfolding call
create_save_result sig a = call sig save_result_names a

-- As the class `WorkerSaveResult` stands, `create_save_result` raises whatever its arguments are.
pub create_save_result-raises :
    {A : Type 0} (a : A) → create_save_result save_result_signature a ≡ raise type_error
unfolding create_save_result call accepts
create_save_result-raises a = refl
