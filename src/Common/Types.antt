-- ===== src/Common/Types.antt =====
-- src/dakv/common/types.py and the constants of src/dakv/constants.py that its literals list.
-- Times that the program only fills with whole milliseconds are numbers.
use awarekv.Prelude.{ℕ, String, Bool, true, false, Option, none, List, [], ℤ, Eq, ◌↔◌, ◌≡◌, arith}

pub data PlanMode : Type 0 where
  full_fp16 critical_int8_only critical_int8_then_fp16 recompute : PlanMode

pub data Tier : Type 0 where
  t1_host t2_remote : Tier

pub data RequestStatus : Type 0 where
  init miss hit_planned critical_loading critical_ready : RequestStatus
  refining done failed recompute : RequestStatus

abbrev pub status_eqb : RequestStatus → RequestStatus → Bool
status_eqb init init = true
status_eqb miss miss = true
status_eqb hit_planned hit_planned = true
status_eqb critical_loading critical_loading = true
status_eqb critical_ready critical_ready = true
status_eqb refining refining = true
status_eqb done done = true
status_eqb failed failed = true
status_eqb RequestStatus.recompute RequestStatus.recompute = true
status_eqb _ _ = false

pub status_eqb_iff : (a b : RequestStatus) → (status_eqb a b ≡ true) ↔ (a ≡ b)
status_eqb_iff a b = ground arith

instance abbrev pub status_eq : Eq RequestStatus
status_eq = record { eqb = status_eqb; eqb_iff = status_eqb_iff }

pub record PrefixManifest : Type 0 where
  pub prefix_key : String
  pub model_id : String
  pub tokenizer_id : String
  pub kv_layout_version : String
  pub block_size : ℕ
  pub cache_dtype : String
  pub matched_tokens : ℕ
  pub matched_blocks : List ℤ
  pub num_layers : ℕ
  pub created_at_ms : ℕ
  pub last_access_ms : ℕ
  pub ttl_s : ℕ
  pub critical_codec : String
  pub critical_nbytes : ℕ
  pub critical_object_id : String
  pub refinement_codec : Option String
  pub refinement_nbytes : Option ℕ
  pub refinement_object_id : Option String
  pub quality_mode : String
  pub checksum : String
  pub object_format_version : String

pub record TransferPlan : Type 0 where
  pub plan_id : String
  pub matched_tokens : ℕ
  pub matched_blocks : List ℤ
  pub mode : PlanMode
  pub critical_deadline_ms : ℕ
  pub refine_budget_ms : ℕ
  pub load_from_tier : Tier
  pub allow_refine_drop : Bool
  pub reason_code : String
  pub estimated_critical_bytes : ℕ
  pub estimated_refine_bytes : ℕ

pub record DeadlineConnectorMetadata : Type 0 where
  pub request_id : String
  pub prefix_key : Option String
  pub plan_mode : PlanMode
  pub matched_tokens : ℕ
  pub matched_blocks : List ℤ
  pub num_layers : ℕ
  pub critical_object_id : String
  pub critical_codec : String
  pub critical_nbytes : ℕ
  pub refinement_object_id : Option String
  pub refinement_codec : Option String
  pub refinement_nbytes : Option ℕ
  pub need_refinement : Bool
  pub load_deadline_ms : ℕ
  pub allocated_block_ids : List ℤ
  pub load_from_tier : Tier

-- The last three fields are no fields of the dataclass: `StateManager` sets them as attributes.
pub record RequestTransferState : Type 0 where
  pub request_id : String
  pub prefix_key : Option String
  pub matched_tokens : ℕ
  pub matched_blocks : List ℤ
  pub plan : Option TransferPlan
  pub manifest : Option PrefixManifest
  pub status : RequestStatus
  pub last_error : Option String
  pub start_time_ms : ℕ
  pub critical_load_time_ms : ℕ
  pub refine_load_time_ms : ℕ
  pub allocated_block_ids : List ℤ
  pub critical_done : Bool
  pub refinement_done : Bool
  pub request_finished : Bool
  pub fallback_reason : Option String
  pub connector_metadata : Option DeadlineConnectorMetadata
  pub critical_load_done : Option Bool
  pub refinement_load_done : Option Bool

-- `RequestTransferState(request_id=…, status="INIT")`
unfoldable pub new_state : String → RequestTransferState
new_state rid = record {
  request_id = rid;
  prefix_key = none;
  matched_tokens = 0;
  matched_blocks = [];
  plan = none;
  manifest = none;
  status = init;
  last_error = none;
  start_time_ms = 0;
  critical_load_time_ms = 0;
  refine_load_time_ms = 0;
  allocated_block_ids = [];
  critical_done = false;
  refinement_done = false;
  request_finished = false;
  fallback_reason = none;
  connector_metadata = none;
  critical_load_done = none;
  refinement_load_done = none;
}

pub record WorkerLoadResult : Type 0 where
  pub request_id : String
  pub success : Bool
  pub loaded_tokens : ℕ
  pub loaded_blocks : ℕ
  pub critical_load_done : Bool
  pub refinement_load_done : Bool
  pub critical_bytes : ℕ
  pub refinement_bytes : ℕ
  pub critical_load_ms : ℕ
  pub refinement_load_ms : ℕ
  pub error_code : String
  pub error_message : String
