-- ===== src/Connector/Loader.antt =====
-- `RemoteKVLoader` of src/dakv/connector/loader.py. A tensor is the list of its rows. The codecs and the answers of the data client are parameters, and so is the test of
-- the plan's mode: the class `TransferMode`, which it names, is defined nowhere.
-- The rows of a refinement have the shape of the cache's, so that copying one does not raise.
pub mod Refinement
pub mod Critical
use awarekv.Prelude.{
  ℕ, zero, suc, String, Bool, true, false, not, ◌&&◌, ◌||◌, Option, none, some, List, [], ◌∷◌, ℤ,
  pos, negsuc, if◌then◌else◌, nat_eqb, ltb, length, get_elem?, set, truthy, ◌==◌, string_eq, Result,
  ok, raise, ◌>>=◌, type_error, value_error,
}
use awarekv.Common.Types.{DeadlineConnectorMetadata, PlanMode}
use awarekv.Dict.{Dict, find, contains, insert, remove}
use awarekv.Transport.Struct.{Bytes}
use awarekv.Transport.Channels.{critical_fetch, refine_fetch}
use awarekv.Codec.{Codec, get_codec}
use awarekv.Connector.Object.{ObjectHeader, parse_and_decode_object}

-- what a refinement that waits for its request is kept with
pub record PendingRefinement (A : Type 0) : Type 0 where
  pub tensors : List (List A)
  pub header : Option ObjectHeader
  pub metadata : DeadlineConnectorMetadata

-- the answer of `start_critical_load`
pub record CriticalLoad (A : Type 0) : Type 0 where
  pub success : Bool
  pub layers : Option (List (List A))
  pub loaded_tokens : ℕ

abbrev pub Pending : Type 0 → Type 0
Pending A = Dict String (PendingRefinement A)

-- header.matched_tokens if header else metadata.matched_tokens
abbrev pub tokens_of : Option ObjectHeader → DeadlineConnectorMetadata → ℕ
tokens_of none md = md.matched_tokens
tokens_of (some h) md = h.matched_tokens

module _ {A : Type 0} where
  abbrev pub not_loaded : CriticalLoad A
  not_loaded = record { success = false; layers = none; loaded_tokens = 0 }

  -- the `try` block of `start_critical_load`
  unfoldable pub decode_critical :
      Dict String (Codec (List A)) → DeadlineConnectorMetadata → Bytes → CriticalLoad A
  unfolding get_codec parse_and_decode_object
  decode_critical registry md b =
      elim (parse_and_decode_object (get_codec registry md.critical_codec) b md.num_layers) [
        | raise e ↦ not_loaded
        | ok (h, ts) ↦ record { success = true; layers = some ts; loaded_tokens = tokens_of h md }
      ]

  -- `start_critical_load`, over the answer of the client; the channel's exception is not caught
  unfoldable pub start_critical_load :
      Dict String (Codec (List A))
      → DeadlineConnectorMetadata
      → Option Bytes
      → Result (CriticalLoad A)
  unfolding decode_critical critical_fetch
  start_critical_load registry md answer =
      if md.critical_object_id == ""
      then ok not_loaded
      else do b ← critical_fetch answer; ok (decode_critical registry md b)

  -- `get_codec` for the name of the metadata, which may be `None`
  abbrev pub refinement_codec_of :
      Dict String (Codec (List A)) → DeadlineConnectorMetadata → Result (Codec (List A))
  refinement_codec_of registry md = elim md.refinement_codec [
    | none ↦ raise value_error
    | some name ↦ get_codec registry name
  ]

  -- the fetch and the `try` block of `start_refinement_load`
  unfoldable pub load_refinement :
      Dict String (Codec (List A))
      → DeadlineConnectorMetadata
      → Option Bytes
      → Pending A
      → Bool × Pending A
  unfolding get_codec parse_and_decode_object refine_fetch
  load_refinement registry md answer pending = elim (refine_fetch answer) [
    | none ↦ (false, pending)
    | some b ↦ elim (parse_and_decode_object (refinement_codec_of registry md) b md.num_layers) [
      | raise e ↦ (false, pending)
      | ok (h, ts) ↦
          (true, insert md.request_id (record { tensors = ts; header = h; metadata = md }) pending)
    ]
  ]

  -- `start_refinement_load`
  unfoldable pub start_refinement_load :
      (PlanMode → Bool)
      → Dict String (Codec (List A))
      → DeadlineConnectorMetadata
      → Option Bytes
      → Pending A
      → Bool × Pending A
  unfolding load_refinement
  start_refinement_load refining registry md answer pending =
      if not md.need_refinement || not (truthy md.refinement_object_id)
      then (false, pending)
      else if not (refining md.plan_mode)
      then (false, pending)
      else load_refinement registry md answer pending

  -- one round of the loop of `_apply_refinement_to_layer`: the index and the block
  unfoldable pub apply_block : List A → ℕ → ℤ → List A → List A
  apply_block refined i (negsuc n) layer = layer
  apply_block refined i (pos n) layer =
      if ltb n (length layer)
      then elim (get_elem? refined i) [ none ↦ layer | some row ↦ set layer n row ]
      else layer

  -- the rounds from the index `i` on
  unfoldable pub apply_blocks : List A → ℕ → List ℤ → List A → List A
  unfolding apply_block
  apply_blocks refined i [] layer = layer
  apply_blocks refined i (b ∷ bs) layer =
      apply_blocks refined (suc i) bs (apply_block refined i b layer)

  -- `_apply_refinement_to_layer`
  unfoldable pub apply_refinement_to_layer : List A → List A → List ℤ → List A
  unfolding apply_blocks
  apply_refinement_to_layer refined layer blocks = apply_blocks refined 0 blocks layer

  -- the loop of `apply_refinement_if_ready` over the pairs of layers
  unfoldable pub apply_layers : List ℤ → List (List A) → List (List A) → List (List A)
  unfolding apply_refinement_to_layer
  apply_layers blocks [] layers = layers
  apply_layers blocks (r ∷ rs) [] = []
  apply_layers blocks (r ∷ rs) (l ∷ ls) =
      apply_refinement_to_layer r l blocks ∷ apply_layers blocks rs ls

  -- `apply_refinement_if_ready`: the answer, the layers of the cache and what is pending
  unfoldable pub apply_refinement_if_ready :
      String → List (List A) → List ℤ → Pending A → Bool × List (List A) × Pending A
  unfolding apply_layers
  apply_refinement_if_ready rid layers blocks pending = elim (find rid pending) [
    | none ↦ (false, layers, pending)
    | some p ↦
        if not (nat_eqb (length p.tensors) (length layers))
        then (false, layers, pending)
        else (true, apply_layers blocks p.tensors layers, remove rid pending)
  ]

  unfoldable pub has_pending_refinement : String → Pending A → Bool
  has_pending_refinement rid pending = contains rid pending

  unfoldable pub clear_pending_refinement : String → Pending A → Pending A
  clear_pending_refinement rid pending =
      if contains rid pending then remove rid pending else pending
