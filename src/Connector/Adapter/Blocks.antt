-- ===== src/Connector/Adapter/Blocks.antt =====
-- Whose blocks `extract_allocated_blocks` of src/dakv/connector/vllm_adapter.py gives.
use awarekv.Prelude.{
  String, true, Bool-cases, none, some, Option-cases, inl, inr, ◌⊎◌, List, [], ◌∷◌, ℤ, ◌≡◌, subst,
  arith,
}
use awarekv.Connector.Adapter.{attr_or}
use awarekv.Connector.Adapter.Contexts.{
  SeqGroup, SeqGroupMetadata, SchedulerOutput, group_is, metadata_is, metadata_table,
  find_in_groups, find_in_metadata, extract_allocated_blocks,
}

-- The table is that of one of the groups, which belongs to the request.
abbrev pub InGroups : String → List ℤ → List SeqGroup → Type 0
InGroups rid t [] = ⊥
InGroups rid t (g ∷ gs) = ((group_is rid g ≡ true) × (g.block_table ≡ some t)) ⊎ InGroups rid t gs

abbrev pub InMetadata : String → List ℤ → List SeqGroupMetadata → Type 0
InMetadata rid t [] = ⊥
InMetadata rid t (m ∷ ms) =
    ((metadata_is rid m ≡ true) × (metadata_table m ≡ some t)) ⊎ InMetadata rid t ms

find_in_groups-InGroups :
    (rid : String) (gs : List SeqGroup) (t : List ℤ)
    → find_in_groups rid gs ≡ some t
    → InGroups rid t gs
unfolding find_in_groups
find_in_groups-InGroups rid [] t e = absurd (ground arith)
find_in_groups-InGroups rid (g ∷ gs) t e = elim (Bool-cases (group_is rid g)) [
  | inr f ↦ inr (find_in_groups-InGroups rid gs t (ground arith))
  | inl f ↦ elim (Option-cases g.block_table) [
    | inl h ↦ inr (find_in_groups-InGroups rid gs t (ground arith))
    | inr (u, h) ↦ inl (f, ground arith)
  ]
]

find_in_metadata-InMetadata :
    (rid : String) (ms : List SeqGroupMetadata) (t : List ℤ)
    → find_in_metadata rid ms ≡ some t
    → InMetadata rid t ms
unfolding find_in_metadata
find_in_metadata-InMetadata rid [] t e = absurd (ground arith)
find_in_metadata-InMetadata rid (m ∷ ms) t e = elim (Bool-cases (metadata_is rid m)) [
  | inr f ↦ inr (find_in_metadata-InMetadata rid ms t (ground arith))
  | inl f ↦ elim (Option-cases (metadata_table m)) [
    | inl h ↦ inr (find_in_metadata-InMetadata rid ms t (ground arith))
    | inr (u, h) ↦ inl (f, ground arith)
  ]
]

-- No blocks, or those of a group that belongs to the request.
abbrev pub IsOwn : SchedulerOutput → String → List ℤ → Type 0
IsOwn o rid t =
    (t ≡ [])
    ⊎ (InGroups rid t (attr_or o.scheduled_seq_groups [])
        ⊎ InMetadata rid t (attr_or o.seq_group_metadata_list []))

from_groups :
    (o : SchedulerOutput) (rid : String) (t : List ℤ)
    → o.blocks ≡ none
    → find_in_groups rid (attr_or o.scheduled_seq_groups []) ≡ some t
    → t ≡ extract_allocated_blocks o rid
unfolding extract_allocated_blocks
from_groups o rid t n e = ground arith

from_metadata :
    (o : SchedulerOutput) (rid : String) (t : List ℤ)
    → o.blocks ≡ none
    → find_in_groups rid (attr_or o.scheduled_seq_groups []) ≡ none
    → find_in_metadata rid (attr_or o.seq_group_metadata_list []) ≡ some t
    → t ≡ extract_allocated_blocks o rid
unfolding extract_allocated_blocks
from_metadata o rid t n e f = ground arith

-- Where the output has no blocks of its own, the blocks that are given are those of a group that
-- belongs to the request, or there are none: never another request's.
pub extract_allocated_blocks-IsOwn :
    (o : SchedulerOutput) (rid : String)
    → o.blocks ≡ none
    → IsOwn o rid (extract_allocated_blocks o rid)
unfolding extract_allocated_blocks
extract_allocated_blocks-IsOwn o rid n =
    elim (Option-cases (find_in_groups rid (attr_or o.scheduled_seq_groups []))) [
      | inr (t, e) ↦
          subst (IsOwn o rid) (from_groups o rid t n e)
            (inr (inl (find_in_groups-InGroups rid (attr_or o.scheduled_seq_groups []) t e)))
      | inl e ↦ elim (Option-cases (find_in_metadata rid (attr_or o.seq_group_metadata_list []))) [
        | inr (t, f) ↦
            subst (IsOwn o rid) (from_metadata o rid t n e f) (
              inr
                (inr (find_in_metadata-InMetadata rid (attr_or o.seq_group_metadata_list []) t f)))
        | inl f ↦ inl (ground arith)
      ]
    ]
