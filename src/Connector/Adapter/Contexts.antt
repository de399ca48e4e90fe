-- ===== src/Connector/Adapter/Contexts.antt =====
-- The rest of src/dakv/connector/vllm_adapter.py: configurations, forward contexts and the blocks of
-- the scheduler's output. The parsing of a layer's name is a parameter.
use awarekv.Prelude.{
  ℕ, ◌+◌, ◌-◌, ◌/◌, String, Bool, true, false, Option, none, some, List, [], ◌∷◌, ℤ, pos, negsuc,
  if◌then◌else◌, ◌==◌, string_eq, nat_eqb, ltb, length, get_elem?, Result, ok, raise,
  zero_division_error, index_error,
}
use awarekv.Dict.{Dict, find}
use awarekv.Connector.Adapter.{Request, attr_or, extract_request_id}

-- what the functions read of vLLM's configuration and of its parts
pub record VllmConfig : Type 0 where
  pub model : Option String
  pub model_config_model : Option String
  pub block_size : Option ℕ
  pub cache_config_block_size : Option ℕ

pub record ModelConfig : Type 0 where
  pub num_hidden_layers : Option ℕ
  pub num_layers : Option ℕ
  pub num_key_value_heads : Option ℕ
  pub num_kv_heads : Option ℕ
  pub num_attention_heads : Option ℕ
  pub head_size : Option ℕ
  pub head_dim : Option ℕ
  pub hidden_size : Option ℕ

unfoldable pub extract_model_id : VllmConfig → String
extract_model_id c = attr_or c.model (attr_or c.model_config_model "unknown_model")

unfoldable pub get_block_size_from_config : VllmConfig → ℕ
get_block_size_from_config c = attr_or c.block_size (attr_or c.cache_config_block_size 16)

unfoldable pub extract_num_layers : ModelConfig → ℕ
extract_num_layers c = attr_or c.num_hidden_layers (attr_or c.num_layers 32)

unfoldable pub extract_num_kv_heads : ModelConfig → ℕ
extract_num_kv_heads c =
    attr_or c.num_key_value_heads (attr_or c.num_kv_heads (attr_or c.num_attention_heads 32))

-- the third choice of `extract_head_size`; no head at all divides by zero
unfoldable pub head_size_from : Option ℕ → Option ℕ → Result ℕ
head_size_from (some hidden) (some heads) =
    if nat_eqb heads 0 then raise zero_division_error else ok (hidden / heads)
head_size_from _ _ = ok 128

unfoldable pub extract_head_size : ModelConfig → Result ℕ
unfolding head_size_from
extract_head_size c = elim c.head_size [
  | some n ↦ ok n
  | none ↦ elim c.head_dim [
    | some n ↦ ok n
    | none ↦ head_size_from c.hidden_size c.num_attention_heads
  ]
]

-- A group of the scheduler's output; the identity is that of the object `seq_group`.
pub record SeqGroup : Type 0 where
  pub seq_group : Option Request
  pub block_table : Option (List ℤ)

-- `block_tables` with the values of the dictionary only
pub record SeqGroupMetadata : Type 0 where
  pub request_id : Option String
  pub block_tables : Option (List (List ℤ))
  pub block_table : Option (List ℤ)

pub record SchedulerOutput : Type 0 where
  pub blocks : Option (List ℤ)
  pub scheduled_seq_groups : Option (List SeqGroup)
  pub seq_group_metadata_list : Option (List SeqGroupMetadata)

-- the request is the one that is asked for
abbrev pub group_is : String → SeqGroup → Bool
group_is rid g = elim g.seq_group [ none ↦ false | some r ↦ extract_request_id r == rid ]

abbrev pub metadata_is : String → SeqGroupMetadata → Bool
metadata_is rid m = elim m.request_id [ none ↦ false | some i ↦ i == rid ]

-- the value that the first round of a loop over them returns
abbrev pub first : List (List ℤ) → Option (List ℤ)
first [] = none
first (t ∷ ts) = some t

-- the table that a group of the metadata has
abbrev pub metadata_table : SeqGroupMetadata → Option (List ℤ)
metadata_table m = elim m.block_tables [ none ↦ m.block_table | some ts ↦ first ts ]

-- the loop over `scheduled_seq_groups`
unfoldable pub find_in_groups : String → List SeqGroup → Option (List ℤ)
unfolding extract_request_id
find_in_groups rid [] = none
find_in_groups rid (g ∷ gs) =
    let rest = find_in_groups rid gs in
    if group_is rid g then elim g.block_table [ none ↦ rest | some t ↦ some t ] else rest

-- the loop over `seq_group_metadata_list`
unfoldable pub find_in_metadata : String → List SeqGroupMetadata → Option (List ℤ)
find_in_metadata rid [] = none
find_in_metadata rid (m ∷ ms) =
    let rest = find_in_metadata rid ms in
    if metadata_is rid m then elim (metadata_table m) [ none ↦ rest | some t ↦ some t ] else rest

unfoldable pub extract_allocated_blocks : SchedulerOutput → String → List ℤ
unfolding find_in_groups find_in_metadata
extract_allocated_blocks o rid = elim o.blocks [
  | some bs ↦ bs
  | none ↦ elim (find_in_groups rid (attr_or o.scheduled_seq_groups [])) [
    | some t ↦ t
    | none ↦ attr_or (find_in_metadata rid (attr_or o.seq_group_metadata_list [])) []
  ]
]

-- The metadata of attention, where it is not `None`; `prefill_metadata` may be there and `None`.
pub record AttentionMetadata (S : Type 0) : Type 0 where
  pub slot_mapping : Option S
  pub is_prompt : Option Bool
  pub prefill_metadata : Option (Option (Unit {0}))

pub data KvCaches (L : Type 0) : Type 0 where
  sequence : List L → KvCaches L
  by_name : Dict String L → KvCaches L
  other : KvCaches L

-- An attribute of attention may be there and `None`.
pub record ForwardContext (S L : Type 0) : Type 0 where
  pub slot_mapping : Option S
  pub attn_metadata : Option (Option (AttentionMetadata S))
  pub attention_metadata : Option (Option (AttentionMetadata S))
  pub no_compile_layers : Option (Dict String L)
  pub kv_caches : Option (KvCaches L)
  pub is_prefill : Option Bool

-- xs[i], with a negative index counted from the end
abbrev pub index_from_end {ℓ} : {A : Type ℓ} → List A → ℤ → Option A
index_from_end xs (pos n) = get_elem? xs n
index_from_end xs (negsuc n) =
    if ltb n (length xs) then get_elem? xs (length xs - (n + 1)) else none

unfoldable pub extract_attention_metadata :
    {S L : Type 0} → ForwardContext S L → Option (AttentionMetadata S)
extract_attention_metadata c = attr_or c.attn_metadata (attr_or c.attention_metadata none)

abbrev pub mapping_of : {S : Type 0} → Option (AttentionMetadata S) → Option S
mapping_of none = none
mapping_of (some m) = m.slot_mapping

unfoldable pub extract_slot_mapping : {S L : Type 0} → ForwardContext S L → Option S
extract_slot_mapping c = elim c.slot_mapping [
  | some s ↦ some s
  | none ↦ mapping_of (attr_or c.attn_metadata none)
]

-- `layer_idx < len(caches)` holds of every negative index
unfoldable pub layer_of_caches : {L : Type 0} → (String → Option ℤ) → String → KvCaches L → Option L
layer_of_caches parse_index name (sequence ls) = elim (parse_index name) [
  | none ↦ none
  | some i ↦ index_from_end ls i
]
layer_of_caches parse_index name (by_name d) = find name d
layer_of_caches parse_index name other = none

-- the second test of `extract_layer_kv_cache`
abbrev pub cached_layer :
    {L : Type 0} → (String → Option ℤ) → String → Option (KvCaches L) → Option L
cached_layer parse_index name none = none
cached_layer parse_index name (some caches) = layer_of_caches parse_index name caches

unfoldable pub extract_layer_kv_cache :
    {S L : Type 0} → (String → Option ℤ) → ForwardContext S L → String → Option L
unfolding layer_of_caches
extract_layer_kv_cache parse_index c name = elim c.no_compile_layers [
  | none ↦ cached_layer parse_index name c.kv_caches
  | some d ↦ elim (find name d) [
    | some l ↦ some l
    | none ↦ cached_layer parse_index name c.kv_caches
  ]
]

-- `extract_kv_cache_layer`, of an object that is a list or a tuple
unfoldable pub extract_kv_cache_layer : {L : Type 0} → List L → ℤ → Result (Option L)
extract_kv_cache_layer ls (pos n) = ok (get_elem? ls n)
extract_kv_cache_layer ls (negsuc n) =
    if ltb n (length ls) then ok (get_elem? ls (length ls - (n + 1))) else raise index_error

abbrev pub in_prefill : {S : Type 0} → Option (AttentionMetadata S) → Bool
in_prefill none = false
in_prefill (some m) = elim m.is_prompt [
  | some b ↦ b
  | none ↦ elim m.prefill_metadata [ none ↦ false | some none ↦ false | some (some x) ↦ true ]
]

unfoldable pub is_store_request : {S L : Type 0} → ForwardContext S L → Bool
unfolding extract_attention_metadata
is_store_request c = elim c.is_prefill [
  | some b ↦ b
  | none ↦ in_prefill (extract_attention_metadata c)
]

-- what `extract_num_computed_tokens` reads of a request
pub record RequestCounts : Type 0 where
  pub num_computed_tokens : Option ℕ
  pub computed_tokens : Option ℕ

unfoldable pub extract_num_computed_tokens : RequestCounts → ℕ
extract_num_computed_tokens r = attr_or r.num_computed_tokens (attr_or r.computed_tokens 0)
