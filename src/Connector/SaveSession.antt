-- ===== src/Connector/SaveSession.antt =====
-- `SaveSession` of src/dakv/connector/save_session.py: the layers of one request that are gathered
-- for saving. Tensors are a parameter.
pub mod Layers
use awarekv.Prelude.{
  ℕ, zero, suc, String, Bool, true, false, ◌||◌, Option, none, some, List, [], ◌∷◌, ℤ, pos, negsuc,
  if◌then◌else◌, leb, length, Eq, ◌↔◌, ◌≡◌, arith, nat_eqb, ltb,
}
use awarekv.Connector.LayerName.{Text, named_layer_idx}
use awarekv.Dict.{Dict, find, contains, insert}

-- the integers, as keys
abbrev pub int_eqb : ℤ → ℤ → Bool
int_eqb (pos m) (pos n) = nat_eqb m n
int_eqb (negsuc m) (negsuc n) = nat_eqb m n
int_eqb _ _ = false

pub int_eqb_iff : (a b : ℤ) → (int_eqb a b ≡ true) ↔ (a ≡ b)
int_eqb_iff a b = ground arith

instance abbrev pub int_eq : Eq ℤ
int_eq = record { eqb = int_eqb; eqb_iff = int_eqb_iff }

-- a ≤ b, and layer_idx >= n for a count n
abbrev pub int_leb : ℤ → ℤ → Bool
int_leb (pos m) (pos n) = leb m n
int_leb (pos m) (negsuc n) = false
int_leb (negsuc m) (pos n) = true
int_leb (negsuc m) (negsuc n) = leb n m

abbrev pub not_below : ℤ → ℕ → Bool
not_below i n = int_leb (pos n) i

pub record LayerKvData (T : Type 0) : Type 0 where
  pub layer_idx : ℤ
  pub layer_name : Text
  pub kv_tensor : T

pub record SaveSession (T : Type 0) : Type 0 where
  pub request_id : String
  pub prefix_key : String
  pub matched_tokens : ℕ
  pub matched_blocks : List ℤ
  pub num_layers : ℕ
  pub layer_data : Dict ℤ (LayerKvData T)
  pub completed : Bool
  pub aborted : Bool
  pub abort_reason : Option String

module _ {T : Type 0} where
  unfoldable pub new_session : String → String → ℕ → List ℤ → ℕ → SaveSession T
  new_session rid key tokens blocks layers = record {
    request_id = rid;
    prefix_key = key;
    matched_tokens = tokens;
    matched_blocks = blocks;
    num_layers = layers;
    layer_data = [];
    completed = false;
    aborted = false;
    abort_reason = none;
  }

  -- A name without an integer behind an underscore gets the number of layers so far.
  abbrev pub index_or_count : Option ℤ → SaveSession T → ℤ
  index_or_count none s = pos (length s.layer_data)
  index_or_count (some i) s = i

  unfoldable pub layer_index : Text → SaveSession T → ℤ
  unfolding named_layer_idx
  layer_index name s = index_or_count (named_layer_idx name) s

  -- `add_layer`; `host` is the copy of the tensor in host memory
  unfoldable pub add_layer : (T → T) → Text → T → SaveSession T → Bool × SaveSession T
  unfolding layer_index
  add_layer host name t s =
      let i = layer_index name s in
      if s.completed || s.aborted
      then (false, s)
      else if not_below i s.num_layers
      then (false, s)
      else if contains i s.layer_data
      then (false, s)
      else (
        true,
        record s {
          layer_data =
              insert i (record { layer_idx = i; layer_name = name; kv_tensor = host t })
                s.layer_data;
        },
      )

  unfoldable pub is_complete : SaveSession T → Bool
  is_complete s = leb s.num_layers (length s.layer_data)

  unfoldable pub abort : String → SaveSession T → SaveSession T
  abort reason s = record s { aborted = true; abort_reason = some reason }

  unfoldable pub mark_completed : SaveSession T → SaveSession T
  mark_completed s = record s { completed = true }

  -- `[self.layer_data[i] for i in sorted(self.layer_data.keys())]`, by insertion
  unfoldable pub insert_sorted : ℤ × LayerKvData T → Dict ℤ (LayerKvData T) → Dict ℤ (LayerKvData T)
  insert_sorted e [] = e ∷ []
  insert_sorted e (x ∷ d) =
      let rest = insert_sorted e d in if int_leb e.0 x.0 then e ∷ x ∷ d else x ∷ rest

  unfoldable pub sort_layers : Dict ℤ (LayerKvData T) → Dict ℤ (LayerKvData T)
  unfolding insert_sorted
  sort_layers [] = []
  sort_layers (e ∷ d) = insert_sorted e (sort_layers d)

  unfoldable pub get_all_layers : SaveSession T → Dict ℤ (LayerKvData T)
  unfolding sort_layers
  get_all_layers s = sort_layers s.layer_data
