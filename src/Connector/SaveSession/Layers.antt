-- ===== src/Connector/SaveSession/Layers.antt =====
-- The layers of a session of src/dakv/connector/save_session.py.
use awarekv.Prelude.{
  ℕ, String, true, false, none, some, [], ◌∷◌, ℤ, if◌then◌else◌, ◌≡◌, refl, arith, ◌==◌, Bool-cases,
  inl, inr,
}
use mathlib.Core.List.{Perm}
use mathlib.Core.List.Perm
use awarekv.Dict.{Dict, find, insert, Distinct}
use awarekv.Dict.Laws.{find-insert, contains-find, insert-Distinct}
use awarekv.Connector.LayerName.{Text}
use awarekv.Connector.SaveSession.{
  int_leb, int_eq, not_below, LayerKvData, SaveSession, layer_index, add_layer, insert_sorted,
  sort_layers, get_all_layers, abort,
}

module _ {T : Type 0} where
  abbrev pub AllKeys : (ℤ → LayerKvData T → Type 0) → Dict ℤ (LayerKvData T) → Type 0
  AllKeys P [] = Unit
  AllKeys P ((i, l) ∷ d) = P i l × AllKeys P d

  -- The key of a layer is its index, and below the number of layers.
  abbrev pub Placed : ℕ → ℤ → LayerKvData T → Type 0
  Placed n i l = (not_below i n ≡ false) × (l.layer_idx ≡ i)

  pub record IsValid (s : SaveSession T) : Type 0 where
    pub distinct : Distinct s.layer_data
    pub placed : AllKeys (Placed s.num_layers) s.layer_data

  AllKeys-insert :
      (P : ℤ → LayerKvData T → Type 0) (i : ℤ) (l : LayerKvData T) (d : Dict ℤ (LayerKvData T))
      → find i d ≡ none
      → P i l
      → AllKeys P d
      → AllKeys P (insert i l d)
  unfolding insert find
  AllKeys-insert P i l [] e p h = (p, tt)
  AllKeys-insert P i l ((j, x) ∷ d) e p h = elim (Bool-cases (j == i)) [
    | inl b ↦ absurd (ground arith)
    | inr b ↦ rw b (h.0, AllKeys-insert P i l d (ground arith) p h.1)
  ]

  -- Adding a layer keeps every key below the number of layers and no layer twice.
  pub add_layer-IsValid :
      (host : T → T) (name : Text) (t : T) (s : SaveSession T)
      → IsValid s
      → IsValid (add_layer host name t s).1
  unfolding add_layer
  add_layer-IsValid host name t s v =
      let i = layer_index name s in
      let l : LayerKvData T = record { layer_idx = i; layer_name = name; kv_tensor = host t } in
      ground (
        arith,
        insert-Distinct i l s.layer_data,
        contains-find i s.layer_data,
        λ (e : find i s.layer_data ≡ none) (b : not_below i s.num_layers ≡ false).
            AllKeys-insert (Placed s.num_layers) i l s.layer_data e (b, refl) v.placed,
      )

  -- A layer is taken exactly when the session is open, the index is below the number of layers and
  -- it is new. Then it is what the session holds there; every other layer stays, and a refused layer
  -- changes nothing.
  pub find-add_layer :
      (host : T → T) (name : Text) (t : T) (s : SaveSession T) (j : ℤ)
      → ((add_layer host name t s).0 ≡ true
          → (find (layer_index name s) s.layer_data ≡ none)
            × (find j (add_layer host name t s).1.layer_data ≡ (
                if layer_index name s == j
                then some (record {
                  layer_idx = layer_index name s;
                  layer_name = name;
                  kv_tensor = host t;
                })
                else find j s.layer_data)))
        × ((add_layer host name t s).0 ≡ false → (add_layer host name t s).1 ≡ s)
  unfolding add_layer
  find-add_layer host name t s j =
      let i = layer_index name s in
      let l : LayerKvData T = record { layer_idx = i; layer_name = name; kv_tensor = host t } in
      (ground (arith, find-insert i j l s.layer_data, contains-find i s.layer_data), ground arith)

  -- An aborted session takes no layer any more.
  pub add_layer-abort :
      (host : T → T) (name : Text) (reason : String) (t : T) (s : SaveSession T)
      → add_layer host name t (abort reason s) ≡ (false, abort reason s)
  unfolding add_layer abort
  add_layer-abort host name reason t s = ground arith

  abbrev pub Sorted : Dict ℤ (LayerKvData T) → Type 0
  Sorted [] = Unit
  Sorted (x ∷ []) = Unit
  Sorted (x ∷ y ∷ d) = (int_leb x.0 y.0 ≡ true) × Sorted (y ∷ d)

  insert_sorted-Sorted :
      (e : ℤ × LayerKvData T) (d : Dict ℤ (LayerKvData T)) → Sorted d → Sorted (insert_sorted e d)
  unfolding insert_sorted
  insert_sorted-Sorted e [] h = tt
  insert_sorted-Sorted e (x ∷ []) h = ground arith
  insert_sorted-Sorted e (x ∷ y ∷ d) h = ground (arith, insert_sorted-Sorted e (y ∷ d) h.1)

  sort_layers-Sorted : (d : Dict ℤ (LayerKvData T)) → Sorted (sort_layers d)
  unfolding sort_layers
  sort_layers-Sorted [] = tt
  sort_layers-Sorted (e ∷ d) = insert_sorted-Sorted e (sort_layers d) (sort_layers-Sorted d)

  insert_sorted-perm :
      (e : ℤ × LayerKvData T) (d : Dict ℤ (LayerKvData T)) → Perm (insert_sorted e d) (e ∷ d)
  unfolding insert_sorted
  insert_sorted-perm e [] = Perm.refl (e ∷ [])
  insert_sorted-perm e (x ∷ d) = elim (Bool-cases (int_leb e.0 x.0)) [
    | inl b ↦ rw b (Perm.refl (e ∷ x ∷ d))
    | inr b ↦ rw b (Perm.trans (Perm.cons x (insert_sorted-perm e d)) (Perm.swap e x d))
  ]

  sort_layers-perm : (d : Dict ℤ (LayerKvData T)) → Perm (sort_layers d) d
  unfolding sort_layers
  sort_layers-perm [] = Perm.refl []
  sort_layers-perm (e ∷ d) =
      Perm.trans (insert_sorted-perm e (sort_layers d)) (Perm.cons e (sort_layers-perm d))

  -- The layers come back in the order of their indices, each of them once and none lost.
  pub get_all_layers-Sorted :
      (s : SaveSession T) → Sorted (get_all_layers s) × Perm (get_all_layers s) s.layer_data
  unfolding get_all_layers
  get_all_layers-Sorted s = (sort_layers-Sorted s.layer_data, sort_layers-perm s.layer_data)
