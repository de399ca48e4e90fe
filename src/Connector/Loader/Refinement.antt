-- ===== src/Connector/Loader/Refinement.antt =====
-- The refinements of src/dakv/connector/loader.py: what is written, and when they are dropped.
use awarekv.Prelude.{
  ℕ, zero, suc, ◌≡◌, ◌≢◌, subst, refl, sym, ap, ◌∙◌, arith, String, Bool, true, false, not, ◌||◌,
  Option, none, some, Option-cases, Bool-cases, inl, inr, List, [], ◌∷◌, ℤ, pos, negsuc, nat_eqb,
  length, drop, get_elem?, truthy, string_eq, Result-cases, ==_ne, ◌⊎◌,
}
use awarekv.Common.Types.{DeadlineConnectorMetadata, PlanMode}
use awarekv.Dict.{Dict, find, insert, remove}
use awarekv.Dict.Laws.{find-insert, find-remove, find-remove_self, find-insert_self, contains-find}
use awarekv.Transport.Struct.{Bytes}
use awarekv.Codec.{Codec}
use awarekv.Transport.Channels.{refine_fetch}
use awarekv.Connector.Object.{parse_and_decode_object}
use awarekv.Tier.Rows.{write_at, write_rows}
use awarekv.Connector.Loader.{
  refinement_codec_of, PendingRefinement, Pending, apply_block, apply_blocks,
  apply_refinement_to_layer, apply_layers, apply_refinement_if_ready, load_refinement,
  start_refinement_load, has_pending_refinement,
}

module _ {A : Type 0} where
  get_elem?-drop : (xs : List A) (i : ℕ) → get_elem? xs i ≡ get_elem? (drop i xs) 0
  get_elem?-drop [] zero = refl
  get_elem?-drop [] (suc i) = refl
  get_elem?-drop (x ∷ xs) zero = refl
  get_elem?-drop (x ∷ xs) (suc i) = get_elem?-drop xs i

  drop-none : (xs : List A) (i : ℕ) → get_elem? xs i ≡ none → drop i xs ≡ []
  drop-none [] zero e = refl
  drop-none [] (suc i) e = refl
  drop-none (x ∷ xs) zero e = absurd (ground arith)
  drop-none (x ∷ xs) (suc i) e = drop-none xs i e

  drop-some :
      (xs : List A) (i : ℕ) (r : A) → get_elem? xs i ≡ some r → drop i xs ≡ r ∷ drop (suc i) xs
  drop-some [] zero r e = absurd (ground arith)
  drop-some [] (suc i) r e = absurd (ground arith)
  drop-some (x ∷ xs) zero r e = ground arith
  drop-some (x ∷ xs) (suc i) r e = drop-some xs i r e

  apply_block-write_at :
      (refined layer : List A) (i : ℕ) (b : ℤ) (r : A)
      → get_elem? refined i ≡ some r
      → apply_block refined i b layer ≡ write_at b r layer
  unfolding apply_block write_at
  apply_block-write_at refined layer i (pos n) r e = rw e refl
  apply_block-write_at refined layer i (negsuc n) r e = refl

  apply_block-none :
      (refined layer : List A) (i : ℕ) (b : ℤ)
      → get_elem? refined i ≡ none
      → apply_block refined i b layer ≡ layer
  unfolding apply_block
  apply_block-none refined layer i (pos n) e = ground arith
  apply_block-none refined layer i (negsuc n) e = refl

  get_elem?-past : (xs : List A) (i : ℕ) → get_elem? xs i ≡ none → get_elem? xs (suc i) ≡ none
  get_elem?-past [] zero e = refl
  get_elem?-past [] (suc i) e = refl
  get_elem?-past (x ∷ xs) zero e = absurd (ground arith)
  get_elem?-past (x ∷ xs) (suc i) e = get_elem?-past xs i e

  apply_blocks-past :
      (refined layer : List A) (i : ℕ) (bs : List ℤ)
      → get_elem? refined i ≡ none
      → apply_blocks refined i bs layer ≡ layer
  unfolding apply_blocks
  apply_blocks-past refined layer i [] e = refl
  apply_blocks-past refined layer i (b ∷ bs) e =
      rw (apply_block-none refined layer i b e)
        (apply_blocks-past refined layer (suc i) bs (get_elem?-past refined i e))

  apply_blocks-write_rows :
      (refined layer : List A) (i : ℕ) (bs : List ℤ)
      → apply_blocks refined i bs layer ≡ write_rows bs (drop i refined) layer
  unfolding apply_blocks write_rows
  apply_blocks-write_rows refined layer i [] = refl
  apply_blocks-write_rows refined layer i (b ∷ bs) = elim (Option-cases (get_elem? refined i)) [
    | inl e ↦ rw (drop-none refined i e) (apply_blocks-past refined layer i (b ∷ bs) e)
    | inr (r, e) ↦
        rw (drop-some refined i r e, apply_block-write_at refined layer i b r e)
          (apply_blocks-write_rows refined (write_at b r layer) (suc i) bs)
  ]

  -- The rows of a refinement are written as `write_rows` writes them: the row `i` at the block `i` of
  -- the list where that block is in range, as far as the rows and the blocks go.
  pub apply_refinement_to_layer-write_rows :
      (refined layer : List A) (blocks : List ℤ)
      → apply_refinement_to_layer refined layer blocks ≡ write_rows blocks refined layer
  unfolding apply_refinement_to_layer
  apply_refinement_to_layer-write_rows refined layer blocks =
      apply_blocks-write_rows refined layer 0 blocks

  length-apply_layers :
      (blocks : List ℤ) (rs ls : List (List A)) → length (apply_layers blocks rs ls) ≡ length ls
  unfolding apply_layers
  length-apply_layers blocks [] ls = refl
  length-apply_layers blocks (r ∷ rs) [] = refl
  length-apply_layers blocks (r ∷ rs) (l ∷ ls) = ap suc (length-apply_layers blocks rs ls)

  applied :
      (rid : String) (layers : List (List A)) (blocks : List ℤ) (pending : Pending A)
      (layers' : List (List A)) (pending' : Pending A)
      → apply_refinement_if_ready rid layers blocks pending ≡ (true, layers', pending')
      → (p : PendingRefinement A) × (apply_layers blocks p.tensors layers ≡ layers')
        × (remove rid pending ≡ pending')
  unfolding apply_refinement_if_ready
  applied rid layers blocks pending layers' pending' e = elim (Option-cases (find rid pending)) [
    | inl f ↦ absurd (ground arith)
    | inr (p, f) ↦ elim (Bool-cases (nat_eqb (length p.tensors) (length layers))) [
      | inl g ↦ (p, ground arith, ground arith)
      | inr g ↦ absurd (ground arith)
    ]
  ]

  find-remove_ne :
      (rid other : String) (d : Pending A) → other ≢ rid → find other (remove rid d) ≡ find other d
  find-remove_ne rid other d h = rw (find-remove rid other d, ==_ne rid other (λ e. h (sym e))) refl

  find-insert_ne :
      (rid other : String) (p : PendingRefinement A) (d : Pending A)
      → other ≢ rid
      → find other (insert rid p d) ≡ find other d
  find-insert_ne rid other p d h =
      rw (find-insert rid other p d, ==_ne rid other (λ e. h (sym e))) refl

  -- A refinement that was applied is gone: a second call answers `False` and writes nothing, the
  -- other requests keep theirs, and the cache has as many layers as before.
  pub apply_refinement_if_ready-once :
      (rid : String) (layers : List (List A)) (blocks : List ℤ) (pending : Pending A)
      (layers' : List (List A)) (pending' : Pending A)
      → apply_refinement_if_ready rid layers blocks pending ≡ (true, layers', pending')
      → ((ls : List (List A)) (bs : List ℤ)
          → apply_refinement_if_ready rid ls bs pending' ≡ (false, ls, pending'))
        × ((other : String) → other ≢ rid → find other pending' ≡ find other pending)
        × (length layers' ≡ length layers)
  unfolding apply_refinement_if_ready
  apply_refinement_if_ready-once rid layers blocks pending layers' pending' e =
      let (p, written, removed) = applied rid layers blocks pending layers' pending' e in
      (
        (λ ls bs.
            rw
              (
                apply_refinement_if_ready,
                ap (find rid) (sym removed) ∙ find-remove_self rid pending,
              )
              refl),
        (λ other h. ap (find other) (sym removed) ∙ find-remove_ne rid other pending h),
        ap length (sym written) ∙ length-apply_layers blocks p.tensors layers,
      )

  load_refinement-cases :
      (registry : Dict String (Codec (List A))) (md : DeadlineConnectorMetadata)
      (answer : Option Bytes) (pending : Pending A)
      → (load_refinement registry md answer pending ≡ (false, pending))
        ⊎ ((p : PendingRefinement A) × (load_refinement registry md answer pending
              ≡ (true, insert md.request_id p pending)))
  unfolding load_refinement refine_fetch
  load_refinement-cases registry md none pending = inl refl
  load_refinement-cases registry md (some b) pending =
      elim (Result-cases
        (parse_and_decode_object (refinement_codec_of registry md) b md.num_layers)) [
          | inl ((h, ts), e) ↦
              inr (record { tensors = ts; header = h; metadata = md }, rw (load_refinement, e) refl)
          | inr (x, e) ↦ inl (rw (load_refinement, e) refl)
        ]

  start_refinement_load-cases :
      (refining : PlanMode → Bool) (registry : Dict String (Codec (List A)))
      (md : DeadlineConnectorMetadata) (answer : Option Bytes) (pending : Pending A)
      → (start_refinement_load refining registry md answer pending ≡ (false, pending))
        ⊎ ((p : PendingRefinement A) × (start_refinement_load refining registry md answer pending
              ≡ (true, insert md.request_id p pending)))
  unfolding start_refinement_load
  start_refinement_load-cases refining registry md answer pending =
      elim (Bool-cases (not md.need_refinement || not (truthy md.refinement_object_id))) [
        | inl e ↦ inl (rw e refl)
        | inr e ↦ elim (Bool-cases (refining md.plan_mode)) [
          | inl f ↦ rw (e, f) (load_refinement-cases registry md answer pending)
          | inr f ↦ inl (rw (e, f) refl)
        ]
      ]

  -- what is pending afterwards
  abbrev pub LeftFor : DeadlineConnectorMetadata → Pending A → Bool → Pending A → Type 0
  LeftFor md pending false pending' = pending' ≡ pending
  LeftFor md pending true pending' =
      (has_pending_refinement md.request_id pending' ≡ true)
      × ((other : String) → other ≢ md.request_id → find other pending' ≡ find other pending)

  -- A refinement load that answers `True` has left a refinement for its request only, and
  -- one that answers `False` has left what was pending as it was.
  pub start_refinement_load-pending :
      (refining : PlanMode → Bool) (registry : Dict String (Codec (List A)))
      (md : DeadlineConnectorMetadata) (answer : Option Bytes) (pending pending' : Pending A)
      (success : Bool)
      → start_refinement_load refining registry md answer pending ≡ (success, pending')
      → LeftFor md pending success pending'
  unfolding has_pending_refinement
  start_refinement_load-pending refining registry md answer pending pending' success e =
      elim (start_refinement_load-cases refining registry md answer pending) [
        | inl f ↦ subst (λ o. LeftFor md pending o.0 o.1) (sym f ∙ e) refl
        | inr (p, f) ↦
            subst (λ o. LeftFor md pending o.0 o.1) (sym f ∙ e)
              (
                rw
                    (
                      contains-find md.request_id (insert md.request_id p pending),
                      find-insert_self md.request_id p pending,
                    )
                    refl,
                λ other h. find-insert_ne md.request_id other p pending h,
              )
      ]
