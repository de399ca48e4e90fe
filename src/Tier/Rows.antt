-- ===== src/Tier/Rows.antt =====
-- A tensor as the list of its rows, written at slots that may be out of range.
use awarekv.Prelude.{
  ℕ, zero, suc, ◌<◌, ◌≡◌, ◌≢◌, refl, ap, arith, Option, none, some, List, [], ◌∷◌, map, ℤ, pos,
  negsuc, if◌then◌else◌, ltb, lt→ltb, length, get_elem?, set, get_elem?-set_self, length-set, ◌∙◌,
}

module _ {ℓ} {A : Type ℓ} where
  -- `if slot >= 0 and slot < t.shape[0]: t[slot] = row`
  unfoldable pub write_at : ℤ → A → List A → List A
  write_at (pos i) row t = if ltb i (length t) then set t i row else t
  write_at (negsuc i) row t = t

  -- the loop over the slots and the rows, as far as both go
  unfoldable pub write_rows : List ℤ → List A → List A → List A
  unfolding write_at
  write_rows [] rows t = t
  write_rows (s ∷ ss) [] t = t
  write_rows (s ∷ ss) (r ∷ rs) t = write_rows ss rs (write_at s r t)

  -- `t[slots]`, where every index has to be in range
  unfoldable pub gather : List ℕ → List A → Option (List A)
  gather [] t = some []
  gather (i ∷ is) t = elim (get_elem? t i) [
    | none ↦ none
    | some r ↦ elim (gather is t) [ none ↦ none | some rs ↦ some (r ∷ rs) ]
  ]

  get_elem?-set_ne :
      (xs : List A) (i j : ℕ) (v : A) → i ≢ j → get_elem? (set xs i v) j ≡ get_elem? xs j
  get_elem?-set_ne [] i j v h = refl
  get_elem?-set_ne (x ∷ xs) zero zero v h = absurd (h refl)
  get_elem?-set_ne (x ∷ xs) zero (suc j) v h = refl
  get_elem?-set_ne (x ∷ xs) (suc i) zero v h = refl
  get_elem?-set_ne (x ∷ xs) (suc i) (suc j) v h = get_elem?-set_ne xs i j v (λ e. h (ap suc e))

  pub length-write_at : (s : ℤ) (r : A) (t : List A) → length (write_at s r t) ≡ length t
  unfolding write_at
  length-write_at (pos i) r t = ground (arith, length-set t i r)
  length-write_at (negsuc i) r t = refl

  -- Writing rows changes no other row's place.
  pub length-write_rows : (ss : List ℤ) (rs t : List A) → length (write_rows ss rs t) ≡ length t
  unfolding write_rows
  length-write_rows [] rs t = refl
  length-write_rows (s ∷ ss) [] t = refl
  length-write_rows (s ∷ ss) (r ∷ rs) t =
      omega (arith, length-write_rows ss rs (write_at s r t), length-write_at s r t)

-- None of the indices is `i`; all are below `n`; none stands twice.
abbrev pub NotIn : ℕ → List ℕ → Type 0
NotIn i [] = Unit
NotIn i (j ∷ js) = (j ≢ i) × NotIn i js

abbrev pub AllBelow : ℕ → List ℕ → Type 0
AllBelow n [] = Unit
AllBelow n (j ∷ js) = (j < n) × AllBelow n js

abbrev pub AllDistinct : List ℕ → Type 0
AllDistinct [] = Unit
AllDistinct (j ∷ js) = NotIn j js × AllDistinct js

abbrev pub NotSlot : ℕ → List ℤ → Type 0
NotSlot i [] = Unit
NotSlot i (s ∷ ss) = (s ≢ pos i) × NotSlot i ss

module _ {ℓ} {A : Type ℓ} where
  get_elem?-write_at_ne :
      (s : ℤ) (i : ℕ) (r : A) (t : List A)
      → s ≢ pos i
      → get_elem? (write_at s r t) i ≡ get_elem? t i
  unfolding write_at
  get_elem?-write_at_ne (pos j) i r t h =
      ground (arith, get_elem?-set_ne t j i r (λ e. h (ap pos e)))
  get_elem?-write_at_ne (negsuc j) i r t h = refl

  -- A row that no slot names keeps its content.
  pub get_elem?-write_rows_ne :
      (ss : List ℤ) (i : ℕ) (rs t : List A)
      → NotSlot i ss
      → get_elem? (write_rows ss rs t) i ≡ get_elem? t i
  unfolding write_rows
  get_elem?-write_rows_ne [] i rs t h = refl
  get_elem?-write_rows_ne (s ∷ ss) i [] t h = refl
  get_elem?-write_rows_ne (s ∷ ss) i (r ∷ rs) t h =
      get_elem?-write_rows_ne ss i rs (write_at s r t) h.1 ∙ get_elem?-write_at_ne s i r t h.0

  get_elem?-write_at_self :
      (i : ℕ) (r : A) (t : List A) → i < length t → get_elem? (write_at (pos i) r t) i ≡ some r
  unfolding write_at
  get_elem?-write_at_self i r t h = rw (lt→ltb i (length t) h) (get_elem?-set_self t i r h)

NotIn-NotSlot : (i : ℕ) (is : List ℕ) → NotIn i is → NotSlot i (map pos is)
NotIn-NotSlot i [] h = tt
NotIn-NotSlot i (j ∷ is) h = ((λ e. h.0 (ground arith)), NotIn-NotSlot i is h.1)

module _ {ℓ} {A : Type ℓ} where
  -- Rows written at distinct places in range are read back from these places.
  pub gather-write_rows :
      (is : List ℕ) (rs t : List A)
      → AllBelow (length t) is
      → AllDistinct is
      → length is ≡ length rs
      → gather is (write_rows (map pos is) rs t) ≡ some rs
  unfolding gather write_rows
  gather-write_rows [] [] t b d e = refl
  gather-write_rows [] (r ∷ rs) t b d e = absurd (omega arith)
  gather-write_rows (i ∷ is) [] t b d e = absurd (omega arith)
  gather-write_rows (i ∷ is) (r ∷ rs) t b d e =
      let t' = write_at (pos i) r t in
      ground (
        arith,
        get_elem?-write_rows_ne (map pos is) i rs t' (NotIn-NotSlot i is d.0),
        get_elem?-write_at_self i r t b.0,
        gather-write_rows is rs t' (rw (length-write_at (pos i) r t) b.1) d.1 (omega arith),
      )
