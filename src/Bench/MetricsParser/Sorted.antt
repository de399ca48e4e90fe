-- ===== src/Bench/MetricsParser/Sorted.antt =====
-- The latencies of src/dakv/bench/metrics_parser.py, sorted, and their least and greatest.
use awarekv.Prelude.{
  ℕ, zero, suc, ◌*◌, ◌/◌, ◌^◌, ◌≤◌, ◌<◌, true, false, some, List, [], ◌∷◌, if◌then◌else◌, length,
  get_elem?, ok, ◌≡◌, refl, ap, ◌∙◌, arith, inl, inr, Bool-cases,
}
use awarekv.Planner.Floats.{Floats}
use awarekv.Bench.MetricsParser.{place, sort, least, greatest}

-- What floats promise when no latency is NaN: `<` is the strict part of a total order, dividing by a
-- positive count does not raise, and truncating n * 0.95 and n * 0.99 gives the quotients of integers.
pub record StatLaws (f : Floats) (p95 p99 : f.F) : Type 0 where
  pub asym : (a b : f.F) → f.lt a b ≡ true → f.lt b a ≡ false
  pub trans : (a b c : f.F) → f.lt b a ≡ false → f.lt c b ≡ false → f.lt c a ≡ false
  pub div_count : (x : f.F) (n : ℕ) → 0 < n → (q : f.F) × (f.div x (f.of_nat n) ≡ ok q)
  pub at_p95 : (n : ℕ) → n < 2 ^ 40 → f.trunc (f.mul (f.of_nat n) p95) ≡ n * 95 / 100
  pub at_p99 : (n : ℕ) → n < 2 ^ 40 → f.trunc (f.mul (f.of_nat n) p99) ≡ n * 99 / 100

module _ (f : Floats) where
  open f use {F, lt}

  -- No element is below a value.
  abbrev pub AllAbove : F → List F → Type 0
  AllAbove x [] = Unit
  AllAbove x (y ∷ ys) = (lt y x ≡ false) × AllAbove x ys

  abbrev pub IsSorted : List F → Type 0
  IsSorted [] = Unit
  IsSorted (x ∷ xs) = AllAbove x xs × IsSorted xs

  length-place : (x : F) (xs : List F) → length (place f x xs) ≡ suc (length xs)
  unfolding place
  length-place x [] = refl
  length-place x (y ∷ ys) = ground (arith, length-place x ys)

  pub length-sort : (xs : List F) → length (sort f xs) ≡ length xs
  unfolding sort
  length-sort [] = refl
  length-sort (x ∷ xs) = length-place x (sort f xs) ∙ ap suc (length-sort xs)

  pub get_elem?-total : (i : ℕ) (xs : List F) → i < length xs → (x : F) × (get_elem? xs i ≡ some x)
  get_elem?-total i [] h = absurd (omega arith)
  get_elem?-total zero (x ∷ xs) h = (x, refl)
  get_elem?-total (suc i) (x ∷ xs) h = get_elem?-total i xs (omega arith)

  module _ (p95 p99 : F) (laws : StatLaws f p95 p99) where
    AllAbove-le : (x y : F) (xs : List F) → lt y x ≡ false → AllAbove y xs → AllAbove x xs
    AllAbove-le x y [] e h = tt
    AllAbove-le x y (z ∷ xs) e h = (laws.trans x y z e h.0, AllAbove-le x y xs e h.1)

    AllAbove-place :
        (x y : F) (xs : List F) → lt y x ≡ false → AllAbove x xs → AllAbove x (place f y xs)
    unfolding place
    AllAbove-place x y [] e h = (e, tt)
    AllAbove-place x y (z ∷ xs) e h = ground (arith, AllAbove-place x y xs e h.1)

    place-IsSorted : (x : F) (xs : List F) → IsSorted xs → IsSorted (place f x xs)
    unfolding place
    place-IsSorted x [] h = (tt, tt)
    place-IsSorted x (y ∷ ys) h = elim (Bool-cases (lt y x)) [
      | inl e ↦ rw (place, e) (AllAbove-place y x ys (laws.asym y x e) h.0, place-IsSorted x ys h.1)
      | inr e ↦ rw (place, e) ((e, AllAbove-le x y ys e h.0), h)
    ]

    pub sort-IsSorted : (xs : List F) → IsSorted (sort f xs)
    unfolding sort
    sort-IsSorted [] = tt
    sort-IsSorted (x ∷ xs) = place-IsSorted x (sort f xs) (sort-IsSorted xs)

    AllAbove-at :
        (x a : F) (i : ℕ) (xs : List F) → AllAbove x xs → get_elem? xs i ≡ some a → lt a x ≡ false
    AllAbove-at x a i [] h e = absurd (ground arith)
    AllAbove-at x a zero (y ∷ ys) h e = ground arith
    AllAbove-at x a (suc i) (y ∷ ys) h e = AllAbove-at x a i ys h.1 e

    irrefl : (a : F) → lt a a ≡ false
    irrefl a = ground (arith, laws.asym a a)

    -- Of two places of a sorted list, the later one holds no smaller element.
    pub get_elem?-IsSorted :
        (i j : ℕ) (a b : F) (xs : List F)
        → IsSorted xs
        → i ≤ j
        → get_elem? xs i ≡ some a
        → get_elem? xs j ≡ some b
        → lt b a ≡ false
    get_elem?-IsSorted i j a b [] h le e g = absurd (ground arith)
    get_elem?-IsSorted zero zero a b (x ∷ xs) h le e g = ground (arith, irrefl a)
    get_elem?-IsSorted zero (suc j) a b (x ∷ xs) h le e g =
        ground (arith, AllAbove-at x b j xs h.0 g)
    get_elem?-IsSorted (suc i) zero a b (x ∷ xs) h le e g = absurd (omega arith)
    get_elem?-IsSorted (suc i) (suc j) a b (x ∷ xs) h le e g =
        get_elem?-IsSorted i j a b xs h.1 (omega arith) e g

    least-le_first : (x : F) (xs : List F) → lt x (least f x xs) ≡ false
    least-le_first x [] = irrefl x
    least-le_first x (y ∷ ys) =
        let m = if lt y x then y else x in
        laws.trans (least f m ys) m x (least-le_first m ys)
          (ground (arith, laws.asym y x, irrefl x))

    pub least-le :
        (x a : F) (i : ℕ) (xs : List F)
        → get_elem? (x ∷ xs) i ≡ some a
        → lt a (least f x xs) ≡ false
    least-le x a zero xs e = ground (arith, least-le_first x xs)
    least-le x a (suc i) [] e = absurd (ground arith)
    least-le x a (suc zero) (y ∷ ys) e =
        let m = if lt y x then y else x in
        laws.trans (least f m ys) m a (least-le_first m ys) (ground (arith, irrefl y))
    least-le x a (suc (suc i)) (y ∷ ys) e = least-le (if lt y x then y else x) a (suc i) ys e

    greatest-ge_first : (x : F) (xs : List F) → lt (greatest f x xs) x ≡ false
    greatest-ge_first x [] = irrefl x
    greatest-ge_first x (y ∷ ys) =
        let m = if lt x y then y else x in
        laws.trans x m (greatest f m ys) (ground (arith, laws.asym x y, irrefl x))
          (greatest-ge_first m ys)

    pub greatest-ge :
        (x a : F) (i : ℕ) (xs : List F)
        → get_elem? (x ∷ xs) i ≡ some a
        → lt (greatest f x xs) a ≡ false
    greatest-ge x a zero xs e = ground (arith, greatest-ge_first x xs)
    greatest-ge x a (suc i) [] e = absurd (ground arith)
    greatest-ge x a (suc zero) (y ∷ ys) e =
        let m = if lt x y then y else x in
        laws.trans a m (greatest f m ys) (ground (arith, irrefl y)) (greatest-ge_first m ys)
    greatest-ge x a (suc (suc i)) (y ∷ ys) e = greatest-ge (if lt x y then y else x) a (suc i) ys e
