-- ===== src/Dict/Laws.antt =====
-- The laws of dictionaries, in the form that needs no side condition.
use awarekv.Prelude.{
  ℕ, zero, suc, drop, Option, none, some, [], ◌∷◌, ◌++◌, Bool, true, false, Eq, ◌==◌, if◌then◌else◌,
  ◌≡◌, refl, arith, ==_ne, ◌≢◌,
}
use awarekv.Dict.{Dict, find, contains, insert, remove, modify, Distinct}

abbrev pub is_some {ℓ} : {A : Type ℓ} → Option A → Bool
is_some none = false
is_some (some a) = true

abbrev pub option_map {ℓ} : {A B : Type ℓ} → (A → B) → Option A → Option B
option_map f none = none
option_map f (some a) = some (f a)

module _ {ℓ κ} {K : Type ℓ} {V : Type κ} ⦃e : Eq K⦄ where
  pub contains-find : (k : K) (d : Dict K V) → contains k d ≡ is_some (find k d)
  unfolding find contains
  contains-find k [] = refl
  contains-find k ((j, v) ∷ d) = ground (arith, contains-find k d)

  pub find-insert :
      (k j : K) (v : V) (d : Dict K V)
      → find j (insert k v d) ≡ (if k == j then some v else find j d)
  unfolding find insert
  find-insert k j v [] = refl
  find-insert k j v ((i, w) ∷ d) =
      ground (arith, e.eqb_iff k j, e.eqb_iff i k, e.eqb_iff i j, find-insert k j v d)

  pub insert-insert : (k : K) (v w : V) (d : Dict K V) → insert k w (insert k v d) ≡ insert k w d
  unfolding insert
  insert-insert k v w [] = ground (arith, e.eqb_iff k k)
  insert-insert k v w ((i, u) ∷ d) = ground (arith, insert-insert k v w d)

  pub find-remove :
      (k j : K) (d : Dict K V) → find j (remove k d) ≡ (if k == j then none else find j d)
  unfolding find remove
  find-remove k j [] = ground arith
  find-remove k j ((i, w) ∷ d) =
      ground (arith, e.eqb_iff k j, e.eqb_iff i k, e.eqb_iff i j, find-remove k j d)

  pub find-remove-some :
      (k j : K) (v : V) (d : Dict K V)
      → find j (remove k d) ≡ some v
      → (find j d ≡ some v) × ((k == j) ≡ false)
  find-remove-some k j v d h = ground (arith, find-remove k j d)

  pub find-modify :
      (k j : K) (f : V → V) (d : Dict K V)
      → find j (modify k f d) ≡ (if k == j then option_map f (find j d) else find j d)
  unfolding find modify
  find-modify k j f [] = ground arith
  find-modify k j f ((i, w) ∷ d) =
      ground (arith, e.eqb_iff k j, e.eqb_iff i k, e.eqb_iff i j, find-modify k j f d)

  pub find-insert_self : (k : K) (v : V) (d : Dict K V) → find k (insert k v d) ≡ some v
  find-insert_self k v d = rw (find-insert k k v d, (e.eqb_iff k k).1 refl)

  pub find-remove_self : (k : K) (d : Dict K V) → find k (remove k d) ≡ none
  find-remove_self k d = rw (find-remove k k d, (e.eqb_iff k k).1 refl)

  pub remove_absent : (k : K) (d : Dict K V) → find k d ≡ none → remove k d ≡ d
  unfolding find remove
  remove_absent k [] h = refl
  remove_absent k ((i, w) ∷ d) h = ground (arith, remove_absent k d)

  pub modify_absent : (k : K) (f : V → V) (d : Dict K V) → find k d ≡ none → modify k f d ≡ d
  unfolding find modify
  modify_absent k f [] h = refl
  modify_absent k f ((i, w) ∷ d) h = ground (arith, modify_absent k f d)

  -- move_to_end and a first write append at the end
  pub find-append :
      (j : K) (d c : Dict K V)
      → find j (d ++ c) ≡ (if is_some (find j d) then find j d else find j c)
  unfolding find
  find-append j [] c = refl
  find-append j ((i, w) ∷ d) c = ground (arith, find-append j d c)

  pub insert_ne :
      (k j : K) (v w : V) (d : Dict K V) → j ≢ k → insert k v ((j, w) ∷ d) ≡ (j, w) ∷ insert k v d
  unfolding insert
  insert_ne k j v w d h = rw (==_ne j k h) refl

  pub insert_absent :
      (k : K) (v : V) (d : Dict K V) → find k d ≡ none → insert k v d ≡ d ++ (k, v) ∷ []
  unfolding find insert
  insert_absent k v [] h = refl
  insert_absent k v ((i, w) ∷ d) h = ground (arith, insert_absent k v d)

  pub remove-Distinct : (k : K) (d : Dict K V) → Distinct d → Distinct (remove k d)
  unfolding remove
  remove-Distinct k [] h = h
  remove-Distinct k ((i, w) ∷ d) h =
      ground (arith, remove-Distinct k d, find-remove k i d, e.eqb_iff i k)

  pub insert-Distinct : (k : K) (v : V) (d : Dict K V) → Distinct d → Distinct (insert k v d)
  unfolding insert find
  insert-Distinct k v [] h = ground arith
  insert-Distinct k v ((i, w) ∷ d) h =
      ground (arith, insert-Distinct k v d, find-insert k i v d, e.eqb_iff i k, e.eqb_iff k i)

  pub modify-Distinct : (k : K) (f : V → V) (d : Dict K V) → Distinct d → Distinct (modify k f d)
  unfolding modify find
  modify-Distinct k f [] h = h
  modify-Distinct k f ((i, w) ∷ d) h =
      ground (arith, modify-Distinct k f d, find-modify k i f d, e.eqb_iff i k)

  pub append-Distinct :
      (k : K) (v : V) (d : Dict K V) → find k d ≡ none → Distinct d → Distinct (d ++ (k, v) ∷ [])
  unfolding find
  append-Distinct k v [] n h = ground arith
  append-Distinct k v ((i, w) ∷ d) n h =
      ground
        (arith, append-Distinct k v d, find-append i d ((k, v) ∷ []), e.eqb_iff i k, e.eqb_iff k i)

  find-drop : (n : ℕ) (k : K) (d : Dict K V) → find k d ≡ none → find k (drop n d) ≡ none
  unfolding find
  find-drop zero k d h = h
  find-drop (suc n) k [] h = h
  find-drop (suc n) k ((i, w) ∷ d) h = find-drop n k d (ground arith)

  pub drop-Distinct : (n : ℕ) (d : Dict K V) → Distinct d → Distinct (drop n d)
  drop-Distinct zero d h = h
  drop-Distinct (suc n) [] h = h
  drop-Distinct (suc n) ((i, w) ∷ d) h = drop-Distinct n d h.1

pub ruleset dict_laws = (find-insert, find-remove, find-modify, contains-find)
