-- ===== src/Config/Sections.antt =====
-- The sections of src/dakv/config.py: `from_yaml` leaves an instance of its class under every name.
use awarekv.Prelude.{
  String, true, false, Bool-cases, Option, none, some, Option-cases, inl, inr, [], ◌∷◌, ◌≡◌, ◌≢◌,
  ◌⊎◌, refl, sym, ap, ◌∙◌, subst, arith, ◌==◌, ◌||◌, ==_iff, string_eq, Error, ok, raise,
  ok-injective, bind-ok, Result-cases, ◌>>=◌,
}
use awarekv.Dict.{Dict, find, contains, insert}
use awarekv.Dict.Laws.{find-insert, contains-find}
use awarekv.Config.{
  Literals, Input, mapping, plain, Attribute, section, value, Config, section_classes, properties,
  with_keywords, section_from_yaml, read_property, set_attribute, set_key, set_keys,
}

some-injective : {A : Type 0} {a b : A} → some a ≡ some b → a ≡ b
some-injective e = ground arith

raise≢ok : {A : Type 0} {x : Error} {a : A} → raise x ≢ ok a
raise≢ok e = ground arith

pub none≢some : {A : Type 0} {a : A} → none ≢ some a
none≢some e = ground arith

module _ {V : Type 0} where
  contains-insert :
      (k j : String) (v : V) (d : Dict String V)
      → contains k d ≡ true
      → contains j (insert k v d) ≡ contains j d
  contains-insert k j v d h = ground (
    arith,
    contains-find j (insert k v d),
    contains-find j d,
    contains-find k d,
    find-insert k j v d,
    ==_iff k j,
  )

  -- The call of a class sets fields that the class has.
  with_keywords-contains :
      (d : Dict String V) (kwargs : Dict String V) (d' : Dict String V) (j : String)
      → with_keywords d kwargs ≡ ok d'
      → contains j d' ≡ contains j d
  unfolding with_keywords
  with_keywords-contains d [] d' j e = ap (contains j) (sym (ok-injective e))
  with_keywords-contains d ((k, v) ∷ kwargs) d' j e = elim (Bool-cases (contains k d)) [
    | inl f ↦
        with_keywords-contains (insert k v d) kwargs d' j (ground arith) ∙ contains-insert k j v d f
    | inr f ↦ absurd (ground arith)
  ]

  -- An instance of a class of sections stands under the name, with the fields of the class.
  abbrev pub IsSection : Option (Attribute V) → Dict String V → Type 0
  IsSection (some (section d)) defaults = (j : String) → contains j d ≡ contains j defaults
  IsSection _ defaults = ⊥

  abbrev pub Sectioned : Literals V → Config V → Type 0
  Sectioned lit config =
      (name : String) (defaults : Dict String V)
      → find name (section_classes lit) ≡ some defaults
      → IsSection (find name config) defaults

  find_at :
      (key name : String) (a : Attribute V) (config : Config V)
      → (key == name) ≡ true
      → some a ≡ find name (insert key a config)
  find_at key name a config f = ground (arith, find-insert key name a config)

  pub find_off :
      (key name : String) (a : Attribute V) (config : Config V)
      → (key == name) ≡ false
      → find name config ≡ find name (insert key a config)
  find_off key name a config f = ground (arith, find-insert key name a config)

  insert_other :
      (lit : Literals V) (config : Config V) (key : String) (a : Attribute V)
      → find key (section_classes lit) ≡ none
      → Sectioned lit config
      → Sectioned lit (insert key a config)
  insert_other lit config key a n h name defaults e = elim (Bool-cases (key == name)) [
    | inl f ↦
        absurd
          (none≢some (sym n ∙ ap (λ k. find k (section_classes lit)) ((==_iff key name).0 f) ∙ e))
    | inr f ↦ subst (λ o. IsSection o defaults) (find_off key name a config f) (h name defaults e)
  ]

  insert_section :
      (lit : Literals V) (config : Config V) (key : String) (d defaults : Dict String V)
      → find key (section_classes lit) ≡ some defaults
      → ((j : String) → contains j d ≡ contains j defaults)
      → Sectioned lit config
      → Sectioned lit (insert key (section d) config)
  insert_section lit config key d defaults n same h name defaults' e =
      elim (Bool-cases (key == name)) [
        | inl f ↦
            subst (λ o. IsSection o defaults') (find_at key name (section d) config f)
              (λ j.
                same j
                ∙ ap (contains j) (
                    some-injective
                      (sym n ∙ ap (λ k. find k (section_classes lit)) ((==_iff key name).0 f) ∙ e)))
        | inr f ↦
            subst (λ o. IsSection o defaults') (find_off key name (section d) config f)
              (h name defaults' e)
      ]

  pub set_attribute-cases :
      (config : Config V) (key : String) (v : Input V) (config' : Config V)
      → set_attribute config key v ≡ ok config'
      → (config ≡ config') ⊎ (insert key (value v) config ≡ config')
  unfolding set_attribute
  set_attribute-cases config key v config' e = elim (Bool-cases (contains key properties)) [
    | inl f ↦ elim (Result-cases (read_property config key)) [
      | inl (x, g) ↦ absurd (ground arith)
      | inr (x, g) ↦ inl (ground arith)
    ]
    | inr f ↦ elim (Bool-cases (contains key config)) [
      | inl g ↦ inr (ground arith)
      | inr g ↦ elim (Bool-cases (key == "from_yaml" || key == "from_dict")) [
        | inl i ↦ inr (ground arith)
        | inr i ↦ inl (ground arith)
      ]
    ]
  ]

  set_attribute-Sectioned :
      (lit : Literals V) (config : Config V) (key : String) (v : Input V) (config' : Config V)
      → find key (section_classes lit) ≡ none
      → Sectioned lit config
      → set_attribute config key v ≡ ok config'
      → Sectioned lit config'
  set_attribute-Sectioned lit config key v config' n h e =
      elim (set_attribute-cases config key v config' e) [
        | inl p ↦ subst (Sectioned lit) p h
        | inr p ↦ subst (Sectioned lit) p (insert_other lit config key (value v) n h)
      ]

  pub set_key-other :
      (lit : Literals V) (config : Config V) (key : String) (v : Input V)
      → find key (section_classes lit) ≡ none
      → set_key lit section_from_yaml config key v ≡ set_attribute config key v
  unfolding set_key
  set_key-other lit config key v f = rw (set_key, f) refl

  pub set_key-section :
      (lit : Literals V) (config : Config V) (key : String) (v : Input V) (defaults : Dict String V)
      → find key (section_classes lit) ≡ some defaults
      → set_key lit section_from_yaml config key v
        ≡ (section_from_yaml defaults v >>= λ s. ok (insert key s config))
  unfolding set_key
  set_key-section lit config key v defaults f = rw (set_key, f) refl

  section_from_yaml-section :
      (defaults : Dict String V) (v : Input V) (a : Attribute V)
      → section_from_yaml defaults v ≡ ok a
      → (d : Dict String V) × (section d ≡ a) × ((j : String) → contains j d ≡ contains j defaults)
  unfolding section_from_yaml
  section_from_yaml-section defaults (plain v) a e = absurd (raise≢ok e)
  section_from_yaml-section defaults (mapping kwargs) a e =
      let (d, g, i) = bind-ok (with_keywords defaults kwargs) _ e in
      (d, ok-injective i, λ j. with_keywords-contains defaults kwargs d j g)

  set_key-Sectioned :
      (lit : Literals V) (config : Config V) (key : String) (v : Input V) (config' : Config V)
      → Sectioned lit config
      → set_key lit section_from_yaml config key v ≡ ok config'
      → Sectioned lit config'
  set_key-Sectioned lit config key v config' h e =
      elim (Option-cases (find key (section_classes lit))) [
        | inl f ↦
            set_attribute-Sectioned lit config key v config' f h
              (sym (set_key-other lit config key v f) ∙ e)
        | inr (defaults, f) ↦
            let (a, g, i) =
              bind-ok (section_from_yaml defaults v) _
                (sym (set_key-section lit config key v defaults f) ∙ e) in
            let (d, j, same) = section_from_yaml-section defaults v a g in
            subst (Sectioned lit) (ap (λ x. insert key x config) j ∙ ok-injective i)
              (insert_section lit config key d defaults f same h)
      ]

  pub set_keys-Sectioned :
      (lit : Literals V) (config : Config V) (items : Dict String (Input V)) (config' : Config V)
      → Sectioned lit config
      → set_keys lit section_from_yaml config items ≡ ok config'
      → Sectioned lit config'
  unfolding set_keys
  set_keys-Sectioned lit config [] config' h e = subst (Sectioned lit) (ok-injective e) h
  set_keys-Sectioned lit config ((key, v) ∷ items) config' h e =
      let (next, f, g) = bind-ok (set_key lit section_from_yaml config key v) _ e in
      set_keys-Sectioned lit next items config' (set_key-Sectioned lit config key v next h f) g
