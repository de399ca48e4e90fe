-- ===== src/Config/Unknown.antt =====
-- Keys of the input that are no attribute of the configuration of src/dakv/config.py.
use awarekv.Prelude.{
  String, false, Bool-cases, none, some, Option-cases, inl, inr, [], ◌∷◌, ◌≡◌, sym, ap, ◌∙◌, subst,
  arith, ◌==◌, ◌||◌, ==_iff, string_eq, ok, ok-injective, bind-ok,
}
use awarekv.Dict.{Dict, find, contains}
use awarekv.Dict.Laws.{contains-find}
use awarekv.Config.{
  Literals, Input, value, Config, section_classes, properties, default_config, section_from_yaml,
  set_attribute, set_key, set_keys, from_yaml,
}
use awarekv.Config.Sections.{
  none≢some, find_off, set_attribute-cases, set_key-other, set_key-section,
}

module _ {V : Type 0} (lit : Literals V) where
  -- The name is no attribute of the class: no section, no field, no property and no method.
  abbrev pub IsUnknown : String → Type 0
  IsUnknown name =
      (find name (section_classes lit) ≡ none)
      × (contains name properties ≡ false)
      × ((name == "from_yaml" || name == "from_dict") ≡ false)
      × (find name (default_config lit) ≡ none)

  set_attribute-ignored :
      (name : String) (config : Config V) (v : Input V)
      → IsUnknown name
      → find name config ≡ none
      → set_attribute config name v ≡ ok config
  unfolding set_attribute
  set_attribute-ignored name config v u n = ground (arith, u.1, contains-find name config)

  set_attribute-unknown :
      (name key : String) (config config' : Config V) (v : Input V)
      → IsUnknown name
      → find name config ≡ none
      → set_attribute config key v ≡ ok config'
      → find name config' ≡ none
  set_attribute-unknown name key config config' v u n e = elim (Bool-cases (key == name)) [
    | inl f ↦
        let same = (==_iff key name).0 f in
        subst (λ c. find name c ≡ none)
          (ok-injective (
            sym (set_attribute-ignored name config v u n)
            ∙ ap (λ k. set_attribute config k v) (sym same)
            ∙ e))
          n
    | inr f ↦ elim (set_attribute-cases config key v config' e) [
      | inl p ↦ subst (λ c. find name c ≡ none) p n
      | inr p ↦ subst (λ c. find name c ≡ none) p (sym (find_off key name (value v) config f) ∙ n)
    ]
  ]

  other_key :
      (name key : String) {d : Dict String V}
      → IsUnknown name
      → find key (section_classes lit) ≡ some d
      → (key == name) ≡ false
  other_key name key u e = elim (Bool-cases (key == name)) [
    | inr f ↦ f
    | inl f ↦ absurd (
        none≢some
          (sym u.0 ∙ ap (λ k. find k (section_classes lit)) (sym ((==_iff key name).0 f)) ∙ e))
  ]

  set_key-unknown :
      (name key : String) (config config' : Config V) (v : Input V)
      → IsUnknown name
      → find name config ≡ none
      → set_key lit section_from_yaml config key v ≡ ok config'
      → find name config' ≡ none
  set_key-unknown name key config config' v u n e =
      elim (Option-cases (find key (section_classes lit))) [
        | inl f ↦
            set_attribute-unknown name key config config' v u n
              (sym (set_key-other lit config key v f) ∙ e)
        | inr (d, f) ↦
            let (a, g, i) =
              bind-ok (section_from_yaml d v) _ (sym (set_key-section lit config key v d f) ∙ e) in
            subst (λ c. find name c ≡ none) (ok-injective i)
              (sym (find_off key name a config (other_key name key u f)) ∙ n)
      ]

  set_keys-unknown :
      (name : String) (config config' : Config V) (items : Dict String (Input V))
      → IsUnknown name
      → find name config ≡ none
      → set_keys lit section_from_yaml config items ≡ ok config'
      → find name config' ≡ none
  unfolding set_keys
  set_keys-unknown name config config' [] u n e = subst (λ c. find name c ≡ none) (ok-injective e) n
  set_keys-unknown name config config' ((key, v) ∷ items) u n e =
      let (next, f, g) = bind-ok (set_key lit section_from_yaml config key v) _ e in
      set_keys-unknown name next config' items u (set_key-unknown name key config next v u n f) g

  -- A name that is no attribute of the class is none of the configuration that `from_yaml` gives, even
  -- where the input has it as a key: unknown keys are ignored.
  pub from_yaml-unknown :
      (name : String) (items : Dict String (Input V)) (config : Config V)
      → IsUnknown name
      → from_yaml lit items ≡ ok config
      → find name config ≡ none
  unfolding from_yaml
  from_yaml-unknown name items config u e =
      set_keys-unknown name (default_config lit) config items u u.3 e
