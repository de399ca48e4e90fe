-- ===== src/Config/Agree.antt =====
-- `from_dict` and `from_yaml` of src/dakv/config.py on the same input.
use awarekv.Prelude.{
  false, sym, arith, ◌≢◌, ◌==◌, ==_iff, ==_ne, Bool-cases, if◌then◌else◌, String, Option, none,
  some, Option-cases, inl, inr, [], ◌∷◌, ◌≡◌, refl, ap, ◌∙◌, subst, string_eq, Result, ok, raise,
  ◌>>=◌,
}
use awarekv.Dict.{Dict, find, insert}
use awarekv.Config.{
  Literals, manifest_class, data_class, storage_class, network_class, host_cache_class,
  planner_class, metrics_class, Input, mapping, plain, Config, section_classes, default_config,
  section_from_yaml, section_from_dict, set_key, set_keys, set_attribute, dict_section, dict_key,
  dict_keys, from_yaml, from_dict,
}

bind-cong :
    {A B : Type 0} (m : Result A) {k k' : A → Result B}
    → ((a : A) → k a ≡ k' a)
    → (m >>= k) ≡ (m >>= k')
bind-cong (ok a) h = h a
bind-cong (raise e) h = refl

module _ {V : Type 0} (lit : Literals V) where
  -- The value of a section is a dictionary.
  abbrev pub IsMapping : Option (Dict String V) → Input V → Type 0
  IsMapping none v = Unit
  IsMapping (some d) (mapping kwargs) = Unit
  IsMapping (some d) (plain v) = ⊥

  abbrev pub SectionsAreMappings : Dict String (Input V) → Type 0
  SectionsAreMappings [] = Unit
  SectionsAreMappings ((key, v) ∷ items) =
      IsMapping (find key (section_classes lit)) v × SectionsAreMappings items

  -- The value of a key is a dictionary, if the key names a section.
  make-agree :
      (config : Config V) (name : String) (d : Dict String V) (v : Input V)
      → IsMapping (some d) v
      → dict_section config name d v ≡ (section_from_yaml d v >>= λ s. ok (insert name s config))
  unfolding dict_section section_from_dict section_from_yaml
  make-agree config name d (mapping kwargs) h = refl
  make-agree config name d (plain v) h = elim h [ ]

  -- what a round does with the class that the key has in the table, if any
  unfoldable chosen : Config V → String → Input V → Option (Dict String V) → Result (Config V)
  chosen config key v none = set_attribute config key v
  chosen config key v (some defaults) = dict_section config key defaults v

  module _ (config : Config V) (v : Input V) where
    link :
        (name : String) (defaults : Dict String V) (key : String) (o : Option (Dict String V))
        (rest : Result (Config V))
        → rest ≡ chosen config key v o
        → (if key == name then dict_section config name defaults v else rest)
          ≡ chosen config key v (if name == key then some defaults else o)
    unfolding chosen
    link name defaults key o rest e = elim (Bool-cases (key == name)) [
      | inl f ↦
          rw (f, (==_iff name key).1 (sym ((==_iff key name).0 f)))
            (ap (λ n. dict_section config n defaults v) (sym ((==_iff key name).0 f)))
      | inr f ↦ rw (f, ==_ne name key (λ p. differ key name f (sym p))) e
    ]
      where
        differ : (a b : String) → (a == b) ≡ false → a ≢ b
        differ a b n p = ground (arith, ==_iff a b)

    -- The chain of `from_dict` finds the class of the name, as the table does.
    chain :
        (key : String)
        → dict_key lit config key v ≡ chosen config key v (find key (section_classes lit))
    unfolding dict_key find chosen
    chain key =
        (link "manifest" (manifest_class lit) key _ _ (
          link "data" (data_class lit) key _ _ (
            link "storage" (storage_class lit) key _ _ (
              link "network" (network_class lit) key _ _ (
                link "host_cache" (host_cache_class lit) key _ _ (
                  link "planner" (planner_class lit) key _ _
                    (link "metrics" (metrics_class lit) key _ _ refl)))))))

  key-agree :
      (config : Config V) (key : String) (v : Input V)
      → IsMapping (find key (section_classes lit)) v
      → dict_key lit config key v ≡ set_key lit section_from_yaml config key v
  unfolding set_key chosen
  key-agree config key v h = elim (Option-cases (find key (section_classes lit))) [
    | inl e ↦ rw (chain config v key, set_key, e) refl
    | inr (d, e) ↦
        rw (chain config v key, set_key, e)
          (make-agree config key d v (subst (λ o. IsMapping o v) e h))
  ]

  keys-agree :
      (config : Config V) (items : Dict String (Input V))
      → SectionsAreMappings items
      → dict_keys lit config items ≡ set_keys lit section_from_yaml config items
  unfolding dict_keys set_keys
  keys-agree config [] h = refl
  keys-agree config ((key, v) ∷ items) h =
      ap (λ r. r >>= λ next. dict_keys lit next items) (key-agree config key v h.0)
      ∙ bind-cong (set_key lit section_from_yaml config key v) (λ next. keys-agree next items h.1)

  -- Where every section of the input is a dictionary, `from_dict` does what `from_yaml` does.
  pub from_dict-from_yaml :
      (items : Dict String (Input V))
      → SectionsAreMappings items
      → from_dict lit items ≡ from_yaml lit items
  unfolding from_dict from_yaml
  from_dict-from_yaml items h = keys-agree (default_config lit) items h
