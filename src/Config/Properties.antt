-- ===== src/Config/Properties.antt =====
-- The properties of src/dakv/config.py, after `from_yaml`.
use awarekv.Prelude.{
  String, true, Bool-cases, Option, none, some, Option-cases, inl, inr, [], ◌∷◌, ◌≡◌, refl, sym, ap,
  ◌∙◌, subst, arith, ◌==◌, ==_iff, string_eq, ok,
}
use awarekv.Dict.{Dict, find, contains}
use awarekv.Dict.Laws.{contains-find, option_map}
use awarekv.Config.{
  Literals, Input, Attribute, section, value, Config, section_classes, fields, all_fields,
  all_sections, properties, default_config, read_field, read_property, from_yaml,
}
use awarekv.Config.Sections.{none≢some, IsSection, Sectioned, set_keys-Sectioned}

module _ {V : Type 0} where
  find-all_sections :
      (name : String) (ds : Dict String (Dict String V))
      → find name (all_sections ds) ≡ option_map section (find name ds)
  unfolding find
  find-all_sections name [] = refl
  find-all_sections name ((k, d) ∷ ds) = ground (arith, find-all_sections name ds)

  find-all_fields :
      (name : String) (fs : Dict String V) (rest : Config V)
      → find name fs ≡ none
      → find name (all_fields fs rest) ≡ find name rest
  unfolding find
  find-all_fields name [] rest h = refl
  find-all_fields name ((k, v) ∷ fs) rest h = ground (arith, find-all_fields name fs rest)

  abbrev NoFields : Dict String (Dict String V) → Dict String V → Type 0
  NoFields [] fs = Unit
  NoFields ((k, d) ∷ ds) fs = (find k fs ≡ none) × NoFields ds fs

  not_field :
      (name : String) (ds : Dict String (Dict String V)) (fs : Dict String V) {d : Dict String V}
      → NoFields ds fs
      → find name ds ≡ some d
      → find name fs ≡ none
  unfolding find
  not_field name [] fs h e = absurd (none≢some e)
  not_field name ((k, d) ∷ ds) fs h e = elim (Bool-cases (k == name)) [
    | inl f ↦ subst (λ n. find n fs ≡ none) ((==_iff k name).0 f) h.0
    | inr f ↦ not_field name ds fs h.1 (rw f at e)
  ]

  default_config-Sectioned : (lit : Literals V) → Sectioned lit (default_config lit)
  unfolding find
  default_config-Sectioned lit name defaults e =
      subst (λ o. IsSection o defaults)
        (sym (
          find-all_fields name (fields lit) (all_sections (section_classes lit)) (
            not_field name (section_classes lit) (fields lit)
              (refl, (refl, (refl, (refl, (refl, (refl, (refl, tt))))))) e)
          ∙ find-all_sections name (section_classes lit)
          ∙ ap (option_map section) e))
        (λ j. refl)

  -- Every property reads a field that its section's class has.
  abbrev HaveFields : Dict String (Dict String V) → Dict String (String × String) → Type 0
  HaveFields ds [] = Unit
  HaveFields ds ((name, (s, field)) ∷ ps) =
      ((d : Dict String V) × (find s ds ≡ some d) × (contains field d ≡ true)) × HaveFields ds ps

  read_field-value :
      (lit : Literals V) (config : Config V) (s field : String) (d : Dict String V)
      → Sectioned lit config
      → find s (section_classes lit) ≡ some d
      → contains field d ≡ true
      → (v : V) × (read_field config s field ≡ ok v)
  unfolding read_field
  read_field-value lit config s field d h e c = go (find s config) refl (h s d e)
    where
      go :
          (o : Option (Attribute V))
          → find s config ≡ o
          → IsSection o d
          → (v : V) × (read_field config s field ≡ ok v)
      go none p i = elim i [ ]
      go (some (value v)) p i = elim i [ ]
      go (some (section d')) p i = elim (Option-cases (find field d')) [
        | inl f ↦ absurd (ground (arith, contains-find field d', i field))
        | inr (v, f) ↦ (v, rw (read_field, p, f) refl)
      ]

  property-value :
      (lit : Literals V) (config : Config V) (name : String) (ps : Dict String (String × String))
      → Sectioned lit config
      → HaveFields (section_classes lit) ps
      → contains name ps ≡ true
      → (s : String) × (field : String) × (v : V) × (find name ps ≡ some (s, field))
        × (read_field config s field ≡ ok v)
  unfolding find contains
  property-value lit config name [] h g e = absurd (ground arith)
  property-value lit config name ((k, (s, field)) ∷ ps) h g e = elim (Bool-cases (k == name)) [
    | inl f ↦
        let (d, i, c) = g.0 in
        let (v, r) = read_field-value lit config s field d h i c in (s, field, v, rw f refl, r)
    | inr f ↦
        let (s', field', v, i, r) = property-value lit config name ps h g.1 (rw f at e) in
        (s', field', v, rw f i, r)
  ]

  all_properties : (lit : Literals V) → HaveFields (section_classes lit) properties
  unfolding find contains
  all_properties lit = (
    (_, refl, refl),
    (
      (_, refl, refl),
      (
        (_, refl, refl),
        ((_, refl, refl), ((_, refl, refl), ((_, refl, refl), ((_, refl, refl), tt)))),
      ),
    ),
  )

  -- Where `from_yaml` succeeds every property has a value.
  pub read_property-from_yaml :
      (lit : Literals V) (items : Dict String (Input V)) (config : Config V) (name : String)
      → from_yaml lit items ≡ ok config
      → contains name properties ≡ true
      → (v : V) × (read_property config name ≡ ok v)
  unfolding from_yaml
  read_property-from_yaml lit items config name e p =
      let h =
        set_keys-Sectioned lit (default_config lit) items config (default_config-Sectioned lit) e in
      let (s, field, v, f, r) =
        property-value lit config name properties h (all_properties lit) p in
      (v, rw (read_property, f) r)
