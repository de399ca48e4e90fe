-- ===== src/Config.antt =====
-- src/dakv/config.py: the configuration, as it is filled from a YAML file or a dictionary. The values
-- are a parameter, with the literals that the defaults are written with; a section is the dictionary of
-- its fields. The attributes that Python gives to every object are left out.

pub mod Sections
pub mod Properties
pub mod Agree
pub mod Unknown
use awarekv.Prelude.{
  ℕ, String, Bool, true, false, ◌||◌, ◌==◌, Option, none, some, List, [], ◌∷◌, if◌then◌else◌,
  string_eq, Result, ok, raise, type_error, attribute_error, ◌>>=◌,
}
use awarekv.Dict.{Dict, find, contains, insert}

-- The values that Python's literals stand for.
pub record Literals (V : Type 0) : Type 0 where
  pub text : String → V
  pub int : ℕ → V
  pub truth : Bool → V
  -- a float, as it is written
  pub real : String → V

-- A value of the input: a dictionary, or anything else.
pub data Input (V : Type 0) : Type 0 where
  mapping : Dict String V → Input V
  plain : V → Input V

-- An attribute of the configuration: an instance of a section's class, or a value of the input.
pub data Attribute (V : Type 0) : Type 0 where
  section : Dict String V → Attribute V
  value : Input V → Attribute V

abbrev pub Config : Type 0 → Type 0
Config V = Dict String (Attribute V)

module _ {V : Type 0} (lit : Literals V) where
  -- the classes of the sections: their fields with the defaults
  abbrev pub manifest_class : Dict String V
  manifest_class =
      ("host", lit.text "127.0.0.1")
      ∷ ("port", lit.int 8081)
      ∷ ("url", lit.text "http://127.0.0.1:8081")
      ∷ []

  abbrev pub data_class : Dict String V
  data_class = ("host", lit.text "127.0.0.1") ∷ ("port", lit.int 9001) ∷ []

  abbrev pub storage_class : Dict String V
  storage_class =
      ("root_dir", lit.text "/tmp/dakv_store")
      ∷ ("max_objects", lit.int 1000)
      ∷ ("ttl_seconds", lit.int 3600)
      ∷ []

  abbrev pub network_class : Dict String V
  network_class =
      ("timeout_ms", lit.int 1000)
      ∷ ("refine_timeout_ms", lit.int 150)
      ∷ ("enable_simulation", lit.truth false)
      ∷ ("bandwidth_mbps", lit.int 1000)
      ∷ ("rtt_ms", lit.int 10)
      ∷ ("loss_percent", lit.real "0.0")
      ∷ []

  abbrev pub host_cache_class : Dict String V
  host_cache_class = ("max_bytes", lit.int 4294967296) ∷ ("eviction_policy", lit.text "lru") ∷ []

  abbrev pub planner_class : Dict String V
  planner_class =
      ("policy", lit.text "rule_based")
      ∷ ("alpha", lit.real "0.8")
      ∷ ("min_prefix_tokens", lit.int 128)
      ∷ []

  abbrev pub metrics_class : Dict String V
  metrics_class =
      ("enable_prometheus", lit.truth true)
      ∷ ("prometheus_port", lit.int 9090)
      ∷ ("log_level", lit.text "INFO")
      ∷ []

  -- the names of the sections with their classes
  abbrev pub section_classes : Dict String (Dict String V)
  section_classes =
      ("manifest", manifest_class)
      ∷ ("data", data_class)
      ∷ ("storage", storage_class)
      ∷ ("network", network_class)
      ∷ ("host_cache", host_cache_class)
      ∷ ("planner", planner_class)
      ∷ ("metrics", metrics_class)
      ∷ []

  -- the other fields of `DeadlineKVConfig`
  abbrev pub fields : Dict String V
  fields =
      ("model_id", lit.text "meta-llama/Llama-2-7b-hf")
      ∷ ("tokenizer_id", lit.text "meta-llama/Llama-2-7b-hf")
      ∷ ("kv_layout_version", lit.text "v1-block-first")
      ∷ ("block_size", lit.int 16)
      ∷ ("cache_dtype", lit.text "float16")
      ∷ ("num_layers", lit.int 32)
      ∷ ("ttft_slo_ms", lit.int 500)
      ∷ ("tp_size", lit.int 1)
      ∷ ("enable_tier1_host_cache", lit.truth true)
      ∷ ("enable_refinement", lit.truth true)
      ∷ ("critical_codec", lit.text "int8_symm")
      ∷ ("refinement_codec", lit.text "fp16_raw")
      ∷ []

-- the properties, each with the section and the field that it reads
abbrev pub properties : Dict String (String × String)
properties =
    ("manifest_url", ("manifest", "url"))
    ∷ ("data_host", ("data", "host"))
    ∷ ("data_port", ("data", "port"))
    ∷ ("network_timeout_ms", ("network", "timeout_ms"))
    ∷ ("refine_timeout_ms", ("network", "refine_timeout_ms"))
    ∷ ("max_host_cache_bytes", ("host_cache", "max_bytes"))
    ∷ ("planner_policy", ("planner", "policy"))
    ∷ []

module _ {V : Type 0} where
  abbrev pub all_fields : Dict String V → Config V → Config V
  all_fields [] rest = rest
  all_fields ((k, v) ∷ d) rest = (k, value (plain v)) ∷ all_fields d rest

  abbrev pub all_sections : Dict String (Dict String V) → Config V
  all_sections [] = []
  all_sections ((k, d) ∷ ds) = (k, section d) ∷ all_sections ds

  -- `DeadlineKVConfig()`
  abbrev pub default_config : Literals V → Config V
  default_config lit = all_fields (fields lit) (all_sections (section_classes lit))

  -- the call of a section's class with keywords, over the fields that are set so far
  unfoldable pub with_keywords : Dict String V → Dict String V → Result (Dict String V)
  with_keywords fields_so_far [] = ok fields_so_far
  with_keywords fields_so_far ((k, v) ∷ kwargs) =
      let rest = with_keywords (insert k v fields_so_far) kwargs in
      if contains k fields_so_far then rest else raise type_error

  -- ManifestConfig(**value), and the same for the other classes
  unfoldable pub section_from_yaml : Dict String V → Input V → Result (Attribute V)
  unfolding with_keywords
  section_from_yaml defaults (mapping kwargs) = do d ← with_keywords defaults kwargs; ok (section d)
  section_from_yaml defaults (plain v) = raise type_error

  -- ManifestConfig(**value) if isinstance(value, dict) else value
  unfoldable pub section_from_dict : Dict String V → Input V → Result (Attribute V)
  unfolding with_keywords
  section_from_dict defaults (mapping kwargs) = do d ← with_keywords defaults kwargs; ok (section d)
  section_from_dict defaults (plain v) = ok (value (plain v))

  -- self.<section>.<field>; a value that is no section has no such attribute
  unfoldable pub read_field : Config V → String → String → Result V
  read_field config name field = elim (find name config) [
    | none ↦ raise attribute_error
    | some (value v) ↦ raise attribute_error
    | some (section d) ↦ elim (find field d) [ none ↦ raise attribute_error | some v ↦ ok v ]
  ]

  -- the getter of a property
  unfoldable pub read_property : Config V → String → Result V
  unfolding read_field
  read_property config name = elim (find name properties) [
    | none ↦ raise attribute_error
    | some (s, field) ↦ read_field config s field
  ]

  -- `elif hasattr(config, key): setattr(config, key, value)`: a property has no setter, and one whose
  -- getter raises is no attribute
  unfoldable pub set_attribute : Config V → String → Input V → Result (Config V)
  unfolding read_property
  set_attribute config key v =
      if contains key properties
      then elim (read_property config key) [ ok x ↦ raise attribute_error | raise e ↦ ok config ]
      else if contains key config
      then ok (insert key (value v) config)
      else if key == "from_yaml" || key == "from_dict"
      then ok (insert key (value v) config)
      else ok config

  module _ (lit : Literals V) (make : Dict String V → Input V → Result (Attribute V)) where
    -- one round of the loop
    unfoldable pub set_key : Config V → String → Input V → Result (Config V)
    unfolding set_attribute
    set_key config key v = elim (find key (section_classes lit)) [
      | none ↦ set_attribute config key v
      | some defaults ↦ do s ← make defaults v; ok (insert key s config)
    ]

    unfoldable pub set_keys : Config V → Dict String (Input V) → Result (Config V)
    unfolding set_key
    set_keys config [] = ok config
    set_keys config ((key, v) ∷ items) = do next ← set_key config key v; set_keys next items

  -- `from_yaml`, on the dictionary that `yaml.safe_load` gives
  unfoldable pub from_yaml : Literals V → Dict String (Input V) → Result (Config V)
  unfolding set_keys section_from_yaml
  from_yaml lit items = set_keys lit section_from_yaml (default_config lit) items

  -- config.<name> = <class>(**value) if isinstance(value, dict) else value
  unfoldable pub dict_section : Config V → String → Dict String V → Input V → Result (Config V)
  unfolding section_from_dict
  dict_section config name defaults v = do
    s ← section_from_dict defaults v
    ok (insert name s config)

  -- one round of the loop of `from_dict`, which has a chain of its own
  unfoldable pub dict_key : Literals V → Config V → String → Input V → Result (Config V)
  unfolding dict_section set_attribute
  dict_key lit config key v =
      if key == "manifest"
      then dict_section config "manifest" (manifest_class lit) v
      else if key == "data"
      then dict_section config "data" (data_class lit) v
      else if key == "storage"
      then dict_section config "storage" (storage_class lit) v
      else if key == "network"
      then dict_section config "network" (network_class lit) v
      else if key == "host_cache"
      then dict_section config "host_cache" (host_cache_class lit) v
      else if key == "planner"
      then dict_section config "planner" (planner_class lit) v
      else if key == "metrics"
      then dict_section config "metrics" (metrics_class lit) v
      else set_attribute config key v

  unfoldable pub dict_keys : Literals V → Config V → Dict String (Input V) → Result (Config V)
  unfolding dict_key
  dict_keys lit config [] = ok config
  dict_keys lit config ((key, v) ∷ items) = do
    next ← dict_key lit config key v
    dict_keys lit next items

  unfoldable pub from_dict : Literals V → Dict String (Input V) → Result (Config V)
  unfolding dict_keys
  from_dict lit items = dict_keys lit (default_config lit) items
