-- ===== src/Connector/Saver.antt =====
-- `KVSaver` of src/dakv/connector/saver.py: the objects of one prefix are encoded and stored, and the
-- manifest is updated. SHA-256, the codecs, the format of a
-- version and the network calls are parameters; `S` is the state of the network.

pub mod Refused
use awarekv.Prelude.{
  ℕ, zero, suc, ◌+◌, ◌*◌, String, Bool, true, false, ◌&&◌, Option, none, some, List, [], ◌∷◌,
  if◌then◌else◌, nat_eqb, ltb, length, truthy, Result, ok, raise, ◌>>=◌,
}
use awarekv.Dict.{Dict}
use awarekv.Common.Calls.{object_id_signature, call, attribute}
use awarekv.Common.Hashing.{compute_object_id}
use awarekv.Transport.Struct.{Bytes}
use awarekv.Transport.Channels.{critical_store, refine_store}
use awarekv.Codec.{Codec, get_codec, encode_all}
use awarekv.Connector.Publish.{
  SaverConfig, SaveRequest, ManifestPayload, Network, Encoded, Stored, stored_of, update_manifest,
}
use awarekv.Connector.Object.{ObjectHeader, make_header, build_object_with_header}

-- the names in the calls of `compute_object_id`
abbrev pub object_id_names : List String
object_id_names = "prefix_key" ∷ "tier" ∷ "codec_name" ∷ "object_format_version" ∷ []

-- `_build_object_header`
unfoldable pub build_object_header : SaverConfig → SaveRequest → Result ObjectHeader
unfolding make_header
build_object_header c r = do
  version ← attribute c.object_format_version
  make_header (record {
    object_format_version = version;
    num_layers = r.num_layers;
    matched_tokens = r.matched_tokens;
    matched_blocks = r.matched_blocks;
    block_size = c.block_size;
  })

-- what follows a call that may raise, in the state that the call left
abbrev pub and_then : {A B S : Type 0} → Result A × S → (A → S → Result B × S) → Result B × S
and_then (raise e, s) k = (raise e, s)
and_then (ok a, s) k = k a s

module _ (sha256_hex : String → String) (show : ℕ → String) where
  -- the calls of `compute_object_id`
  unfoldable pub object_id_of : SaverConfig → SaveRequest → String → String → Result String
  unfolding call compute_object_id
  object_id_of c r tier codec_name = do
    version ← attribute c.object_format_version
    call object_id_signature object_id_names
        (compute_object_id sha256_hex r.prefix_key tier codec_name (show version))

-- the arguments that the helpers get
abbrev pub request_of : {T : Type 0} → String → List T → ℕ → ℕ → String → SaveRequest
request_of key tensors tokens blocks rid = record {
  prefix_key = key;
  matched_tokens = tokens;
  matched_blocks = blocks;
  num_layers = length tensors;
  request_id = rid;
}

module _ {T : Type 0} where
  -- `_estimate_critical_size`
  unfoldable pub estimate_critical_size : Dict String (Codec T) → SaverConfig → List T → Result ℕ
  unfolding get_codec
  estimate_critical_size registry c tensors = do
    codec ← get_codec registry c.critical_codec
    elim tensors [
      | [] ↦ ok 0
      | t ∷ ts ↦ do sample ← codec.encode t; ok (length sample.content * length (t ∷ ts) + 128)
    ]

module _ {T S : Type 0} (sha256_hex : String → String) (show : ℕ → String) (net : Network S)
    (registry : Dict String (Codec T)) (c : SaverConfig) where
  -- the steps that both tiers share
  unfoldable pub encode_object : SaveRequest → String → String → List T → Result Encoded
  unfolding get_codec encode_all build_object_header build_object_with_header object_id_of
  encode_object r tier name tensors = do
    codec ← get_codec registry name
    layers ← encode_all codec tensors
    header ← build_object_header c r
    object_bytes ← build_object_with_header header layers
    oid ← object_id_of sha256_hex show c r tier codec.name
    ok (record { object_id = oid; object = object_bytes; codec_name = codec.name })

  -- `_save_critical_tier`
  unfoldable pub save_critical_tier : SaveRequest → List T → S → Result Bool × S
  unfolding encode_object critical_store
  save_critical_tier r tensors s = elim (encode_object r "critical" c.critical_codec tensors) [
    | raise e ↦ (raise e, s)
    | ok x ↦
        let answer = net.put_critical x.object_id x.object x.codec_name s in
        (ok (critical_store answer.0), answer.1)
  ]

  -- `_save_refinement_tier`
  unfoldable pub save_refinement_tier : SaveRequest → List T → S → Result (Option Stored) × S
  unfolding encode_object refine_store
  save_refinement_tier r tensors s =
      elim (encode_object r "refinement" c.refinement_codec tensors) [
        | raise e ↦ (raise e, s)
        | ok x ↦
            let answer = net.put_refinement x.object_id x.object x.codec_name s in
            (ok (if refine_store answer.0 then some (stored_of x) else none), answer.1)
      ]

  -- the end of `save_prefix_kv`, once the refinement is dealt with
  unfoldable pub finish_save : SaveRequest → List T → Option Stored → S → Result Bool × S
  unfolding object_id_of estimate_critical_size update_manifest
  finish_save r tensors saved s =
      elim (object_id_of sha256_hex show c r "critical" c.critical_codec) [
        | raise e ↦ (raise e, s)
        | ok oid ↦ elim (estimate_critical_size registry c tensors) [
          | raise e ↦ (raise e, s)
          | ok n ↦ let answer = update_manifest net c r oid n saved s in (ok answer.0, answer.1)
        ]
      ]

  -- the refinement, if it is enabled, and what follows
  unfoldable pub save_rest : SaveRequest → List T → S → Result Bool × S
  unfolding save_refinement_tier finish_save
  save_rest r tensors s =
      if c.enable_refinement
      then and_then (save_refinement_tier r tensors s) (finish_save r tensors)
      else finish_save r tensors none s

  -- what follows the critical object
  unfoldable pub after_critical : SaveRequest → List T → Bool → S → Result Bool × S
  unfolding save_rest
  after_critical r tensors success s = if success then save_rest r tensors s else (ok false, s)

  -- `save_prefix_kv`
  unfoldable pub save_prefix_kv : String → List T → ℕ → ℕ → String → S → Result Bool × S
  unfolding save_critical_tier after_critical
  save_prefix_kv key tensors tokens blocks rid s =
      let r = request_of key tensors tokens blocks rid in
      if nat_eqb (length tensors) 0
      then (ok false, s)
      else and_then (save_critical_tier r tensors s) (after_critical r tensors)
