-- ===== src/Connector/Publish.antt =====
-- What `KVSaver` of src/dakv/connector/saver.py reads and sends: its configuration, the network that it
-- calls, and `_update_manifest`. `S` is the state of the network.
use awarekv.Prelude.{
  ℕ, zero, suc, String, Bool, false, Option, none, some, if◌then◌else◌, nat_eqb, length, truthy,
}
use awarekv.Transport.Struct.{Bytes}

-- The attributes of the configuration that are read; the last two may be missing.
pub record SaverConfig : Type 0 where
  pub critical_codec : String
  pub refinement_codec : String
  pub enable_refinement : Bool
  pub model_id : String
  pub kv_layout_version : String
  pub block_size : ℕ
  pub cache_dtype : String
  pub tokenizer_id : Option String
  pub object_format_version : Option ℕ

-- The body of the request to `/manifest/put`; the fields `ttl_s` and `checksum` are constants.
pub record ManifestPayload : Type 0 where
  pub prefix_key : String
  pub model_id : String
  pub tokenizer_id : String
  pub kv_layout_version : String
  pub object_format_version : ℕ
  pub block_size : ℕ
  pub cache_dtype : String
  pub matched_tokens : ℕ
  pub matched_blocks : ℕ
  pub num_layers : ℕ
  pub critical_codec : String
  pub critical_nbytes : ℕ
  pub critical_object_id : String
  pub refinement_codec : Option String
  pub refinement_nbytes : Option ℕ
  pub refinement_object_id : Option String
  pub quality_mode : String
  pub request_id : String

-- what became of the request: a time-out, another exception, or an answer with its status code
pub data Reply : Type 0 where
  timed_out failed_to_send : Reply
  answered : ℕ → Reply

-- The arguments of `save_prefix_kv` that the helpers get as well.
pub record SaveRequest : Type 0 where
  pub prefix_key : String
  pub matched_tokens : ℕ
  pub matched_blocks : ℕ
  pub num_layers : ℕ
  pub request_id : String

-- The network: the two methods of the data client, each with the id, the object and the codec, and the request to the manifest.
pub record Network (S : Type 0) : Type 0 where
  pub put_critical : String → Bytes → String → S → Bool × S
  pub put_refinement : String → Bytes → String → S → Bool × S
  pub post : ManifestPayload → S → Reply × S

-- `requests.post` and the test of the status
abbrev pub accepted : Reply → Bool
accepted timed_out = false
accepted failed_to_send = false
accepted (answered code) = nat_eqb code 200

-- getattr(self.config, "tokenizer_id", self.config.model_id)
abbrev pub tokenizer_or_model : SaverConfig → String
tokenizer_or_model c = elim c.tokenizer_id [ none ↦ c.model_id | some t ↦ t ]

-- nbytes if nbytes > 0 else None
abbrev pub positive : ℕ → Option ℕ
positive zero = none
positive (suc n) = some (suc n)

-- An object that is ready to be stored.
pub record Encoded : Type 0 where
  pub object_id : String
  pub object : Bytes
  pub codec_name : String

-- what `_save_refinement_tier` answers of an object that was stored
pub record Stored : Type 0 where
  pub stored_id : String
  pub nbytes : ℕ
  pub stored_codec : String

abbrev pub stored_of : Encoded → Stored
stored_of x = record {
  stored_id = x.object_id;
  nbytes = length x.object;
  stored_codec = x.codec_name;
}

-- refinement_object_id, refinement_codec and the size, or `None`
abbrev stored_id? : Option Stored → Option String
stored_id? none = none
stored_id? (some x) = some x.stored_id

abbrev stored_codec? : Option Stored → Option String
stored_codec? none = none
stored_codec? (some x) = some x.stored_codec

abbrev stored_nbytes? : Option Stored → Option ℕ
stored_nbytes? none = none
stored_nbytes? (some x) = positive x.nbytes

-- the payload of `_update_manifest`
unfoldable pub payload_of :
    SaverConfig → SaveRequest → ℕ → String → ℕ → Option Stored → ManifestPayload
payload_of c r version oid nbytes saved = record {
  prefix_key = r.prefix_key;
  model_id = c.model_id;
  tokenizer_id = tokenizer_or_model c;
  kv_layout_version = c.kv_layout_version;
  object_format_version = version;
  block_size = c.block_size;
  cache_dtype = c.cache_dtype;
  matched_tokens = r.matched_tokens;
  matched_blocks = r.matched_blocks;
  num_layers = r.num_layers;
  critical_codec = c.critical_codec;
  critical_nbytes = nbytes;
  critical_object_id = oid;
  refinement_codec = stored_codec? saved;
  refinement_nbytes = stored_nbytes? saved;
  refinement_object_id = stored_id? saved;
  quality_mode = if truthy (stored_id? saved) then "int8+fp16" else "int8_only";
  request_id = r.request_id;
}

-- `_update_manifest`: every exception gives the answer `False`
unfoldable pub update_manifest :
    {S : Type 0} → Network S → SaverConfig → SaveRequest → String → ℕ → Option Stored → S → Bool × S
unfolding payload_of
update_manifest net c r oid nbytes saved s = elim c.object_format_version [
  | none ↦ (false, s)
  | some version ↦
      let answer = net.post (payload_of c r version oid nbytes saved) s in
      (accepted answer.0, answer.1)
]
