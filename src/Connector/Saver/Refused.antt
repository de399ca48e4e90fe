-- ===== src/Connector/Saver/Refused.antt =====
-- What `save_prefix_kv` of src/dakv/connector/saver.py does with the classes and functions as they stand.
use awarekv.Prelude.{
  ℕ, String, true, Bool-cases, inl, inr, List, ◌≡◌, ◌≢◌, subst, arith, nat_eqb, length, Result, ok,
  raise, Result-cases, ◌>>=◌, Error,
}
use awarekv.Dict.{Dict}
use awarekv.Common.Calls.{call, accepts, attribute}
use awarekv.Codec.{Codec, get_codec, encode_all}
use awarekv.Connector.Object.{make_header}
use awarekv.Connector.Publish.{Network, SaverConfig, SaveRequest}
use awarekv.Connector.Saver.{
  request_of, build_object_header, encode_object, save_critical_tier, save_prefix_kv,
}

-- The result is an exception.
abbrev Raised : {A : Type 0} → Result A → Type 0
Raised (ok a) = ⊥
Raised (raise e) = Unit

bind-Raised :
    {A B : Type 0} (m : Result A) (k : A → Result B) → ((a : A) → Raised (k a)) → Raised (m >>= k)
bind-Raised (ok a) k h = h a
bind-Raised (raise e) k h = tt

bind-Raised_first : {A B : Type 0} (m : Result A) (k : A → Result B) → Raised m → Raised (m >>= k)
bind-Raised_first (raise e) k h = tt
bind-Raised_first (ok a) k h = elim h [ ]

build_object_header-Raised : (c : SaverConfig) (r : SaveRequest) → Raised (build_object_header c r)
unfolding build_object_header make_header call accepts
build_object_header-Raised c r = bind-Raised (attribute c.object_format_version) _ λ v. tt

module _ {T S : Type 0} (sha256_hex : String → String) (show : ℕ → String) (net : Network S)
    (registry : Dict String (Codec T)) (c : SaverConfig) where
  encode_object-Raised :
      (r : SaveRequest) (tier name : String) (tensors : List T)
      → Raised (encode_object sha256_hex show net registry c r tier name tensors)
  unfolding encode_object
  encode_object-Raised r tier name tensors = bind-Raised (get_codec registry name) _ λ codec.
      bind-Raised (encode_all codec tensors) _
        λ layers. bind-Raised_first (build_object_header c r) _ (build_object_header-Raised c r)

  save_critical_tier-Raised :
      (r : SaveRequest) (tensors : List T) (s : S)
      → (e : Error) × (save_critical_tier sha256_hex show net registry c r tensors s ≡ (raise e, s))
  unfolding save_critical_tier
  save_critical_tier-Raised r tensors s =
      let o = encode_object sha256_hex show net registry c r "critical" c.critical_codec tensors in
      elim (Result-cases o) [
        | inl (x, f) ↦
            elim (subst Raised f (encode_object-Raised r "critical" c.critical_codec tensors)) [ ]
        | inr (e, f) ↦ (e, ground (arith, f))
      ]

  -- With the class and the function as they stand that a save calls, no save answers `True`, and no
  -- request is sent: the state of the network is as before.
  pub save_prefix_kv-refused :
      (key : String) (tensors : List T) (tokens blocks : ℕ) (rid : String) (s : S)
      → (save_prefix_kv sha256_hex show net registry c key tensors tokens blocks rid s).1 ≡ s
        × ((save_prefix_kv sha256_hex show net registry c key tensors tokens blocks rid s).0
            ≢ ok true)
  unfolding save_prefix_kv
  save_prefix_kv-refused key tensors tokens blocks rid s =
      elim (Bool-cases (nat_eqb (length tensors) 0)) [
        | inl f ↦ (ground arith, λ p. ground arith)
        | inr f ↦
            let (e, g) =
              save_critical_tier-Raised (request_of key tensors tokens blocks rid) tensors s in
            (ground arith, λ p. ground arith)
      ]
