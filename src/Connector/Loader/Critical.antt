-- ===== src/Connector/Loader/Critical.antt =====
-- The critical loads of src/dakv/connector/loader.py: their results, and that what
-- src/dakv/codec has encoded is loaded.
use awarekv.Prelude.{
  ◌≡◌, ◌≢◌, refl, arith, String, Bool-cases, inl, inr, ◌⊎◌, Option, none, List, ◌==◌, ==_iff,
  Option-cases, string_eq, ok, raise, runtime_error,
}
use awarekv.Common.Types.{DeadlineConnectorMetadata}
use awarekv.Dict.{Dict}
use awarekv.Transport.Struct.{Bytes}
use awarekv.Transport.Channels.{critical_fetch}
use awarekv.Codec.{Codec}
use awarekv.Connector.Loader.{CriticalLoad, not_loaded, decode_critical, start_critical_load}

module _ {A : Type 0} (registry : Dict String (Codec (List A))) where
  -- A critical load raises exactly when there is an object to load and the client does not answer; else
  -- it has a result.
  pub start_critical_load-raises :
      (md : DeadlineConnectorMetadata) (answer : Option Bytes)
      → ((md.critical_object_id ≢ "")
          × (answer ≡ none)
          × (start_critical_load registry md answer ≡ raise runtime_error))
        ⊎ (((md.critical_object_id ≡ "") ⊎ (answer ≢ none))
            × ((l : CriticalLoad A) × (start_critical_load registry md answer ≡ ok l)))
  unfolding start_critical_load critical_fetch
  start_critical_load-raises md answer = elim (Bool-cases (md.critical_object_id == "")) [
    | inl e ↦ inr (
      inl ((==_iff md.critical_object_id "").0 e),
      (not_loaded, rw (start_critical_load, e) refl),
    )
    | inr e ↦ elim (Option-cases answer) [
      | inl f ↦ inl (
        (λ p. ground (arith, ==_iff md.critical_object_id "")),
        f,
        rw (start_critical_load, e, f) refl,
      )
      | inr (b, f) ↦ inr (
        inr (λ p. ground arith),
        (decode_critical registry md b, rw (start_critical_load, e, f) refl),
      )
    ]
  ]
