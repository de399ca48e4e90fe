-- ===== src/Bench/Client.antt =====
-- `VLLMClient.generate` of src/dakv/bench/client.py and `BenchmarkClient.generate` of
-- src/scripts/run_bench.py, on what `requests.post` gives. The measured time is an argument.
use awarekv.Prelude.{
  ℕ, String, Option, none, some, not, nat_eqb, if◌then◌else◌, Result, ok, raise, Error, ◌>>=◌,
}

-- a response with its status and what its body is parsed to, or an exception
pub data Reply (J : Type 0) : Type 0 where
  responded : (status : ℕ) → Result J → Reply J
  refused : Error → Reply J

-- the dictionaries that `VLLMClient.generate` returns
pub data Generated (F J : Type 0) : Type 0 where
  success : (latency_ms : F) → (response : J) → Generated F J
  failure : (message : String) → Generated F J

module _ {F J : Type 0} where
  -- `VLLMClient.generate`, which catches its exceptions; `text` is `str(e)`
  unfoldable pub generate : (Error → String) → F → Reply J → Option (Generated F J)
  generate text elapsed (refused e) = some (failure (text e))
  generate text elapsed (responded status body) =
      if not (nat_eqb status 200)
      then none
      else elim body [ raise e ↦ some (failure (text e)) | ok j ↦ some (success elapsed j) ]

  -- the latency, if result and result.get("success")
  unfoldable pub latency_of : Option (Generated F J) → Option F
  latency_of none = none
  latency_of (some (failure message)) = none
  latency_of (some (success latency j)) = some latency

  -- `BenchmarkClient.generate`, which does not
  unfoldable pub generate_or_raise : F → Reply J → Result (Option (F × J))
  generate_or_raise elapsed (refused e) = raise e
  generate_or_raise elapsed (responded status body) =
      if not (nat_eqb status 200) then ok none else body >>= λ j. ok (some (elapsed, j))
