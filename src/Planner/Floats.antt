-- ===== src/Planner/Floats.antt =====
-- The floats that the planner computes with, as an interface: Python's own are not modelled.
use awarekv.Prelude.{ℕ, ◌*◌, ◌≤◌, ◌≡◌, Bool, true, false, not, Result, ok}

pub record Floats : Type 1 where
  pub F : Type 0
  pub of_nat : ℕ → F
  pub add : F → F → F
  pub sub : F → F → F
  pub mul : F → F → F
  -- division raises at zero
  pub div : F → F → Result F
  pub lt : F → F → Bool
  pub ge : F → F → Bool
  pub is_nan : F → Bool
  -- `int(x)` of a value that is not negative
  pub trunc : F → ℕ
  -- the literals 0.3, 0.0, 1.0, 1e9 and 10.0
  pub three_tenths : F
  pub default_bps : F
  pub default_rtt : F

-- What IEEE comparisons promise: `>=` is the negation of `<` for two values that are not NaN, and over
-- a bandwidth above zero an estimate does not fall when the byte count grows.
pub record FloatLaws (f : Floats) : Type 0 where
  pub ge-not_lt : (a b : f.F) → f.is_nan a ≡ false → f.is_nan b ≡ false → f.ge a b ≡ not (f.lt a b)
  pub estimate_mono :
      (rtt bps b x y : f.F) (m n : ℕ)
      → f.lt (f.of_nat 0) bps ≡ true
      → m ≤ n
      → f.div (f.mul (f.of_nat (m * 8)) (f.of_nat 1000)) bps ≡ ok x
      → f.div (f.mul (f.of_nat (n * 8)) (f.of_nat 1000)) bps ≡ ok y
      → f.lt (f.add rtt y) b ≡ true
      → f.lt (f.add rtt x) b ≡ true
