-- ===== src/Common/Timer.antt =====
-- `Timer` of src/dakv/common/time_utils.py. A reading of the clock is an argument.
use awarekv.Prelude.{ℕ, ◌-◌, ◌≤◌, ◌<◌, ℤ, pos, negsuc, if◌then◌else◌, nat_eqb, leb, ◌≡◌, arith}

pub record Timer : Type 0 where
  pub start_time : ℕ
  pub end_time : ℕ

unfoldable pub new_timer : Timer
new_timer = record { start_time = 0; end_time = 0 }

unfoldable pub enter : ℕ → Timer → Timer
enter now t = record t { start_time = now }

unfoldable pub leave : ℕ → Timer → Timer
leave now t = record t { end_time = now }

-- a - b; a clock that is set back gives a negative time
abbrev pub difference : ℕ → ℕ → ℤ
difference a b = if leb b a then pos (a - b) else negsuc (b - a - 1)

-- `elapsed_ms`; a timer that was not left yet, whose end is 0, reads the clock
unfoldable pub elapsed_ms : ℕ → Timer → ℤ
elapsed_ms now t =
    if nat_eqb t.end_time 0 then difference now t.start_time else difference t.end_time t.start_time

-- Inside the `with` block the elapsed time runs, and after it stands still. Inside a second block of the
-- same timer the end of the first still counts, and the elapsed time is negative.
pub elapsed_ms-enter :
    (a b c now : ℕ) (t : Timer)
    → 0 < b
    → a ≤ now
    → a ≤ b
    → b < c
    → (elapsed_ms now (enter a new_timer) ≡ pos (now - a))
      × (elapsed_ms now (leave b (enter a new_timer)) ≡ pos (b - a))
      × (elapsed_ms now (enter c (leave b (enter a new_timer))) ≡ negsuc (c - b - 1))
unfolding elapsed_ms enter leave new_timer
elapsed_ms-enter a b c now t p h i j = (ground arith, ground arith, ground arith)
