-- ===== src/Tier/Placement.antt =====
-- `PlacementPolicy` of src/dakv/tier/placement.py.
use awarekv.Prelude.{ℕ, Bool, ◌&&◌, if◌then◌else◌, ltb}
use awarekv.Common.Types.{Tier, t1_host, t2_remote}

unfoldable pub should_cache_to_t1 : ℕ → ℕ → Bool
should_cache_to_t1 object_size available_space = ltb object_size available_space

unfoldable pub select_tier : Bool → Bool → Bool → Tier
select_tier have_t1_cache t1_hit t2_available =
    if have_t1_cache && t1_hit then t1_host else if t2_available then t2_remote else t2_remote
