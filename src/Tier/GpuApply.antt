-- ===== src/Tier/GpuApply.antt =====
-- src/dakv/tier/gpu_apply.py. What was written before an exception stays written, so the cache comes
-- back beside the result.
use awarekv.Prelude.{
  ◌≤◌, ◌≡◌, refl, arith, Bool, true, false, Option, none, some, List, [], ◌∷◌, ◌++◌, ◌∙◌, ℤ, pos,
  negsuc, if◌then◌else◌, ltb, length, Result, ok, raise, index_error,
}
use awarekv.Tier.Rows.{write_at, write_rows, length-write_at}

module _ {ℓ} {A : Type ℓ} where
  -- `apply_kv_to_cache`
  unfoldable pub apply_kv_to_cache : List A → List A → Option (List ℤ) → List A
  apply_kv_to_cache kv cache none = cache
  apply_kv_to_cache kv cache (some []) = cache
  apply_kv_to_cache kv cache (some (s ∷ ss)) = write_rows (s ∷ ss) kv cache

  unfoldable pub in_range : ℤ → List A → Bool
  in_range (pos i) cache = ltb i (length cache)
  in_range (negsuc i) cache = false

  -- the loop of `apply_critical_kv` and `apply_refinement_kv`, on the rows from index `i` on:
  -- `decoded_kv[i]` raises where there is no such row
  unfoldable pub write_blocks : List A → List ℤ → List A → Result (Unit {0}) × List A
  unfolding in_range
  write_blocks rows [] cache = (ok tt, cache)
  write_blocks [] (b ∷ bs) cache =
      let rest = write_blocks [] bs cache in
      if in_range b cache then (raise index_error, cache) else rest
  write_blocks (r ∷ rs) (b ∷ bs) cache = write_blocks rs bs (write_at b r cache)

  unfoldable pub apply_critical_kv : List A → List A → List ℤ → Result (Unit {0}) × List A
  unfolding write_blocks
  apply_critical_kv decoded_kv kv_cache block_ids = write_blocks decoded_kv block_ids kv_cache

  unfoldable pub apply_refinement_kv : List A → List A → List ℤ → Result (Unit {0}) × List A
  unfolding write_blocks
  apply_refinement_kv refined_kv kv_cache block_ids = write_blocks refined_kv block_ids kv_cache

  write_blocks_lem :
      (rows : List A) (bs : List ℤ) (cache : List A)
      → length bs ≤ length rows
      → write_blocks rows bs cache ≡ (ok tt, write_rows bs rows cache)
  unfolding write_blocks write_rows
  write_blocks_lem rows [] cache h = refl
  write_blocks_lem [] (b ∷ bs) cache h = absurd (omega arith)
  write_blocks_lem (r ∷ rs) (b ∷ bs) cache h =
      write_blocks_lem rs bs (write_at b r cache) (omega arith)

  in_range-write_at :
      (b s : ℤ) (r : A) (cache : List A) → in_range b (write_at s r cache) ≡ in_range b cache
  unfolding in_range
  in_range-write_at (pos i) s r cache = rw (length-write_at s r cache)
  in_range-write_at (negsuc i) s r cache = refl

  -- With a row for every block, applying the critical tensor does not raise, and writes what the
  -- slot-wise application of the same rows would write.
  pub apply_critical_kv-eq-apply_kv :
      (kv cache : List A) (bs : List ℤ)
      → length bs ≤ length kv
      → apply_critical_kv kv cache bs ≡ (ok tt, apply_kv_to_cache kv cache (some bs))
  unfolding apply_critical_kv apply_kv_to_cache write_rows
  apply_critical_kv-eq-apply_kv kv cache [] h = refl
  apply_critical_kv-eq-apply_kv kv cache (b ∷ bs) h = write_blocks_lem kv (b ∷ bs) cache h

  -- Too few rows are an error only where a block without a row is in range, and what the rows
  -- gave was written before it: the cache is that of the rows alone.
  pub apply_critical_kv_short :
      (kv cache : List A) (bs : List ℤ) (b : ℤ) (rest : List ℤ)
      → length bs ≡ length kv
      → in_range b cache ≡ true
      → apply_critical_kv kv cache (bs ++ b ∷ rest) ≡ (raise index_error, write_rows bs kv cache)
  unfolding apply_critical_kv write_blocks write_rows
  apply_critical_kv_short [] cache [] b rest e h = rw h
  apply_critical_kv_short [] cache (x ∷ bs) b rest e h = absurd (omega arith)
  apply_critical_kv_short (r ∷ kv) cache [] b rest e h = absurd (omega arith)
  apply_critical_kv_short (r ∷ kv) cache (x ∷ bs) b rest e h =
      apply_critical_kv_short kv (write_at x r cache) bs b rest (omega arith)
        (in_range-write_at b x r cache ∙ h)
