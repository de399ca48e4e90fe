-- ===== src/Tier/HostCache/Runs.antt =====
-- src/dakv/tier/host_cache.py under the threads that share a cache: the lock puts their calls in a row.
use awarekv.Prelude.{ℕ, ◌≤◌, String, List, [], ◌∷◌, ◌≡◌, refl, ◌∙◌, arith, string_eq}
use awarekv.Dict.{Distinct}
use awarekv.Tier.HostCache
use awarekv.Tier.HostCache.{Tensors, HostCache, new_cache, drop_key, make_room, store, to_host}
use awarekv.Tier.HostCache.Bytes.{
  IsValid, total, new_cache-IsValid, get-IsValid, drop_key-IsValid, put-IsValid,
}
use awarekv.Tier.HostCache.Held.{
  held, AllNoted, held-total, get-AllNoted, drop_key-AllNoted, put-AllNoted,
}

module _ (ts : Tensors) where
  open ts use {Tensor}

  pub data Call : Type 0 where
    gets deletes : String → Call
    puts : String → Tensor → Call
    clears : Call

  unfoldable pub after : Call → HostCache ts → HostCache ts
  unfolding HostCache.get HostCache.put HostCache.delete HostCache.clear
  after (gets key) c = (HostCache.get ts key c).1
  after (deletes key) c = HostCache.delete ts key c
  after (puts key t) c = HostCache.put ts key t c
  after clears c = HostCache.clear ts c

  unfoldable pub run : List Call → HostCache ts → HostCache ts
  unfolding after
  run [] c = c
  run (call ∷ calls) c = run calls (after call c)

  after-IsValid : (call : Call) (c : HostCache ts) → IsValid ts c → IsValid ts (after call c)
  unfolding after HostCache.delete HostCache.clear total
  after-IsValid (gets key) c v = get-IsValid ts key c v
  after-IsValid (deletes key) c v = drop_key-IsValid ts key c v
  after-IsValid (puts key t) c v = put-IsValid ts key t c v
  after-IsValid clears c v = record { counted = refl; within = omega arith; distinct = tt }

  after-AllNoted :
      (call : Call) (c : HostCache ts) → AllNoted ts c.cache → AllNoted ts (after call c).cache
  unfolding after HostCache.delete HostCache.clear
  after-AllNoted (gets key) c h = get-AllNoted ts key c h
  after-AllNoted (deletes key) c h = drop_key-AllNoted ts key c h
  after-AllNoted (puts key t) c h = put-AllNoted ts key t c h
  after-AllNoted clears c h = tt

  run-AllNoted :
      (calls : List Call) (c : HostCache ts) → AllNoted ts c.cache → AllNoted ts (run calls c).cache
  unfolding run
  run-AllNoted [] c h = h
  run-AllNoted (call ∷ calls) c h = run-AllNoted calls (after call c) (after-AllNoted call c h)

  drop_key-max_bytes :
      (key : String) (c : HostCache ts) → (drop_key ts key c).max_bytes ≡ c.max_bytes
  unfolding drop_key
  drop_key-max_bytes key c = ground arith

  after-max_bytes : (call : Call) (c : HostCache ts) → (after call c).max_bytes ≡ c.max_bytes
  unfolding after HostCache.get HostCache.put HostCache.delete HostCache.clear store make_room
  after-max_bytes (gets key) c = ground arith
  after-max_bytes (deletes key) c = drop_key-max_bytes key c
  after-max_bytes (puts key t) c = ground (arith, drop_key-max_bytes key c)
  after-max_bytes clears c = refl

  run-IsValid : (calls : List Call) (c : HostCache ts) → IsValid ts c → IsValid ts (run calls c)
  unfolding run
  run-IsValid [] c v = v
  run-IsValid (call ∷ calls) c v = run-IsValid calls (after call c) (after-IsValid call c v)

  run-max_bytes : (calls : List Call) (c : HostCache ts) → (run calls c).max_bytes ≡ c.max_bytes
  unfolding run
  run-max_bytes [] c = refl
  run-max_bytes (call ∷ calls) c = run-max_bytes calls (after call c) ∙ after-max_bytes call c

  -- Whatever calls the threads make of a new cache, and in whatever order the lock lets them in: the
  -- tensors in the cache have no more bytes than the budget, the counter of bytes is the sum of their
  -- sizes, and no key stands twice.
  pub run-within_budget :
      (calls : List Call) (budget : ℕ)
      → let c = run calls (new_cache ts budget) in
        (held ts c.cache ≤ budget) × (c.current_bytes ≡ held ts c.cache) × Distinct c.cache
  unfolding new_cache
  run-within_budget calls budget =
      let v = run-IsValid calls (new_cache ts budget) (new_cache-IsValid ts budget) in
      let all =
        held-total ts (run calls (new_cache ts budget)).cache
          (run-AllNoted calls (new_cache ts budget) tt) in
      (
        omega (arith, all, v.counted, v.within, run-max_bytes calls (new_cache ts budget)),
        omega (arith, all, v.counted),
        v.distinct,
      )
