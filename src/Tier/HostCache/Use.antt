-- ===== src/Tier/HostCache/Use.antt =====
-- src/dakv/tier/host_cache.py: reads after writes, and what is evicted.
use awarekv.Prelude.{
  ℕ, suc, ◌+◌, ◌-◌, ◌≤◌, ◌<◌, String, some, [], ◌∷◌, ◌++◌, string_eq, ◌≡◌, refl, arith, ==_iff,
  ==_refl, ltb, drop, Bool-cases, inl, inr, le→leb, lt→leb,
}
use awarekv.Dict.{Dict, find, remove}
use awarekv.Dict.Laws.{find-append, find-remove, option_map, remove_absent}
use awarekv.Tier.HostCache
use awarekv.Tier.HostCache.{Tensors, HostCache, drop_key, evict, make_room, store, to_host}
use awarekv.Tier.HostCache.Bytes.{find-evict, find-drop_key}

module _ (ts : Tensors) where
  open ts use {Tensor}

  -- `get` returns what is stored and only reorders the entries: every later read is as before.
  pub find-get :
      (key j : String) (c : HostCache ts)
      → ((HostCache.get ts key c).0 ≡ option_map (λ (e : Tensor × ℕ). e.0) (find key c.cache))
        × (find j (HostCache.get ts key c).1.cache ≡ find j c.cache)
  unfolding HostCache.get find
  find-get key j c = grind (arith, find-append, find-remove, ==_iff key j)

  cache-drop_key :
      (key : String) (c : HostCache ts)
      → ((drop_key ts key c).cache ≡ remove key c.cache)
        × ((drop_key ts key c).max_bytes ≡ c.max_bytes)
  unfolding drop_key
  cache-drop_key key c = ground (arith, remove_absent key c.cache)

  -- The loop pops the oldest entries and no others.
  evict-drop :
      (m n current : ℕ) (d : Dict String (Tensor × ℕ))
      → (i : ℕ) × ((evict ts m n current d).1 ≡ drop i d)
  unfolding evict
  evict-drop m n current [] = (0, refl)
  evict-drop m n current ((k, (t, s)) ∷ d) = elim (Bool-cases (ltb m (current + n))) [
    | inl b ↦ let (i, e) = evict-drop m n (current - s) d in (suc i, rw b e)
    | inr b ↦ (0, rw b)
  ]

  evict_all :
      (m n current : ℕ) (d : Dict String (Tensor × ℕ)) → m < n → (evict ts m n current d).1 ≡ []
  unfolding evict
  evict_all m n current [] h = refl
  evict_all m n current ((k, (t, s)) ∷ d) h = ground (arith, evict_all m n (current - s) d)

  -- what is left of the cache when `put` stores
  abbrev left : String → Tensor → HostCache ts → Dict String (Tensor × ℕ)
  left key t c =
      (evict ts (drop_key ts key c).max_bytes (ts.nbytes (to_host ts t))
        (drop_key ts key c).current_bytes (drop_key ts key c).cache).1

  cache-put :
      (key : String) (t : Tensor) (c : HostCache ts)
      → ts.nbytes (to_host ts t) ≤ c.max_bytes
      → (HostCache.put ts key t c).cache
        ≡ left key t c ++ (key, (to_host ts t, ts.nbytes (to_host ts t))) ∷ []
  unfolding HostCache.put make_room store
  cache-put key t c h = rw (
      le→leb (ts.nbytes (to_host ts t)) (drop_key ts key c).max_bytes
        (rw (cache-drop_key key c).1 h))

  -- What `put` evicts is a run of the oldest entries, besides the old value of the key itself.
  pub put-drop :
      (key : String) (t : Tensor) (c : HostCache ts)
      → ts.nbytes (to_host ts t) ≤ c.max_bytes
      → (i : ℕ) × ((HostCache.put ts key t c).cache
          ≡ drop i (remove key c.cache) ++ (key, (to_host ts t, ts.nbytes (to_host ts t))) ∷ [])
  put-drop key t c h =
      let (i, e) =
        evict-drop (drop_key ts key c).max_bytes (ts.nbytes (to_host ts t))
          (drop_key ts key c).current_bytes (drop_key ts key c).cache in
      (i, rw (cache-put key t c h, e, (cache-drop_key key c).0))

  -- A tensor that fits the budget is stored, in host memory, and is what the next `get` returns.
  pub get-put_tensor :
      (key : String) (t : Tensor) (c : HostCache ts)
      → ts.nbytes (to_host ts t) ≤ c.max_bytes
      → (HostCache.get ts key (HostCache.put ts key t c)).0 ≡ some (to_host ts t)
  get-put_tensor key t c h =
      rw ((find-get key key (HostCache.put ts key t c)).0, cache-put key t c h)
        (rw
          (
            find-append key (left key t c) ((key, (to_host ts t, ts.nbytes (to_host ts t))) ∷ []),
            find-evict ts key (drop_key ts key c).max_bytes (ts.nbytes (to_host ts t))
                (drop_key ts key c).current_bytes (drop_key ts key c).cache
                (rw (find-drop_key ts key key c, ==_refl key)),
          )
          (unfold find in rw (==_refl key)))

  -- A tensor larger than the whole budget is not stored, and yet it empties the cache.
  pub put_oversized :
      (key : String) (t : Tensor) (c : HostCache ts)
      → c.max_bytes < ts.nbytes (to_host ts t)
      → (HostCache.put ts key t c).cache ≡ []
  unfolding HostCache.put make_room store
  put_oversized key t c h =
      let big : (drop_key ts key c).max_bytes < ts.nbytes (to_host ts t) =
        rw (cache-drop_key key c).1 h in
      rw (lt→leb (ts.nbytes (to_host ts t)) (drop_key ts key c).max_bytes big) (
        evict_all (drop_key ts key c).max_bytes (ts.nbytes (to_host ts t))
          (drop_key ts key c).current_bytes (drop_key ts key c).cache big)
