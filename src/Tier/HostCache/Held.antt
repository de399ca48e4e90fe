-- ===== src/Tier/HostCache/Held.antt =====
-- The tensors that src/dakv/tier/host_cache.py holds, and the sizes that it notes beside them.
use awarekv.Prelude.{
  ℕ, ◌+◌, ◌-◌, String, some, [], ◌∷◌, ◌++◌, string_eq, ◌==◌, ◌≡◌, refl, arith, Option-cases,
  Bool-cases, inl, inr, leb,
}
use awarekv.Dict.{Dict, find, remove}
use awarekv.Tier.HostCache
use awarekv.Tier.HostCache.{Tensors, HostCache, drop_key, evict, make_room, store, to_host}
use awarekv.Tier.HostCache.Bytes.{total}

module _ (ts : Tensors) where
  open ts use {Tensor}

  -- the bytes of the tensors themselves, not as the cache notes them
  unfoldable pub held : Dict String (Tensor × ℕ) → ℕ
  held [] = 0
  held ((k, (t, n)) ∷ d) = ts.nbytes t + held d

  -- Beside each tensor stands its size.
  abbrev pub AllNoted : Dict String (Tensor × ℕ) → Type 0
  AllNoted [] = Unit
  AllNoted ((k, (t, n)) ∷ d) = (n ≡ ts.nbytes t) × AllNoted d

  pub held-total : (d : Dict String (Tensor × ℕ)) → AllNoted d → held d ≡ total d
  unfolding held total
  held-total [] h = refl
  held-total ((k, (t, n)) ∷ d) h = omega (arith, h.0, held-total d h.1)

  found-AllNoted :
      (key : String) (t : Tensor) (n : ℕ) (d : Dict String (Tensor × ℕ))
      → AllNoted d
      → find key d ≡ some (t, n)
      → n ≡ ts.nbytes t
  unfolding find
  found-AllNoted key t n [] h e = absurd (ground arith)
  found-AllNoted key t n ((k, (u, m)) ∷ d) h e = elim (Bool-cases (k == key)) [
    | inl f ↦ ground (arith, h.0)
    | inr f ↦ found-AllNoted key t n d h.1 (ground arith)
  ]

  remove-AllNoted :
      (key : String) (d : Dict String (Tensor × ℕ)) → AllNoted d → AllNoted (remove key d)
  unfolding remove
  remove-AllNoted key [] h = h
  remove-AllNoted key ((k, (t, n)) ∷ d) h = elim (Bool-cases (k == key)) [
    | inl f ↦ rw f (remove-AllNoted key d h.1)
    | inr f ↦ rw f (h.0, remove-AllNoted key d h.1)
  ]

  append-AllNoted :
      (key : String) (t : Tensor) (n : ℕ) (d : Dict String (Tensor × ℕ))
      → AllNoted d
      → n ≡ ts.nbytes t
      → AllNoted (d ++ (key, (t, n)) ∷ [])
  append-AllNoted key t n [] h e = (e, tt)
  append-AllNoted key t n ((k, (u, m)) ∷ d) h e = (h.0, append-AllNoted key t n d h.1 e)

  pub get-AllNoted :
      (key : String) (c : HostCache ts)
      → AllNoted c.cache
      → AllNoted (HostCache.get ts key c).1.cache
  unfolding HostCache.get
  get-AllNoted key c h = elim (Option-cases (find key c.cache)) [
    | inl e ↦ rw (e, HostCache.get) h
    | inr ((t, n), e) ↦
        rw (e, HostCache.get)
          (append-AllNoted key t n (remove key c.cache) (remove-AllNoted key c.cache h)
            (found-AllNoted key t n c.cache h e))
  ]

  pub drop_key-AllNoted :
      (key : String) (c : HostCache ts) → AllNoted c.cache → AllNoted (drop_key ts key c).cache
  unfolding drop_key
  drop_key-AllNoted key c h = elim (Option-cases (find key c.cache)) [
    | inl e ↦ rw (e, drop_key) h
    | inr ((t, n), e) ↦ rw (e, drop_key) (remove-AllNoted key c.cache h)
  ]

  evict-AllNoted :
      (m n current : ℕ) (d : Dict String (Tensor × ℕ))
      → AllNoted d
      → AllNoted (evict ts m n current d).1
  unfolding evict
  evict-AllNoted m n current [] h = h
  evict-AllNoted m n current ((k, (t, s)) ∷ d) h =
      ground (arith, evict-AllNoted m n (current - s) d h.1)

  store-AllNoted :
      (key : String) (t : Tensor) (c : HostCache ts)
      → AllNoted c.cache
      → AllNoted (store ts key t (ts.nbytes t) c).cache
  unfolding store
  store-AllNoted key t c h = elim (Bool-cases (leb (ts.nbytes t) c.max_bytes)) [
    | inl b ↦ rw b (append-AllNoted key t (ts.nbytes t) c.cache h refl)
    | inr b ↦ rw b h
  ]

  pub put-AllNoted :
      (key : String) (t : Tensor) (c : HostCache ts)
      → AllNoted c.cache
      → AllNoted (HostCache.put ts key t c).cache
  unfolding HostCache.put make_room
  put-AllNoted key t c h =
      let u = to_host ts t in
      let c' : HostCache ts = drop_key ts key c in
      store-AllNoted key u (make_room ts (ts.nbytes u) c') (
        evict-AllNoted c'.max_bytes (ts.nbytes u) c'.current_bytes c'.cache
          (drop_key-AllNoted key c h))
