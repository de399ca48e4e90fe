-- ===== src/Tier/HostCache/Bytes.antt =====
-- The byte accounting of src/dakv/tier/host_cache.py.
use awarekv.Prelude.{
  ℕ, ◌+◌, ◌-◌, ◌≤◌, String, none, some, [], ◌∷◌, ◌++◌, if◌then◌else◌, string_eq, ◌==◌, ◌≡◌, arith,
  ==_iff, ==_refl, Option-cases, inl, inr, Bool-cases, leb,
}
use awarekv.Dict.{Dict, find, remove, Distinct}
use awarekv.Dict.Laws.{
  find-remove, remove-Distinct, append-Distinct, remove_absent, find-remove_self,
}
use awarekv.Tier.HostCache
use awarekv.Tier.HostCache.{
  Tensors, HostCache, new_cache, drop_key, evict, make_room, store, to_host,
}

module _ {T : Type 0} where
  unfoldable pub total : Dict String (T × ℕ) → ℕ
  total [] = 0
  total ((k, (t, n)) ∷ d) = n + total d

  total-append :
      (d : Dict String (T × ℕ)) (k : String) (e : T × ℕ) → total (d ++ (k, e) ∷ []) ≡ total d + e.1
  unfolding total
  total-append [] k e = omega arith
  total-append ((j, (t, n)) ∷ d) k e = omega (arith, total-append d k e)

  total-remove :
      (k : String) (d : Dict String (T × ℕ)) (t : T) (n : ℕ)
      → Distinct d
      → find k d ≡ some (t, n)
      → total (remove k d) + n ≡ total d
  unfolding total find remove
  total-remove k [] t n h e = absurd (cc)
  total-remove k ((j, (u, m)) ∷ d) t n h e =
      ground (arith, total-remove k d t n, remove_absent k d, ==_iff j k)

-- The budget is kept, and the counter is the sum of the sizes of what is stored.
pub record IsValid (ts : Tensors) (c : HostCache ts) : Type 0 where
  pub counted : c.current_bytes ≡ total c.cache
  pub within : c.current_bytes ≤ c.max_bytes
  pub distinct : Distinct c.cache

module _ (ts : Tensors) where
  open ts use {Tensor}

  pub new_cache-IsValid : (n : ℕ) → IsValid ts (new_cache ts n)
  unfolding new_cache total
  new_cache-IsValid n = ground arith

  pub get-IsValid :
      (key : String) (c : HostCache ts) → IsValid ts c → IsValid ts (HostCache.get ts key c).1
  unfolding HostCache.get
  get-IsValid key c v = elim (Option-cases (find key c.cache)) [
    | inl e ↦ rw (e, HostCache.get) v
    | inr ((t, n), e) ↦
        rw (e, HostCache.get)
          (record {
            counted = omega (
              arith,
              total-remove key c.cache t n v.distinct e,
              total-append (remove key c.cache) key (t, n),
              v.counted,
            );
            within = v.within;
            distinct =
                append-Distinct key (t, n) (remove key c.cache) (find-remove_self key c.cache)
                  (remove-Distinct key c.cache v.distinct);
          })
  ]

  pub drop_key-IsValid :
      (key : String) (c : HostCache ts) → IsValid ts c → IsValid ts (drop_key ts key c)
  unfolding drop_key
  drop_key-IsValid key c v = elim (Option-cases (find key c.cache)) [
    | inl e ↦ rw (e, drop_key) v
    | inr ((t, n), e) ↦
        rw (e, drop_key)
          (record {
            counted = omega (arith, total-remove key c.cache t n v.distinct e, v.counted);
            within = omega (arith, v.within);
            distinct = remove-Distinct key c.cache v.distinct;
          })
  ]

  pub find-drop_key :
      (key j : String) (c : HostCache ts)
      → find j (drop_key ts key c).cache ≡ (if key == j then none else find j c.cache)
  unfolding drop_key
  find-drop_key key j c = ground (arith, find-remove key j c.cache, ==_iff key j)

  -- After the loop there is room, unless nothing is left; and it keeps the account.
  pub evict_lem :
      (m n current : ℕ) (d : Dict String (Tensor × ℕ))
      → current ≡ total d
      → Distinct d
      → ((evict ts m n current d).0 ≡ total (evict ts m n current d).1)
        × Distinct (evict ts m n current d).1
        × ((evict ts m n current d).0 ≤ current)
        × (n ≤ m → (evict ts m n current d).0 + n ≤ m)
  unfolding evict total
  evict_lem m n current [] h w = ground arith
  evict_lem m n current ((k, (t, s)) ∷ d) h w = ground (arith, evict_lem m n (current - s) d)

  pub find-evict :
      (key : String) (m n current : ℕ) (d : Dict String (Tensor × ℕ))
      → find key d ≡ none
      → find key (evict ts m n current d).1 ≡ none
  unfolding evict find
  find-evict key m n current [] h = h
  find-evict key m n current ((k, (t, s)) ∷ d) h =
      ground (arith, find-evict key m n (current - s) d)

  store-IsValid :
      (key : String) (t : Tensor) (n : ℕ) (c : HostCache ts)
      → IsValid ts c
      → find key c.cache ≡ none
      → (n ≤ c.max_bytes → c.current_bytes + n ≤ c.max_bytes)
      → IsValid ts (store ts key t n c)
  unfolding store
  store-IsValid key t n c v e room = elim (Bool-cases (leb n c.max_bytes)) [
    | inl b ↦ rw b (record {
      counted = omega (arith, total-append c.cache key (t, n), v.counted);
      within = room (ground arith);
      distinct = append-Distinct key (t, n) c.cache e v.distinct;
    })
    | inr b ↦ rw b v
  ]

  -- `put` keeps the account and the budget, whatever the tensor: the counter stays the sum of the stored
  -- sizes, it stays within `max_bytes`, and no key stands twice.
  pub put-IsValid :
      (key : String) (t : Tensor) (c : HostCache ts)
      → IsValid ts c
      → IsValid ts (HostCache.put ts key t c)
  unfolding HostCache.put make_room
  put-IsValid key t c v =
      let n = ts.nbytes (to_host ts t) in
      let c' : HostCache ts = drop_key ts key c in
      let v' = drop_key-IsValid key c v in
      let (a, b, l, room) =
        evict_lem c'.max_bytes n c'.current_bytes c'.cache v'.counted v'.distinct in
      store-IsValid key (to_host ts t) n (make_room ts n c')
        (record { counted = a; within = omega (arith, v'.within, l); distinct = b })
        (find-evict key c'.max_bytes n c'.current_bytes c'.cache
          (rw (find-drop_key key key c, ==_refl key)))
        room
