-- ===== src/Tier/HostCache.antt =====
-- `HostCache` of src/dakv/tier/host_cache.py: tensors in host memory, least recently used first,
-- within a budget of bytes. The reentrant lock makes each method one step.
pub mod Bytes
pub mod Held
pub mod Use
pub mod Runs
use awarekv.Prelude.{
  ℕ, ◌+◌, ◌-◌, String, Bool, true, false, Option, none, some, List, [], ◌∷◌, ◌++◌, if◌then◌else◌,
  string_eq, ltb, leb,
}
use awarekv.Dict.{Dict, find, remove}

-- What the cache asks of a tensor: PyTorch is not modelled.
pub record Tensors : Type 1 where
  pub Tensor : Type 0
  pub is_cuda : Tensor → Bool
  pub cpu : Tensor → Tensor
  pub pin_memory : Tensor → Tensor
  -- element_size() * numel()
  pub nbytes : Tensor → ℕ

module _ (ts : Tensors) where
  open ts use {Tensor}

  pub record HostCache : Type 0 where
    pub max_bytes : ℕ
    pub current_bytes : ℕ
    pub cache : Dict String (Tensor × ℕ)

  unfoldable pub new_cache : ℕ → HostCache
  new_cache max_bytes = record { max_bytes = max_bytes; current_bytes = 0; cache = [] }

  -- `move_to_end` is the removal and the append.
  unfoldable pub get : String → HostCache → Option Tensor × HostCache
  get key c = elim (find key c.cache) [
    | none ↦ (none, c)
    | some (t, n) ↦ (some t, record c { cache = remove key c.cache ++ (key, (t, n)) ∷ [] })
  ]

  -- what `put` stores of a tensor
  unfoldable pub to_host : Tensor → Tensor
  to_host t = ts.pin_memory (if ts.is_cuda t then ts.cpu t else t)

  unfoldable pub drop_key : String → HostCache → HostCache
  drop_key key c = elim (find key c.cache) [
    | none ↦ c
    | some (t, n) ↦ record c { cache = remove key c.cache; current_bytes = c.current_bytes - n }
  ]

  -- The `while` loop of `put`: each round pops the oldest entry, so it ends with the entries.
  unfoldable pub evict : ℕ → ℕ → ℕ → Dict String (Tensor × ℕ) → ℕ × Dict String (Tensor × ℕ)
  evict max_bytes nbytes current [] = (current, [])
  evict max_bytes nbytes current ((k, (t, n)) ∷ d) =
      let rest = evict max_bytes nbytes (current - n) d in
      if ltb max_bytes (current + nbytes) then rest else (current, (k, (t, n)) ∷ d)

  unfoldable pub make_room : ℕ → HostCache → HostCache
  unfolding evict
  make_room nbytes c =
      let (current, d) = evict c.max_bytes nbytes c.current_bytes c.cache in
      record c { current_bytes = current; cache = d }

  unfoldable pub store : String → Tensor → ℕ → HostCache → HostCache
  store key t nbytes c =
      if leb nbytes c.max_bytes
      then record c {
        cache = c.cache ++ (key, (t, nbytes)) ∷ [];
        current_bytes = c.current_bytes + nbytes;
      }
      else c

  unfoldable pub put : String → Tensor → HostCache → HostCache
  put key tensor c =
      let t = to_host tensor in
      let nbytes = ts.nbytes t in store key t nbytes (make_room nbytes (drop_key key c))

  unfoldable pub delete : String → HostCache → HostCache
  delete key c = drop_key key c

  unfoldable pub clear : HostCache → HostCache
  clear c = record c { cache = []; current_bytes = 0 }
