-- ===== src/Store/LocalDisk/Objects.antt =====
-- src/dakv/store/local_disk_backend.py: reads after writes.
use awarekv.Prelude.{
  ℕ, String, true, false, none, some, string_eq, ◌≡◌, ◌≢◌, arith, ==_iff, ==_refl, take,
}
use text.Mathlib.Text.{starts_with}
use awarekv.Dict.Laws.{find-insert, find-remove}
use awarekv.Transport.Struct.{Bytes}
use awarekv.Store.LocalDisk
use awarekv.Store.LocalDisk.{Disk, LocalDiskBackend, get_path, path_join}

module _ (s : LocalDiskBackend) (disk : Disk) where
  -- A put that reports success is what the next get of the object returns, and an object at another
  -- path is read as before.
  pub get-put_file :
      (object_id tier : String) (content : Bytes) (other other_tier : String)
      → (LocalDisk.put s object_id content tier disk).0 ≡ true
      → disk.unreadable (get_path s object_id tier) ≡ false
      → (LocalDisk.get s object_id tier (LocalDisk.put s object_id content tier disk).1
          ≡ some content)
        × (get_path s other other_tier ≢ get_path s object_id tier
            → LocalDisk.get s other other_tier (LocalDisk.put s object_id content tier disk).1
              ≡ LocalDisk.get s other other_tier disk)
  unfolding LocalDisk.put LocalDisk.get
  get-put_file object_id tier content other other_tier stored readable =
      let path = get_path s object_id tier in
      let there = get_path s other other_tier in
      (
        ground (arith, find-insert path path content disk.files, ==_refl path),
        λ apart. ground (arith, find-insert path there content disk.files, ==_iff path there),
      )

  -- A put that fails in the middle of the write reports the failure, and leaves a truncated object
  -- that the next get returns like any other.
  pub get-put_truncated :
      (object_id tier : String) (content : Bytes) (n : ℕ)
      → disk.unwritable (get_path s object_id tier) ≡ false
      → disk.full_after (get_path s object_id tier) ≡ some n
      → disk.unreadable (get_path s object_id tier) ≡ false
      → ((LocalDisk.put s object_id content tier disk).0 ≡ false)
        × (LocalDisk.get s object_id tier (LocalDisk.put s object_id content tier disk).1
            ≡ some (take n content))
  unfolding LocalDisk.put LocalDisk.get
  get-put_truncated object_id tier content n w f r =
      let path = get_path s object_id tier in
      ground (arith, find-insert path path (take n content) disk.files, ==_refl path)

  -- After a delete that reports success the object is gone.
  pub get-delete :
      (object_id tier : String)
      → (LocalDisk.delete s object_id tier disk).0 ≡ true
      → LocalDisk.get s object_id tier (LocalDisk.delete s object_id tier disk).1 ≡ none
  unfolding LocalDisk.delete LocalDisk.get
  get-delete object_id tier gone =
      let path = get_path s object_id tier in
      ground (arith, find-remove path path disk.files, ==_refl path)

  -- An object id that begins with a slash leaves the store: it is its own path, whatever the root
  -- and the tier, so the two tiers share one file.
  pub get_path_absolute :
      (object_id tier other_tier : String)
      → starts_with object_id "/" ≡ true
      → (get_path s object_id tier ≡ object_id)
        × (get_path s object_id other_tier ≡ get_path s object_id tier)
  unfolding get_path path_join
  get_path_absolute object_id tier other_tier h = ground arith
