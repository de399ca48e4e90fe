-- ===== src/Store/LocalDisk/Threads/Alone.antt =====
-- A get of src/dakv/store/local_disk_backend.py in the middle of a put.
use awarekv.Prelude.{
  ℕ, String, true, false, some, [], ◌∷◌, ◌++◌, ◌+◌, suc, length, take, drop, ◌≡◌, refl, sym, ap,
  ◌∙◌, arith, string_eq, append-nil, drop-nil, take-append-drop,
}
use native.Mathlib.Nat.{zero-add}
use awarekv.Dict.{insert}
use awarekv.Dict.Laws.{find-insert_self, insert-insert}
use awarekv.Transport.Struct.{Bytes}
use awarekv.Store.LocalDisk
use awarekv.Store.LocalDisk.{Disk, LocalDiskBackend, get_path, written}
use awarekv.Store.LocalDisk.Threads.{
  writing, System, content_at, write_at, open_file, write_some, Reach, here, later, IsApart,
}

write_at-empty : (front : Bytes) → write_at 0 front [] ≡ front
write_at-empty [] = refl
write_at-empty (b ∷ front) = rw (drop-nil {A = ℕ} (0 + suc (length front))) (append-nil (b ∷ front))

-- a write at the start of an empty file
written_over :
    (path : String) (front : Bytes) (disk : Disk)
    → written path
        (write_at 0 front (content_at path (written path [] disk)))
        (written path [] disk)
      ≡ written path front disk
written_over path front disk =
    let now : write_at 0 front (content_at path (written path [] disk)) ≡ front =
      ap (write_at 0 front) (content_there path disk) ∙ write_at-empty front in
    ap (λ f. record disk { files = f })
      (insert-insert path [] (write_at 0 front (content_at path (written path [] disk))) disk.files
        ∙ ap (λ b. insert path b disk.files) now)
  where
    content_there : (p : String) (e : Disk) → content_at p (written p [] e) ≡ []
    content_there p e = ground (arith, find-insert_self p [] e.files)

module _ (s : LocalDiskBackend) (disk : Disk) where
  -- A thread that has written the front of a content to a file that it opened, and no other thread.
  record Halfway (path : String) (content front rest : Bytes) : Type 0 where
    at : System
    reached : Reach s disk at
    apart : IsApart reached
    stands : at.pc 0 ≡ writing path true (length front) content rest
    holds : at.disk ≡ written path front disk

  halfway :
      (object_id tier : String) (content front rest : Bytes)
      → front ++ rest ≡ content
      → disk.unwritable (get_path s object_id tier) ≡ false
      → Halfway (get_path s object_id tier) content front rest
  halfway object_id tier content front rest whole writable = record {
    at = _;
    reached = later (later here (open_file 0 object_id tier content refl writable)) (
        write_some 0 front rest
          (ap (writing (get_path s object_id tier) true 0 content) (sym whole)));
    apart = ((λ j p l c r e. absurd (ground arith)), tt);
    stands = ground (arith, zero-add (length front));
    holds = written_over (get_path s object_id tier) front disk;
  }

  -- A get may read an object that another thread is writing, and return any front of its content, as
  -- long as the rest is still to be written: the source has no lock and no rename. Here the file may
  -- be opened for both, and no other thread is at work.
  pub get-torn :
      (object_id tier : String) (content : Bytes) (n : ℕ)
      → disk.unwritable (get_path s object_id tier) ≡ false
      → disk.unreadable (get_path s object_id tier) ≡ false
      → (x : System) × (r : Reach s disk x) × IsApart r
        × (x.pc 0
            ≡ writing
                (get_path s object_id tier)
                true
                (length (take n content))
                content
                (drop n content))
        × (LocalDisk.get s object_id tier x.disk ≡ some (take n content))
  unfolding LocalDisk.get
  get-torn object_id tier content n writable readable =
      let path = get_path s object_id tier in
      let h =
        halfway object_id tier content (take n content) (drop n content)
          (take-append-drop n content) writable in
      (
        h.at,
        h.reached,
        h.apart,
        h.stands,
        ground (arith, h.holds, find-insert_self path (take n content) disk.files),
      )
