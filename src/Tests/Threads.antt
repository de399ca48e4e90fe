-- ===== src/Tests/Threads.antt =====
-- The threads over the store at a disk with no files.
use awarekv.Prelude.{
  ℕ, List, length, ◌++◌, true, ◌≡◌, refl, arith, string_eq, false, none, some, [], ◌∷◌,
}
use awarekv.Dict.{find, remove, insert}
use awarekv.Store.LocalDisk
use awarekv.Store.LocalDisk.{Disk, LocalDiskBackend, get_path, path_join}
use awarekv.Store.LocalDisk.Threads.{
  System, writing, open_file, write_some, acknowledge, Reach, here, later, IsApart,
}
use awarekv.Store.LocalDisk.Threads.Promised.{get-promised, get-writing}
use awarekv.Store.LocalDisk.Threads.Alone.{get-torn}

abbrev backend : LocalDiskBackend
backend = record { root_dir = "/d"; critical_dir = "/d/c"; refinement_dir = "/d/r" }

abbrev empty_disk : Disk
empty_disk = record {
  files = [];
  unreadable = λ path. false;
  unwritable = λ path. false;
  full_after = λ path. none;
}

get-torn_example :
    (x : System) × (r : Reach backend empty_disk x) × IsApart r
    × (x.pc 0 ≡ writing (get_path backend "a" "critical") true 1 (7 ∷ 8 ∷ []) (8 ∷ []))
    × (LocalDisk.get backend "a" "critical" x.disk ≡ some (7 ∷ []))
get-torn_example = get-torn backend empty_disk "a" "critical" (7 ∷ 8 ∷ []) 1 refl refl

-- Thread 0 puts an object; then thread 1 puts another one, and has written one byte of two.
abbrev busy : (x : System) × Reach backend empty_disk x
busy = (
  _,
  later
      (later
        (later
          (later (later here (open_file 0 "a" "critical" (7 ∷ 8 ∷ []) refl refl))
            (write_some 0 (7 ∷ 8 ∷ []) [] refl))
          (acknowledge 0 refl))
        (open_file 1 "b" "critical" (5 ∷ 6 ∷ []) refl refl))
      (write_some 1 (5 ∷ []) (6 ∷ []) refl),
)

busy-IsApart : IsApart busy.1
unfolding get_path path_join
busy-IsApart =
    ((λ j p l c r e. absurd (ground arith)), ((λ j p l c r e. absurd (ground arith)), tt))

get-promised_example : LocalDisk.get backend "a" "critical" busy.0.disk ≡ some (7 ∷ 8 ∷ [])
unfolding find get_path remove insert path_join
get-promised_example = get-promised busy.1 "a" "critical" (7 ∷ 8 ∷ []) busy-IsApart refl refl

get-writing_example :
    (done : List ℕ) × (LocalDisk.get backend "b" "critical" busy.0.disk ≡ some done)
    × (length done ≡ 1)
    × (done ++ 6 ∷ [] ≡ 5 ∷ 6 ∷ [])
unfolding get_path path_join
get-writing_example =
    get-writing busy.1 "b" "critical" (5 ∷ 6 ∷ []) 1 1 true (6 ∷ []) busy-IsApart refl refl
