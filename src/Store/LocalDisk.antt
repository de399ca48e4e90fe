-- ===== src/Store/LocalDisk.antt =====
-- src/dakv/store/local_disk_backend.py: objects as files. The operating system is the record
-- `Disk`: its files, and the failures that it has in store for each path.
pub mod Objects
pub mod Threads
use Prim.Native.String
use awarekv.Prelude.{
  ℕ, String, Bool, true, false, Option, none, some, List, [], ◌∷◌, if◌then◌else◌, ◌==◌, string_eq,
  take, length, ◌||◌,
}
use text.Mathlib.Text.{starts_with}
use awarekv.Dict
use awarekv.Dict.{Dict, find, contains, insert, remove}
use awarekv.Transport.Struct.{Bytes}

pub record Disk : Type 0 where
  pub files : Dict String Bytes
  -- opening the path for reading, or deleting it, raises
  pub unreadable : String → Bool
  -- opening the path for writing raises
  pub unwritable : String → Bool
  -- the write raises when so many bytes have been written
  pub full_after : String → Option ℕ

-- `os.path.join` of two parts, for POSIX
unfoldable pub ends_with_slash : String → Bool
ends_with_slash String.[] = false
ends_with_slash (String.◌∷◌ c String.[]) = String.◌∷◌ c String.[] == "/"
ends_with_slash (String.◌∷◌ c (String.◌∷◌ d s)) = ends_with_slash (String.◌∷◌ d s)

unfoldable pub path_join : String → String → String
unfolding ends_with_slash
path_join a b =
    if starts_with b "/"
    then b
    else if a == "" || ends_with_slash a
    then String.◌++◌ a b
    else String.◌++◌ a (String.◌++◌ "/" b)

pub record LocalDiskBackend : Type 0 where
  pub root_dir : String
  pub critical_dir : String
  pub refinement_dir : String

-- the constructor, less the creation of the directories
unfoldable pub new_backend : String → LocalDiskBackend
unfolding path_join
new_backend root_dir = record {
  root_dir = root_dir;
  critical_dir = path_join (path_join root_dir "objects") "critical";
  refinement_dir = path_join (path_join root_dir "objects") "refinement";
}

-- `_get_path`
unfoldable pub get_path : LocalDiskBackend → String → String → String
get_path s object_id tier =
    if tier == "refinement"
    then path_join s.refinement_dir object_id
    else path_join s.critical_dir object_id

-- Each method takes the tier's name, and hands the disk back where it may have changed it.
unfoldable pub get : LocalDiskBackend → String → String → Disk → Option Bytes
get s object_id tier disk =
    if disk.unreadable (get_path s object_id tier)
    then none
    else find (get_path s object_id tier) disk.files

-- the files after the open, which truncates, and the write
abbrev pub written : String → Bytes → Disk → Disk
written path content disk = record disk { files = insert path content disk.files }

unfoldable pub put : LocalDiskBackend → String → Bytes → String → Disk → Bool × Disk
put s object_id content tier disk =
    let path = get_path s object_id tier in
    if disk.unwritable path then (false, disk) else elim (disk.full_after path) [
      | none ↦ (true, written path content disk)
      | some n ↦ (false, written path (take n content) disk)
    ]

unfoldable pub delete : LocalDiskBackend → String → String → Disk → Bool × Disk
delete s object_id tier disk =
    let path = get_path s object_id tier in
    if contains path disk.files
    then (if disk.unreadable path
        then (false, disk)
        else (true, record disk { files = remove path disk.files }))
    else (false, disk)

unfoldable pub exists : LocalDiskBackend → String → String → Disk → Bool
exists s object_id tier disk = contains (get_path s object_id tier) disk.files

unfoldable pub size : LocalDiskBackend → String → String → Disk → ℕ
size s object_id tier disk = elim (find (get_path s object_id tier) disk.files) [
  | none ↦ 0
  | some b ↦ length b
]
