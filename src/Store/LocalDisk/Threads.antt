-- ===== src/Store/LocalDisk/Threads.antt =====
-- The store of src/dakv/store/local_disk_backend.py under the threads of
-- src/dakv/transport/data_server.py, one for each connection, which share it without a lock: the
-- calls of the operating system in `put`, `get` and `delete`, interleaved in any order.
pub mod Promised
pub mod Alone
use awarekv.Prelude.{
  ℕ, zero, suc, ◌-◌, ◌==◌, String, Bool, true, false, Option, none, some, List, [], ◌∷◌, ◌++◌,
  nat_eqb, if◌then◌else◌, length, take, drop, ◌≡◌, ◌≢◌, ◌+◌, string_eq,
}
use awarekv.Dict
use awarekv.Dict.{Dict, find, insert, remove}
use awarekv.Transport.Struct.{Bytes}
use awarekv.Store.LocalDisk.{Disk, LocalDiskBackend, get_path, written}

-- Where a thread stands: outside of `put`, or in its `with` block, with the position in the file and
-- the bytes that are still to be written. `linked` tells whether the file still has the path: what is
-- written to a file that was removed in between is nowhere.
pub data Pc : Type 0 where
  idle : Pc
  writing : (path : String) (linked : Bool) (position : ℕ) (content rest : Bytes) → Pc

pub record System : Type 0 where
  pub disk : Disk
  pub pc : ℕ → Pc

abbrev pub set_pc : ℕ → Pc → (ℕ → Pc) → ℕ → Pc
set_pc i p pc j = if nat_eqb i j then p else pc j

-- the threads behind the removal of a path
abbrev pub unlinked : String → Pc → Pc
unlinked path idle = idle
unlinked path (writing other linked position content rest) =
    writing other (if path == other then false else linked) position content rest

-- the file at a path; a missing one is empty
abbrev pub content_at : String → Disk → Bytes
content_at path disk = elim (find path disk.files) [ none ↦ [] | some b ↦ b ]

abbrev pub zeros : ℕ → Bytes
zeros zero = []
zeros (suc n) = 0 ∷ zeros n

-- write(2) at a position; one behind the end, where another thread has truncated the file, leaves a
-- hole of zeros
abbrev pub write_at : ℕ → Bytes → Bytes → Bytes
write_at position [] old = old
write_at position (b ∷ chunk) old =
    take position old
    ++ zeros (position - length old)
    ++ (b ∷ chunk)
    ++ drop (position + length (b ∷ chunk)) old

-- One call of thread `i`, of the calls that change something: a get changes nothing, and may fall
-- between any two steps.
pub data Step (s : LocalDiskBackend) (x : System) : System → Type 0 where
  -- open(path, "wb"), which truncates
  open_file :
      (i : ℕ) (object_id tier : String) (content : Bytes)
      → x.pc i ≡ idle
      → x.disk.unwritable (get_path s object_id tier) ≡ false
      → Step s x (record {
        disk = written (get_path s object_id tier) [] x.disk;
        pc = set_pc i (writing (get_path s object_id tier) true 0 content content) x.pc;
      })
  -- a write of some of the bytes that are left
  write_some :
      (i : ℕ) {path : String} {linked : Bool} {position : ℕ} {content : Bytes} (chunk rest : Bytes)
      → x.pc i ≡ writing path linked position content (chunk ++ rest)
      → Step s x (record {
        disk =
            if linked
            then written path (write_at position chunk (content_at path x.disk)) x.disk
            else x.disk;
        pc = set_pc i (writing path linked (position + length chunk) content rest) x.pc;
      })
  -- the end of the `with` block, and `return True`
  acknowledge :
      (i : ℕ) {path : String} {linked : Bool} {position : ℕ} {content : Bytes}
      → x.pc i ≡ writing path linked position content []
      → Step s x (record x { pc = set_pc i idle x.pc })
  -- a write that raises, and `return False`
  fail :
      (i : ℕ) {path : String} {linked : Bool} {position : ℕ} {content rest : Bytes}
      → x.pc i ≡ writing path linked position content rest
      → Step s x (record x { pc = set_pc i idle x.pc })
  -- os.remove
  unlink :
      (i : ℕ) (object_id tier : String)
      → x.pc i ≡ idle
      → Step s x (record {
        disk = record (x.disk) { files = remove (get_path s object_id tier) x.disk.files };
        pc = λ j. unlinked (get_path s object_id tier) (x.pc j);
      })

abbrev pub start : Disk → System
start disk = record { disk = disk; pc = λ _. idle }

-- the states that the server may come to from a store with some files
pub data Reach (s : LocalDiskBackend) (disk : Disk) : System → Type 0 where
  here : Reach s disk (start disk)
  later : {x y : System} → Reach s disk x → Step s x y → Reach s disk y

-- The content of the last put of a path that was acknowledged, as long as no later put or delete of
-- the path has begun.
abbrev pub promised :
    {s : LocalDiskBackend} {disk : Disk} {x : System} → Reach s disk x → Dict String Bytes
promised here = []
promised {s} (later r (open_file i object_id tier content off w)) =
    remove (get_path s object_id tier) (promised r)
promised (later r (write_some i chunk rest e)) = promised r
promised (later r (acknowledge i {path} {linked} {position} {content} e)) =
    insert path content (promised r)
promised (later r (fail i e)) = promised r
promised {s} (later r (unlink i object_id tier off)) =
    remove (get_path s object_id tier) (promised r)

-- No thread is between the open and the close of a path.
abbrev pub IsFree : String → (ℕ → Pc) → Type 0
IsFree path pc =
    (j position : ℕ) (linked : Bool) (content rest : Bytes)
    → pc j ≢ writing path linked position content rest

-- No object was put or deleted while another put of it was running.
abbrev pub IsApart : {s : LocalDiskBackend} {disk : Disk} {x : System} → Reach s disk x → Type 0
IsApart here = Unit
IsApart {s} (later {x} r (open_file i object_id tier content off w)) =
    IsFree (get_path s object_id tier) x.pc × IsApart r
IsApart (later r (write_some i chunk rest e)) = IsApart r
IsApart (later r (acknowledge i e)) = IsApart r
IsApart (later r (fail i e)) = IsApart r
IsApart {s} (later {x} r (unlink i object_id tier off)) =
    IsFree (get_path s object_id tier) x.pc × IsApart r
