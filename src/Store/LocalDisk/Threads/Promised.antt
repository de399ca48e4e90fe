-- ===== src/Store/LocalDisk/Threads/Promised.antt =====
-- The threads over the store of src/dakv/store/local_disk_backend.py: what an acknowledged put promises.
use awarekv.Prelude.{
  ℕ, ◌+◌, String, false, some, [], ◌++◌, length, ◌≡◌, refl, sym, ap, ◌-◌, true, Bool, if◌then◌else◌,
  ◌∷◌, ◌∙◌, arith, string_eq, ==_iff, ==_refl, nat_eqb, Bool-cases, ◌==◌, inl, inr, append_assoc,
  take-length, length-append, append-nil, drop_all,
}
use awarekv.Dict.{Dict, find, insert, remove}
use awarekv.Dict.Laws.{find-insert, find-remove, find-remove-some}
use awarekv.Transport.Struct.{Bytes}
use awarekv.Store.LocalDisk
use awarekv.Store.LocalDisk.{Disk, LocalDiskBackend, get_path, written}
use awarekv.Store.LocalDisk.Threads.{
  Pc, idle, writing, System, set_pc, unlinked, content_at, zeros, write_at, IsFree, open_file,
  write_some, acknowledge, fail, unlink, start, Reach, here, later, promised, IsApart,
}

-- What is written so far is the front of the content, and it is all that the file holds.
abbrev pub IsPart : Disk → String → ℕ → Bytes → Bytes → Type 0
IsPart disk path position content rest =
    (done : Bytes) × (find path disk.files ≡ some done)
    × (length done ≡ position)
    × (done ++ rest ≡ content)

-- The last content that was promised for a path is there, and no thread is writing it; at most one
-- thread writes to a path, and has its front there.
pub record Inv (d : Dict String Bytes) (x : System) : Type 0 where
  pub part :
      (i position : ℕ) (path : String) (linked : Bool) (content rest : Bytes)
      → x.pc i ≡ writing path linked position content rest
      → (linked ≡ true) × IsPart x.disk path position content rest
  pub alone :
      (i j p q : ℕ) (path : String) (l m : Bool) (c b r t : Bytes)
      → x.pc i ≡ writing path l p c r
      → x.pc j ≡ writing path m q b t
      → i ≡ j
  pub kept :
      (path : String) (content : Bytes)
      → find path d ≡ some content
      → (find path x.disk.files ≡ some content) × IsFree path x.pc

start-Inv : (disk : Disk) → Inv [] (start disk)
unfolding find
start-Inv disk = record {
  part = λ i position path linked content rest e. absurd (ground arith);
  alone = λ i j p q path l m c b r t e f. absurd (ground arith);
  kept = λ path content e. absurd (ground arith);
}

no_hole : (n : ℕ) → zeros (n - n) ≡ []
no_hole n = ap zeros (none_left n)
  where
    none_left : (m : ℕ) → m - m ≡ 0
    none_left m = omega arith

-- `write_at` at the end of a file appends.
write_at-append : (done chunk : Bytes) → write_at (length done) chunk done ≡ done ++ chunk
write_at-append done [] = sym (append-nil done)
write_at-append done (b ∷ chunk) =
    rw
      (
        take-length done,
        no_hole (length done),
        drop_all (length done + length (b ∷ chunk)) done (omega arith),
        append-nil done,
      )
      (append-nil (done ++ b ∷ chunk))

content_at-found :
    (path : String) (disk : Disk) (b : Bytes)
    → find path disk.files ≡ some b
    → content_at path disk ≡ b
content_at-found path disk b e = ground arith

-- Where no thread writes to a path, its removal changes no thread.
unlinked-free : (path : String) (pc : ℕ → Pc) (j : ℕ) → IsFree path pc → unlinked path (pc j) ≡ pc j
unlinked-free path pc j free = unlinked_at (pc j) refl
  where
    unlinked_at : (p : Pc) → pc j ≡ p → unlinked path p ≡ p
    unlinked_at idle e = refl
    unlinked_at (writing other l position c r) e = elim (Bool-cases (path == other)) [
      | inl same ↦ absurd (
          free j position l c r
            (e ∙ ap (λ o. writing o l position c r) (sym ((==_iff path other).0 same))))
      | inr apart ↦ rw apart refl
    ]

module _ {d : Dict String Bytes} {x : System} (inv : Inv d x) where
  open_file-Inv :
      (i : ℕ) (path : String) (content : Bytes)
      → x.pc i ≡ idle
      → IsFree path x.pc
      → Inv (remove path d) (record {
        disk = written path [] x.disk;
        pc = set_pc i (writing path true 0 content content) x.pc;
      })
  open_file-Inv i path content off free = record {
    part = λ j position there l c rest e. ground (
      arith,
      inv.part j position there l c rest,
      free j position l c rest,
      find-insert path there [] x.disk.files,
      ==_iff path there,
    );
    alone = λ j k p q there l m c b r t e f.
        ground (arith, inv.alone j k p q there l m c b r t, free j p l c r, free k q m b t);
    kept = λ there c e.
        let (was, apart) = find-remove-some path there c d e in
        let (found, free_there) = inv.kept there c was in
        (
          ground (arith, find-insert path there [] x.disk.files),
          λ j p l b r f. ground (arith, free_there j p l b r, ==_refl path),
        );
  }

  -- what the file holds after the write
  write_some-content :
      (i position : ℕ) (path : String) (linked : Bool) (content chunk rest : Bytes)
      → x.pc i ≡ writing path linked position content (chunk ++ rest)
      → (linked ≡ true)
        × (done : Bytes) × (length done ≡ position)
        × (done ++ chunk ++ rest ≡ content)
        × (write_at position chunk (content_at path x.disk) ≡ done ++ chunk)
  write_some-content i position path linked content chunk rest e =
      let (l, (done, found, len, whole)) =
        inv.part i position path linked content (chunk ++ rest) e in
      (l, done, len, append_assoc done chunk rest ∙ whole, appended l done found len)
    where
      appended :
          linked ≡ true
          → (done : Bytes) → find path x.disk.files ≡ some done
          → length done ≡ position
          → write_at position chunk (content_at path x.disk) ≡ done ++ chunk
      appended l done found len =
          ap (write_at position chunk) (content_at-found path x.disk done found)
          ∙ ap (λ n. write_at n chunk done) (sym len)
          ∙ write_at-append done chunk

  written_on-Inv :
      (i position : ℕ) (path : String) (content chunk rest done : Bytes)
      → x.pc i ≡ writing path true position content (chunk ++ rest)
      → length done ≡ position
      → done ++ chunk ++ rest ≡ content
      → Inv d (record {
        disk = written path (done ++ chunk) x.disk;
        pc = set_pc i (writing path true (position + length chunk) content rest) x.pc;
      })
  written_on-Inv i position path content chunk rest done e len whole = record {
    part = λ j p there l c r f. elim (Bool-cases (nat_eqb i j)) [
      | inl same ↦ (
        ground arith,
        (
          done ++ chunk,
          ground (arith, find-insert path path (done ++ chunk) x.disk.files, ==_refl path),
          ground (arith, length-append done chunk),
          ground (arith, append_assoc done chunk rest),
        ),
      )
      | inr other ↦ ground (
        arith,
        inv.part j p there l c r,
        inv.alone i j position p path true l content c (chunk ++ rest) r,
        find-insert path there (done ++ chunk) x.disk.files,
        ==_iff path there,
      )
    ];
    alone = λ j k p q there l m c b r t f g. ground (
      arith,
      inv.alone j k p q there l m c b r t,
      inv.alone i k position q path true m content b (chunk ++ rest) t,
      inv.alone j i p position path l true c content r (chunk ++ rest),
    );
    kept = λ there c f.
        let (found, free_there) = inv.kept there c f in
        (
          ground (
            arith,
            free_there i position true content (chunk ++ rest),
            find-insert path there (done ++ chunk) x.disk.files,
            ==_iff path there,
          ),
          λ j p l b r g.
              ground
                (arith, free_there j p l b r, free_there i position true content (chunk ++ rest)),
        );
  }

  write_some-Inv :
      (i position : ℕ) (path : String) (linked : Bool) (content chunk rest : Bytes)
      → x.pc i ≡ writing path linked position content (chunk ++ rest)
      → Inv d (record {
        disk =
            if linked
            then written path (write_at position chunk (content_at path x.disk)) x.disk
            else x.disk;
        pc = set_pc i (writing path linked (position + length chunk) content rest) x.pc;
      })
  write_some-Inv i position path true content chunk rest e =
      let (l, done, len, whole, now) =
        write_some-content i position path true content chunk rest e in
      rw now (written_on-Inv i position path content chunk rest done e len whole)
  write_some-Inv i position path false content chunk rest e =
      absurd (false_linked (write_some-content i position path false content chunk rest e).0)
    where
      false_linked : false ≡ true → ⊥
      false_linked e = ground arith

  acknowledge-Inv :
      (i position : ℕ) (path : String) (linked : Bool) (content : Bytes)
      → x.pc i ≡ writing path linked position content []
      → Inv (insert path content d) (record x { pc = set_pc i idle x.pc })
  acknowledge-Inv i position path linked content e = record {
    part = λ j p there l c r f. ground (arith, inv.part j p there l c r);
    alone = λ j k p q there l m c b r t f g. ground (arith, inv.alone j k p q there l m c b r t);
    kept = λ there c f. elim (Bool-cases (path == there)) [
      | inl same ↦
          let (_, (done, found, len, whole)) = inv.part i position path linked content [] e in
          (
            ground (
              arith,
              found,
              whole,
              append-nil done,
              find-insert path there content d,
              ==_iff path there,
            ),
            λ j p l b r g.
                ground
                  (arith, ==_iff path there, inv.alone i j position p path linked l content b [] r),
          )
      | inr apart ↦
          let was : find there d ≡ some c = ground (arith, find-insert path there content d) in
          (
            (inv.kept there c was).0,
            λ j p l b r g. ground (arith, (inv.kept there c was).1 j p l b r),
          )
    ];
  }

  fail-Inv :
      (i position : ℕ) (path : String) (linked : Bool) (content rest : Bytes)
      → x.pc i ≡ writing path linked position content rest
      → Inv d (record x { pc = set_pc i idle x.pc })
  fail-Inv i position path linked content rest e = record {
    part = λ j p there l c r f. ground (arith, inv.part j p there l c r);
    alone = λ j k p q there l m c b r t f g. ground (arith, inv.alone j k p q there l m c b r t);
    kept = λ there c f.
        ((inv.kept there c f).0, λ j p l b r g. ground (arith, (inv.kept there c f).1 j p l b r));
  }

  unlink-Inv :
      (path : String)
      → IsFree path x.pc
      → Inv (remove path d) (record {
        disk = record (x.disk) { files = remove path x.disk.files };
        pc = λ j. unlinked path (x.pc j);
      })
  unlink-Inv path free = record {
    part = λ j p there l c r f. ground (
      arith,
      inv.part j p there l c r (was j f),
      free j p l c r,
      find-remove path there x.disk.files,
      was j f,
      ==_iff path there,
    );
    alone =
        λ j k p q there l m c b r t f g. inv.alone j k p q there l m c b r t (was j f) (was k g);
    kept = λ there c f.
        let (old, apart) = find-remove-some path there c d f in
        let (found, free_there) = inv.kept there c old in
        (
          ground (arith, find-remove path there x.disk.files),
          λ j p l b r g. free_there j p l b r (was j g),
        );
  }
    where
      was : (j : ℕ) {p : Pc} → unlinked path (x.pc j) ≡ p → x.pc j ≡ p
      was j f = sym (unlinked-free path x.pc j free) ∙ f

Reach-Inv :
    {s : LocalDiskBackend} {disk : Disk} {x : System} (r : Reach s disk x)
    → IsApart r
    → Inv (promised r) x
Reach-Inv here a = start-Inv _
Reach-Inv (later r (open_file i object_id tier content off w)) a =
    open_file-Inv (Reach-Inv r a.1) i _ content off a.0
Reach-Inv (later r (write_some i chunk rest e)) a =
    write_some-Inv (Reach-Inv r a) i _ _ _ _ chunk rest e
Reach-Inv (later r (acknowledge i e)) a = acknowledge-Inv (Reach-Inv r a) i _ _ _ _ e
Reach-Inv (later r (fail i e)) a = fail-Inv (Reach-Inv r a) i _ _ _ _ _ e
Reach-Inv (later r (unlink i object_id tier off)) a = unlink-Inv (Reach-Inv r a.1) _ a.0

module _ {s : LocalDiskBackend} {disk : Disk} {x : System} (reached : Reach s disk x) where
  -- After a put of an object was acknowledged, a get of the object returns its content, in every state
  -- that the threads may come to before one of them puts or deletes the object, and whatever they do to
  -- other objects, where the file may be opened for reading. No object was put or deleted while another
  -- put of it was running: the source has no lock that would prevent it.
  pub get-promised :
      (object_id tier : String) (content : Bytes)
      → IsApart reached
      → x.disk.unreadable (get_path s object_id tier) ≡ false
      → find (get_path s object_id tier) (promised reached) ≡ some content
      → LocalDisk.get s object_id tier x.disk ≡ some content
  unfolding LocalDisk.get
  get-promised object_id tier content apart readable e =
      rw (LocalDisk.get, readable)
        ((Reach-Inv reached apart).kept (get_path s object_id tier) content e).0

  -- While a thread is writing an object, a get of the object returns the bytes that it has written so
  -- far, which are the front of its content. No object was put or deleted while another put of it was
  -- running, and the file may be opened for reading.
  pub get-writing :
      (object_id tier : String) (content : Bytes) (i position : ℕ) (linked : Bool) (rest : Bytes)
      → IsApart reached
      → x.disk.unreadable (get_path s object_id tier) ≡ false
      → x.pc i ≡ writing (get_path s object_id tier) linked position content rest
      → (done : Bytes) × (LocalDisk.get s object_id tier x.disk ≡ some done)
        × (length done ≡ position)
        × (done ++ rest ≡ content)
  unfolding LocalDisk.get
  get-writing object_id tier content i position linked rest apart readable e =
      let path = get_path s object_id tier in
      let (_, (done, found, len, whole)) =
        (Reach-Inv reached apart).part i position path linked content rest e in
      (done, rw (LocalDisk.get, readable) found, len, whole)
