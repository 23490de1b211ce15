-- ===== src/File/Rights.antt =====
-- What an open file lets its holder do (kernel/src/file.c), and the offset that lseek sets.
use stewieos.Prelude.{
  ℕ, Bool, true, false, Option, none, some, List, Result, ok, err, ◌&&◌, length, arith, ◌≡◌, refl,
  Bool-cases, inl, inr, ap, sym, ◌∙◌, get_or-set, lt_of_some,
}
use stewieos.Access.{Who, path_access}
use stewieos.Access.Verdict.{permitted, granted, path_access-permitted}
use stewieos.File.{
  Flags, Spot, FileOps, File, Kernel, Store, Proc, Whence, fd_valid, file_of, keep, load, is_dir,
  wanted, file_open, file_check, file_checked, file_allocate, file_create, file_ready, ops_of,
  sys_read, sys_lseek, file_read, read_op_with, file_seek, seek_with, seek_plain, store_off,
}
use stewieos.File.Balance.{get_or-grown}

module _ {D : Type 0} (K : Kernel D) where
  -- The file at `p` is the one that was asked for, at its start, and what was asked for is permitted.
  pub record IsGranted (who : Who) (path : Spot) (flags : Flags) (s : Store D) (p : ℕ)
      : Type 0 where
    pub file : File D
    pub found : load s p ≡ some file
    pub f_path : file.f_path ≡ path
    pub f_status : file.f_status ≡ flags
    pub at_start : file.f_off ≡ 0
    pub permits : permitted who path.place (wanted flags) ≡ true
    pub no_directory : is_dir path.kind && flags.fwrite ≡ false

  abbrev pub OpensGranted : Who → Spot → Flags → Result ℕ × Store D → Type 0
  OpensGranted who path flags (ok p, s) = IsGranted who path flags s p
  OpensGranted who path flags (err e, s) = Unit

  module _ (who : Who) (path : Spot) (flags : Flags) (s : Store D)
      (permits : permitted who path.place (wanted flags) ≡ true)
      (no_directory : is_dir path.kind && flags.fwrite ≡ false) where
    ready-OpensGranted :
        (ops : FileOps D) (r : Result (Unit {0}) × D)
        → OpensGranted who path flags (file_ready s path flags ops r)
    unfolding file_ready
    ready-OpensGranted ops (ok tt, d) = record {
      file = record { f_path = path; f_ops = ops; f_off = 0; f_status = flags; f_refs = 1 };
      found = get_or-grown s.files (length s.files) _ ∙ ground arith;
      f_path = refl;
      f_status = refl;
      at_start = refl;
      permits = permits;
      no_directory = no_directory;
    }
    ready-OpensGranted ops (err e, d) = tt

    created-OpensGranted :
        (d : D) (o : Option (FileOps D))
        → OpensGranted who path flags (file_create K s path flags d o)
    unfolding file_create
    created-OpensGranted d none = tt
    created-OpensGranted d (some ops) = ready-OpensGranted ops _

    allocated-OpensGranted :
        (m : Bool × D) → OpensGranted who path flags (file_allocate K s path flags m)
    unfolding file_allocate
    allocated-OpensGranted (true, d) = created-OpensGranted d (ops_of K path.kind d path)
    allocated-OpensGranted (false, d) = tt

    checked-OpensGranted :
        (r : Result (Unit {0}) × D) → OpensGranted who path flags (file_checked K s path flags r)
    unfolding file_checked
    checked-OpensGranted (ok tt, d) = allocated-OpensGranted (K.kmalloc d)
    checked-OpensGranted (err e, d) = tt

  opened-OpensGranted :
      (who : Who) (path : Spot) (flags : Flags) (s : Store D) (r : Result (Unit {0}))
      → path_access who path.place (wanted flags) ≡ r
      → OpensGranted who path flags
          (file_checked K s path flags (file_check K r path flags s.driver))
  unfolding file_checked
  opened-OpensGranted who path flags s (err e) a = tt
  opened-OpensGranted who path flags s (ok tt) a =
      let permits : permitted who path.place (wanted flags) ≡ true =
        sym (path_access-permitted who path.place (wanted flags)) ∙ ap granted a in
      elim (Bool-cases (is_dir path.kind && flags.fwrite)) [
        | inl t ↦ simp t tt
        | inr t ↦ simp t (checked-OpensGranted who path flags s permits t _)
      ]

  -- file_open gives a file only if path_access permits reading and writing as the flags ask for and if
  -- no directory is written; the file is the one asked for, with these flags, at offset 0.
  pub file_open-OpensGranted :
      (who : Who) (path : Spot) (flags : Flags) (s : Store D)
      → OpensGranted who path flags (file_open K who path flags s)
  unfolding file_open
  file_open-OpensGranted who path flags s = opened-OpensGranted who path flags s _ refl

  -- sys_lseek to a place, on a file whose driver has no lseek, answers 0 whatever the place is, and the
  -- next sys_read of the descriptor gives the driver that place as its offset.
  pub sys_lseek-sys_read :
      (fd offset count p : ℕ) (w : Proc D) (f : File D)
      (op : D → ℕ → ℕ → ℕ → Result (List ℕ) × ℕ × D)
      → fd_valid w.table fd ≡ true
      → file_of w fd ≡ some p
      → load w.store p ≡ some f
      → f.f_ops.lseek_op ≡ none
      → f.f_ops.read_op ≡ some op
      → f.f_status.fread ≡ true
      → (w' : Proc D) × (sys_lseek K fd offset Whence.seek_set w ≡ some (ok 0, w'))
        × ((r : Result (List ℕ)) (off : ℕ) (d : D)
            → op w.store.driver p offset count ≡ (r, off, d)
            → (w'' : Proc D) × (sys_read fd count w' ≡ some (r, w'')) × (w''.store.driver ≡ d))
  unfolding file_seek seek_with seek_plain file_read read_op_with
  sys_lseek-sys_read fd offset count p w f op v e l z o h =
      let moved : File D = record f { f_off = offset } in
      let s' = keep w.store p (some moved) in
      let at : load s' p ≡ some moved =
        get_or-set w.store.files p p (some moved) none (lt_of_some w.store.files p f l)
        ∙ ground arith in
      (
        record w { store = s' },
        rw v (rw (e, l) (rw z refl)),
        λ r off d x. (
          record w { store = (store_off s' p moved (r, off, d)).1 },
          rw v (rw (e, at) (rw (h, o) (rw x refl))),
          refl,
        ),
      )
