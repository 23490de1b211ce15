-- ===== src/File/Objects.antt =====
-- The functions of kernel/src/file.c. A result `none` is a use of a file that was released.
use stewieos.Prelude.{
  ℕ, ◌+◌, ◌-◌, ◌%◌, ◌^◌, Bool, true, false, Option, none, some, [], ◌∷◌, ◌++◌, Result, Errno, ok,
  err, get_or, ◌&&◌, not, length, set, ◌==◌, ltb, if◌then◌else◌,
}
use stewieos.Access.{Want, path_access, Who}
use stewieos.File.Types.{Flags, Kind, Spot, FileOps, Kernel, File, Store}

-- One reference more, and one less, on the entry of a path (path_copy and path_put).
abbrev pub path_copy : (ℕ → ℕ) → ℕ → (ℕ → ℕ)
path_copy refs e i = if i == e then refs i + 1 else refs i

abbrev pub path_put : (ℕ → ℕ) → ℕ → (ℕ → ℕ)
path_put refs e i = if i == e then refs i - 1 else refs i

abbrev pub wanted : Flags → Want
wanted flags = record { x_ok = false; w_ok = flags.fwrite; r_ok = flags.fread; other = false }

abbrev pub is_dir : Kind → Bool
is_dir Kind.directory = true
is_dir Kind.block_file = false
is_dir Kind.char_file = false
is_dir Kind.fifo = false
is_dir Kind.regular = false

module _ {D : Type 0} where
  abbrev pub load : Store D → ℕ → Option (File D)
  load s p = get_or s.files p none

  abbrev pub keep : Store D → ℕ → Option (File D) → Store D
  keep s p f = record s { files = set s.files p f }

  -- A pointer to no file needs nothing.
  unfoldable pub get_loaded : Store D → ℕ → Option (File D) → Option (Store D)
  get_loaded s p none = none
  get_loaded s p (some f) = some (keep s p (some (record f { f_refs = (f.f_refs + 1) % 2 ^ 32 })))

  unfoldable pub file_get : Option ℕ → Store D → Option (Store D)
  unfolding get_loaded
  file_get none s = some s
  file_get (some p) s = get_loaded s p (load s p)

  abbrev pub driver_close :
      Option (D → ℕ → Spot → Result (Unit {0}) × D) → ℕ → Spot → D → Result (Unit {0}) × D
  driver_close none p path d = (ok tt, d)
  driver_close (some op) p path d = op d p path

  -- The last reference is gone: unless the driver's close fails, the file is released.
  unfoldable pub finish_close :
      Store D → ℕ → File D → Result (Unit {0}) × D → Result (Unit {0}) × Store D
  finish_close s p f (ok tt, d) = (
    ok tt,
    record {
      files = set s.files p none;
      path_refs = path_put s.path_refs f.f_path.entry;
      driver = d;
    },
  )
  finish_close s p f (err e, d) = (err e, record s { driver = d })

  unfoldable pub close_loaded : Store D → ℕ → Option (File D) → Option (Result (Unit {0}) × Store D)
  unfolding finish_close
  close_loaded s p none = none
  close_loaded s p (some f) =
      let r = (f.f_refs + (2 ^ 32 - 1)) % 2 ^ 32 in
      let s' = keep s p (some (record f { f_refs = r })) in
      if ltb 0 r && ltb r (2 ^ 31)
      then some (ok tt, s')
      else some (finish_close s' p f (driver_close f.f_ops.close_op p f.f_path s.driver))

  unfoldable pub file_close : Option ℕ → Store D → Option (Result (Unit {0}) × Store D)
  unfolding close_loaded
  file_close none s = some (ok tt, s)
  file_close (some p) s = close_loaded s p (load s p)

  abbrev pub driver_open :
      Option (D → ℕ → Spot → Flags → Result (Unit {0}) × D)
      → D
      → ℕ
      → Spot
      → Flags
      → Result (Unit {0}) × D
  driver_open none d p path flags = (ok tt, d)
  driver_open (some op) d p path flags = op d p path flags

  -- The new file took its path's reference, and both are given up again.
  unfoldable pub file_released : Store D → Spot → D → Store D
  file_released s path d = record {
    files = s.files ++ none ∷ [];
    path_refs = path_put (path_copy s.path_refs path.entry) path.entry;
    driver = d;
  }

  -- The new file is at the first address that was never used.
  unfoldable pub file_ready :
      Store D → Spot → Flags → FileOps D → Result (Unit {0}) × D → Result ℕ × Store D
  unfolding file_released
  file_ready s path flags ops (err e, d) = (err e, file_released s path d)
  file_ready s path flags ops (ok tt, d) = (
    ok (length s.files),
    record {
      files =
          s.files
          ++ some (record { f_path = path; f_ops = ops; f_off = 0; f_status = flags; f_refs = 1 })
            ∷ [];
      path_refs = path_copy s.path_refs path.entry;
      driver = d;
    },
  )

  module _ (K : Kernel D) where
    abbrev pub ops_of : Kind → D → Spot → Option (FileOps D)
    ops_of Kind.block_file d path = some K.block_device_fops
    ops_of Kind.char_file d path = K.get_chrdev_fops d path.dev_major
    ops_of Kind.fifo d path = some K.pipe_operations
    ops_of Kind.directory d path = K.i_default_fops d path
    ops_of Kind.regular d path = K.i_default_fops d path

    -- The part of file_open before the file exists: permissions, directories, O_TRUNC.
    abbrev pub file_check : Result (Unit {0}) → Spot → Flags → D → Result (Unit {0}) × D
    file_check (err e) path flags d = (err e, d)
    file_check (ok tt) path flags d =
        if is_dir path.kind && flags.fwrite
        then (err Errno.eisdir, d)
        else if flags.o_trunc
        then if not flags.fwrite then (err Errno.eacces, d) else K.inode_trunc d path
        else (ok tt, d)

    unfoldable pub file_create :
        Store D → Spot → Flags → D → Option (FileOps D) → Result ℕ × Store D
    unfolding file_ready file_released
    file_create s path flags d none = (err Errno.enxio, file_released s path d)
    file_create s path flags d (some ops) =
        file_ready s path flags ops (driver_open ops.open_op d (length s.files) path flags)

    unfoldable pub file_allocate : Store D → Spot → Flags → Bool × D → Result ℕ × Store D
    unfolding file_create
    file_allocate s path flags (false, d) = (err Errno.enomem, record s { driver = d })
    file_allocate s path flags (true, d) = file_create s path flags d (ops_of path.kind d path)

    unfoldable pub file_checked :
        Store D → Spot → Flags → Result (Unit {0}) × D → Result ℕ × Store D
    unfolding file_allocate
    file_checked s path flags (err e, d) = (err e, record s { driver = d })
    file_checked s path flags (ok tt, d) = file_allocate s path flags (K.kmalloc d)

    unfoldable pub file_open : Who → Spot → Flags → Store D → Result ℕ × Store D
    unfolding file_checked
    file_open who path flags s =
        file_checked s path flags
          (file_check (path_access who path.place (wanted flags)) path flags s.driver)
