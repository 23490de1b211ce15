-- ===== src/File/Table.antt =====
-- The descriptors of a task: the system calls of kernel/src/fs.c that reserve, open, close and
-- duplicate them, and what fork and exit do with them. A result `none` is a use of a released file.
use stewieos.Prelude.{
  ℕ, ◌-◌, ◌^◌, Bool, true, false, Option, none, some, List, [], ◌∷◌, Result, Errno, ok, err, get_or,
  ◌&&◌, not, length, set, ◌==◌, ltb, if◌then◌else◌, suc, leb, replicate,
}
use stewieos.Access.{Who}
use stewieos.File.Types.{Flags, Spot, Kernel, Store, Proc, Descr, no_descr, is_valid}
use stewieos.File.Objects.{file_get, file_close, file_open, path_copy, path_put}

-- FD_VALID
abbrev pub fd_valid : List Descr → ℕ → Bool
fd_valid table fd = ltb fd (length table) && is_valid (get_or table fd no_descr)

abbrev pub bump : Option ℕ → Option ℕ
bump none = none
bump (some i) = some (suc i)

-- The first descriptor with a property.
abbrev pub find_fd : (Descr → Bool) → List Descr → Option ℕ
find_fd test [] = none
find_fd test (d ∷ table) = let rest = find_fd test table in if test d then some 0 else bump rest

abbrev pub or_emfile : Option ℕ → Result ℕ
or_emfile none = err Errno.emfile
or_emfile (some i) = ok i

abbrev pub dup2_target : List Descr → ℕ → Result ℕ
dup2_target table other =
    if other == 2 ^ 32 - 1
    then or_emfile (find_fd (λ d. not (is_valid d)) table)
    else if leb (length table) other
    then err Errno.ebadf
    else ok other

module _ {D : Type 0} where
  abbrev pub put_descr : Proc D → ℕ → Descr → Proc D
  put_descr w fd d = record w { table = set w.table fd d }

  abbrev pub file_of : Proc D → ℕ → Option ℕ
  file_of w fd = (get_or w.table fd no_descr).file

  abbrev pub reserve_at : Proc D → Option ℕ → Option ℕ × Proc D
  reserve_at w none = (none, w)
  reserve_at w (some fd) = (
    some fd,
    put_descr w fd (record (get_or w.table fd no_descr) { occupied = true; invalid = true }),
  )

  -- `none` is the answer -1.
  unfoldable pub sys_resfd : Proc D → Option ℕ × Proc D
  sys_resfd w = reserve_at w (find_fd (λ d. not d.occupied) w.table)

  -- The flags of a descriptor become 0; its pointer stays.
  unfoldable pub sys_relfd : ℕ → Proc D → Proc D
  sys_relfd fd w =
      put_descr w fd (record (get_or w.table fd no_descr) { occupied = false; invalid = false })

  unfoldable pub finish_sys_close :
      Proc D → ℕ → Option (Result (Unit {0}) × Store D) → Option (Result ℕ × Proc D)
  finish_sys_close w fd none = none
  finish_sys_close w fd (some (err e, s)) = some (err e, record w { store = s })
  finish_sys_close w fd (some (ok tt, s)) =
      some (ok 0, record w { store = s; table = set w.table fd no_descr })

  unfoldable pub sys_close : ℕ → Proc D → Option (Result ℕ × Proc D)
  unfolding finish_sys_close
  sys_close fd w =
      if not (fd_valid w.table fd)
      then some (err Errno.ebadf, w)
      else finish_sys_close w fd (file_close (file_of w fd) w.store)

  unfoldable pub share_at : Proc D → ℕ → Descr → Option (Store D) → Option (Result ℕ × Proc D)
  share_at w fd d none = none
  share_at w fd d (some s) = some (ok fd, record w { store = s; table = set w.table fd d })

  -- file->f_refs++ on the file of a valid descriptor; NULL is no file.
  abbrev pub use_file : Option ℕ → Store D → Option (Store D)
  use_file none s = none
  use_file (some p) s = file_get (some p) s

  unfoldable pub dup_to : Proc D → Option ℕ → Option ℕ → Option (Result ℕ × Proc D)
  unfolding share_at
  dup_to w file none = some (err Errno.emfile, w)
  dup_to w file (some fd) =
      share_at w fd (record { file = file; occupied = true; invalid = false })
        (use_file file w.store)

  unfoldable pub sys_dup : ℕ → Proc D → Option (Result ℕ × Proc D)
  unfolding dup_to
  sys_dup fd w =
      if not (fd_valid w.table fd)
      then some (err Errno.ebadf, w)
      else dup_to w (file_of w fd) (find_fd (λ d. not d.occupied) w.table)

  unfoldable pub dup2_share : ℕ → ℕ → Proc D → Option (Result ℕ × Proc D)
  unfolding share_at
  dup2_share fd other w =
      share_at w other (get_or w.table fd no_descr) (file_get (file_of w fd) w.store)

  unfoldable pub dup2_closed : ℕ → ℕ → Option (Result ℕ × Proc D) → Option (Result ℕ × Proc D)
  unfolding dup2_share
  dup2_closed fd other none = none
  dup2_closed fd other (some (err e, w)) = some (err Errno.eio, w)
  dup2_closed fd other (some (ok n, w)) = dup2_share fd other w

  unfoldable pub dup2_to : ℕ → Result ℕ → Proc D → Option (Result ℕ × Proc D)
  unfolding dup2_share dup2_closed
  dup2_to fd (err e) w = some (err e, w)
  dup2_to fd (ok other) w =
      if fd_valid w.table other
      then dup2_closed fd other (sys_close other w)
      else dup2_share fd other w

  -- -1 for the second descriptor is 2 ^ 32 - 1: the lowest descriptor that is not valid is taken.
  unfoldable pub sys_dup2 : (fd other : ℕ) → Proc D → Option (Result ℕ × Proc D)
  unfolding dup2_to
  sys_dup2 fd other w =
      if not (fd_valid w.table fd)
      then some (err Errno.ebadf, w)
      else dup2_to fd (dup2_target w.table other) w

  -- copy_task_vfs: the table of a new task, whose working directory is the entry of the old one's.
  unfoldable pub copy_descr : Descr → Option (List Descr × Store D) → Option (List Descr × Store D)
  copy_descr d none = none
  copy_descr d (some (table, s)) = some (d ∷ table, s)

  abbrev pub chain : {X : Type 0} → Option (Store D) → (Store D → Option X) → Option X
  chain none k = none
  chain (some s) k = k s

  unfoldable pub copy_shared : List Descr → Store D → Option (List Descr × Store D)
  unfolding copy_descr
  copy_shared [] s = some ([], s)
  copy_shared (d ∷ table) s =
      if is_valid d
      then chain (file_get d.file s) (λ s'. copy_descr d (copy_shared table s'))
      else copy_descr no_descr (copy_shared table s)

  unfoldable pub copy_task_vfs : Proc D → Option (List Descr × Store D)
  unfolding copy_shared
  copy_task_vfs w =
      copy_shared w.table (record w.store { path_refs = path_copy w.store.path_refs w.v_cwd })

  -- init_task_vfs: a table without descriptors of `n` places, in the root directory.
  unfoldable pub init_task_vfs : (n root : ℕ) → Who → Store D → Proc D
  init_task_vfs n root who s = record {
    table = replicate n no_descr;
    v_cwd = root;
    who = who;
    store = record s { path_refs = path_copy s.path_refs root };
  }

  abbrev pub chain_close :
      {X : Type 0} → Option (Result (Unit {0}) × Store D) → (Store D → Option X) → Option X
  chain_close none k = none
  chain_close (some (r, s)) k = k s

  -- The errors of file_close are not looked at.
  unfoldable pub release : List Descr → Store D → Option (List Descr × Store D)
  unfolding copy_descr
  release [] s = some ([], s)
  release (d ∷ table) s =
      if d.occupied
      then chain_close (file_close d.file s) (λ s'. copy_descr no_descr (release table s'))
      else copy_descr d (release table s)

  unfoldable pub free_task_vfs : Proc D → Option (List Descr × Store D)
  unfolding release
  free_task_vfs w =
      release w.table (record w.store { path_refs = path_put w.store.path_refs w.v_cwd })

  abbrev pub with_driver : Proc D → D → Proc D
  with_driver w d = record w { store = record w.store { driver = d } }

  -- path_lookup took a reference on the path.
  abbrev pub with_path : Proc D → Spot → D → Proc D
  with_path w path d = record w {
    store = record w.store { path_refs = path_copy w.store.path_refs path.entry; driver = d };
  }

  abbrev pub without_path : Proc D → Spot → Proc D
  without_path w path = record w {
    store = record w.store { path_refs = path_put w.store.path_refs path.entry };
  }

  module _ (K : Kernel D) where
    unfoldable pub finish_open : Proc D → ℕ → Result ℕ × Store D → Result ℕ × Proc D
    finish_open w fd (ok p, s) = (
      ok fd,
      record w {
        store = s;
        table =
            set w.table fd (record (get_or w.table fd no_descr) { file = some p; invalid = false });
      },
    )
    finish_open w fd (err e, s) = (err e, record w { store = s; table = set w.table fd no_descr })

    -- file_open takes a reference of its own on the path, and the caller's is given up.
    unfoldable pub open_path : Proc D → ℕ → Flags → Spot → Result ℕ × Proc D
    unfolding finish_open
    open_path w fd flags path =
        let (r, s') = file_open K w.who path flags w.store in
        finish_open w fd (r, record s' { path_refs = path_put s'.path_refs path.entry })

    -- The path exists; sys_mknod made it if `created`.
    unfoldable pub open_found : Proc D → ℕ → Flags → Bool → Spot → D → Result ℕ × Proc D
    unfolding open_path
    open_found w fd flags created path d =
        if not created && flags.o_excl
        then (err Errno.eexist, sys_relfd fd (without_path (with_path w path d) path))
        else open_path (with_path w path d) fd flags path

    unfoldable pub open_again : Proc D → ℕ → Flags → Result Spot × D → Result ℕ × Proc D
    unfolding open_found
    open_again w fd flags (err e, d) = (err e, sys_relfd fd (with_driver w d))
    open_again w fd flags (ok path, d) = open_found w fd flags true path d

    unfoldable pub open_made : Proc D → ℕ → ℕ → Flags → Result (Unit {0}) × D → Result ℕ × Proc D
    unfolding open_again
    open_made w fd name flags (err e, d) = (err e, sys_relfd fd (with_driver w d))
    open_made w fd name flags (ok tt, d) = open_again w fd flags (K.path_lookup d name)

    unfoldable pub open_looked : Proc D → ℕ → ℕ → Flags → ℕ → Result Spot × D → Result ℕ × Proc D
    unfolding open_made open_found
    open_looked w fd name flags mode (ok path, d) = open_found w fd flags false path d
    open_looked w fd name flags mode (err e, d) =
        if flags.o_creat
        then open_made w fd name flags (K.sys_mknod d name mode)
        else (err e, sys_relfd fd (with_driver w d))

    unfoldable pub open_at : Proc D → Option ℕ → ℕ → Flags → ℕ → Result ℕ × Proc D
    unfolding open_looked
    open_at w none name flags mode = (err Errno.emfile, w)
    open_at w (some fd) name flags mode =
        open_looked w fd name flags mode (K.path_lookup w.store.driver name)

    unfoldable pub sys_open : (name : ℕ) → Flags → (mode : ℕ) → Proc D → Result ℕ × Proc D
    unfolding open_at sys_resfd
    sys_open name flags mode w = let (fd, w') = sys_resfd w in open_at w' fd name flags mode
