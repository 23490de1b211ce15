-- ===== src/File/Calls.antt =====
-- The calls on an open file: file_read and its kin of kernel/src/file.c, and the system calls of
-- kernel/src/fs.c that find the file by its descriptor. A result `none` is a use of a released file.
use stewieos.Prelude.{
  ℕ, ◌+◌, ◌%◌, ◌^◌, Option, none, some, List, get_elem?, set, Result, Errno, ok, err, not,
  if◌then◌else◌, Bool, true, false,
}
use stewieos.File.Types.{Kind, Descr, Whence, Kernel, File, Store, Proc}
use stewieos.File.Objects.{load, keep}
use stewieos.File.Table.{fd_valid, file_of}

-- S_ISDIR(i_mode & S_IFDIR): the bit of S_IFDIR is set in the type of a block device as well.
abbrev pub has_dir_bit : Kind → Bool
has_dir_bit Kind.directory = true
has_dir_bit Kind.block_file = true
has_dir_bit Kind.char_file = false
has_dir_bit Kind.fifo = false
has_dir_bit Kind.regular = false

module _ {D : Type 0} where
  -- An operation gave an answer, moved `f_off` and changed the state behind the drivers.
  abbrev pub store_off : {A : Type 0} → Store D → ℕ → File D → Result A × ℕ × D → Result A × Store D
  store_off s p f (r, off, d) =
      (r, record s { files = set s.files p (some (record f { f_off = off })); driver = d })

  abbrev pub store_driver : {A : Type 0} → Store D → Result A × D → Result A × Store D
  store_driver s (r, d) = (r, record s { driver = d })

  -- A NULL operation is -EINVAL.
  unfoldable pub read_op_with :
      Option (D → ℕ → ℕ → ℕ → Result (List ℕ) × ℕ × D)
      → (p count : ℕ) → File D
      → Store D
      → Result (List ℕ) × Store D
  read_op_with none p count f s = (err Errno.einval, s)
  read_op_with (some op) p count f s = store_off s p f (op s.driver p f.f_off count)

  unfoldable pub file_read : (p count : ℕ) → File D → Store D → Result (List ℕ) × Store D
  unfolding read_op_with
  file_read p count f s =
      if not f.f_status.fread
      then (err Errno.einval, s)
      else read_op_with f.f_ops.read_op p count f s

  unfoldable pub readdir_with :
      Option (D → ℕ → ℕ → ℕ → Result ℕ × ℕ × D)
      → (p count : ℕ) → File D
      → Store D
      → Result ℕ × Store D
  readdir_with none p count f s = (err Errno.einval, s)
  readdir_with (some op) p count f s = store_off s p f (op s.driver p f.f_off count)

  unfoldable pub file_readdir : (p count : ℕ) → File D → Store D → Result ℕ × Store D
  unfolding readdir_with
  file_readdir p count f s =
      if not (has_dir_bit f.f_path.kind)
      then (err Errno.enotdir, s)
      else if not f.f_status.fread
      then (err Errno.einval, s)
      else readdir_with f.f_ops.readdir_op p count f s

  unfoldable pub ioctl_with :
      Option (D → ℕ → ℕ → ℕ → Result ℕ × D) → (p request argp : ℕ) → Store D → Result ℕ × Store D
  ioctl_with none p request argp s = (err Errno.einval, s)
  ioctl_with (some op) p request argp s = store_driver s (op s.driver p request argp)

  abbrev pub file_ioctl : (p request argp : ℕ) → File D → Store D → Result ℕ × Store D
  file_ioctl p request argp f s = ioctl_with f.f_ops.ioctl_op p request argp s

  unfoldable pub isatty_with :
      Option (D → ℕ → Result ℕ × D) → (p : ℕ) → Store D → Result ℕ × Store D
  isatty_with none p s = (err Errno.enotty, s)
  isatty_with (some op) p s = store_driver s (op s.driver p)

  abbrev pub file_isatty : (p : ℕ) → File D → Store D → Result ℕ × Store D
  file_isatty p f s = isatty_with f.f_ops.isatty_op p s

  module _ (K : Kernel D) where
    -- O_APPEND: the driver is given the size of the inode as offset, and `f_off` is put back.
    unfoldable pub write_op_with :
        Option (D → ℕ → ℕ → List ℕ → Result ℕ × ℕ × D)
        → (p : ℕ) → List ℕ
        → File D
        → Store D
        → Result ℕ × Store D
    write_op_with none p bytes f s = (err Errno.einval, s)
    write_op_with (some op) p bytes f s =
        if f.f_status.o_append
        then (let (r, off, d) = op s.driver p (K.i_size s.driver f.f_path.i_ino) bytes in
            store_off s p f (r, f.f_off, d))
        else store_off s p f (op s.driver p f.f_off bytes)

    unfoldable pub file_write : (p : ℕ) → List ℕ → File D → Store D → Result ℕ × Store D
    unfolding write_op_with
    file_write p bytes f s =
        if not f.f_status.fwrite
        then (err Errno.einval, s)
        else write_op_with f.f_ops.write_op p bytes f s

    abbrev pub at_off : ℕ → ℕ → File D → Store D → Result ℕ × Store D
    at_off p off f s = (ok 0, keep s p (some (record f { f_off = off })))

    -- Without an lseek of the driver the offset is moved and the answer is 0.
    unfoldable pub seek_plain : (p offset : ℕ) → Whence → File D → Store D → Result ℕ × Store D
    seek_plain p offset Whence.seek_set f s = at_off p offset f s
    seek_plain p offset Whence.seek_cur f s = at_off p ((f.f_off + offset) % 2 ^ 32) f s
    seek_plain p offset Whence.seek_end f s =
        at_off p ((K.i_size s.driver f.f_path.i_ino + offset) % 2 ^ 32) f s
    seek_plain p offset Whence.other_whence f s = (err Errno.einval, s)

    unfoldable pub seek_with :
        Option (D → ℕ → ℕ → ℕ → Whence → Result ℕ × ℕ × D)
        → (p offset : ℕ) → Whence
        → File D
        → Store D
        → Result ℕ × Store D
    unfolding seek_plain
    seek_with none p offset whence f s = seek_plain p offset whence f s
    seek_with (some op) p offset whence f s = store_off s p f (op s.driver p f.f_off offset whence)

    unfoldable pub file_seek : (p offset : ℕ) → Whence → File D → Store D → Result ℕ × Store D
    unfolding seek_with
    file_seek p offset whence f s = seek_with f.f_ops.lseek_op p offset whence f s

  -- The file of a descriptor is looked up and handed on.
  abbrev pub on_file :
      {A : Type 0}
      → Proc D
      → Option (File D)
      → (File D → Result A × Store D)
      → Option (Result A × Proc D)
  on_file w none call = none
  on_file w (some f) call = let (r, s) = call f in some (r, record w { store = s })

  abbrev pub on_pointer :
      {A : Type 0}
      → Proc D
      → Option ℕ
      → (ℕ → File D → Result A × Store D)
      → Option (Result A × Proc D)
  on_pointer w none call = none
  on_pointer w (some p) call = on_file w (load w.store p) (call p)

  abbrev pub on_fd :
      {A : Type 0} → ℕ → Proc D → (ℕ → File D → Result A × Store D) → Option (Result A × Proc D)
  on_fd fd w call =
      if not (fd_valid w.table fd)
      then some (err Errno.ebadf, w)
      else on_pointer w (file_of w fd) call

  abbrev pub sys_read : (fd count : ℕ) → Proc D → Option (Result (List ℕ) × Proc D)
  sys_read fd count w = on_fd fd w (λ p f. file_read p count f w.store)

  abbrev pub sys_readdir : (fd count : ℕ) → Proc D → Option (Result ℕ × Proc D)
  sys_readdir fd count w = on_fd fd w (λ p f. file_readdir p count f w.store)

  abbrev pub sys_isatty : (fd : ℕ) → Proc D → Option (Result ℕ × Proc D)
  sys_isatty fd w = on_fd fd w (λ p f. file_isatty p f w.store)

  abbrev pub sys_write : Kernel D → (fd : ℕ) → List ℕ → Proc D → Option (Result ℕ × Proc D)
  sys_write K fd bytes w = on_fd fd w (λ p f. file_write K p bytes f w.store)

  abbrev pub sys_lseek : Kernel D → (fd offset : ℕ) → Whence → Proc D → Option (Result ℕ × Proc D)
  sys_lseek K fd offset whence w = on_fd fd w (λ p f. file_seek K p offset whence f w.store)

  abbrev pub ioctl_pointer : (request argp : ℕ) → Proc D → Option ℕ → Option (Result ℕ × Proc D)
  ioctl_pointer request argp w none = some (err Errno.ebadf, w)
  ioctl_pointer request argp w (some p) =
      on_file w (load w.store p) (λ f. file_ioctl p request argp f w.store)

  -- No test of the descriptor: outside of the table it reads what is not a descriptor.
  abbrev pub ioctl_at : (request argp : ℕ) → Proc D → Option Descr → Option (Result ℕ × Proc D)
  ioctl_at request argp w none = none
  ioctl_at request argp w (some d) = ioctl_pointer request argp w d.file

  abbrev pub sys_ioctl : (fd request argp : ℕ) → Proc D → Option (Result ℕ × Proc D)
  sys_ioctl fd request argp w = ioctl_at request argp w (get_elem? w.table fd)
