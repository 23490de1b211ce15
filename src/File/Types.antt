-- ===== src/File/Types.antt =====
-- The data of open files (struct file, struct file_descr and struct vfs of
-- kernel/include/stewieos/fs.h). `D` is what the drivers and the directory tree keep; the functions of
-- both come in as values of `FileOps` and `Kernel`. An int that is negative for an error is a Result.
use stewieos.Prelude.{ℕ, Bool, true, false, Option, none, List, Result, ◌&&◌, not}
use stewieos.Access.{Place, Who}

-- The bits of the open flags that the code tests: `fread` and `fwrite` are (flags+1) & _FREAD and
-- (flags+1) & _FWRITE, `o_append` is (flags+1) & O_APPEND.
pub record Flags : Type 0 where
  pub fread : Bool
  pub fwrite : Bool
  pub o_append : Bool
  pub o_trunc : Bool
  pub o_creat : Bool
  pub o_excl : Bool

-- The file type of `i_mode`.
pub data Kind : Type 0 where
  directory block_file char_file fifo regular : Kind

-- A path: what its permissions depend on, the number of its entry, and the type, number and device of
-- its inode.
pub record Spot : Type 0 where
  pub place : Place
  pub entry : ℕ
  pub kind : Kind
  pub i_ino : ℕ
  pub dev_major : ℕ

pub data Whence : Type 0 where
  seek_set seek_cur seek_end other_whence : Whence

-- struct file_operations; a NULL pointer is `none`. An operation is given the file's number, and where
-- it may move `f_off` the offset, and gives the offset back. Those that the code asks for 0 or an error
-- only give a Result of the unit type.
pub record FileOps (D : Type 0) : Type 0 where
  pub open_op : Option (D → ℕ → Spot → Flags → Result (Unit {0}) × D)
  pub close_op : Option (D → ℕ → Spot → Result (Unit {0}) × D)
  pub read_op : Option (D → ℕ → ℕ → ℕ → Result (List ℕ) × ℕ × D)
  pub readdir_op : Option (D → ℕ → ℕ → ℕ → Result ℕ × ℕ × D)
  pub write_op : Option (D → ℕ → ℕ → List ℕ → Result ℕ × ℕ × D)
  pub lseek_op : Option (D → ℕ → ℕ → ℕ → Whence → Result ℕ × ℕ × D)
  pub ioctl_op : Option (D → ℕ → ℕ → ℕ → Result ℕ × D)
  pub isatty_op : Option (D → ℕ → Result ℕ × D)

-- What open files use of the rest of the kernel, by the names of the source. `kmalloc` tells whether
-- there is memory for one struct file; `i_size` reads the size of an inode.
pub record Kernel (D : Type 0) : Type 0 where
  pub path_lookup : D → ℕ → Result Spot × D
  pub sys_mknod : D → ℕ → ℕ → Result (Unit {0}) × D
  pub inode_trunc : D → Spot → Result (Unit {0}) × D
  pub kmalloc : D → Bool × D
  pub i_size : D → ℕ → ℕ
  pub block_device_fops : FileOps D
  pub pipe_operations : FileOps D
  pub get_chrdev_fops : D → ℕ → Option (FileOps D)
  pub i_default_fops : D → Spot → Option (FileOps D)

-- struct file. `f_refs` and `f_off` are the 32-bit patterns of an int and an off_t.
pub record File (D : Type 0) : Type 0 where
  pub f_path : Spot
  pub f_ops : FileOps D
  pub f_off : ℕ
  pub f_status : Flags
  pub f_refs : ℕ

-- The memory of the struct files: the number of a file is its address, a file that kfree has released
-- is `none`. `path_refs` counts the references that are held on an entry.
pub record Store (D : Type 0) : Type 0 where
  pub files : List (Option (File D))
  pub path_refs : ℕ → ℕ
  pub driver : D

-- struct file_descr, with the flags FD_OCCUPIED and FD_INVALID.
pub record Descr : Type 0 where
  pub file : Option ℕ
  pub occupied : Bool
  pub invalid : Bool

-- The running task: `v_openvect`, a list of TASK_MAX_OPEN_FILES, the entry of `v_cwd`, and its
-- user; and the memory.
pub record Proc (D : Type 0) : Type 0 where
  pub table : List Descr
  pub v_cwd : ℕ
  pub who : Who
  pub store : Store D

abbrev pub task_max_open_files : ℕ
task_max_open_files = 1024

abbrev pub no_descr : Descr
no_descr = record { file = none; occupied = false; invalid = false }

abbrev pub reserved : Descr
reserved = record { file = none; occupied = true; invalid = true }

abbrev pub is_valid : Descr → Bool
is_valid d = d.occupied && not d.invalid
