-- ===== src/File/Tests.antt =====
-- Small runs of kernel/src/file.c and of the descriptors of kernel/src/fs.c: one file, named 1.
use stewieos.Prelude.{
  ℕ, ◌+◌, true, false, none, some, [], ◌∷◌, ◌≡◌, refl, ok, err, Errno, Result, ◌==◌, if◌then◌else◌,
  List, replicate,
}
use stewieos.Access.{Who}
use stewieos.File.{
  Flags, Kind, Spot, FileOps, Kernel, Proc, File, no_descr, sys_open, sys_close, copy_task_vfs,
  free_task_vfs, file_open, path_put, file_close,
}
use stewieos.File.Balance.{ClosesAll}
use stewieos.File.Reach.{
  Procs, Reach, here, next, calls, Steady, run, open_call, Call, Waiting, as_running,
}
use stewieos.File.Boot.{boot, boot-Steady}
use stewieos.File.Steady.{Reach-Steady, Reach-IsSafe, IsSafe}
use stewieos.File.Failure.{LeavesNothing, sys_open-LeavesNothing}
use stewieos.File.Rights.{OpensGranted, file_open-OpensGranted}

abbrev read_file : ℕ → ℕ → ℕ → ℕ → Result (List ℕ) × ℕ × ℕ
read_file d p off count = (ok (off ∷ count ∷ []), off + count, d)

abbrev plain : FileOps ℕ
plain = record {
  open_op = none;
  close_op = none;
  read_op = some read_file;
  readdir_op = none;
  write_op = none;
  lseek_op = none;
  ioctl_op = none;
  isatty_op = none;
}

abbrev spot : Spot
spot = record {
  place = record {
    at_root = true;
    p_mount = none;
    inode = record {
      i_uid = 0;
      i_gid = 0;
      usr = record { read = true; write = true; exec = false };
      grp = record { read = true; write = false; exec = false };
      oth = record { read = true; write = false; exec = false };
    };
  };
  entry = 7;
  kind = Kind.regular;
  i_ino = 3;
  dev_major = 0;
}

abbrev kernel : Kernel ℕ
kernel = record {
  path_lookup = λ d name. (if name == 1 then ok spot else err Errno.enoent, d);
  sys_mknod = λ d name mode. (ok tt, d);
  inode_trunc = λ d path. (ok tt, d);
  kmalloc = λ d. (true, d);
  i_size = λ d ino. 0;
  block_device_fops = plain;
  pipe_operations = plain;
  get_chrdev_fops = λ d n. none;
  i_default_fops = λ d path. some plain;
}

abbrev closes : ClosesAll kernel
closes = record {
  block_closes = tt;
  pipe_closes = tt;
  chrdev_closes = λ d n. tt;
  default_closes = λ d path. tt;
}

abbrev root : Who
root = record { t_uid = 0; t_gid = 0 }

abbrev to_read : Flags
to_read = record {
  fread = true;
  fwrite = false;
  o_append = false;
  o_trunc = false;
  o_creat = false;
  o_excl = false;
}

abbrev start : Procs ℕ
start = record {
  running = record {
    table = replicate 1024 no_descr;
    v_cwd = 2;
    who = root;
    store = record { files = []; path_refs = λ e. if e == 2 then 1 else 0; driver = 5 };
  };
  waiting = [];
}

start-Steady : Steady start
unfolding boot
start-Steady = boot-Steady 2 root (λ e. 0) 5

-- after one sys_open
abbrev opened : Procs ℕ
opened = record { running = (sys_open kernel 1 to_read 0 start.running).1; waiting = [] }

reached : Reach kernel start opened
reached = next here (calls (open_call 1 to_read 0) start.running opened.running _ [] refl)

Reach-Steady_example : Steady opened
Reach-Steady_example = Reach-Steady kernel closes start-Steady reached

Reach-IsSafe_example :
    ((c : Call) → IsSafe (run kernel c opened.running))
    × IsSafe (copy_task_vfs opened.running)
    × ((v : Waiting) (vs : List Waiting)
        → [] ≡ v ∷ vs
        → IsSafe (free_task_vfs (as_running v opened.running.store)))
Reach-IsSafe_example = Reach-IsSafe kernel closes start opened start-Steady reached

sys_open-LeavesNothing_example :
    LeavesNothing start.running (sys_open kernel 4 to_read 0 start.running)
sys_open-LeavesNothing_example = sys_open-LeavesNothing kernel start.running 4 to_read 0

file_open-OpensGranted_example :
    OpensGranted kernel root spot to_read (file_open kernel root spot to_read start.running.store)
file_open-OpensGranted_example = file_open-OpensGranted kernel root spot to_read start.running.store

-- descriptor 0 of a table of 1024 points at the only file
abbrev one_file : File ℕ
one_file = record { f_path = spot; f_ops = plain; f_off = 4; f_status = to_read; f_refs = 1 }

abbrev in_use : Proc ℕ
in_use = record {
  table = record { file = some 0; occupied = true; invalid = false } ∷ replicate 1023 no_descr;
  v_cwd = 2;
  who = root;
  store = record { files = some one_file ∷ []; path_refs = λ e. 1; driver = 5 };
}

abbrev closed : Proc ℕ
closed = record in_use {
  table = no_descr ∷ replicate 1023 no_descr;
  store = record { files = none ∷ []; path_refs = path_put (λ e. 1) 7; driver = 5 };
}

closes_0 : sys_close 0 in_use ≡ some (ok 0, closed)
unfolding sys_close file_close
closes_0 = refl
