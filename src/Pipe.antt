-- ===== src/Pipe.antt =====
-- Named pipes of kernel/src/pipe.c: a circular buffer of bytes between the tasks that opened one
-- inode. Other tasks act on the pipe while a reader sleeps: what they did by the time it wakes is an
-- argument of the model. The two spin locks have no effect on a single reader and writer.
pub mod Transfer
pub mod Wait
pub mod Open
mod Tests
use Prim.Native.Nat.{bit_and}
use stewieos.Prelude.{
  ℕ, zero, suc, ◌+◌, ◌-◌, ◌%◌, ◌^◌, Bool, true, false, not, ◌&&◌, ◌||◌, Option, none, some, List,
  [], ◌∷◌, ◌++◌, ◌==◌, if◌then◌else◌, length, get_or, set, ltb, take, replicate, Errno, Result, ok,
  err,
}
use stewieos.Ring.{next}

abbrev pub kernel_pipe_length : ℕ
kernel_pipe_length = 1024

-- `pipe_t`. The pointers `read` and `write` are positions in `buffer`, `len` is the field `length`,
-- `inode` and `reader` are the numbers of an inode and of a task.
pub record Pipe : Type 0 where
  pub buffer : List ℕ
  pub len : ℕ
  pub read : ℕ
  pub write : ℕ
  pub nreaders : ℕ
  pub nwriters : ℕ
  pub inode : ℕ
  pub reader : Option ℕ

-- How many bytes the tests `n < (ssize_t)count` ask for: none where the count, a size_t, is negative as a
-- ssize_t.
abbrev pub as_ssize : (count : ℕ) → ℕ
as_ssize count = if ltb (count % 2 ^ 32) (2 ^ 31) then count % 2 ^ 32 else 0

-- The loop of pipe_write over the bytes of the caller's buffer.
pub write_bytes : List ℕ → Pipe → Pipe
write_bytes [] p = p
write_bytes (b ∷ bs) p =
    write_bytes bs (record p { buffer = set p.buffer p.write b; write = next p.len p.write })

-- `waiting` is T_WAITING of the task `pipe->reader`. The result is the count, the pipe, and the task
-- that is woken.
pub pipe_write : (waiting : Bool) → List ℕ → Pipe → ℕ × Pipe × Option ℕ
unfolding write_bytes
pipe_write waiting bytes p =
    let n = as_ssize (length bytes) in
    let p' = write_bytes (take n bytes) p in (n, p', if waiting then p'.reader else none)

-- The inner loop of pipe_read: `want` is count - n.
pub drain : (want : ℕ) → Pipe → List ℕ × Pipe
drain zero p = ([], p)
drain (suc want) p =
    let (bs, p') = drain want (record p { read = next p.len p.read }) in
    if p.read == p.write then ([], p) else (get_or p.buffer p.read 0 ∷ bs, p')

-- How a call of pipe_read ends: with -1, with some bytes, or not: the reader is still asleep.
pub data Reading : Type 0 where
  eof : Pipe → Reading
  got : List ℕ → Pipe → Reading
  asleep : List ℕ → Pipe → Reading
  out_of_fuel : Reading

abbrev pub empty : Pipe → Bool
empty p = p.read == p.write

-- The return at the end of the data: -1 if nothing was read. `pipe->reader` is left as it is.
abbrev pub ended : List ℕ → Pipe → Reading
ended [] p = eof p
ended (b ∷ bs) p = got (b ∷ bs) p

-- The outer loop. `events` says what the other tasks do to the pipe during each sleep, `buffer` what
-- has been read so far, `want` is count - n, for a count that is not negative.
pub read_loop : (fuel : ℕ) (events : List (Pipe → Pipe)) (want : ℕ) → List ℕ → Pipe → Reading
read_loop zero events want buffer p = out_of_fuel
read_loop (suc fuel) [] want buffer p =
    let (bs, p') = drain want p in
    let more = read_loop fuel [] (want - length bs) (buffer ++ bs) p' in
    if want == 0
    then got buffer (record p { reader = none })
    else if (p.nwriters == 0) && empty p
    then ended buffer p
    else if empty p
    then asleep buffer p
    else more
read_loop (suc fuel) (event ∷ events) want buffer p =
    let (bs, p') = drain want p in
    let more = read_loop fuel (event ∷ events) (want - length bs) (buffer ++ bs) p' in
    let (bs', p'') = drain want (event p) in
    let woken = read_loop fuel events (want - length bs') (buffer ++ bs') p'' in
    if want == 0
    then got buffer (record p { reader = none })
    else if (p.nwriters == 0) && empty p
    then ended buffer p
    else if empty p
    then woken
    else more

-- pipe_read by task `current`. Two rounds, and one for each sleep, are enough fuel.
pub pipe_read : (current : ℕ) (events : List (Pipe → Pipe)) (count : ℕ) → Pipe → Reading
unfolding read_loop drain
pipe_read current events count p =
    read_loop (length events + 3) events (as_ssize count) [] (record p { reader = some current })

-- The list `pipe_list`.
pub find_open_pipe : ℕ → List Pipe → Option Pipe
find_open_pipe inode [] = none
find_open_pipe inode (p ∷ ps) = if p.inode == inode then some p else find_open_pipe inode ps

-- A change of the pipe that `find_open_pipe` finds, and its removal from the list.
pub alter : ℕ → (Pipe → Pipe) → List Pipe → List Pipe
alter inode f [] = []
alter inode f (p ∷ ps) = if p.inode == inode then f p ∷ ps else p ∷ alter inode f ps

pub remove : ℕ → List Pipe → List Pipe
remove inode [] = []
remove inode (p ∷ ps) = if p.inode == inode then ps else p ∷ remove inode ps

-- The bits of <fcntl.h>.
pub record OpenFlags : Type 0 where
  pub o_rdonly : ℕ
  pub o_wronly : ℕ
  pub o_rdwr : ℕ

-- `size_t` counters, up and down
abbrev pub up : Bool → ℕ → ℕ
up b n = if b then (n + 1) % 2 ^ 32 else n

abbrev pub down : Bool → ℕ → ℕ
down b n = if b then (n + (2 ^ 32 - 1)) % 2 ^ 32 else n

pub fresh_pipe : ℕ → List ℕ → Pipe
fresh_pipe inode storage = record {
  buffer = storage;
  len = kernel_pipe_length;
  read = 0;
  write = 0;
  nreaders = 0;
  nwriters = 0;
  inode = inode;
  reader = none;
}

module _ (o : OpenFlags) where
  -- `(mode & O_RDONLY) || (mode & O_RDWR)`, and the same for writing
  abbrev pub reads : ℕ → Bool
  reads mode = not (bit_and mode o.o_rdonly == 0) || not (bit_and mode o.o_rdwr == 0)

  abbrev pub writes : ℕ → Bool
  writes mode = not (bit_and mode o.o_wronly == 0) || not (bit_and mode o.o_rdwr == 0)

  pub count_open : ℕ → Pipe → Pipe
  count_open mode p = record p {
    nreaders = up (reads mode) p.nreaders;
    nwriters = up (writes mode) p.nwriters;
  }

  -- `memory` is the storage of the new buffer, or `none` if one of the two kmalloc calls fails.
  pub pipe_open :
      (memory : Option (List ℕ)) (inode mode : ℕ) → List Pipe → Result (Unit {0}) × List Pipe
  unfolding count_open fresh_pipe find_open_pipe alter
  pipe_open memory inode mode ps = elim (find_open_pipe inode ps) [
    | some p ↦ (ok tt, alter inode (count_open mode) ps)
    | none ↦ elim memory [
      | none ↦ (err Errno.enomem, ps)
      | some storage ↦ (ok tt, count_open mode (fresh_pipe inode storage) ∷ ps)
    ]
  ]

  pub count_close : ℕ → Pipe → Pipe
  count_close status p = record p {
    nreaders = down (reads status) p.nreaders;
    nwriters = down (writes status) p.nwriters;
  }

  -- `f_private` of the file is the pipe of its inode. The pipe goes when nobody has it open.
  pub pipe_close : (inode status : ℕ) → List Pipe → List Pipe
  unfolding count_close find_open_pipe alter remove
  pipe_close inode status ps = elim (find_open_pipe inode ps) [
    | none ↦ ps
    | some p ↦
        let p' = count_close status p in
        if (p'.nwriters == 0) && (p'.nreaders == 0)
        then remove inode ps
        else alter inode (count_close status) ps
  ]
