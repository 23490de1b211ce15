-- ===== src/Tty.antt =====
-- The input queue of a terminal and its line discipline, kernel/src/tty.c. The caller holds the lock of
-- the device.
pub mod Queue
pub mod Reads
mod Tests
use stewieos.Prelude.{
  ℕ, zero, suc, ◌+◌, ◌-◌, ◌%◌, ◌<◌, Bool, true, false, not, ◌&&◌, ◌||◌, Option, none, some, List,
  [], ◌∷◌, ◌++◌, ltb, leb, ◌==◌, if◌then◌else◌, get_or, set, take, drop,
}
use stewieos.Ring.{next, prev}

abbrev pub tty_queuelen : ℕ
tty_queuelen = 1024

-- The flags of struct termios that the file tests, and two of its control characters, which are below
-- 128 (a `char` is signed).
pub record Termios : Type 0 where
  pub istrip : Bool
  pub inlcr : Bool
  pub icrnl : Bool
  pub iuclc : Bool
  pub icanon : Bool
  pub echoe : Bool
  pub echo : Bool
  pub echonl : Bool
  pub verase : ℕ
  pub veol : ℕ

-- `tty_device_t`. `read` and `write` are positions in the queue's array; `echoed` and `woken` are the
-- characters given to tty_putchar and the tasks given to task_wakeup, the latest first.
pub record Tty : Type 0 where
  pub read : ℕ
  pub write : ℕ
  pub queue : List ℕ
  pub termios : Termios
  pub task : Option ℕ
  pub echoed : List ℕ
  pub woken : List ℕ

-- What the input flags make of a character.
pub translate : Termios → ℕ → ℕ
translate m c =
    let c1 = if m.istrip then c % 128 else c in
    let c2 = if (c1 == 10) && m.inlcr then 13 else if (c1 == 13) && m.icrnl then 10 else c1 in
    if m.iuclc && leb 65 c2 && leb c2 90 then c2 - 65 + 97 else c2

pub tty_queue_empty : Tty → Bool
tty_queue_empty t = t.read == t.write

-- `waiting` is T_WAITING of the task `device->task`.
pub wake : (waiting : Bool) → Option ℕ → List ℕ → List ℕ
wake waiting none woken = woken
wake waiting (some task) woken = if waiting then task ∷ woken else woken

pub store : (waiting : Bool) (c : ℕ) → Tty → Tty
unfolding wake
store waiting c t =
    let m = t.termios in
    record t {
      queue = set t.queue t.write c;
      write = next tty_queuelen t.write;
      woken =
          if (m.icanon && (c == m.veol)) || not m.icanon
          then wake waiting t.task t.woken
          else t.woken;
    }

pub erase : Tty → Tty
erase t = record t { write = prev tty_queuelen t.write }

-- Whether a translated character is the one that takes back its predecessor.
abbrev pub erases : Termios → ℕ → Bool
erases m c = (c == m.verase) && (m.icanon || m.echoe)

abbrev pub echoes : Termios → ℕ → Bool
echoes m c = m.echo || (m.echonl && (c == 10))

-- tty_queue_insert from behind the translation of its character.
pub insert_translated : (waiting : Bool) (c : ℕ) → Tty → Tty
unfolding tty_queue_empty store erase
insert_translated waiting c t =
    let t' = if erases t.termios c then erase t else store waiting c t in
    if erases t.termios c && tty_queue_empty t
    then t
    else if echoes t.termios c
    then record t' { echoed = c ∷ t'.echoed }
    else t'

pub tty_queue_insert : (waiting : Bool) (c : ℕ) → Tty → Tty
unfolding translate insert_translated
tty_queue_insert waiting c t = insert_translated waiting (translate t.termios c) t

-- The character -1 is 255.
pub tty_queue_remove : Tty → ℕ × Tty
unfolding tty_queue_empty
tty_queue_remove t =
    if tty_queue_empty t
    then (255, t)
    else (get_or t.queue t.write 0, record t { write = prev tty_queuelen t.write })

pub tty_queue_getchar : Tty → ℕ × Tty
unfolding tty_queue_empty
tty_queue_getchar t =
    if tty_queue_empty t
    then (255, t)
    else (get_or t.queue t.read 0, record t { read = next tty_queuelen t.read })

pub tty_queue_peek : Tty → ℕ
unfolding tty_queue_empty
tty_queue_peek t = if tty_queue_empty t then 0 else get_or t.queue (prev tty_queuelen t.write) 0

pub tty_end_of_line : Tty → Bool
unfolding tty_queue_peek
tty_end_of_line t = let c = tty_queue_peek t in (c == 10) || (c == t.termios.veol)

-- `memcpy(buffer, &queue[read], n)`
abbrev pub copied : Tty → (n : ℕ) → List ℕ
copied t n = take n (drop t.read t.queue)

-- The part of tty_queue_read behind its first `if`: `buffer` holds the `n` bytes read so far, and
-- `want` is count - n.
pub read_rest : (want : ℕ) → List ℕ → Tty → List ℕ × Tty
read_rest want buffer t =
    if want == 0
    then (buffer, t)
    else if ltb want (t.write - t.read)
    then (buffer ++ copied t want, record t { read = t.read + want })
    else (buffer ++ copied t (t.write - t.read), record t { read = t.write })

pub tty_queue_read : (count : ℕ) → Tty → List ℕ × Tty
unfolding tty_queue_empty read_rest
tty_queue_read count t =
    let to_end = tty_queuelen - 1 - t.read in
    let n = if ltb count to_end then count else to_end in
    if tty_queue_empty t
    then ([], t)
    else if ltb t.write t.read
    then read_rest (count - n) (copied t n) (record t { read = 0 })
    else read_rest count [] t

-- tty_file_read of a terminal in canonical mode: it sleeps once, unless a line is there, while
-- `event` happens, and then reads what there is.
pub read_line : (current : ℕ) (event : Tty → Tty) (count : ℕ) → Tty → List ℕ × Tty
unfolding tty_end_of_line tty_queue_read
read_line current event count t =
    let woken = record (event (record t { task = some current })) { task = none } in
    if tty_end_of_line t then tty_queue_read count t else tty_queue_read count woken
