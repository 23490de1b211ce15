-- ===== src/Sem.antt =====
-- Semaphores of kernel/src/sem.c. A task is its number; `sem_wait` is cut where its task goes to
-- sleep. A call on a semaphore whose spin lock is held by nobody who will release it never ends.
pub mod Owed
pub mod Conserve
pub mod Timeout
pub mod Sleep
mod Tests
use stewieos.Prelude.{
  ℕ, zero, suc, ◌+◌, ◌-◌, ◌%◌, ◌^◌, Bool, true, false, Option, none, some, List, [], ◌∷◌, ◌++◌, ltb,
  leb, ◌==◌, if◌then◌else◌, Errno, Result, ok, err, not, ◌&&◌,
}

-- SEM_FOREVER, which is also the initial `earliest_timeout` and TIMER_CANCEL's place in the code.
abbrev pub forever : ℕ
forever = 2 ^ 32 - 1

-- `sem_t`: an `int` by its 32 bits, the list of tasks that wait, the first one first.
pub record Sem : Type 0 where
  pub units : ℕ
  pub locked : Bool
  pub tasks : List ℕ
  pub earliest_timeout : ℕ

-- What the calls reach: the field `t_timeout` of every task, the tasks given to task_wakeup, and the
-- ticks for which timer_callback was asked to call sem_timeout, the latest first.
pub record World : Type 0 where
  pub sem : Sem
  pub t_timeout : ℕ → ℕ
  pub woken : List ℕ
  pub timers : List ℕ

-- How a call ends: it returns, its task goes to sleep, or it spins on the lock for ever.
pub data Outcome : Type 0 where
  returned : Result (Unit {0}) → World → Outcome
  asleep : World → Outcome
  spins : Outcome

-- `task->t_timeout = v`
abbrev pub assign : (ℕ → ℕ) → (task v : ℕ) → ℕ → ℕ
assign f task v = λ t. if task == t then v else f t

-- `got` is whether kmalloc succeeds.
pub sem_alloc : (got : Bool) (max_units : ℕ) → Option Sem
sem_alloc got max_units =
    if got
    then some (record {
      units = max_units % 2 ^ 32;
      locked = false;
      tasks = [];
      earliest_timeout = forever;
    })
    else none

-- The semaphore is gone after a success.
pub sem_free : World → Outcome
sem_free w = if w.sem.locked then Outcome.spins else elim w.sem.tasks [
  | [] ↦ Outcome.returned (ok tt) w
  | t ∷ ts ↦ Outcome.returned (err Errno.ebusy) w
]

-- The loop of sem_timeout: the earliest tick, and the tasks that go on waiting.
pub scan : (now earliest : ℕ) → List ℕ → World → ℕ × List ℕ × World
scan now earliest [] w = (earliest, [], w)
scan now earliest (task ∷ tasks) w =
    let timeout = w.t_timeout task in
    let expired = leb timeout now in
    let (e, kept, w') =
      scan now (if not expired && ltb timeout earliest then timeout else earliest) tasks (
        if expired
        then record w { t_timeout = assign w.t_timeout task 0; woken = task ∷ w.woken }
        else w) in
    (e, if expired then kept else task ∷ kept, w')

-- The callback of the timer: the tick of its next call, or `none` for TIMER_CANCEL. The outer `none`
-- spins on the lock.
pub sem_timeout : (now : ℕ) → World → Option (Option ℕ × World)
unfolding scan
sem_timeout now w =
    let (earliest, kept, w') = scan now forever w.sem.tasks w in
    if w.sem.locked
    then none
    else some (
      if earliest == forever then none else some earliest,
      record w' { sem = record w.sem { tasks = kept } },
    )

-- sem_wait by task `current` up to where it returns or sleeps; `ticks` is timer_get_ticks(). The
-- early return for a timeout of 0 leaves the lock held.
pub sem_wait : (current ticks timeout : ℕ) → World → Outcome
sem_wait current ticks timeout w =
    let deadline = (ticks + timeout) % 2 ^ 32 in
    let queued = record w {
      sem = record w.sem { tasks = w.sem.tasks ++ current ∷ [] };
      t_timeout = assign w.t_timeout current deadline;
    } in
    if w.sem.locked
    then Outcome.spins
    else if w.sem.units == 0
    then (if timeout == 0
        then Outcome.returned (err Errno.etimedout)
            (record w { sem = record w.sem { locked = true } })
        else if ltb deadline w.sem.earliest_timeout
        then Outcome.asleep (record queued {
          sem = record queued.sem { earliest_timeout = deadline };
          timers = deadline ∷ w.timers;
        })
        else Outcome.asleep queued)
    else Outcome.returned (ok tt)
        (record w { sem = record w.sem { units = (w.sem.units + (2 ^ 32 - 1)) % 2 ^ 32 } })

-- What sem_wait returns when its task has been woken.
pub sem_wait_woken : (current : ℕ) → World → Result (Unit {0})
sem_wait_woken current w = if w.t_timeout current == 1 then ok tt else err Errno.etimedout

-- The unit goes to the first task that waits, or to the count.
pub hand_over : List ℕ → World → World
hand_over [] w = record w { sem = record w.sem { units = (w.sem.units + 1) % 2 ^ 32 } }
hand_over (task ∷ tasks) w = record w {
  sem = record w.sem { tasks = tasks };
  t_timeout = assign w.t_timeout task 1;
  woken = task ∷ w.woken;
}

pub sem_signal : World → Outcome
unfolding hand_over
sem_signal w =
    if w.sem.locked then Outcome.spins else Outcome.returned (ok tt) (hand_over w.sem.tasks w)
