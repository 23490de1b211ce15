-- ===== src/Tasks.antt =====
-- Tasks of kernel/src/task.c: the queue of ready tasks, sleeping and waking, exiting, and waiting for a
-- child. A task is its address; `tasks` is the memory behind the addresses. A pid_t that may be
-- negative is an integer. What task_preempt does to registers and stacks is not modelled, nor is
-- signal_check, nor what task_free gives back (open files, messages, the page directory).
pub mod Member
pub mod Queue
pub mod Steps
pub mod Reach
pub mod Since
pub mod Frees
pub mod Passes
pub mod Finds
pub mod Preempt
pub mod Wait
pub mod Exit
pub mod Interrupt
pub mod Lost
pub mod Unfound
pub mod Unwaited
mod Tests
use stewieos.Prelude.{
  ℕ, zero, suc, ◌+◌, ◌-◌, Bool, true, false, not, ◌&&◌, ◌||◌, Option, none, some, List, [], ◌∷◌,
  ◌==◌, if◌then◌else◌, Errno,
}

-- `pid_t`: `pos n` is n and `negsuc n` is -1 - n.
pub data ℤ : Type 0 where
  pos : ℕ → ℤ
  negsuc : ℕ → ℤ

-- the bits of `t_flags`: TF_RUNNING, TF_RESCHED, TF_WAITTASK and so on
pub record TaskFlags : Type 0 where
  pub running : Bool
  pub resched : Bool
  pub waittask : Bool
  pub waitsig : Bool
  pub exiting : Bool
  pub zombie : Bool
  pub execve : Bool
  pub waitio : Bool
  pub waitmesg : Bool
  pub signal : Bool
  pub stopped : Bool

abbrev pub no_flags : TaskFlags
no_flags = record {
  running = false;
  resched = false;
  waittask = false;
  waitsig = false;
  exiting = false;
  zombie = false;
  execve = false;
  waitio = false;
  waitmesg = false;
  signal = false;
  stopped = false;
}

abbrev pub flags_or : TaskFlags → TaskFlags → TaskFlags
flags_or f g = record {
  running = f.running || g.running;
  resched = f.resched || g.resched;
  waittask = f.waittask || g.waittask;
  waitsig = f.waitsig || g.waitsig;
  exiting = f.exiting || g.exiting;
  zombie = f.zombie || g.zombie;
  execve = f.execve || g.execve;
  waitio = f.waitio || g.waitio;
  waitmesg = f.waitmesg || g.waitmesg;
  signal = f.signal || g.signal;
  stopped = f.stopped || g.stopped;
}

-- T_WAITING: any bit of TF_WAITMASK
abbrev pub t_waiting : TaskFlags → Bool
t_waiting f = f.waitio || f.waitsig || f.waittask || f.waitmesg || f.stopped

-- `struct task`, and the globals of task.c
pub record TaskData : Type 0 where
  pub t_pid : ℕ
  pub t_gid : ℕ
  pub t_sid : ℕ
  pub t_flags : TaskFlags
  pub t_waitfor : ℤ
  pub t_ticks_left : ℕ
  pub t_status : ℕ
  pub t_dir : ℕ
  pub t_parent : Option ℕ
  pub t_children : List ℕ

pub record Sched : Type 0 where
  pub tasks : ℕ → TaskData
  pub ready_tasks : List ℕ
  pub globlist : List ℕ
  pub current : ℕ
  pub curdir : ℕ
  pub foreground_pid : ℕ

abbrev pub write_task : (task : ℕ) → TaskData → (ℕ → TaskData) → ℕ → TaskData
write_task task d f = λ t. if task == t then d else f t

abbrev pub update : (task : ℕ) → TaskData → Sched → Sched
update task d w = record w { tasks = write_task task d w.tasks }

unfoldable pub queued : ℕ → List ℕ → Bool
queued task [] = false
queued task (t ∷ ts) = t == task || queued task ts

unfoldable pub unlink : ℕ → List ℕ → List ℕ
unlink task [] = []
unlink task (t ∷ ts) = let rest = unlink task ts in if t == task then rest else t ∷ rest

-- `none` is NULL.
unfoldable pub lookup_in : (ℕ → TaskData) → (pid : ℕ) → List ℕ → Option ℕ
lookup_in tasks pid [] = none
lookup_in tasks pid (t ∷ ts) =
    let rest = lookup_in tasks pid ts in if (tasks t).t_pid == pid then some t else rest

abbrev pub task_by_pid : (pid : ℕ) → Sched → Option ℕ
task_by_pid pid w = lookup_in w.tasks pid w.globlist

unfoldable pub task_setfg : (pid : ℕ) → Sched → Sched
task_setfg pid w = elim (task_by_pid pid w) [
  | none ↦ w
  | some t ↦ record w { foreground_pid = pid }
]

-- task_wait up to its call of schedule
unfoldable pub task_wait : (task : ℕ) (wait_flag : TaskFlags) → Sched → Sched
task_wait task wait_flag w =
    let d = w.tasks task in
    let f = flags_or d.t_flags (flags_or wait_flag (record no_flags { resched = true })) in
    if t_waiting wait_flag
    then update task (record d { t_flags = f })
        (record w { ready_tasks = unlink task w.ready_tasks })
    else w

unfoldable pub task_wakeup : (task : ℕ) → Sched → Sched
task_wakeup task w =
    let d = w.tasks task in
    let f = record d.t_flags {
      running = true;
      resched = false;
      waittask = false;
      waitsig = false;
      waitio = false;
      waitmesg = false;
      stopped = false;
    } in
    if t_waiting d.t_flags
    then update task (record d { t_flags = f })
        (record w { ready_tasks = task ∷ unlink task w.ready_tasks })
    else w

-- task_kill; where the task is `current`, the call then gives up the processor and never returns.
-- sys_exit is task_kill of `current`, and none of its further lines is ever reached.
unfoldable pub task_kill : (task status : ℕ) → Sched → Sched
task_kill task status w =
    let d = w.tasks task in
    update task
      (record d {
        t_status = status;
        t_flags = record no_flags { exiting = true };
        t_ticks_left = if task == w.current then 0 else d.t_ticks_left;
      })
      w

-- the children of a dead task lose their parent
unfoldable pub orphan : List ℕ → (ℕ → TaskData) → ℕ → TaskData
orphan [] f = f
orphan (c ∷ cs) f = orphan cs (write_task c (record (f c) { t_parent = none }) f)

-- whether a parent that waits for `pid` waits for this task
unfoldable pub awaited : (pid : ℤ) (parent dead : TaskData) → Bool
awaited (ℤ.pos zero) parent dead = dead.t_gid == parent.t_pid
awaited (ℤ.pos (suc n)) parent dead = suc n == dead.t_pid
awaited (ℤ.negsuc zero) parent dead = true
awaited (ℤ.negsuc (suc n)) parent dead = dead.t_gid == n + 2

-- the end of task_free: the parent is told
unfoldable pub notify : (parent : Option ℕ) (dead : ℕ) → Sched → Sched
notify none dead w = w
notify (some p) dead w =
    let dp = w.tasks p in
    let dd = w.tasks dead in
    if dp.t_flags.waittask && awaited dp.t_waitfor dp dd
    then task_wakeup p
        (update p (record dp { t_waitfor = ℤ.pos dd.t_pid; t_status = dd.t_status }) w)
    else w

-- `now` is what `current` holds while task_preempt looks for the next task.
unfoldable pub task_free : (now : Option ℕ) (dead : ℕ) → Sched → Sched
task_free now dead w =
    let d = w.tasks dead in
    let freed = record d { t_flags = record no_flags { zombie = true }; t_children = [] } in
    let w' = record w {
      ready_tasks = unlink dead w.ready_tasks;
      tasks = orphan d.t_children (write_task dead freed w.tasks);
    } in
    if elim now [ none ↦ false | some t ↦ dead == t ]
    then w
    else if d.t_pid == 0
    then update dead (record d { t_flags = record no_flags { running = true } }) w
    else notify (w'.tasks dead).t_parent dead w'

unfoldable pub first_of : List ℕ → Option ℕ
first_of [] = none
first_of (x ∷ xs) = some x

-- list_next in ready_tasks: `none` is NULL; a task that is in no list is its own successor.
unfoldable pub next_in : ℕ → List ℕ → Option ℕ
next_in task [] = some task
next_in task (t ∷ ts) = let rest = next_in task ts in if t == task then first_of ts else rest

-- The loop of task_preempt that looks for a task to run, for `rounds` rounds at most. The outer `none`
-- is a loop that goes on longer.
unfoldable pub find_task : (rounds : ℕ) (now : Option ℕ) → Sched → Option (ℕ × Sched)
find_task zero now w = none
find_task (suc n) none w = find_task n (first_of w.ready_tasks) w
find_task (suc n) (some t) w =
    let d = w.tasks t in
    let next = next_in t w.ready_tasks in
    let restart = find_task n (first_of w.ready_tasks) w in
    let bury = find_task n next (task_free next t w) in
    let skip = find_task n next w in
    if t_waiting d.t_flags
    then restart
    else if d.t_flags.exiting
    then (if not (d.t_dir == w.curdir) then bury else skip)
    else some (t, w)

-- list_is_lonely of `current` in ready_tasks
unfoldable pub alone : ℕ → List ℕ → Bool
alone task [] = false
alone task (t ∷ []) = t == task
alone task (t ∷ u ∷ ts) = false

unfoldable pub task_switch : ℕ → Sched → Sched
task_switch t w =
    let d = w.tasks t in
    update t (record d { t_ticks_left = 15 }) (record w { current = t; curdir = d.t_dir })

-- task_preempt, with task_switch at its end; the outer `none` is a loop that goes on longer.
unfoldable pub task_preempt : (rounds : ℕ) → Sched → Option Sched
task_preempt rounds w =
    let d = w.tasks w.current in
    let tired = update w.current (record d { t_flags = record d.t_flags { resched = false } }) w in
    let start =
      if d.t_flags.running then next_in w.current w.ready_tasks else first_of w.ready_tasks in
    if alone w.current w.ready_tasks
    then some w
    else if not (d.t_ticks_left == 0) && d.t_flags.running && not d.t_flags.resched
    then some (update w.current (record d { t_ticks_left = d.t_ticks_left - 1 }) w)
    else elim (find_task rounds start tired) [
      | none ↦ none
      | some (t, w') ↦ some (task_switch t w')
    ]

-- How sys_waitpid ends: it returns, with the status that it stores; or its task goes to sleep; or it
-- stores the status through a NULL pointer.
pub data Waited : Type 0 where
  returned : ℤ → Option ℕ → Sched → Waited
  failed : Errno → Sched → Waited
  asleep : Sched → Waited
  faults : Waited

-- list_rem of the link in the parent's list of children; a task with no parent is in no such list
unfoldable pub unlink_child : (parent : Option ℕ) (child : ℕ) → Sched → Sched
unlink_child none c w = w
unlink_child (some p) c w =
    let d = w.tasks p in update p (record d { t_children = unlink c d.t_children }) w

unfoldable pub remove_task : ℕ → Sched → Sched
remove_task t w = unlink_child (w.tasks t).t_parent t (record w { globlist = unlink t w.globlist })

-- The end of sys_waitpid: the task is removed from its lists and its structure is freed.
unfoldable pub reap : (pid : ℤ) (status : Option ℕ) → Sched → Waited
reap (ℤ.negsuc n) status w = Waited.returned (ℤ.negsuc n) status w
reap (ℤ.pos pid) status w = elim (task_by_pid pid w) [
  | none ↦ Waited.returned (ℤ.pos pid) status w
  | some t ↦ Waited.returned (ℤ.pos pid) status (remove_task t w)
]

-- What sys_waitpid does when its task has been woken; `wants` is whether `status` is not NULL.
unfoldable pub waitpid_woken : (wants : Bool) → Sched → Waited
waitpid_woken wants w =
    let d = w.tasks w.current in
    if wants then reap d.t_waitfor (some d.t_status) w else Waited.faults

-- whether a child that has changed state is one that `pid` asks for; a group is compared with the
-- child's own number
unfoldable pub chosen : (pid : ℤ) (parent child : TaskData) → Bool
chosen (ℤ.pos zero) parent child = child.t_gid == parent.t_gid
chosen (ℤ.pos (suc n)) parent child = false
chosen (ℤ.negsuc zero) parent child = true
chosen (ℤ.negsuc (suc n)) parent child = child.t_pid == n + 2

-- the loop of sys_waitpid over the children: the first dead one that is asked for
unfoldable pub find_dead : (pid : ℤ) → Sched → List ℕ → Option ℕ
find_dead pid w [] = none
find_dead pid w (c ∷ cs) =
    let rest = find_dead pid w cs in
    let d = w.tasks c in
    if d.t_flags.zombie && chosen pid (w.tasks w.current) d then some c else rest

-- the wait for a child that has not changed state, up to where the task sleeps
unfoldable pub wait_for : (pid : ℤ) (nohang : Bool) → Sched → Waited
wait_for pid nohang w =
    let d = w.tasks w.current in
    if nohang
    then Waited.returned (ℤ.pos 0) none w
    else Waited.asleep (
        task_wait w.current (record no_flags { waittask = true })
          (update w.current (record d { t_waitfor = pid }) w))

-- a child that is dead already is reaped at once
unfoldable pub take_dead : (child : Option ℕ) (pid : ℤ) (wants nohang : Bool) → Sched → Waited
take_dead none pid wants nohang w = wait_for pid nohang w
take_dead (some c) pid wants nohang w =
    let d = w.tasks c in reap (ℤ.pos d.t_pid) (if wants then some d.t_status else none) w

unfoldable pub same_parent : Option ℕ → ℕ → Bool
same_parent none current = false
same_parent (some p) current = p == current

-- the child that sys_waitpid(pid) with pid > 0 looks up
unfoldable pub wait_child : (child : Option ℕ) (pid : ℕ) (wants nohang : Bool) → Sched → Waited
wait_child none pid wants nohang w = Waited.failed Errno.echild w
wait_child (some c) pid wants nohang w =
    let d = w.tasks c in
    if not (same_parent d.t_parent w.current)
    then Waited.failed Errno.echild w
    else take_dead (if d.t_flags.zombie then some c else none) (ℤ.pos pid) wants nohang w

-- sys_waitpid by the sign of the pid
unfoldable pub waitpid_by : (pid : ℤ) (wants nohang : Bool) → Sched → Waited
waitpid_by (ℤ.pos (suc n)) wants nohang w =
    wait_child (task_by_pid (suc n) w) (suc n) wants nohang w
waitpid_by (ℤ.pos zero) wants nohang w =
    take_dead (find_dead (ℤ.pos 0) w (w.tasks w.current).t_children) (ℤ.pos 0) wants nohang w
waitpid_by (ℤ.negsuc n) wants nohang w =
    take_dead (find_dead (ℤ.negsuc n) w (w.tasks w.current).t_children) (ℤ.negsuc n) wants nohang w

-- sys_waitpid; the only option is WNOHANG, 1.
unfoldable pub sys_waitpid : (pid : ℤ) (wants : Bool) (options : ℕ) → Sched → Waited
sys_waitpid pid wants options w =
    if not (options == 0) && not (options == 1)
    then Waited.failed Errno.einval w
    else waitpid_by pid wants (options == 1) w

-- the end of task_detach
unfoldable pub cut_off : (task : ℕ) → Sched → Sched
cut_off t w =
    let d = w.tasks t in unlink_child d.t_parent t (update t (record d { t_parent = none }) w)

-- a task that is in the foreground hands it to its parent; one with no parent stops there
unfoldable pub detach_found : (task pid : ℕ) → Sched → Sched
detach_found t pid w =
    let d = w.tasks t in
    if w.foreground_pid == pid
    then elim d.t_parent [
      | none ↦ task_setfg 0 w
      | some p ↦ cut_off t (task_setfg (w.tasks p).t_pid w)
    ]
    else cut_off t w

unfoldable pub task_detach : (pid : ℕ) → Sched → Sched
task_detach pid w = elim (task_by_pid pid w) [ none ↦ w | some t ↦ detach_found t pid w ]

unfoldable pub task_setsid : Sched → ℤ × Sched
task_setsid w =
    let d = w.tasks w.current in
    if d.t_gid == d.t_pid
    then (ℤ.negsuc 0, w)
    else (ℤ.pos d.t_pid, update w.current (record d { t_gid = d.t_pid; t_sid = d.t_pid }) w)
