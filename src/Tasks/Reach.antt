-- ===== src/Tasks/Reach.antt =====
-- Runs of the tasks of kernel/src/task.c, and the queue of ready tasks in them.
use stewieos.Prelude.{ℕ, ◌≡◌, Bool, true, false, some, subst}
use stewieos.Tasks.{
  ℤ, TaskFlags, Sched, queued, task_wait, task_wakeup, task_kill, task_preempt, Waited, sys_waitpid,
  waitpid_woken,
}
use stewieos.Tasks.Queue.{IsQueue, task_wait-IsQueue, task_wakeup-IsQueue, task_kill-IsQueue}
use stewieos.Tasks.Steps.{
  task_preempt-KeepsQueue, sys_waitpid-Leaves, waitpid_woken-Leaves, Leaves, KeepsQueue,
}

-- a call of sys_waitpid that leaves the tasks so
abbrev pub Ends : Waited → Sched → Type 0
Ends (Waited.returned pid status w) w' = w ≡ w'
Ends (Waited.failed e w) w' = w ≡ w'
Ends (Waited.asleep w) w' = w ≡ w'
Ends Waited.faults w' = ⊥

Ends-IsQueue : (r : Waited) (w : Sched) → Leaves r → Ends r w → IsQueue w
Ends-IsQueue (Waited.returned pid status w) w' q e = subst IsQueue e q
Ends-IsQueue (Waited.failed x w) w' q e = subst IsQueue e q
Ends-IsQueue (Waited.asleep w) w' q e = subst IsQueue e q
Ends-IsQueue Waited.faults w' q e = elim e [ ]

-- A step of the tasks: one is put to sleep, woken, or killed, the processor is given away, or
-- sys_waitpid runs up to where it returns or sleeps, or on from where it was woken. A task that goes to
-- sleep or calls sys_waitpid runs, so it stands in the queue.
pub data Step : Sched → Sched → Type 0 where
  wait :
      (w : Sched) (t : ℕ) (f : TaskFlags)
      → queued t w.ready_tasks ≡ true
      → f.zombie ≡ false
      → Step w (task_wait t f w)
  wakeup : (w : Sched) (t : ℕ) → Step w (task_wakeup t w)
  kill : (w : Sched) (t status : ℕ) → Step w (task_kill t status w)
  preempt : (n : ℕ) (w w' : Sched) → task_preempt n w ≡ some w' → Step w w'
  waitpid :
      (w w' : Sched) (pid : ℤ) (wants : Bool) (options : ℕ)
      → queued w.current w.ready_tasks ≡ true
      → Ends (sys_waitpid pid wants options w) w'
      → Step w w'
  woken :
      (w w' : Sched) (wants : Bool)
      → queued w.current w.ready_tasks ≡ true
      → Ends (waitpid_woken wants w) w'
      → Step w w'

pub data Reach : Sched → Sched → Type 0 where
  start : (w : Sched) → Reach w w
  step : (w w' w'' : Sched) → Reach w w' → Step w' w'' → Reach w w''

Step-IsQueue : {w w' : Sched} → Step w w' → IsQueue w → IsQueue w'
Step-IsQueue (Step.wait w t f i fz) q = task_wait-IsQueue w t f q (q.awake t i).1 fz
Step-IsQueue (Step.wakeup w t) q = task_wakeup-IsQueue w t q
Step-IsQueue (Step.kill w t status) q = task_kill-IsQueue w t status q
Step-IsQueue (Step.preempt n w w' e) q = subst KeepsQueue e (task_preempt-KeepsQueue n w q)
Step-IsQueue (Step.waitpid w w' pid wants options i e) q =
    Ends-IsQueue (sys_waitpid pid wants options w) w'
      (sys_waitpid-Leaves w q (q.awake w.current i).1 pid wants options) e
Step-IsQueue (Step.woken w w' wants i e) q =
    Ends-IsQueue (waitpid_woken wants w) w' (waitpid_woken-Leaves w q (q.awake w.current i).1 wants)
      e

-- Whatever tasks are put to sleep, woken, killed, switched to or waited for, in whatever order, the
-- queue of ready tasks holds no task twice, holds only tasks that neither wait nor are dead, and holds
-- every task of the system that does not wait, is not dead and has not been killed, if all that held
-- at first and a task that is dead did not wait. Only tasks in the queue go to sleep or call
-- sys_waitpid.
pub Reach-IsQueue : (w w' : Sched) → Reach w w' → IsQueue w → IsQueue w'
Reach-IsQueue _ _ (Reach.start w) q = q
Reach-IsQueue _ _ (Reach.step w w' w'' r s) q = Step-IsQueue s (Reach-IsQueue w w' r q)
