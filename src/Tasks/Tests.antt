-- ===== src/Tasks/Tests.antt =====
-- Instances of the theorems about the tasks of kernel/src/task.c.
use stewieos.Prelude.{
  ℕ, ◌≡◌, ◌≢◌, refl, true, false, [], ◌∷◌, ◌==◌, if◌then◌else◌, arith, some, Errno, inl,
}
use stewieos.Tasks.{
  ℤ, TaskData, Sched, t_waiting, queued, lookup_in, task_wakeup, task_kill, task_free, awaited,
  no_flags, Waited, sys_waitpid, waitpid_woken, remove_task,
}
use stewieos.Tasks.Member.{unrepeated}
use stewieos.Tasks.Queue.{IsQueue}
use stewieos.Tasks.Reach.{Step, Reach, Reach-IsQueue}
use stewieos.Tasks.Lost.{killed}
use stewieos.Tasks.Unwaited.{Reach-task_kill}
use stewieos.Tasks.Wait.{sys_waitpid-once}
use stewieos.Tasks.Exit.{task_free-waitpid_woken}
use stewieos.Tasks.Interrupt.{waitpid_woken-task_wakeup}

-- A task with its address for its number, a child of task 1.
abbrev plain : ℕ → TaskData
plain x = record {
  t_pid = x;
  t_gid = 1;
  t_sid = 1;
  t_flags = record no_flags { running = true };
  t_waitfor = ℤ.pos 0;
  t_ticks_left = 15;
  t_status = 7;
  t_dir = x;
  t_parent = some 1;
  t_children = [];
}

-- Tasks 1 and 2, where task 1 runs.
abbrev two_tasks : Sched
two_tasks = record {
  tasks = plain;
  ready_tasks = 1 ∷ 2 ∷ [];
  globlist = 1 ∷ 2 ∷ [];
  current = 1;
  curdir = 1;
  foreground_pid = 0;
}

two_tasks-IsQueue : IsQueue two_tasks
unfolding unrepeated queued
two_tasks-IsQueue = record {
  once = refl;
  awake = λ x i. (refl, refl);
  runnable = λ x i n z e. i;
  dead = λ x z. ground arith;
}

Reach-IsQueue_example : IsQueue (task_wakeup 2 (task_kill 2 9 two_tasks))
Reach-IsQueue_example =
    Reach-IsQueue two_tasks (task_wakeup 2 (task_kill 2 9 two_tasks))
      (Reach.step two_tasks (task_kill 2 9 two_tasks) _
        (Reach.step two_tasks two_tasks _ (Reach.start two_tasks) (Step.kill two_tasks 2 9))
        (Step.wakeup (task_kill 2 9 two_tasks) 2))
      two_tasks-IsQueue

-- Task 2 waits for input.
abbrev one_waits : Sched
one_waits = record two_tasks {
  tasks = λ x.
      if x == 2 then record (plain x) { t_flags = record no_flags { waitio = true } } else plain x;
  ready_tasks = 1 ∷ [];
}

one_waits-IsQueue : IsQueue one_waits
unfolding unrepeated queued
one_waits-IsQueue = record {
  once = refl;
  awake = λ x i. ground arith;
  runnable = λ x i n z e. ground arith;
  dead = λ x z. ground arith;
}

Reach-task_kill_example :
    (((task_wakeup 2 (task_kill 2 9 one_waits)).tasks 2).t_flags ≡ killed)
    × (queued 2 (task_wakeup 2 (task_kill 2 9 one_waits)).ready_tasks ≡ false)
    × ((task_wakeup 2 (task_kill 2 9 one_waits)).current ≢ 2)
Reach-task_kill_example =
    Reach-task_kill 2 9 one_waits (task_wakeup 2 (task_kill 2 9 one_waits)) one_waits-IsQueue refl
      (λ e. ground arith)
      (Reach.step (task_kill 2 9 one_waits) (task_kill 2 9 one_waits) _
        (Reach.start (task_kill 2 9 one_waits)) (Step.wakeup (task_kill 2 9 one_waits) 2))

-- Task 2 has exited.
abbrev one_dead : Sched
one_dead = record two_tasks {
  tasks = λ x.
      if x == 2 then record (plain x) { t_flags = record no_flags { zombie = true } } else plain x;
  ready_tasks = 1 ∷ [];
}

sys_waitpid-once_example :
    (w : Sched) × (sys_waitpid (ℤ.pos 2) true 0 one_dead ≡ Waited.returned (ℤ.pos 2) (some 7) w)
    × (sys_waitpid (ℤ.pos 2) true 0 w ≡ Waited.failed Errno.echild w)
sys_waitpid-once_example =
    sys_waitpid-once one_dead 1 2 0 true (inl refl) (unfold lookup_in in refl) refl refl refl
      (λ y i e. ground (arith, e))

-- Task 1 waits for any child, task 3 runs, and task 2 is about to be freed.
abbrev parent_waits : Sched
parent_waits = record two_tasks {
  tasks = λ x.
      if x == 1
      then record (plain x) {
        t_flags = record no_flags { waittask = true };
        t_waitfor = ℤ.negsuc 0;
      }
      else plain x;
  ready_tasks = 3 ∷ 2 ∷ [];
}

task_free-waitpid_woken_example :
    (((task_free (some 3) 2 parent_waits).tasks 2).t_flags.zombie ≡ true)
    × (t_waiting ((task_free (some 3) 2 parent_waits).tasks 1).t_flags ≡ false)
    × (queued 1 (task_free (some 3) 2 parent_waits).ready_tasks ≡ true)
    × (waitpid_woken true (record (task_free (some 3) 2 parent_waits) { current = 1 })
        ≡ Waited.returned
            (ℤ.pos 2)
            (some 7)
            (remove_task 2 (record (task_free (some 3) 2 parent_waits) { current = 1 })))
task_free-waitpid_woken_example =
    task_free-waitpid_woken 3 2 1 parent_waits (λ e. ground arith) (λ e. ground arith)
      (λ e. ground arith) (unfold lookup_in in refl) refl (unfold queued in refl)
      (unfold queued in refl) refl (unfold awaited in refl)

waitpid_woken-task_wakeup_example :
    (w1 w2 : Sched) × (status : ℕ) × (sys_waitpid (ℤ.pos 2) true 0 two_tasks ≡ Waited.asleep w1)
    × (waitpid_woken true (task_wakeup 1 w1) ≡ Waited.returned (ℤ.pos 2) (some status) w2)
    × (queued 2 w2.globlist ≡ false)
    × (queued 2 w2.ready_tasks ≡ true)
waitpid_woken-task_wakeup_example =
    waitpid_woken-task_wakeup two_tasks 1 2 (unfold lookup_in in refl) refl refl
      (unfold queued in refl)
