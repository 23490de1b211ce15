-- ===== src/Tasks/Unwaited.antt =====
-- sys_waitpid of kernel/src/task.c beside a task that was killed while it waited, and runs with one.
use stewieos.Prelude.{
  ℕ, zero, suc, ◌≡◌, ◌≢◌, Bool, true, false, not, ◌&&◌, ◌==◌, Bool-cases, if◌then◌else◌, arith,
  Option, none, some, ap, inl, subst, inr,
}
use stewieos.Tasks.{
  ℤ, Sched, t_waiting, update, queued, unlink, task_kill, no_flags, Waited, sys_waitpid,
  waitpid_woken, reap, remove_task, unlink_child, wait_for, take_dead, wait_child, waitpid_by,
  task_by_pid, same_parent,
}
use stewieos.Tasks.Queue.{IsQueue}
use stewieos.Tasks.Reach.{Step, Reach, Ends}
use stewieos.Tasks.Lost.{
  IsLost, killed, task_wait-IsLost, task_wakeup-IsLost, task_kill-IsLost, update-IsLost,
}
use stewieos.Tasks.Unfound.{task_preempt-IsLost}

abbrev Leaves : ℕ → Waited → Type 0
Leaves x (Waited.returned pid status w) = IsLost x w
Leaves x (Waited.failed e w) = IsLost x w
Leaves x (Waited.asleep w) = IsLost x w
Leaves x Waited.faults = Unit {0}

unlink_child-IsLost :
    {x : ℕ} (p : Option ℕ) (c : ℕ) (w : Sched) → IsLost x w → IsLost x (unlink_child p c w)
unfolding unlink_child
unlink_child-IsLost none c w l = l
unlink_child-IsLost (some p) c w l =
    let d = w.tasks p in
    update-IsLost w p (record d { t_children = unlink c d.t_children }) l
      (λ e. ap (λ y. (w.tasks y).t_flags) e)

reaped :
    (x pid : ℕ) (status : Option ℕ) (w : Sched) (o : Option ℕ)
    → IsLost x w
    → Leaves x (elim o [
      | none ↦ Waited.returned (ℤ.pos pid) status w
      | some t ↦ Waited.returned (ℤ.pos pid) status (remove_task t w)
    ])
unfolding remove_task
reaped x pid status w none l = l
reaped x pid status w (some t) l =
    unlink_child-IsLost (w.tasks t).t_parent t (record w { globlist = unlink t w.globlist })
      (record { flags = l.flags; unqueued = l.unqueued; idle = l.idle })

reap-Leaves :
    (x : ℕ) (pid : ℤ) (status : Option ℕ) (w : Sched) → IsLost x w → Leaves x (reap pid status w)
unfolding reap
reap-Leaves x (ℤ.negsuc n) status w l = l
reap-Leaves x (ℤ.pos pid) status w l = reaped x pid status w (task_by_pid pid w) l

module _ (x : ℕ) (w : Sched) (l : IsLost x w) where
  wait_for-Leaves : (pid : ℤ) (nohang : Bool) → Leaves x (wait_for pid nohang w)
  unfolding wait_for
  wait_for-Leaves pid true = l
  wait_for-Leaves pid false =
      let d = w.tasks w.current in
      let a : Sched = update w.current (record d { t_waitfor = pid }) w in
      task_wait-IsLost a w.current (record no_flags { waittask = true })
        (update-IsLost w w.current (record d { t_waitfor = pid }) l (λ e. absurd (l.idle e))) l.idle

  take_dead-Leaves :
      (c : Option ℕ) (pid : ℤ) (wants nohang : Bool) → Leaves x (take_dead c pid wants nohang w)
  unfolding take_dead
  take_dead-Leaves none pid wants nohang = wait_for-Leaves pid nohang
  take_dead-Leaves (some c) pid wants nohang = reap-Leaves x _ _ w l

  wait_child-Leaves :
      (c : Option ℕ) (pid : ℕ) (wants nohang : Bool) → Leaves x (wait_child c pid wants nohang w)
  unfolding wait_child
  wait_child-Leaves none pid wants nohang = l
  wait_child-Leaves (some c) pid wants nohang =
      let d = w.tasks c in
      elim (Bool-cases (same_parent d.t_parent w.current)) [
        | inl e ↦
            rw e (
              take_dead-Leaves (if d.t_flags.zombie then some c else none) (ℤ.pos pid) wants nohang)
        | inr e ↦ rw e l
      ]

  waitpid_by-Leaves : (pid : ℤ) (wants nohang : Bool) → Leaves x (waitpid_by pid wants nohang w)
  unfolding waitpid_by
  waitpid_by-Leaves (ℤ.pos (suc n)) wants nohang = wait_child-Leaves _ (suc n) wants nohang
  waitpid_by-Leaves (ℤ.pos zero) wants nohang = take_dead-Leaves _ (ℤ.pos 0) wants nohang
  waitpid_by-Leaves (ℤ.negsuc n) wants nohang = take_dead-Leaves _ (ℤ.negsuc n) wants nohang

  sys_waitpid-Leaves :
      (pid : ℤ) (wants : Bool) (options : ℕ) → Leaves x (sys_waitpid pid wants options w)
  unfolding sys_waitpid
  sys_waitpid-Leaves pid wants options =
      elim (Bool-cases (not (options == 0) && not (options == 1))) [
        | inl e ↦ rw e l
        | inr e ↦ rw e (waitpid_by-Leaves pid wants (options == 1))
      ]

  waitpid_woken-Leaves : (wants : Bool) → Leaves x (waitpid_woken wants w)
  unfolding waitpid_woken
  waitpid_woken-Leaves true = reap-Leaves x _ _ w l
  waitpid_woken-Leaves false = tt

Ends-IsLost : (x : ℕ) (r : Waited) (w : Sched) → Leaves x r → Ends r w → IsLost x w
Ends-IsLost x (Waited.returned pid status w) w' l e = subst (IsLost x) e l
Ends-IsLost x (Waited.failed y w) w' l e = subst (IsLost x) e l
Ends-IsLost x (Waited.asleep w) w' l e = subst (IsLost x) e l
Ends-IsLost x Waited.faults w' l e = elim e [ ]

Step-IsLost : {x : ℕ} {w w' : Sched} → Step w w' → IsLost x w → IsLost x w'
Step-IsLost {x} (Step.wait w t f i fz) l =
    let ne : t ≢ x =
      λ e. let j = subst (λ y. queued y w.ready_tasks ≡ true) e i in ground (arith, l.unqueued) in
    task_wait-IsLost w t f l ne
Step-IsLost (Step.wakeup w t) l = task_wakeup-IsLost w t l
Step-IsLost (Step.kill w t status) l = task_kill-IsLost w t status l
Step-IsLost (Step.preempt n w w' e) l = task_preempt-IsLost n w w' l e
Step-IsLost {x} (Step.waitpid w w' pid wants options i e) l =
    Ends-IsLost x (sys_waitpid pid wants options w) w' (sys_waitpid-Leaves x w l pid wants options)
      e
Step-IsLost {x} (Step.woken w w' wants i e) l =
    Ends-IsLost x (waitpid_woken wants w) w' (waitpid_woken-Leaves x w l wants) e

Reach-IsLost : {x : ℕ} {w w' : Sched} → Reach w w' → IsLost x w → IsLost x w'
Reach-IsLost (Reach.start w) l = l
Reach-IsLost (Reach.step w w' w'' r s) l = Step-IsLost s (Reach-IsLost r l)

-- A task that is killed while it waits, and does not run, is never found again: whatever tasks are put
-- to sleep, woken, killed, switched to or waited for after that, it keeps the flag of a killed task and
-- no other, so it is never marked dead; it never stands in the queue of ready tasks; and it never runs.
-- At first the queue is as it should be. Only tasks in the queue go to sleep or call sys_waitpid.
pub Reach-task_kill :
    (x status : ℕ) (w w' : Sched)
    → IsQueue w
    → t_waiting (w.tasks x).t_flags ≡ true
    → w.current ≢ x
    → Reach (task_kill x status w) w'
    → ((w'.tasks x).t_flags ≡ killed) × (queued x w'.ready_tasks ≡ false) × (w'.current ≢ x)
Reach-task_kill x status w w' q s ne r =
    let unq : queued x w.ready_tasks ≡ false = ground (arith, q.awake x) in
    let first : IsLost x (task_kill x status w) =
      unfold task_kill in record { flags = ground arith; unqueued = unq; idle = ne } in
    let l = Reach-IsLost r first in (l.flags, l.unqueued, l.idle)
