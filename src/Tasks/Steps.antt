-- ===== src/Tasks/Steps.antt =====
-- Runs of the tasks of kernel/src/task.c.
use stewieos.Prelude.{
  ℕ, zero, suc, ◌-◌, ◌≡◌, refl, Bool, true, false, not, ◌&&◌, List, [], ◌∷◌, ◌==◌, Bool-cases,
  if◌then◌else◌, arith, Option, none, some, inl, inr, ◌⊎◌, ◌∙◌,
}
use stewieos.Tasks.{
  ℤ, Sched, t_waiting, update, queued, unlink, task_free, find_task, task_preempt, task_switch,
  alone, next_in, first_of, no_flags, Waited, sys_waitpid, waitpid_woken, reap, remove_task,
  wait_for, take_dead, wait_child, waitpid_by, task_by_pid, same_parent, unlink_child,
}
use stewieos.Tasks.Member.{queued-unlink}
use stewieos.Tasks.Queue.{
  IsQueue, frame-IsQueue, update-IsQueue, task_wait-IsQueue, task_free-IsQueue,
  write_task-SameState,
}

-- A task that is in no list is its own successor.
pub next_in_self : (t : ℕ) (l : List ℕ) → queued t l ≡ false → next_in t l ≡ some t
unfolding next_in queued
next_in_self t [] n = refl
next_in_self t (a ∷ l) n =
    let e : (a == t) ≡ false = ground arith in rw e (next_in_self t l (ground arith))

-- The task that the loop of task_preempt picks neither waits nor has been killed.
abbrev Picked : Option (ℕ × Sched) → Type 0
Picked none = Unit {0}
Picked (some (t, w)) =
    IsQueue w × (t_waiting (w.tasks t).t_flags ≡ false) × ((w.tasks t).t_flags.exiting ≡ false)

find_task-Picked : (n : ℕ) (now : Option ℕ) (w : Sched) → IsQueue w → Picked (find_task n now w)
unfolding find_task
find_task-Picked zero now w q = tt
find_task-Picked (suc n) none w q = find_task-Picked n (first_of w.ready_tasks) w q
find_task-Picked (suc n) (some t) w q =
    let d = w.tasks t in
    let next = next_in t w.ready_tasks in
    elim (Bool-cases (t_waiting d.t_flags)) [
      | inl e ↦ rw e (find_task-Picked n (first_of w.ready_tasks) w q)
      | inr e ↦ elim (Bool-cases d.t_flags.exiting) [
        | inl f ↦ elim (Bool-cases (d.t_dir == w.curdir)) [
          | inl g ↦ rw (e, g) (simp f (find_task-Picked n next w q))
          | inr g ↦
              let h : (queued t w.ready_tasks ≡ true) ⊎ (next ≡ some t) =
                elim (Bool-cases (queued t w.ready_tasks)) [
                  | inl i ↦ inl i
                  | inr i ↦ inr (next_in_self t w.ready_tasks i)
                ] in
              rw (e, g)
                (simp f
                  (find_task-Picked n next (task_free next t w) (task_free-IsQueue next t w q h)))
        ]
        | inr f ↦ rw e (simp f (q, e, refl))
      ]
    ]

abbrev pub KeepsQueue : Option Sched → Type 0
KeepsQueue none = Unit {0}
KeepsQueue (some w) = IsQueue w

switched :
    (o : Option (ℕ × Sched))
    → Picked o
    → KeepsQueue (elim o [ none ↦ none | some (t, w) ↦ some (task_switch t w) ])
unfolding task_switch
switched none p = tt
switched (some (t, w)) (q, a, b) =
    let d = w.tasks t in
    frame-IsQueue w (task_switch t w) q
      (λ x. write_task-SameState t (record d { t_ticks_left = 15 }) w.tasks x (refl, refl, refl))
      refl (λ x i. i)

pub task_preempt-KeepsQueue : (n : ℕ) (w : Sched) → IsQueue w → KeepsQueue (task_preempt n w)
unfolding task_preempt
task_preempt-KeepsQueue n w q =
    let d = w.tasks w.current in
    let tired = record d { t_flags = record d.t_flags { resched = false } } in
    let start =
      if d.t_flags.running then next_in w.current w.ready_tasks else first_of w.ready_tasks in
    elim (Bool-cases (alone w.current w.ready_tasks)) [
      | inl e ↦ rw e q
      | inr e ↦
          elim (Bool-cases
            (not (d.t_ticks_left == 0) && d.t_flags.running && not d.t_flags.resched)) [
              | inl f ↦
                  rw (e, f)
                    (update-IsQueue w w.current (record d { t_ticks_left = d.t_ticks_left - 1 }) q
                      (refl, refl, refl))
              | inr f ↦
                  rw (e, f)
                    (switched _ (
                      find_task-Picked n start (update w.current tired w)
                        (update-IsQueue w w.current tired q (refl, refl, refl))))
            ]
    ]

unlink_child-IsQueue : (p : Option ℕ) (c : ℕ) (w : Sched) → IsQueue w → IsQueue (unlink_child p c w)
unfolding unlink_child
unlink_child-IsQueue none c w q = q
unlink_child-IsQueue (some p) c w q =
    let d = w.tasks p in
    update-IsQueue w p (record d { t_children = unlink c d.t_children }) q (refl, refl, refl)

remove_task-IsQueue : (t : ℕ) (w : Sched) → IsQueue w → IsQueue (remove_task t w)
unfolding remove_task
remove_task-IsQueue t w q =
    unlink_child-IsQueue (w.tasks t).t_parent t (record w { globlist = unlink t w.globlist })
      (frame-IsQueue w _ q (λ x. (refl, refl, refl)) refl
        (λ x i. let u = queued-unlink x t w.globlist in ground arith))

-- what sys_waitpid leaves
abbrev pub Leaves : Waited → Type 0
Leaves (Waited.returned pid status w) = IsQueue w
Leaves (Waited.failed e w) = IsQueue w
Leaves (Waited.asleep w) = IsQueue w
Leaves Waited.faults = Unit {0}

reaped :
    (pid : ℕ) (status : Option ℕ) (w : Sched) (o : Option ℕ)
    → IsQueue w
    → Leaves (elim o [
      | none ↦ Waited.returned (ℤ.pos pid) status w
      | some t ↦ Waited.returned (ℤ.pos pid) status (remove_task t w)
    ])
reaped pid status w none q = q
reaped pid status w (some t) q = remove_task-IsQueue t w q

reap-Leaves : (pid : ℤ) (status : Option ℕ) (w : Sched) → IsQueue w → Leaves (reap pid status w)
unfolding reap
reap-Leaves (ℤ.negsuc n) status w q = q
reap-Leaves (ℤ.pos pid) status w q = reaped pid status w (task_by_pid pid w) q

module _ (w : Sched) (q : IsQueue w) (live : (w.tasks w.current).t_flags.zombie ≡ false) where
  wait_for-Leaves : (pid : ℤ) (nohang : Bool) → Leaves (wait_for pid nohang w)
  unfolding wait_for
  wait_for-Leaves pid true = q
  wait_for-Leaves pid false =
      let d = w.tasks w.current in
      let a : Sched = update w.current (record d { t_waitfor = pid }) w in
      task_wait-IsQueue a w.current (record no_flags { waittask = true })
        (update-IsQueue w w.current (record d { t_waitfor = pid }) q (refl, refl, refl))
        ((write_task-SameState w.current (record d { t_waitfor = pid }) w.tasks w.current
            (refl, refl, refl)).1
          ∙ live)
        refl

  take_dead-Leaves :
      (c : Option ℕ) (pid : ℤ) (wants nohang : Bool) → Leaves (take_dead c pid wants nohang w)
  unfolding take_dead
  take_dead-Leaves none pid wants nohang = wait_for-Leaves pid nohang
  take_dead-Leaves (some c) pid wants nohang = reap-Leaves _ _ w q

  wait_child-Leaves :
      (c : Option ℕ) (pid : ℕ) (wants nohang : Bool) → Leaves (wait_child c pid wants nohang w)
  unfolding wait_child
  wait_child-Leaves none pid wants nohang = q
  wait_child-Leaves (some c) pid wants nohang =
      let d = w.tasks c in
      elim (Bool-cases (same_parent d.t_parent w.current)) [
        | inl e ↦
            rw e (
              take_dead-Leaves (if d.t_flags.zombie then some c else none) (ℤ.pos pid) wants nohang)
        | inr e ↦ rw e q
      ]

  waitpid_by-Leaves : (pid : ℤ) (wants nohang : Bool) → Leaves (waitpid_by pid wants nohang w)
  unfolding waitpid_by
  waitpid_by-Leaves (ℤ.pos (suc n)) wants nohang = wait_child-Leaves _ (suc n) wants nohang
  waitpid_by-Leaves (ℤ.pos zero) wants nohang = take_dead-Leaves _ (ℤ.pos 0) wants nohang
  waitpid_by-Leaves (ℤ.negsuc n) wants nohang = take_dead-Leaves _ (ℤ.negsuc n) wants nohang

  pub sys_waitpid-Leaves :
      (pid : ℤ) (wants : Bool) (options : ℕ) → Leaves (sys_waitpid pid wants options w)
  unfolding sys_waitpid
  sys_waitpid-Leaves pid wants options =
      elim (Bool-cases (not (options == 0) && not (options == 1))) [
        | inl e ↦ rw e q
        | inr e ↦ rw e (waitpid_by-Leaves pid wants (options == 1))
      ]

  pub waitpid_woken-Leaves : (wants : Bool) → Leaves (waitpid_woken wants w)
  unfolding waitpid_woken
  waitpid_woken-Leaves true = reap-Leaves _ _ w q
  waitpid_woken-Leaves false = tt
