-- ===== src/Tasks/Interrupt.antt =====
-- A sys_waitpid of kernel/src/task.c that task_wakeup ends while the child is alive.
use stewieos.Prelude.{
  ℕ, suc, ◌≡◌, refl, Bool, true, false, ◌==◌, Bool-cases, arith, Option, none, some, ap, ◌∙◌, inl,
  ==_iff, inr,
}
use stewieos.Tasks.{
  ℤ, Sched, t_waiting, update, queued, unlink, lookup_in, task_by_pid, task_wait, task_wakeup,
  no_flags, Waited, sys_waitpid, waitpid_woken, waitpid_by, wait_child, take_dead, wait_for, reap,
  remove_task, unlink_child, same_parent,
}
use stewieos.Tasks.Member.{queued-unlink}
use stewieos.Tasks.Wait.{lookup_in-same, write_task-t_pid, reap-found, same_parent_self}

-- the tasks when `current` has gone to sleep in sys_waitpid
abbrev sleeping : (pid : ℤ) → Sched → Sched
sleeping pid w =
    let d = w.tasks w.current in
    task_wait w.current (record no_flags { waittask = true })
      (update w.current (record d { t_waitfor = pid }) w)

sys_waitpid-sleeping :
    (w : Sched) (n c : ℕ) (wants : Bool)
    → task_by_pid (suc n) w ≡ some c
    → (w.tasks c).t_parent ≡ some w.current
    → (w.tasks c).t_flags.zombie ≡ false
    → sys_waitpid (ℤ.pos (suc n)) wants 0 w ≡ Waited.asleep (sleeping (ℤ.pos (suc n)) w)
unfolding sys_waitpid waitpid_by wait_child
sys_waitpid-sleeping w n c wants found parent alive =
    let sp : same_parent (w.tasks c).t_parent w.current ≡ true =
      ap (λ z. same_parent z w.current) parent ∙ same_parent_self w.current in
    rw found (rw sp (simp alive (unfold take_dead wait_for in refl)))

-- what of the tasks stays when `current` sleeps and wakes again
record Resumes (pid : ℤ) (w u : Sched) : Type 0 where
  runs : u.current ≡ w.current
  waits_for : (u.tasks u.current).t_waitfor ≡ pid
  numbers : (x : ℕ) → (u.tasks x).t_pid ≡ (w.tasks x).t_pid
  members : u.globlist ≡ w.globlist
  queue : (x : ℕ) → queued x w.ready_tasks ≡ true → queued x u.ready_tasks ≡ true

sleeping-t_flags :
    (pid : ℤ) (w : Sched) → t_waiting ((sleeping pid w).tasks w.current).t_flags ≡ true
unfolding task_wait
sleeping-t_flags pid w =
    let same : (w.current == w.current) ≡ true = ground arith in rw same (ground arith)

sleeping-Resumes : (pid : ℤ) (w : Sched) → ((sleeping pid w).tasks w.current).t_waitfor ≡ pid
unfolding task_wait
sleeping-Resumes pid w = let same : (w.current == w.current) ≡ true = ground arith in rw same refl

sleeping-t_pid :
    (pid : ℤ) (w : Sched) (x : ℕ) → ((sleeping pid w).tasks x).t_pid ≡ (w.tasks x).t_pid
unfolding task_wait
sleeping-t_pid pid w x = elim (Bool-cases (w.current == x)) [
  | inl e ↦
      let same : (w.current == w.current) ≡ true = ground arith in
      rw (e, same) (ap (λ y. (w.tasks y).t_pid) ((==_iff w.current x).0 e))
  | inr e ↦ rw e refl
]

woken-Resumes : (pid : ℤ) (w : Sched) → Resumes pid w (task_wakeup w.current (sleeping pid w))
unfolding task_wakeup queued
woken-Resumes pid w =
    let s = sleeping pid w in
    let c = w.current in
    let same : (c == c) ≡ true = ground arith in
    let rest : (s.globlist ≡ w.globlist)
        × (s.ready_tasks ≡ unlink c w.ready_tasks)
        × (s.current ≡ c) =
      unfold task_wait in (refl, refl, refl) in
    rw (sleeping-t_flags pid w) (record {
      runs = rest.2;
      waits_for = rw (rest.2, same) (sleeping-Resumes pid w);
      numbers = λ x. write_task-t_pid c _ s.tasks x refl ∙ sleeping-t_pid pid w x;
      members = rest.0;
      queue = λ x i. rw rest.1 (
          ground
            (arith, queued-unlink x c (unlink c w.ready_tasks), queued-unlink x c w.ready_tasks));
    })

unlinked-globlist :
    (p : Option ℕ) (c : ℕ) (w : Sched)
    → queued c (unlink_child p c w).globlist ≡ queued c w.globlist
unfolding unlink_child
unlinked-globlist none c w = refl
unlinked-globlist (some p) c w = refl

unlinked-ready :
    (p : Option ℕ) (c : ℕ) (w : Sched)
    → queued c (unlink_child p c w).ready_tasks ≡ queued c w.ready_tasks
unfolding unlink_child
unlinked-ready none c w = refl
unlinked-ready (some p) c w = refl

removed-ready :
    (c : ℕ) (w : Sched)
    → queued c w.ready_tasks ≡ true
    → queued c (remove_task c w).ready_tasks ≡ true
unfolding remove_task
removed-ready c w i =
    unlinked-ready (w.tasks c).t_parent c (record w { globlist = unlink c w.globlist }) ∙ i

removed-globlist : (c : ℕ) (w : Sched) → queued c (remove_task c w).globlist ≡ false
unfolding remove_task
removed-globlist c w =
    unlinked-globlist (w.tasks c).t_parent c (record w { globlist = unlink c w.globlist })
    ∙ (let u = queued-unlink c c w.globlist in ground arith)

-- When something else than the exit of the child wakes a task that sleeps in sys_waitpid for it, the
-- call returns the child's number as if it had exited, and removes the child from the list of all
-- tasks, though it is not dead and stands in the queue. The number is above 0 and is that by which
-- task_by_pid finds the child; `status` is not NULL, and the call has no option.
pub waitpid_woken-task_wakeup :
    (w : Sched) (n c : ℕ)
    → task_by_pid (suc n) w ≡ some c
    → (w.tasks c).t_parent ≡ some w.current
    → (w.tasks c).t_flags.zombie ≡ false
    → queued c w.ready_tasks ≡ true
    → (w1 w2 : Sched) × (status : ℕ) × (sys_waitpid (ℤ.pos (suc n)) true 0 w ≡ Waited.asleep w1)
      × (waitpid_woken true (task_wakeup w.current w1)
          ≡ Waited.returned (ℤ.pos (suc n)) (some status) w2)
      × (queued c w2.globlist ≡ false)
      × (queued c w2.ready_tasks ≡ true)
waitpid_woken-task_wakeup w n c found parent alive inq =
    let w1 = sleeping (ℤ.pos (suc n)) w in
    let u = task_wakeup w.current w1 in
    let r = woken-Resumes (ℤ.pos (suc n)) w in
    let st = (u.tasks u.current).t_status in
    let look : task_by_pid (suc n) u ≡ some c =
      ap (λ l. lookup_in u.tasks (suc n) l) r.members
      ∙ lookup_in-same u.tasks w.tasks (suc n) w.globlist r.numbers
      ∙ found in
    (
      w1,
      remove_task c u,
      st,
      sys_waitpid-sleeping w n c true found parent alive,
      unfold waitpid_woken in
          (ap (λ (k : ℤ). reap k (some st) u) r.waits_for ∙ reap-found u (suc n) c (some st) look),
      removed-globlist c u,
      removed-ready c u (r.queue c inq),
    )
