-- ===== src/Tasks/Exit.antt =====
-- The exit of a child of kernel/src/task.c, from task_free to the return of its parent's sys_waitpid,
-- and a sys_waitpid that something else wakes.
use stewieos.Prelude.{
  ℕ, zero, suc, ◌+◌, ◌≡◌, ◌≢◌, refl, true, false, ◌&&◌, [], ◌==◌, Bool-cases, arith, some, inl, ap₂,
  ap, ==_iff, ◌∙◌, inr, sym,
}
use stewieos.Tasks.{
  ℤ, TaskData, Sched, t_waiting, write_task, queued, unlink, lookup_in, task_by_pid, task_wakeup,
  task_free, orphan, notify, awaited, no_flags, Waited, waitpid_woken, reap, remove_task,
}
use stewieos.Tasks.Wait.{lookup_in-same, write_task-t_pid, orphan-t_pid, orphan-other, reap-found}

-- A parent that waits for the dead task is told its number and status, and wakes up.
record IsTold (p t : ℕ) (w u : Sched) : Type 0 where
  which : (u.tasks p).t_waitfor ≡ ℤ.pos (w.tasks t).t_pid
  status : (u.tasks p).t_status ≡ (w.tasks t).t_status
  awake : (t_waiting (u.tasks p).t_flags ≡ false) × (queued p u.ready_tasks ≡ true)
  numbers : (x : ℕ) → (u.tasks x).t_pid ≡ (w.tasks x).t_pid
  members : u.globlist ≡ w.globlist
  others : (x : ℕ) → p ≢ x → u.tasks x ≡ w.tasks x

notify-IsTold :
    (p t : ℕ) (w : Sched)
    → (w.tasks p).t_flags.waittask ≡ true
    → awaited (w.tasks p).t_waitfor (w.tasks p) (w.tasks t) ≡ true
    → IsTold p t w (notify (some p) t w)
unfolding notify task_wakeup queued
notify-IsTold p t w f a =
    let dp = w.tasks p in
    let told = record dp { t_waitfor = ℤ.pos (w.tasks t).t_pid; t_status = (w.tasks t).t_status } in
    let test : (dp.t_flags.waittask && awaited dp.t_waitfor dp (w.tasks t)) ≡ true = ground arith in
    let same : (p == p) ≡ true = ground arith in
    let asleep : t_waiting dp.t_flags ≡ true = ground arith in
    rw (test, same)
      (rw asleep (record {
        which = ground arith;
        status = ground arith;
        awake = ground arith;
        numbers = λ x. elim (Bool-cases (p == x)) [
          | inl e ↦ rw e (ap (λ y. (w.tasks y).t_pid) ((==_iff p x).0 e))
          | inr e ↦ rw e refl
        ];
        members = refl;
        others = λ x ne. let e : (p == x) ≡ false = ground arith in rw e refl;
      }))

-- The parent's call returns what it has been told.
told-waitpid_woken :
    (w : Sched) (p pid status c : ℕ)
    → (w.tasks p).t_waitfor ≡ ℤ.pos pid
    → (w.tasks p).t_status ≡ status
    → task_by_pid pid w ≡ some c
    → waitpid_woken true (record w { current = p })
      ≡ Waited.returned (ℤ.pos pid) (some status) (remove_task c (record w { current = p }))
unfolding waitpid_woken
told-waitpid_woken w p pid status c f s e =
    ap₂ (λ (k : ℤ) (m : ℕ). reap k (some m) (record w { current = p })) f s
    ∙ reap-found (record w { current = p }) pid c (some status) e

-- the tasks when task_free has marked `dead` and its children
abbrev buried : (dead : ℕ) → Sched → Sched
buried dead w =
    let d = w.tasks dead in
    record w {
      ready_tasks = unlink dead w.ready_tasks;
      tasks = orphan d.t_children (
          write_task dead
            (record d { t_flags = record no_flags { zombie = true }; t_children = [] }) w.tasks);
    }

task_free-buried :
    (m dead p : ℕ) (w : Sched)
    → dead ≢ m
    → (w.tasks dead).t_pid ≢ 0
    → (w.tasks dead).t_parent ≡ some p
    → queued dead (w.tasks dead).t_children ≡ false
    → task_free (some m) dead w ≡ notify (some p) dead (buried dead w)
unfolding task_free
task_free-buried m dead p w ne n0 parent own =
    let d = w.tasks dead in
    let e1 : (dead == m) ≡ false = ground arith in
    let e2 : (d.t_pid == 0) ≡ false = ground arith in
    let self : (dead == dead) ≡ true = ground arith in
    let freed = record d { t_flags = record no_flags { zombie = true }; t_children = [] } in
    let o = orphan-other d.t_children (write_task dead freed w.tasks) dead own in
    let e3 : ((buried dead w).tasks dead).t_parent ≡ some p =
      ap (λ (x : TaskData). x.t_parent) o ∙ rw self parent in
    rw (e1, e2) (ap (λ q. notify q dead (buried dead w)) e3)

-- Whether a task is awaited does not depend on its flags.
awaited-freed :
    (f : ℤ) (p d e : TaskData)
    → e ≡ record d { t_flags = record no_flags { zombie = true }; t_children = [] }
    → awaited f p e ≡ awaited f p d
unfolding awaited
awaited-freed (ℤ.pos zero) p d x e = ap (λ (z : TaskData). z.t_gid == p.t_pid) e
awaited-freed (ℤ.pos (suc n)) p d x e = ap (λ (z : TaskData). suc n == z.t_pid) e
awaited-freed (ℤ.negsuc zero) p d x e = refl
awaited-freed (ℤ.negsuc (suc n)) p d x e = ap (λ (z : TaskData). z.t_gid == n + 2) e

-- When a child exits whose parent sleeps in sys_waitpid for it, task_free marks the child dead, puts
-- the parent into the queue and clears its wait flags; and the parent's sys_waitpid then returns the
-- child's number and status and removes the child from the lists, where it was given a status pointer
-- that is not NULL. The child is not the task that runs
-- next and has a number other than 0, by which task_by_pid finds it; neither it nor its parent is one
-- of its own children.
pub task_free-waitpid_woken :
    (m dead p : ℕ) (w : Sched)
    → dead ≢ m
    → dead ≢ p
    → (w.tasks dead).t_pid ≢ 0
    → task_by_pid (w.tasks dead).t_pid w ≡ some dead
    → (w.tasks dead).t_parent ≡ some p
    → queued dead (w.tasks dead).t_children ≡ false
    → queued p (w.tasks dead).t_children ≡ false
    → (w.tasks p).t_flags.waittask ≡ true
    → awaited (w.tasks p).t_waitfor (w.tasks p) (w.tasks dead) ≡ true
    → (((task_free (some m) dead w).tasks dead).t_flags.zombie ≡ true)
      × (t_waiting ((task_free (some m) dead w).tasks p).t_flags ≡ false)
      × (queued p (task_free (some m) dead w).ready_tasks ≡ true)
      × (waitpid_woken true (record (task_free (some m) dead w) { current = p })
          ≡ Waited.returned
              (ℤ.pos (w.tasks dead).t_pid)
              (some (w.tasks dead).t_status)
              (remove_task dead (record (task_free (some m) dead w) { current = p })))
task_free-waitpid_woken m dead p w nm np n0 found parent own1 own2 wt aw =
    let d = w.tasks dead in
    let freed = record d { t_flags = record no_flags { zombie = true }; t_children = [] } in
    let v = buried dead w in
    let self : (dead == dead) ≡ true = ground arith in
    let other : (dead == p) ≡ false = ground arith in
    let ed : v.tasks dead ≡ freed =
      orphan-other d.t_children (write_task dead freed w.tasks) dead own1 ∙ rw self refl in
    let ep : v.tasks p ≡ w.tasks p =
      orphan-other d.t_children (write_task dead freed w.tasks) p own2 ∙ rw other refl in
    let same : (x : ℕ) → (v.tasks x).t_pid ≡ (w.tasks x).t_pid = λ x.
      orphan-t_pid d.t_children (write_task dead freed w.tasks) x
      ∙ write_task-t_pid dead freed w.tasks x refl in
    let aw' : awaited (v.tasks p).t_waitfor (v.tasks p) (v.tasks dead) ≡ true =
      ap (λ (x : TaskData). awaited x.t_waitfor x (v.tasks dead)) ep
      ∙ awaited-freed (w.tasks p).t_waitfor (w.tasks p) d (v.tasks dead) ed
      ∙ aw in
    let t = notify-IsTold p dead v (ap (λ (x : TaskData). x.t_flags.waittask) ep ∙ wt) aw' in
    let u = notify (some p) dead v in
    let look : task_by_pid d.t_pid u ≡ some dead =
      ap (λ l. lookup_in u.tasks d.t_pid l) t.members
      ∙ lookup_in-same u.tasks w.tasks d.t_pid w.globlist (λ x. t.numbers x ∙ same x)
      ∙ found in
    rw (task_free-buried m dead p w nm n0 parent own1) (
      ap (λ (x : TaskData). x.t_flags.zombie) (t.others dead (λ e. np (sym e)) ∙ ed),
      t.awake.0,
      t.awake.1,
      told-waitpid_woken u p d.t_pid d.t_status dead
          (t.which ∙ ap (λ (x : TaskData). ℤ.pos x.t_pid) ed)
          (t.status ∙ ap (λ (x : TaskData). x.t_status) ed) look,
    )
