-- ===== src/Tasks/Queue.antt =====
-- The queue of ready tasks of kernel/src/task.c, kept by every operation.
use stewieos.Prelude.{
  ℕ, ◌≡◌, refl, true, false, ◌&&◌, List, [], ◌∷◌, ◌==◌, Bool-cases, arith, Option, none, some, inl,
  inr, ◌∙◌, ap, subst, ◌⊎◌, ==_iff,
}
use stewieos.Tasks.{
  TaskFlags, TaskData, Sched, t_waiting, update, write_task, queued, unlink, task_wait, task_wakeup,
  task_kill, task_free, orphan, notify, awaited, no_flags, ℤ,
}
use stewieos.Tasks.Member.{queued-unlink, unrepeated, unrepeated-unlink, unrepeated-cons}

-- The queue holds no task twice and only tasks that neither wait nor are dead, and it holds every task
-- of the system that does not wait, is not dead and has not been killed.
pub record IsQueue (w : Sched) : Type 0 where
  pub once : unrepeated w.ready_tasks ≡ true
  pub awake :
      (x : ℕ)
      → queued x w.ready_tasks ≡ true
      → (t_waiting (w.tasks x).t_flags ≡ false) × ((w.tasks x).t_flags.zombie ≡ false)
  pub runnable :
      (x : ℕ)
      → queued x w.globlist ≡ true
      → t_waiting (w.tasks x).t_flags ≡ false
      → (w.tasks x).t_flags.zombie ≡ false
      → (w.tasks x).t_flags.exiting ≡ false
      → queued x w.ready_tasks ≡ true
  pub dead : (x : ℕ) → (w.tasks x).t_flags.zombie ≡ true → t_waiting (w.tasks x).t_flags ≡ false

-- what of a task the queue depends on
abbrev pub SameState : TaskData → TaskData → Type 0
SameState d e =
    (t_waiting d.t_flags ≡ t_waiting e.t_flags)
    × (d.t_flags.zombie ≡ e.t_flags.zombie)
    × (d.t_flags.exiting ≡ e.t_flags.exiting)

pub write_task-SameState :
    (t : ℕ) (d : TaskData) (f : ℕ → TaskData) (x : ℕ)
    → SameState d (f t)
    → SameState (write_task t d f x) (f x)
write_task-SameState t d f x s = elim (Bool-cases (t == x)) [
  | inl e ↦ rw e (subst (λ y. SameState d (f y)) ((==_iff t x).0 e) s)
  | inr e ↦ rw e (refl, refl, refl)
]

-- A change that the queue does not depend on; tasks may leave the system.
pub frame-IsQueue :
    (w w' : Sched)
    → IsQueue w
    → ((x : ℕ) → SameState (w'.tasks x) (w.tasks x))
    → w'.ready_tasks ≡ w.ready_tasks
    → ((x : ℕ) → queued x w'.globlist ≡ true → queued x w.globlist ≡ true)
    → IsQueue w'
frame-IsQueue w w' q s r g = record {
  once = rw r q.once;
  awake = λ x i. let j = rw r at i in ground (arith, q.awake x j, s x);
  runnable = λ x i n z e. rw r (ground (arith, q.runnable x, s x, g x));
  dead = λ x z. ground (arith, q.dead x, s x);
}

pub task_wait-IsQueue :
    (w : Sched) (t : ℕ) (f : TaskFlags)
    → IsQueue w
    → (w.tasks t).t_flags.zombie ≡ false
    → f.zombie ≡ false
    → IsQueue (task_wait t f w)
unfolding task_wait
task_wait-IsQueue w t f q z fz =
    let u = λ (x : ℕ). queued-unlink x t w.ready_tasks in
    elim (Bool-cases (t_waiting f)) [
      | inl e ↦ rw e (record {
        once = unrepeated-unlink t w.ready_tasks q.once;
        awake = λ x i. ground (arith, q.awake x, u x);
        runnable = λ x i n zz ee. ground (arith, q.runnable x, u x);
        dead = λ x zz. ground (arith, q.dead x);
      })
      | inr e ↦ rw e q
    ]

pub task_wakeup-IsQueue : (w : Sched) (t : ℕ) → IsQueue w → IsQueue (task_wakeup t w)
unfolding task_wakeup queued
task_wakeup-IsQueue w t q =
    let u = λ (x : ℕ). queued-unlink x t w.ready_tasks in
    elim (Bool-cases (t_waiting (w.tasks t).t_flags)) [
      | inl e ↦ rw e (record {
        once = unrepeated-cons t w.ready_tasks q.once;
        awake = λ x i. ground (arith, q.awake x, u x, q.dead x);
        runnable = λ x i n zz ee. ground (arith, q.runnable x, u x);
        dead = λ x zz. ground (arith, q.dead x);
      })
      | inr e ↦ rw e q
    ]

pub task_kill-IsQueue : (w : Sched) (t status : ℕ) → IsQueue w → IsQueue (task_kill t status w)
unfolding task_kill
task_kill-IsQueue w t status q = record {
  once = q.once;
  awake = λ x i. ground (arith, q.awake x);
  runnable = λ x i n zz ee. ground (arith, q.runnable x);
  dead = λ x zz. ground (arith, q.dead x);
}

pub orphan-flags :
    (cs : List ℕ) (f : ℕ → TaskData) (x : ℕ) → (orphan cs f x).t_flags ≡ (f x).t_flags
unfolding orphan
orphan-flags [] f x = refl
orphan-flags (c ∷ cs) f x =
    let ih = orphan-flags cs (write_task c (record (f c) { t_parent = none }) f) x in
    elim (Bool-cases (c == x)) [
      | inl e ↦ let k : c ≡ x = ground arith in ih ∙ rw e (ap (λ y. (f y).t_flags) k)
      | inr e ↦ ih ∙ rw e refl
    ]

notify-IsQueue : (p : Option ℕ) (t : ℕ) (w : Sched) → IsQueue w → IsQueue (notify p t w)
unfolding notify
notify-IsQueue none t w q = q
notify-IsQueue (some p) t w q =
    let dp = w.tasks p in
    let told = record dp { t_waitfor = ℤ.pos (w.tasks t).t_pid; t_status = (w.tasks t).t_status } in
    elim (Bool-cases (dp.t_flags.waittask && awaited dp.t_waitfor dp (w.tasks t))) [
      | inl e ↦ rw e (
          task_wakeup-IsQueue (update p told w) p (
            frame-IsQueue w (update p told w) q
              (λ x. write_task-SameState p told w.tasks x (refl, refl, refl)) refl (λ x i. i)))
      | inr e ↦ rw e q
    ]

-- Writing one task's other fields.
pub update-IsQueue :
    (w : Sched) (t : ℕ) (d : TaskData)
    → IsQueue w
    → SameState d (w.tasks t)
    → IsQueue (update t d w)
update-IsQueue w t d q s =
    frame-IsQueue w (update t d w) q (λ x. write_task-SameState t d w.tasks x s) refl (λ x i. i)

-- task_free after its two tests, up to where the parent is told
buried-IsQueue :
    (w : Sched) (t : ℕ) (d : TaskData) (cs : List ℕ)
    → IsQueue w
    → d.t_flags ≡ record no_flags { zombie = true }
    → IsQueue (record w {
      ready_tasks = unlink t w.ready_tasks;
      tasks = orphan cs (write_task t d w.tasks);
    })
buried-IsQueue w t d cs q e =
    let u = λ (x : ℕ). queued-unlink x t w.ready_tasks in
    let g : Sched = record w {
      ready_tasks = unlink t w.ready_tasks;
      tasks = write_task t d w.tasks;
    } in
    let dead : (x : ℕ)
        → (t == x) ≡ true
        → (t_waiting (g.tasks x).t_flags ≡ false) × ((g.tasks x).t_flags.zombie ≡ true) =
      λ x tx. rw tx (ap (λ (f : TaskFlags). t_waiting f) e, ap (λ (f : TaskFlags). f.zombie) e) in
    let live : (x : ℕ) → (t == x) ≡ false → SameState (g.tasks x) (w.tasks x) =
      λ x tx. rw tx (refl, refl, refl) in
    let gq : IsQueue g = record {
      once = unrepeated-unlink t w.ready_tasks q.once;
      awake = λ x i. ground (arith, u x, live x, q.awake x);
      runnable = λ x i n zz ee. ground (arith, u x, live x, dead x, q.runnable x);
      dead = λ x zz. ground (arith, live x, dead x, q.dead x);
    } in
    frame-IsQueue g _ gq
      (λ x.
        let o = orphan-flags cs (write_task t d w.tasks) x in
        (
          ap (λ (f : TaskFlags). t_waiting f) o,
          ap (λ (f : TaskFlags). f.zombie) o,
          ap (λ (f : TaskFlags). f.exiting) o,
        ))
      refl (λ x i. i)

freed-IsQueue :
    (t : ℕ) (w : Sched) → IsQueue w → queued t w.ready_tasks ≡ true → IsQueue (task_free none t w)
unfolding task_free
freed-IsQueue t w q i =
    let d = w.tasks t in
    let freed = record d { t_flags = record no_flags { zombie = true }; t_children = [] } in
    elim (Bool-cases (d.t_pid == 0)) [
      | inl e ↦ rw e (record {
        once = q.once;
        awake = λ x j. ground (arith, q.awake x);
        runnable = λ x j n zz ee. ground (arith, q.runnable x);
        dead = λ x zz. ground (arith, q.dead x);
      })
      | inr e ↦ rw e (notify-IsQueue _ t _ (buried-IsQueue w t freed d.t_children q refl))
    ]

pub task_free-IsQueue :
    (now : Option ℕ) (t : ℕ) (w : Sched)
    → IsQueue w
    → (queued t w.ready_tasks ≡ true) ⊎ (now ≡ some t)
    → IsQueue (task_free now t w)
unfolding task_free
task_free-IsQueue none t w q h = freed-IsQueue t w q (ground arith)
task_free-IsQueue (some n) t w q h = elim (Bool-cases (t == n)) [
  | inl e ↦ rw e q
  | inr e ↦ rw e (freed-IsQueue t w q (ground arith))
]
