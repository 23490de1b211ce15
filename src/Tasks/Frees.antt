-- ===== src/Tasks/Frees.antt =====
-- What task_free of kernel/src/task.c does to the queue of ready tasks.
use stewieos.Prelude.{
  ℕ, ◌≡◌, ◌≢◌, ◌⊎◌, inl, inr, refl, true, false, ◌&&◌, [], ◌∷◌, ◌==◌, Bool-cases, arith, Option,
  none, some, ◌∙◌, ap, ==_iff, sym, subst,
}
use stewieos.Tasks.{
  ℤ, TaskFlags, TaskData, Sched, t_waiting, update, write_task, unlink, task_wakeup, task_free,
  notify, awaited, orphan, no_flags,
}
use stewieos.Tasks.Queue.{orphan-flags, write_task-SameState}

-- What waking a task, or nobody, does to the queue and to who has been killed.
pub record Wakes (w u : Sched) : Type 0 where
  pub queue :
      (u.ready_tasks ≡ w.ready_tasks)
      ⊎ ((p : ℕ) × (u.ready_tasks ≡ p ∷ unlink p w.ready_tasks)
          × (t_waiting (w.tasks p).t_flags ≡ true))
  pub exits : (x : ℕ) → (u.tasks x).t_flags.exiting ≡ (w.tasks x).t_flags.exiting

pub write_task-exiting :
    (t : ℕ) (d : TaskData) (f : ℕ → TaskData) (x : ℕ)
    → d.t_flags.exiting ≡ (f t).t_flags.exiting
    → (write_task t d f x).t_flags.exiting ≡ (f x).t_flags.exiting
write_task-exiting t d f x s = elim (Bool-cases (t == x)) [
  | inl e ↦ rw e (s ∙ ap (λ y. (f y).t_flags.exiting) ((==_iff t x).0 e))
  | inr e ↦ rw e refl
]

pub task_wakeup-Wakes : (t : ℕ) (w : Sched) → Wakes w (task_wakeup t w)
unfolding task_wakeup
task_wakeup-Wakes t w = elim (Bool-cases (t_waiting (w.tasks t).t_flags)) [
  | inl e ↦
      rw e (record { queue = inr (t, refl, e); exits = λ x. write_task-exiting t _ w.tasks x refl })
  | inr e ↦ rw e (record { queue = inl refl; exits = λ x. refl })
]

pub notify-Wakes : (p : Option ℕ) (t : ℕ) (w : Sched) → Wakes w (notify p t w)
unfolding notify
notify-Wakes none t w = record { queue = inl refl; exits = λ x. refl }
notify-Wakes (some p) t w =
    let dp = w.tasks p in
    let told = record dp { t_waitfor = ℤ.pos (w.tasks t).t_pid; t_status = (w.tasks t).t_status } in
    elim (Bool-cases (dp.t_flags.waittask && awaited dp.t_waitfor dp (w.tasks t))) [
      | inl e ↦
          let k = task_wakeup-Wakes p (update p told w) in
          rw e (record {
            queue = elim k.queue [
              | inl q ↦ inl q
              | inr (x, q, s) ↦
                  inr (x, q, sym (write_task-SameState p told w.tasks x (refl, refl, refl)).0 ∙ s)
            ];
            exits = λ x. k.exits x ∙ write_task-exiting p told w.tasks x refl;
          })
      | inr e ↦ rw e (record { queue = inl refl; exits = λ x. refl })
    ]

-- What task_free does to the queue and to who has been killed.
pub record Frees (t : ℕ) (w u : Sched) : Type 0 where
  pub queue :
      (u.ready_tasks ≡ w.ready_tasks)
      ⊎ (u.ready_tasks ≡ unlink t w.ready_tasks)
      ⊎ ((p : ℕ) × (u.ready_tasks ≡ p ∷ unlink p (unlink t w.ready_tasks))
          × (t_waiting (w.tasks p).t_flags ≡ true))
  pub exits : (x : ℕ) → t ≢ x → (u.tasks x).t_flags.exiting ≡ (w.tasks x).t_flags.exiting

pub freed-Frees : (t : ℕ) (w : Sched) → Frees t w (task_free none t w)
unfolding task_free
freed-Frees t w =
    let d = w.tasks t in
    let freed = record d { t_flags = record no_flags { zombie = true }; t_children = [] } in
    let v : Sched = record w {
      ready_tasks = unlink t w.ready_tasks;
      tasks = orphan d.t_children (write_task t freed w.tasks);
    } in
    let flags = λ (x : ℕ). orphan-flags d.t_children (write_task t freed w.tasks) x in
    let k = notify-Wakes (v.tasks t).t_parent t v in
    let other : (x : ℕ) → t ≢ x → (v.tasks x).t_flags ≡ (w.tasks x).t_flags =
      λ x ne. let e : (t == x) ≡ false = ground arith in flags x ∙ rw e refl in
    let self : t_waiting (v.tasks t).t_flags ≡ false =
      let e : (t == t) ≡ true = ground arith in
      let z : (v.tasks t).t_flags ≡ freed.t_flags = flags t ∙ rw e refl in
      ap (λ (f : TaskFlags). t_waiting f) z in
    elim (Bool-cases (d.t_pid == 0)) [
      | inl e ↦ rw e (record {
        queue = inl refl;
        exits = λ x ne. let f : (t == x) ≡ false = ground arith in rw f refl;
      })
      | inr e ↦ rw e (record {
        queue = elim k.queue [
          | inl q ↦ inr (inl q)
          | inr (p, q, s) ↦
              let ne : t ≢ p = λ z.
                let s' = subst (λ y. t_waiting (v.tasks y).t_flags ≡ true) (sym z) s in
                ground (arith, self) in
              inr (inr (p, q, sym (ap (λ (f : TaskFlags). t_waiting f) (other p ne)) ∙ s))
        ];
        exits = λ x ne. k.exits x ∙ ap (λ (f : TaskFlags). f.exiting) (other x ne);
      })
    ]

pub task_free-Frees : (now : Option ℕ) (t : ℕ) (w : Sched) → Frees t w (task_free now t w)
unfolding task_free
task_free-Frees none t w = freed-Frees t w
task_free-Frees (some n) t w = elim (Bool-cases (t == n)) [
  | inl e ↦ rw e (record { queue = inl refl; exits = λ x ne. refl })
  | inr e ↦ rw e (freed-Frees t w)
]
