-- ===== src/Tasks/Lost.antt =====
-- task_kill of kernel/src/task.c on a task that waits. The loop of task_preempt buries the tasks that it
-- finds in the queue, and task_wakeup skips a task that has no wait flag, so nobody finds this one.
use stewieos.Prelude.{
  ℕ, ◌≡◌, ◌≢◌, refl, true, false, ◌&&◌, [], ◌==◌, Bool-cases, arith, Option, none, some, inl, sym,
  ◌∙◌, ==_iff, inr, ap,
}
use stewieos.Tasks.{
  ℤ, TaskFlags, TaskData, Sched, t_waiting, update, write_task, queued, task_wait, task_wakeup,
  task_kill, task_free, no_flags, notify, awaited,
}
use stewieos.Tasks.Member.{queued-unlink}
use stewieos.Tasks.Queue.{orphan-flags}

-- the flags that task_kill leaves
abbrev pub killed : TaskFlags
killed = record no_flags { exiting = true }

-- A task that has been killed, stands in no queue and does not run.
pub record IsLost (x : ℕ) (w : Sched) : Type 0 where
  pub flags : (w.tasks x).t_flags ≡ killed
  pub unqueued : queued x w.ready_tasks ≡ false
  pub idle : w.current ≢ x

module _ {x : ℕ} where
  -- A change of another task, or of other fields than the flags.
  pub write_task-flags :
      (t : ℕ) (d : TaskData) (f : ℕ → TaskData)
      → ((t ≡ x) → d.t_flags ≡ (f x).t_flags)
      → (write_task t d f x).t_flags ≡ (f x).t_flags
  write_task-flags t d f s = elim (Bool-cases (t == x)) [
    | inl e ↦ rw e (s ((==_iff t x).0 e))
    | inr e ↦ rw e refl
  ]

  pub task_wait-IsLost :
      (w : Sched) (t : ℕ) (f : TaskFlags) → IsLost x w → t ≢ x → IsLost x (task_wait t f w)
  unfolding task_wait
  task_wait-IsLost w t f l ne = elim (Bool-cases (t_waiting f)) [
    | inl e ↦ rw e (record {
      flags = write_task-flags t _ w.tasks (λ p. absurd (ne p)) ∙ l.flags;
      unqueued = let u = queued-unlink x t w.ready_tasks in ground (arith, l.unqueued);
      idle = l.idle;
    })
    | inr e ↦ rw e l
  ]

  pub task_wakeup-IsLost : (w : Sched) (t : ℕ) → IsLost x w → IsLost x (task_wakeup t w)
  unfolding task_wakeup queued
  task_wakeup-IsLost w t l = elim (Bool-cases (t_waiting (w.tasks t).t_flags)) [
    | inl e ↦
        let ne : t ≢ x = λ p.
          let a : t_waiting (w.tasks t).t_flags ≡ false =
            ap (λ y. t_waiting (w.tasks y).t_flags) p
            ∙ ap (λ (f : TaskFlags). t_waiting f) l.flags in
          ground (arith, e) in
        rw e (record {
          flags = write_task-flags t _ w.tasks (λ p. absurd (ne p)) ∙ l.flags;
          unqueued = let u = queued-unlink x t w.ready_tasks in ground (arith, l.unqueued);
          idle = l.idle;
        })
    | inr e ↦ rw e l
  ]

  pub task_kill-IsLost : (w : Sched) (t status : ℕ) → IsLost x w → IsLost x (task_kill t status w)
  unfolding task_kill
  task_kill-IsLost w t status l = record {
    flags = write_task-flags t _ w.tasks (λ p. sym l.flags) ∙ l.flags;
    unqueued = l.unqueued;
    idle = l.idle;
  }

  -- Fields of a task other than its flags.
  pub update-IsLost :
      (w : Sched) (t : ℕ) (d : TaskData)
      → IsLost x w
      → ((t ≡ x) → d.t_flags ≡ (w.tasks x).t_flags)
      → IsLost x (update t d w)
  update-IsLost w t d l s = record {
    flags = write_task-flags t d w.tasks s ∙ l.flags;
    unqueued = l.unqueued;
    idle = l.idle;
  }

  notify-IsLost : (p : Option ℕ) (t : ℕ) (w : Sched) → IsLost x w → IsLost x (notify p t w)
  unfolding notify
  notify-IsLost none t w l = l
  notify-IsLost (some p) t w l =
      let dp = w.tasks p in
      let told = record dp {
        t_waitfor = ℤ.pos (w.tasks t).t_pid;
        t_status = (w.tasks t).t_status;
      } in
      elim (Bool-cases (dp.t_flags.waittask && awaited dp.t_waitfor dp (w.tasks t))) [
        | inl e ↦ rw e (
            task_wakeup-IsLost (update p told w) p
              (update-IsLost w p told l (λ q. ap (λ y. (w.tasks y).t_flags) q)))
        | inr e ↦ rw e l
      ]

  freed-IsLost : (t : ℕ) (w : Sched) → IsLost x w → t ≢ x → IsLost x (task_free none t w)
  unfolding task_free
  freed-IsLost t w l ne =
      let d = w.tasks t in
      let freed = record d { t_flags = record no_flags { zombie = true }; t_children = [] } in
      elim (Bool-cases (d.t_pid == 0)) [
        | inl e ↦ rw e (update-IsLost w t _ l (λ p. absurd (ne p)))
        | inr e ↦ rw e (
            notify-IsLost _ t _ (record {
              flags =
                  orphan-flags d.t_children (write_task t freed w.tasks) x
                  ∙ write_task-flags t freed w.tasks (λ p. absurd (ne p))
                  ∙ l.flags;
              unqueued = let u = queued-unlink x t w.ready_tasks in ground (arith, l.unqueued);
              idle = l.idle;
            }))
      ]

  pub task_free-IsLost :
      (now : Option ℕ) (t : ℕ) (w : Sched) → IsLost x w → t ≢ x → IsLost x (task_free now t w)
  unfolding task_free
  task_free-IsLost none t w l ne = freed-IsLost t w l ne
  task_free-IsLost (some n) t w l ne = elim (Bool-cases (t == n)) [
    | inl e ↦ rw e l
    | inr e ↦ rw e (freed-IsLost t w l ne)
  ]
