-- ===== src/Tasks/Preempt.antt =====
-- task_preempt of kernel/src/task.c ends.
use stewieos.Prelude.{
  ℕ, suc, ◌+◌, ◌≤◌, ◌≡◌, ◌≢◌, ◌⊎◌, inl, inr, refl, Bool, true, false, List, [], ◌∷◌, Bool-cases,
  if◌then◌else◌, arith, Option, none, some, length, ◌∙◌, ap, sym, subst, ◌*◌,
}
use stewieos.Tasks.{Sched, t_waiting, queued, next_in, first_of, find_task, task_switch}
use stewieos.Tasks.Member.{next_in-queued, first_of-queued}
use stewieos.Tasks.Steps.{next_in_self}
use stewieos.Tasks.Since.{since}
use stewieos.Tasks.Passes.{CanRun}
use stewieos.Tasks.Finds.{Found, Found, find_task-restart, find_task-queued, find_task-queued}

pub length-since_le : (t : ℕ) (l : List ℕ) → length (since t l) ≤ length l
unfolding since
length-since_le t [] = omega arith
length-since_le t (a ∷ l) = ground (arith, length-since_le t l)

-- From where task_preempt starts: NULL, a task of the queue, or one that has gone to sleep.
abbrev pub Starts : Option ℕ → Sched → Type 0
Starts none w = Unit {0}
Starts (some t) w = (queued t w.ready_tasks ≡ true) ⊎ (t_waiting (w.tasks t).t_flags ≡ true)

pub find_task-asleep :
    (n t : ℕ) (w : Sched)
    → t_waiting (w.tasks t).t_flags ≡ true
    → find_task (suc n) (some t) w ≡ find_task (suc n) none w
unfolding find_task
find_task-asleep n t w e = rw e refl

pub find_task-Starts :
    (n r : ℕ) (now : Option ℕ) (w : Sched)
    → CanRun r w
    → Starts now w
    → length w.ready_tasks * 2 + 1 ≤ n
    → Found (find_task (suc n) now w)
find_task-Starts n r none w c s le = find_task-restart n r w c (omega arith)
find_task-Starts n r (some t) w c (inl q) le =
    find_task-queued (suc n) t r w c q (omega (arith, le, length-since_le t w.ready_tasks))
find_task-Starts n r (some t) w c (inr e) le =
    rw (find_task-asleep n t w e) (find_task-restart n r w c (omega arith))

pub some_inj : {a b : ℕ} → some a ≡ some b → a ≡ b
some_inj {a} {b} e = ap (λ (o : Option ℕ). elim o [ none ↦ a | some u ↦ u ]) e

pub next_in-Starts :
    (w v : Sched)
    → v.ready_tasks ≡ w.ready_tasks
    → ((x : ℕ) → t_waiting (v.tasks x).t_flags ≡ t_waiting (w.tasks x).t_flags)
    → (queued w.current w.ready_tasks ≡ true) ⊎ (t_waiting (w.tasks w.current).t_flags ≡ true)
    → (o : Option ℕ) → next_in w.current w.ready_tasks ≡ o
    → Starts o v
next_in-Starts w v r f s none e = tt
next_in-Starts w v r f s (some u) e = elim (Bool-cases (queued w.current w.ready_tasks)) [
  | inl q ↦ inl (rw r (next_in-queued w.current u w.ready_tasks q e))
  | inr n ↦
      let k : some w.current ≡ some u = sym (next_in_self w.current w.ready_tasks n) ∙ e in
      let j : t_waiting (w.tasks w.current).t_flags ≡ true = ground (arith, n) in
      inr (f u ∙ subst (λ y. t_waiting (w.tasks y).t_flags ≡ true) (some_inj k) j)
]

pub first_of-Starts : (v : Sched) (o : Option ℕ) → first_of v.ready_tasks ≡ o → Starts o v
first_of-Starts v none e = tt
first_of-Starts v (some u) e = inl (first_of-queued v.ready_tasks u e)

pub start-Starts :
    (b : Bool) (w v : Sched)
    → v.ready_tasks ≡ w.ready_tasks
    → ((x : ℕ) → t_waiting (v.tasks x).t_flags ≡ t_waiting (w.tasks x).t_flags)
    → (queued w.current w.ready_tasks ≡ true) ⊎ (t_waiting (w.tasks w.current).t_flags ≡ true)
    → Starts (if b then next_in w.current w.ready_tasks else first_of w.ready_tasks) v
start-Starts true w v r f s = next_in-Starts w v r f s _ refl
start-Starts false w v r f s = first_of-Starts v _ (ap (λ l. first_of l) r)

pub switch-ends :
    (o : Option (ℕ × Sched))
    → Found o
    → elim o [ none ↦ none | some (t, w) ↦ some (task_switch t w) ] ≢ none
switch-ends none f = elim f [ ]
switch-ends (some (t, w)) f = λ z. ground (arith, z)
