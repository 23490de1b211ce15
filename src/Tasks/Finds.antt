-- ===== src/Tasks/Finds.antt =====
-- The loop of task_preempt in kernel/src/task.c ends with a task to run.
use stewieos.Prelude.{
  ℕ, zero, suc, ◌+◌, ◌≤◌, ◌<◌, ◌≡◌, ◌≢◌, ◌⊎◌, inl, inr, refl, true, false, List, [], ◌∷◌, ◌==◌,
  Bool-cases, arith, Option, none, some, length, Option-cases, ap, sym, subst,
}
use stewieos.Tasks.{Sched, t_waiting, queued, next_in, first_of, task_free, find_task}
use stewieos.Tasks.Member.{unrepeated, next_in-queued, first_of-queued}
use stewieos.Tasks.Since.{since, since-first_of, since-next_in, since-last, length-unlink}
use stewieos.Tasks.Passes.{CanRun, Passes, free-Passes}

abbrev pub Found : Option (ℕ × Sched) → Type 0
Found none = ⊥
Found (some p) = Unit {0}

-- a task that can run is not one that has been killed
pub alive-other :
    {r : ℕ} {w : Sched} (t : ℕ) → CanRun r w → (w.tasks t).t_flags.exiting ≡ true → t ≢ r
alive-other {r} {w} t c f = λ e.
    let s : (w.tasks r).t_flags.exiting ≡ true =
      subst (λ x. (w.tasks x).t_flags.exiting ≡ true) e f in
    ground (arith, s, c.alive)

-- one round at a task of the queue
pub find_task-round :
    (n t r : ℕ) (w : Sched)
    → CanRun r w
    → queued t w.ready_tasks ≡ true
    → ((v : Sched)
        → t ≢ r
        → (v ≡ w) ⊎ (v ≡ task_free (next_in t w.ready_tasks) t w)
        → Found (find_task n (next_in t w.ready_tasks) v))
    → Found (find_task (suc n) (some t) w)
unfolding find_task
find_task-round n t r w c qt k =
    let d = w.tasks t in
    let a : t_waiting d.t_flags ≡ false = (c.good.awake t qt).0 in
    rw a (elim (Bool-cases d.t_flags.exiting) [
      | inl f ↦
          let nr = alive-other t c f in
          elim (Bool-cases (d.t_dir == w.curdir)) [
            | inl g ↦ rw g (simp f (k w nr (inl refl)))
            | inr g ↦ rw g (simp f (k _ nr (inr refl)))
          ]
      | inr f ↦ simp f tt
    ])

pub length-queued : (x : ℕ) (l : List ℕ) → queued x l ≡ true → 0 < length l
length-queued x l q = omega (arith, length-unlink x l q)

pub same-Passes :
    {t u r : ℕ} {w : Sched} → CanRun r w → queued u w.ready_tasks ≡ true → Passes t u r w w
same-Passes c qu = record {
  run = c;
  still = qu;
  shorter = omega arith;
  total = omega arith;
  ahead = λ i. i;
}

pub round-Passes :
    (t u r : ℕ) (w v : Sched) (now : Option ℕ)
    → CanRun r w
    → queued t w.ready_tasks ≡ true
    → queued u w.ready_tasks ≡ true
    → t ≢ u
    → t ≢ r
    → (v ≡ w) ⊎ (v ≡ task_free now t w)
    → Passes t u r w v
round-Passes t u r w v now c qt qu nu nr (inl e) = subst (Passes t u r w) (sym e) (same-Passes c qu)
round-Passes t u r w v now c qt qu nu nr (inr e) =
    subst (Passes t u r w) (sym e) (free-Passes now t u r w c qt qu nu nr)

-- The successor is another task, and it is nearer to the end of the queue.
pub record Advances (t u : ℕ) (l : List ℕ) : Type 0 where
  pub inside : queued u l ≡ true
  pub other : t ≢ u
  pub rest : since t l ≡ t ∷ since u l
  pub nearer : length (since t l) ≡ suc (length (since u l))

pub next_in-Advances :
    (t u : ℕ) (l : List ℕ)
    → unrepeated l ≡ true
    → queued t l ≡ true
    → next_in t l ≡ some u
    → Advances t u l
next_in-Advances t u l o q e =
    let s = since-next_in t u l o q e in
    let k : length (since t l) ≡ suc (length (since u l)) = ap (λ m. length m) s in
    record {
      inside = next_in-queued t u l q e;
      other = λ f. let z = ap (λ x. length (since x l)) f in omega (arith, k);
      rest = s;
      nearer = k;
    }

-- From a task on that stands before one that can run, the loop ends in the rest of the queue.
pub find_task-ahead :
    (n t r : ℕ) (w : Sched)
    → CanRun r w
    → queued t w.ready_tasks ≡ true
    → queued r (since t w.ready_tasks) ≡ true
    → length (since t w.ready_tasks) ≤ n
    → Found (find_task n (some t) w)
find_task-ahead zero t r w c qt a le =
    absurd (let z = length-queued r (since t w.ready_tasks) a in omega arith)
find_task-ahead (suc n) t r w c qt a le = find_task-round n t r w c qt (λ v nr o.
    let l = w.ready_tasks in
    elim (Option-cases (next_in t l)) [
      | inl e ↦ absurd (
          let b : queued r (t ∷ []) ≡ true = rw (since-last t l c.good.once qt e) at a in
          unfold queued in ground (arith, b))
      | inr (u, e) ↦
          let d = next_in-Advances t u l c.good.once qt e in
          let p = round-Passes t u r w v (next_in t l) c qt d.inside d.other nr o in
          let b : queued r (t ∷ since u l) ≡ true = rw d.rest at a in
          let b' : queued r (since u l) ≡ true = unfold queued in ground (arith, b) in
          rw e (
            find_task-ahead n u r v p.run p.still (p.ahead b')
              (omega (arith, le, d.nearer, p.shorter)))
    ])

pub first_of-none : (x : ℕ) (l : List ℕ) → first_of l ≡ none → queued x l ≡ false
unfolding first_of queued
first_of-none x [] e = refl
first_of-none x (a ∷ l) e = ground (arith, e)

-- From the start of the queue.
pub find_task-restart :
    (n r : ℕ) (w : Sched) → CanRun r w → length w.ready_tasks ≤ n → Found (find_task (suc n) none w)
unfolding find_task
find_task-restart n r w c le = elim (Option-cases (first_of w.ready_tasks)) [
  | inl e ↦ ground (arith, first_of-none r w.ready_tasks e, c.here)
  | inr (u, e) ↦
      let s = since-first_of w.ready_tasks u e in
      rw e (find_task-ahead n u r w c (first_of-queued w.ready_tasks u e) (rw s c.here) (rw s le))
]

pub restart_pred :
    (n r : ℕ) (w : Sched) → CanRun r w → length w.ready_tasks + 1 ≤ n → Found (find_task n none w)
restart_pred zero r w c le = ground arith
restart_pred (suc n) r w c le = find_task-restart n r w c (omega arith)

-- From any task of the queue.
pub find_task-queued :
    (n t r : ℕ) (w : Sched)
    → CanRun r w
    → queued t w.ready_tasks ≡ true
    → length (since t w.ready_tasks) + 1 + length w.ready_tasks ≤ n
    → Found (find_task n (some t) w)
find_task-queued zero t r w c qt le = ground arith
find_task-queued (suc n) t r w c qt le = find_task-round n t r w c qt (λ v nr o.
    let l = w.ready_tasks in
    elim (Option-cases (next_in t l)) [
      | inl e ↦
          let p = round-Passes t r r w v (next_in t l) c qt c.here nr nr o in
          let one : length (since t l) ≡ 1 = ap (λ m. length m) (since-last t l c.good.once qt e) in
          rw e (restart_pred n r v p.run (omega (arith, le, p.total, one)))
      | inr (u, e) ↦
          let d = next_in-Advances t u l c.good.once qt e in
          let p = round-Passes t u r w v (next_in t l) c qt d.inside d.other nr o in
          rw e (
            find_task-queued n u r v p.run p.still
              (omega (arith, le, d.nearer, p.shorter, p.total)))
    ])
