-- ===== src/Tasks/Unfound.antt =====
-- What becomes of a task of kernel/src/task.c that was killed while it waited: no step finds it.
use stewieos.Prelude.{
  ℕ, zero, suc, ◌≡◌, ◌≢◌, false, not, ◌&&◌, List, [], ◌∷◌, ◌==◌, Bool-cases, if◌then◌else◌, arith,
  Option, none, some, ap, subst, inl, inr, ◌-◌,
}
use stewieos.Tasks.{
  Sched, t_waiting, update, queued, task_free, find_task, task_preempt, task_switch, alone, next_in,
  first_of,
}
use stewieos.Tasks.Member.{first_of-queued}
use stewieos.Tasks.Lost.{IsLost, update-IsLost, task_free-IsLost}

some-inj : {v w : Sched} → some v ≡ some w → v ≡ w
some-inj {v} {w} e = ap (λ (o : Option Sched). elim o [ none ↦ v | some u ↦ u ]) e

next_in-other : (t x : ℕ) (l : List ℕ) → queued x l ≡ false → t ≢ x → next_in t l ≢ some x
unfolding next_in queued
next_in-other t x [] n ne = λ e. ground arith
next_in-other t x (a ∷ l) n ne = λ e. ground (arith, next_in-other t x l, first_of-queued l x)

abbrev Misses : ℕ → Option (ℕ × Sched) → Type 0
Misses x none = Unit {0}
Misses x (some (t, w)) = IsLost x w × (t ≢ x)

module _ {x : ℕ} where
  find_task-Misses :
      (n : ℕ) (now : Option ℕ) (w : Sched)
      → IsLost x w
      → now ≢ some x
      → Misses x (find_task n now w)
  unfolding find_task
  find_task-Misses zero now w l ne = tt
  find_task-Misses (suc n) none w l ne =
      find_task-Misses n (first_of w.ready_tasks) w l
        (λ e. ground (arith, first_of-queued w.ready_tasks x e, l.unqueued))
  find_task-Misses (suc n) (some t) w l ne =
      let d = w.tasks t in
      let next = next_in t w.ready_tasks in
      let tx : t ≢ x = λ e. ne (ap (λ (y : ℕ). some y) e) in
      let no = next_in-other t x w.ready_tasks l.unqueued tx in
      let again =
        find_task-Misses n (first_of w.ready_tasks) w l
          (λ e. ground (arith, first_of-queued w.ready_tasks x e, l.unqueued)) in
      elim (Bool-cases (t_waiting d.t_flags)) [
        | inl e ↦ rw e again
        | inr e ↦ elim (Bool-cases d.t_flags.exiting) [
          | inl f ↦ elim (Bool-cases (d.t_dir == w.curdir)) [
            | inl g ↦ rw (e, g) (simp f (find_task-Misses n next w l no))
            | inr g ↦
                rw (e, g)
                  (simp f (
                    find_task-Misses n next (task_free next t w) (task_free-IsLost next t w l tx)
                      no))
          ]
          | inr f ↦ rw e (simp f (l, tx))
        ]
      ]

  switched-IsLost :
      (o : Option (ℕ × Sched))
      → Misses x o
      → (w : Sched) → (elim o [ none ↦ none | some (t, w') ↦ some (task_switch t w') ]) ≡ some w
      → IsLost x w
  unfolding task_switch
  switched-IsLost none m w e = ground arith
  switched-IsLost (some (t, w')) (l, tx) w e =
      let d = w'.tasks t in
      let u = update-IsLost w' t (record d { t_ticks_left = 15 }) l (λ q. absurd (tx q)) in
      let g : task_switch t w' ≡ w = unfold task_switch in ground (arith, e) in
      subst (IsLost x) g (record { flags = u.flags; unqueued = u.unqueued; idle = tx })

  pub task_preempt-IsLost :
      (n : ℕ) (w w' : Sched) → IsLost x w → task_preempt n w ≡ some w' → IsLost x w'
  unfolding task_preempt
  task_preempt-IsLost n w w' l e =
      let d = w.tasks w.current in
      let tired = record d { t_flags = record d.t_flags { resched = false } } in
      let start =
        if d.t_flags.running then next_in w.current w.ready_tasks else first_of w.ready_tasks in
      let other : start ≢ some x = λ q. ground (
        arith,
        next_in-other w.current x w.ready_tasks l.unqueued l.idle,
        first_of-queued w.ready_tasks x,
        l.unqueued,
      ) in
      elim (Bool-cases (alone w.current w.ready_tasks)) [
        | inl f ↦ let p = rw f at e in subst (IsLost x) (some-inj p) l
        | inr f ↦
            elim (Bool-cases
              (not (d.t_ticks_left == 0) && d.t_flags.running && not d.t_flags.resched)) [
                | inl g ↦
                    let p = rw (f, g) at e in
                    subst (IsLost x) (some-inj p) (
                      update-IsLost w w.current (record d { t_ticks_left = d.t_ticks_left - 1 }) l
                        (λ q. absurd (l.idle q)))
                | inr g ↦
                    let p = rw (f, g) at e in
                    switched-IsLost _
                      (find_task-Misses n start (update w.current tired w)
                        (update-IsLost w w.current tired l (λ q. absurd (l.idle q))) other)
                      w' p
              ]
      ]
