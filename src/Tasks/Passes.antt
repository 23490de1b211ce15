-- ===== src/Tasks/Passes.antt =====
-- The queue of ready tasks of kernel/src/task.c after task_free, seen from another task in it.
use stewieos.Prelude.{
  ℕ, ◌≤◌, ◌≡◌, ◌≢◌, inl, inr, true, false, List, ◌∷◌, ◌==◌, arith, Option, length, ◌∙◌, subst,
}
use stewieos.Tasks.{Sched, t_waiting, queued, unlink, task_free}
use stewieos.Tasks.Member.{queued-unlink}
use stewieos.Tasks.Queue.{IsQueue, task_free-IsQueue}
use stewieos.Tasks.Since.{since, since-unlink, length-unlink, length-unlink_le}
use stewieos.Tasks.Frees.{task_free-Frees, task_free-Frees}

-- The task `r` of a good queue has not been killed and stands in it.
pub record CanRun (r : ℕ) (w : Sched) : Type 0 where
  pub good : IsQueue w
  pub here : queued r w.ready_tasks ≡ true
  pub alive : (w.tasks r).t_flags.exiting ≡ false

-- the queue after task_free, seen from another task in it
pub record Passes (t u r : ℕ) (w v : Sched) : Type 0 where
  pub run : CanRun r v
  pub still : queued u v.ready_tasks ≡ true
  pub shorter : length (since u v.ready_tasks) ≤ length (since u w.ready_tasks)
  pub total : length v.ready_tasks ≤ length w.ready_tasks
  pub ahead : queued r (since u w.ready_tasks) ≡ true → queued r (since u v.ready_tasks) ≡ true

-- the part of it that is about lists
abbrev pub Shorter : (t u r : ℕ) (l m : List ℕ) → Type 0
Shorter t u r l m =
    (queued u m ≡ true)
    × (queued r m ≡ true)
    × (length (since u m) ≤ length (since u l))
    × (length m ≤ length l)
    × (queued r (since u l) ≡ true → queued r (since u m) ≡ true)

pub unlink-Shorter :
    (t u r : ℕ) (l : List ℕ)
    → queued u l ≡ true
    → queued r l ≡ true
    → t ≢ u
    → t ≢ r
    → Shorter t u r l (unlink t l)
unlink-Shorter t u r l qu qr nu nr =
    let e = since-unlink t u l nu in
    (
      ground (arith, queued-unlink u t l),
      ground (arith, queued-unlink r t l),
      rw e (length-unlink_le t (since u l)),
      length-unlink_le t l,
      λ i. rw e (ground (arith, queued-unlink r t (since u l))),
    )

pub wake-Shorter :
    (t p u r : ℕ) (l : List ℕ)
    → queued t l ≡ true
    → queued u l ≡ true
    → queued r l ≡ true
    → t ≢ u
    → t ≢ r
    → p ≢ u
    → p ≢ r
    → Shorter t u r l (p ∷ unlink p (unlink t l))
unfolding since queued
wake-Shorter t p u r l qt qu qr nu nr pu pr =
    let (a1, a2, a3, a4, a5) = unlink-Shorter t u r l qu qr nu nr in
    let (b1, b2, b3, b4, b5) = unlink-Shorter p u r (unlink t l) a1 a2 pu pr in
    let e : (p == u) ≡ false = ground arith in
    (
      ground arith,
      ground arith,
      rw e (omega (arith, a3, b3)),
      omega (arith, b4, length-unlink t l qt),
      λ i. rw e (b5 (a5 i)),
    )

pub asleep-other :
    {w : Sched} (p y : ℕ)
    → IsQueue w
    → queued y w.ready_tasks ≡ true
    → t_waiting (w.tasks p).t_flags ≡ true
    → p ≢ y
asleep-other {w} p y q i a = λ e.
    let s : t_waiting (w.tasks y).t_flags ≡ true =
      subst (λ x. t_waiting (w.tasks x).t_flags ≡ true) e a in
    let n : t_waiting (w.tasks y).t_flags ≡ false = (q.awake y i).0 in ground (arith, s, n)

pub free-Passes :
    (now : Option ℕ) (t u r : ℕ) (w : Sched)
    → CanRun r w
    → queued t w.ready_tasks ≡ true
    → queued u w.ready_tasks ≡ true
    → t ≢ u
    → t ≢ r
    → Passes t u r w (task_free now t w)
free-Passes now t u r w c qt qu nu nr =
    let v = task_free now t w in
    let f = task_free-Frees now t w in
    let s : Shorter t u r w.ready_tasks v.ready_tasks = elim f.queue [
      | inl q ↦ rw q (qu, c.here, omega arith, omega arith, λ i. i)
      | inr (inl q) ↦ rw q (unlink-Shorter t u r w.ready_tasks qu c.here nu nr)
      | inr (inr (p, q, a)) ↦ rw q (
          wake-Shorter t p u r w.ready_tasks qt qu c.here nu nr (asleep-other p u c.good qu a)
            (asleep-other p r c.good c.here a))
    ] in
    let (s1, s2, s3, s4, s5) = s in
    record {
      run = record {
        good = task_free-IsQueue now t w c.good (inl qt);
        here = s2;
        alive = f.exits r nr ∙ c.alive;
      };
      still = s1;
      shorter = s3;
      total = s4;
      ahead = s5;
    }
