-- ===== src/Sem/Conserve.antt =====
-- The units of a semaphore of kernel/src/sem.c over any sequence of calls.
use stewieos.Prelude.{
  ℕ, ◌+◌, ◌-◌, ◌%◌, ◌^◌, ◌<◌, ◌≡◌, refl, ◌≢◌, List, [], ◌∷◌, arith, none, some, Option, Errno, ok,
  err, inl, inr, Bool-cases, ◌==◌, ltb, subst, ◌∙◌, ◌≤◌, sym, ap, ap₂, ◌++◌, if◌then◌else◌, false,
  true, leb, ==_iff,
}
use stewieos.Sem.{
  World, Outcome, sem_wait, sem_signal, sem_timeout, scan, hand_over, sem_wait_woken, assign,
}
use stewieos.Sem.Owed.{
  occurs, without, grants, owed, owed-same, owed-without, occurs-without, occurs-append,
}

-- A semaphore with a count of the units released by sem_signal so far, and of the calls of sem_wait that
-- have returned 0, at once or after a sleep. `woken` holds the tasks that have been woken and have not
-- run on yet.
pub record Ledger : Type 0 where
  pub world : World
  pub signalled : ℕ
  pub granted : ℕ

-- A call of sem_wait, up to its return or its sleep, by a task that runs; the return of a task that has
-- been woken from its sleep; a sem_signal; and a sem_timeout.
pub data Step (l : Ledger) : Ledger → Type 0 where
  got :
      (current ticks timeout : ℕ) (w : World)
      → sem_wait current ticks timeout l.world ≡ Outcome.returned (ok tt) w
      → Step l (record l { world = w; granted = l.granted + 1 })
  slept :
      (current ticks timeout : ℕ) (w : World)
      → occurs current l.world.sem.tasks + occurs current l.world.woken ≡ 0
      → sem_wait current ticks timeout l.world ≡ Outcome.asleep w
      → Step l (record l { world = w })
  refused :
      (current ticks timeout : ℕ) (w : World) (e : Errno)
      → sem_wait current ticks timeout l.world ≡ Outcome.returned (err e) w
      → Step l (record l { world = w })
  resumed :
      (current : ℕ)
      → occurs current l.world.woken ≢ 0
      → Step l (record l {
        world = record l.world { woken = without current l.world.woken };
        granted = l.granted + grants (sem_wait_woken current l.world);
      })
  signal :
      (w : World)
      → sem_signal l.world ≡ Outcome.returned (ok tt) w
      → Step l (record l { world = w; signalled = l.signalled + 1 })
  timer :
      (now : ℕ) (next : Option ℕ) (w : World)
      → sem_timeout now l.world ≡ some (next, w)
      → Step l (record l { world = w })

pub data Reach (l : Ledger) : ℕ → Ledger → Type 0 where
  here : Reach l 0 l
  next : {n : ℕ} {m k : Ledger} → Reach l n m → Step m k → Reach l (n + 1) k

-- no task waits twice, or waits and has been woken, or has been woken twice
abbrev pub IsApart : World → Type 0
IsApart w = (x : ℕ) → occurs x w.sem.tasks + occurs x w.woken ≤ 1

-- The balance, for a semaphore that started with `initial` units, and that a task waits only while
-- there is no unit.
pub record Balanced (initial : ℕ) (l : Ledger) : Type 0 where
  pub balance : l.world.sem.units + l.granted + owed l.world l.world.woken ≡ initial + l.signalled
  pub waiting : l.world.sem.tasks ≢ [] → l.world.sem.units ≡ 0
  pub apart : IsApart l.world

-- only units, lock, timers may differ
record SameTasks (w w' : World) : Type 0 where
  tasks : w'.sem.tasks ≡ w.sem.tasks
  woken : w'.woken ≡ w.woken
  owing : owed w' w'.woken ≡ owed w w.woken

same_tasks :
    (w w' : World)
    → w'.sem.tasks ≡ w.sem.tasks
    → w'.woken ≡ w.woken
    → w'.t_timeout ≡ w.t_timeout
    → SameTasks w w'
same_tasks w w' a b c = record {
  tasks = a;
  woken = b;
  owing = ap (owed w') b ∙ owed-same w w' w.woken (λ x n. ap (λ (f : ℕ → ℕ). f x) c);
}

-- what a sem_wait does, by its outcome
abbrev Waits : (current : ℕ) → World → Outcome → Type 0
Waits current w (Outcome.returned (ok u) w') =
    (w.sem.units ≢ 0) × (w'.sem.units ≡ (w.sem.units + (2 ^ 32 - 1)) % 2 ^ 32) × SameTasks w w'
Waits current w (Outcome.returned (err e) w') = (w'.sem.units ≡ w.sem.units) × SameTasks w w'
Waits current w (Outcome.asleep w') =
    (w.sem.units ≡ 0)
    × (w'.sem.units ≡ 0)
    × (w'.sem.tasks ≡ w.sem.tasks ++ current ∷ [])
    × (w'.woken ≡ w.woken)
    × ((x : ℕ) → (current == x) ≡ false → w'.t_timeout x ≡ w.t_timeout x)
Waits current w Outcome.spins = Unit

sem_wait-Waits :
    (current ticks timeout : ℕ) (w : World) → Waits current w (sem_wait current ticks timeout w)
unfolding sem_wait
sem_wait-Waits current ticks timeout w = elim (Bool-cases w.sem.locked) [
  | inl l ↦ rw l tt
  | inr l ↦ elim (Bool-cases (w.sem.units == 0)) [
    | inr u ↦ simp (l, u) (ground arith, refl, same_tasks w _ refl refl refl)
    | inl u ↦ elim (Bool-cases (timeout == 0)) [
      | inl t ↦ simp (l, u, t) (refl, same_tasks w _ refl refl refl)
      | inr t ↦ elim (Bool-cases (ltb ((ticks + timeout) % 2 ^ 32) w.sem.earliest_timeout)) [
        | inl d ↦ rw (l, u, t, d) (ground arith, ground arith, refl, refl, λ x n. rw n refl)
        | inr d ↦ rw (l, u, t, d) (ground arith, ground arith, refl, refl, λ x n. rw n refl)
      ]
    ]
  ]
]

abbrev SignalsTo : World → List ℕ → World → Type 0
SignalsTo w [] w' = (w'.sem.units ≡ (w.sem.units + 1) % 2 ^ 32) × SameTasks w w'
SignalsTo w (t ∷ ts) w' =
    (w'.sem.units ≡ w.sem.units)
    × (w'.sem.tasks ≡ ts)
    × (w'.woken ≡ t ∷ w.woken)
    × (sem_wait_woken t w' ≡ ok tt)
    × ((x : ℕ) → (t == x) ≡ false → w'.t_timeout x ≡ w.t_timeout x)

hand_over-SignalsTo : (w : World) (ts : List ℕ) → w.sem.tasks ≡ ts → SignalsTo w ts (hand_over ts w)
unfolding hand_over sem_wait_woken
hand_over-SignalsTo w [] e = (refl, same_tasks w _ refl refl refl)
hand_over-SignalsTo w (t ∷ ts) e =
    let s : (t == t) ≡ true = ground arith in (refl, refl, refl, rw s refl, λ x n. rw n refl)

abbrev Signals : World → Outcome → Type 0
Signals w (Outcome.returned (ok u) w') = SignalsTo w w.sem.tasks w'
Signals w (Outcome.returned (err e) w') = ⊥
Signals w (Outcome.asleep w') = ⊥
Signals w Outcome.spins = Unit

sem_signal-Signals : (w : World) → Signals w (sem_signal w)
unfolding sem_signal
sem_signal-Signals w = elim (Bool-cases w.sem.locked) [
  | inl l ↦ rw l tt
  | inr l ↦ simp l (hand_over-SignalsTo w w.sem.tasks refl)
]

-- What the loop of sem_timeout does: the tasks that expire are woken, without a unit.
record Scanned (w : World) (tasks : List ℕ) (kept : List ℕ) (w' : World) : Type 0 where
  moved : (x : ℕ) → occurs x kept + occurs x w'.woken ≡ occurs x tasks + occurs x w.woken
  owing : ((x : ℕ) → occurs x tasks + occurs x w.woken ≤ 1) → owed w' w'.woken ≡ owed w w.woken

expired-owed :
    (w : World) (task : ℕ)
    → occurs task w.woken ≡ 0
    → let w' : World = record w { t_timeout = assign w.t_timeout task 0; woken = task ∷ w.woken } in
      owed w' w'.woken ≡ owed w w.woken
unfolding owed grants sem_wait_woken
expired-owed w task z =
    let w' : World = record w { t_timeout = assign w.t_timeout task 0; woken = task ∷ w.woken } in
    let s : (task == task) ≡ true = ground arith in
    let same : owed w' w.woken ≡ owed w w.woken = owed-same w w' w.woken (λ x n.
      elim (Bool-cases (task == x)) [
        | inl e ↦ absurd (n (ap (λ y. occurs y w.woken) (sym ((==_iff task x).0 e)) ∙ z))
        | inr e ↦ rw e refl
      ]) in
    rw s (omega (arith, same))

scan-Scanned :
    (now earliest : ℕ) (tasks : List ℕ) (w : World)
    → let (e, kept, w') = scan now earliest tasks w in Scanned w tasks kept w'
unfolding scan occurs
scan-Scanned now earliest [] w = record { moved = λ x. refl; owing = λ a. refl }
scan-Scanned now earliest (task ∷ tasks) w = elim (Bool-cases (leb (w.t_timeout task) now)) [
  | inl l ↦
      let u : World = record w { t_timeout = assign w.t_timeout task 0; woken = task ∷ w.woken } in
      let ih = scan-Scanned now earliest tasks u in
      rw l (record {
        moved = λ x. let m = ih.moved x in omega (arith, m);
        owing = λ a.
            let own = a task in
            let z : occurs task w.woken ≡ 0 = ground (arith, own) in
            ih.owing (λ x. let b = a x in omega (arith, b)) ∙ expired-owed w task z;
      })
  | inr l ↦
      let e = if ltb (w.t_timeout task) earliest then w.t_timeout task else earliest in
      let ih = scan-Scanned now e tasks w in
      rw l (record {
        moved = λ x. let m = ih.moved x in omega (arith, m);
        owing = λ a. ih.owing (λ x. let b = a x in omega (arith, b));
      })
]

-- and what a sem_timeout does
abbrev Expires : World → Option (Option ℕ × World) → Type 0
Expires w none = Unit
Expires w (some (t, w')) =
    (w'.sem.units ≡ w.sem.units)
    × (w.sem.tasks ≡ [] → w'.sem.tasks ≡ [])
    × Scanned w w.sem.tasks w'.sem.tasks w'

scan_nil :
    (now earliest : ℕ) (tasks : List ℕ) (w : World)
    → tasks ≡ []
    → (scan now earliest tasks w).1 ≡ []
unfolding scan
scan_nil now earliest [] w e = refl
scan_nil now earliest (t ∷ ts) w e = cc

sem_timeout-Expires : (now : ℕ) (w : World) → Expires w (sem_timeout now w)
unfolding sem_timeout
sem_timeout-Expires now w = elim (Bool-cases w.sem.locked) [
  | inl l ↦ rw l tt
  | inr l ↦
      let s = scan-Scanned now (2 ^ 32 - 1) w.sem.tasks w in
      let w' : World = (scan now (2 ^ 32 - 1) w.sem.tasks w).2 in
      simp l (
        refl,
        scan_nil now _ w.sem.tasks w,
        record { moved = s.moved; owing = λ a. owed-same w' _ w'.woken (λ x n. refl) ∙ s.owing a },
      )
]

cons_nil : {t : ℕ} {ts : List ℕ} → t ∷ ts ≢ []
cons_nil = cc

same-IsApart : (w w' : World) → SameTasks w w' → IsApart w → IsApart w'
same-IsApart w w' s a x = rw (s.tasks, s.woken) (a x)

signal_Balanced :
    (initial : ℕ) (l : Ledger) (w : World)
    → initial + l.signalled + 1 < 2 ^ 32
    → Balanced initial l
    → (ts : List ℕ) → l.world.sem.tasks ≡ ts
    → SignalsTo l.world ts w
    → Balanced initial (record l { world = w; signalled = l.signalled + 1 })
unfolding owed grants occurs
signal_Balanced initial l w h b [] e (u, s) = record {
  balance = omega (arith, u, s.owing, b.balance, h);
  waiting = λ n. absurd (n (s.tasks ∙ e));
  apart = same-IsApart l.world w s b.apart;
}
signal_Balanced initial l w h b (t ∷ ts) e (u, k, wk, g, f) =
    let z = b.waiting λ n. cons_nil (sym e ∙ n) in
    let a : (x : ℕ) → occurs x (t ∷ ts) + occurs x l.world.woken ≤ 1 =
      λ x. subst (λ us. occurs x us + occurs x l.world.woken ≤ 1) e (b.apart x) in
    let own = a t in
    let none_woken : occurs t l.world.woken ≡ 0 = ground (arith, own) in
    let o : owed w l.world.woken ≡ owed l.world l.world.woken =
      owed-same l.world w l.world.woken (λ x n. elim (Bool-cases (t == x)) [
        | inl q ↦
            absurd (n (ap (λ y. occurs y l.world.woken) (sym ((==_iff t x).0 q)) ∙ none_woken))
        | inr q ↦ f x q
      ]) in
    let one : owed w w.woken ≡ 1 + owed l.world l.world.woken =
      ap (owed w) wk ∙ ap₂ ◌+◌ (ap grants g) o in
    record {
      balance = omega (arith, u, one, b.balance);
      waiting = λ n. u ∙ z;
      apart = λ x. rw (k, wk) (let c = a x in omega (arith, c));
    }

slept_Balanced :
    (initial : ℕ) (l : Ledger) (current : ℕ) (w : World)
    → occurs current l.world.sem.tasks + occurs current l.world.woken ≡ 0
    → Balanced initial l
    → Waits current l.world (Outcome.asleep w)
    → Balanced initial (record l { world = w })
slept_Balanced initial l current w z b (u, u', k, wk, f) =
    let o : owed w w.woken ≡ owed l.world l.world.woken =
      ap (owed w) wk
      ∙ owed-same l.world w l.world.woken (λ x n. elim (Bool-cases (current == x)) [
        | inl q ↦
            let e = ap (λ y. occurs y l.world.woken) ((==_iff current x).0 q) in
            absurd (n (omega (arith, e, z)))
        | inr q ↦ f x q
      ]) in
    record {
      balance = omega (arith, u, u', o, b.balance);
      waiting = λ n. u';
      apart = λ x.
          rw (k, wk)
            (let c = b.apart x in
              let m = occurs-append x l.world.sem.tasks current in
              elim (Bool-cases (current == x)) [
                | inl q ↦
                    let e = (==_iff current x).0 q in
                    let ez = ap (λ y. occurs y l.world.sem.tasks + occurs y l.world.woken) e in
                    ground (arith, m, z, ez, q)
                | inr q ↦ ground (arith, m, c, q)
              ]);
    }

Step-Balanced :
    (initial : ℕ) (l m : Ledger)
    → initial + l.signalled + 1 < 2 ^ 32
    → Balanced initial l
    → Step l m
    → Balanced initial m
Step-Balanced initial l m h b (got current ticks timeout w e) =
    let (n0, u, s) =
      subst (Waits current l.world) e (sem_wait-Waits current ticks timeout l.world) in
    record {
      balance = omega (arith, n0, u, s.owing, b.balance, h);
      waiting = λ n. absurd (n0 (b.waiting λ z. n (s.tasks ∙ z)));
      apart = same-IsApart l.world w s b.apart;
    }
Step-Balanced initial l m h b (slept current ticks timeout w z e) =
    slept_Balanced initial l current w z b
      (subst (Waits current l.world) e (sem_wait-Waits current ticks timeout l.world))
Step-Balanced initial l m h b (refused current ticks timeout w r e) =
    let (u, s) = subst (Waits current l.world) e (sem_wait-Waits current ticks timeout l.world) in
    record {
      balance = omega (arith, u, s.owing, b.balance);
      waiting = λ n. u ∙ b.waiting λ z. n (s.tasks ∙ z);
      apart = same-IsApart l.world w s b.apart;
    }
Step-Balanced initial l m h b (resumed current n) =
    let k = record l.world { woken = without current l.world.woken } in
    let o = owed-without l.world current l.world.woken n in
    let same : owed k k.woken ≡ owed l.world k.woken = owed-same l.world k k.woken (λ x q. refl) in
    record {
      balance = omega (arith, o, same, b.balance);
      waiting = b.waiting;
      apart = λ x.
          let c = b.apart x in
          let d = occurs-without x current l.world.woken in omega (arith, c, d);
    }
Step-Balanced initial l m h b (signal w e) =
    signal_Balanced initial l w h b l.world.sem.tasks refl
      (subst (Signals l.world) e (sem_signal-Signals l.world))
Step-Balanced initial l m h b (timer now t w e) =
    let (u, k, s) = subst (Expires l.world) e (sem_timeout-Expires now l.world) in
    record {
      balance = let o = s.owing b.apart in omega (arith, u, o, b.balance);
      waiting = λ n. u ∙ b.waiting λ z. n (k z);
      apart = λ x. let c = b.apart x in let d = s.moved x in omega (arith, c, d);
    }

grows : (l m : Ledger) → Step l m → m.signalled ≤ l.signalled + 1
grows l m (got current ticks timeout w e) = omega arith
grows l m (slept current ticks timeout w z e) = omega arith
grows l m (refused current ticks timeout w r e) = omega arith
grows l m (resumed current n) = omega arith
grows l m (signal w e) = omega arith
grows l m (timer now t w e) = omega arith

-- Units are conserved: whatever calls are made, in whatever order, on a semaphore in balance, its units,
-- the calls of sem_wait that have returned 0 and the tasks that have been woken and will return 0 when
-- they run on are the initial units and those signalled; and a task waits only while there are no
-- units. The initial units, those signalled and the number of steps stay below 2 ^ 32. A task that goes
-- to sleep does not wait already, nor has it been woken without having run on.
pub Reach-Balanced :
    (initial : ℕ) (l m : Ledger) (n : ℕ)
    → initial + l.signalled + n < 2 ^ 32
    → Balanced initial l
    → Reach l n m
    → Balanced initial m
Reach-Balanced initial l m n h b r = (all_along r h).0
  where
    all_along :
        {n : ℕ} {m : Ledger}
        → Reach l n m
        → initial + l.signalled + n < 2 ^ 32
        → Balanced initial m × (m.signalled ≤ l.signalled + n)
    all_along here h = (b, omega arith)
    all_along (next {m} r s) h =
        let (bm, small) = all_along r (omega arith) in
        (Step-Balanced initial m _ (omega (arith, small)) bm s, omega (arith, small, grows m _ s))
