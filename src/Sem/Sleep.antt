-- ===== src/Sem/Sleep.antt =====
-- A task's wait on a semaphore of kernel/src/sem.c across its sleep, and where waiting goes wrong.
use stewieos.Prelude.{
  ℕ, ◌+◌, ◌-◌, ◌%◌, ◌^◌, ◌≤◌, ◌<◌, ◌≡◌, refl, ◌≢◌, true, false, List, [], ◌∷◌, ◌++◌, arith, none,
  Errno, ok, err, ◌==◌, Bool-cases, if◌then◌else◌, inl, inr, ltb, ap, subst, ◌∙◌,
}
use stewieos.Sem.{
  World, Outcome, sem_free, sem_wait, sem_wait_woken, sem_signal, sem_timeout, forever, assign,
  hand_over,
}

-- A task that waits: what its sem_wait did.
abbrev pub IsQueued : (current ticks timeout : ℕ) → World → Outcome → Type 0
IsQueued current ticks timeout w (Outcome.returned r w') = ⊥
IsQueued current ticks timeout w (Outcome.asleep w') =
    (w'.sem.tasks ≡ w.sem.tasks ++ current ∷ [])
    × (w'.sem.units ≡ 0)
    × (w'.sem.locked ≡ false)
    × (w'.t_timeout ≡ assign w.t_timeout current ((ticks + timeout) % 2 ^ 32))
    × (w'.sem.earliest_timeout ≤ (ticks + timeout) % 2 ^ 32)
    × (w.sem.earliest_timeout ≤ (ticks + timeout) % 2 ^ 32 → w'.timers ≡ w.timers)
IsQueued current ticks timeout w Outcome.spins = ⊥

-- On an unlocked semaphore without a unit, and with a timeout other than 0, sem_wait puts its task at
-- the end of the queue, leaves the lock free and sleeps with its deadline in `t_timeout`. Afterwards
-- `earliest_timeout` is at most the deadline, and if it was so before no callback is asked for.
pub sem_wait-IsQueued :
    (current ticks timeout : ℕ) (w : World)
    → w.sem.locked ≡ false
    → w.sem.units ≡ 0
    → timeout ≢ 0
    → IsQueued current ticks timeout w (sem_wait current ticks timeout w)
unfolding sem_wait
sem_wait-IsQueued current ticks timeout w l u n =
    let t : (timeout == 0) ≡ false = ground arith in
    let z : (w.sem.units == 0) ≡ true = ground arith in
    elim (Bool-cases (ltb ((ticks + timeout) % 2 ^ 32) w.sem.earliest_timeout)) [
      | inl d ↦
          simp (l, z, t, d)
            (refl, ground arith, refl, refl, omega arith, λ h. absurd (ground arith))
      | inr d ↦ simp (l, z, t, d) (refl, ground arith, refl, refl, ground arith, λ h. refl)
    ]

-- sem_signal on an unlocked semaphore with waiting tasks hands its unit to the first one, whose
-- sem_wait then succeeds: the task is woken and leaves the queue, and the answer of every other
-- task's sem_wait is as it was, as are the units.
pub sem_signal-wakes :
    (w : World) (task : ℕ) (tasks : List ℕ)
    → w.sem.locked ≡ false
    → w.sem.tasks ≡ task ∷ tasks
    → (w' : World) × (sem_signal w ≡ Outcome.returned (ok tt) w')
      × (w'.sem ≡ record w.sem { tasks = tasks })
      × (w'.woken ≡ task ∷ w.woken)
      × (sem_wait_woken task w' ≡ ok tt)
      × ((t : ℕ) → t ≢ task → sem_wait_woken t w' ≡ sem_wait_woken t w)
unfolding sem_signal hand_over sem_wait_woken
sem_signal-wakes w task tasks l e = (
  hand_over (task ∷ tasks) w,
  ap (λ b. if b then Outcome.spins else Outcome.returned (ok tt) (hand_over w.sem.tasks w)) l
      ∙ ap (λ ts. Outcome.returned (ok tt) (hand_over ts w)) e,
  refl,
  refl,
  ground arith,
  λ t n. ground arith,
)

-- sem_wait with a timeout of 0 on an unlocked semaphore without units returns -ETIMEDOUT and leaves
-- the lock held: every later call on the semaphore spins for ever.
pub sem_wait-leaks :
    (current ticks : ℕ) (w : World)
    → w.sem.locked ≡ false
    → w.sem.units ≡ 0
    → (w' : World) × (sem_wait current ticks 0 w ≡ Outcome.returned (err Errno.etimedout) w')
      × (sem_signal w' ≡ Outcome.spins)
      × (sem_free w' ≡ Outcome.spins)
      × ((now : ℕ) → sem_timeout now w' ≡ none)
      × ((task t timeout : ℕ) → sem_wait task t timeout w' ≡ Outcome.spins)
unfolding sem_wait sem_signal sem_free sem_timeout
sem_wait-leaks current ticks w l u =
    let z : (w.sem.units == 0) ≡ true = ground arith in
    (
      record w { sem = record w.sem { locked = true } },
      simp (l, z) refl,
      refl,
      refl,
      λ now. refl,
      λ task t timeout. refl,
    )

abbrev pub HasDeadline : (task deadline : ℕ) → Outcome → Type 0
HasDeadline task deadline (Outcome.returned r w) = ⊥
HasDeadline task deadline (Outcome.asleep w) = w.t_timeout task ≡ deadline
HasDeadline task deadline Outcome.spins = ⊥

queued-HasDeadline :
    (current ticks timeout : ℕ) (w : World) (o : Outcome)
    → IsQueued current ticks timeout w o
    → HasDeadline current ((ticks + timeout) % 2 ^ 32) o
queued-HasDeadline current ticks timeout w (Outcome.returned r w') q = q
queued-HasDeadline current ticks timeout w (Outcome.asleep w') q =
    ap (λ f. f current) q.3 ∙ ground arith
queued-HasDeadline current ticks timeout w Outcome.spins q = q

-- A wait for ever (SEM_FOREVER) on an unlocked semaphore without units, at any tick other than 0,
-- sleeps with a deadline that is past already: the tick before the present one.
pub sem_wait-HasDeadline :
    (current ticks : ℕ) (w : World)
    → w.sem.locked ≡ false
    → w.sem.units ≡ 0
    → ticks ≢ 0
    → ticks < 2 ^ 32
    → HasDeadline current (ticks - 1) (sem_wait current ticks forever w)
sem_wait-HasDeadline current ticks w l u n small =
    let past : (ticks + forever) % 2 ^ 32 ≡ ticks - 1 = omega arith in
    subst (λ d. HasDeadline current d (sem_wait current ticks forever w)) past
      (queued-HasDeadline current ticks forever w _
        (sem_wait-IsQueued current ticks forever w l u (omega arith)))
