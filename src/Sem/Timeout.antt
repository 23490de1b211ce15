-- ===== src/Sem/Timeout.antt =====
-- sem_timeout of kernel/src/sem.c: which tasks it wakes, and when it is to be called again.
use stewieos.Prelude.{
  ℕ, ◌≤◌, ◌<◌, ◌≡◌, refl, Bool, true, false, ◌&&◌, ◌||◌, List, [], ◌∷◌, arith, none, some, Option,
  Errno, err, inl, inr, ◌⊎◌, Bool-cases, ◌==◌, if◌then◌else◌, leb, ltb, ◌∙◌, ap, sym,
}
use stewieos.Sem.{World, scan, sem_timeout, sem_wait_woken, assign, forever}

pub elem : ℕ → List ℕ → Bool
elem t [] = false
elem t (s ∷ ts) = (s == t) || elem t ts

-- the tasks whose tick is still to come
pub later : (now : ℕ) (t_timeout : ℕ → ℕ) → List ℕ → List ℕ
later now f [] = []
later now f (t ∷ ts) = if leb (f t) now then later now f ts else t ∷ later now f ts

-- Whether a task of the list is timed out.
abbrev pub expires : (now : ℕ) (t_timeout : ℕ → ℕ) → List ℕ → ℕ → Bool
expires now f ts t = elem t ts && leb (f t) now

record Scanned (now earliest : ℕ) (ts : List ℕ) (w : World) (e : ℕ) (kept : List ℕ) (w' : World)
    : Type 0 where
  kept_later : kept ≡ later now w.t_timeout ts
  cleared : (t : ℕ) → w'.t_timeout t ≡ (if expires now w.t_timeout ts t then 0 else w.t_timeout t)
  woken : (t : ℕ) → elem t w'.woken ≡ expires now w.t_timeout ts t || elem t w.woken
  below : e ≤ earliest
  lower : (t : ℕ) → elem t ts ≡ true → now < w.t_timeout t → e ≤ w.t_timeout t
  attained :
      (e ≡ earliest) ⊎ ((t : ℕ) × (elem t ts ≡ true) × (now < w.t_timeout t) × (e ≡ w.t_timeout t))

later-assign :
    (now : ℕ) (f : ℕ → ℕ) (task : ℕ) (ts : List ℕ)
    → leb (f task) now ≡ true
    → later now (assign f task 0) ts ≡ later now f ts
unfolding later
later-assign now f task [] h = refl
later-assign now f task (t ∷ ts) h = let ih = later-assign now f task ts h in ground arith

module _ (now : ℕ) (f : ℕ → ℕ) (t : ℕ) (ts : List ℕ) where
  later_gone : leb (f t) now ≡ true → later now f (t ∷ ts) ≡ later now f ts
  unfolding later
  later_gone h = rw h

  later_here : leb (f t) now ≡ false → later now f (t ∷ ts) ≡ t ∷ later now f ts
  unfolding later
  later_here h = rw h

scan-Scanned :
    (now : ℕ) (ts : List ℕ) (earliest : ℕ) (w : World)
    → let (e, kept, w') = scan now earliest ts w in Scanned now earliest ts w e kept w'
unfolding scan elem later
scan-Scanned now [] earliest w = record {
  kept_later = refl;
  cleared = λ t. refl;
  woken = λ t. refl;
  below = omega arith;
  lower = λ t h. cc;
  attained = inl refl;
}
scan-Scanned now (t ∷ ts) earliest w = elim (Bool-cases (leb (w.t_timeout t) now)) [
  | inl x ↦
      let w1 : World = record w { t_timeout = assign w.t_timeout t 0; woken = t ∷ w.woken } in
      let r = scan-Scanned now ts earliest w1 in
      simp x (record {
        kept_later =
            r.kept_later
            ∙ later-assign now w.t_timeout t ts x
            ∙ sym (later_gone now w.t_timeout t ts x);
        cleared = λ s. ground (arith, r.cleared s);
        woken = λ s. ground (arith, r.woken s);
        below = r.below;
        lower = λ s m h. ground (arith, r.lower s);
        attained = elim r.attained [
          | inl e ↦ inl e
          | inr (s, m, h, e) ↦ inr (s, ground arith, ground arith, ground arith)
        ];
      })
  | inr x ↦ elim (Bool-cases (ltb (w.t_timeout t) earliest)) [
    | inl y ↦
        let r = scan-Scanned now ts (w.t_timeout t) w in
        simp (x, y)
          (record {
            kept_later = ap (◌∷◌ t) r.kept_later ∙ sym (later_here now w.t_timeout t ts x);
            cleared = λ s. ground (arith, r.cleared s);
            woken = λ s. ground (arith, r.woken s);
            below = ground (arith, r.below);
            lower = λ s m h. ground (arith, r.lower s, r.below);
            attained = inr (elim r.attained [
              | inl e ↦ (t, ground arith, ground arith, e)
              | inr (s, m, h, e) ↦ (s, ground arith, h, e)
            ]);
          })
    | inr y ↦
        let r = scan-Scanned now ts earliest w in
        simp (x, y)
          (record {
            kept_later = ap (◌∷◌ t) r.kept_later ∙ sym (later_here now w.t_timeout t ts x);
            cleared = λ s. ground (arith, r.cleared s);
            woken = λ s. ground (arith, r.woken s);
            below = r.below;
            lower = λ s m h. ground (arith, r.lower s, r.below);
            attained = elim r.attained [
              | inl e ↦ inl e
              | inr (s, m, h, e) ↦ inr (s, ground arith, h, e)
            ];
          })
  ]
]

-- The tick of the next call.
abbrev pub NextCall : (now : ℕ) → World → Option ℕ → Type 0
NextCall now w none =
    (t : ℕ) → elem t w.sem.tasks ≡ true → now < w.t_timeout t → forever ≤ w.t_timeout t
NextCall now w (some e) =
    ((t : ℕ) → elem t w.sem.tasks ≡ true → now < w.t_timeout t → e ≤ w.t_timeout t)
    × (t : ℕ) × (elem t w.sem.tasks ≡ true)
    × (now < w.t_timeout t)
    × (e ≡ w.t_timeout t)

-- After a sem_timeout at tick `now` on a semaphore that nobody has locked: it keeps the waiting tasks
-- whose tick is still to come, in their order, and its units; every other waiting task is woken, and
-- its sem_wait answers -ETIMEDOUT; no other task's `t_timeout` changes.
abbrev pub TimedOut : (now : ℕ) → World → Option (Option ℕ × World) → Type 0
TimedOut now w none = ⊥
TimedOut now w (some (next, w')) =
    (w'.sem ≡ record w.sem { tasks = later now w.t_timeout w.sem.tasks })
    × ((t : ℕ)
        → expires now w.t_timeout w.sem.tasks t ≡ true
        → (elem t w'.woken ≡ true) × (sem_wait_woken t w' ≡ err Errno.etimedout))
    × ((t : ℕ)
        → expires now w.t_timeout w.sem.tasks t ≡ false
        → (w'.t_timeout t ≡ w.t_timeout t) × (elem t w'.woken ≡ elem t w.woken))
    × NextCall now w next

next_call :
    (now : ℕ) (w : World) (e : ℕ) (kept : List ℕ) (w' : World)
    → Scanned now forever w.sem.tasks w e kept w'
    → NextCall now w (if e == forever then none else some e)
next_call now w e kept w' r = elim (Bool-cases (e == forever)) [
  | inl z ↦ rw z (λ t m h. ground (arith, r.lower t m h))
  | inr z ↦
      rw z (elim r.attained [
        | inl y ↦ absurd (ground arith)
        | inr (t, m, h, y) ↦ (r.lower, t, m, h, y)
      ])
]

-- sem_timeout at tick `now` on a semaphore whose lock is free keeps its units and the waiting tasks
-- whose tick is still to come, in their order. Every other waiting task is woken and gets
-- -ETIMEDOUT; no other task is woken, nor its `t_timeout` changed. The tick of the next call is the
-- least of the ticks that are still to come, below 2 ^ 32 - 1, and without one the timer is
-- cancelled.
pub sem_timeout-TimedOut :
    (now : ℕ) (w : World) → w.sem.locked ≡ false → TimedOut now w (sem_timeout now w)
unfolding sem_timeout sem_wait_woken
sem_timeout-TimedOut now w l =
    let r = scan-Scanned now w.sem.tasks forever w in
    simp l (
      ap (λ ts. record w.sem { locked = false; tasks = ts }) r.kept_later,
      λ t h. (ground (arith, r.woken t), ground (arith, r.cleared t)),
      λ t h. (ground (arith, r.cleared t), ground (arith, r.woken t)),
      next_call now w _ _ _ r,
    )
