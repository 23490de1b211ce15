-- ===== src/File/Steady.antt =====
-- The invariant of the descriptors of all tasks, step by step (kernel/src/fs.c and kernel/src/file.c).
use stewieos.Prelude.{
  ℕ, ◌+◌, ◌*◌, ◌^◌, ◌<◌, ◌≤◌, Option, none, some, List, [], ◌∷◌, ◌++◌, length, length-append, arith,
  ◌≡◌, refl, ◌∙◌, subst,
}
use stewieos.File.{Kernel, Store, Proc, Descr, copy_task_vfs, free_task_vfs}
use stewieos.File.Balance.{ClosesAll, same-Counted}
use stewieos.File.Holders.{holders, holders-le}
use stewieos.File.Descriptors.{
  Balanced, StaysBalanced, recount, sys_close-Balanced, sys_dup-Balanced, sys_dup2-Balanced,
}
use stewieos.File.Opening.{sys_open-Balanced}
use stewieos.File.Lifetime.{CopiesWell, ReleasesWell, copy_shared-CopiesWell, release-ReleasesWell}
use stewieos.File.Reach.{
  Waiting, Procs, Call, open_call, close_call, dup_call, dup2_call, held, AllFit, as_running, run,
  Step, calls, drives, forks, reaps, switches, Reach, here, next, Steady,
}

-- The counts of a list with an element in the middle.
held-append : (xs ys : List Waiting) (p : ℕ) → held (xs ++ ys) p ≡ held xs p + held ys p
held-append [] ys p = omega arith
held-append (x ∷ xs) ys p = omega (arith, held-append xs ys p)

AllFit-append : (xs ys : List Waiting) → AllFit xs → AllFit ys → AllFit (xs ++ ys)
AllFit-append [] ys f g = g
AllFit-append (x ∷ xs) ys f g = (f.0, f.1, AllFit-append xs ys f.2 g)

AllFit-split : (xs ys : List Waiting) → AllFit (xs ++ ys) → AllFit xs × AllFit ys
AllFit-split [] ys f = (tt, f)
AllFit-split (x ∷ xs) ys f = let (g, h) = AllFit-split xs ys f.2 in ((f.0, f.1, g), h)

-- A task has at most as many pointers as descriptors.
held-le : (vs : List Waiting) (p : ℕ) → AllFit vs → held vs p ≤ length vs * 1024
held-le [] p f = omega arith
held-le (v ∷ vs) p f = omega (arith, held-le vs p f.2, holders-le v.v_openvect p, f.1)

-- No use of a released file.
abbrev pub IsSafe : {A : Type 0} → Option A → Type 0
IsSafe none = ⊥
IsSafe (some a) = Unit

module _ {D : Type 0} where
  Steady-Balanced : (s : Procs D) → Steady s → Balanced (held s.waiting) s.running
  Steady-Balanced s h = record {
    counted = h.counted;
    tidy = h.tidy;
    full = h.full;
    room = λ p. omega (arith, held-le s.waiting p h.fits, h.full, h.few);
  }

  Balanced-Steady :
      (w : Proc D) (vs : List Waiting)
      → AllFit vs
      → length vs + 1 < 2 ^ 20
      → Balanced (held vs) w
      → Steady (record { running = w; waiting = vs })
  Balanced-Steady w vs f few b = record {
    counted = b.counted;
    tidy = b.tidy;
    full = b.full;
    fits = f;
    few = few;
  }

  module _ (K : Kernel D) (closes : ClosesAll K) where
    -- No call uses a released file.
    pub run-StaysBalanced :
        (c : Call) (others : ℕ → ℕ) (w : Proc D)
        → Balanced others w
        → StaysBalanced others (run K c w)
    run-StaysBalanced (open_call name flags mode) others w b =
        sys_open-Balanced K closes others w b name flags mode
    run-StaysBalanced (close_call fd) others w b = sys_close-Balanced others w b fd
    run-StaysBalanced (dup_call fd) others w b = sys_dup-Balanced others w b fd
    run-StaysBalanced (dup2_call fd other) others w b = sys_dup2-Balanced others w b fd other

    copies-CopiesWell :
        (others : ℕ → ℕ) (w : Proc D)
        → Balanced others w
        → CopiesWell (λ p. others p + holders w.table p) w.table (copy_task_vfs w)
    unfolding copy_task_vfs
    copies-CopiesWell others w b =
        copy_shared-CopiesWell w.table _ _ (same-Counted refl b.counted) b.tidy (λ p. omega arith)
          (λ p. omega (arith, b.room p, holders-le w.table p))

    reaps-ReleasesWell :
        (w : Proc D) (v : Waiting) (vs : List Waiting)
        → Steady (record { running = w; waiting = v ∷ vs })
        → ReleasesWell
            (λ p. held vs p + holders w.table p)
            v.v_openvect
            (free_task_vfs (as_running v w.store))
    unfolding free_task_vfs
    reaps-ReleasesWell w v vs h =
        release-ReleasesWell v.v_openvect _ _
          (recount (same-Counted {s = w.store} refl h.counted) (λ p. omega arith)) h.fits.0
          (λ p. omega (arith, held-le (v ∷ vs) p h.fits, holders-le w.table p, h.full, h.few))

    Step-Steady : {s s' : Procs D} → Step K s s' → Steady s → Steady s'
    Step-Steady (calls c w w' r vs e) h =
        Balanced-Steady w' vs h.fits h.few (
          subst (StaysBalanced (held vs)) e (run-StaysBalanced c (held vs) w (Steady-Balanced _ h)))
    Step-Steady (drives w d vs) h = record {
      counted = same-Counted refl h.counted;
      tidy = h.tidy;
      full = h.full;
      fits = h.fits;
      few = h.few;
    }
    Step-Steady (forks w copy s vs e few) h =
        let b = Steady-Balanced _ h in
        let c = subst (CopiesWell _ w.table) e (copies-CopiesWell (held vs) w b) in
        record {
          counted = recount c.0 (λ p. omega (arith, c.1 p));
          tidy = h.tidy;
          full = h.full;
          fits = (c.2, c.3 ∙ h.full, h.fits);
          few = omega (arith, few);
        }
    Step-Steady (reaps w v left s vs e) h =
        let r =
          subst (ReleasesWell (λ p. held vs p + holders w.table p) v.v_openvect) e
            (reaps-ReleasesWell w v vs h) in
        record {
          counted = r.0;
          tidy = h.tidy;
          full = h.full;
          fits = h.fits.2;
          few = omega (arith, h.few);
        }
    Step-Steady (switches w v before after) h =
        let (f, g) = AllFit-split before (v ∷ after) h.fits in
        record {
          counted =
              recount (same-Counted {s = w.store} {s' = w.store} refl h.counted)
                (λ p. omega (arith, held-append before (v ∷ after) p, held-append before after p));
          tidy = g.0;
          full = g.1;
          fits = (h.tidy, h.full, AllFit-append before after f g.2);
          few = omega (arith, h.few, length-append before (v ∷ after), length-append before after);
        }

    -- From a state where each file has as many references as descriptors of all tasks point at it, every
    -- state that is reached is so too, if no close of a driver fails.
    pub Reach-Steady : {s s' : Procs D} → Steady s → Reach K s s' → Steady s'
    Reach-Steady h here = h
    Reach-Steady h (next r t) = Step-Steady t (Reach-Steady h r)

  balanced-IsSafe :
      {A : Type 0} (others : ℕ → ℕ) (o : Option (A × Proc D)) → StaysBalanced others o → IsSafe o
  balanced-IsSafe others none b = b
  balanced-IsSafe others (some (a, w)) b = tt

  copies-IsSafe :
      (n : ℕ → ℕ) (table : List Descr) (o : Option (List Descr × Store D))
      → CopiesWell n table o
      → IsSafe o
  copies-IsSafe n table none c = c
  copies-IsSafe n table (some (copy, s)) c = tt

  releases-IsSafe :
      (n : ℕ → ℕ) (table : List Descr) (o : Option (List Descr × Store D))
      → ReleasesWell n table o
      → IsSafe o
  releases-IsSafe n table none c = c
  releases-IsSafe n table (some (left, s)) c = tt

  -- From a state where each file has as many references as descriptors of all tasks point at it, and if
  -- no close of a driver fails: in every state that is reached, no call, no fork and no clean-up of a
  -- task that ended uses a file that was released.
  pub Reach-IsSafe :
      (K : Kernel D)
      → ClosesAll K
      → (start s : Procs D) → Steady start
      → Reach K start s
      → ((c : Call) → IsSafe (run K c s.running))
        × IsSafe (copy_task_vfs s.running)
        × ((v : Waiting) (vs : List Waiting)
            → s.waiting ≡ v ∷ vs
            → IsSafe (free_task_vfs (as_running v s.running.store)))
  Reach-IsSafe K closes start s h r =
      let t = Reach-Steady K closes h r in
      let b = Steady-Balanced s t in
      (
        λ c.
            balanced-IsSafe (held s.waiting) _
              (run-StaysBalanced K closes c (held s.waiting) s.running b),
        copies-IsSafe _ _ _ (copies-CopiesWell K closes (held s.waiting) s.running b),
        λ v vs e. releases-IsSafe _ _ _ (
            reaps-ReleasesWell K closes s.running v vs
              (subst (λ x. Steady (record { running = s.running; waiting = x })) e t)),
      )
