-- ===== src/Sem/Owed.antt =====
-- Tasks of kernel/src/sem.c that have been woken, and the units that they were woken with.
use stewieos.Prelude.{
  ℕ, ◌+◌, ◌≤◌, ◌≡◌, refl, ◌≢◌, List, [], ◌∷◌, ◌++◌, arith, ok, err, inl, inr, Bool-cases, ◌==◌, ap,
  ap₂, if◌then◌else◌, Result, Errno, ==_iff, true,
}
use stewieos.Sem.{World, sem_wait_woken}

-- how often a task stands in a list
unfoldable pub occurs : ℕ → List ℕ → ℕ
occurs x [] = 0
occurs x (y ∷ ys) = (if y == x then 1 else 0) + occurs x ys

-- the list without the first place where a task stands
unfoldable pub without : ℕ → List ℕ → List ℕ
without x [] = []
without x (y ∷ ys) = let rest = without x ys in if y == x then ys else y ∷ rest

-- 1 for a success
unfoldable pub grants : Result (Unit {0}) → ℕ
grants (ok u) = 1
grants (err e) = 0

-- the tasks of a list to which sem_wait returns 0 when they run on
unfoldable pub owed : World → List ℕ → ℕ
owed w [] = 0
owed w (t ∷ ts) = grants (sem_wait_woken t w) + owed w ts

pub occurs-append :
    (x : ℕ) (ys : List ℕ) (y : ℕ)
    → occurs x (ys ++ y ∷ []) ≡ occurs x ys + (if y == x then 1 else 0)
unfolding occurs
occurs-append x [] y = omega arith
occurs-append x (z ∷ zs) y = let ih = occurs-append x zs y in omega (arith, ih)

pub occurs-without : (x y : ℕ) (ys : List ℕ) → occurs x (without y ys) ≤ occurs x ys
unfolding occurs without
occurs-without x y [] = omega arith
occurs-without x y (z ∷ zs) =
    let ih = occurs-without x y zs in
    elim (Bool-cases (z == y)) [ inl e ↦ rw e (omega arith) | inr e ↦ rw e (omega (arith, ih)) ]

-- sem_wait_woken looks at t_timeout only.
pub owed-same :
    (w w' : World) (ts : List ℕ)
    → ((x : ℕ) → occurs x ts ≢ 0 → w'.t_timeout x ≡ w.t_timeout x)
    → owed w' ts ≡ owed w ts
unfolding owed sem_wait_woken occurs
owed-same w w' [] h = refl
owed-same w w' (t ∷ ts) h =
    let s : (t == t) ≡ true = ground arith in
    let own : w'.t_timeout t ≡ w.t_timeout t = h t (ground (arith, s)) in
    ap₂ ◌+◌ (ap (λ (k : ℕ). grants (if k == 1 then ok tt else err Errno.etimedout)) own)
      (owed-same w w' ts (λ x n. h x (λ z. n (omega (arith, z)))))

pub owed-without :
    (w : World) (x : ℕ) (ts : List ℕ)
    → occurs x ts ≢ 0
    → owed w (without x ts) + grants (sem_wait_woken x w) ≡ owed w ts
unfolding owed without occurs
owed-without w x [] n = absurd (n refl)
owed-without w x (t ∷ ts) n = elim (Bool-cases (t == x)) [
  | inl e ↦
      let g = ap (λ y. grants (sem_wait_woken y w)) ((==_iff t x).0 e) in rw e (omega (arith, g))
  | inr e ↦ let ih = owed-without w x ts (λ z. n (ground (arith, z, e))) in rw e (omega (arith, ih))
]
