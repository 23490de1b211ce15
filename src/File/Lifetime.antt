-- ===== src/File/Lifetime.antt =====
-- fork and exit (copy_task_vfs and free_task_vfs of kernel/src/fs.c) against the reference counts.
use stewieos.Prelude.{
  ℕ, ◌+◌, ◌^◌, ◌<◌, ◌≤◌, true, Option, none, some, List, [], ◌∷◌, Result, ok, err, length, arith,
  ◌≡◌, refl, Bool-cases, Option-cases, inl, inr, ap, sym, ◌∙◌, zero, suc,
}
use stewieos.File.{
  Store, Descr, no_descr, is_valid, file_close, copy_descr, chain, copy_shared, chain_close,
  release,
}
use stewieos.File.Balance.{
  Counted, add_holder, drop_holder, GetsWell, ClosesWell, file_get-Counted, file_close-Counted,
}
use stewieos.File.Holders.{points, holders, has_file, IsTidy, IsTidyDescr, points-le}
use stewieos.File.Descriptors.{add-points, drop-points, no_file, recount}

cons-IsTidy : (d : Descr) (table : List Descr) → IsTidyDescr d → IsTidy table → IsTidy (d ∷ table)
cons-IsTidy d table h t zero = h
cons-IsTidy d table h t (suc i) = t i

-- A valid descriptor has a file.
the_file : (d : Descr) → IsTidyDescr d → is_valid d ≡ true → (p : ℕ) × (d.file ≡ some p)
the_file d t v = elim (Option-cases d.file) [
  | inl e ↦ absurd (ground (arith, t, v, ap has_file e))
  | inr e ↦ e
]

module _ {D : Type 0} where
  -- The copy of `table` is as long, and adds its own holders to the counts.
  abbrev pub CopiesWell : (ℕ → ℕ) → List Descr → Option (List Descr × Store D) → Type 0
  CopiesWell n table none = ⊥
  CopiesWell n table (some (copy, s)) =
      Counted (λ p. n p + holders table p) s
      × ((p : ℕ) → holders copy p ≡ holders table p)
      × IsTidy copy
      × (length copy ≡ length table)

  copied-CopiesWell :
      (n m : ℕ → ℕ) (d d' : Descr) (table : List Descr) (r : Option (List Descr × Store D))
      → ((p : ℕ) → m p ≡ n p + points d.file p)
      → IsTidyDescr d'
      → ((p : ℕ) → points d'.file p ≡ points d.file p)
      → CopiesWell m table r
      → CopiesWell n (d ∷ table) (copy_descr d' r)
  unfolding copy_descr
  copied-CopiesWell n m d d' table none e t h c = c
  copied-CopiesWell n m d d' table (some (copy, s)) e t h c = (
    recount c.0 (λ p. omega (arith, e p)),
    λ p. omega (arith, h p, c.1 p),
    cons-IsTidy d' copy t c.2,
    omega (arith, c.3),
  )

  chained-CopiesWell :
      (n m : ℕ → ℕ) (table : List Descr) (r : Option (Store D))
      (k : Store D → Option (List Descr × Store D))
      → GetsWell m r
      → ((s : Store D) → Counted m s → CopiesWell n table (k s))
      → CopiesWell n table (chain r k)
  chained-CopiesWell n m table none k g h = g
  chained-CopiesWell n m table (some s) k g h = h s g

  pub copy_shared-CopiesWell :
      (table : List Descr) (n : ℕ → ℕ) (s : Store D)
      → Counted n s
      → IsTidy table
      → ((p : ℕ) → holders table p ≤ n p)
      → ((p : ℕ) → n p + length table < 2 ^ 31)
      → CopiesWell n table (copy_shared table s)
  unfolding copy_shared copy_descr
  copy_shared-CopiesWell [] n s c t h room = (recount c (λ p. omega arith), λ p. refl, t, refl)
  copy_shared-CopiesWell (d ∷ table) n s c t h room = elim (Bool-cases (is_valid d)) [
    | inl v ↦
        let (p, e) = the_file d (t 0) v in
        let one : points d.file p ≡ 1 = ap (λ o. points o p) e ∙ ground arith in
        let more : (q : ℕ) → add_holder n p q ≡ n q + points d.file q = λ q. add-points n p q _ e in
        simp (v, e)
          (chained-CopiesWell n (add_holder n p) (d ∷ table) _ _
            (file_get-Counted n s p c (omega (arith, one, h p)) (omega (arith, room p)))
            (λ s' c'.
              copied-CopiesWell n (add_holder n p) d d table _ more (t 0) (λ q. refl)
                (copy_shared-CopiesWell table (add_holder n p) s' c' (λ i. t (suc i))
                  (λ q. omega (arith, more q, h q))
                  (λ q. omega (arith, more q, room q, points-le d.file q)))))
    | inr v ↦
        let z = no_file d.file (sym (t 0) ∙ v) in
        simp v (
          copied-CopiesWell n n d no_descr table _ (λ p. omega (arith, ap (λ o. points o p) z)) refl
            (λ p. sym (ap (λ o. points o p) z))
            (copy_shared-CopiesWell table n s c (λ i. t (suc i))
              (λ p. omega (arith, h p, ap (λ o. points o p) z)) (λ p. omega (arith, room p))))
  ]

  -- Every descriptor of the table is given up: only `others` hold files.
  abbrev pub ReleasesWell : (ℕ → ℕ) → List Descr → Option (List Descr × Store D) → Type 0
  ReleasesWell others table none = ⊥
  ReleasesWell others table (some (left, s)) =
      Counted others s × ((p : ℕ) → holders left p ≡ 0) × (length left ≡ length table)

  left-ReleasesWell :
      (others : ℕ → ℕ) (d d' : Descr) (table : List Descr) (r : Option (List Descr × Store D))
      → d'.file ≡ none
      → ReleasesWell others table r
      → ReleasesWell others (d ∷ table) (copy_descr d' r)
  unfolding copy_descr
  left-ReleasesWell others d d' table none e c = c
  left-ReleasesWell others d d' table (some (left, s)) e c =
      (c.0, λ p. omega (arith, ap (λ o. points o p) e, c.1 p), omega (arith, c.2))

  chained-ReleasesWell :
      (m others : ℕ → ℕ) (table : List Descr) (r : Option (Result (Unit {0}) × Store D))
      (k : Store D → Option (List Descr × Store D))
      → ClosesWell m r
      → ((s : Store D) → Counted m s → ReleasesWell others table (k s))
      → ReleasesWell others table (chain_close r k)
  chained-ReleasesWell m others table none k g h = g
  chained-ReleasesWell m others table (some (ok tt, s)) k g h = h s g
  chained-ReleasesWell m others table (some (err e, s)) k g h = absurd g

  recount-ClosesWell :
      (n m : ℕ → ℕ) (r : Option (Result (Unit {0}) × Store D))
      → ClosesWell n r
      → ((p : ℕ) → n p ≡ m p)
      → ClosesWell m r
  recount-ClosesWell n m none c e = c
  recount-ClosesWell n m (some (ok tt, s)) c e = recount c e
  recount-ClosesWell n m (some (err x, s)) c e = c

  -- What file_close does with the pointer of a descriptor.
  pointer-ClosesWell :
      (n m : ℕ → ℕ) (s : Store D) (o : Option ℕ)
      → Counted n s
      → ((p : ℕ) → n p ≡ points o p + m p)
      → ((p : ℕ) → n p < 2 ^ 31)
      → ClosesWell m (file_close o s)
  unfolding file_close
  pointer-ClosesWell n m s none c e small = recount c (λ p. e p ∙ omega arith)
  pointer-ClosesWell n m s (some p) c e small =
      recount-ClosesWell (drop_holder n p) m _
        (file_close-Counted n s p c (ground (arith, e p)) (small p))
        (λ q.
          let one : 1 ≤ n p = ground (arith, e p) in
          omega (arith, e q, drop-points n p q (some p) refl one))

  pub release-ReleasesWell :
      (table : List Descr) (others : ℕ → ℕ) (s : Store D)
      → Counted (λ p. holders table p + others p) s
      → IsTidy table
      → ((p : ℕ) → holders table p + others p < 2 ^ 31)
      → ReleasesWell others table (release table s)
  unfolding release
  release-ReleasesWell [] others s c t room = (recount c (λ p. omega arith), λ p. refl, refl)
  release-ReleasesWell (d ∷ table) others s c t room =
      let rest : (s' : Store D)
          → Counted (λ p. holders table p + others p) s'
          → ReleasesWell others table (release table s') =
        λ s' c'.
          release-ReleasesWell table others s' c' (λ i. t (suc i)) (λ p. omega (arith, room p)) in
      elim (Bool-cases d.occupied) [
        | inl v ↦ simp v (
            chained-ReleasesWell (λ p. holders table p + others p) others (d ∷ table) _ _
              (pointer-ClosesWell _ _ s d.file c (λ p. omega arith) room)
              (λ s' c'. left-ReleasesWell others d no_descr table _ refl (rest s' c')))
        | inr v ↦
            let z = no_file d.file (ground (arith, t 0, v)) in
            simp v (
              left-ReleasesWell others d d table _ z
                (rest s (recount c (λ p. omega (arith, ap (λ o. points o p) z)))))
      ]
