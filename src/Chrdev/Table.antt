-- ===== src/Chrdev/Table.antt =====
-- kernel/src/chrdev.c against a map from the numbers below 256 to operations.
use stewieos.Prelude.{
  ℕ, ◌<◌, ◌≡◌, refl, ◌∙◌, ap, sym, Bool, true, false, Option, none, some, List, arith, ◌==◌, leb,
  if◌then◌else◌, length, set, get_or-set, set-set, set-get_or, Errno, Result, ok, err, inl, inr,
  Bool-cases, Option-cases, length-set, ◌||◌, take, subst,
}
use stewieos.Chrdev.{
  Chrdev, entry, in_use, fops_of, register_chrdev, unregister_chrdev, get_chrdev_fops,
}

module _ {F : Type 0} (t : List (Option (Chrdev F))) where
  -- The operations found under every number are those of `t`, but for one number.
  abbrev pub Differs : (major : ℕ) (now : Option F) → List (Option (Chrdev F)) → Type 0
  Differs major now t' =
      (length t' ≡ 256)
      × ((m : ℕ) → get_chrdev_fops m t' ≡ (if major == m then now else get_chrdev_fops m t))

  -- What a registration leads to.
  abbrev pub Registers :
      (got : Bool) (major : ℕ) (fops : F) → Result (Unit {0}) × List (Option (Chrdev F)) → Type 0
  Registers got major fops (ok u, t') =
      (major < 256) × (get_chrdev_fops major t ≡ none) × (got ≡ true) × Differs major (some fops) t'
  Registers got major fops (err e, t') =
      (t' ≡ t)
      × (if leb 256 major || in_use (entry t major)
          then e ≡ Errno.eexist
          else (e ≡ Errno.enomem) × (got ≡ false))

module _ {F : Type 0} (t : List (Option (Chrdev F))) (n : length t ≡ 256) where
  set-Differs :
      (major : ℕ) (o : Option (Chrdev F))
      → major < 256
      → Differs t major (fops_of o) (set t major o)
  unfolding get_chrdev_fops
  set-Differs major o h = (
    omega (arith, length-set t major o, n),
    λ m.
        let g = get_or-set t major m o none (omega arith) in
        elim (Bool-cases (major == m)) [
          | inl e ↦
              let small : leb 256 m ≡ false = ground arith in
              rw e (simp small (ap fops_of (g ∙ simp e refl)))
          | inr e ↦ rw e (ap (λ p. if leb 256 m then none else fops_of p) (g ∙ simp e refl))
        ],
  )

  -- register_chrdev on a table of 256 entries succeeds only for a number below 256 under which nothing
  -- is found, and with memory: then the operations given are found under that number, and under every
  -- other number what was found before. Otherwise the table is as it was, and the answer is -EEXIST
  -- for a number from 256 on or in use, and else -ENOMEM for lack of memory.
  pub register_chrdev-Registers :
      (got : Bool) (major : ℕ) (name : List ℕ) (fops : F)
      → Registers t got major fops (register_chrdev got major name fops t)
  unfolding register_chrdev get_chrdev_fops
  register_chrdev-Registers got major name fops = elim (Bool-cases (leb 256 major)) [
    | inl out ↦ simp out (refl, refl)
    | inr less ↦ elim (Option-cases (entry t major)) [
      | inr (d, used) ↦ simp (less, used) (refl, refl)
      | inl free ↦ elim (Bool-cases got) [
        | inr out ↦ simp (less, free, out) (refl, (refl, refl))
        | inl mem ↦
            simp (less, free, mem)
              (
                ground arith,
                refl,
                refl,
                set-Differs major (some (record { name = take 63 name; fops = fops }))
                    (ground arith),
              )
      ]
    ]
  ]

  none_found : (major : ℕ) → entry t major ≡ none → get_chrdev_fops major t ≡ none
  unfolding get_chrdev_fops
  none_found major free = elim (Bool-cases (leb 256 major)) [
    | inl e ↦ rw e refl
    | inr e ↦ simp (e, free) refl
  ]

  -- unregister_chrdev on a table of 256 entries refuses a number from 256 on and changes nothing;
  -- below, it succeeds: nothing is found under that number afterwards, and under every other number
  -- what was found before.
  pub unregister_chrdev-Differs :
      (major : ℕ)
      → let (r, t') = unregister_chrdev major t in
        if leb 256 major
        then (r ≡ err Errno.eexist) × (t' ≡ t)
        else (r ≡ ok tt) × Differs t major none t'
  unfolding unregister_chrdev
  unregister_chrdev-Differs major = elim (Bool-cases (leb 256 major)) [
    | inl out ↦ simp out (refl, refl)
    | inr less ↦ elim (Option-cases (entry t major)) [
      | inr (d, used) ↦ simp (less, used) (refl, set-Differs major none (ground arith))
      | inl free ↦
          simp (less, free)
            (
              refl,
              (
                n,
                λ m. elim (Bool-cases (major == m)) [
                  | inr e ↦ rw e refl
                  | inl e ↦
                      let same : major ≡ m = ground arith in
                      rw e (subst (λ k. get_chrdev_fops k t ≡ none) same (none_found major free))
                ],
              ),
            )
    ]
  ]

  -- On a table of 256 entries of which the one asked for is below 256 and free, unregister_chrdev
  -- right after register_chrdev gives back the table, entry for entry.
  pub unregister_chrdev-register_chrdev :
      (major : ℕ) (name : List ℕ) (fops : F)
      → major < 256
      → get_chrdev_fops major t ≡ none
      → let (r, t') = register_chrdev true major name fops t in
        (r ≡ ok tt) × (unregister_chrdev major t' ≡ (ok tt, t))
  unfolding register_chrdev unregister_chrdev get_chrdev_fops
  unregister_chrdev-register_chrdev major name fops h none_there =
      let less : leb 256 major ≡ false = ground arith in
      elim (Option-cases (entry t major)) [
        | inr (d, used) ↦ absurd (ground arith)
        | inl free ↦
            let dev : Chrdev F = record { name = take 63 name; fops = fops } in
            let there : entry (set t major (some dev)) major ≡ some dev =
              get_or-set t major major (some dev) none (omega arith) ∙ ground arith in
            let back : set (set t major (some dev)) major none ≡ t =
              set-set t major (some dev) none
              ∙ ap (set t major) (sym free)
              ∙ set-get_or t major none (omega arith) in
            simp (less, free) (refl, simp there (ap (λ u. (ok tt, u)) back))
      ]
