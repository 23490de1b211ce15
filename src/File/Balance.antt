-- ===== src/File/Balance.antt =====
-- The reference counts of open files of kernel/src/file.c: each file against the number of its holders.
use stewieos.Prelude.{
  ℕ, ◌+◌, ◌-◌, ◌%◌, ◌^◌, ◌<◌, ◌≤◌, Bool, true, false, Option, none, some, List, [], ◌∷◌, ◌++◌,
  Result, ok, err, get_or, zero, suc, ◌&&◌, length, set, ◌==◌, ltb, if◌then◌else◌, arith, ◌≡◌, refl,
  Option-cases, Bool-cases, inl, inr, ap, ◌∙◌, get_or-set, ==_iff, sym, subst, lt_of_some, set-set,
  suc,
}
use stewieos.Access.{Who}
use stewieos.File.{
  Flags, Spot, Kernel, File, Store, FileOps, file_get, file_close, file_open, file_ready,
  file_released, file_create, file_allocate, file_checked, ops_of, get_loaded, close_loaded,
  finish_close, load, Kind,
}

abbrev pub add_holder : (ℕ → ℕ) → ℕ → (ℕ → ℕ)
add_holder n p q = if p == q then n q + 1 else n q

abbrev pub drop_holder : (ℕ → ℕ) → ℕ → (ℕ → ℕ)
drop_holder n p q = if p == q then n q - 1 else n q

pub get_or-end {ℓ} : {A : Type ℓ} (xs : List (Option A)) → get_or xs (length xs) none ≡ none
get_or-end [] = refl
get_or-end (x ∷ xs) = get_or-end xs

pub get_or-grown {ℓ} :
    {A : Type ℓ} (xs : List (Option A)) (q : ℕ) (o : Option A)
    → get_or (xs ++ o ∷ []) q none ≡ (if length xs == q then o else get_or xs q none)
get_or-grown [] zero o = refl
get_or-grown [] (suc q) o = ground arith
get_or-grown (x ∷ xs) zero o = ground arith
get_or-grown (x ∷ xs) (suc q) o = ground (arith, get_or-grown xs q o)

module _ {D : Type 0} where
  -- The driver's close does not fail.
  abbrev pub ClosesOp : Option (D → ℕ → Spot → Result (Unit {0}) × D) → Type 0
  ClosesOp none = Unit
  ClosesOp (some op) = (d : D) (p : ℕ) (path : Spot) → (d' : D) × (op d p path ≡ (ok tt, d'))

  abbrev pub refs_of : Option (File D) → ℕ
  refs_of none = 0
  refs_of (some f) = f.f_refs

  abbrev pub IsSound : Option (File D) → Type 0
  IsSound none = Unit
  IsSound (some f) = (1 ≤ f.f_refs) × ClosesOp f.f_ops.close_op

  -- Every file has as many references as `holders` says, a file without holders is released, and a
  -- file's close does not fail.
  pub record Counted (holders : ℕ → ℕ) (s : Store D) : Type 0 where
    pub count : (p : ℕ) → refs_of (load s p) ≡ holders p
    pub sound : (p : ℕ) → IsSound (load s p)

  live :
      {n : ℕ → ℕ} {s : Store D} (p : ℕ) → Counted n s → 1 ≤ n p → (f : File D) × (load s p ≡ some f)
  live {n} {s} p c h = elim (Option-cases (load s p)) [
    | inl e ↦ absurd (omega (arith, c.count p, ap refs_of e))
    | inr e ↦ e
  ]

  -- A write at an address that was used changes one file.
  written-Counted :
      {n m : ℕ → ℕ} {s s' : Store D} (p : ℕ) (o : Option (File D))
      → s'.files ≡ set s.files p o
      → p < length s.files
      → refs_of o ≡ m p
      → IsSound o
      → ((q : ℕ) → (p == q) ≡ false → m q ≡ n q)
      → Counted n s
      → Counted m s'
  written-Counted {n} {m} {s} {s'} p o e b r i same c =
      let at : (q : ℕ) → load s' q ≡ (if p == q then o else load s q) =
        λ q. ap (λ fs. get_or fs q none) e ∙ get_or-set s.files p q o none b in
      let hit : (q : ℕ) → (p == q) ≡ true → load s' q ≡ o =
        λ q h. at q ∙ ap (λ b. if b then o else load s q) h in
      let miss : (q : ℕ) → (p == q) ≡ false → load s' q ≡ load s q =
        λ q h. at q ∙ ap (λ b. if b then o else load s q) h in
      record {
        count = λ q. elim (Bool-cases (p == q)) [
          | inl h ↦ ap refs_of (hit q h) ∙ (r ∙ ap m ((==_iff p q).0 h))
          | inr h ↦ ap refs_of (miss q h) ∙ (c.count q ∙ sym (same q h))
        ];
        sound = λ q. elim (Bool-cases (p == q)) [
          | inl h ↦ subst IsSound (sym (hit q h)) i
          | inr h ↦ subst IsSound (sym (miss q h)) (c.sound q)
        ];
      }

  abbrev pub GetsWell : (ℕ → ℕ) → Option (Store D) → Type 0
  GetsWell m none = ⊥
  GetsWell m (some s) = Counted m s

  abbrev pub ClosesWell : (ℕ → ℕ) → Option (Result (Unit {0}) × Store D) → Type 0
  ClosesWell m none = ⊥
  ClosesWell m (some (ok tt, s)) = Counted m s
  ClosesWell m (some (err e, s)) = ⊥

  -- file_get on a file with a holder adds one, if their number fits an int.
  pub file_get-Counted :
      (n : ℕ → ℕ) (s : Store D) (p : ℕ)
      → Counted n s
      → 1 ≤ n p
      → n p + 1 < 2 ^ 31
      → GetsWell (add_holder n p) (file_get (some p) s)
  unfolding file_get get_loaded
  file_get-Counted n s p c h small =
      let (f, e) = live p c h in
      let r : f.f_refs ≡ n p = sym (ap refs_of e) ∙ c.count p in
      let v : (f.f_refs + 1) % 2 ^ 32 ≡ add_holder n p p = ground (arith, r) in
      let o : (1 ≤ f.f_refs) × ClosesOp f.f_ops.close_op = subst IsSound e (c.sound p) in
      rw e (
        written-Counted p _ refl (lt_of_some s.files p f e) v (omega (arith, r), o.1)
          (λ q h. ground (arith, h)) c)

  released-Counted :
      {n : ℕ → ℕ} {s : Store D} {refs : ℕ → ℕ} {d : D} (o : Option (File D)) (p : ℕ)
      → n p ≡ 1
      → p < length s.files
      → Counted n s
      → Counted
          (drop_holder n p)
          (record { files = set (set s.files p o) p none; path_refs = refs; driver = d })
  released-Counted {n} {s} {refs} {d} o p one b c =
      written-Counted p none (set-set s.files p o none) b (ground (arith, one)) tt
        (λ q h. ground (arith, h)) c

  -- file_close on a file with a holder takes it away.
  pub file_close-Counted :
      (n : ℕ → ℕ) (s : Store D) (p : ℕ)
      → Counted n s
      → 1 ≤ n p
      → n p < 2 ^ 31
      → ClosesWell (drop_holder n p) (file_close (some p) s)
  unfolding file_close close_loaded finish_close
  file_close-Counted n s p c h small =
      let (f, e) = live p c h in
      let r : f.f_refs ≡ n p = sym (ap refs_of e) ∙ c.count p in
      let o : (1 ≤ f.f_refs) × ClosesOp f.f_ops.close_op = subst IsSound e (c.sound p) in
      let b = lt_of_some s.files p f e in
      let k = (f.f_refs + (2 ^ 32 - 1)) % 2 ^ 32 in
      rw e (elim (Bool-cases (ltb 0 k && ltb k (2 ^ 31))) [
        | inl t ↦ rw t (
            written-Counted p _ refl b (ground (arith, r)) (ground (arith, r), o.1)
              (λ q h. ground (arith, h)) c)
        | inr t ↦
            let last : n p ≡ 1 = ground (arith, r) in
            rw t (elim (Option-cases f.f_ops.close_op) [
              | inl z ↦ rw z (released-Counted _ p last b c)
              | inr (op, z) ↦
                  let (d, fine) = subst ClosesOp z o.1 s.driver p f.f_path in
                  rw (z, fine) (released-Counted _ p last b c)
            ])
      ])

  -- A new address holds `o`.
  grown-Counted :
      {n m : ℕ → ℕ} {s s' : Store D} (o : Option (File D))
      → s'.files ≡ s.files ++ o ∷ []
      → refs_of o ≡ m (length s.files)
      → IsSound o
      → ((q : ℕ) → (length s.files == q) ≡ false → m q ≡ n q)
      → Counted n s
      → Counted m s'
  grown-Counted {n} {m} {s} {s'} o e r i same c =
      let at : (q : ℕ) → load s' q ≡ (if length s.files == q then o else load s q) =
        λ q. ap (λ fs. get_or fs q none) e ∙ get_or-grown s.files q o in
      let hit : (q : ℕ) → (length s.files == q) ≡ true → load s' q ≡ o =
        λ q h. at q ∙ ap (λ b. if b then o else load s q) h in
      let miss : (q : ℕ) → (length s.files == q) ≡ false → load s' q ≡ load s q =
        λ q h. at q ∙ ap (λ b. if b then o else load s q) h in
      record {
        count = λ q. elim (Bool-cases (length s.files == q)) [
          | inl h ↦ ap refs_of (hit q h) ∙ (r ∙ ap m ((==_iff (length s.files) q).0 h))
          | inr h ↦ ap refs_of (miss q h) ∙ (c.count q ∙ sym (same q h))
        ];
        sound = λ q. elim (Bool-cases (length s.files == q)) [
          | inl h ↦ subst IsSound (sym (hit q h)) i
          | inr h ↦ subst IsSound (sym (miss q h)) (c.sound q)
        ];
      }

  -- A change of the store that moves no file.
  pub same-Counted : {n : ℕ → ℕ} {s s' : Store D} → s'.files ≡ s.files → Counted n s → Counted n s'
  same-Counted {n} {s} {s'} e c =
      let at : (q : ℕ) → load s' q ≡ load s q = λ q. ap (λ fs. get_or fs q none) e in
      record {
        count = λ q. ap refs_of (at q) ∙ c.count q;
        sound = λ q. subst IsSound (sym (at q)) (c.sound q);
      }

  abbrev pub AllClose : Option (FileOps D) → Type 0
  AllClose none = Unit
  AllClose (some ops) = ClosesOp ops.close_op

  -- None of the operations that files are opened with has a close that fails.
  pub record ClosesAll (K : Kernel D) : Type 0 where
    pub block_closes : ClosesOp K.block_device_fops.close_op
    pub pipe_closes : ClosesOp K.pipe_operations.close_op
    pub chrdev_closes : (d : D) (n : ℕ) → AllClose (K.get_chrdev_fops d n)
    pub default_closes : (d : D) (path : Spot) → AllClose (K.i_default_fops d path)

  abbrev pub OpensWell : (ℕ → ℕ) → Result ℕ × Store D → Type 0
  OpensWell n (ok p, s) = (n p ≡ 0) × Counted (add_holder n p) s
  OpensWell n (err e, s) = Counted n s

  ops_of-AllClose :
      (K : Kernel D) (kind : Kind) (d : D) (path : Spot)
      → ClosesAll K
      → AllClose (ops_of K kind d path)
  ops_of-AllClose K Kind.directory d path c = c.default_closes d path
  ops_of-AllClose K Kind.regular d path c = c.default_closes d path
  ops_of-AllClose K Kind.char_file d path c = c.chrdev_closes d path.dev_major
  ops_of-AllClose K Kind.block_file d path c = c.block_closes
  ops_of-AllClose K Kind.fifo d path c = c.pipe_closes

  module _ (K : Kernel D) (closes : ClosesAll K) (n : ℕ → ℕ) (s : Store D) (c : Counted n s) where
    fresh : n (length s.files) ≡ 0
    fresh = sym (c.count (length s.files)) ∙ ap refs_of (get_or-end s.files)

    ready-OpensWell :
        (path : Spot) (flags : Flags) (ops : FileOps D) (r : Result (Unit {0}) × D)
        → ClosesOp ops.close_op
        → OpensWell n (file_ready s path flags ops r)
    unfolding file_ready file_released
    ready-OpensWell path flags ops (ok tt, d) cl = (
      fresh,
      grown-Counted _ refl (ground (arith, fresh)) (omega arith, cl) (λ q h. ground (arith, h)) c,
    )
    ready-OpensWell path flags ops (err e, d) cl =
        grown-Counted none refl (sym fresh) tt (λ q h. refl) c

    created-OpensWell :
        (path : Spot) (flags : Flags) (d : D) (o : Option (FileOps D))
        → AllClose o
        → OpensWell n (file_create K s path flags d o)
    unfolding file_create file_released
    created-OpensWell path flags d none cl = grown-Counted none refl (sym fresh) tt (λ q h. refl) c
    created-OpensWell path flags d (some ops) cl = ready-OpensWell path flags ops _ cl

    allocated-OpensWell :
        (path : Spot) (flags : Flags) (m : Bool × D) → OpensWell n (file_allocate K s path flags m)
    unfolding file_allocate
    allocated-OpensWell path flags (true, d) =
        created-OpensWell path flags d (ops_of K path.kind d path)
          (ops_of-AllClose K path.kind d path closes)
    allocated-OpensWell path flags (false, d) = same-Counted refl c

    checked-OpensWell :
        (path : Spot) (flags : Flags) (r : Result (Unit {0}) × D)
        → OpensWell n (file_checked K s path flags r)
    unfolding file_checked
    checked-OpensWell path flags (ok tt, d) = allocated-OpensWell path flags (K.kmalloc d)
    checked-OpensWell path flags (err e, d) = same-Counted refl c

    -- file_open gives a file that nobody held, with one holder, or an error and no new file.
    pub file_open-OpensWell :
        (who : Who) (path : Spot) (flags : Flags) → OpensWell n (file_open K who path flags s)
    unfolding file_open
    file_open-OpensWell who path flags = checked-OpensWell path flags _
