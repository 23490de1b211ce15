-- ===== src/File/Descriptors.antt =====
-- The calls on descriptors of kernel/src/fs.c against the reference counts of the files: one task's
-- table, and the holders that other tables are.
use stewieos.Prelude.{
  ℕ, ◌+◌, ◌*◌, ◌-◌, ◌^◌, ◌<◌, ◌≤◌, Bool, true, false, Option, none, some, List, Result, ok, err,
  get_or, not, length, set, ◌==◌, if◌then◌else◌, arith, ◌≡◌, refl, Bool-cases, inl, inr, ap, sym,
  ◌∙◌, subst, length-set, ==_iff, leb, get_or-set, leb_false→lt,
}
use stewieos.File.{
  task_max_open_files, Store, Proc, Descr, no_descr, is_valid, fd_valid, file_of, file_get,
  sys_close, finish_sys_close, share_at, sys_dup, dup_to, sys_dup2, dup2_to, dup2_closed,
  dup2_share, dup2_target, or_emfile,
}
use stewieos.File.Balance.{
  Counted, add_holder, drop_holder, GetsWell, ClosesWell, file_get-Counted, file_close-Counted,
}
use stewieos.File.Holders.{
  points, holders, has_file, IsTidy, IsTidyDescr, holders-le, holders-set, holders-one, set-IsTidy,
  valid-has, IsFound, find_fd-IsFound,
}

-- One pointer less and one more, for the counts of all files.
pub drop-points :
    (n : ℕ → ℕ) (p q : ℕ) (o : Option ℕ)
    → o ≡ some p
    → 1 ≤ n p
    → drop_holder n p q + points o q ≡ n q
drop-points n p q o e h =
    let v : points o q ≡ (if p == q then 1 else 0) = ap (λ x. points x q) e in
    elim (Bool-cases (p == q)) [
      | inl t ↦ let one = subst (λ x. 1 ≤ n x) ((==_iff p q).0 t) h in ground (arith, v, t, one)
      | inr t ↦ ground (arith, v, t)
    ]

pub add-points :
    (n : ℕ → ℕ) (p q : ℕ) (o : Option ℕ) → o ≡ some p → add_holder n p q ≡ n q + points o q
add-points n p q o e =
    let v : points o q ≡ (if p == q then 1 else 0) = ap (λ x. points x q) e in ground (arith, v)

pub no_file : (o : Option ℕ) → has_file o ≡ false → o ≡ none
no_file none h = refl
no_file (some p) h = absurd (ground (arith, h))

-- What dup2 aims at is in range.
abbrev InRange : List Descr → Result ℕ → Type 0
InRange table (ok n) = n < length table
InRange table (err e) = Unit

or_emfile-InRange :
    (test : Descr → Bool) (table : List Descr) (o : Option ℕ)
    → IsFound test table o
    → InRange table (or_emfile o)
or_emfile-InRange test table none f = tt
or_emfile-InRange test table (some i) f = f.0

dup2_target-InRange : (table : List Descr) (other : ℕ) → InRange table (dup2_target table other)
dup2_target-InRange table other = elim (Bool-cases (other == 2 ^ 32 - 1)) [
  | inl t ↦ rw t (
      or_emfile-InRange (λ d. not (is_valid d)) table _
        (find_fd-IsFound (λ d. not (is_valid d)) table))
  | inr t ↦ elim (Bool-cases (leb (length table) other)) [
    | inl u ↦ rw (t, u) tt
    | inr u ↦ rw (t, u) (leb_false→lt (length table) other u)
  ]
]

module _ {D : Type 0} where
  -- Every file has as many references as descriptors, of this table or counted by `others`, point at
  -- it; the valid descriptors are those that point at a file; the table has its size; and there
  -- are few enough descriptors for an int to count them twice.
  pub record Balanced (others : ℕ → ℕ) (w : Proc D) : Type 0 where
    pub counted : Counted (λ p. others p + holders w.table p) w.store
    pub tidy : IsTidy w.table
    pub full : length w.table ≡ task_max_open_files
    pub room : (p : ℕ) → others p + 2 * length w.table < 2 ^ 31

  pub recount : {n m : ℕ → ℕ} {s : Store D} → Counted n s → ((p : ℕ) → n p ≡ m p) → Counted m s
  recount c e = record { count = λ p. c.count p ∙ e p; sound = c.sound }

  -- A call that comes back, in a balanced state.
  abbrev pub StaysBalanced : {A : Type 0} → (ℕ → ℕ) → Option (A × Proc D) → Type 0
  StaysBalanced others none = ⊥
  StaysBalanced others (some (r, w)) = Balanced others w

  -- After a close that succeeds the descriptor is free.
  abbrev pub ClosesAt : (ℕ → ℕ) → Proc D → ℕ → Option (Result ℕ × Proc D) → Type 0
  ClosesAt others w fd none = ⊥
  ClosesAt others w fd (some (ok n, w')) = Balanced others w' × (w'.table ≡ set w.table fd no_descr)
  ClosesAt others w fd (some (err e, w')) = Balanced others w'

  forget :
      (others : ℕ → ℕ) (w : Proc D) (fd : ℕ) (r : Option (Result ℕ × Proc D))
      → ClosesAt others w fd r
      → StaysBalanced others r
  forget others w fd none c = c
  forget others w fd (some (ok n, w')) c = c.0
  forget others w fd (some (err e, w')) c = c

  module _ (others : ℕ → ℕ) (w : Proc D) (b : Balanced others w) where
    -- A write at one descriptor, with a store that counts the holders of the new table.
    pub put-Balanced :
        (n : ℕ → ℕ) (fd : ℕ) (d : Descr) (s : Store D)
        → fd < length w.table
        → IsTidyDescr d
        → Counted n s
        → ((p : ℕ)
            → n p + points (get_or w.table fd no_descr).file p
              ≡ others p + holders w.table p + points d.file p)
        → Balanced others (record w { store = s; table = set w.table fd d })
    put-Balanced n fd d s h t c e = record {
      counted = recount c (λ p. omega (arith, e p, holders-set w.table fd d p h));
      tidy = set-IsTidy w.table fd d h t b.tidy;
      full = length-set w.table fd d ∙ b.full;
      room = λ p. omega (arith, b.room p, length-set w.table fd d);
    }

    closed-Balanced :
        (fd p : ℕ) (r : Option (Result (Unit {0}) × Store D))
        → fd < length w.table
        → (get_or w.table fd no_descr).file ≡ some p
        → ClosesWell (drop_holder (λ q. others q + holders w.table q) p) r
        → ClosesAt others w fd (finish_sys_close w fd r)
    unfolding finish_sys_close
    closed-Balanced fd p none h e c = c
    closed-Balanced fd p (some (err x, s)) h e c = absurd c
    closed-Balanced fd p (some (ok tt, s)) h e c = (
      put-Balanced _ fd no_descr s h refl c (λ q. omega (
        arith,
        drop-points (λ x. others x + holders w.table x) p q _ e
            (omega (arith, holders-one w.table fd p e)),
      )),
      refl,
    )

    closes-ClosesAt : (fd : ℕ) → ClosesAt others w fd (sys_close fd w)
    unfolding sys_close
    closes-ClosesAt fd = elim (Bool-cases (fd_valid w.table fd)) [
      | inl v ↦
          let (h, p, e) = valid-has w.table fd b.tidy v in
          let one = holders-one w.table fd p e in
          let some_file =
            file_close-Counted _ w.store p b.counted (omega (arith, one))
              (omega (arith, b.room p, holders-le w.table p)) in
          rw (v, e) (closed-Balanced fd p _ h e some_file)
      | inr v ↦ rw v b
    ]

    pub sys_close-Balanced : (fd : ℕ) → StaysBalanced others (sys_close fd w)
    sys_close-Balanced fd = forget others w fd _ (closes-ClosesAt fd)

    share-Balanced :
        (fd p : ℕ) (d : Descr) (r : Option (Store D))
        → fd < length w.table
        → (get_or w.table fd no_descr).file ≡ none
        → IsTidyDescr d
        → d.file ≡ some p
        → GetsWell (add_holder (λ q. others q + holders w.table q) p) r
        → StaysBalanced others (share_at w fd d r)
    unfolding share_at
    share-Balanced fd p d none h e t f c = c
    share-Balanced fd p d (some s) h e t f c = put-Balanced _ fd d s h t c (λ q.
        omega
          (arith, add-points (λ x. others x + holders w.table x) p q _ f, ap (λ o. points o q) e))

    -- A descriptor is made to point at a file that another one points at.
    again-Balanced :
        (from fd p : ℕ) (d : Descr)
        → fd < length w.table
        → (get_or w.table fd no_descr).file ≡ none
        → (get_or w.table from no_descr).file ≡ some p
        → IsTidyDescr d
        → d.file ≡ some p
        → StaysBalanced others (share_at w fd d (file_get (some p) w.store))
    again-Balanced from fd p d h e f t g =
        let one : points d.file p ≡ 1 = ap (λ o. points o p) g ∙ ground arith in
        let zero_now : points (get_or w.table fd no_descr).file p ≡ 0 = ap (λ o. points o p) e in
        let more = holders-le (set w.table fd d) p in
        let l = length-set w.table fd d in
        let set_one = holders-set w.table fd d p h in
        share-Balanced fd p d _ h e t g (
          file_get-Counted _ w.store p b.counted (omega (arith, holders-one w.table from p f))
            (omega (arith, b.room p, one, zero_now, more, l, set_one)))

    pub not_occupied→no_file :
        (fd : ℕ)
        → not (get_or w.table fd no_descr).occupied ≡ true
        → (get_or w.table fd no_descr).file ≡ none
    not_occupied→no_file fd h = no_file _ (ground (arith, b.tidy fd, h))

    not_valid→no_file :
        (fd : ℕ)
        → is_valid (get_or w.table fd no_descr) ≡ false
        → (get_or w.table fd no_descr).file ≡ none
    not_valid→no_file fd h = no_file _ (sym (b.tidy fd) ∙ h)

    duped-Balanced :
        (fd : ℕ) (o : Option ℕ)
        → fd_valid w.table fd ≡ true
        → IsFound (λ d. not d.occupied) w.table o
        → StaysBalanced others (dup_to w (file_of w fd) o)
    unfolding dup_to
    duped-Balanced fd none v f = b
    duped-Balanced fd (some i) v f =
        let (h, p, e) = valid-has w.table fd b.tidy v in
        rw e (again-Balanced fd i p _ f.0 (not_occupied→no_file i f.1) e refl refl)

    pub sys_dup-Balanced : (fd : ℕ) → StaysBalanced others (sys_dup fd w)
    unfolding sys_dup
    sys_dup-Balanced fd = elim (Bool-cases (fd_valid w.table fd)) [
      | inl v ↦ rw v (duped-Balanced fd _ v (find_fd-IsFound _ w.table))
      | inr v ↦ rw v b
    ]

    share_file-Balanced :
        (fd other : ℕ) (o : Option ℕ)
        → other < length w.table
        → (get_or w.table other no_descr).file ≡ none
        → (get_or w.table fd no_descr).file ≡ o
        → StaysBalanced others (share_at w other (get_or w.table fd no_descr) (file_get o w.store))
    unfolding share_at file_get
    share_file-Balanced fd other none h z e =
        put-Balanced _ other (get_or w.table fd no_descr) w.store h (b.tidy fd) b.counted
          (λ q. omega (arith, ap (λ o. points o q) e, ap (λ o. points o q) z))
    share_file-Balanced fd other (some p) h z e =
        again-Balanced fd other p (get_or w.table fd no_descr) h z e (b.tidy fd) e

    share2-Balanced :
        (fd other : ℕ)
        → other < length w.table
        → (get_or w.table other no_descr).file ≡ none
        → StaysBalanced others (dup2_share fd other w)
    unfolding dup2_share
    share2-Balanced fd other h z = share_file-Balanced fd other _ h z refl

  closed2-Balanced :
      (others : ℕ → ℕ) (w : Proc D) (fd other : ℕ)
      → other < length w.table
      → (r : Option (Result ℕ × Proc D)) → ClosesAt others w other r
      → StaysBalanced others (dup2_closed fd other r)
  unfolding dup2_closed
  closed2-Balanced others w fd other h none c = c
  closed2-Balanced others w fd other h (some (err e, w')) c = c
  closed2-Balanced others w fd other h (some (ok n, w')) c =
      let l : length w'.table ≡ length w.table =
        ap length c.1 ∙ length-set w.table other no_descr in
      let f : get_or w'.table other no_descr ≡ no_descr =
        ap (λ t. get_or t other no_descr) c.1
        ∙ (get_or-set w.table other other no_descr no_descr h ∙ ground arith) in
      share2-Balanced others w' c.0 fd other (omega (arith, l, h)) (ap (λ d. d.file) f)

  module _ (others : ℕ → ℕ) (w : Proc D) (b : Balanced others w) where
    dup2_to-Balanced :
        (fd : ℕ) (r : Result ℕ) → InRange w.table r → StaysBalanced others (dup2_to fd r w)
    unfolding dup2_to
    dup2_to-Balanced fd (err e) h = b
    dup2_to-Balanced fd (ok other) h = elim (Bool-cases (fd_valid w.table other)) [
      | inl v ↦ rw v (closed2-Balanced others w fd other h _ (closes-ClosesAt others w b other))
      | inr v ↦ rw v (
          share2-Balanced others w b fd other h
            (not_valid→no_file others w b other (ground (arith, v, h))))
    ]

    pub sys_dup2-Balanced : (fd other : ℕ) → StaysBalanced others (sys_dup2 fd other w)
    unfolding sys_dup2
    sys_dup2-Balanced fd other = elim (Bool-cases (fd_valid w.table fd)) [
      | inl v ↦ rw v (dup2_to-Balanced fd _ (dup2_target-InRange w.table other))
      | inr v ↦ rw v b
    ]
