-- ===== src/File/Failure.antt =====
-- What sys_open of kernel/src/fs.c leaves behind when it fails.
use stewieos.Prelude.{
  ℕ, ◌<◌, Bool, true, false, Option, none, some, List, [], ◌∷◌, ◌++◌, Result, ok, err, get_or, ◌&&◌,
  not, set, ◌==◌, length, arith, ◌≡◌, refl, Bool-cases, inl, inr, ap, sym, ◌∙◌, subst, get_or-set,
  length-set, if◌then◌else◌, ==_iff,
}
use stewieos.Access.{Who}
use stewieos.File.{
  Flags, Spot, FileOps, Kernel, Store, Proc, Descr, no_descr, load, path_copy, path_put, file_open,
  file_checked, file_allocate, file_create, file_ready, file_released, sys_relfd, ops_of,
  with_driver, with_path, sys_resfd, reserve_at, finish_open, open_path, open_found, open_again,
  open_made, open_looked, open_at, sys_open,
}
use stewieos.File.Balance.{get_or-grown, get_or-end}
use stewieos.File.Holders.{IsFound, find_fd-IsFound}

get_or-none :
    {A : Type 0} (xs : List (Option A)) (p : ℕ) → get_or (xs ++ none ∷ []) p none ≡ get_or xs p none
get_or-none xs p = elim (Bool-cases (length xs == p)) [
  | inl h ↦
      subst (λ q. get_or (xs ++ none ∷ []) q none ≡ get_or xs q none) ((==_iff (length xs) p).0 h)
        (get_or-grown xs (length xs) none ∙ ground (arith, get_or-end xs))
  | inr h ↦ get_or-grown xs p none ∙ ap (λ b. if b then none else get_or xs p none) h
]

copy-put : (refs : ℕ → ℕ) (e q : ℕ) → path_put (path_copy refs e) e q ≡ refs q
copy-put refs e q = ground arith

module _ {D : Type 0} where
  -- The same files, and as many references on each entry.
  pub record SameStore (s s' : Store D) : Type 0 where
    pub files : (p : ℕ) → load s' p ≡ load s p
    pub path_refs : (e : ℕ) → s'.path_refs e ≡ s.path_refs e

  -- Besides, the same occupied descriptors.
  pub record SameWorld (w w' : Proc D) : Type 0 where
    pub store : SameStore w.store w'.store
    pub occupied :
        (fd : ℕ) → (get_or w'.table fd no_descr).occupied ≡ (get_or w.table fd no_descr).occupied
    pub who : w'.who ≡ w.who

  abbrev pub FailsClean : Store D → Result ℕ × Store D → Type 0
  FailsClean s (ok p, s') = Unit
  FailsClean s (err e, s') = SameStore s s'

  module _ (K : Kernel D) (s : Store D) (path : Spot) (flags : Flags) where
    released-SameStore : (d : D) → SameStore s (file_released s path d)
    unfolding file_released
    released-SameStore d = record {
      files = get_or-none s.files;
      path_refs = copy-put s.path_refs path.entry;
    }

    ready-FailsClean :
        (ops : FileOps D) (r : Result (Unit {0}) × D) → FailsClean s (file_ready s path flags ops r)
    unfolding file_ready
    ready-FailsClean ops (ok tt, d) = tt
    ready-FailsClean ops (err e, d) = released-SameStore d

    created-FailsClean :
        (d : D) (o : Option (FileOps D)) → FailsClean s (file_create K s path flags d o)
    unfolding file_create
    created-FailsClean d none = released-SameStore d
    created-FailsClean d (some ops) = ready-FailsClean ops _

    allocated-FailsClean : (m : Bool × D) → FailsClean s (file_allocate K s path flags m)
    unfolding file_allocate
    allocated-FailsClean (true, d) = created-FailsClean d (ops_of K path.kind d path)
    allocated-FailsClean (false, d) = record { files = λ p. refl; path_refs = λ e. refl }

    checked-FailsClean : (r : Result (Unit {0}) × D) → FailsClean s (file_checked K s path flags r)
    unfolding file_checked
    checked-FailsClean (ok tt, d) = allocated-FailsClean (K.kmalloc d)
    checked-FailsClean (err e, d) = record { files = λ p. refl; path_refs = λ e. refl }

    open-FailsClean : (who : Who) → FailsClean s (file_open K who path flags s)
    unfolding file_open
    open-FailsClean who = checked-FailsClean _

  -- In `w` the descriptor `fd` was reserved, and nothing else happened since `start`.
  record IsStarted (start : Proc D) (fd : ℕ) (w : Proc D) : Type 0 where
    store : SameStore start.store w.store
    others :
        (i : ℕ)
        → (fd == i) ≡ false
        → (get_or w.table i no_descr).occupied ≡ (get_or start.table i no_descr).occupied
    was_free : (get_or start.table fd no_descr).occupied ≡ false
    in_range : fd < length w.table
    who : w.who ≡ start.who

  abbrev pub LeavesNothing : Proc D → Result ℕ × Proc D → Type 0
  LeavesNothing start (ok n, w) = Unit
  LeavesNothing start (err e, w) = SameWorld start w

  module _ (K : Kernel D) (start : Proc D) (fd : ℕ) where
    freed-SameWorld :
        (w : Proc D) (d : Descr) (s : Store D)
        → IsStarted start fd w
        → d.occupied ≡ false
        → SameStore start.store s
        → SameWorld start (record w { store = s; table = set w.table fd d })
    freed-SameWorld w d s h z same = record {
      store = same;
      occupied = λ i.
          let e = get_or-set w.table fd i d no_descr h.in_range in
          elim (Bool-cases (fd == i)) [
            | inl t ↦
                ap (λ x. x.occupied) (e ∙ ap (λ b. if b then d else get_or w.table i no_descr) t)
                ∙ (z
                    ∙ (sym h.was_free
                        ∙ ap (λ j. (get_or start.table j no_descr).occupied) ((==_iff fd i).0 t)))
            | inr t ↦
                ap (λ x. x.occupied) (e ∙ ap (λ b. if b then d else get_or w.table i no_descr) t)
                ∙ h.others i t
          ];
      who = h.who;
    }

    driven-SameWorld :
        (w : Proc D) (d : D)
        → IsStarted start fd w
        → SameWorld start (sys_relfd fd (with_driver w d))
    unfolding sys_relfd
    driven-SameWorld w d h =
        freed-SameWorld w _ _ h refl
          (record { files = h.store.files; path_refs = h.store.path_refs })

    finished-LeavesNothing :
        (w : Proc D) (path : Spot) (d : D) (r : Result ℕ) (s : Store D)
        → IsStarted start fd w
        → FailsClean (with_path w path d).store (r, s)
        → LeavesNothing start (
            finish_open K
              (with_path w path d)
              fd
              (r, record s { path_refs = path_put s.path_refs path.entry }))
    unfolding finish_open
    finished-LeavesNothing w path d (ok p) s h c = tt
    finished-LeavesNothing w path d (err e) s h c = freed-SameWorld w no_descr _ h refl (record {
      files = λ p. c.files p ∙ h.store.files p;
      path_refs = λ q. ground (arith, c.path_refs q, h.store.path_refs q);
    })

    opened-LeavesNothing :
        (w : Proc D) (flags : Flags) (path : Spot) (d : D)
        → IsStarted start fd w
        → LeavesNothing start (open_path K (with_path w path d) fd flags path)
    unfolding open_path
    opened-LeavesNothing w flags path d h =
        let (r, s) = file_open K w.who path flags (with_path w path d).store in
        finished-LeavesNothing w path d r s h
          (open-FailsClean K (with_path w path d).store path flags w.who)

    found-LeavesNothing :
        (w : Proc D) (flags : Flags) (created : Bool) (path : Spot) (d : D)
        → IsStarted start fd w
        → LeavesNothing start (open_found K w fd flags created path d)
    unfolding open_found sys_relfd
    found-LeavesNothing w flags created path d h = elim (Bool-cases (not created && flags.o_excl)) [
      | inl t ↦ rw t (
          freed-SameWorld w _ _ h refl (record {
            files = h.store.files;
            path_refs = λ q. copy-put w.store.path_refs path.entry q ∙ h.store.path_refs q;
          }))
      | inr t ↦ rw t (opened-LeavesNothing w flags path d h)
    ]

    again-LeavesNothing :
        (w : Proc D) (flags : Flags) (r : Result Spot × D)
        → IsStarted start fd w
        → LeavesNothing start (open_again K w fd flags r)
    unfolding open_again
    again-LeavesNothing w flags (ok path, d) h = found-LeavesNothing w flags true path d h
    again-LeavesNothing w flags (err e, d) h = driven-SameWorld w d h

    made-LeavesNothing :
        (w : Proc D) (name : ℕ) (flags : Flags) (r : Result (Unit {0}) × D)
        → IsStarted start fd w
        → LeavesNothing start (open_made K w fd name flags r)
    unfolding open_made
    made-LeavesNothing w name flags (ok tt, d) h =
        again-LeavesNothing w flags (K.path_lookup d name) h
    made-LeavesNothing w name flags (err e, d) h = driven-SameWorld w d h

    looked-LeavesNothing :
        (w : Proc D) (name : ℕ) (flags : Flags) (mode : ℕ) (r : Result Spot × D)
        → IsStarted start fd w
        → LeavesNothing start (open_looked K w fd name flags mode r)
    unfolding open_looked
    looked-LeavesNothing w name flags mode (ok path, d) h =
        found-LeavesNothing w flags false path d h
    looked-LeavesNothing w name flags mode (err e, d) h = elim (Bool-cases flags.o_creat) [
      | inl t ↦ simp t (made-LeavesNothing w name flags _ h)
      | inr t ↦ simp t (driven-SameWorld w d h)
    ]

  at-LeavesNothing :
      (K : Kernel D) (w : Proc D) (o : Option ℕ) (name : ℕ) (flags : Flags) (mode : ℕ)
      → IsFound (λ d. not d.occupied) w.table o
      → LeavesNothing w (let (fd, w') = reserve_at w o in open_at K w' fd name flags mode)
  unfolding open_at
  at-LeavesNothing K w none name flags mode f = record {
    store = record { files = λ p. refl; path_refs = λ e. refl };
    occupied = λ i. refl;
    who = refl;
  }
  at-LeavesNothing K w (some fd) name flags mode f =
      let d = record (get_or w.table fd no_descr) { occupied = true; invalid = true } in
      let w' = (reserve_at w (some fd)).1 in
      looked-LeavesNothing K w fd w' name flags mode (K.path_lookup w'.store.driver name) (record {
        store = record { files = λ p. refl; path_refs = λ e. refl };
        others = λ i h.
            ap (λ x. x.occupied)
              (get_or-set w.table fd i d no_descr f.0
                ∙ ap (λ b. if b then d else get_or w.table i no_descr) h);
        was_free = ground (arith, f.1);
        in_range = omega (arith, f.0, length-set w.table fd d);
        who = refl;
      })

  -- A sys_open that fails leaves every file, every count of path references and every descriptor's
  -- being occupied as they were, and the task's user.
  pub sys_open-LeavesNothing :
      (K : Kernel D) (w : Proc D) (name : ℕ) (flags : Flags) (mode : ℕ)
      → LeavesNothing w (sys_open K name flags mode w)
  unfolding sys_open sys_resfd
  sys_open-LeavesNothing K w name flags mode =
      at-LeavesNothing K w _ name flags mode (find_fd-IsFound _ w.table)
