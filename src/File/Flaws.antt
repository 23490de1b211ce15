-- ===== src/File/Flaws.antt =====
-- Where the descriptors of kernel/src/fs.c go wrong: dup2 of a descriptor onto itself, and a driver's
-- close that fails.
use stewieos.Prelude.{
  ℕ, ◌-◌, ◌^◌, ◌<◌, true, false, Option, none, some, Result, ok, err, get_or, set, leb, ◌==◌,
  length, arith, ◌≡◌, refl, Bool-cases, inl, inr, ap, sym, ◌∙◌, subst, get_or-set, length-set,
  set-get_or,
}
use stewieos.File.{
  task_max_open_files, Store, Proc, no_descr, fd_valid, sys_close, finish_sys_close, sys_dup2,
  dup2_to, dup2_closed, dup2_share, share_at, file_get, is_valid,
}

module _ {D : Type 0} where
  -- What a sys_close that succeeds does with the table.
  abbrev ClearsAt : Proc D → ℕ → Option (Result ℕ × Proc D) → Type 0
  ClearsAt w fd none = Unit
  ClearsAt w fd (some (ok n, w')) = w'.table ≡ set w.table fd no_descr
  ClearsAt w fd (some (err e, w')) = Unit

  finished-ClearsAt :
      (w : Proc D) (fd : ℕ) (r : Option (Result (Unit {0}) × Store D))
      → ClearsAt w fd (finish_sys_close w fd r)
  unfolding finish_sys_close
  finished-ClearsAt w fd none = tt
  finished-ClearsAt w fd (some (ok tt, s)) = refl
  finished-ClearsAt w fd (some (err e, s)) = tt

  sys_close-ClearsAt : (w : Proc D) (fd : ℕ) → ClearsAt w fd (sys_close fd w)
  unfolding sys_close
  sys_close-ClearsAt w fd = elim (Bool-cases (fd_valid w.table fd)) [
    | inl v ↦ rw v (finished-ClearsAt w fd _)
    | inr v ↦ rw v tt
  ]

  -- A descriptor without flags and file is copied onto itself.
  share_empty :
      (fd : ℕ) (w : Proc D)
      → get_or w.table fd no_descr ≡ no_descr
      → set w.table fd no_descr ≡ w.table
      → dup2_share fd fd w ≡ some (ok fd, w)
  unfolding dup2_share share_at file_get
  share_empty fd w z k =
      ap (λ d. share_at w fd d (file_get d.file w.store)) z
      ∙ ap (λ x. some (ok fd, record w { table = x })) k

  -- If a valid descriptor can be closed, sys_dup2 of it onto itself returns it as a success and leaves
  -- it invalid.
  pub sys_dup2-same :
      (fd : ℕ) (w w' : Proc D) (n : ℕ)
      → length w.table ≡ task_max_open_files
      → fd_valid w.table fd ≡ true
      → sys_close fd w ≡ some (ok n, w')
      → (sys_dup2 fd fd w ≡ some (ok fd, w')) × (fd_valid w'.table fd ≡ false)
  unfolding sys_dup2 dup2_to dup2_closed
  sys_dup2-same fd w w' n l v e =
      let b : fd < length w.table = ground (arith, v) in
      let c : w'.table ≡ set w.table fd no_descr =
        subst (ClearsAt w fd) e (sys_close-ClearsAt w fd) in
      let z : get_or w'.table fd no_descr ≡ no_descr =
        ap (λ t. get_or t fd no_descr) c
        ∙ (get_or-set w.table fd fd no_descr no_descr b ∙ ground arith) in
      let k : set w'.table fd no_descr ≡ w'.table =
        ap (λ d. set w'.table fd d) (sym z)
        ∙ set-get_or w'.table fd no_descr
            (omega (arith, ap length c, length-set w.table fd no_descr, b)) in
      let m : (fd == 2 ^ 32 - 1) ≡ false = ground (arith, l, b) in
      let t : leb (length w.table) fd ≡ false = ground (arith, b) in
      (rw (v, m, t) (rw v (rw e (share_empty fd w' z k))), ground (arith, ap is_valid z))
