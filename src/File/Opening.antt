-- ===== src/File/Opening.antt =====
-- sys_open, fork and exit of kernel/src/fs.c against the reference counts of the files.
use stewieos.Prelude.{
  ℕ, ◌+◌, ◌<◌, Bool, true, false, Option, none, some, Result, ok, err, get_or, ◌&&◌, not, length,
  set, get_or-set, length-set, arith, ◌≡◌, refl, Bool-cases, inl, inr, ap, sym, ◌∙◌,
}
use stewieos.File.{
  Flags, Spot, Kernel, Store, Proc, no_descr, file_open, sys_relfd, sys_resfd, reserve_at,
  finish_open, open_path, open_found, open_again, open_made, open_looked, open_at, sys_open,
}
use stewieos.File.Balance.{ClosesAll, OpensWell, file_open-OpensWell, same-Counted}
use stewieos.File.Holders.{points, holders, has_file, IsFound, find_fd-IsFound}
use stewieos.File.Descriptors.{Balanced, put-Balanced, add-points, not_occupied→no_file}

module _ {D : Type 0} (K : Kernel D) (closes : ClosesAll K) (others : ℕ → ℕ) where
  -- The descriptor `fd` is the one that sys_open reserved.
  record IsReserved (fd : ℕ) (w : Proc D) : Type 0 where
    balanced : Balanced others w
    in_range : fd < length w.table
    is_occupied : (get_or w.table fd no_descr).occupied ≡ true
    points_nowhere : (get_or w.table fd no_descr).file ≡ none

  finished-Balanced :
      (w : Proc D) (fd : ℕ) (r : Result ℕ × Store D)
      → IsReserved fd w
      → OpensWell (λ p. others p + holders w.table p) r
      → Balanced others (finish_open K w fd r).1
  unfolding finish_open
  finished-Balanced w fd (ok p, s) h c =
      put-Balanced others w h.balanced _ fd _ s h.in_range (ground (arith, h.is_occupied)) c.1 (λ q.
        omega (
          arith,
          ap (λ o. points o q) h.points_nowhere,
          add-points (λ x. others x + holders w.table x) p q (some p) refl,
        ))
  finished-Balanced w fd (err e, s) h c =
      put-Balanced others w h.balanced _ fd no_descr s h.in_range refl c
        (λ q. omega (arith, ap (λ o. points o q) h.points_nowhere))

  -- No file moves.
  moved-IsReserved :
      (w : Proc D) (s : Store D) (fd : ℕ)
      → s.files ≡ w.store.files
      → IsReserved fd w
      → IsReserved fd (record w { store = s })
  moved-IsReserved w s fd e h = record {
    balanced = record {
      counted = same-Counted e h.balanced.counted;
      tidy = h.balanced.tidy;
      full = h.balanced.full;
      room = h.balanced.room;
    };
    in_range = h.in_range;
    is_occupied = h.is_occupied;
    points_nowhere = h.points_nowhere;
  }

  given_up-Balanced : (w : Proc D) (fd : ℕ) → IsReserved fd w → Balanced others (sys_relfd fd w)
  unfolding sys_relfd
  given_up-Balanced w fd h =
      put-Balanced others w h.balanced _ fd _ w.store h.in_range
        (sym (ap has_file h.points_nowhere)) h.balanced.counted (λ q. refl)

  -- Opening moves no file when it gives up its path.
  released-OpensWell :
      (n : ℕ → ℕ) (refs : ℕ → ℕ) (r : Result ℕ) (s : Store D)
      → OpensWell n (r, s)
      → OpensWell n (r, record s { path_refs = refs })
  released-OpensWell n refs (ok p) s c = (c.0, same-Counted refl c.1)
  released-OpensWell n refs (err e) s c = same-Counted refl c

  opened-Balanced :
      (w : Proc D) (fd : ℕ) (flags : Flags) (path : Spot)
      → IsReserved fd w
      → Balanced others (open_path K w fd flags path).1
  unfolding open_path
  opened-Balanced w fd flags path h =
      let (r, s) = file_open K w.who path flags w.store in
      finished-Balanced w fd _ h (
        released-OpensWell _ _ r s
          (file_open-OpensWell K closes _ w.store h.balanced.counted w.who path flags))

  found-Balanced :
      (w : Proc D) (fd : ℕ) (flags : Flags) (created : Bool) (path : Spot) (d : D)
      → IsReserved fd w
      → Balanced others (open_found K w fd flags created path d).1
  unfolding open_found
  found-Balanced w fd flags created path d h = elim (Bool-cases (not created && flags.o_excl)) [
    | inl t ↦ rw t (given_up-Balanced _ fd (moved-IsReserved w _ fd refl h))
    | inr t ↦ rw t (opened-Balanced _ fd flags path (moved-IsReserved w _ fd refl h))
  ]

  again-Balanced :
      (w : Proc D) (fd : ℕ) (flags : Flags) (r : Result Spot × D)
      → IsReserved fd w
      → Balanced others (open_again K w fd flags r).1
  unfolding open_again
  again-Balanced w fd flags (ok path, d) h = found-Balanced w fd flags true path d h
  again-Balanced w fd flags (err e, d) h = given_up-Balanced _ fd (moved-IsReserved w _ fd refl h)

  made-Balanced :
      (w : Proc D) (fd name : ℕ) (flags : Flags) (r : Result (Unit {0}) × D)
      → IsReserved fd w
      → Balanced others (open_made K w fd name flags r).1
  unfolding open_made
  made-Balanced w fd name flags (ok tt, d) h = again-Balanced w fd flags (K.path_lookup d name) h
  made-Balanced w fd name flags (err e, d) h =
      given_up-Balanced _ fd (moved-IsReserved w _ fd refl h)

  looked-Balanced :
      (w : Proc D) (fd name : ℕ) (flags : Flags) (mode : ℕ) (r : Result Spot × D)
      → IsReserved fd w
      → Balanced others (open_looked K w fd name flags mode r).1
  unfolding open_looked
  looked-Balanced w fd name flags mode (ok path, d) h = found-Balanced w fd flags false path d h
  looked-Balanced w fd name flags mode (err e, d) h = elim (Bool-cases flags.o_creat) [
    | inl t ↦ simp t (made-Balanced w fd name flags _ h)
    | inr t ↦ rw t (given_up-Balanced _ fd (moved-IsReserved w _ fd refl h))
  ]

  module _ (w : Proc D) (b : Balanced others w) where
    reserve_at-IsReserved :
        (fd : ℕ)
        → IsFound (λ d. not d.occupied) w.table (some fd)
        → IsReserved fd (reserve_at w (some fd)).1
    reserve_at-IsReserved fd f =
        let z = not_occupied→no_file others w b fd f.1 in
        let d = record (get_or w.table fd no_descr) { occupied = true; invalid = true } in
        let e : get_or (set w.table fd d) fd no_descr ≡ d =
          get_or-set w.table fd fd d no_descr f.0 ∙ ground arith in
        record {
          balanced =
              put-Balanced others w b _ fd d w.store f.0 (sym (ap has_file z)) b.counted
                (λ q. refl);
          in_range = omega (arith, f.0, length-set w.table fd d);
          is_occupied = ap (λ x. x.occupied) e;
          points_nowhere = ap (λ x. x.file) e ∙ z;
        }

    at-Balanced :
        (o : Option ℕ) (name : ℕ) (flags : Flags) (mode : ℕ)
        → IsFound (λ d. not d.occupied) w.table o
        → Balanced others (let (fd, w') = reserve_at w o in open_at K w' fd name flags mode).1
    unfolding open_at
    at-Balanced none name flags mode f = b
    at-Balanced (some fd) name flags mode f =
        looked-Balanced _ fd name flags mode _ (reserve_at-IsReserved fd f)

    pub sys_open-Balanced :
        (name : ℕ) (flags : Flags) (mode : ℕ) → Balanced others (sys_open K name flags mode w).1
    unfolding sys_open sys_resfd
    sys_open-Balanced name flags mode = at-Balanced _ name flags mode (find_fd-IsFound _ w.table)
