-- ===== src/Pipe/Open.antt =====
-- pipe_open and pipe_close of kernel/src/pipe.c: the list of open pipes and its counters.
use stewieos.Prelude.{
  ℕ, ◌+◌, ◌-◌, ◌^◌, ◌<◌, ◌≡◌, refl, ◌∙◌, ap, sym, List, [], ◌∷◌, arith, ◌⊎◌, inl, inr, ◌≢◌, Bool,
  true, false, ◌&&◌, ◌==◌, Bool-cases, Option, none, some, subst, Option-cases,
}
use stewieos.Pipe.{
  OpenFlags, Pipe, find_open_pipe, alter, remove, reads, writes, up, down, count_open, count_close,
  fresh_pipe, pipe_open, pipe_close,
}

-- The counters of a pipe are not both 0, and far from wrapping.
abbrev pub Counted : Pipe → Type 0
Counted p = (p.nreaders + p.nwriters ≢ 0) × (p.nreaders < 2 ^ 32 - 1) × (p.nwriters < 2 ^ 32 - 1)

abbrev pub AllCounted : List Pipe → Type 0
AllCounted [] = Unit
AllCounted (p ∷ ps) = Counted p × AllCounted ps

down-up : (b : Bool) (n : ℕ) → n < 2 ^ 32 - 1 → down b (up b n) ≡ n
down-up true n h = omega arith
down-up false n h = refl

some_injective : {p q : Pipe} → some p ≡ some q → p ≡ q
some_injective {p} e = ap (λ o. elim o [ none ↦ p | some r ↦ r ]) e

find_here :
    (inode : ℕ) (q : Pipe) (ps : List Pipe)
    → (q.inode == inode) ≡ true
    → find_open_pipe inode (q ∷ ps) ≡ some q
unfolding find_open_pipe
find_here inode q ps h = rw h

find_later :
    (inode : ℕ) (q : Pipe) (ps : List Pipe)
    → (q.inode == inode) ≡ false
    → find_open_pipe inode (q ∷ ps) ≡ find_open_pipe inode ps
unfolding find_open_pipe
find_later inode q ps h = rw h

module _ (o : OpenFlags) (inode mode : ℕ) where
  count_close-count_open :
      (p : Pipe)
      → p.nreaders < 2 ^ 32 - 1
      → p.nwriters < 2 ^ 32 - 1
      → count_close o mode (count_open o mode p) ≡ p
  unfolding count_close count_open
  count_close-count_open p h k = λ i. record p {
    nreaders = down-up (reads o mode) p.nreaders h i;
    nwriters = down-up (writes o mode) p.nwriters k i;
  }

  -- Opening and closing again the pipe of an inode.
  find_again :
      (ps : List Pipe) (p : Pipe)
      → find_open_pipe inode ps ≡ some p
      → AllCounted ps
      → Counted p
        × (find_open_pipe inode (alter inode (count_open o mode) ps) ≡ some (count_open o mode p))
        × (alter inode (count_close o mode) (alter inode (count_open o mode) ps) ≡ ps)
  unfolding find_open_pipe alter count_open
  find_again [] p e c = cc
  find_again (q ∷ ps) p e (c, cs) = elim (Bool-cases (q.inode == inode)) [
    | inl h ↦
        let same : q ≡ p = some_injective (sym (find_here inode q ps h) ∙ e) in
        rw h (
          subst Counted same c,
          rw h (ap (λ r. some (count_open o mode r)) same),
          rw h (ap (λ r. r ∷ ps) (count_close-count_open q c.1 c.2)),
        )
    | inr h ↦
        let rest = find_again ps p (sym (find_later inode q ps h) ∙ e) cs in
        rw h (rest.0, rw h rest.1, rw h (ap (◌∷◌ q) rest.2))
  ]

  -- A pipe that was not open, and now is.
  fresh_again :
      (storage : List ℕ) (ps : List Pipe)
      → (reads o mode ≡ true) ⊎ (writes o mode ≡ true)
      → pipe_close o inode mode (count_open o mode (fresh_pipe inode storage) ∷ ps) ≡ ps
  unfolding pipe_close find_open_pipe count_open fresh_pipe count_close remove
  fresh_again storage ps used = ground arith

  -- pipe_close right after a pipe_open of the same inode, with a mode that has a bit of O_RDONLY,
  -- O_WRONLY or O_RDWR, leaves the list of pipes as it was before: a pipe in the list gets its
  -- counters back, and one that the call created is gone. For every pipe in the list the counters of
  -- readers and writers are not both 0 and are below 2 ^ 32 - 1.
  pub pipe_close-pipe_open :
      (memory : Option (List ℕ)) (ps : List Pipe)
      → AllCounted ps
      → (reads o mode ≡ true) ⊎ (writes o mode ≡ true)
      → let (r, ps') = pipe_open o memory inode mode ps in pipe_close o inode mode ps' ≡ ps
  unfolding pipe_open pipe_close
  pipe_close-pipe_open memory ps c used = elim (Option-cases (find_open_pipe inode ps)) [
    | inl none_open ↦ elim (Option-cases memory) [
      | inl e ↦ rw (none_open, e, pipe_open) (rw (none_open, pipe_close) refl)
      | inr (storage, e) ↦ rw (none_open, e, pipe_open) (fresh_again storage ps used)
    ]
    | inr (p, e) ↦
        let (counted, found, back) = find_again ps p e c in
        let same = count_close-count_open p counted.1 counted.2 in
        let held : ((p.nwriters == 0) && (p.nreaders == 0)) ≡ false = ground (arith, counted.0) in
        let alive = subst (λ r. ((r.nwriters == 0) && (r.nreaders == 0)) ≡ false) (sym same) held in
        rw (e, pipe_open) (rw (found, pipe_close) (rw alive back))
  ]
