-- ===== src/Timer/Hang.antt =====
-- timer_callback of kernel/src/timer.c with a callback that comes after all others.
use stewieos.Prelude.{
  ℕ, zero, suc, ◌≤◌, ◌≡◌, ◌≢◌, refl, true, false, none, some, arith, ltb, ◌==◌, ap, ◌∙◌,
}
use stewieos.Timer.{
  Timers, write_slot, insert_round, insert_loop, insert_callback, fill_slot, free_slot,
  timer_callback, in_slot, returns_zero, after_loop,
}

-- A slot that is its own successor is never left.
loop-itself : (n nr : ℕ) (t : Timers) → t.next_of nr ≡ some nr → insert_loop n nr (some nr) t ≡ none
unfolding insert_loop insert_round
loop-itself zero nr t e = refl
loop-itself (suc n) nr t e =
    let s : ltb (t.when nr) (t.when nr) ≡ false = ground arith in
    rw s (rw (e, e) (loop-itself n nr t e))

-- a slot appended
abbrev appended : (nr i : ℕ) → Timers → Timers
appended nr i t = record t {
  next_of = write_slot t.next_of i (some nr);
  prev_of = write_slot t.prev_of nr (some i);
}

insert_round-last :
    (nr i : ℕ) (t : Timers)
    → t.next_of i ≡ none
    → t.when i ≤ t.when nr
    → insert_round nr i t ≡ appended nr i t
unfolding insert_round
insert_round-last nr i t e le =
    let s : ltb (t.when nr) (t.when i) ≡ false = ground arith in rw s (rw e refl)

appended-next_of : (nr i : ℕ) (t : Timers) → (appended nr i t).next_of i ≡ some nr
appended-next_of nr i t = let s : (i == i) ≡ true = ground arith in rw s refl

insert_loop-suc :
    (n nr i : ℕ) (t u : Timers)
    → insert_round nr i t ≡ u
    → u.next_of i ≡ some nr
    → insert_loop (suc n) nr (some i) t ≡ insert_loop n nr (some nr) u
unfolding insert_loop
insert_loop-suc n nr i t u e f =
    ap (λ (v : Timers). insert_loop n nr (v.next_of i) v) e ∙ ap (λ o. insert_loop n nr o u) f

-- From the last slot of a list that is not later than the new one, the loop never ends.
loop-last :
    (n nr i : ℕ) (t : Timers)
    → i ≢ nr
    → t.next_of i ≡ none
    → t.next_of nr ≡ none
    → t.when i ≤ t.when nr
    → insert_loop n nr (some i) t ≡ none
loop-last zero nr i t ne e e' le = unfold insert_loop in refl
loop-last (suc zero) nr i t ne e e' le =
    insert_loop-suc 0 nr i t (appended nr i t) (insert_round-last nr i t e le)
      (appended-next_of nr i t)
    ∙ (unfold insert_loop in refl)
loop-last (suc (suc n)) nr i t ne e e' le =
    let u = appended nr i t in
    let other : (i == nr) ≡ false = ground arith in
    let f : u.next_of nr ≡ none = rw other e' in
    insert_loop-suc (suc n) nr i t u (insert_round-last nr i t e le) (appended-next_of nr i t)
    ∙ insert_loop-suc n nr nr u (appended nr nr u) (insert_round-last nr nr u f (omega arith))
        (appended-next_of nr nr u)
    ∙ loop-itself n nr (appended nr nr u) (appended-next_of nr nr u)

-- timer_callback never returns, however many rounds its loop is given, where the list holds one
-- callback, there is a free slot, and the new callback is not to fire before that one. The callback in
-- the list does not stand in the free slot.
pub timer_callback_hangs :
    (rounds max tick context callback only nr : ℕ) (t : Timers)
    → free_slot max 0 t ≡ some nr
    → only ≢ nr
    → t.next_callback ≡ some only
    → t.next_of only ≡ none
    → t.when only ≤ tick
    → timer_callback rounds max tick context callback t ≡ none
unfolding timer_callback insert_callback in_slot returns_zero after_loop
timer_callback_hangs rounds max tick context callback only nr t free ne first last le =
    let u = fill_slot nr tick context callback t in
    let other : (nr == only) ≡ false = ground arith in
    let same : (nr == nr) ≡ true = ground arith in
    let facts : (u.next_of only ≡ none) × (u.next_of nr ≡ none) × (u.when only ≤ u.when nr) =
      unfold fill_slot in rw (other, same) (last, refl, le) in
    ap (λ o. in_slot rounds tick context callback o t) free
    ∙ ap (λ o. returns_zero (insert_callback rounds nr o u)) first
    ∙ ap (λ o. returns_zero (after_loop only o))
        (loop-last rounds nr only u ne facts.0 facts.1 facts.2)
