-- ===== src/Timer.antt =====
-- The timer callbacks of kernel/src/timer.c: the table of callbacks, and the list that timer_callback
-- keeps in it by `next` and `prev`. A slot is its index; the interrupt flag is not modelled.
pub mod Hang
mod Tests
use stewieos.Prelude.{
  ℕ, zero, suc, ◌+◌, ◌-◌, ◌^◌, Bool, true, false, not, ◌&&◌, ◌||◌, Option, none, some, ltb, ◌==◌,
  if◌then◌else◌,
}

-- TIMER_CANCEL, which marks a free slot
abbrev pub timer_cancel : ℕ
timer_cancel = 2 ^ 32 - 1

-- `callbacks` and `next_callback`; `none` is NULL.
pub record Timers : Type 0 where
  pub when : ℕ → ℕ
  pub callback : ℕ → ℕ
  pub context : ℕ → ℕ
  pub next_of : ℕ → Option ℕ
  pub prev_of : ℕ → Option ℕ
  pub next_callback : Option ℕ

-- a store to a field of one slot
abbrev pub write_slot {ℓ} : {A : Type ℓ} → (ℕ → A) → ℕ → A → ℕ → A
write_slot f k v = λ i. if k == i then v else f i

-- the loop that looks for a free slot, `left` slots from `i` on
unfoldable pub free_slot : (left i : ℕ) → Timers → Option ℕ
free_slot zero i t = none
free_slot (suc left) i t =
    let rest = free_slot left (i + 1) t in if t.when i == timer_cancel then some i else rest

-- `iter->prev->next = &callbacks[nr]`, if there is one before
unfoldable pub link_before : Option ℕ → (nr : ℕ) → Timers → Timers
link_before none nr t = t
link_before (some p) nr t = record t { next_of = write_slot t.next_of p (some nr) }

-- one round of the loop that inserts a callback, at slot `i`
unfoldable pub insert_round : (nr i : ℕ) → Timers → Timers
insert_round nr i t =
    let u = link_before (t.prev_of i) nr t in
    if ltb (t.when nr) (t.when i)
    then record u {
      prev_of = write_slot (write_slot u.prev_of nr (t.prev_of i)) i (some nr);
      next_of = write_slot u.next_of nr (some i);
    }
    else if elim (t.next_of i) [ none ↦ true | some j ↦ false ]
    then record t {
      next_of = write_slot t.next_of i (some nr);
      prev_of = write_slot t.prev_of nr (some i);
    }
    else t

-- The loop, for `rounds` rounds at most; `none` is a loop that goes on longer.
unfoldable pub insert_loop : (rounds nr : ℕ) → Option ℕ → Timers → Option Timers
insert_loop zero nr iter t = none
insert_loop (suc n) nr none t = some t
insert_loop (suc n) nr (some i) t = let u = insert_round nr i t in insert_loop n nr (u.next_of i) u

-- the pointer to the first callback, when the loop has ended
unfoldable pub fix_first : (first : ℕ) → Timers → Timers
fix_first first t = elim (t.prev_of first) [
  | none ↦ t
  | some p ↦ record t { next_callback = some p }
]

unfoldable pub after_loop : (first : ℕ) → Option Timers → Option Timers
after_loop first none = none
after_loop first (some t) = some (fix_first first t)

unfoldable pub insert_callback : (rounds nr : ℕ) → Option ℕ → Timers → Option Timers
insert_callback rounds nr none t = some (record t { next_callback = some nr })
insert_callback rounds nr (some first) t = after_loop first (insert_loop rounds nr (some first) t)

-- the slot, filled
unfoldable pub fill_slot : (nr tick context callback : ℕ) → Timers → Timers
fill_slot nr tick context callback t = record t {
  when = write_slot t.when nr tick;
  callback = write_slot t.callback nr callback;
  context = write_slot t.context nr context;
  next_of = write_slot t.next_of nr none;
  prev_of = write_slot t.prev_of nr none;
}

unfoldable pub returns_zero : Option Timers → Option (Bool × Timers)
returns_zero none = none
returns_zero (some t) = some (true, t)

unfoldable pub in_slot :
    (rounds tick context callback : ℕ) → Option ℕ → Timers → Option (Bool × Timers)
in_slot rounds tick context callback none t = some (false, t)
in_slot rounds tick context callback (some nr) t =
    returns_zero (insert_callback rounds nr t.next_callback (fill_slot nr tick context callback t))

-- timer_callback; the Boolean is whether it returns 0, and the outer `none` a loop that goes on longer.
unfoldable pub timer_callback :
    (rounds max tick context callback : ℕ) → Timers → Option (Bool × Timers)
timer_callback rounds max tick context callback t =
    in_slot rounds tick context callback (free_slot max 0 t) t
