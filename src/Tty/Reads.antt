-- ===== src/Tty/Reads.antt =====
-- tty_queue_read of kernel/src/tty.c: what a read takes out of the queue, before and behind the end of
-- the array.
use stewieos.Prelude.{
  ℕ, zero, suc, ◌+◌, ◌-◌, ◌≤◌, ◌<◌, ◌≡◌, refl, ◌∙◌, ap, ap₂, sym, true, false, List, [], ◌∷◌, ◌++◌,
  arith, ltb, ◌==◌, length, get_or, take, drop, inl, inr, Bool-cases, drop-nil, take_all, drop_all,
}
use mathlib.Core.List.{append-nil}
use stewieos.Ring.{next, pending, length-pending}
use stewieos.Tty.{Tty, tty_queuelen, tty_queue_empty, tty_queue_read, read_rest, copied}
use stewieos.Tty.Queue.{IsValid, used, contents, pending_none, take-nil, take-pending}

drop_step : (r : ℕ) (buf : List ℕ) → r < length buf → drop r buf ≡ get_or buf r 0 ∷ drop (suc r) buf
drop_step r [] h = absurd (omega arith)
drop_step zero (b ∷ bs) h = refl
drop_step (suc r) (b ∷ bs) h = drop_step r bs (omega arith)

module _ (len : ℕ) (buf : List ℕ) where
  -- Up to the end of the array, the characters that wait stand side by side.
  pending_eq : {r s n m : ℕ} → r ≡ s → n ≡ m → pending len buf r n ≡ pending len buf s m
  pending_eq p q = λ i. pending len buf (p i) (q i)

  step_inside :
      (r n : ℕ) → r + suc n ≤ len → pending len buf (next len r) n ≡ pending len buf (suc r) n
  unfolding pending
  step_inside r zero h = refl
  step_inside r (suc n) h =
      ap (λ i. pending len buf i (suc n)) {x = next len r} {y = suc r} (ground arith)

  copied-pending :
      (r n : ℕ) → r + n ≤ len → len ≤ length buf → take n (drop r buf) ≡ pending len buf r n
  unfolding pending
  copied-pending r zero h l = refl
  copied-pending r (suc n) h l =
      ap (take (suc n)) (drop_step r buf (omega arith))
      ∙ ap (◌∷◌ (get_or buf r 0))
          (copied-pending (suc r) n (omega arith) l ∙ sym (step_inside r n h))

  drop-pending :
      (r k n : ℕ)
      → r + n ≤ len
      → k ≤ n
      → drop k (pending len buf r n) ≡ pending len buf (r + k) (n - k)
  unfolding pending
  drop-pending r zero n h l = pending_eq {s = r + 0} {m = n - 0} (omega arith) (omega arith)
  drop-pending r (suc k) zero h l = absurd (omega arith)
  drop-pending r (suc k) (suc n) h l =
      ap (drop k) (step_inside r n h)
      ∙ drop-pending (suc r) k n (omega arith) (omega arith)
      ∙ pending_eq (omega arith) (omega arith)

  -- Behind the last slot of the array they go on at its start.
  pending-wrap :
      (r m n : ℕ)
      → r + m + 1 ≡ len
      → pending len buf r (m + suc n)
        ≡ pending len buf r m ++ get_or buf (len - 1) 0 ∷ pending len buf 0 n
  unfolding pending
  pending-wrap r zero n e =
      pending_eq {r = r} {n = 0 + suc n} {m = suc n} refl (omega arith)
      ∙ ap₂ ◌∷◌ (ap (λ i. get_or buf i 0) {x = r} {y = len - 1} (omega arith))
          (pending_eq {r = next len r} {s = 0} {n = n} (ground arith) refl)
  pending-wrap r (suc m) n e =
      pending_eq {r = r} {n = suc m + suc n} {m = suc (m + suc n)} refl (omega arith)
      ∙ ap (◌∷◌ (get_or buf r 0)) (pending-wrap (next len r) m n (ground arith))

-- A read of at most `want` characters behind the first part, from a queue that does not wrap.
abbrev Rest : (want : ℕ) → List ℕ → Tty → List ℕ × Tty → Type 0
Rest want buffer t (bs, t') =
    (bs ≡ buffer ++ take want (contents t)) × (contents t' ≡ drop want (contents t)) × IsValid t'

read_rest-Rest :
    (want : ℕ) (buffer : List ℕ) (t : Tty)
    → IsValid t
    → t.read ≤ t.write
    → Rest want buffer t (read_rest want buffer t)
unfolding read_rest
read_rest-Rest want buffer t v h = elim (Bool-cases (want == 0)) [
  | inl z ↦
      let e : 0 ≡ want = ground arith in
      simp z (
        sym (append-nil buffer) ∙ ap (λ k. buffer ++ take k (contents t)) e,
        ap (λ k. drop k (contents t)) e,
        v,
      )
  | inr z ↦ elim (Bool-cases (ltb want (t.write - t.read))) [
    | inl l ↦
        simp (z, l)
          (
            ap (◌++◌ buffer) (
                copied-pending tty_queuelen t.queue t.read want (ground arith) v.storage
                ∙ sym (take-pending tty_queuelen t.queue t.read want (used t) (ground arith))),
            pending_eq tty_queuelen t.queue {r = t.read + want} refl (ground arith)
                ∙ sym (
                    drop-pending tty_queuelen t.queue t.read want (used t) (ground arith)
                      (ground arith)),
            record { read_in = ground arith; write_in = v.write_in; storage = v.storage },
          )
    | inr l ↦
        let few : length (contents t) ≤ want =
          ground (arith, length-pending tty_queuelen t.queue t.read (used t)) in
        simp (z, l)
          (
            ap (◌++◌ buffer) (
                copied-pending tty_queuelen t.queue t.read (t.write - t.read) (ground arith)
                  v.storage
                ∙ pending_eq tty_queuelen t.queue {r = t.read} refl (ground arith)
                ∙ sym (take_all (contents t) want few)),
            pending_none tty_queuelen t.queue t.write _ (ground arith)
                ∙ sym (drop_all want (contents t) few),
            record { read_in = v.write_in; write_in = v.write_in; storage = v.storage },
          )
  ]
]

-- tty_queue_read on a valid queue that does not reach round the end of its array takes out the first
-- `count` characters that wait, or all if there are fewer, and returns them in order.
pub tty_queue_read-contents :
    (count : ℕ) (t : Tty)
    → IsValid t
    → t.read ≤ t.write
    → let (bs, t') = tty_queue_read count t in
      (bs ≡ take count (contents t)) × (contents t' ≡ drop count (contents t)) × IsValid t'
unfolding tty_queue_read tty_queue_empty
tty_queue_read-contents count t v h = elim (Bool-cases (t.read == t.write)) [
  | inl e ↦
      let none_left : contents t ≡ [] =
        pending_none tty_queuelen t.queue t.read (used t) (ground arith) in
      simp e (
        sym (ap (take count) none_left ∙ take-nil count),
        none_left ∙ sym (ap (drop count) none_left ∙ drop-nil count),
        v,
      )
  | inr e ↦
      let straight : ltb t.write t.read ≡ false = ground arith in
      simp (e, straight) (read_rest-Rest count [] t v h)
]

-- tty_queue_read on a valid queue that reaches round the end of its array, for at least as many
-- characters as wait, empties it, and returns all but the one in the last slot of the array, though
-- that one waits between the others.
pub tty_queue_read-loses :
    (count : ℕ) (t : Tty)
    → IsValid t
    → t.write < t.read
    → used t ≤ count
    → let (bs, t') = tty_queue_read count t in
      let before = pending tty_queuelen t.queue t.read (tty_queuelen - 1 - t.read) in
      let behind = pending tty_queuelen t.queue 0 t.write in
      (contents t ≡ before ++ get_or t.queue (tty_queuelen - 1) 0 ∷ behind)
      × (bs ≡ before ++ behind)
      × (contents t' ≡ [])
unfolding tty_queue_read tty_queue_empty
tty_queue_read-loses count t v h enough =
    let full : ltb count (tty_queuelen - 1 - t.read) ≡ false = ground arith in
    let some_wait : (t.read == t.write) ≡ false = ground arith in
    let wraps : ltb t.write t.read ≡ true = ground arith in
    let start : Tty = record t { read = 0 } in
    let k : ℕ = tty_queuelen - 1 - t.read in
    let few : length (contents start) ≤ count - k =
      ground (arith, length-pending tty_queuelen t.queue 0 (used start)) in
    let (bs, rest, valid) =
      read_rest-Rest (count - k) (copied t k) start
        (record { read_in = omega arith; write_in = v.write_in; storage = v.storage })
        (omega arith) in
    let whole : tty_queue_read count t ≡ read_rest (count - k) (copied t k) start =
      simp (some_wait, wraps, full) refl in
    (
      pending_eq tty_queuelen t.queue {r = t.read} {n = used t} {m = k + suc t.write} refl
            (ground arith)
          ∙ pending-wrap tty_queuelen t.queue t.read k t.write (omega arith),
      ap (λ r. r.0) whole
          ∙ bs
          ∙ ap₂ ◌++◌ (copied-pending tty_queuelen t.queue t.read k (omega arith) v.storage) (
              take_all (contents start) (count - k) few
              ∙ pending_eq tty_queuelen t.queue {r = 0} refl (ground arith)),
      ap (λ r. contents r.1) whole ∙ rest ∙ drop_all (count - k) (contents start) few,
    )
