-- ===== src/Tty/Queue.antt =====
-- tty_queue_insert and tty_queue_getchar of kernel/src/tty.c against a list of characters.
use stewieos.Prelude.{
  ℕ, zero, suc, ◌+◌, ◌-◌, ◌≤◌, ◌<◌, ◌≡◌, refl, ◌≢◌, ◌∙◌, ap, sym, Bool, true, false, not, ◌&&◌,
  ◌||◌, List, [], ◌∷◌, ◌++◌, arith, ◌==◌, if◌then◌else◌, length, length-set, set, get_or, take, inl,
  inr, Bool-cases,
}
use stewieos.Ring.{
  next, dist, pending, pending-set, next_lt, prev_lt, dist-next, dist-prev, dist-next_left,
}
use stewieos.Tty.{
  Tty, tty_queuelen, translate, tty_queue_empty, tty_queue_insert, tty_queue_getchar, store, erase,
  erases, echoes, wake, insert_translated,
}

pub record IsValid (t : Tty) : Type 0 where
  pub read_in : t.read < tty_queuelen
  pub write_in : t.write < tty_queuelen
  pub storage : tty_queuelen ≤ length t.queue

-- The characters that wait: how many, and which.
abbrev pub used : Tty → ℕ
used t = dist tty_queuelen t.read t.write

abbrev pub contents : Tty → List ℕ
contents t = pending tty_queuelen t.queue t.read (used t)

pub take-pending :
    (len : ℕ) (buf : List ℕ) (r k n : ℕ)
    → k ≤ n
    → take k (pending len buf r n) ≡ pending len buf r k
unfolding pending
take-pending len buf r zero n h = refl
take-pending len buf r (suc k) zero h = absurd (omega arith)
take-pending len buf r (suc k) (suc n) h =
    ap (◌∷◌ (get_or buf r 0)) (take-pending len buf (next len r) k n (omega arith))

pub take-nil : (n : ℕ) → take {A = ℕ} n [] ≡ []
take-nil zero = refl
take-nil (suc n) = refl

pub pending_none : (len : ℕ) (buf : List ℕ) (r n : ℕ) → n ≡ 0 → pending len buf r n ≡ []
unfolding pending
pending_none len buf r zero e = refl
pending_none len buf r (suc n) e = absurd (omega arith)

-- What an insertion of the translated character `c` does to the queue and to the reader.
pub record Placed (waiting : Bool) (c : ℕ) (t t' : Tty) : Type 0 where
  pub valid : IsValid t'
  pub erased : erases t.termios c ≡ true → contents t' ≡ take (used t - 1) (contents t)
  pub stored :
      erases t.termios c ≡ false → used t + 1 < tty_queuelen → contents t' ≡ contents t ++ c ∷ []
  pub overrun : erases t.termios c ≡ false → used t + 1 ≡ tty_queuelen → contents t' ≡ []
  pub woken : t'.woken ≡ (
      if not (erases t.termios c) && ((c == t.termios.veol) || not t.termios.icanon)
      then wake waiting t.task t.woken
      else t.woken)

first_absurd : {c : ℕ} {cs : List ℕ} → c ∷ cs ≢ []
first_absurd = cc

module _ (t : Tty) (v : IsValid t) where
  store-IsValid : (waiting : Bool) (c : ℕ) → IsValid (store waiting c t)
  unfolding store
  store-IsValid waiting c = record {
    read_in = v.read_in;
    write_in = next_lt tty_queuelen t.write v.write_in;
    storage = omega (arith, v.storage, length-set t.queue t.write c);
  }

  used-store :
      (waiting : Bool) (c : ℕ)
      → used (store waiting c t) ≡ (if used t + 1 == tty_queuelen then 0 else used t + 1)
  unfolding store
  used-store waiting c = dist-next tty_queuelen t.read t.write v.read_in v.write_in

  contents-store :
      (waiting : Bool) (c : ℕ)
      → used t + 1 < tty_queuelen
      → contents (store waiting c t) ≡ contents t ++ c ∷ []
  unfolding store
  contents-store waiting c h =
      let e : used (store waiting c t) ≡ suc (used t) = ground (arith, used-store waiting c) in
      ap (pending tty_queuelen (set t.queue t.write c) t.read) e
      ∙ pending-set tty_queuelen t.queue t.read t.write c v.read_in v.write_in v.storage

  erase-IsValid : IsValid (erase t)
  unfolding erase
  erase-IsValid = record {
    read_in = v.read_in;
    write_in = prev_lt tty_queuelen t.write v.write_in;
    storage = v.storage;
  }

  contents-erase : t.read ≢ t.write → contents (erase t) ≡ take (used t - 1) (contents t)
  unfolding erase
  contents-erase n =
      let e : used (erase t) ≡ used t - 1 =
        omega (arith, dist-prev tty_queuelen t.read t.write v.read_in v.write_in n) in
      ap (pending tty_queuelen t.queue t.read) e
      ∙ sym (take-pending tty_queuelen t.queue t.read (used t - 1) (used t) (omega arith))

  contents_first :
      t.read ≢ t.write
      → contents t
        ≡ get_or t.queue t.read 0 ∷ contents (record t { read = next tty_queuelen t.read })
  unfolding pending
  contents_first n =
      let e : used t ≡ suc (dist tty_queuelen (next tty_queuelen t.read) t.write) =
        omega (arith, dist-next_left tty_queuelen t.read t.write v.read_in v.write_in n) in
      ap (pending tty_queuelen t.queue t.read) e

  -- tty_queue_getchar on a valid queue gives -1 and changes nothing if no character waits; else it
  -- takes the first of those that wait.
  pub tty_queue_getchar_lem :
      let (c, t') = tty_queue_getchar t in
      (contents t ≡ [] → (c ≡ 255) × (t' ≡ t)) × (contents t ≢ [] → contents t ≡ c ∷ contents t')
  unfolding tty_queue_getchar tty_queue_empty
  tty_queue_getchar_lem = elim (Bool-cases (t.read == t.write)) [
    | inl e ↦ rw e (
      λ h. (refl, refl),
      λ h. absurd (h (pending_none tty_queuelen t.queue t.read (used t) (ground arith))),
    )
    | inr e ↦ rw e (
      λ h. absurd (first_absurd (sym (contents_first (ground arith)) ∙ h)),
      λ h. contents_first (ground arith),
    )
  ]

  store-Placed :
      (waiting : Bool) (c : ℕ) → erases t.termios c ≡ false → Placed waiting c t (store waiting c t)
  unfolding store
  store-Placed waiting c x = record {
    valid = store-IsValid waiting c;
    erased = λ y. absurd (ground arith);
    stored = λ y h. contents-store waiting c h;
    overrun = λ y h.
        pending_none tty_queuelen (set t.queue t.write c) t.read _
          (ground (arith, used-store waiting c));
    woken = ground arith;
  }

  erase-Placed :
      (waiting : Bool) (c : ℕ)
      → erases t.termios c ≡ true
      → t.read ≢ t.write
      → Placed waiting c t (erase t)
  unfolding erase
  erase-Placed waiting c x n = record {
    valid = erase-IsValid;
    erased = λ y. contents-erase n;
    stored = λ y h. absurd (ground arith);
    overrun = λ y h. absurd (ground arith);
    woken = ground arith;
  }

  stay-Placed :
      (waiting : Bool) (c : ℕ) → erases t.termios c ≡ true → t.read ≡ t.write → Placed waiting c t t
  stay-Placed waiting c x e =
      let none_left : contents t ≡ [] =
        pending_none tty_queuelen t.queue t.read (used t) (ground arith) in
      record {
        valid = v;
        erased = λ y. none_left ∙ sym (ap (take (used t - 1)) none_left ∙ take-nil (used t - 1));
        stored = λ y h. absurd (ground arith);
        overrun = λ y h. absurd (ground arith);
        woken = ground arith;
      }

  Placed-echo :
      (waiting : Bool) (c : ℕ) (t' : Tty) (cs : List ℕ)
      → Placed waiting c t t'
      → Placed waiting c t (record t' { echoed = cs })
  Placed-echo waiting c t' cs p = record {
    valid = record {
      read_in = p.valid.read_in;
      write_in = p.valid.write_in;
      storage = p.valid.storage;
    };
    erased = p.erased;
    stored = p.stored;
    overrun = p.overrun;
    woken = p.woken;
  }

  echo_if-Placed :
      (b waiting : Bool) (c : ℕ) (t' : Tty)
      → Placed waiting c t t'
      → Placed waiting c t (if b then record t' { echoed = c ∷ t'.echoed } else t')
  echo_if-Placed true waiting c t' p = Placed-echo waiting c t' (c ∷ t'.echoed) p
  echo_if-Placed false waiting c t' p = p

  insert_translated-Placed :
      (waiting : Bool) (c : ℕ) → Placed waiting c t (insert_translated waiting c t)
  unfolding insert_translated tty_queue_empty
  insert_translated-Placed waiting c = elim (Bool-cases (erases t.termios c)) [
    | inr x ↦ simp x (echo_if-Placed (echoes t.termios c) waiting c _ (store-Placed waiting c x))
    | inl x ↦ elim (Bool-cases (t.read == t.write)) [
      | inl e ↦ simp (x, e) (stay-Placed waiting c x (ground arith))
      | inr e ↦
          simp (x, e)
            (echo_if-Placed (echoes t.termios c) waiting c _
              (erase-Placed waiting c x (ground arith)))
    ]
  ]

  -- tty_queue_insert on a valid queue keeps it valid. A character that erases takes back the last one
  -- that waits, if there is one. Any other, once translated, is appended if a slot is left beside the
  -- one kept free; without one, every character that waits is lost. A sleeping reader is woken by the
  -- end of a line, and outside canonical mode by every character that is stored.
  pub tty_queue_insert-Placed :
      (waiting : Bool) (c : ℕ)
      → Placed waiting (translate t.termios c) t (tty_queue_insert waiting c t)
  unfolding tty_queue_insert
  tty_queue_insert-Placed waiting c = insert_translated-Placed waiting (translate t.termios c)
