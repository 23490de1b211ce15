-- ===== src/Pipe/Transfer.antt =====
-- pipe_write and the copying loop of pipe_read (kernel/src/pipe.c) against a queue of bytes.
use stewieos.Prelude.{
  ℕ, zero, suc, ◌+◌, ◌≤◌, ◌<◌, ◌≡◌, refl, ◌∙◌, ap, List, [], ◌∷◌, ◌++◌, arith, length, take, drop,
  set, length-set, ◌%◌, Bool, none, if◌then◌else◌, ◌==◌, sym, Bool-cases, inl, inr, ◌≢◌, get_or,
  ◌^◌, take_all,
}
use mathlib.Core.List.{append-nil, append_assoc}
use native.Mathlib.Nat.{mod-eq_of_lt, add-mod_left}
use stewieos.Ring.{
  next, dist, pending, pending-set, dist-next, next_lt, dist_lt, length-pending, dist-next_left,
  dist_zero,
}
use stewieos.Pipe.{Pipe, write_bytes, pipe_write, drain, as_ssize}

pub record IsValid (p : Pipe) : Type 0 where
  pub read_in : p.read < p.len
  pub write_in : p.write < p.len
  pub storage : p.len ≤ length p.buffer

-- The bytes written and not yet read: how many, and which.
abbrev pub used : Pipe → ℕ
used p = dist p.len p.read p.write

abbrev pub contents : Pipe → List ℕ
contents p = pending p.len p.buffer p.read (used p)

-- What a transfer leaves alone.
pub record SameUsers (p q : Pipe) : Type 0 where
  pub len : q.len ≡ p.len
  pub nreaders : q.nreaders ≡ p.nreaders
  pub nwriters : q.nwriters ≡ p.nwriters
  pub inode : q.inode ≡ p.inode
  pub reader : q.reader ≡ p.reader

abbrev put : Pipe → ℕ → Pipe
put p b = record p { buffer = set p.buffer p.write b; write = next p.len p.write }

put-IsValid : (p : Pipe) (b : ℕ) → IsValid p → IsValid (put p b)
put-IsValid p b v = record {
  read_in = v.read_in;
  write_in = next_lt p.len p.write v.write_in;
  storage = omega (arith, v.storage, length-set p.buffer p.write b);
}

used-put :
    (p : Pipe) (b : ℕ)
    → IsValid p
    → used (put p b) ≡ (if used p + 1 == p.len then 0 else used p + 1)
used-put p b v = dist-next p.len p.read p.write v.read_in v.write_in

contents-put :
    (p : Pipe) (b : ℕ) → IsValid p → used p + 1 < p.len → contents (put p b) ≡ contents p ++ b ∷ []
contents-put p b v h =
    let e : used (put p b) ≡ suc (used p) = ground (arith, used-put p b v) in
    ap (pending p.len (set p.buffer p.write b) p.read) e
    ∙ pending-set p.len p.buffer p.read p.write b v.read_in v.write_in v.storage

pub write_bytes-IsValid : (bs : List ℕ) (p : Pipe) → IsValid p → IsValid (write_bytes bs p)
unfolding write_bytes
write_bytes-IsValid [] p v = v
write_bytes-IsValid (b ∷ bs) p v = write_bytes-IsValid bs (put p b) (put-IsValid p b v)

pub write_bytes-SameUsers : (bs : List ℕ) (p : Pipe) → SameUsers p (write_bytes bs p)
unfolding write_bytes
write_bytes-SameUsers [] p = record {
  len = refl;
  nreaders = refl;
  nwriters = refl;
  inode = refl;
  reader = refl;
}
write_bytes-SameUsers (b ∷ bs) p =
    let s = write_bytes-SameUsers bs (put p b) in
    record {
      len = s.len;
      nreaders = s.nreaders;
      nwriters = s.nwriters;
      inode = s.inode;
      reader = s.reader;
    }

pub contents-write_bytes :
    (bs : List ℕ) (p : Pipe)
    → IsValid p
    → used p + length bs < p.len
    → contents (write_bytes bs p) ≡ contents p ++ bs
unfolding write_bytes
contents-write_bytes [] p v h = sym (append-nil (contents p))
contents-write_bytes (b ∷ bs) p v h =
    contents-write_bytes bs (put p b) (put-IsValid p b v) (ground (arith, used-put p b v))
    ∙ ap (λ c. c ++ bs) (contents-put p b v (omega arith))
    ∙ append_assoc (contents p) (b ∷ []) bs

used-write_bytes :
    (bs : List ℕ) (p : Pipe) → IsValid p → used (write_bytes bs p) ≡ (used p + length bs) % p.len
unfolding write_bytes
used-write_bytes [] p v = sym (
    ap (λ k. k % p.len) {x = used p + 0} {y = used p} (omega arith)
    ∙ mod-eq_of_lt (dist_lt p.len p.read p.write v.read_in v.write_in))
used-write_bytes (b ∷ bs) p v =
    used-write_bytes bs (put p b) (put-IsValid p b v) ∙ elim (Bool-cases (used p + 1 == p.len)) [
      | inl full ↦
          let e : used (put p b) ≡ 0 = ground (arith, used-put p b v) in
          let s : used p + suc (length bs) ≡ p.len + length bs = ground arith in
          rw (e, s)
            (ap (λ k. k % p.len) {x = 0 + length bs} {y = length bs} (omega arith)
              ∙ sym (add-mod_left p.len (length bs)))
      | inr room ↦
          let e : used (put p b) ≡ used p + 1 = ground (arith, used-put p b v) in
          rw e (ap (λ k. k % p.len) {x = used p + 1 + length bs} (omega arith))
    ]

-- What the copying loop takes out of the pipe.
pub record Drained (want : ℕ) (p : Pipe) (r : List ℕ × Pipe) : Type 0 where
  pub bytes : r.0 ≡ take want (contents p)
  pub left : contents r.1 ≡ drop want (contents p)
  pub valid : IsValid r.1
  pub users : SameUsers p r.1
  pub same_write : r.1.write ≡ p.write

abbrev pub behind : Pipe → Pipe
behind p = record p { read = next p.len p.read }

-- The contents of an empty pipe, and of another by its first byte.
pub contents_empty : (p : Pipe) → p.read ≡ p.write → contents p ≡ []
unfolding pending
contents_empty p e = let z : used p ≡ 0 = ground arith in ap (pending p.len p.buffer p.read) z

pub contents_first :
    (p : Pipe)
    → IsValid p
    → p.read ≢ p.write
    → contents p ≡ get_or p.buffer p.read 0 ∷ contents (behind p)
unfolding pending
contents_first p v n =
    let z : used p ≡ suc (used (behind p)) =
      omega (arith, dist-next_left p.len p.read p.write v.read_in v.write_in n) in
    ap (pending p.len p.buffer p.read) z

take-nil : (n : ℕ) → take {A = ℕ} n [] ≡ []
take-nil zero = refl
take-nil (suc n) = refl

pub drain-Drained : (want : ℕ) (p : Pipe) → IsValid p → Drained want p (drain want p)
unfolding drain
drain-Drained zero p v = record {
  bytes = refl;
  left = refl;
  valid = v;
  users = record { len = refl; nreaders = refl; nwriters = refl; inode = refl; reader = refl };
  same_write = refl;
}
drain-Drained (suc want) p v = elim (Bool-cases (p.read == p.write)) [
  | inl e ↦
      let none_left : contents p ≡ [] = contents_empty p (ground arith) in
      rw e (record {
        bytes = sym (ap (take (suc want)) none_left);
        left = none_left ∙ sym (ap (drop (suc want)) none_left);
        valid = v;
        users = record {
          len = refl;
          nreaders = refl;
          nwriters = refl;
          inode = refl;
          reader = refl;
        };
        same_write = refl;
      })
  | inr e ↦
      let first = contents_first p v (ground arith) in
      let ih = drain-Drained want (behind p) (record {
        read_in = next_lt p.len p.read v.read_in;
        write_in = v.write_in;
        storage = v.storage;
      }) in
      rw e (record {
        bytes = ap (◌∷◌ (get_or p.buffer p.read 0)) ih.bytes ∙ sym (ap (take (suc want)) first);
        left = ih.left ∙ sym (ap (drop (suc want)) first);
        valid = ih.valid;
        users = record {
          len = ih.users.len;
          nreaders = ih.users.nreaders;
          nwriters = ih.users.nwriters;
          inode = ih.users.inode;
          reader = ih.users.reader;
        };
        same_write = ih.same_write;
      })
]

-- pipe_write of less than 2 ^ 31 bytes on a valid pipe returns their number, keeps the pipe valid and its users
-- as they were, and wakes the reader exactly if there is one and it waits. The number of bytes that
-- wait to be read grows by that count only up to a multiple of the buffer's length; where the bytes
-- fit in with one slot to spare, they are appended, in order, to what waits to be read.
pub pipe_write_lem :
    (waiting : Bool) (bytes : List ℕ) (p : Pipe)
    → IsValid p
    → length bytes < 2 ^ 31
    → let (n, p', woken) = pipe_write waiting bytes p in
      (n ≡ length bytes)
      × IsValid p'
      × SameUsers p p'
      × (woken ≡ (if waiting then p.reader else none))
      × (used p' ≡ (used p + length bytes) % p.len)
      × (used p + length bytes < p.len → contents p' ≡ contents p ++ bytes)
unfolding pipe_write
pipe_write_lem waiting bytes p v small =
    let e : as_ssize (length bytes) ≡ length bytes = ground (arith, small) in
    rw (e, take_all bytes (length bytes) (omega arith))
      (
        refl,
        write_bytes-IsValid bytes p v,
        write_bytes-SameUsers bytes p,
        ap (λ r. if waiting then r else none) (write_bytes-SameUsers bytes p).reader,
        used-write_bytes bytes p v,
        contents-write_bytes bytes p v,
      )

-- A write of as many bytes as the buffer has slots, into an empty pipe, leaves it empty: every byte
-- is lost, though the call returns their number, which is below 2 ^ 31.
pub pipe_write-loses :
    (waiting : Bool) (bytes : List ℕ) (p : Pipe)
    → IsValid p
    → contents p ≡ []
    → length bytes ≡ p.len
    → length bytes < 2 ^ 31
    → let (n, p', woken) = pipe_write waiting bytes p in (n ≡ length bytes) × (contents p' ≡ [])
pipe_write-loses waiting bytes p v e l small =
    let p' : Pipe = (pipe_write waiting bytes p).1 in
    let q = pipe_write_lem waiting bytes p v small in
    let z : used p ≡ 0 =
      omega (arith, length-pending p.len p.buffer p.read (used p), ap length e) in
    let m : (used p + length bytes) % p.len ≡ 0 =
      rw (z, l)
        (ap (λ k. k % p.len) {x = 0 + p.len} {y = p.len + 0} (omega arith)
          ∙ add-mod_left p.len 0
          ∙ mod-eq_of_lt (omega (arith, v.read_in))) in
    (q.0, contents_empty p' (dist_zero p'.len p'.read p'.write q.1.read_in q.1.write_in (q.4 ∙ m)))
