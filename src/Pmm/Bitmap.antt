-- ===== src/Pmm/Bitmap.antt =====
-- The bitmap of kernel/src/pmm.c against the set of reserved frames: what find_free_frame,
-- reserve_frame and release_frame do to it.
use stewieos.Prelude.{
  ℕ, zero, suc, ◌+◌, ◌*◌, ◌/◌, ◌%◌, ◌≤◌, ◌<◌, ◌≡◌, refl, ◌≢◌, inl, inr, Bool, true, false, ◌&&◌,
  Option, none, some, [], arith, ltb, ◌==◌, Bool-cases, if◌then◌else◌, length, length-set,
  get_or-set, set, test_bit, test_bit-set, test_bit-all_ones, all_ones,
}
use native.Mathlib.Nat.{add-zero}
use stewieos.Pmm.{Frames, word_at, find_in_word, find_from, find_free_frame, write_bit}

-- The abstract view: frame `j` is taken.
abbrev pub reserved : Frames → ℕ → Bool
reserved s j = test_bit (word_at s (j / 32)) (j % 32)

-- The bitmap has `count / 32` words of 32 bits.
pub record IsValid (s : Frames) : Type 0 where
  pub words : length s.physical_frame ≡ s.physical_frame_count / 32
  pub bits : (i : ℕ) → i < s.physical_frame_count / 32 → length (word_at s i) ≡ 32

-- The frames from `lo` up to `hi`, frame 0 left out, that come before the one found are taken.
abbrev pub Taken : Frames → (lo hi : ℕ) → Type 0
Taken s lo hi = (j : ℕ) → lo ≤ j → j < hi → j ≢ 0 → reserved s j ≡ true

abbrev pub IsFirstFree : Frames → (lo hi : ℕ) → Option ℕ → Type 0
IsFirstFree s lo hi none = Taken s lo hi
IsFirstFree s lo hi (some f) = (lo ≤ f) × (f < hi) × (f ≢ 0) × (reserved s f ≡ false) × Taken s lo f

Taken-join : (s : Frames) (lo mid hi : ℕ) → Taken s lo mid → Taken s mid hi → Taken s lo hi
Taken-join s lo mid hi a b j p q n = elim (Bool-cases (ltb j mid)) [
  | inl h ↦ a j p (ground arith) n
  | inr h ↦ b j (ground arith) q n
]

IsFirstFree-join :
    (s : Frames) (lo mid hi : ℕ) (o : Option ℕ)
    → lo ≤ mid
    → Taken s lo mid
    → IsFirstFree s mid hi o
    → IsFirstFree s lo hi o
IsFirstFree-join s lo mid hi none l a b = Taken-join s lo mid hi a b
IsFirstFree-join s lo mid hi (some f) l a (p, q, n, r, b) =
    (omega arith, q, n, r, Taken-join s lo mid f a b)

reserved_word : (s : Frames) (i k : ℕ) → k < 32 → reserved s (i * 32 + k) ≡ test_bit (word_at s i) k
reserved_word s i k h =
    let q : (i * 32 + k) / 32 ≡ i = omega arith in
    let r : (i * 32 + k) % 32 ≡ k = omega arith in λ e. test_bit (word_at s (q e)) (r e)

Taken-one :
    (s : Frames) (i m : ℕ)
    → m < 32
    → ((i * 32 + m ≢ 0) → test_bit (word_at s i) m ≡ true)
    → Taken s (i * 32 + m) (i * 32 + (m + 1))
Taken-one s i m h t j p q n =
    let e : j ≡ i * 32 + m = omega arith in rw (e, reserved_word s i m h) (t (λ z. n (omega arith)))

find_in_word-IsFirstFree :
    (s : Frames) (i m left : ℕ)
    → m + left ≡ 32
    → IsFirstFree s (i * 32 + m) (i * 32 + 32) (find_in_word (word_at s i) i m left)
unfolding find_in_word
find_in_word-IsFirstFree s i m zero e = λ j p q n. absurd (omega arith)
find_in_word-IsFirstFree s i m (suc left) e =
    let rest = find_in_word-IsFirstFree s i (m + 1) left (omega arith) in
    elim (Bool-cases ((i == 0) && (m == 0))) [
      | inl z ↦ rw z (next rest (λ n. absurd (n (ground arith))))
      | inr z ↦ rw z (elim (Bool-cases (test_bit (word_at s i) m)) [
        | inl t ↦ rw t (next rest (λ n. t))
        | inr f ↦ rw f (
          omega arith,
          omega arith,
          ground arith,
          rw (reserved_word s i m (omega arith)) f,
          λ j p q n. absurd (omega arith),
        )
      ])
    ]
  where
    next :
        IsFirstFree s (i * 32 + (m + 1)) (i * 32 + 32) (find_in_word (word_at s i) i (m + 1) left)
        → ((i * 32 + m ≢ 0) → test_bit (word_at s i) m ≡ true)
        → IsFirstFree s (i * 32 + m) (i * 32 + 32) (find_in_word (word_at s i) i (m + 1) left)
    next rest t =
        IsFirstFree-join s (i * 32 + m) (i * 32 + (m + 1)) (i * 32 + 32) _ (omega arith)
          (Taken-one s i m (omega arith) t) rest

Taken-word :
    (s : Frames) (i : ℕ)
    → length (word_at s i) ≡ 32
    → all_ones (word_at s i) ≡ true
    → Taken s (i * 32) (i * 32 + 32)
Taken-word s i l h j p q n =
    let e : j / 32 ≡ i = omega arith in
    rw e (test_bit-all_ones (word_at s i) (j % 32) h (omega (arith, l)))

IsFirstFree-or :
    (s : Frames) (lo mid hi : ℕ) (o r : Option ℕ)
    → lo ≤ mid
    → mid ≤ hi
    → IsFirstFree s lo mid o
    → IsFirstFree s mid hi r
    → IsFirstFree s lo hi (elim o [ none ↦ r | some f ↦ some f ])
IsFirstFree-or s lo mid hi none r l m a b = IsFirstFree-join s lo mid hi r l a b
IsFirstFree-or s lo mid hi (some f) r l m (p, q, n, z, t) b = (p, omega arith, n, z, t)

find_from-IsFirstFree :
    (s : Frames) (i left lo hi : ℕ)
    → IsValid s
    → i + left ≡ s.physical_frame_count / 32
    → lo ≡ i * 32
    → hi ≡ (i + left) * 32
    → IsFirstFree s lo hi (find_from s i left)
unfolding find_from
find_from-IsFirstFree s i zero lo hi v e p q = λ j a b n. absurd (omega arith)
find_from-IsFirstFree s i (suc left) lo hi v e p q =
    let rest =
      find_from-IsFirstFree s (i + 1) left (lo + 32) hi v (omega arith) (omega arith)
        (omega arith) in
    let l : lo ≤ lo + 32 = omega arith in
    elim (Bool-cases (all_ones (word_at s i))) [
      | inl a ↦ rw a (
          IsFirstFree-join s lo (lo + 32) hi _ l (rw p (Taken-word s i (v.bits i (omega arith)) a))
            rest)
      | inr a ↦ rw a (
          IsFirstFree-or s lo (lo + 32) hi _ _ l (omega arith)
            (rw p (rw add-zero at (find_in_word-IsFirstFree s i 0 32 refl))) rest)
    ]

-- find_free_frame returns the lowest free frame other than frame 0, and fails only if every frame
-- that the bitmap covers, frame 0 left out, is reserved.
pub find_free_frame-IsFirstFree :
    (s : Frames)
    → IsValid s
    → IsFirstFree s 0 (s.physical_frame_count / 32 * 32) (find_free_frame s)
unfolding find_free_frame
find_free_frame-IsFirstFree s v =
    find_from-IsFirstFree s 0 (s.physical_frame_count / 32) 0 _ v (omega arith) refl (omega arith)

module _ (s : Frames) (v : IsValid s) (i : ℕ) (h : i < s.physical_frame_count / 32 * 32) where
  in_words : i / 32 < length s.physical_frame
  in_words = omega (arith, v.words)

  in_bits : i % 32 < length (word_at s (i / 32))
  in_bits = rw (v.bits (i / 32) (omega arith)) (omega arith)

  word_at-write_bit :
      (b : Bool) (k : ℕ)
      → word_at (write_bit s i b) k
        ≡ (if i / 32 == k then set (word_at s (i / 32)) (i % 32) b else word_at s k)
  word_at-write_bit b k = get_or-set s.physical_frame (i / 32) k _ [] in_words

  -- A write of one bit changes the state of that frame and of no other.
  pub reserved-write_bit :
      (j : ℕ) (b : Bool) → reserved (write_bit s i b) j ≡ (if i == j then b else reserved s j)
  reserved-write_bit j b = elim (Bool-cases (i / 32 == j / 32)) [
    | inl e ↦
        rw (word_at-write_bit b (j / 32), e)
          (rw (test_bit-set (word_at s (i / 32)) (i % 32) (j % 32) b in_bits)
            (let d : i / 32 ≡ j / 32 = ground arith in ground arith))
    | inr e ↦ rw (word_at-write_bit b (j / 32), e) (let d : (i == j) ≡ false = ground arith in rw d)
  ]

  pub write_bit-IsValid : (b : Bool) → IsValid (write_bit s i b)
  write_bit-IsValid b = record {
    words = omega (
      arith,
      v.words,
      length-set s.physical_frame (i / 32) (set (word_at s (i / 32)) (i % 32) b),
    );
    bits =
        λ k l. ground (arith, word_at-write_bit b k, length-set (word_at s k) (i % 32) b, v.bits k);
  }
