-- ===== src/Block/Disk.antt =====
-- What a client of kernel/src/block.c may assume of a driver that works: its sectors of 512 bytes
-- are an array of bytes, which `read` copies out and `write` copies in. Slices of such an array.
use stewieos.Prelude.{
  ℕ, zero, suc, ◌+◌, ◌-◌, ◌*◌, ◌≤◌, ◌<◌, ◌≡◌, refl, ap, ◌∙◌, List, [], ◌∷◌, ◌++◌, arith, ltb, leb,
  ◌&&◌, if◌then◌else◌, length, get_or, take, drop, length-take, ap₂, length-drop, get_or-take,
  get_or-drop, sym,
}
use stewieos.Block.{DevId}

-- The bytes of the array.
abbrev pub Bytes : Type 0
Bytes = ℕ → ℕ

-- `n` bytes from address `a` on
unfoldable pub slice : Bytes → (a n : ℕ) → List ℕ
slice c a zero = []
slice c a (suc n) = c a ∷ slice c (a + 1) n

-- `c'` is `c` with the bytes of `buf` from address `a` on, and differs nowhere else.
abbrev pub Wrote : Bytes → Bytes → (a : ℕ) → List ℕ → Type 0
Wrote c c' a buf =
    (x : ℕ) → c' x ≡ (if leb a x && ltb x (a + length buf) then get_or buf (x - a) 0 else c x)

-- The driver's contract: inside its `sectors` every transfer succeeds.
pub record IsDisk {D : Type 0} (rd : D → DevId → ℕ → ℕ → ℕ × List ℕ)
    (wr : D → DevId → ℕ → ℕ → List ℕ → ℕ × D) (devid : DevId) : Type 0 where
  pub sectors : ℕ
  pub byte : D → Bytes
  pub read_ok :
      (d : D) (lba n : ℕ)
      → lba + n ≤ sectors
      → rd d devid lba n ≡ (0, slice (byte d) (lba * 512) (n * 512))
  pub write_ok :
      (d : D) (lba n : ℕ) (buf : List ℕ)
      → lba + n ≤ sectors
      → length buf ≡ n * 512
      → ((wr d devid lba n buf).0 ≡ 0)
        × Wrote (byte d) (byte (wr d devid lba n buf).1) (lba * 512) buf

module _ (c : Bytes) where
  pub length-slice : (a n : ℕ) → length (slice c a n) ≡ n
  unfolding slice
  length-slice a zero = refl
  length-slice a (suc n) = ap suc (length-slice (a + 1) n)

  -- Slices at equal addresses, of equal lengths.
  pub slice_eq : {a b n m : ℕ} → a ≡ b → n ≡ m → slice c a n ≡ slice c b m
  slice_eq p q = λ i. slice c (p i) (q i)

  pub slice-add : (a m n : ℕ) → slice c a (m + n) ≡ slice c a m ++ slice c (a + m) n
  unfolding slice
  slice-add a zero n = slice_eq (omega arith) (omega arith)
  slice-add a (suc m) n =
      slice_eq {b = a} {m = suc (m + n)} refl (omega arith)
      ∙ ap (◌∷◌ (c a))
          (slice-add (a + 1) m n ∙ ap (λ k. slice c (a + 1) m ++ slice c k n) (omega arith))

  -- A slice from where another ends extends it.
  pub append_slice :
      (a m n k b : ℕ) {buf : List ℕ}
      → buf ≡ slice c a m
      → b ≡ a + m
      → m + n ≡ k
      → buf ++ slice c b n ≡ slice c a k
  append_slice a m n k b p q r =
      ap₂ ◌++◌ p (slice_eq q refl) ∙ sym (slice-add a m n) ∙ slice_eq refl r

  pub take-slice : (k a n : ℕ) → k ≤ n → take k (slice c a n) ≡ slice c a k
  unfolding slice
  take-slice zero a n h = refl
  take-slice (suc k) a zero h = absurd (omega arith)
  take-slice (suc k) a (suc n) h = ap (◌∷◌ (c a)) (take-slice k (a + 1) n (omega arith))

  pub drop-slice : (k a n : ℕ) → drop k (slice c a n) ≡ slice c (a + k) (n - k)
  unfolding slice
  drop-slice zero a n = slice_eq (omega arith) (omega arith)
  drop-slice (suc k) a zero = slice_eq {a = a + suc k} {n = 0} refl (omega arith)
  drop-slice (suc k) a (suc n) = drop-slice k (a + 1) n ∙ slice_eq (omega arith) (omega arith)

  pub get_or-slice : (a n k : ℕ) → k < n → get_or (slice c a n) k 0 ≡ c (a + k)
  unfolding slice
  get_or-slice a zero k h = absurd (omega arith)
  get_or-slice a (suc n) zero h = ap c (omega arith)
  get_or-slice a (suc n) (suc k) h = get_or-slice (a + 1) n k (omega arith) ∙ ap c (omega arith)

-- A write of some bytes of a buffer, and then of the next ones behind it.
pub Wrote-extend :
    (c c' c'' : Bytes) (a b n k : ℕ) (buf : List ℕ)
    → Wrote c c' a (take n buf)
    → Wrote c' c'' b (take k (drop n buf))
    → b ≡ a + n
    → n + k ≤ length buf
    → Wrote c c'' a (take (n + k) buf)
Wrote-extend c c' c'' a b n k buf p q e h x = ground (
  arith,
  p x,
  q x,
  length-take n buf,
  length-take (n + k) buf,
  length-drop n buf,
  length-take k (drop n buf),
  get_or-take n buf (x - a) 0,
  get_or-take (n + k) buf (x - a) 0,
  get_or-take k (drop n buf) (x - b) 0,
  get_or-drop n buf (x - b) 0,
)

slice_of_bytes :
    (c : Bytes) (a : ℕ) (buf : List ℕ)
    → ((k : ℕ) → k < length buf → c (a + k) ≡ get_or buf k 0)
    → slice c a (length buf) ≡ buf
unfolding slice
slice_of_bytes c a [] h = refl
slice_of_bytes c a (b ∷ buf) h = ap₂ ◌∷◌ (ap c (omega arith) ∙ h 0 (omega arith)) (
    slice_of_bytes c (a + 1) buf
      λ k l. ap c {x = a + 1 + k} {y = a + suc k} (omega arith) ∙ h (suc k) (omega arith))

-- Reading back what was written.
pub slice-Wrote :
    (c c' : Bytes) (a : ℕ) (buf : List ℕ) → Wrote c c' a buf → slice c' a (length buf) ≡ buf
slice-Wrote c c' a buf w = slice_of_bytes c' a buf λ k h.
    let e : a + k - a ≡ k = omega arith in ground (arith, w (a + k), ap (λ m. get_or buf m 0) e)
