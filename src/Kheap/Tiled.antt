-- ===== src/Kheap/Tiled.antt =====
-- The blocks that tile a kernel heap. Which addresses start a block is a function that the code does
-- not poke: `blocks`. Writing one header makes one block of two, two of one, or appends one.
use stewieos.Prelude.{
  ℕ, Bool, ◌≡◌, ◌≤◌, true, ◌+◌, if◌then◌else◌, ◌⊎◌, ◌==◌, false, arith, ◌≢◌, ◌<◌,
}
use stewieos.Kheap.{Heap, head_init}

-- Every block lies in [memstart, memend) with room for its header and footer, is followed by a block
-- or by the end, is found by its footer, and overlaps no other.
pub record IsTiled (blocks : ℕ → Bool) (h : Heap) : Type 0 where
  pub within :
      (x : ℕ) → blocks x ≡ true → (h.memstart ≤ x) × (24 ≤ h.sizes x) × (x + h.sizes x ≤ h.memend)
  pub followed :
      (x : ℕ) → blocks x ≡ true → (x + h.sizes x ≡ h.memend) ⊎ (blocks (x + h.sizes x) ≡ true)
  pub footed :
      (x : ℕ)
      → (x ≡ h.memend) ⊎ (blocks x ≡ true)
      → h.memstart ≢ x
      → (blocks (h.foot_headers x) ≡ true) × (h.foot_headers x + h.sizes (h.foot_headers x) ≡ x)
  pub apart : (x y : ℕ) → blocks x ≡ true → blocks y ≡ true → x < y → x + h.sizes x ≤ y
  pub signed :
      (x : ℕ)
      → blocks x ≡ true
      → (h.magics x ≡ 732803074) × (h.foot_magics (x + h.sizes x) ≡ 732803074)
  pub ordered : h.memstart ≤ h.memend

-- a set of addresses with one more, and with one less
abbrev pub mark : (ℕ → Bool) → (k : ℕ) (v : Bool) → ℕ → Bool
mark b k v = λ x. if k == x then v else b x

module _ {b : ℕ → Bool} {h : Heap} (t : IsTiled b h) where
  -- Two blocks that meet become one.
  pub merge-IsTiled :
      (p q : ℕ)
      → b p ≡ true
      → b q ≡ true
      → p + h.sizes p ≡ q
      → IsTiled (mark b q false) (head_init p (h.sizes p + h.sizes q) h)
  unfolding head_init
  merge-IsTiled p q bp bq e = record {
    within = λ x bx. ground (arith, t.within x, t.within p bp, t.within q bq);
    followed = λ x bx. ground (
      arith,
      t.followed x,
      t.within x,
      t.followed q bq,
      t.within p bp,
      t.within q bq,
      t.apart x p,
      t.apart p x,
    );
    footed = λ x bx n. ground (arith, t.footed x, t.within p bp, t.within q bq, t.within x);
    apart = λ x y bx by lt. ground (arith, t.apart x y, t.apart p y, t.apart q y);
    signed = λ x bx. ground (arith, t.signed x, t.signed p bp, t.signed q bq, t.within q bq);
    ordered = t.ordered;
  }

  -- One block becomes two.
  pub split-IsTiled :
      (p k r : ℕ)
      → b p ≡ true
      → 24 ≤ k
      → 24 ≤ r
      → k + r ≡ h.sizes p
      → IsTiled (mark b (p + k) true) (head_init p k (head_init (p + k) r h))
  unfolding head_init
  split-IsTiled p k r bp lo lr e = record {
    within = λ x bx. ground (arith, t.within x, t.within p bp);
    followed = λ x bx. ground (arith, t.followed x, t.followed p bp, t.within p bp);
    footed = λ x bx n. ground (
      arith,
      t.footed x,
      t.within p bp,
      t.within x,
      t.within (h.foot_headers x),
      t.apart p (h.foot_headers x),
    );
    apart = λ x y bx by lt. ground (
      arith,
      t.apart x y,
      t.apart p y,
      t.apart x p,
      t.apart p x,
      t.within p bp,
      t.within x,
      t.within y,
    );
    signed = λ x bx. ground (arith, t.signed x, t.signed p bp, t.within p bp);
    ordered = t.ordered;
  }

  -- A block is added at the end.
  pub append-IsTiled :
      (size : ℕ)
      → 24 ≤ size
      → IsTiled
          (mark b h.memend true)
          (record (head_init h.memend size h) { memend = h.memend + size })
  unfolding head_init
  append-IsTiled size lo = record {
    within = λ x bx. ground (arith, t.within x, t.ordered);
    followed = λ x bx. ground (arith, t.followed x, t.within x);
    footed = λ x bx n. ground (arith, t.footed x, t.within x, t.footed h.memend);
    apart = λ x y bx by lt. ground (arith, t.apart x y, t.within x, t.within y);
    signed = λ x bx. ground (arith, t.signed x, t.within x);
    ordered = omega (arith, t.ordered);
  }
