-- ===== src/Ring.antt =====
-- Positions in a circular buffer, as kernel/src/pipe.c and kernel/src/tty.c move them: one step on,
-- back to the start behind the last slot.
use stewieos.Prelude.{
  ℕ, zero, suc, ◌+◌, ◌-◌, ◌≤◌, ◌<◌, ◌≡◌, refl, ◌≢◌, List, [], ◌∷◌, ◌++◌, arith, leb, ◌==◌,
  if◌then◌else◌, length, get_or, set, get_or-set, get_or-set_ne, ap₂, ap, ◌∙◌,
}

module _ (len : ℕ) where
  abbrev pub next : ℕ → ℕ
  next i = if i + 1 == len then 0 else i + 1

  abbrev pub prev : ℕ → ℕ
  prev i = if i == 0 then len - 1 else i - 1

  -- how many steps lead from `r` to `w`
  abbrev pub dist : (r w : ℕ) → ℕ
  dist r w = if leb r w then w - r else w + len - r

  -- the `n` values from position `r` on
  unfoldable pub pending : List ℕ → (r n : ℕ) → List ℕ
  pending buf r zero = []
  pending buf r (suc n) = get_or buf r 0 ∷ pending buf (next r) n

  pub length-pending : (buf : List ℕ) (r n : ℕ) → length (pending buf r n) ≡ n
  unfolding pending
  length-pending buf r zero = refl
  length-pending buf r (suc n) = ap suc (length-pending buf (next r) n)

  module _ (r w : ℕ) (hr : r < len) (hw : w < len) where
    pub dist_lt : dist r w < len
    dist_lt = ground arith

    pub dist_zero : dist r w ≡ 0 → r ≡ w
    dist_zero e = ground arith

    pub dist-next : dist r (next w) ≡ (if dist r w + 1 == len then 0 else dist r w + 1)
    dist-next = ground arith

    pub dist-next_left : r ≢ w → dist (next r) w + 1 ≡ dist r w
    dist-next_left n = ground arith

    pub dist-prev : r ≢ w → dist r (prev w) + 1 ≡ dist r w
    dist-prev n = ground arith

  pub next_lt : (i : ℕ) → i < len → next i < len
  next_lt i h = ground arith

  pub prev_lt : (i : ℕ) → i < len → prev i < len
  prev_lt i h = ground arith

  -- A write outside the pending values does not change them.
  pub pending-set_outside :
      (buf : List ℕ) (r w n : ℕ) (b : ℕ)
      → r < len
      → w < len
      → n ≤ dist r w
      → pending (set buf w b) r n ≡ pending buf r n
  unfolding pending
  pending-set_outside buf r w zero b hr hw h = refl
  pending-set_outside buf r w (suc n) b hr hw h =
      let ne : w ≢ r = ground arith in
      ap₂ ◌∷◌ (get_or-set_ne buf w r b 0 ne) (
        pending-set_outside buf (next r) w n b (next_lt r hr) hw
          (omega (arith, dist-next_left r w hr hw (ground arith))))

  pub pending-snoc :
      (buf : List ℕ) (r w n : ℕ)
      → r < len
      → w < len
      → dist r w ≡ n
      → pending buf r (suc n) ≡ pending buf r n ++ get_or buf w 0 ∷ []
  unfolding pending
  pending-snoc buf r w zero hr hw h = ap (λ i. get_or buf i 0 ∷ []) (dist_zero r w hr hw h)
  pending-snoc buf r w (suc n) hr hw h = ap (◌∷◌ (get_or buf r 0)) (
      pending-snoc buf (next r) w n (next_lt r hr) hw
        (omega (arith, dist-next_left r w hr hw (ground arith))))

  -- A write at the end extends the pending values by the value written.
  pub pending-set :
      (buf : List ℕ) (r w b : ℕ)
      → r < len
      → w < len
      → len ≤ length buf
      → pending (set buf w b) r (suc (dist r w)) ≡ pending buf r (dist r w) ++ b ∷ []
  pending-set buf r w b hr hw fits =
      pending-snoc (set buf w b) r w (dist r w) hr hw refl
      ∙ ap₂ ◌++◌ (pending-set_outside buf r w (dist r w) b hr hw (omega arith))
          (ap (λ v. v ∷ []) (get_or-set buf w w b 0 (omega arith) ∙ ground arith))
