-- ===== src/Kheap/Align.antt =====
-- heap_trim of kernel/src/kheap.c on every path, the split at a page boundary included.
use stewieos.Prelude.{
  ◌==◌, true, false, leb, ltb, ◌&&◌, ◌||◌, none, some, ◌-◌, ℕ, ◌%◌, Bool, ◌≡◌, ◌≤◌, ◌+◌, Option,
  Bool-cases, true, some, ltb, ◌<◌, ◌-◌, inl, arith, inr, refl, sym, ◌^◌, ◌*◌, ==_iff,
}
use stewieos.Kheap.{
  word, page_offset, Heap, inserted, minus, trim_rest, align_split, aligned_head, heap_trim, word,
}
use stewieos.Kheap.Combine.{IsHeap}
use stewieos.Kheap.Trim.{Chosen, cut-Chosen, trans-Chosen, trim_rest-Chosen, same-Chosen}

-- A header that aligned_head does not put before itself: it does not lie in the last 16 bytes of a
-- page, save at their first.
abbrev pub Splits : ℕ → Type 0
Splits head = head % 4096 ≤ 4080

-- A block that a request can have: a hole with room for it, aligned where that is wanted.
abbrev pub Serves :
    (b : ℕ → Bool) (h : Heap) (reqd : ℕ) (align : Bool) (head : ℕ) (h' : Heap) → Type 0
Serves b h reqd align head h' =
    Chosen b h (reqd + 24) head h' × (align ≡ true → (head + 16) % 4096 ≡ 0)

-- what heap_trim returns; `none` leaves the heap as it is
abbrev pub TrimSpec :
    (b : ℕ → Bool) (h : Heap) (reqd : ℕ) (align : Bool) → Option (ℕ × Heap) → Type 0
TrimSpec b h reqd align none = align ≡ true
TrimSpec b h reqd align (some (head, h')) = Serves b h reqd align head h'

pub trim_rest-head : (head reqd : ℕ) (h : Heap) → (trim_rest head reqd h).0 ≡ head
unfolding trim_rest
trim_rest-head head reqd h = elim (Bool-cases (ltb (h.sizes head) (word (reqd + 24 + 24)))) [
  | inl e ↦ rw e refl
  | inr e ↦ rw e refl
]

module _ {b : ℕ → Bool} (h : Heap) (g : IsHeap b h) (head : ℕ)
    (is_hole : inserted head h.holes ≡ true) where
  align_split-Chosen :
      (need : ℕ)
      → Splits head
      → 24 < minus (aligned_head head) head
      → need ≤ minus (h.sizes head) (minus (aligned_head head) head)
      → minus (aligned_head head) head ≤ h.sizes head
      → 24 ≤ need
      → Chosen b h need (aligned_head head) (align_split head h)
  unfolding align_split
  align_split-Chosen need s k le below lo =
      let temp = aligned_head head in
      let ek : minus temp head ≡ temp - head = ground arith in
      let er : minus (h.sizes head) (minus temp head) ≡ h.sizes head - (temp - head) =
        ground arith in
      let et : head + (temp - head) ≡ temp = omega arith in
      rw (er, ek)
        (rw et at (
          cut-Chosen h g head is_hole (temp - head) (h.sizes head - (temp - head)) temp head need
            (omega arith) (omega arith) (omega arith) (inr (sym et, refl, omega arith))))

  -- heap_trim: for an aligned block the hole must not lie in the last bytes of a page, and the request
  -- must be about a page.
  pub heap_trim-TrimSpec :
      (reqd : ℕ) (align : Bool)
      → reqd + 48 < 2 ^ 32
      → reqd + 24 ≤ h.sizes head
      → (align ≡ true → Splits head × (4056 ≤ reqd))
      → TrimSpec b h reqd align (heap_trim head reqd align h)
  unfolding heap_trim
  heap_trim-TrimSpec reqd false small le al =
      let e1 : word (reqd + 24 * 2) ≡ reqd + 48 = omega arith in
      let c = trim_rest-Chosen h head reqd g is_hole small le in
      elim (Bool-cases (leb (h.sizes head) (reqd + 48))) [
        | inl e ↦ rw (e1, e) (same-Chosen h head (reqd + 24) g is_hole le, λ f. ground arith)
        | inr e ↦ rw (e1, e) (c, λ f. ground arith)
      ]
  heap_trim-TrimSpec reqd true small le al =
      let temp = aligned_head head in
      let e0 : (leb (h.sizes head) (word (reqd + 24 * 2)) && false) ≡ false = ground arith in
      let e1 : word (reqd + 24) ≡ reqd + 24 = omega arith in
      elim (Bool-cases (page_offset (head + 16) == 0)) [
        | inl e ↦
            rw (e0, e)
              (
                trim_rest-Chosen h head reqd g is_hole small le,
                λ z. rw (trim_rest-head head reqd h) ((==_iff ((head + 16) % 4096) 0).0 e),
              )
        | inr e ↦
            elim (Bool-cases (
              leb (minus temp head) 24
              || ltb (minus (h.sizes head) (minus temp head)) (word (reqd + 24)))) [
                | inl f ↦ rw (e0, e, f) refl
                | inr f ↦
                    rw (e0, e, f)
                      (let (sp, big) = al refl in
                        let a =
                          align_split-Chosen (reqd + 24) sp (ground arith) (ground arith)
                            (ground arith) (omega arith) in
                        let c =
                          trim_rest-Chosen (align_split head h) temp reqd a.heap a.is_hole small
                            a.big in
                        (
                          trans-Chosen a c,
                          λ z. rw (trim_rest-head temp reqd (align_split head h)) (omega arith),
                        ))
              ]
      ]
