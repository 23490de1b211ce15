-- ===== src/Kheap/Scan.antt =====
-- The loop of heap_locate in kernel/src/kheap.c over the list of holes.
use stewieos.Prelude.{
  ℕ, ◌+◌, ◌≤◌, ◌<◌, ◌≡◌, inl, inr, Bool, true, false, Option, none, some, arith, Bool-cases, leb,
  ◌==◌, List, [], ◌∷◌, ◌%◌,
}
use stewieos.Kheap.{Heap, inserted, word, Search, search_holes}
use stewieos.Kheap.Combine.{IsHeap}
use stewieos.Kheap.Align.{Splits, Serves, TrimSpec, heap_trim-TrimSpec}
use stewieos.Kheap.Expand.{Small}

-- What an aligned request needs: about a page, a heap of whole pages, and no hole whose header lies in
-- the last bytes of a page.
pub record CanAlign (reqd : ℕ) (h : Heap) : Type 0 where
  pub page : 4056 ≤ reqd
  pub start_page : h.memstart % 4096 ≡ 0
  pub end_page : h.memend % 4096 ≡ 0
  pub max_page : h.memmax % 4096 ≡ 0
  pub splits : (x : ℕ) → inserted x h.holes ≡ true → Splits x

abbrev pub SearchSpec :
    (b : ℕ → Bool) (h : Heap) (reqd : ℕ) (align : Bool) (items : List ℕ) → Search → Type 0
SearchSpec b h reqd align items (Search.corrupt x) = ⊥
SearchSpec b h reqd align items (Search.found x h') = Serves b h reqd align x h'
SearchSpec b h reqd align items Search.nothing =
    align ≡ false → (x : ℕ) → inserted x items ≡ true → h.sizes x < reqd + 24

-- one hole, by what heap_trim returns for it
trimmed-SearchSpec :
    (b : ℕ → Bool) (h : Heap) (reqd : ℕ) (align : Bool) (x : ℕ) (items : List ℕ) (rest : Search)
    → SearchSpec b h reqd align items rest
    → (o : Option (ℕ × Heap)) → TrimSpec b h reqd align o
    → SearchSpec b h reqd align
        (x ∷ items)
        (elim o [ none ↦ rest | some (c, h') ↦ Search.found c h' ])
unfolding inserted
trimmed-SearchSpec b h reqd align x items (Search.corrupt c) r none t = r
trimmed-SearchSpec b h reqd align x items (Search.found c h') r none t = r
trimmed-SearchSpec b h reqd align x items Search.nothing r none t = λ e. ground arith
trimmed-SearchSpec b h reqd align x items rest r (some (c, h')) t = t

-- a hole that is too small
small-SearchSpec :
    (b : ℕ → Bool) (h : Heap) (reqd : ℕ) (align : Bool) (x : ℕ) (items : List ℕ) (rest : Search)
    → SearchSpec b h reqd align items rest
    → h.sizes x < reqd + 24
    → SearchSpec b h reqd align (x ∷ items) rest
unfolding inserted
small-SearchSpec b h reqd align x items (Search.corrupt c) r lt = r
small-SearchSpec b h reqd align x items (Search.found c h') r lt = r
small-SearchSpec b h reqd align x items Search.nothing r lt =
    λ e y i. elim (Bool-cases (x == y)) [ inl f ↦ ground arith | inr f ↦ r e y (ground arith) ]

module _ {b : ℕ → Bool} (h : Heap) (g : IsHeap b h) (reqd : ℕ) (align : Bool) (small : Small reqd)
    (can : align ≡ true → CanAlign reqd h) where
  pub search_holes-SearchSpec :
      (items : List ℕ)
      → ((x : ℕ) → inserted x items ≡ true → inserted x h.holes ≡ true)
      → SearchSpec b h reqd align items (search_holes reqd align items h)
  unfolding search_holes inserted
  search_holes-SearchSpec [] sub = λ e x i. ground arith
  search_holes-SearchSpec (x ∷ items) sub =
      let ih = search_holes-SearchSpec items (λ y i. sub y (ground arith)) in
      let i = sub x (ground arith) in
      let (m1, m2) = g.tiled.signed x (g.hole x i) in
      let e1 : word (reqd + 24) ≡ reqd + 24 = omega arith in
      let t = λ (le : reqd + 24 ≤ h.sizes x).
        heap_trim-TrimSpec h g x i reqd align (omega arith) le
          (λ f. ((can f).splits x i, (can f).page)) in
      rw (m1, m2, e1)
        (elim (Bool-cases (leb (reqd + 24) (h.sizes x))) [
          | inl e ↦ rw e (
              trimmed-SearchSpec b h reqd align x items (search_holes reqd align items h) ih _
                (t (ground arith)))
          | inr e ↦ rw e (
              small-SearchSpec b h reqd align x items (search_holes reqd align items h) ih
                (ground arith))
        ])
