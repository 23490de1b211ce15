-- ===== src/Kheap/Combine.antt =====
-- The two loops of heap_free_nolock in kernel/src/kheap.c that combine a block with its neighbours.
use stewieos.Prelude.{
  ℕ, zero, suc, ◌+◌, ◌≤◌, ◌≡◌, ◌≢◌, refl, Bool, true, false, ◌==◌, Bool-cases, arith, not, ◌&&◌,
  ◌∙◌, ◌⊎◌, inr, inl,
}
use stewieos.Kheap.{Heap, head_init, inserted, combine_backwards, combine_forwards, list_rem}
use stewieos.Kheap.Tiled.{IsTiled, mark, merge-IsTiled}
use stewieos.Kheap.Holes.{inserted-remove_hole}

-- The blocks tile the heap, and every hole is a block.
pub record IsHeap (blocks : ℕ → Bool) (h : Heap) : Type 0 where
  pub tiled : IsTiled blocks h
  pub hole : (x : ℕ) → inserted x h.holes ≡ true → blocks x ≡ true

-- A block that is not a hole has grown to the block `head'`. Every other block that was in use still
-- is, with the same size.
pub record Grown (b : ℕ → Bool) (h : Heap) (head head' : ℕ) (h' : Heap) : Type 0 where
  pub blocks : ℕ → Bool
  pub heap : IsHeap blocks h'
  pub here : blocks head' ≡ true
  pub out : inserted head' h'.holes ≡ false
  pub covers : (head' ≤ head) × (head + h.sizes head ≤ head' + h'.sizes head')
  pub kept :
      (y : ℕ)
      → b y ≡ true
      → inserted y h.holes ≡ false
      → head ≢ y
      → (blocks y ≡ true) × (inserted y h'.holes ≡ false) × (h'.sizes y ≡ h.sizes y) × (head' ≢ y)
  pub ends : (h'.memstart ≡ h.memstart) × (h'.memend ≡ h.memend)
  pub rest : (h'.memmax ≡ h.memmax) × (h'.locked ≡ h.locked)

pub same-Grown :
    {b : ℕ → Bool} {h : Heap} {head : ℕ}
    → IsHeap b h
    → b head ≡ true
    → inserted head h.holes ≡ false
    → Grown b h head head h
same-Grown {b} g here out = record {
  blocks = b;
  heap = g;
  here = here;
  out = out;
  covers = omega arith;
  kept = λ y by ny ne. (by, ny, refl, ne);
  ends = (refl, refl);
  rest = (refl, refl);
}

pub trans-Grown :
    {b : ℕ → Bool} {h h' h'' : Heap} {p q r : ℕ} (g : Grown b h p q h')
    → Grown g.blocks h' q r h''
    → Grown b h p r h''
trans-Grown g g' = record {
  blocks = g'.blocks;
  heap = g'.heap;
  here = g'.here;
  out = g'.out;
  covers = omega (arith, g.covers, g'.covers);
  kept = λ y by ny ne.
      let (k1, k2, k3, k4) = g.kept y by ny ne in
      let (j1, j2, j3, j4) = g'.kept y k1 k2 k4 in (j1, j2, j3 ∙ k3, j4);
  ends = (g'.ends.0 ∙ g.ends.0, g'.ends.1 ∙ g.ends.1);
  rest = (g'.rest.0 ∙ g.rest.0, g'.rest.1 ∙ g.rest.1);
}

module _ {b : ℕ → Bool} {h : Heap} (g : IsHeap b h) where
  -- Two blocks that meet, one of them a hole, become one block that is not a hole.
  join-IsHeap :
      (p q r : ℕ)
      → b p ≡ true
      → b q ≡ true
      → p + h.sizes p ≡ q
      → (r ≡ p) × (inserted q h.holes ≡ false) ⊎ (r ≡ q) × (inserted p h.holes ≡ false)
      → IsHeap (mark b q false) (head_init p (h.sizes p + h.sizes q) (list_rem r h))
  unfolding head_init
  join-IsHeap p q r bp bq e w =
      let t = merge-IsTiled g.tiled p q bp bq e in
      record {
        tiled = record {
          within = t.within;
          followed = t.followed;
          footed = t.footed;
          apart = t.apart;
          signed = t.signed;
          ordered = t.ordered;
        };
        hole = λ x i. ground (arith, g.hole x, inserted-remove_hole x r h.holes);
      }

  pub back-Grown :
      (head : ℕ)
      → b head ≡ true
      → inserted head h.holes ≡ false
      → h.memstart ≢ head
      → inserted (h.foot_headers head) h.holes ≡ true
      → Grown b h head (h.foot_headers head) (
          head_init
            (h.foot_headers head)
            (h.sizes (h.foot_headers head) + h.sizes head)
            (list_rem (h.foot_headers head) h))
  unfolding head_init
  back-Grown head here out n i =
      let (bp, e) = g.tiled.footed head (inr here) n in
      let p = h.foot_headers head in
      record {
        blocks = mark b head false;
        heap = join-IsHeap p head p bp here e (inl (refl, out));
        here = ground arith;
        out = ground (arith, inserted-remove_hole p p h.holes);
        covers = ground arith;
        kept = λ y by ny ne. ground (arith, inserted-remove_hole y p h.holes);
        ends = (refl, refl);
        rest = (refl, refl);
      }

  forward-Grown :
      (head : ℕ)
      → b head ≡ true
      → inserted head h.holes ≡ false
      → inserted (head + h.sizes head) h.holes ≡ true
      → Grown b h head head (
          head_init head
            (h.sizes head + h.sizes (head + h.sizes head))
            (list_rem (head + h.sizes head) h))
  unfolding head_init
  forward-Grown head here out i =
      let q = head + h.sizes head in
      let bq = g.hole q i in
      record {
        blocks = mark b q false;
        heap = join-IsHeap head q q here bq refl (inr (refl, out));
        here = ground (arith, g.tiled.within head here);
        out = ground (arith, inserted-remove_hole head q h.holes);
        covers = ground arith;
        kept = λ y by ny ne. ground (arith, inserted-remove_hole y q h.holes);
        ends = (refl, refl);
        rest = (refl, refl);
      }

pub combine_backwards-Grown :
    (n : ℕ) {b : ℕ → Bool} (h : Heap) (head : ℕ)
    → IsHeap b h
    → b head ≡ true
    → inserted head h.holes ≡ false
    → Grown b h head (combine_backwards n head h).0 (combine_backwards n head h).1
unfolding combine_backwards
combine_backwards-Grown zero h head g here out = same-Grown g here out
combine_backwards-Grown (suc n) h head g here out =
    elim (Bool-cases (not (h.memstart == head) && inserted (h.foot_headers head) h.holes)) [
      | inl e ↦
          let s = back-Grown g head here out (ground arith) (ground arith) in
          rw e (trans-Grown s (combine_backwards-Grown n _ _ s.heap s.here s.out))
      | inr e ↦ rw e (same-Grown g here out)
    ]

pub combine_forwards-Grown :
    (n : ℕ) {b : ℕ → Bool} (h : Heap) (head : ℕ)
    → IsHeap b h
    → b head ≡ true
    → inserted head h.holes ≡ false
    → Grown b h head head (combine_forwards n head h)
unfolding combine_forwards
combine_forwards-Grown zero h head g here out = same-Grown g here out
combine_forwards-Grown (suc n) h head g here out =
    elim (Bool-cases
      (not (h.memend == head + h.sizes head) && inserted (head + h.sizes head) h.holes)) [
        | inl e ↦
            let s = forward-Grown g head here out (ground arith) in
            rw e (trans-Grown s (combine_forwards-Grown n _ _ s.heap s.here s.out))
        | inr e ↦ rw e (same-Grown g here out)
      ]
