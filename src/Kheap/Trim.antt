-- ===== src/Kheap/Trim.antt =====
-- heap_trim of kernel/src/kheap.c: the hole that is big enough is split, at a page boundary where the
-- caller wants that, and after the size that is asked for.
use stewieos.Prelude.{
  ℕ, ◌+◌, ◌-◌, ◌≤◌, ◌<◌, ◌≡◌, refl, Bool, true, false, ltb, ◌==◌, Bool-cases, if◌then◌else◌, arith,
  ◌∙◌, ◌⊎◌, ◌^◌, inl, inr,
}
use stewieos.Kheap.{
  Heap, head_init, inserted, list_rem, heap_add_hole, heap_free_nolock, heap_addr, word, minus,
  trim_rest,
}
use stewieos.Kheap.Tiled.{mark, split-IsTiled}
use stewieos.Kheap.Combine.{IsHeap}
use stewieos.Kheap.Free.{
  heap_free_nolock-Freed, heap_add_hole-IsHeap, inserted-heap_add_hole, sizes-heap_add_hole,
}
use stewieos.Kheap.Holes.{inserted-remove_hole}

-- A hole with `need` bytes or more has been found or made. Every block that was in use still is, with
-- the same size.
pub record Chosen (b : ℕ → Bool) (h : Heap) (need head : ℕ) (h' : Heap) : Type 0 where
  pub blocks : ℕ → Bool
  pub heap : IsHeap blocks h'
  pub is_hole : inserted head h'.holes ≡ true
  pub big : need ≤ h'.sizes head
  pub kept :
      (y : ℕ)
      → b y ≡ true
      → inserted y h.holes ≡ false
      → (blocks y ≡ true) × (inserted y h'.holes ≡ false) × (h'.sizes y ≡ h.sizes y)
  pub ends : (h'.memstart ≡ h.memstart) × (h.memend ≤ h'.memend)
  pub rest : (h'.memmax ≡ h.memmax) × (h'.locked ≡ h.locked)

pub trans-Chosen :
    {b : ℕ → Bool} {h h' h'' : Heap} {n m p q : ℕ} (c : Chosen b h n p h')
    → Chosen c.blocks h' m q h''
    → Chosen b h m q h''
trans-Chosen c d = record {
  blocks = d.blocks;
  heap = d.heap;
  is_hole = d.is_hole;
  big = d.big;
  kept = λ y by ny.
      let (k1, k2, k3) = c.kept y by ny in let (j1, j2, j3) = d.kept y k1 k2 in (j1, j2, j3 ∙ k3);
  ends = (d.ends.0 ∙ c.ends.0, omega (arith, c.ends, d.ends));
  rest = (d.rest.0 ∙ c.rest.0, d.rest.1 ∙ c.rest.1);
}

module _ {b : ℕ → Bool} (h : Heap) (g : IsHeap b h) (head : ℕ)
    (is_hole : inserted head h.holes ≡ true) where
  -- the hole cut in two blocks, neither of which stands in the list
  abbrev pub cut : (k r : ℕ) → Heap
  cut k r = head_init head k (list_rem head (head_init (head + k) r h))

  cut-IsHeap :
      (k r : ℕ) → 24 ≤ k → 24 ≤ r → k + r ≡ h.sizes head → IsHeap (mark b (head + k) true) (cut k r)
  unfolding head_init
  cut-IsHeap k r lk lr e =
      let t = split-IsTiled g.tiled head k r (g.hole head is_hole) lk lr e in
      record {
        tiled = record {
          within = t.within;
          followed = t.followed;
          footed = t.footed;
          apart = t.apart;
          signed = t.signed;
          ordered = t.ordered;
        };
        hole = λ x i. ground (arith, g.hole x, inserted-remove_hole x head h.holes);
      }

  -- One of the two parts is freed and the other becomes a hole of its own.
  pub cut-Chosen :
      (k r p q need : ℕ)
      → 24 ≤ k
      → 24 ≤ r
      → k + r ≡ h.sizes head
      → (p ≡ head) × (q ≡ head + k) × (need ≤ k) ⊎ (p ≡ head + k) × (q ≡ head) × (need ≤ r)
      → Chosen b h need p (heap_add_hole p (heap_free_nolock (heap_addr q) (cut k r)))
  cut-Chosen k r p q need lk lr e w =
      let bh = g.hole head is_hole in
      let c = cut-IsHeap k r lk lr e in
      let out : (x : ℕ)
          → (inserted x (cut k r).holes ≡ (if head == x then false else inserted x h.holes)) =
        unfold head_init in λ x. inserted-remove_hole x head h.holes in
      let far : b (head + k) ≡ false = ground (arith, g.tiled.apart head (head + k)) in
      let np : inserted p (cut k r).holes ≡ false = ground (arith, out p, g.hole p) in
      let nq : inserted q (cut k r).holes ≡ false = ground (arith, out q, g.hole q) in
      let sp : need ≤ (cut k r).sizes p = unfold head_init in ground arith in
      let bp : mark b (head + k) true p ≡ true = ground arith in
      let bq : mark b (head + k) true q ≡ true = ground arith in
      let f = heap_free_nolock-Freed (cut k r) q c bq nq in
      let (fp1, fp2, fp3) = f.kept p bp np (ground arith) in
      let h3 = heap_free_nolock (heap_addr q) (cut k r) in
      record {
        blocks = f.blocks;
        heap = heap_add_hole-IsHeap h3 p f.heap fp1;
        is_hole = ground (arith, inserted-heap_add_hole h3 p p);
        big = rw (sizes-heap_add_hole h3 p p, fp3) sp;
        kept = λ y by ny.
            let cy : inserted y (cut k r).holes ≡ false = ground (arith, out y) in
            let my : mark b (head + k) true y ≡ true = ground arith in
            let sy : (cut k r).sizes y ≡ h.sizes y = unfold head_init in ground arith in
            let (f1, f2, f3) = f.kept y my cy (ground arith) in
            (
              f1,
              ground (arith, inserted-heap_add_hole h3 p y),
              sizes-heap_add_hole h3 p y ∙ f3 ∙ sy,
            );
        ends = unfold heap_add_hole head_init in (f.ends.0, ground (arith, f.ends.1));
        rest = unfold heap_add_hole head_init in f.rest;
      }

-- heap_trim's two halves on a hole that is big enough.
pub same-Chosen :
    {b : ℕ → Bool} (h : Heap) (head need : ℕ)
    → IsHeap b h
    → inserted head h.holes ≡ true
    → need ≤ h.sizes head
    → Chosen b h need head h
same-Chosen {b} h head need g i le = record {
  blocks = b;
  heap = g;
  is_hole = i;
  big = le;
  kept = λ y by ny. (by, ny, refl);
  ends = (refl, omega arith);
  rest = (refl, refl);
}

pub trim_rest-Chosen :
    {b : ℕ → Bool} (h : Heap) (head reqd : ℕ)
    → IsHeap b h
    → inserted head h.holes ≡ true
    → reqd + 48 < 2 ^ 32
    → reqd + 24 ≤ h.sizes head
    → Chosen b h (reqd + 24) (trim_rest head reqd h).0 (trim_rest head reqd h).1
unfolding trim_rest
trim_rest-Chosen h head reqd g i small le =
    let e1 : word (reqd + 24) ≡ reqd + 24 = omega arith in
    let e2 : word (reqd + 24 + 24) ≡ reqd + 48 = omega arith in
    let m : minus (h.sizes head) (reqd + 24) ≡ h.sizes head - (reqd + 24) = ground arith in
    elim (Bool-cases (ltb (h.sizes head) (reqd + 48))) [
      | inl e ↦ rw (e2, e) (same-Chosen h head (reqd + 24) g i le)
      | inr e ↦
          rw (e2, e, e1, m)
            (cut-Chosen h g head i (reqd + 24) (h.sizes head - (reqd + 24)) head
              (head + (reqd + 24)) (reqd + 24) (omega arith) (ground arith) (omega arith)
              (inl (refl, refl, omega arith)))
    ]
