-- ===== src/Kheap/Free.antt =====
-- heap_free_nolock of kernel/src/kheap.c: a block that was in use becomes part of a hole.
use stewieos.Prelude.{
  ℕ, ◌+◌, ◌-◌, ◌≤◌, ◌≡◌, ◌≢◌, refl, Bool, true, false, ◌||◌, leb, ltb, ◌==◌, length, arith, ◌∙◌,
}
use stewieos.Kheap.{
  Heap, head_init, inserted, combine_backwards, heap_add_hole, put_back, heap_free_nolock, poke,
  kheap_magic, heap_addr,
}
use stewieos.Kheap.Combine.{
  IsHeap, Grown, combine_backwards-Grown, combine_forwards-Grown, trans-Grown,
}
use stewieos.Kheap.Holes.{inserted-list_add_ordered}

-- The block at `head` lies in a hole. Every other block that was in use still is, with the same size.
pub record Freed (b : ℕ → Bool) (h : Heap) (head : ℕ) (h' : Heap) : Type 0 where
  pub blocks : ℕ → Bool
  pub heap : IsHeap blocks h'
  pub into : ℕ
  pub is_hole : inserted into h'.holes ≡ true
  pub covers : (into ≤ head) × (head + h.sizes head ≤ into + h'.sizes into)
  pub kept :
      (y : ℕ)
      → b y ≡ true
      → inserted y h.holes ≡ false
      → head ≢ y
      → (blocks y ≡ true) × (inserted y h'.holes ≡ false) × (h'.sizes y ≡ h.sizes y)
  pub ends : (h'.memstart ≡ h.memstart) × (h'.memend ≡ h.memend)
  pub rest : (h'.memmax ≡ h.memmax) × (h'.locked ≡ h.locked)

pub inserted-heap_add_hole :
    (h : Heap) (head x : ℕ)
    → inserted x (heap_add_hole head h).holes ≡ (head == x || inserted x h.holes)
unfolding heap_add_hole head_init
inserted-heap_add_hole h head x =
    let sizes : ℕ → ℕ = (head_init head (h.sizes head) h).sizes in
    inserted-list_add_ordered sizes x head h.holes

pub sizes-heap_add_hole : (h : Heap) (head x : ℕ) → (heap_add_hole head h).sizes x ≡ h.sizes x
unfolding heap_add_hole head_init
sizes-heap_add_hole h head x = ground arith

pub heap_add_hole-IsHeap :
    {b : ℕ → Bool} (h : Heap) (head : ℕ)
    → IsHeap b h
    → b head ≡ true
    → IsHeap b (heap_add_hole head h)
heap_add_hole-IsHeap h head g here =
    let t = g.tiled in
    let ins = inserted-heap_add_hole h head in
    unfold heap_add_hole head_init in
    record {
      tiled = record {
        within = λ x bx. ground (arith, t.within x);
        followed = λ x bx. ground (arith, t.followed x);
        footed = λ x bx n. ground (
          arith,
          t.footed x,
          t.apart (h.foot_headers x) head,
          t.apart head (h.foot_headers x),
          t.within head,
          t.within (h.foot_headers x),
        );
        apart = λ x y bx by lt. ground (arith, t.apart x y);
        signed = λ x bx. ground (arith, t.signed x);
        ordered = t.ordered;
      };
      hole = λ x i. ground (arith, ins x, g.hole x);
    }

-- A block that is no hole becomes one.
heap_add_hole-Freed :
    {b : ℕ → Bool} (h : Heap) (head : ℕ)
    → IsHeap b h
    → b head ≡ true
    → Freed b h head (heap_add_hole head h)
heap_add_hole-Freed {b} h head g here =
    let ins = inserted-heap_add_hole h head in
    let same = sizes-heap_add_hole h head in
    record {
      blocks = b;
      heap = heap_add_hole-IsHeap h head g here;
      into = head;
      is_hole = ground (arith, ins head);
      covers = ground (arith, same head);
      kept = λ y by ny ne. ground (arith, ins y, same y);
      ends = unfold heap_add_hole head_init in (refl, refl);
      rest = unfold heap_add_hole head_init in (refl, refl);
    }

-- Writing the footer of a block again.
sign-IsHeap :
    {b : ℕ → Bool} (h : Heap) (head : ℕ)
    → IsHeap b h
    → b head ≡ true
    → IsHeap b (record h {
      foot_magics = poke h.foot_magics (head + h.sizes head) kheap_magic;
      foot_headers = poke h.foot_headers (head + h.sizes head) head;
    })
sign-IsHeap h head g here =
    let t = g.tiled in
    record {
      tiled = record {
        within = t.within;
        followed = t.followed;
        footed = λ x bx n. ground (
          arith,
          t.footed x,
          t.apart (h.foot_headers x) head,
          t.apart head (h.foot_headers x),
          t.within head,
          t.within (h.foot_headers x),
        );
        apart = t.apart;
        signed = λ x bx. ground (arith, t.signed x);
        ordered = t.ordered;
      };
      hole = g.hole;
    }

put_back-Freed :
    {b : ℕ → Bool} (h : Heap) (head : ℕ)
    → IsHeap b h
    → b head ≡ true
    → Freed b h head (put_back head h)
unfolding put_back
put_back-Freed h head g here =
    let f = heap_add_hole-Freed _ head (sign-IsHeap h head g here) here in
    let e : (h.magics head == kheap_magic) ≡ true = ground (arith, g.tiled.signed head here) in
    rw e (record {
      blocks = f.blocks;
      heap = f.heap;
      into = f.into;
      is_hole = f.is_hole;
      covers = f.covers;
      kept = f.kept;
      ends = f.ends;
      rest = f.rest;
    })

-- A block that has grown and then becomes a hole has been freed.
combined-Freed :
    {b : ℕ → Bool} {h h' h'' : Heap} {p q : ℕ} (g : Grown b h p q h')
    → Freed g.blocks h' q h''
    → Freed b h p h''
combined-Freed g f = record {
  blocks = f.blocks;
  heap = f.heap;
  into = f.into;
  is_hole = f.is_hole;
  covers = omega (arith, g.covers, f.covers);
  kept = λ y by ny ne.
      let (k1, k2, k3, k4) = g.kept y by ny ne in
      let (j1, j2, j3) = f.kept y k1 k2 k4 in (j1, j2, j3 ∙ k3);
  ends = (f.ends.0 ∙ g.ends.0, f.ends.1 ∙ g.ends.1);
  rest = (f.rest.0 ∙ g.rest.0, f.rest.1 ∙ g.rest.1);
}

-- heap_free_nolock of the address of a block in use frees that block.
pub heap_free_nolock-Freed :
    {b : ℕ → Bool} (h : Heap) (head : ℕ)
    → IsHeap b h
    → b head ≡ true
    → inserted head h.holes ≡ false
    → Freed b h head (heap_free_nolock (heap_addr head) h)
unfolding heap_free_nolock
heap_free_nolock-Freed h head g here out =
    let e : head + 16 - 16 ≡ head = omega arith in
    let n : (ltb (head + 16) h.memstart || leb h.memend (head + 16)) ≡ false =
      ground (arith, g.tiled.within head here) in
    let g1 = combine_backwards-Grown (length h.holes) h head g here out in
    let g2 =
      combine_forwards-Grown (length (combine_backwards (length h.holes) head h).1.holes) _ _
        g1.heap g1.here g1.out in
    let g3 = trans-Grown g1 g2 in rw (n, e) (combined-Freed g3 (put_back-Freed _ _ g3.heap g3.here))
