-- ===== src/Kheap/Stale.antt =====
-- heap_free_nolock on the last block of a heap: the size in that block's header is not written, also
-- where the block is combined with the one before it.
use stewieos.Prelude.{
  ℕ, zero, suc, ◌+◌, ◌-◌, ◌≤◌, ◌<◌, ◌≡◌, inl, inr, refl, Bool, true, false, ◌||◌, ◌&&◌, not, arith,
  Bool-cases, length, ltb, leb, ◌==◌, ◌∙◌,
}
use stewieos.Kheap.{
  Heap, head_init, inserted, list_rem, put_back, combine_backwards, combine_forwards,
  heap_free_nolock, heap_addr,
}
use stewieos.Kheap.Combine.{IsHeap, back-Grown, combine_backwards-Grown}
use stewieos.Kheap.Free.{sizes-heap_add_hole}

combine_backwards-sizes :
    (n : ℕ) {b : ℕ → Bool} (h : Heap) (head x : ℕ)
    → IsHeap b h
    → b head ≡ true
    → inserted head h.holes ≡ false
    → head ≤ x
    → (combine_backwards n head h).1.sizes x ≡ h.sizes x
unfolding combine_backwards
combine_backwards-sizes zero h head x g here out le = refl
combine_backwards-sizes (suc n) h head x g here out le =
    let prev = h.foot_headers head in
    let h1 = head_init prev (h.sizes prev + h.sizes head) (list_rem prev h) in
    elim (Bool-cases (not (h.memstart == head) && inserted prev h.holes)) [
      | inl e ↦
          let s = back-Grown g head here out (ground arith) (ground arith) in
          let below : prev < head =
            ground (arith, g.tiled.footed head (inr here), g.tiled.within prev) in
          let ih = combine_backwards-sizes n h1 prev x s.heap s.here s.out (omega arith) in
          let e1 : h1.sizes x ≡ h.sizes x = unfold head_init in ground arith in rw e (ih ∙ e1)
      | inr e ↦ rw e refl
    ]

-- There is nothing after the last block to combine with.
combine_forwards-last :
    (n head : ℕ) (h : Heap) → h.memend ≡ head + h.sizes head → combine_forwards n head h ≡ h
unfolding combine_forwards
combine_forwards-last zero head h e = refl
combine_forwards-last (suc n) head h e =
    let t : (h.memend == head + h.sizes head) ≡ true = ground arith in rw t refl

put_back-sizes : (head x : ℕ) (h : Heap) → (put_back head h).sizes x ≡ h.sizes x
unfolding put_back
put_back-sizes head x h = elim (Bool-cases (h.magics head == 732803074)) [
  | inl e ↦ rw e (sizes-heap_add_hole _ head x)
  | inr e ↦ rw e refl
]

pub heap_free_nolock-last :
    {b : ℕ → Bool} (h : Heap) (head : ℕ)
    → IsHeap b h
    → b head ≡ true
    → inserted head h.holes ≡ false
    → h.memend ≡ head + h.sizes head
    → (heap_free_nolock (heap_addr head) h).sizes head ≡ h.sizes head
unfolding heap_free_nolock
heap_free_nolock-last h head g here out last =
    let e : head + 16 - 16 ≡ head = omega arith in
    let t : (ltb (head + 16) h.memstart || leb h.memend (head + 16)) ≡ false =
      ground (arith, g.tiled.within head here) in
    let p = (combine_backwards (length h.holes) head h).0 in
    let h1 = (combine_backwards (length h.holes) head h).1 in
    let w = combine_backwards-Grown (length h.holes) h head g here out in
    let l : h1.memend ≡ p + h1.sizes p =
      omega (arith, w.covers, w.heap.tiled.within p w.here, w.ends.1) in
    rw (t, e, combine_forwards-last (length h1.holes) p h1 l)
      (put_back-sizes p head h1
        ∙ combine_backwards-sizes (length h.holes) h head head g here out (omega arith))
