-- ===== src/Kheap/Reuse.antt =====
-- heap_alloc after heap_free in kernel/src/kheap.c.
use stewieos.Prelude.{ℕ, suc, ◌+◌, ◌≤◌, ◌≡◌, refl, Bool, true, false, some, arith, subst}
use stewieos.Kheap.{Heap, Finish, heap_alloc, heap_free, inserted, finish_alloc}
use stewieos.Kheap.Combine.{IsHeap}
use stewieos.Kheap.Expand.{Small, HasRoom}
use stewieos.Kheap.Scan.{search_holes-SearchSpec}
use stewieos.Kheap.Locate.{plain_found}
use stewieos.Kheap.Alloc.{InUse, locked-IsHeap, FreeSpec, heap_free-FreeSpec}

abbrev Succeeds : Finish → Type 0
Succeeds o = (addr : ℕ) × (h : Heap) × (o ≡ Finish.returned (some addr) h)

-- Where a hole is big enough, the search finds memory.
found-Succeeds :
    (b : ℕ → Bool) (d : ℕ) (h : Heap) (reqd x : ℕ)
    → IsHeap b h
    → Small reqd
    → h.locked ≡ false
    → inserted x h.holes ≡ true
    → reqd + 24 ≤ h.sizes x
    → Succeeds (heap_alloc (suc d) reqd false h)
unfolding heap_alloc finish_alloc
found-Succeeds b d h reqd x g small free i big =
    let k = record h { locked = true } in
    let gk = locked-IsHeap h true g in
    let s = search_holes-SearchSpec k gk reqd false small (λ f. ground arith) k.holes (λ y j. j) in
    let (y, h', e, v) = plain_found b d reqd x k _ s i big refl in
    simp free (rw e (y + 16, _, refl))

-- After heap_free of a block, heap_alloc of no more than that block held returns memory, in a heap
-- whose blocks tile it, for a request below 2 ^ 32 - 4120 bytes that need not be aligned. The search
-- takes two calls of heap_locate at most.
pub heap_alloc-heap_free :
    (b : ℕ → Bool) (d : ℕ) (h : Heap) (head reqd : ℕ) (h' : Heap)
    → IsHeap b h
    → HasRoom h
    → InUse b h head
    → Small reqd
    → reqd + 24 ≤ h.sizes head
    → heap_free (head + 16) h ≡ some h'
    → (addr : ℕ) × (h'' : Heap) × (heap_alloc (suc (suc d)) reqd false h'
        ≡ Finish.returned (some addr) h'')
heap_alloc-heap_free b d h head reqd h' g room u small le e =
    let (f, t) = subst (λ o. FreeSpec b h head o) e (heap_free-FreeSpec b h head g u) in
    found-Succeeds f.blocks (suc d) h' reqd f.into f.heap small t f.is_hole
      (omega (arith, f.covers))
