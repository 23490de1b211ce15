-- ===== src/Kheap/Flaws.antt =====
-- What kernel/src/kheap.c does not do: it keeps the lock after a failure, leaves the memory that it was
-- given, and takes aligned blocks out of holes that do not hold them.
use stewieos.Prelude.{
  ℕ, ◌+◌, ◌≤◌, ◌<◌, ◌≡◌, ◌≢◌, ◌⊎◌, refl, Bool, true, false, ◌||◌, ◌&&◌, Option, none, some, arith,
  ltb, leb, ◌==◌, ◌^◌, ◌%◌, ◌*◌, ap, Bool-cases, inl, inr,
}
use stewieos.Kheap.{
  Heap, Finish, heap_alloc, heap_free, heap_expand, expansion, heap_trim, aligned_head, align_split,
  trim_rest, word, minus, finish_alloc, heap_locate,
}
use stewieos.Kheap.Combine.{IsHeap}
use stewieos.Kheap.Expand.{Small, HasRoom, ExpandSpec, heap_expand-ExpandSpec}
use stewieos.Kheap.Lock.{heap_locate-Refuses, finish_alloc-Refuses}
use stewieos.Kheap.Align.{trim_rest-head}

-- After heap_alloc has returned NULL, every heap_alloc and every heap_free spins on the lock for ever,
-- whatever the heap, the request and the depth of the search were.
pub heap_alloc-keeps_lock :
    (d : ℕ) (h : Heap) (reqd : ℕ) (align : Bool) (h' : Heap)
    → heap_alloc d reqd align h ≡ Finish.returned none h'
    → ((n r : ℕ) (align : Bool) → heap_alloc n r align h' ≡ Finish.spins)
      × ((addr : ℕ) → heap_free addr h' ≡ none)
heap_alloc-keeps_lock d h reqd align h' e =
    let k = record h { locked = true } in
    let t : h'.locked ≡ true = elim (Bool-cases h.locked) [
      | inl l ↦
          let f : Finish.spins ≡ Finish.returned none h' = unfold heap_alloc in simp l at e in
          ground (arith, f)
      | inr l ↦
          let f : finish_alloc (heap_locate d reqd align k) ≡ Finish.returned none h' =
            unfold heap_alloc in simp l at e in
          finish_alloc-Refuses k h' (heap_locate d reqd align k)
            (heap_locate-Refuses d reqd align k) f
    ] in
    (λ n r align. unfold heap_alloc in simp t refl, λ addr. unfold heap_free in simp t refl)

-- Where less than the request is left below memmax, but not nothing, heap_expand goes on past memmax.
-- The blocks tile the heap before, and at least one block is there; what it adds ends
-- below 2 ^ 32.
heap_expand-passes :
    (b : ℕ → Bool) (h : Heap) (reqd : ℕ)
    → IsHeap b h
    → Small reqd
    → HasRoom h
    → h.memstart < h.memend
    → h.memend < h.memmax
    → h.memmax < h.memend + (reqd + 24)
    → h.memend + expansion (reqd + 24) h < 2 ^ 32
    → h.memmax < (heap_expand (reqd + 24) h).1.memend
heap_expand-passes b h reqd g small room used left short fits =
    let big : h.memmax < h.memend + expansion (reqd + 24) h = unfold expansion in ground arith in
    passes (heap_expand (reqd + 24) h) (heap_expand-ExpandSpec h reqd g small room fits) big
  where
    passes :
        (o : Option ℕ × Heap)
        → ExpandSpec b h (expansion (reqd + 24) h) o
        → h.memmax < h.memend + expansion (reqd + 24) h
        → h.memmax < o.1.memend
    passes (none, h') (e, m) big = ground arith
    passes (some x, h') (e, p, n) big = omega (arith, p.grown)

-- Asked for an aligned block, heap_trim returns one that starts outside of the hole that it was given,
-- before it where the hole's header lies in the last 15 bytes of a page, and after it where the hole
-- ends before the header that the next page boundary wants. The hole has room for the request, and
-- its contents are not aligned.
pub heap_trim-outside :
    (h : Heap) (head reqd : ℕ)
    → Small reqd
    → reqd + 24 ≤ h.sizes head
    → h.sizes head + 4096 < 2 ^ 32
    → (head + 16) % 4096 ≢ 0
    → (4080 < head % 4096) ⊎ (head + h.sizes head < aligned_head head)
    → (h' : Heap) × (heap_trim head reqd true h ≡ some (aligned_head head, h'))
      × ((aligned_head head < head) ⊎ (head + h.sizes head < aligned_head head))
heap_trim-outside h head reqd small le bound ne w =
    let temp = aligned_head head in
    let e0 : (leb (h.sizes head) (word (reqd + 24 * 2)) && false) ≡ false = ground arith in
    let e1 : ((head + 16) % 4096 == 0) ≡ false = ground arith in
    let e3 : (leb (minus temp head) 24
          || ltb (minus (h.sizes head) (minus temp head)) (word (reqd + 24)))
        ≡ false =
      ground arith in
    (
      (trim_rest temp reqd (align_split head h)).1,
      unfold heap_trim in
          rw (e0, e1, e3)
            (let g = align_split head h in
              ap (λ (x : ℕ). some (x, (trim_rest temp reqd g).1)) (trim_rest-head temp reqd g)),
      ground arith,
    )
