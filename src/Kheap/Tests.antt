-- ===== src/Kheap/Tests.antt =====
-- Runs of the kernel heap of kernel/src/kheap.c, and instances of its theorems.
use stewieos.Prelude.{
  ℕ, ◌+◌, ◌<◌, ◌≡◌, ◌⊎◌, inr, refl, Bool, true, false, Option, none, some, arith, [], ◌∷◌, ◌==◌,
  ◌*◌,
}
use stewieos.Kheap.{
  Heap, Finish, head_init, inserted, remove_hole, list_add_ordered, heap_add_hole,
  combine_backwards, combine_forwards, put_back, heap_free_nolock, expansion, heap_expand,
  trim_rest, align_split, heap_trim, search_holes, after_expand, after_search, heap_locate,
  finish_alloc, heap_alloc, heap_free, heap_init,
}
use stewieos.Kheap.Combine.{IsHeap}
use stewieos.Kheap.Alloc.{AllocSpec, heap_alloc-AllocSpec, FreeSpec, heap_free-FreeSpec}
use stewieos.Kheap.Reach.{Reach, AllApart, Reach-AllApart}
use stewieos.Kheap.Reuse.{heap_alloc-heap_free}
use stewieos.Kheap.Flaws.{heap_alloc-keeps_lock, heap_trim-outside}

-- A heap of one page that is a hole, out of 16 pages.
abbrev page_heap : Heap
page_heap = record {
  memstart = 4096;
  memend = 8192;
  memmax = 65536;
  holes = 4096 ∷ [];
  locked = false;
  magics = λ x. 732803074;
  sizes = λ x. 4096;
  foot_magics = λ x. 732803074;
  foot_headers = λ x. 4096;
}

abbrev one_block : ℕ → Bool
one_block x = x == 4096

page_heap-IsHeap : IsHeap one_block page_heap
unfolding inserted
page_heap-IsHeap = record {
  tiled = record {
    within = λ x bx. ground arith;
    followed = λ x bx. ground arith;
    footed = λ x bx n. ground arith;
    apart = λ x y bx by lt. ground arith;
    signed = λ x bx. ground arith;
    ordered = omega arith;
  };
  hole = λ x i. ground arith;
}

-- the same page in use
abbrev used_heap : Heap
used_heap = record page_heap { holes = [] }

used_heap-IsHeap : IsHeap one_block used_heap
unfolding inserted
used_heap-IsHeap =
    let t = page_heap-IsHeap.tiled in
    record {
      tiled = record {
        within = t.within;
        followed = t.followed;
        footed = t.footed;
        apart = t.apart;
        signed = t.signed;
        ordered = t.ordered;
      };
      hole = λ x i. ground arith;
    }

-- the same page in use, with no more memory to be had
abbrev full_heap : Heap
full_heap = record used_heap { memmax = 8192 }

heap_alloc-AllocSpec_example :
    AllocSpec one_block page_heap 100 false (heap_alloc 2 100 false page_heap)
heap_alloc-AllocSpec_example =
    heap_alloc-AllocSpec one_block 0 page_heap 100 false page_heap-IsHeap (omega arith)
      (omega arith) (λ e. ground arith) (unfold expansion in omega arith)

heap_free-FreeSpec_example : FreeSpec one_block used_heap 4096 (heap_free (4096 + 16) used_heap)
heap_free-FreeSpec_example =
    heap_free-FreeSpec one_block used_heap 4096 used_heap-IsHeap (refl, unfold inserted in refl)

abbrev heap_of : Finish → Heap
heap_of (Finish.returned o h) = h
heap_of Finish.spins = page_heap
heap_of Finish.deeper = page_heap

freed_heap : Option Heap → Heap
freed_heap none = page_heap
freed_heap (some h) = h

used_heap-freed :
    heap_free (4096 + 16) used_heap ≡ some (freed_heap (heap_free (4096 + 16) used_heap))
unfolding heap_free freed_heap
used_heap-freed = refl

heap_alloc-heap_free_example :
    (addr : ℕ) × (h : Heap) × (heap_alloc 2 100 false (freed_heap (heap_free (4096 + 16) used_heap))
      ≡ Finish.returned (some addr) h)
heap_alloc-heap_free_example =
    heap_alloc-heap_free one_block 0 used_heap 4096 100 _ used_heap-IsHeap (omega arith)
      (refl, unfold inserted in refl) (omega arith) (omega arith) used_heap-freed

full_heap-refused :
    heap_alloc 2 100 false full_heap ≡ Finish.returned none (record full_heap { locked = true })
unfolding heap_alloc heap_locate search_holes after_search after_expand heap_expand finish_alloc
full_heap-refused = refl

heap_alloc-keeps_lock_example :
    ((n r : ℕ) (align : Bool)
      → heap_alloc n r align (record full_heap { locked = true }) ≡ Finish.spins)
    × ((addr : ℕ) → heap_free addr (record full_heap { locked = true }) ≡ none)
heap_alloc-keeps_lock_example = heap_alloc-keeps_lock 2 full_heap 100 false _ full_heap-refused

-- A hole of 200 bytes at the start of a page.
abbrev short_heap : Heap
short_heap = record page_heap { sizes = λ x. 200 }

heap_trim-outside_example :
    (h : Heap) × (heap_trim 4096 100 true short_heap ≡ some (8176, h))
    × ((8176 < 4096) ⊎ (4096 + 200 < 8176))
heap_trim-outside_example =
    heap_trim-outside short_heap 4096 100 (omega arith) (omega arith) (omega arith) (omega arith)
      (inr (omega arith))

abbrev first_heap : Heap
first_heap = heap_init 4096 65536 page_heap

first_alloc :
    heap_alloc 2 100 false first_heap
    ≡ Finish.returned (some 4112) (heap_of (heap_alloc 2 100 false first_heap))
unfolding heap_init head_init inserted remove_hole list_add_ordered heap_add_hole combine_backwards
    combine_forwards put_back heap_free_nolock expansion heap_expand trim_rest align_split heap_trim
    search_holes after_expand after_search heap_locate finish_alloc heap_alloc
first_alloc = refl

first_end : first_heap.memend + 1 * expansion (100 + 24) first_heap ≡ 12288
unfolding heap_init head_init inserted remove_hole list_add_ordered heap_add_hole combine_backwards
    combine_forwards put_back heap_free_nolock expansion heap_expand
first_end = refl

Reach-AllApart_example : AllApart (heap_of (heap_alloc 2 100 false first_heap)) ((4112, 100) ∷ [])
Reach-AllApart_example =
    Reach-AllApart 4096 65536 page_heap (omega arith) (heap_of (heap_alloc 2 100 false first_heap))
      ((4112, 100) ∷ [])
      (Reach.alloc 0 100 4112 false first_heap _ [] (Reach.boot first_heap refl) (omega arith)
        (λ e. ground arith) (omega (arith, first_end)) first_alloc)
