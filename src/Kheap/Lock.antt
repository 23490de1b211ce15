-- ===== src/Kheap/Lock.antt =====
-- The lock of kernel/src/kheap.c: heap_locate leaves it as it is, whatever the heap is like.
use stewieos.Prelude.{
  ℕ, zero, suc, ◌+◌, ◌≡◌, refl, Bool, ◌||◌, ◌&&◌, not, Option, none, some, arith, ltb, leb, ◌==◌,
  ◌∙◌, Bool-cases, inl, inr, length,
}
use stewieos.Kheap.{
  Heap, Finish, heap_expand, expansion, word, combine_backwards, combine_forwards, head_init,
  list_rem, inserted, put_back, heap_add_hole, heap_free_nolock, heap_head, heap_addr, Search,
  after_expand, after_search, heap_locate, search_holes, finish_alloc,
}

combine_backwards-locked :
    (n head : ℕ) (h : Heap) → (combine_backwards n head h).1.locked ≡ h.locked
unfolding combine_backwards head_init
combine_backwards-locked zero head h = refl
combine_backwards-locked (suc n) head h =
    let prev = h.foot_headers head in
    let h1 = head_init prev (h.sizes prev + h.sizes head) (list_rem prev h) in
    let ih = combine_backwards-locked n prev h1 in
    elim (Bool-cases (not (h.memstart == head) && inserted prev h.holes)) [
      | inl e ↦ rw e ih
      | inr e ↦ rw e refl
    ]

combine_forwards-locked : (n head : ℕ) (h : Heap) → (combine_forwards n head h).locked ≡ h.locked
unfolding combine_forwards head_init
combine_forwards-locked zero head h = refl
combine_forwards-locked (suc n) head h =
    let next = head + h.sizes head in
    let h1 = head_init head (h.sizes head + h.sizes next) (list_rem next h) in
    let ih = combine_forwards-locked n head h1 in
    elim (Bool-cases (not (h.memend == head + h.sizes head) && inserted next h.holes)) [
      | inl e ↦ rw e ih
      | inr e ↦ rw e refl
    ]

put_back-locked : (head : ℕ) (h : Heap) → (put_back head h).locked ≡ h.locked
unfolding put_back heap_add_hole
put_back-locked head h = ground arith

heap_free_nolock-locked : (addr : ℕ) (h : Heap) → (heap_free_nolock addr h).locked ≡ h.locked
unfolding heap_free_nolock
heap_free_nolock-locked addr h =
    let (p, h1) = combine_backwards (length h.holes) (heap_head addr) h in
    let f = combine_forwards (length h1.holes) p h1 in
    elim (Bool-cases (ltb addr h.memstart || leb h.memend addr)) [
      | inl e ↦ rw e refl
      | inr e ↦ rw e (
          put_back-locked p f
          ∙ combine_forwards-locked (length h1.holes) p h1
          ∙ combine_backwards-locked (length h.holes) (heap_head addr) h)
    ]

heap_expand-locked : (amount : ℕ) (h : Heap) → (heap_expand amount h).1.locked ≡ h.locked
unfolding heap_expand head_init
heap_expand-locked amount h =
    let h' : Heap = record (head_init h.memend (expansion amount h) h) {
      memend = word (h.memend + expansion amount h);
    } in
    elim (Bool-cases (h.memmax == h.memend)) [
      | inl e ↦ rw e refl
      | inr e ↦ rw e (heap_free_nolock-locked (heap_addr h.memend) h')
    ]

-- NULL is returned with the lock as it was
abbrev pub Refuses : Heap → Option (Option ℕ × Heap) → Type 0
Refuses h none = Unit
Refuses h (some (none, h')) = h'.locked ≡ h.locked
Refuses h (some (some x, h')) = Unit

trans-Refuses :
    (h k : Heap) (o : Option (Option ℕ × Heap)) → k.locked ≡ h.locked → Refuses k o → Refuses h o
trans-Refuses h k none e r = tt
trans-Refuses h k (some (none, h')) e r = r ∙ e
trans-Refuses h k (some (some x, h')) e r = tt

after_expand-Refuses :
    (need : ℕ) (again : Heap → Option (Option ℕ × Heap)) (h : Heap) (o : Option ℕ × Heap)
    → ((k : Heap) → Refuses k (again k))
    → o.1.locked ≡ h.locked
    → Refuses h (after_expand need again o)
unfolding after_expand
after_expand-Refuses need again h (none, k) ih e = e
after_expand-Refuses need again h (some head, k) ih e =
    elim (Bool-cases (ltb (k.sizes head) need)) [
      | inl t ↦ rw t e
      | inr t ↦ rw t (trans-Refuses h k (again k) e (ih k))
    ]

after_search-Refuses :
    (need : ℕ) (again : Heap → Option (Option ℕ × Heap)) (h : Heap) (r : Search)
    → ((k : Heap) → Refuses k (again k))
    → Refuses h (after_search need again h r)
unfolding after_search
after_search-Refuses need again h (Search.corrupt c) ih =
    trans-Refuses h (list_rem c h) (again (list_rem c h)) refl (ih (list_rem c h))
after_search-Refuses need again h (Search.found c h') ih = tt
after_search-Refuses need again h Search.nothing ih =
    after_expand-Refuses need again h (heap_expand need h) ih (heap_expand-locked need h)

pub heap_locate-Refuses :
    (d reqd : ℕ) (align : Bool) (h : Heap) → Refuses h (heap_locate d reqd align h)
unfolding heap_locate
heap_locate-Refuses zero reqd align h = tt
heap_locate-Refuses (suc d) reqd align h =
    after_search-Refuses (word (reqd + 24)) _ h (search_holes reqd align h.holes h)
      (heap_locate-Refuses d reqd align)

pub finish_alloc-Refuses :
    (h h' : Heap) (o : Option (Option ℕ × Heap))
    → Refuses h o
    → finish_alloc o ≡ Finish.returned none h'
    → h'.locked ≡ h.locked
unfolding finish_alloc
finish_alloc-Refuses h h' none r e = ground (arith, e)
finish_alloc-Refuses h h' (some (none, k)) r e = ground (arith, e, r)
finish_alloc-Refuses h h' (some (some x, k)) r e = ground (arith, e)
