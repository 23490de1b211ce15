-- ===== src/Kheap/Reach.antt =====
-- The kernel heap from heap_init on, with the addresses that heap_alloc has handed out.
use stewieos.Prelude.{
  ℕ, suc, ◌+◌, ◌-◌, ◌≤◌, ◌<◌, ◌≡◌, ◌⊎◌, inl, inr, refl, Bool, true, false, ◌||◌, Option, none, some,
  arith, Bool-cases, if◌then◌else◌, ◌==◌, List, [], ◌∷◌, subst, ◌^◌, sym, ap, ◌∙◌,
}
use stewieos.Kheap.{
  Heap, Finish, inserted, heap_init, heap_alloc, heap_free, heap_expand, heap_free_nolock,
  heap_addr, expansion, word,
}
use stewieos.Kheap.Combine.{IsHeap}
use stewieos.Kheap.Free.{Freed}
use stewieos.Kheap.Expand.{Small, HasRoom, Fits, appended, appended-Expanded, Keeps}
use stewieos.Kheap.Scan.{CanAlign}
use stewieos.Kheap.Alloc.{
  InUse, Allocated, AllocSpec, heap_alloc-AllocSpec, FreeSpec, heap_free-FreeSpec,
}

-- the memory handed out and not freed: addresses with the sizes asked for, the latest first
abbrev pub Live : Type 0
Live = List (ℕ × ℕ)

pub live_remove : ℕ → Live → Live
live_remove addr [] = []
live_remove addr ((a, r) ∷ l) =
    let rest = live_remove addr l in if a == addr then rest else (a, r) ∷ rest

pub is_live : ℕ → Live → Bool
is_live addr [] = false
is_live addr ((a, r) ∷ l) = a == addr || is_live addr l

-- Runs of the heap: heap_init, calls of heap_alloc that return, and calls of heap_free on memory that
-- has been handed out.
pub data Reach (start end_ : ℕ) (h0 : Heap) : Heap → Live → Type 0 where
  boot : (h : Heap) → h ≡ heap_init start end_ h0 → Reach start end_ h0 h []
  alloc :
      (d reqd addr : ℕ) (align : Bool) (h h' : Heap) (l : Live)
      → Reach start end_ h0 h l
      → Small reqd
      → (align ≡ true → CanAlign reqd h)
      → Fits (suc (suc d)) reqd align h
      → heap_alloc (suc (suc d)) reqd align h ≡ Finish.returned (some addr) h'
      → Reach start end_ h0 h' ((addr, reqd) ∷ l)
  refused :
      (d reqd : ℕ) (align : Bool) (h h' : Heap) (l : Live)
      → Reach start end_ h0 h l
      → Small reqd
      → (align ≡ true → CanAlign reqd h)
      → Fits (suc (suc d)) reqd align h
      → heap_alloc (suc (suc d)) reqd align h ≡ Finish.returned none h'
      → Reach start end_ h0 h' l
  free :
      (addr : ℕ) (h h' : Heap) (l l' : Live)
      → Reach start end_ h0 h l
      → is_live addr l ≡ true
      → heap_free addr h ≡ some h'
      → l' ≡ live_remove addr l
      → Reach start end_ h0 h' l'

-- Memory of `r` bytes at `a` lies in the heap, with room for a header before and a footer after it.
abbrev pub Inside : Heap → (a r : ℕ) → Type 0
Inside h a r = (h.memstart + 16 ≤ a) × (a + r + 8 ≤ h.memend)

-- Memory of `r` bytes at `a` lies apart from all others, headers and footers included.
abbrev pub Apart : (a r : ℕ) → Live → Type 0
Apart a r [] = Unit {0}
Apart a r ((c, s) ∷ l) = ((a + r + 24 ≤ c) ⊎ (c + s + 24 ≤ a)) × Apart a r l

abbrev pub AllApart : Heap → Live → Type 0
AllApart h [] = Unit {0}
AllApart h ((a, r) ∷ l) = Inside h a r × Apart a r l × AllApart h l

-- the block of every live address is in use and big enough, and no address is live twice
abbrev Uses : (b : ℕ → Bool) (h : Heap) → Live → Type 0
Uses b h [] = Unit {0}
Uses b h ((a, r) ∷ l) =
    ((16 ≤ a) × InUse b h (a - 16) × (r + 24 ≤ h.sizes (a - 16)) × (is_live a l ≡ false))
    × Uses b h l

record Sound (h : Heap) (l : Live) : Type 0 where
  blocks : ℕ → Bool
  heap : IsHeap blocks h
  room : HasRoom h
  uses : Uses blocks h l

module _ {b : ℕ → Bool} {h : Heap} (g : IsHeap b h) where
  live-Apart :
      (a r : ℕ) (l : Live)
      → 16 ≤ a
      → InUse b h (a - 16)
      → r + 24 ≤ h.sizes (a - 16)
      → is_live a l ≡ false
      → Uses b h l
      → Apart a r l
  unfolding is_live
  live-Apart a r [] lo u s n us = tt
  live-Apart a r ((c, t) ∷ l) lo u s n (v, us) = (
    ground (arith, g.tiled.apart (a - 16) (c - 16), g.tiled.apart (c - 16) (a - 16)),
    live-Apart a r l lo u s (ground arith) us,
  )

  live-AllApart : (l : Live) → Uses b h l → AllApart h l
  live-AllApart [] us = tt
  live-AllApart ((a, r) ∷ l) ((lo, u, s, n), us) =
      (ground (arith, g.tiled.within (a - 16)), live-Apart a r l lo u s n us, live-AllApart l us)

given-Uses :
    {b : ℕ → Bool} {h h' : Heap} {reqd head : ℕ} {align : Bool}
    (p : Allocated b h reqd align head h') (l : Live)
    → Uses b h l
    → Uses p.blocks h' l
given-Uses p [] us = tt
given-Uses p ((a, r) ∷ l) ((lo, u, s, n), us) =
    let (v, e, ne) = p.kept (a - 16) u in ((lo, v, rw e s, n), given-Uses p l us)

alloc-is_live :
    {b : ℕ → Bool} {h h' : Heap} {reqd head : ℕ} {align : Bool}
    (p : Allocated b h reqd align head h') (l : Live) (addr : ℕ)
    → addr - 16 ≡ head
    → Uses b h l
    → is_live addr l ≡ false
unfolding is_live
alloc-is_live p [] addr e us = refl
alloc-is_live p ((a, r) ∷ l) addr e ((lo, u, s, n), us) =
    let (v, k, ne) = p.kept (a - 16) u in ground (arith, alloc-is_live p l addr e us)

live_remove-is_live :
    (addr x : ℕ) (l : Live) → is_live x l ≡ false → is_live x (live_remove addr l) ≡ false
unfolding is_live live_remove
live_remove-is_live addr x [] n = refl
live_remove-is_live addr x ((a, r) ∷ l) n = ground (arith, live_remove-is_live addr x l)

released-Uses :
    {b : ℕ → Bool} {h h' : Heap} {head : ℕ} (p : Freed b h head h') (addr : ℕ) (l : Live)
    → addr ≡ head + 16
    → Uses b h l
    → Uses p.blocks h' (live_remove addr l)
unfolding live_remove
released-Uses p addr [] e us = tt
released-Uses {h' = h'} {head = head} p addr ((a, r) ∷ l) e ((lo, (u1, u2), s, n), us) =
    let ih = released-Uses p addr l e us in
    elim (Bool-cases (a == addr)) [
      | inl t ↦ rw t ih
      | inr t ↦
          let (k1, k2, k3) = p.kept (a - 16) u1 u2 (ground arith) in
          rw t ((lo, (k1, k2), rw k3 s, live_remove-is_live addr a l n), ih)
    ]

kept-Uses :
    {b : ℕ → Bool} {h h' : Heap} (k : Keeps b h h') (l : Live) → Uses b h l → Uses k.blocks h' l
kept-Uses k [] us = tt
kept-Uses k ((a, r) ∷ l) ((lo, (u1, u2), s, n), us) =
    let (k1, k2, k3) = k.kept (a - 16) u1 u2 in ((lo, (k1, k2), rw k3 s, n), kept-Uses k l us)

live-InUse :
    (b : ℕ → Bool) (h : Heap) (addr : ℕ) (l : Live)
    → Uses b h l
    → is_live addr l ≡ true
    → (16 ≤ addr) × InUse b h (addr - 16)
unfolding is_live
live-InUse b h addr [] us i = ground arith
live-InUse b h addr ((a, r) ∷ l) ((lo, u, s, n), us) i = elim (Bool-cases (a == addr)) [
  | inl t ↦ let e : a ≡ addr = ground arith in (rw e at lo, subst (λ z. InUse b h (z - 16)) e u)
  | inr t ↦ live-InUse b h addr l us (ground arith)
]

-- the heap of heap_init before its call of heap_expand
abbrev empty_heap : (start end_ : ℕ) → Heap → Heap
empty_heap start end_ h0 = record h0 {
  memstart = start;
  memend = start;
  memmax = end_;
  locked = false;
  holes = [];
}

empty-IsHeap : (start end_ : ℕ) (h0 : Heap) → IsHeap (λ x. false) (empty_heap start end_ h0)
unfolding inserted
empty-IsHeap start end_ h0 = record {
  tiled = record {
    within = λ x bx. ground arith;
    followed = λ x bx. ground arith;
    footed = λ x bx n. ground arith;
    apart = λ x y bx by lt. ground arith;
    signed = λ x bx. ground arith;
    ordered = omega arith;
  };
  hole = λ x i. ground arith;
}

module _ (start end_ : ℕ) (h0 : Heap)
    (room : (start + 24 ≤ end_) × (end_ < 2 ^ 32) × (start + 4096 < 2 ^ 32)) where
  init-Sound : Sound (heap_init start end_ h0) []
  unfolding heap_init
  init-Sound =
      let h = empty_heap start end_ h0 in
      let e : (end_ == start) ≡ false = ground arith in
      let x =
        appended-Expanded h (expansion 1 h) (empty-IsHeap start end_ h0)
          (unfold expansion in ground arith) in
      let w : word (start + expansion 1 h) ≡ start + expansion 1 h =
        unfold expansion in ground arith in
      let g = heap_free_nolock (heap_addr start) (appended (expansion 1 h) h) in
      let o : heap_expand 1 h ≡ (some start, g) = unfold heap_expand in rw (e, w) refl in
      subst (λ (p : Option ℕ × Heap). Sound p.1 []) (sym o)
        (record {
          blocks = x.keeps.blocks;
          heap = x.keeps.heap;
          room = omega (arith, room, x.keeps.ends.0, x.keeps.rest.0);
          uses = tt;
        })

  Reach-Sound : (h : Heap) (l : Live) → Reach start end_ h0 h l → Sound h l
  Reach-Sound _ _ (Reach.boot h e) = subst (λ k. Sound k []) (sym e) init-Sound
  Reach-Sound _ _ (Reach.alloc d reqd addr align h h' l m small can fits e) =
      let s = Reach-Sound h l m in
      let (lo, p) =
        subst (λ o. AllocSpec s.blocks h reqd align o) e
          (heap_alloc-AllocSpec s.blocks d h reqd align s.heap small s.room can fits) in
      record {
        blocks = p.blocks;
        heap = p.heap;
        room = omega (arith, s.room, p.ends, p.rest.0);
        uses = ((lo, p.here, p.big, alloc-is_live p l addr refl s.uses), given-Uses p l s.uses);
      }
  Reach-Sound _ _ (Reach.refused d reqd align h h' l m small can fits e) =
      let s = Reach-Sound h l m in
      let (k, t, n) =
        subst (λ o. AllocSpec s.blocks h reqd align o) e
          (heap_alloc-AllocSpec s.blocks d h reqd align s.heap small s.room can fits) in
      record {
        blocks = k.blocks;
        heap = k.heap;
        room = omega (arith, s.room, k.ends.0, k.rest.0);
        uses = kept-Uses k l s.uses;
      }
  Reach-Sound _ _ (Reach.free addr h h' l l' m i e el) =
      let s = Reach-Sound h l m in
      let (lo, u) = live-InUse s.blocks h addr l s.uses i in
      let ea : addr ≡ addr - 16 + 16 = omega arith in
      let (f, t) =
        subst (λ o. FreeSpec s.blocks h (addr - 16) o) (ap (λ a. heap_free a h) (sym ea) ∙ e)
          (heap_free-FreeSpec s.blocks h (addr - 16) s.heap u) in
      record {
        blocks = f.blocks;
        heap = f.heap;
        room = omega (arith, s.room, f.ends.0, f.rest.0);
        uses = rw el (released-Uses f addr l ea s.uses);
      }

  -- Whatever calls have been made since heap_init, the memory handed out and not freed lies inside the
  -- heap, and no two pieces of it overlap, headers and footers included. The requests are below
  -- 2 ^ 32 - 4120 bytes, an aligned one is of 4056 bytes or more, the heap then begins, ends and may
  -- end at page boundaries, and no hole's header lies in the last 15 bytes of a page. What heap_expand
  -- adds for a request ends below 2 ^ 32: once, or for an aligned block as often as calls are allowed.
  -- The heap starts a page or more below 2 ^ 32 and has room for one block.
  pub Reach-AllApart : (h : Heap) (l : Live) → Reach start end_ h0 h l → AllApart h l
  Reach-AllApart h l m = let s = Reach-Sound h l m in live-AllApart s.heap l s.uses
