-- ===== src/Kheap/Locate.antt =====
-- heap_locate of kernel/src/kheap.c: the calls of itself after it has got more memory.
use stewieos.Prelude.{
  ℕ, zero, suc, ◌+◌, ◌-◌, ◌≤◌, ◌<◌, ◌≡◌, ◌⊎◌, inl, inr, refl, Bool, true, false, Option, none, some,
  arith, Bool-cases, ltb, ◌∙◌, subst, sym, ◌%◌,
}
use stewieos.Kheap.{
  Heap, inserted, heap_expand, expansion, word, Search, search_holes, heap_locate, after_expand,
  after_search,
}
use stewieos.Kheap.Combine.{IsHeap}
use stewieos.Kheap.Trim.{Chosen}
use stewieos.Kheap.Align.{Serves}
use stewieos.Kheap.Expand.{
  ExpandSpec, Keeps, Small, HasRoom, Expanded, Fits, heap_expand-ExpandSpec,
}
use native.Mathlib.Nat.{suc-mul}
use stewieos.Kheap.Scan.{CanAlign, SearchSpec, search_holes-SearchSpec}

-- No hole is big enough, and there is no memory left to add, or heap_expand would add too little.
abbrev pub NoMemory : (need : ℕ) → Heap → Type 0
NoMemory need h =
    ((x : ℕ) → inserted x h.holes ≡ true → h.sizes x < need)
    × ((h.memmax ≡ h.memend) ⊎ (expansion need h < need))

-- What heap_locate returns. NULL has a reason where the block need not be aligned, and only a search
-- for an aligned block can be deeper than the fuel.
abbrev pub LocateSpec :
    (b : ℕ → Bool) (h : Heap) (reqd : ℕ) (align : Bool) → Option (Option ℕ × Heap) → Type 0
LocateSpec b h reqd align none = align ≡ true
LocateSpec b h reqd align (some (none, h')) =
    Keeps b h h' × (align ≡ false → NoMemory (reqd + 24) h)
LocateSpec b h reqd align (some (some x, h')) = Serves b h reqd align x h'

same-Keeps : {b : ℕ → Bool} {h : Heap} → IsHeap b h → Keeps b h h
same-Keeps {b} g = record {
  blocks = b;
  heap = g;
  kept = λ y by ny. (by, ny, refl);
  ends = (refl, omega arith);
  rest = (refl, refl);
}

trans-Keeps :
    {b : ℕ → Bool} {h h' h'' : Heap} (k : Keeps b h h') → Keeps k.blocks h' h'' → Keeps b h h''
trans-Keeps c d = record {
  blocks = d.blocks;
  heap = d.heap;
  kept = λ y by ny.
      let (k1, k2, k3) = c.kept y by ny in let (j1, j2, j3) = d.kept y k1 k2 in (j1, j2, j3 ∙ k3);
  ends = (d.ends.0 ∙ c.ends.0, omega (arith, c.ends, d.ends));
  rest = (d.rest.0 ∙ c.rest.0, d.rest.1 ∙ c.rest.1);
}

Keeps-Chosen :
    {b : ℕ → Bool} {h h' h'' : Heap} {n x : ℕ} (k : Keeps b h h')
    → Chosen k.blocks h' n x h''
    → Chosen b h n x h''
Keeps-Chosen c d = record {
  blocks = d.blocks;
  heap = d.heap;
  is_hole = d.is_hole;
  big = d.big;
  kept = λ y by ny.
      let (k1, k2, k3) = c.kept y by ny in let (j1, j2, j3) = d.kept y k1 k2 in (j1, j2, j3 ∙ k3);
  ends = (d.ends.0 ∙ c.ends.0, omega (arith, c.ends, d.ends));
  rest = (d.rest.0 ∙ c.rest.0, d.rest.1 ∙ c.rest.1);
}

-- A heap that is left by another keeps its promises.
after-LocateSpec :
    {b : ℕ → Bool} {h h' : Heap} (k : Keeps b h h') (reqd : ℕ) (o : Option (Option ℕ × Heap))
    → LocateSpec k.blocks h' reqd true o
    → LocateSpec b h reqd true o
after-LocateSpec k reqd none s = s
after-LocateSpec k reqd (some (none, h')) (s, r) = (trans-Keeps k s, λ e. ground arith)
after-LocateSpec k reqd (some (some x, h')) (s, r) = (Keeps-Chosen k s, r)

-- With a hole that is big enough, the first search finds one.
pub plain_found :
    (b : ℕ → Bool) (d reqd x : ℕ) (h : Heap) (r : Search)
    → SearchSpec b h reqd false h.holes r
    → inserted x h.holes ≡ true
    → reqd + 24 ≤ h.sizes x
    → search_holes reqd false h.holes h ≡ r
    → (y : ℕ) × (h' : Heap) × (heap_locate (suc d) reqd false h ≡ some (some y, h'))
      × Serves b h reqd false y h'
unfolding heap_locate after_search
plain_found b d reqd x h (Search.corrupt c) s i big e = elim s [ ]
plain_found b d reqd x h (Search.found c h') s i big e = (c, h', rw e refl, s)
plain_found b d reqd x h Search.nothing s i big e = ground (arith, s refl x i)

-- after a search that found nothing
plain_expanded :
    (b : ℕ → Bool) (d reqd : ℕ) (h : Heap)
    → Small reqd
    → ((x : ℕ) → inserted x h.holes ≡ true → h.sizes x < reqd + 24)
    → (o : Option ℕ × Heap) → ExpandSpec b h (expansion (reqd + 24) h) o
    → (g : IsHeap b h)
    → LocateSpec b h reqd false
        (after_expand (reqd + 24) (λ (k : Heap). heap_locate (suc d) reqd false k) o)
unfolding after_expand
plain_expanded b d reqd h small few (none, h') (e, m) g =
    (subst (λ k. Keeps b h k) (sym e) (same-Keeps g), λ f. (few, inl m))
plain_expanded b d reqd h small few (some head, h') (e, x, ne) g =
    elim (Bool-cases (ltb (h'.sizes head) (reqd + 24))) [
      | inl t ↦ rw t (x.keeps, λ f. (few, inr (ground (arith, x.stale))))
      | inr t ↦
          let k = x.keeps in
          let s =
            search_holes-SearchSpec h' k.heap reqd false small (λ f. ground arith) h'.holes
              (λ y j. j) in
          let big : reqd + 24 ≤ h'.sizes x.into = ground (arith, x.stale, x.big) in
          let (y, h'', f, sv) = plain_found k.blocks d reqd x.into h' _ s x.is_hole big refl in
          rw (t, f) (Keeps-Chosen k sv.0, sv.1)
    ]

expansion_same :
    (amount : ℕ) (h h' : Heap)
    → h'.memstart ≡ h.memstart
    → h'.memmax ≡ h.memmax
    → expansion amount h' ≡ expansion amount h
unfolding expansion
expansion_same amount h h' s m = rw (s, m) refl

expansion-pages :
    (h : Heap) (reqd : ℕ)
    → Small reqd
    → HasRoom h
    → CanAlign reqd h
    → expansion (reqd + 24) h % 4096 ≡ 0
unfolding expansion
expansion-pages h reqd small room can =
    let whole : (a b : ℕ) → a % 4096 ≡ 0 → b % 4096 ≡ 0 → (a - b) % 4096 ≡ 0 =
      λ a b p q. omega arith in
    ground (arith, can.start_page, can.max_page, whole h.memmax h.memstart)

Expanded-CanAlign :
    {b : ℕ → Bool} {h h' : Heap} (reqd : ℕ)
    → Small reqd
    → HasRoom h
    → CanAlign reqd h
    → Expanded b h (expansion (reqd + 24) h) h'
    → CanAlign reqd h'
Expanded-CanAlign {h} {h'} reqd small room can x =
    let w = expansion-pages h reqd small room can in
    record {
      page = can.page;
      start_page = rw x.keeps.ends.0 can.start_page;
      end_page = rw x.grown (let e = can.end_page in omega arith);
      max_page = rw x.keeps.rest.0 can.max_page;
      splits = λ y i. ground (arith, x.olds y i, can.end_page, can.splits y);
    }

aligned_expanded :
    (b : ℕ → Bool) (d reqd : ℕ) (h : Heap) (again : Heap → Option (Option ℕ × Heap))
    → Small reqd
    → HasRoom h
    → CanAlign reqd h
    → Fits (suc d) reqd true h
    → ((c : ℕ → Bool) (k : Heap)
        → IsHeap c k
        → CanAlign reqd k
        → HasRoom k
        → Fits d reqd true k
        → LocateSpec c k reqd true (again k))
    → (o : Option ℕ × Heap) → ExpandSpec b h (expansion (reqd + 24) h) o
    → (g : IsHeap b h) → LocateSpec b h reqd true (after_expand (reqd + 24) again o)
unfolding after_expand
aligned_expanded b d reqd h again small room can fits ih (none, h') (e, m) g =
    (subst (λ k. Keeps b h k) (sym e) (same-Keeps g), λ f. ground arith)
aligned_expanded b d reqd h again small room can fits ih (some head, h') (e, x, ne) g =
    let k = x.keeps in
    let same = expansion_same (reqd + 24) h h' k.ends.0 k.rest.0 in
    elim (Bool-cases (ltb (h'.sizes head) (reqd + 24))) [
      | inl t ↦ rw t (k, λ f. ground arith)
      | inr t ↦ rw t (
          after-LocateSpec k reqd (again h') (
            ih k.blocks h' k.heap (Expanded-CanAlign reqd small room can x)
              (omega (arith, room, k.ends, k.rest), omega (arith, room, k.rest))
              (rw same (omega (arith, fits, x.grown, suc-mul d (expansion (reqd + 24) h))))))
    ]

aligned_searched :
    (b : ℕ → Bool) (d reqd : ℕ) (h : Heap) (again : Heap → Option (Option ℕ × Heap))
    → IsHeap b h
    → Small reqd
    → HasRoom h
    → CanAlign reqd h
    → Fits (suc d) reqd true h
    → ((c : ℕ → Bool) (k : Heap)
        → IsHeap c k
        → CanAlign reqd k
        → HasRoom k
        → Fits d reqd true k
        → LocateSpec c k reqd true (again k))
    → (r : Search) → SearchSpec b h reqd true h.holes r
    → LocateSpec b h reqd true (after_search (reqd + 24) again h r)
unfolding after_search
aligned_searched b d reqd h again g small room can fits ih (Search.corrupt c) s = elim s [ ]
aligned_searched b d reqd h again g small room can fits ih (Search.found c h') s = s
aligned_searched b d reqd h again g small room can fits ih Search.nothing s =
    aligned_expanded b d reqd h again small room can fits ih (heap_expand (reqd + 24) h)
      (heap_expand-ExpandSpec h reqd g small room
        (omega (arith, fits, suc-mul d (expansion (reqd + 24) h))))
      g

pub heap_locate-aligned :
    (d : ℕ) (b : ℕ → Bool) (reqd : ℕ) (h : Heap)
    → IsHeap b h
    → Small reqd
    → HasRoom h
    → CanAlign reqd h
    → Fits d reqd true h
    → LocateSpec b h reqd true (heap_locate d reqd true h)
unfolding heap_locate
heap_locate-aligned zero b reqd h g small room can fits = refl
heap_locate-aligned (suc d) b reqd h g small room can fits =
    let e : word (reqd + 24) ≡ reqd + 24 = omega arith in
    rw e (
      aligned_searched b d reqd h _ g small room can fits
        (λ c k gk ck rk fk. heap_locate-aligned d c reqd k gk small rk ck fk) _
        (search_holes-SearchSpec h g reqd true small (λ f. can) h.holes (λ y j. j)))

plain_searched :
    (b : ℕ → Bool) (d reqd : ℕ) (h : Heap)
    → IsHeap b h
    → Small reqd
    → HasRoom h
    → Fits 1 reqd false h
    → (r : Search) → SearchSpec b h reqd false h.holes r
    → LocateSpec b h reqd false
        (after_search (reqd + 24) (λ (k : Heap). heap_locate (suc d) reqd false k) h r)
unfolding after_search
plain_searched b d reqd h g small room fits (Search.corrupt c) s = elim s [ ]
plain_searched b d reqd h g small room fits (Search.found c h') s = s
plain_searched b d reqd h g small room fits Search.nothing s =
    plain_expanded b d reqd h small (s refl) (heap_expand (reqd + 24) h)
      (heap_expand-ExpandSpec h reqd g small room (omega (arith, fits))) g

heap_locate-suc :
    (d reqd : ℕ) (h : Heap)
    → heap_locate (suc d) reqd false h
      ≡ after_search
          (word (reqd + 24))
          (λ (k : Heap). heap_locate d reqd false k)
          h
          (search_holes reqd false h.holes h)
unfolding heap_locate
heap_locate-suc d reqd h = refl

-- Two levels are enough where the block need not be aligned.
pub heap_locate-plain :
    (d : ℕ) (b : ℕ → Bool) (reqd : ℕ) (h : Heap)
    → IsHeap b h
    → Small reqd
    → HasRoom h
    → Fits 1 reqd false h
    → LocateSpec b h reqd false (heap_locate (suc (suc d)) reqd false h)
heap_locate-plain d b reqd h g small room fits =
    let e : word (reqd + 24) ≡ reqd + 24 = omega arith in
    rw (heap_locate-suc (suc d) reqd h, e)
      (plain_searched b d reqd h g small room fits _
        (search_holes-SearchSpec h g reqd false small (λ f. ground arith) h.holes (λ y j. j)))
