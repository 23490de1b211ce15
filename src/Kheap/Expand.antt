-- ===== src/Kheap/Expand.antt =====
-- heap_expand of kernel/src/kheap.c, and which holes heap_free_nolock can leave.
use stewieos.Prelude.{
  ℕ, zero, suc, ◌+◌, ◌-◌, ◌≤◌, ◌<◌, ◌≡◌, ◌≢◌, ◌⊎◌, inl, inr, refl, Bool, true, false, ◌||◌, ◌&&◌,
  not, Option, none, some, arith, Bool-cases, if◌then◌else◌, length, ltb, leb, ◌==◌, ◌^◌, ◌∙◌, ◌*◌,
}
use stewieos.Kheap.{
  Heap, head_init, inserted, list_rem, heap_add_hole, put_back, combine_backwards, combine_forwards,
  heap_free_nolock, heap_expand, expansion, heap_addr, poke, kheap_magic, word,
}
use stewieos.Kheap.Tiled.{mark, append-IsTiled}
use stewieos.Kheap.Holes.{inserted-remove_hole}
use stewieos.Kheap.Combine.{IsHeap}
use stewieos.Kheap.Stale.{heap_free_nolock-last}
use stewieos.Kheap.Free.{inserted-heap_add_hole, heap_free_nolock-Freed}

-- A hole after combining was one before, and so was the block that it ends in, if that is another.
combine_backwards-holes :
    (n head : ℕ) (h : Heap) (x : ℕ)
    → (inserted x (combine_backwards n head h).1.holes ≡ true → inserted x h.holes ≡ true)
      × ((combine_backwards n head h).0 ≡ x → (head ≡ x) ⊎ (inserted x h.holes ≡ true))
unfolding combine_backwards
combine_backwards-holes zero head h x = (λ i. i, λ e. inl e)
combine_backwards-holes (suc n) head h x =
    let prev = h.foot_headers head in
    let h1 = head_init prev (h.sizes prev + h.sizes head) (list_rem prev h) in
    let (ih1, ih2) = combine_backwards-holes n prev h1 x in
    let m : inserted x h1.holes ≡ (if prev == x then false else inserted x h.holes) =
      unfold head_init in inserted-remove_hole x prev h.holes in
    elim (Bool-cases (not (h.memstart == head) && inserted prev h.holes)) [
      | inl e ↦ rw e (λ i. ground (arith, ih1 i), λ i. ground (arith, ih2 i))
      | inr e ↦ rw e (λ i. i, λ i. inl i)
    ]

combine_forwards-holes :
    (n head : ℕ) (h : Heap) (x : ℕ)
    → inserted x (combine_forwards n head h).holes ≡ true
    → inserted x h.holes ≡ true
unfolding combine_forwards
combine_forwards-holes zero head h x i = i
combine_forwards-holes (suc n) head h x i =
    let next = head + h.sizes head in
    let h1 = head_init head (h.sizes head + h.sizes next) (list_rem next h) in
    let ih = combine_forwards-holes n head h1 x in
    let m : inserted x h1.holes ≡ (if next == x then false else inserted x h.holes) =
      unfold head_init in inserted-remove_hole x next h.holes in
    elim (Bool-cases (not (h.memend == head + h.sizes head) && inserted next h.holes)) [
      | inl e ↦ let j = rw e at i in ground (arith, ih j)
      | inr e ↦ rw e at i
    ]

put_back-holes :
    (head : ℕ) (h : Heap) (x : ℕ)
    → inserted x (put_back head h).holes ≡ true
    → (head ≡ x) ⊎ (inserted x h.holes ≡ true)
unfolding put_back
put_back-holes head h x i = elim (Bool-cases (h.magics head == 732803074)) [
  | inl e ↦
      let s : Heap = record h {
        foot_magics = poke h.foot_magics (head + h.sizes head) kheap_magic;
        foot_headers = poke h.foot_headers (head + h.sizes head) head;
      } in
      let j : inserted x (heap_add_hole head s).holes ≡ true = rw e at i in
      let k = rw (inserted-heap_add_hole s head x) at j in ground arith
  | inr e ↦ inr (rw e at i)
]

-- The holes that heap_free_nolock leaves are the block itself, or were holes.
pub heap_free_nolock-holes :
    (head : ℕ) (h : Heap) (x : ℕ)
    → inserted x (heap_free_nolock (heap_addr head) h).holes ≡ true
    → (head ≡ x) ⊎ (inserted x h.holes ≡ true)
unfolding heap_free_nolock
heap_free_nolock-holes head h x i =
    let e : head + 16 - 16 ≡ head = omega arith in
    let (b1, b2) = combine_backwards-holes (length h.holes) head h x in
    let h1 = (combine_backwards (length h.holes) head h).1 in
    let p = (combine_backwards (length h.holes) head h).0 in
    let f = combine_forwards-holes (length h1.holes) p h1 x in
    elim (Bool-cases (ltb (head + 16) h.memstart || leb h.memend (head + 16))) [
      | inl t ↦ inr (rw t at i)
      | inr t ↦ let j = rw (t, e) at i in ground (arith, put_back-holes p _ x j, b1, b2, f)
    ]

-- Blocks that were in use still are, with the same size, while the heap may grow.
pub record Keeps (b : ℕ → Bool) (h h' : Heap) : Type 0 where
  pub blocks : ℕ → Bool
  pub heap : IsHeap blocks h'
  pub kept :
      (y : ℕ)
      → b y ≡ true
      → inserted y h.holes ≡ false
      → (blocks y ≡ true) × (inserted y h'.holes ≡ false) × (h'.sizes y ≡ h.sizes y)
  pub ends : (h'.memstart ≡ h.memstart) × (h.memend ≤ h'.memend)
  pub rest : (h'.memmax ≡ h.memmax) × (h'.locked ≡ h.locked)

-- a size for which neither heap_expand nor heap_trim wraps
abbrev pub Small : ℕ → Type 0
Small reqd = reqd + 4120 < 2 ^ 32

-- memory for one block at least, at addresses of 32 bits
abbrev pub HasRoom : Heap → Type 0
HasRoom h = (h.memstart + 24 ≤ h.memmax) × (h.memmax < 2 ^ 32)

-- as many expansions as heap_locate can ask for end below 2 ^ 32: one, or `n` for an aligned block
abbrev pub Fits : (n reqd : ℕ) (align : Bool) → Heap → Type 0
Fits n reqd align h = h.memend + (if align then n else 1) * expansion (reqd + 24) h < 2 ^ 32

pub expansion_le : (h : Heap) (reqd : ℕ) → Small reqd → HasRoom h → 24 ≤ expansion (reqd + 24) h
unfolding expansion
expansion_le h reqd small room = ground arith

-- the heap when heap_expand has written the header of the new block
abbrev pub appended : (size : ℕ) → Heap → Heap
appended size h = record (head_init h.memend size h) { memend = h.memend + size }

pub appended-IsHeap :
    {b : ℕ → Bool} (h : Heap) (size : ℕ)
    → IsHeap b h
    → 24 ≤ size
    → IsHeap (mark b h.memend true) (appended size h)
appended-IsHeap h size g lo =
    let t = append-IsTiled g.tiled size lo in
    unfold head_init in
    record {
      tiled = record {
        within = t.within;
        followed = t.followed;
        footed = t.footed;
        apart = t.apart;
        signed = t.signed;
        ordered = t.ordered;
      };
      hole = λ x i. ground (arith, g.hole x);
    }

-- The new memory lies in a hole, and the other holes are old ones.
pub record Expanded (b : ℕ → Bool) (h : Heap) (size : ℕ) (h' : Heap) : Type 0 where
  pub keeps : Keeps b h h'
  pub into : ℕ
  pub is_hole : inserted into h'.holes ≡ true
  pub big : size ≤ h'.sizes into
  pub olds : (x : ℕ) → inserted x h'.holes ≡ true → (h.memend ≡ x) ⊎ (inserted x h.holes ≡ true)
  pub grown : h'.memend ≡ h.memend + size
  pub stale : h'.sizes h.memend ≡ size

-- what heap_expand returns: NULL at the maximum, or the new block
abbrev pub ExpandSpec : (b : ℕ → Bool) (h : Heap) (size : ℕ) → Option ℕ × Heap → Type 0
ExpandSpec b h size (none, h') = (h' ≡ h) × (h.memmax ≡ h.memend)
ExpandSpec b h size (some head, h') =
    (head ≡ h.memend) × Expanded b h size h' × (h.memmax ≢ h.memend)

pub appended-Expanded :
    {b : ℕ → Bool} (h : Heap) (size : ℕ)
    → IsHeap b h
    → 24 ≤ size
    → Expanded b h size (heap_free_nolock (heap_addr h.memend) (appended size h))
appended-Expanded {b} h size g lo =
    let a = appended-IsHeap h size g lo in
    let t = g.tiled in
    let new : (x : ℕ) → b x ≡ true → x + 24 ≤ h.memend = λ x bx. ground (arith, t.within x) in
    let nb : b h.memend ≡ false = ground (arith, new h.memend) in
    let same : (x : ℕ) → (h.memend ≢ x) → (appended size h).sizes x ≡ h.sizes x =
      unfold head_init in λ x ne. ground arith in
    let here : (appended size h).sizes h.memend ≡ size = unfold head_init in ground arith in
    let hs : (appended size h).holes ≡ h.holes = unfold head_init in refl in
    let f =
      heap_free_nolock-Freed (appended size h) h.memend a (ground arith)
        (rw hs (ground (arith, g.hole h.memend))) in
    record {
      keeps = record {
        blocks = f.blocks;
        heap = f.heap;
        kept = λ y by ny.
            let ne : h.memend ≢ y = ground (arith, new y) in
            let (k1, k2, k3) = f.kept y (ground arith) (rw hs ny) ne in (k1, k2, k3 ∙ same y ne);
        ends = (unfold head_init in f.ends.0, unfold head_init in omega (arith, f.ends.1));
        rest = unfold head_init in f.rest;
      };
      into = f.into;
      is_hole = f.is_hole;
      big = omega (arith, f.covers, here);
      olds = λ x i. rw hs at (heap_free_nolock-holes h.memend (appended size h) x i);
      grown = f.ends.1;
      stale =
          heap_free_nolock-last (appended size h) h.memend a (ground arith)
            (rw hs (ground (arith, g.hole h.memend))) (unfold head_init in ground arith)
          ∙ here;
    }

pub heap_expand-ExpandSpec :
    {b : ℕ → Bool} (h : Heap) (reqd : ℕ)
    → IsHeap b h
    → Small reqd
    → HasRoom h
    → h.memend + expansion (reqd + 24) h < 2 ^ 32
    → ExpandSpec b h (expansion (reqd + 24) h) (heap_expand (reqd + 24) h)
unfolding heap_expand
heap_expand-ExpandSpec h reqd g small room fits = elim (Bool-cases (h.memmax == h.memend)) [
  | inl e ↦ rw e (refl, ground arith)
  | inr e ↦
      let w : word (h.memend + expansion (reqd + 24) h) ≡ h.memend + expansion (reqd + 24) h =
        omega (arith, fits) in
      rw (e, w) (refl, appended-Expanded h _ g (expansion_le h reqd small room), ground arith)
]
