-- ===== src/Kheap/Alloc.antt =====
-- heap_alloc and heap_free of kernel/src/kheap.c on every path.
use stewieos.Prelude.{
  ℕ, suc, ◌+◌, ◌-◌, ◌≤◌, ◌≡◌, ◌≢◌, inl, inr, refl, Bool, true, false, Option, none, some, arith,
  Bool-cases, ◌%◌, sym,
}
use stewieos.Kheap.{
  Heap, Finish, inserted, list_rem, expansion, heap_locate, heap_alloc, heap_free, finish_alloc,
}
use stewieos.Kheap.Combine.{IsHeap}
use stewieos.Kheap.Holes.{inserted-remove_hole}
use stewieos.Kheap.Free.{Freed, heap_free_nolock-Freed}
use stewieos.Kheap.Align.{Serves}
use stewieos.Kheap.Expand.{Keeps, Small, HasRoom, Fits}
use stewieos.Kheap.Scan.{CanAlign}
use stewieos.Kheap.Locate.{NoMemory, LocateSpec, heap_locate-plain, heap_locate-aligned}

-- a block that has been handed out
abbrev pub InUse : (b : ℕ → Bool) (h : Heap) (head : ℕ) → Type 0
InUse b h head = (b head ≡ true) × (inserted head h.holes ≡ false)

-- The block at `head` has been handed out: it was not in use before, it has room for `reqd` bytes and
-- its own header and footer, and it is aligned where that was asked for. Every block in use still is,
-- with the same size.
pub record Allocated (b : ℕ → Bool) (h : Heap) (reqd : ℕ) (align : Bool) (head : ℕ) (h' : Heap)
    : Type 0 where
  pub blocks : ℕ → Bool
  pub heap : IsHeap blocks h'
  pub here : InUse blocks h' head
  pub big : reqd + 24 ≤ h'.sizes head
  pub aligned : align ≡ true → (head + 16) % 4096 ≡ 0
  pub kept : (y : ℕ) → InUse b h y → InUse blocks h' y × (h'.sizes y ≡ h.sizes y) × (head ≢ y)
  pub ends : (h'.memstart ≡ h.memstart) × (h.memend ≤ h'.memend)
  pub rest : (h'.memmax ≡ h.memmax) × (h'.locked ≡ false)

-- what heap_alloc does on every path
abbrev pub AllocSpec : (b : ℕ → Bool) (h : Heap) (reqd : ℕ) (align : Bool) → Finish → Type 0
AllocSpec b h reqd align (Finish.returned (some addr) h') =
    (16 ≤ addr) × Allocated b h reqd align (addr - 16) h'
AllocSpec b h reqd align (Finish.returned none h') =
    Keeps b (record h { locked = true }) h'
    × (h'.locked ≡ true)
    × (align ≡ false → NoMemory (reqd + 24) h)
AllocSpec b h reqd align Finish.spins = h.locked ≡ true
AllocSpec b h reqd align Finish.deeper = align ≡ true

-- the lock does not matter to the blocks
pub locked-IsHeap :
    {b : ℕ → Bool} (h : Heap) (v : Bool) → IsHeap b h → IsHeap b (record h { locked = v })
locked-IsHeap h v g =
    let t = g.tiled in
    record {
      tiled = record {
        within = t.within;
        followed = t.followed;
        footed = t.footed;
        apart = t.apart;
        signed = t.signed;
        ordered = t.ordered;
      };
      hole = g.hole;
    }

take_out-Allocated :
    {b : ℕ → Bool} (h : Heap) (reqd : ℕ) (align : Bool) (head : ℕ) (h' : Heap)
    → Serves b (record h { locked = true }) reqd align head h'
    → Allocated b h reqd align head (record (list_rem head h') { locked = false })
take_out-Allocated h reqd align head h' (c, al) =
    let m = λ (x : ℕ). inserted-remove_hole x head h'.holes in
    let t = c.heap.tiled in
    record {
      blocks = c.blocks;
      heap = record {
        tiled = record {
          within = t.within;
          followed = t.followed;
          footed = t.footed;
          apart = t.apart;
          signed = t.signed;
          ordered = t.ordered;
        };
        hole = λ x i. ground (arith, m x, c.heap.hole x);
      };
      here = (c.heap.hole head c.is_hole, ground (arith, m head));
      big = c.big;
      aligned = al;
      kept = λ y (by, ny). ground (arith, c.kept y by ny, m y);
      ends = c.ends;
      rest = (c.rest.0, refl);
    }

finish_alloc-AllocSpec :
    (b : ℕ → Bool) (h : Heap) (reqd : ℕ) (align : Bool) (o : Option (Option ℕ × Heap))
    → LocateSpec b (record h { locked = true }) reqd align o
    → AllocSpec b h reqd align (finish_alloc o)
unfolding finish_alloc
finish_alloc-AllocSpec b h reqd align none s = s
finish_alloc-AllocSpec b h reqd align (some (none, h')) (k, r) =
    (k, k.rest.1, unfold expansion in r)
finish_alloc-AllocSpec b h reqd align (some (some head, h')) s =
    let e : head + 16 - 16 ≡ head = omega arith in
    (omega arith, rw e (take_out-Allocated h reqd align head h' s))

locked-LocateSpec :
    (d : ℕ) (b : ℕ → Bool) (h : Heap) (reqd : ℕ) (align : Bool)
    → IsHeap b h
    → Small reqd
    → HasRoom h
    → (align ≡ true → CanAlign reqd h)
    → Fits (suc (suc d)) reqd align h
    → LocateSpec b
        (record h { locked = true })
        reqd
        align
        (heap_locate (suc (suc d)) reqd align (record h { locked = true }))
locked-LocateSpec d b h reqd false g small room can fits =
    heap_locate-plain d b reqd _ (locked-IsHeap h true g) small room (unfold expansion in fits)
locked-LocateSpec d b h reqd true g small room can fits =
    let c = can refl in
    heap_locate-aligned (suc (suc d)) b reqd _ (locked-IsHeap h true g) small room
      (record {
        page = c.page;
        start_page = c.start_page;
        end_page = c.end_page;
        max_page = c.max_page;
        splits = c.splits;
      })
      (unfold expansion in fits)

-- heap_alloc on a heap that its blocks tile. It spins only where the lock is held. An address that it
-- returns is that of a block that was not in use, that has room for the request, its header and its
-- footer, and that is aligned where that was asked for; the lock is free. Where it returns NULL the
-- lock is held, and if no alignment was asked for, no hole is big enough and heap_expand cannot add
-- enough. In both cases the blocks tile the heap again, and every block in use still is, with the same
-- size. Only a search for an aligned block can call itself more than twice. The request is below
-- 2 ^ 32 - 4120 bytes and the heap has room for one block; an aligned request is for 4056 bytes or
-- more, in a heap of whole pages where no hole's header lies in the last 15 bytes of a page. What
-- heap_expand adds ends below 2 ^ 32: once, or for an aligned block as often as calls are allowed.
pub heap_alloc-AllocSpec :
    (b : ℕ → Bool) (d : ℕ) (h : Heap) (reqd : ℕ) (align : Bool)
    → IsHeap b h
    → Small reqd
    → HasRoom h
    → (align ≡ true → CanAlign reqd h)
    → Fits (suc (suc d)) reqd align h
    → AllocSpec b h reqd align (heap_alloc (suc (suc d)) reqd align h)
unfolding heap_alloc
heap_alloc-AllocSpec b d h reqd align g small room can fits = elim (Bool-cases h.locked) [
  | inl e ↦ simp e refl
  | inr e ↦ simp e (
      finish_alloc-AllocSpec b h reqd align _
        (locked-LocateSpec d b h reqd align g small room can fits))
]

-- what heap_free does with the address of a block in use; `none` spins on the lock
abbrev pub FreeSpec : (b : ℕ → Bool) (h : Heap) (head : ℕ) → Option Heap → Type 0
FreeSpec b h head none = h.locked ≡ true
FreeSpec b h head (some h') = Freed b h head h' × (h'.locked ≡ false)

-- heap_free of the address of a block in use, on a heap that its blocks tile, spins only where the lock
-- is held. Otherwise it leaves the lock free and a heap that its blocks tile, where the freed block
-- lies in a hole, and where every other block that was in use still is, with the same size.
pub heap_free-FreeSpec :
    (b : ℕ → Bool) (h : Heap) (head : ℕ)
    → IsHeap b h
    → InUse b h head
    → FreeSpec b h head (heap_free (head + 16) h)
unfolding heap_free
heap_free-FreeSpec b h head g (here, out) = elim (Bool-cases h.locked) [
  | inl e ↦ simp e refl
  | inr e ↦
      let f = heap_free_nolock-Freed _ head (locked-IsHeap h true g) here out in
      simp e (
        record {
          blocks = f.blocks;
          heap = locked-IsHeap _ false f.heap;
          into = f.into;
          is_hole = f.is_hole;
          covers = f.covers;
          kept = f.kept;
          ends = f.ends;
          rest = (f.rest.0, sym e);
        },
        refl,
      )
]
