-- ===== src/Kheap.antt =====
-- The kernel heap of kernel/src/kheap.c and kernel/include/stewieos/kheap.h. Memory is what the
-- allocator reads of it: the two fields of the header at an address, and the two fields of the footer
-- that ends at an address. The list of holes is the list of the addresses of their headers. Sums with
-- a requested size wrap at 2 ^ 32, an address in the heap is a number. The pages that heap_expand maps
-- are not modelled, nor is INIT_LIST on a header that stands in the list of holes.
pub mod Tiled
pub mod Holes
pub mod Combine
pub mod Free
pub mod Trim
pub mod Align
pub mod Expand
pub mod Stale
pub mod Scan
pub mod Locate
pub mod Alloc
pub mod Reach
pub mod Reuse
pub mod Lock
pub mod Flaws
mod Tests
use stewieos.Prelude.{
  ℕ, zero, suc, ◌+◌, ◌-◌, ◌*◌, ◌/◌, ◌%◌, ◌^◌, Bool, true, false, not, ◌&&◌, ◌||◌, Option, none,
  some, List, [], ◌∷◌, ltb, leb, ◌==◌, if◌then◌else◌, length,
}

abbrev pub kheap_magic : ℕ
kheap_magic = 732803074

-- KHEAP_OVHD
abbrev pub kheap_ovhd : ℕ
kheap_ovhd = 24

-- `heap_t`, with the memory it manages. `foot_magics` and `foot_headers` are read at the address
-- where a block ends.
pub record Heap : Type 0 where
  pub memstart : ℕ
  pub memend : ℕ
  pub memmax : ℕ
  pub holes : List ℕ
  pub locked : Bool
  pub magics : ℕ → ℕ
  pub sizes : ℕ → ℕ
  pub foot_magics : ℕ → ℕ
  pub foot_headers : ℕ → ℕ

-- a `size_t` sum, and a `size_t` difference
abbrev pub word : ℕ → ℕ
word n = n % 2 ^ 32

abbrev pub minus : ℕ → ℕ → ℕ
minus a b = if leb b a then a - b else (a + 2 ^ 32) - b

abbrev pub page_align : ℕ → ℕ
page_align a = a / 4096 * 4096

abbrev pub page_offset : ℕ → ℕ
page_offset a = a % 4096

abbrev pub heap_addr : ℕ → ℕ
heap_addr head = head + 16

abbrev pub heap_head : ℕ → ℕ
heap_head addr = addr - 16

abbrev pub heap_is_first : Heap → ℕ → Bool
heap_is_first h head = h.memstart == head

abbrev pub heap_is_last : Heap → ℕ → Bool
heap_is_last h head = h.memend == head + h.sizes head

abbrev pub head_prev : Heap → ℕ → ℕ
head_prev h head = h.foot_headers head

abbrev pub head_next : Heap → ℕ → ℕ
head_next h head = head + h.sizes head

-- a store to memory
abbrev pub poke : (ℕ → ℕ) → (k v : ℕ) → ℕ → ℕ
poke f k v = λ x. if k == x then v else f x

unfoldable pub head_init : (head size : ℕ) → Heap → Heap
head_init head size h = record h {
  magics = poke h.magics head kheap_magic;
  sizes = poke h.sizes head size;
  foot_magics = poke h.foot_magics (head + size) kheap_magic;
  foot_headers = poke h.foot_headers (head + size) head;
}

-- list_inserted of a header's link
unfoldable pub inserted : ℕ → List ℕ → Bool
inserted head [] = false
inserted head (x ∷ xs) = x == head || inserted head xs

-- list_rem
unfoldable pub remove_hole : ℕ → List ℕ → List ℕ
remove_hole head [] = []
remove_hole head (x ∷ xs) = let rest = remove_hole head xs in if x == head then rest else x ∷ rest

abbrev pub list_rem : ℕ → Heap → Heap
list_rem head h = record h { holes = remove_hole head h.holes }

-- list_add_ordered with heap_compare_headers
unfoldable pub list_add_ordered : (ℕ → ℕ) → ℕ → List ℕ → List ℕ
list_add_ordered sizes what [] = what ∷ []
list_add_ordered sizes what (item ∷ items) =
    let rest = list_add_ordered sizes what items in
    if leb (sizes what) (sizes item) then what ∷ item ∷ items else item ∷ rest

unfoldable pub heap_add_hole : ℕ → Heap → Heap
unfolding head_init
heap_add_hole head h =
    let h' = head_init head (h.sizes head) h in
    record h' { holes = list_add_ordered h'.sizes head h.holes }

-- The loop that combines backwards, and the one that combines forwards, for `rounds` rounds at most.
-- Each round removes a hole from the list, so `length h.holes` rounds are enough.
unfoldable pub combine_backwards : (rounds head : ℕ) → Heap → ℕ × Heap
combine_backwards zero head h = (head, h)
combine_backwards (suc n) head h =
    let prev = head_prev h head in
    let rest =
      combine_backwards n prev (head_init prev (h.sizes prev + h.sizes head) (list_rem prev h)) in
    if not (heap_is_first h head) && inserted prev h.holes then rest else (head, h)

unfoldable pub combine_forwards : (rounds head : ℕ) → Heap → Heap
combine_forwards zero head h = h
combine_forwards (suc n) head h =
    let next = head_next h head in
    let rest =
      combine_forwards n head (head_init head (h.sizes head + h.sizes next) (list_rem next h)) in
    if not (heap_is_last h head) && inserted next h.holes then rest else h

-- the last lines of heap_free_nolock
unfoldable pub put_back : ℕ → Heap → Heap
put_back head h =
    if h.magics head == kheap_magic
    then heap_add_hole head (record h {
      foot_magics = poke h.foot_magics (head + h.sizes head) kheap_magic;
      foot_headers = poke h.foot_headers (head + h.sizes head) head;
    })
    else h

unfoldable pub heap_free_nolock : (addr : ℕ) → Heap → Heap
heap_free_nolock addr h =
    let (head, h') = combine_backwards (length h.holes) (heap_head addr) h in
    if ltb addr h.memstart || leb h.memend addr
    then h
    else put_back head (combine_forwards (length h'.holes) head h')

-- the amount of memory that heap_expand adds
unfoldable pub expansion : (amount : ℕ) → Heap → ℕ
expansion amount h =
    let rounded = if page_offset amount == 0 then amount else word (page_align amount + 4096) in
    if ltb h.memmax (word (h.memstart + rounded)) then minus h.memmax h.memstart else rounded

-- `none` is NULL.
unfoldable pub heap_expand : (amount : ℕ) → Heap → Option ℕ × Heap
heap_expand amount h =
    let size = expansion amount h in
    let head = h.memend in
    let h' = record (head_init head size h) { memend = word (h.memend + size) } in
    if h.memmax == h.memend then (none, h) else (some head, heap_free_nolock (heap_addr head) h')

-- The second half of heap_trim: what the request leaves of the block becomes a hole.
unfoldable pub trim_rest : (head reqd : ℕ) → Heap → ℕ × Heap
trim_rest head reqd h =
    let need = word (reqd + kheap_ovhd) in
    let temp = head + need in
    let cut = head_init temp (minus (h.sizes head) need) h in
    let trimmed = head_init head need (list_rem head cut) in
    if ltb (h.sizes head) (word (reqd + kheap_ovhd + kheap_ovhd))
    then (head, h)
    else (head, heap_add_hole head (heap_free_nolock (heap_addr temp) trimmed))

-- The header that page-aligns the block's contents, and the block split there.
abbrev pub aligned_head : ℕ → ℕ
aligned_head head = page_align head + 4096 - 16

unfoldable pub align_split : (head : ℕ) → Heap → Heap
align_split head h =
    let temp = aligned_head head in
    let cut = head_init temp (minus (h.sizes head) (minus temp head)) h in
    let shrunk = head_init head (minus temp head) (list_rem head cut) in
    heap_add_hole temp (heap_free_nolock (heap_addr head) shrunk)

-- `none` is NULL, with the heap unchanged.
unfoldable pub heap_trim : (head reqd : ℕ) (align : Bool) → Heap → Option (ℕ × Heap)
heap_trim head reqd align h =
    let temp = aligned_head head in
    if leb (h.sizes head) (word (reqd + kheap_ovhd * 2)) && not align
    then some (head, h)
    else if align && not (page_offset (heap_addr head) == 0)
    then (if leb (minus temp head) kheap_ovhd
          || ltb (minus (h.sizes head) (minus temp head)) (word (reqd + kheap_ovhd))
        then none
        else some (trim_rest temp reqd (align_split head h)))
    else some (trim_rest head reqd h)

-- The loop of heap_locate over the holes: a corrupt hole, or the block that it returns, or nothing.
pub data Search : Type 0 where
  corrupt : ℕ → Search
  found : ℕ → Heap → Search
  nothing : Search

unfoldable pub search_holes : (reqd : ℕ) (align : Bool) (items : List ℕ) → Heap → Search
search_holes reqd align [] h = Search.nothing
search_holes reqd align (head ∷ items) h =
    let rest = search_holes reqd align items h in
    if not (h.magics head == kheap_magic)
      || not (h.foot_magics (head + h.sizes head) == kheap_magic)
    then Search.corrupt head
    else if leb (word (reqd + kheap_ovhd)) (h.sizes head)
    then elim (heap_trim head reqd align h) [ none ↦ rest | some (b, h') ↦ Search.found b h' ]
    else rest

-- heap_locate after heap_expand; `again` is its call of itself.
unfoldable pub after_expand :
    (need : ℕ) (again : Heap → Option (Option ℕ × Heap))
    → Option ℕ × Heap
    → Option (Option ℕ × Heap)
after_expand need again (none, h) = some (none, h)
after_expand need again (some head, h) = if ltb (h.sizes head) need then some (none, h) else again h

-- heap_locate after its loop
unfoldable pub after_search :
    (need : ℕ) (again : Heap → Option (Option ℕ × Heap)) → Heap → Search → Option (Option ℕ × Heap)
after_search need again h (Search.corrupt head) = again (list_rem head h)
after_search need again h (Search.found head h') = some (some head, h')
after_search need again h Search.nothing = after_expand need again (heap_expand need h)

-- heap_locate calls itself at most `depth` times; the outer `none` is a search that is deeper.
unfoldable pub heap_locate : (depth reqd : ℕ) (align : Bool) → Heap → Option (Option ℕ × Heap)
heap_locate zero reqd align h = none
heap_locate (suc depth) reqd align h =
    let again = λ (g : Heap). heap_locate depth reqd align g in
    after_search (word (reqd + kheap_ovhd)) again h (search_holes reqd align h.holes h)

-- How a call ends: with an address or NULL, or spinning on the lock for ever, or with a search that is
-- deeper than `depth`.
pub data Finish : Type 0 where
  returned : Option ℕ → Heap → Finish
  spins : Finish
  deeper : Finish

-- the lines after heap_locate: NULL is returned with the lock held
unfoldable pub finish_alloc : Option (Option ℕ × Heap) → Finish
finish_alloc none = Finish.deeper
finish_alloc (some (none, h)) = Finish.returned none h
finish_alloc (some (some head, h)) =
    Finish.returned (some (heap_addr head)) (record (list_rem head h) { locked = false })

unfoldable pub heap_alloc : (depth reqd : ℕ) (align : Bool) → Heap → Finish
heap_alloc depth reqd align h =
    if h.locked
    then Finish.spins
    else finish_alloc (heap_locate depth reqd align (record h { locked = true }))

-- `none` spins on the lock for ever.
unfoldable pub heap_free : (addr : ℕ) → Heap → Option Heap
heap_free addr h =
    if h.locked
    then none
    else some (record (heap_free_nolock addr (record h { locked = true })) { locked = false })

-- `start` of the caller's memory is kept for the fields that heap_init does not write.
unfoldable pub heap_init : (start end_ : ℕ) → Heap → Heap
heap_init start end_ h =
    (heap_expand 1
      (record h { memstart = start; memend = start; memmax = end_; locked = false; holes = [] })).1
