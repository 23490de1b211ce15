-- ===== src/Pmm.antt =====
-- The physical memory manager of kernel/src/pmm.c: a bitmap of page frames, the page table entries
-- that own them, and the frame stack.
pub mod Bitmap
pub mod Owner
pub mod Stack
mod Tests
use stewieos.Prelude.{
  ℕ, zero, suc, ◌+◌, ◌-◌, ◌*◌, ◌/◌, ◌%◌, ◌^◌, Bool, true, false, ◌&&◌, ◌||◌, not, Option, none,
  some, List, [], ◌∷◌, ltb, ◌==◌, if◌then◌else◌, length, get_or, set, Word, test_bit, all_ones,
}

-- The globals of the bitmap allocator. A word of `physical_frame` has 32 bits.
pub record Frames : Type 0 where
  pub physical_frame : List Word
  pub physical_frame_count : ℕ

-- The fields of `page_t` that this file reads and writes; `frame` has 20 bits.
pub record Page : Type 0 where
  pub present : Bool
  pub user : Bool
  pub rw_bit : Bool
  pub frame : ℕ

-- `physical_frame[i]`
abbrev pub word_at : Frames → ℕ → Word
word_at s i = get_or s.physical_frame i []

-- The loop over `m` from `m` on, with `left` rounds left, in word `i`.
pub find_in_word : Word → (i m left : ℕ) → Option ℕ
find_in_word w i m zero = none
find_in_word w i m (suc left) =
    let rest = find_in_word w i (m + 1) left in
    if (i == 0) && (m == 0) then rest else if not (test_bit w m) then some (i * 32 + m) else rest

-- The loop over `i` from `i` on, with `left` rounds left.
pub find_from : Frames → (i left : ℕ) → Option ℕ
find_from s i zero = none
find_from s i (suc left) =
    let rest = find_from s (i + 1) left in
    let here = find_in_word (word_at s i) i 0 32 in
    if all_ones (word_at s i) then rest else elim here [ none ↦ rest | some f ↦ some f ]

-- `none` is the result (u32)-1.
pub find_free_frame : Frames → Option ℕ
unfolding find_in_word find_from
find_free_frame s = find_from s 0 (s.physical_frame_count / 32)

-- `physical_frame[idx/32] |= 1 << (idx % 32)`, and `&= ~(1 << (idx % 32))`.
abbrev pub write_bit : Frames → ℕ → Bool → Frames
write_bit s idx b = record s {
  physical_frame = set s.physical_frame (idx / 32) (set (word_at s (idx / 32)) (idx % 32) b);
}

pub reserve_frame : Frames → ℕ → Frames
reserve_frame s idx = write_bit s idx true

pub release_frame : Frames → ℕ → Frames
release_frame s idx = write_bit s idx false

-- `none` where the code halts the machine: the page is mapped already, or no frame is free.
-- `idx & 0x000FFFFF` keeps 20 bits.
pub alloc_frame : Page → (user rw_bit : Bool) → Frames → Option (Page × Frames)
alloc_frame page user rw_bit s = if page.present then none else elim (find_free_frame s) [
  | none ↦ none
  | some idx ↦ some (
    record { present = true; user = user; rw_bit = rw_bit; frame = idx % 2 ^ 20 },
    reserve_frame s idx,
  )
]

pub clone_frame : (dst src : Page) → Page
clone_frame dst src = record dst {
  present = true;
  user = src.user;
  rw_bit = src.rw_bit;
  frame = src.frame;
}

pub free_frame : Page → Frames → Page × Frames
free_frame page s =
    if not page.present || (page.frame == 0)
    then (page, s)
    else (record page { frame = 0; present = false }, release_frame s page.frame)

-- The frame stack. The pointers are indices of 16-bit entries from `phys_stack`; `size` is in bytes.
pub record FrameStack : Type 0 where
  pub entries : List ℕ
  pub ptr : ℕ
  pub size : ℕ

-- `none` where the code halts.
pub push_frame : FrameStack → ℕ → Option FrameStack
push_frame s frame =
    if s.ptr == 0
    then none
    else some (record s {
      entries = set s.entries (s.ptr - 1) ((frame / 0x1000) % 2 ^ 16);
      ptr = s.ptr - 1;
    })

pub pop_frame : FrameStack → Option (ℕ × FrameStack)
pop_frame s =
    if s.ptr * 2 == s.size
    then none
    else some (get_or s.entries s.ptr 0 * 0x1000, record s { ptr = s.ptr + 1 })
