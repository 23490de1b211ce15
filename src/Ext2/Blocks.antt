-- ===== src/Ext2/Blocks.antt =====
-- e2_alloc_block and e2_free_block of kernel/src/ext2fs/block.c. A bitmap block is the list of its bits:
-- bit b is bit b%32 of the word b/32. The lock of the private data has no effect on one caller.
use stewieos.Prelude.{
  ℕ, zero, suc, ◌+◌, ◌-◌, ◌*◌, ◌/◌, ◌%◌, ◌^◌, Bool, true, false, Option, none, some, List, [], ◌∷◌,
  Result, Errno, ok, err, get_or, set, ◌==◌, if◌then◌else◌,
}

-- A block group descriptor: the block of its bitmap, and its count of free blocks.
pub record Group : Type 0 where
  pub bg_block_bitmap : ℕ
  pub bg_free_blocks_count : ℕ

-- What the calls touch of the superblock and its private data, and the bitmap blocks of the disk.
-- `bgtable` has EXT2_BGCOUNT entries, `disk` is what e2_read_block reads for each number of a block.
pub record Fs : Type 0 where
  pub s_blocks_per_group : ℕ
  pub s_free_blocks_count : ℕ
  pub bgtable : List Group
  pub dirty : Bool
  pub s_blocksize : ℕ
  pub disk : ℕ → List Bool

abbrev pub no_group : Group
no_group = record { bg_block_bitmap = 0; bg_free_blocks_count = 0 }

-- The offset that e2_read_block and e2_write_block compute for a block. The block size is a power of two,
-- so two blocks are the same bytes of the disk exactly when they have the same offset.
abbrev pub byte_of : (blocksize block : ℕ) → ℕ
byte_of blocksize block = block * blocksize % 2 ^ 32

-- e2_write_block, as it changes what is read for every number of a block
abbrev pub write_block : (ℕ → List Bool) → (blocksize block : ℕ) → List Bool → (ℕ → List Bool)
write_block disk blocksize block bits b =
    if byte_of blocksize block == byte_of blocksize b then bits else disk b

abbrev pub shift : Option ℕ → Option ℕ
shift none = none
shift (some i) = some (suc i)

-- The first clear bit among the first `n`.
abbrev pub find_clear : (n : ℕ) → List Bool → Option ℕ
find_clear zero bits = none
find_clear (suc n) [] = none
find_clear (suc n) (b ∷ bits) = let rest = find_clear n bits in if b then shift rest else some 0

abbrev pub in_group : (bg : ℕ) → Option ℕ → Option (ℕ × ℕ) → Option (ℕ × ℕ)
in_group bg none rest = rest
in_group bg (some local) rest = some (bg, local)

-- The groups from number `bg` on: one without free blocks by its count is passed over, one whose bitmap
-- has no clear bit after all as well.
abbrev pub find_block : (disk : ℕ → List Bool) → (per : ℕ) → List Group → (bg : ℕ) → Option (ℕ × ℕ)
find_block disk per [] bg = none
find_block disk per (g ∷ groups) bg =
    let rest = find_block disk per groups (suc bg) in
    if g.bg_free_blocks_count == 0
    then rest
    else in_group bg (find_clear per (disk g.bg_block_bitmap)) rest

-- One less and one more, in an integer of `w` bits.
abbrev pub less_one : (w n : ℕ) → ℕ
less_one w n = (n + (2 ^ w - 1)) % 2 ^ w

abbrev pub one_more : (w n : ℕ) → ℕ
one_more w n = (n + 1) % 2 ^ w

-- Bit `local` of group `bg` gets a value, and the counts of free blocks follow.
unfoldable pub mark : Fs → (bg local : ℕ) → Bool → (ℕ → ℕ → ℕ) → Fs
mark fs bg local bit count =
    let g = get_or fs.bgtable bg no_group in
    record fs {
      disk =
          write_block fs.disk fs.s_blocksize g.bg_block_bitmap
            (set (fs.disk g.bg_block_bitmap) local bit);
      bgtable =
          set fs.bgtable bg (record g { bg_free_blocks_count = count 16 g.bg_free_blocks_count });
      s_free_blocks_count = count 32 fs.s_free_blocks_count;
      dirty = true;
    }

abbrev pub alloc_at : Fs → Option (ℕ × ℕ) → ℕ × Fs
alloc_at fs none = (0, fs)
alloc_at fs (some (bg, local)) =
    ((local + bg * fs.s_blocks_per_group) % 2 ^ 32, mark fs bg local true less_one)

-- 0 is no block; without memory the error number is returned as a block.
unfoldable pub e2_alloc_block : (kmalloc : Bool) → Fs → ℕ × Fs
e2_alloc_block kmalloc fs =
    if fs.s_free_blocks_count == 0
    then (0, fs)
    else if kmalloc
    then alloc_at fs (find_block fs.disk fs.s_blocks_per_group fs.bgtable 0)
    else (2 ^ 32 - 12, fs)

unfoldable pub e2_free_block : (kmalloc : Bool) → (block : ℕ) → Fs → Result (Unit {0}) × Fs
e2_free_block kmalloc block fs =
    if kmalloc
    then (
      ok tt,
      mark fs (block / fs.s_blocks_per_group) (block % fs.s_blocks_per_group) false one_more,
    )
    else (err Errno.enomem, fs)
