-- ===== src/Ext2/Tests.antt =====
-- Small runs of kernel/src/ext2fs: a file system with one group of four blocks, and a disk of blocks of
-- 128 words.
use stewieos.Prelude.{
  zero, suc, ℕ, ◌+◌, ◌≡◌, refl, true, false, [], ◌∷◌, List, replicate, length, arith, ◌<◌, take,
  get_or, ◌⊎◌, ◌≤◌,
}
use stewieos.Ext2.{
  byte_of, OpenInode, e2_inode_io_read, e2_inode_io_write, Fs, Inode, e2_alloc_block,
  e2_inode_read_block_map, doubly_map, map_triply,
}
use stewieos.Ext2.Used.{IsValidFs}
use stewieos.Ext2.RoundTrip.{e2_inode_io_read-e2_inode_io_write}
use stewieos.Ext2.Holds.{Held, Reach, here, next, allocates, IsHolding, Reach-IsHolding}
use stewieos.Ext2.Lookup.{Reads, block_of, e2_inode_read_block_map-Reads}
use stewieos.Ext2.Contents.{contents}
use stewieos.Ext2.Triply.{map_triply-doubly}

-- block 1 and block 3 are free
abbrev small : Fs
small = record {
  s_blocks_per_group = 4;
  s_free_blocks_count = 2;
  bgtable = record { bg_block_bitmap = 3; bg_free_blocks_count = 2 } ∷ [];
  dirty = false;
  s_blocksize = 1024;
  disk = λ b. true ∷ false ∷ true ∷ false ∷ [];
}

small-IsValidFs : IsValidFs small
small-IsValidFs = record {
  some_blocks = omega arith;
  wide = λ bg h. omega arith;
  apart = λ bg bg' h h' e. omega (arith, h, h');
  small = omega arith;
}

takes_1 : (e2_alloc_block true small).0 ≡ 1
unfolding e2_alloc_block
takes_1 = refl

abbrev nothing : Held
nothing = record { fs = small; blocks = [] }

abbrev block_1 : Held
block_1 = record { fs = (e2_alloc_block true small).1; blocks = 1 ∷ [] }

one_step : Reach nothing block_1
unfolding e2_alloc_block
one_step = next here (allocates nothing)

Reach-IsHolding_example : IsHolding block_1
Reach-IsHolding_example =
    Reach-IsHolding nothing block_1 (record { valid = small-IsValidFs; used = tt; distinct = tt })
      one_step

-- block b of the disk has 128 times the word b + 1
abbrev disk : ℕ → List ℕ
disk b = replicate 128 (b + 1)

disk-length : (b : ℕ) → length (disk b) ≡ 128
disk-length b = refl

-- 200 blocks of 512 bytes
abbrev inode : Inode
inode = record { i_blocks = 200; i_block = replicate 15 7; s_blocksize = 512 }

e2_inode_read_block_map-Reads_example :
    Reads
      (block_of disk 128 (omega arith) disk-length inode)
      200
      140
      true
      (e2_inode_read_block_map disk true inode)
e2_inode_read_block_map-Reads_example =
    e2_inode_read_block_map-Reads disk 128 (omega arith) disk-length inode true refl (omega arith)
      (omega arith)

map_triply-doubly_example : map_triply disk inode 5 ≡ doubly_map disk (disk 7) 5
map_triply-doubly_example =
    map_triply-doubly disk 128 (omega arith) disk-length inode 5 (omega arith) (omega arith)

-- 700 bytes in blocks of 128
abbrev open_inode : OpenInode
open_inode = record { i_size = 700; block = 9 ∷ 4 ∷ 6 ∷ 2 ∷ 8 ∷ 5 ∷ []; blocksize = 128 }

-- 200 bytes in the blocks 9 and 4
abbrev two_blocks : OpenInode
two_blocks = record { i_size = 200; block = 9 ∷ 4 ∷ []; blocksize = 128 }

two_blocks-apart :
    (k m : ℕ)
    → k < 2
    → m < 2
    → byte_of 128 (get_or two_blocks.block k 0) ≡ byte_of 128 (get_or two_blocks.block m 0)
    → k ≡ m
two_blocks-apart zero zero h h' e = refl
two_blocks-apart zero (suc zero) h h' e = absurd (omega (arith, e))
two_blocks-apart zero (suc (suc m)) h h' e = absurd (omega (arith, h'))
two_blocks-apart (suc zero) zero h h' e = absurd (omega (arith, e))
two_blocks-apart (suc zero) (suc zero) h h' e = refl
two_blocks-apart (suc zero) (suc (suc m)) h h' e = absurd (omega (arith, h'))
two_blocks-apart (suc (suc k)) m h h' e = absurd (omega (arith, h))

abbrev threes : List ℕ
threes = replicate 100 3

e2_inode_io_read-e2_inode_io_write_example :
    (e2_inode_io_read (e2_inode_io_write two_blocks 60 100 threes disk) two_blocks 60 100
      ≡ (100, take 100 threes))
    × ((x : ℕ)
        → x < 256
        → (x < 60) ⊎ (160 ≤ x)
        → contents (e2_inode_io_write two_blocks 60 100 threes disk) two_blocks x
          ≡ contents disk two_blocks x)
e2_inode_io_read-e2_inode_io_write_example =
    e2_inode_io_read-e2_inode_io_write two_blocks (omega arith) two_blocks-apart disk disk-length 60
      100 threes (omega arith) (omega arith) (omega arith) (omega arith) (omega arith)
