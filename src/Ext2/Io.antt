-- ===== src/Ext2/Io.antt =====
-- e2_inode_io of kernel/src/ext2fs/inode.c for reading. `disk` is what e2_read_block reads for
-- each number of a block, the list of its bytes;
-- offsets and sizes have 32 bits.
use stewieos.Prelude.{
  ℕ, zero, suc, ◌+◌, ◌-◌, ◌*◌, ◌/◌, ◌%◌, ◌^◌, List, [], ◌++◌, get_or, take, drop, ◌==◌, ltb, leb,
  if◌then◌else◌,
}

-- `block` is the map of the inode, as it was read in.
pub record OpenInode : Type 0 where
  pub i_size : ℕ
  pub block : List ℕ
  pub blocksize : ℕ

-- What can be read at an offset: nothing past the end, and not past it.
abbrev pub readable : OpenInode → (offset size : ℕ) → ℕ
readable i offset size =
    if leb i.i_size offset
    then 0
    else if ltb i.i_size ((offset + size) % 2 ^ 32)
    then i.i_size - offset
    else size

module _ (disk : ℕ → List ℕ) (i : OpenInode) where
  abbrev pub block_at : (offset : ℕ) → List ℕ
  block_at offset = disk (get_or i.block (offset / i.blocksize) 0)

  -- The whole blocks, of which there are `n`.
  unfoldable pub read_whole : (n offset : ℕ) → List ℕ
  read_whole zero offset = []
  read_whole (suc n) offset = block_at offset ++ read_whole n (offset + i.blocksize)

  -- The part of a last block.
  unfoldable pub read_rest : (offset size : ℕ) → List ℕ
  read_rest offset size = if size == 0 then [] else take size (block_at offset)

  unfoldable pub read_aligned : (offset size : ℕ) → List ℕ
  unfolding read_whole read_rest
  read_aligned offset size =
      let n = size / i.blocksize in
      read_whole n offset ++ read_rest (offset + n * i.blocksize) (size - n * i.blocksize)

  -- The part of a first block, and what follows it.
  unfoldable pub read_clipped : (offset size : ℕ) → List ℕ
  unfolding read_aligned
  read_clipped offset size =
      let o = offset % i.blocksize in
      let left = i.blocksize - o in
      if o == 0
      then read_aligned offset size
      else if leb size left
      then take size (drop o (block_at offset))
      else take left (drop o (block_at offset)) ++ read_aligned (offset + left) (size - left)

  -- What is returned, and what is stored in the buffer.
  unfoldable pub e2_inode_io_read : (offset size : ℕ) → ℕ × List ℕ
  unfolding read_clipped
  e2_inode_io_read offset size =
      let n = readable i offset size in
      if leb i.i_size offset then (0, []) else (n, read_clipped offset n)
