-- ===== src/Ext2/Output.antt =====
-- e2_inode_io of kernel/src/ext2fs/inode.c for writing, where the file need not grow. Each step reads a
-- block, if it writes only a part, and writes one back.
use stewieos.Prelude.{
  ℕ, zero, suc, ◌+◌, ◌-◌, ◌*◌, ◌/◌, ◌%◌, ◌==◌, List, ◌++◌, get_or, take, drop, leb, if◌then◌else◌,
}
use stewieos.Ext2.Blocks.{byte_of}
use stewieos.Ext2.Io.{OpenInode}

module _ (i : OpenInode) where
  abbrev pub put : (ℕ → List ℕ) → (offset : ℕ) → List ℕ → (ℕ → List ℕ)
  put disk offset bytes b =
      if byte_of i.blocksize (get_or i.block (offset / i.blocksize) 0) == byte_of i.blocksize b
      then bytes
      else disk b

  -- `n` bytes of the buffer replace those from `o` on in the block at the offset.
  abbrev pub put_part : (ℕ → List ℕ) → (offset o n : ℕ) → List ℕ → (ℕ → List ℕ)
  put_part disk offset o n buffer =
      let b = disk (get_or i.block (offset / i.blocksize) 0) in
      put disk offset (take o b ++ (take n buffer ++ drop (o + n) b))

  unfoldable pub write_whole : (n offset : ℕ) → List ℕ → (ℕ → List ℕ) → (ℕ → List ℕ)
  write_whole zero offset buffer disk = disk
  write_whole (suc n) offset buffer disk =
      write_whole n (offset + i.blocksize) (drop i.blocksize buffer)
        (put disk offset (take i.blocksize buffer))

  unfoldable pub write_rest : (offset size : ℕ) → List ℕ → (ℕ → List ℕ) → (ℕ → List ℕ)
  write_rest offset size buffer disk =
      if size == 0 then disk else put_part disk offset 0 size buffer

  unfoldable pub write_aligned : (offset size : ℕ) → List ℕ → (ℕ → List ℕ) → (ℕ → List ℕ)
  unfolding write_whole write_rest
  write_aligned offset size buffer disk =
      let n = size / i.blocksize in
      write_rest (offset + n * i.blocksize) (size - n * i.blocksize) (drop (n * i.blocksize) buffer)
        (write_whole n offset buffer disk)

  -- The disk afterwards; the size is returned.
  unfoldable pub e2_inode_io_write : (offset size : ℕ) → List ℕ → (ℕ → List ℕ) → (ℕ → List ℕ)
  unfolding write_aligned
  e2_inode_io_write offset size buffer disk =
      let o = offset % i.blocksize in
      let left = i.blocksize - o in
      if o == 0
      then write_aligned offset size buffer disk
      else if leb size left
      then put_part disk offset o size buffer
      else write_aligned (offset + left) (size - left) (drop left buffer)
          (put_part disk offset o left buffer)
