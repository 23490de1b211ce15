-- ===== src/Ext2/RoundTrip.antt =====
-- What e2_inode_io (kernel/src/ext2fs/inode.c) writes, and what it reads afterwards.
use stewieos.Prelude.{
  ℕ, ◌+◌, ◌-◌, ◌*◌, ◌%◌, ◌^◌, ◌<◌, ◌≤◌, List, get_or, take, drop, length, ◌==◌, ltb, leb, ◌&&◌,
  if◌then◌else◌, arith, ◌≡◌, ap, sym, ◌∙◌, subst, Bool-cases, inl, inr, ◌⊎◌, length-drop,
  length-take, get_or-take,
}
use stewieos.Block.Disk.{slice}
use stewieos.Ext2.{byte_of, OpenInode, put_part, write_aligned, e2_inode_io_read, e2_inode_io_write}
use stewieos.Ext2.Contents.{contents, next_start, list-slice, e2_inode_io_read-slice}
use stewieos.Ext2.Written.{Puts, put_part-Puts}
use stewieos.Ext2.Rewrite.{extend-Puts, write_aligned-Puts}
use Prim.Native.Nat.{min}
use native.Mathlib.Nat.{mod-lt}

module _ (i : OpenInode) (some : 0 < i.blocksize)
    (apart : (k m : ℕ)
      → k < length i.block
      → m < length i.block
      → byte_of i.blocksize (get_or i.block k 0) ≡ byte_of i.blocksize (get_or i.block m 0)
      → k ≡ m)
    (disk : ℕ → List ℕ) (w : (b : ℕ) → length (disk b) ≡ i.blocksize) (offset size : ℕ)
    (buffer : List ℕ) (any : 0 < size) (l : size ≤ length buffer)
    (inside : offset + size ≤ length i.block * i.blocksize) where
  e2_inode_io_write-Puts :
      Puts i disk (e2_inode_io_write i offset size buffer disk) offset size buffer
  unfolding e2_inode_io_write
  e2_inode_io_write-Puts =
      let o = offset % i.blocksize in
      let left = i.blocksize - o in
      let r = mod-lt offset some in
      elim (Bool-cases (o == 0)) [
        | inl t ↦
            rw t (
              write_aligned-Puts i some apart offset size buffer disk w (ground (arith, t)) l
                inside)
        | inr t ↦ elim (Bool-cases (leb size left)) [
          | inl u ↦
              rw (t, u)
                (put_part-Puts i some apart disk offset size buffer w (ground (arith, u, r)) l
                  (omega (arith, any, inside)))
          | inr u ↦
              let first =
                put_part-Puts i some apart disk offset left buffer w (omega (arith, r))
                  (ground (arith, l, u)) (ground (arith, inside, u, r)) in
              let rest =
                write_aligned-Puts i some apart (offset + left) (size - left) (drop left buffer) _
                  first.whole (next_start disk i some w offset)
                  (omega (arith, l, length-drop left buffer)) (ground (arith, inside, u)) in
              rw (t, u)
                (subst
                  (λ k.
                    Puts i disk
                      (write_aligned i (offset + left) (size - left) (drop left buffer)
                        (put_part i disk offset o left buffer))
                      offset k buffer)
                  (ground (arith, u))
                  (extend-Puts i disk _ _ offset left (size - left) buffer first rest))
        ]
      ]

  -- In a file where no two entries of the map have the same offset on the disk, computed in 32 bits, on
  -- a disk whose blocks have their size, a write of at least one byte that does not reach past the end
  -- of the file, nor past its map, and ends below 2 ^ 32, is what a read of the same bytes gives
  -- afterwards, and every other byte of the file is as it was.
  pub e2_inode_io_read-e2_inode_io_write :
      offset + size ≤ i.i_size
      → offset + size < 2 ^ 32
      → (e2_inode_io_read (e2_inode_io_write i offset size buffer disk) i offset size
          ≡ (size, take size buffer))
        × ((x : ℕ)
            → x < length i.block * i.blocksize
            → (x < offset) ⊎ (offset + size ≤ x)
            → contents (e2_inode_io_write i offset size buffer disk) i x ≡ contents disk i x)
  e2_inode_io_read-e2_inode_io_write fits small =
      let p = e2_inode_io_write-Puts in
      let disk' = e2_inode_io_write i offset size buffer disk in
      let n : min size (i.i_size - offset) ≡ size = ground (arith, fits) in
      let there : (j : ℕ)
          → j < size
          → (if leb offset (offset + j) && ltb (offset + j) (offset + size)
              then get_or buffer (offset + j - offset) 0
              else contents disk i (offset + j))
            ≡ get_or buffer j 0 =
        λ j b.
          let e : offset + j - offset ≡ j = omega arith in
          ground (arith, b, ap (λ m. get_or buffer m 0) e) in
      let back : take size buffer ≡ slice (contents disk' i) offset size =
        list-slice (contents disk' i) offset size (take size buffer)
          (length-take size buffer ∙ ground (arith, l))
          (λ j b.
            get_or-take size buffer j 0 b
            ∙ sym (p.bytes (offset + j) (omega (arith, b, inside)) ∙ there j b)) in
      (
        e2_inode_io_read-slice disk' i some p.whole offset size small
            ∙ (ap (λ k. (k, slice (contents disk' i) offset k)) n ∙ ap (λ t. (size, t)) (sym back)),
        λ x h out. p.bytes x h ∙ ground (arith, out),
      )
