-- ===== src/Ext2/Map.antt =====
-- e2_inode_read_block_map of kernel/src/ext2fs/inode.c. A block of the disk is the list of its words, and
-- a loop over a buffer of words goes over the list; it stops when the map has all its entries.
use stewieos.Prelude.{
  ℕ, ◌-◌, ◌*◌, ◌/◌, Bool, true, false, List, [], ◌∷◌, ◌++◌, Result, Errno, ok, err, get_or, take,
  length, ◌==◌, if◌then◌else◌, ◌%◌, ◌^◌,
}

-- What the code reads of an inode: `i_blocks` counts sectors of 512 bytes, `i_block` has 15 words.
pub record Inode : Type 0 where
  pub i_blocks : ℕ
  pub i_block : List ℕ
  pub s_blocksize : ℕ

abbrev pub nblocks : Inode → ℕ
nblocks i = (i.i_blocks * 512) % 2 ^ 32 / i.s_blocksize

abbrev pub prepend : List ℕ → Result (List ℕ) → Result (List ℕ)
prepend words (ok rest) = ok (words ++ rest)
prepend words (err e) = err e

module _ (disk : ℕ → List ℕ) where
  -- `left` entries are still missing: what a loop over the blocks that `buffer` names copies.
  unfoldable pub doubly_map : (buffer : List ℕ) → (left : ℕ) → List ℕ
  doubly_map [] left = []
  doubly_map (b ∷ buffer) left =
      let words = take left (disk b) in
      let rest = doubly_map buffer (left - length words) in if left == 0 then [] else words ++ rest

  -- The loop over the doubly indirect blocks: each is read, but the blocks that the inner loop goes
  -- over are those that `all`, the triply indirect block, names.
  unfoldable pub triply_map : (buffer all : List ℕ) → (left : ℕ) → List ℕ
  triply_map [] all left = []
  triply_map (b ∷ buffer) all left =
      let words = doubly_map all left in
      let rest = triply_map buffer all (left - length words) in
      if left == 0 then [] else words ++ rest

  unfoldable pub map_triply : Inode → (left : ℕ) → List ℕ
  unfolding triply_map
  map_triply i left = let b = disk (get_or i.i_block 14 0) in triply_map b b left

  -- The second allocation is tested by the first one's pointer, so its failure is not seen.
  unfoldable pub map_doubly : (kmalloc : Bool) → Inode → (left : ℕ) → Result (List ℕ)
  unfolding doubly_map map_triply
  map_doubly false i left = err Errno.enomem
  map_doubly true i left =
      let words = doubly_map (disk (get_or i.i_block 13 0)) left in
      let rest = map_triply i (left - length words) in
      ok (if left - length words == 0 then words else words ++ rest)

  unfoldable pub map_indirect : (kmalloc : Bool) → Inode → (left : ℕ) → Result (List ℕ)
  unfolding map_doubly
  map_indirect kmalloc i left =
      let words = take left (disk (get_or i.i_block 12 0)) in
      let rest = map_doubly kmalloc i (left - length words) in
      if left - length words == 0 then ok words else prepend words rest

  -- The entries of the map, or -ENOMEM. Without blocks the first entry is set to 0.
  unfoldable pub e2_inode_read_block_map : (kmalloc : Bool) → Inode → Result (List ℕ)
  unfolding map_indirect
  e2_inode_read_block_map kmalloc i =
      let words = take (nblocks i) (take 12 i.i_block) in
      let rest = map_indirect kmalloc i (nblocks i - length words) in
      if nblocks i == 0
      then ok (0 ∷ [])
      else if nblocks i - length words == 0
      then ok words
      else prepend words rest
