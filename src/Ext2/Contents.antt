-- ===== src/Ext2/Contents.antt =====
-- e2_inode_io of kernel/src/ext2fs/inode.c against the bytes of a file.
use stewieos.Prelude.{
  ℕ, zero, suc, ◌+◌, ◌-◌, ◌*◌, ◌/◌, ◌%◌, ◌^◌, ◌<◌, List, [], ◌∷◌, ◌++◌, get_or, take, drop, length,
  ◌==◌, leb, if◌then◌else◌, arith, ◌≡◌, refl, ap, ap₂, sym, ◌∙◌, Bool-cases, inl, inr,
}
use stewieos.Block.Disk.{Bytes, slice, slice_eq, slice-add, take-slice, drop-slice}
use stewieos.Ext2.{
  OpenInode, readable, block_at, read_whole, read_rest, read_aligned, read_clipped,
  e2_inode_io_read,
}
use Prim.Native.Nat.{min}
use native.Mathlib.Nat.{
  mul-add-div_right, mul-add-mod_self_right, div-eq_of_lt, mod-eq_of_lt, mod-add-div', mod-lt,
  suc-mul, zero-mul, add-mod_right, add-mul-mod_self_right,
}

pub list-slice :
    (c : Bytes) (a m : ℕ) (xs : List ℕ)
    → length xs ≡ m
    → ((j : ℕ) → j < m → get_or xs j 0 ≡ c (a + j))
    → xs ≡ slice c a m
unfolding slice
list-slice c a zero [] l h = refl
list-slice c a zero (x ∷ xs) l h = absurd (omega (arith, l))
list-slice c a (suc m) [] l h = absurd (omega (arith, l))
list-slice c a (suc m) (x ∷ xs) l h = ap₂ ◌∷◌ (h 0 (omega arith) ∙ ap c (omega arith)) (
    list-slice c (a + 1) m xs (omega (arith, l))
      (λ j b. h (suc j) (omega (arith, b)) ∙ ap c (omega arith)))

-- The byte of the file at a place.
abbrev pub contents : (ℕ → List ℕ) → OpenInode → Bytes
contents disk i x = get_or (disk (get_or i.block (x / i.blocksize) 0)) (x % i.blocksize) 0

module _ (disk : ℕ → List ℕ) (i : OpenInode) (some : 0 < i.blocksize)
    (whole : (b : ℕ) → length (disk b) ≡ i.blocksize) where
  block-slice :
      (k : ℕ) → disk (get_or i.block k 0) ≡ slice (contents disk i) (k * i.blocksize) i.blocksize
  block-slice k =
      list-slice (contents disk i) (k * i.blocksize) i.blocksize _ (whole (get_or i.block k 0))
        (λ j b.
          let d : (k * i.blocksize + j) / i.blocksize ≡ k =
            mul-add-div_right some k j ∙ omega (arith, div-eq_of_lt b) in
          let r : (k * i.blocksize + j) % i.blocksize ≡ j =
            mul-add-mod_self_right k i.blocksize j ∙ mod-eq_of_lt b in
          sym (
            ap (λ q. get_or (disk (get_or i.block q 0)) ((k * i.blocksize + j) % i.blocksize) 0) d
            ∙ ap (λ x. get_or (disk (get_or i.block k 0)) x 0) r))

  -- The block at an offset, from its start.
  block_at-slice :
      (offset : ℕ)
      → block_at disk i offset ≡ slice (contents disk i) (offset - offset % i.blocksize) i.blocksize
  block_at-slice offset =
      block-slice (offset / i.blocksize)
      ∙ slice_eq (contents disk i) (omega (arith, mod-add-div' offset i.blocksize)) refl

  start-slice :
      (offset : ℕ)
      → offset % i.blocksize ≡ 0
      → block_at disk i offset ≡ slice (contents disk i) offset i.blocksize
  start-slice offset z = block_at-slice offset ∙ slice_eq (contents disk i) (omega (arith, z)) refl

  read_whole-slice :
      (n offset : ℕ)
      → offset % i.blocksize ≡ 0
      → read_whole disk i n offset ≡ slice (contents disk i) offset (n * i.blocksize)
  unfolding read_whole slice
  read_whole-slice zero offset z =
      sym (slice_eq (contents disk i) {a = offset} refl (zero-mul i.blocksize))
  read_whole-slice (suc n) offset z =
      ap₂ ◌++◌ (start-slice offset z)
        (read_whole-slice n (offset + i.blocksize) (add-mod_right offset i.blocksize ∙ z))
      ∙ (sym (slice-add (contents disk i) offset i.blocksize (n * i.blocksize))
          ∙ slice_eq (contents disk i) refl (omega (arith, suc-mul n i.blocksize)))

  read_rest-slice :
      (offset size : ℕ)
      → offset % i.blocksize ≡ 0
      → size < i.blocksize
      → read_rest disk i offset size ≡ slice (contents disk i) offset size
  unfolding read_rest slice
  read_rest-slice offset size z l = elim (Bool-cases (size == 0)) [
    | inl t ↦
        let e : size ≡ 0 = ground (arith, t) in
        rw t (sym (slice_eq (contents disk i) {a = offset} refl e))
    | inr t ↦ rw t (
        ap (take size) (start-slice offset z)
        ∙ take-slice (contents disk i) size offset i.blocksize (omega (arith, l)))
  ]

  read_aligned-slice :
      (offset size : ℕ)
      → offset % i.blocksize ≡ 0
      → read_aligned disk i offset size ≡ slice (contents disk i) offset size
  unfolding read_aligned
  read_aligned-slice offset size z =
      let n = size / i.blocksize in
      let e = mod-add-div' size i.blocksize in
      let l = mod-lt size some in
      ap₂ ◌++◌ (read_whole-slice n offset z) (
        read_rest-slice (offset + n * i.blocksize) (size - n * i.blocksize)
          (add-mul-mod_self_right offset n i.blocksize ∙ z) (omega (arith, e, l)))
      ∙ (sym (slice-add (contents disk i) offset (n * i.blocksize) (size - n * i.blocksize))
          ∙ slice_eq (contents disk i) refl (omega (arith, e)))

  -- The next block starts where this one is at its end.
  pub next_start : (offset : ℕ) → (offset + (i.blocksize - offset % i.blocksize)) % i.blocksize ≡ 0
  next_start offset =
      let q = offset / i.blocksize in
      let e : offset + (i.blocksize - offset % i.blocksize) ≡ suc q * i.blocksize + 0 =
        omega (arith, mod-add-div' offset i.blocksize, mod-lt offset some, suc-mul q i.blocksize) in
      ap (λ x. x % i.blocksize) e
      ∙ (mul-add-mod_self_right (suc q) i.blocksize 0 ∙ mod-eq_of_lt some)

  clip-slice :
      (offset : ℕ)
      → drop (offset % i.blocksize) (block_at disk i offset)
        ≡ slice (contents disk i) offset (i.blocksize - offset % i.blocksize)
  clip-slice offset =
      let o = offset % i.blocksize in
      ap (drop o) (block_at-slice offset)
      ∙ (drop-slice (contents disk i) o (offset - o) i.blocksize
          ∙ slice_eq (contents disk i) (omega (arith, mod-add-div' offset i.blocksize)) refl)

  read_clipped-slice :
      (offset size : ℕ) → read_clipped disk i offset size ≡ slice (contents disk i) offset size
  unfolding read_clipped
  read_clipped-slice offset size =
      let o = offset % i.blocksize in
      let left = i.blocksize - o in
      elim (Bool-cases (o == 0)) [
        | inl t ↦ rw t (read_aligned-slice offset size (ground (arith, t)))
        | inr t ↦ elim (Bool-cases (leb size left)) [
          | inl u ↦
              rw (t, u)
                (ap (take size) (clip-slice offset)
                  ∙ take-slice (contents disk i) size offset left (ground (arith, u)))
          | inr u ↦
              rw (t, u)
                (ap₂ ◌++◌
                    (ap (take left) (clip-slice offset)
                      ∙ take-slice (contents disk i) left offset left (omega arith))
                    (read_aligned-slice (offset + left) (size - left) (next_start offset))
                  ∙ (sym (slice-add (contents disk i) offset left (size - left))
                      ∙ slice_eq (contents disk i) refl (ground (arith, u))))
        ]
      ]

  pub e2_inode_io_read-slice :
      (offset size : ℕ)
      → offset + size < 2 ^ 32
      → e2_inode_io_read disk i offset size ≡ (
        min size (i.i_size - offset),
        slice (contents disk i) offset (min size (i.i_size - offset)),
      )
  unfolding e2_inode_io_read slice
  e2_inode_io_read-slice offset size h = elim (Bool-cases (leb i.i_size offset)) [
    | inl t ↦ let z : min size (i.i_size - offset) ≡ 0 = ground (arith, t) in rw (t, z) refl
    | inr t ↦
        let n : readable i offset size ≡ min size (i.i_size - offset) = ground (arith, t, h) in
        let r = readable i offset size in
        ap (λ b. if b then (0, []) else (r, read_clipped disk i offset r)) t
        ∙ (ap (λ k. (k, read_clipped disk i offset k)) n
            ∙ ap (λ bytes. (min size (i.i_size - offset), bytes))
                (read_clipped-slice offset (min size (i.i_size - offset))))
  ]
