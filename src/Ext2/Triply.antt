-- ===== src/Ext2/Triply.antt =====
-- The triply indirect part of e2_inode_read_block_map (kernel/src/ext2fs/inode.c).
use stewieos.Prelude.{
  ℕ, ◌-◌, ◌*◌, ◌<◌, ◌≤◌, List, [], ◌∷◌, ◌++◌, get_or, length, ◌==◌, arith, ◌≡◌, refl, ap, sym, ◌∙◌,
  subst, true, false,
}
use stewieos.Ext2.{Inode, doubly_map, triply_map, map_triply}
use stewieos.Ext2.Lookup.{doubly_map-Maps}

pub append_none : (xs : List ℕ) → xs ++ [] ≡ xs
append_none [] = refl
append_none (x ∷ xs) = ap (◌∷◌ x) (append_none xs)

module _ (disk : ℕ → List ℕ) (per : ℕ) (pos : 0 < per)
    (whole : (b : ℕ) → length (disk b) ≡ per) where
  nothing_left : (buffer all : List ℕ) (left : ℕ) → left ≡ 0 → triply_map disk buffer all left ≡ []
  unfolding triply_map
  nothing_left [] all left z = refl
  nothing_left (b ∷ buffer) all left z = let t : (left == 0) ≡ true = ground (arith, z) in rw t refl

  one_round :
      (buffer all : List ℕ) (left : ℕ)
      → 0 < length buffer
      → 0 < left
      → left ≤ length all * per
      → triply_map disk buffer all left ≡ doubly_map disk all left
  unfolding triply_map
  one_round [] all left b p h = absurd (omega (arith, b))
  one_round (x ∷ buffer) all left b p h =
      let t : (left == 0) ≡ false = ground (arith, p) in
      let m = doubly_map-Maps disk per pos whole all left h in
      let z : left - length (doubly_map disk all left) ≡ 0 = omega (arith, m.size) in
      rw t (ap (◌++◌ (doubly_map disk all left)) (nothing_left buffer all _ z) ∙ append_none _)

  -- On a disk whose blocks hold `per` words each, the map of at most per * per triply indirect blocks is
  -- the one of a doubly indirect block: the blocks that the triply indirect block names are taken for
  -- indirect ones.
  pub map_triply-doubly :
      (i : Inode) (left : ℕ)
      → 0 < left
      → left ≤ per * per
      → map_triply disk i left ≡ doubly_map disk (disk (get_or i.i_block 14 0)) left
  unfolding map_triply
  map_triply-doubly i left p h =
      let b = disk (get_or i.i_block 14 0) in
      one_round b b left (omega (arith, whole (get_or i.i_block 14 0), pos)) p
        (subst (λ n. left ≤ n * per) (sym (whole (get_or i.i_block 14 0))) h)
