-- ===== src/Ext2/Alloc.antt =====
-- e2_alloc_block and e2_free_block of kernel/src/ext2fs/block.c, alone and in any sequence.
use stewieos.Prelude.{
  ℕ, ◌+◌, ◌*◌, ◌/◌, ◌%◌, ◌^◌, ◌<◌, ◌≤◌, ◌≡◌, refl, ◌⊎◌, Bool, true, false, Option, none, some, List,
  [], ◌∷◌, get_or, length, ◌==◌, arith, ap, sym, ◌∙◌, subst, Bool-cases, inl, inr, zero, suc,
}
use stewieos.Ext2.{
  Group, Fs, no_group, find_clear, find_block, in_group, shift, mark, alloc_at, e2_alloc_block,
  e2_free_block, less_one, one_more,
}
use stewieos.Ext2.Used.{bitmap_of, is_used, HasGroup, IsValidFs, Changes, mark-Changes}
use native.Mathlib.Nat.{
  add-mul-div_right, add-mul-mod_self_right, div-eq_of_lt, mod-eq_of_lt, mul-le-mul_right, suc-mul,
}

-- A clear bit among the first `n`.
abbrev IsClear : (n : ℕ) → List Bool → Option ℕ → Type 0
IsClear n bits none = Unit
IsClear n bits (some i) = (i < n) × (get_or bits i true ≡ false)

shift-IsClear :
    (n : ℕ) (b : Bool) (bits : List Bool) (o : Option ℕ)
    → IsClear n bits o
    → IsClear (suc n) (b ∷ bits) (shift o)
shift-IsClear n b bits none c = tt
shift-IsClear n b bits (some i) c = (omega (arith, c.0), c.1)

find_clear-IsClear : (n : ℕ) (bits : List Bool) → IsClear n bits (find_clear n bits)
find_clear-IsClear zero bits = tt
find_clear-IsClear (suc n) [] = tt
find_clear-IsClear (suc n) (true ∷ bits) = shift-IsClear n true bits _ (find_clear-IsClear n bits)
find_clear-IsClear (suc n) (false ∷ bits) = (omega arith, refl)

module _ (disk : ℕ → List Bool) (per : ℕ) where
  -- A clear bit of one of the groups, which are numbered from `bg` on.
  abbrev IsFree : List Group → (bg : ℕ) → Option (ℕ × ℕ) → Type 0
  IsFree groups bg none = Unit
  IsFree groups bg (some (k, local)) =
      (j : ℕ) × (k ≡ bg + j)
      × (j < length groups)
      × (local < per)
      × (get_or (disk (get_or groups j no_group).bg_block_bitmap) local true ≡ false)

  later-IsFree :
      (g : Group) (groups : List Group) (bg : ℕ) (o : Option (ℕ × ℕ))
      → IsFree groups (suc bg) o
      → IsFree (g ∷ groups) bg o
  later-IsFree g groups bg none f = tt
  later-IsFree g groups bg (some (k, local)) (j, e, b, l, c) =
      (suc j, omega (arith, e), omega (arith, b), l, c)

  in_group-IsFree :
      (g : Group) (groups : List Group) (bg : ℕ) (o : Option ℕ) (rest : Option (ℕ × ℕ))
      → IsClear per (disk g.bg_block_bitmap) o
      → IsFree (g ∷ groups) bg rest
      → IsFree (g ∷ groups) bg (in_group bg o rest)
  in_group-IsFree g groups bg none rest c f = f
  in_group-IsFree g groups bg (some local) rest c f = (0, omega arith, omega arith, c.0, c.1)

  find_block-IsFree :
      (groups : List Group) (bg : ℕ) → IsFree groups bg (find_block disk per groups bg)
  find_block-IsFree [] bg = tt
  find_block-IsFree (g ∷ groups) bg =
      let rest = later-IsFree g groups bg _ (find_block-IsFree groups (suc bg)) in
      elim (Bool-cases (g.bg_free_blocks_count == 0)) [
        | inl t ↦ rw t rest
        | inr t ↦
            rw t (
              in_group-IsFree g groups bg _ _ (find_clear-IsClear per (disk g.bg_block_bitmap))
                rest)
      ]

-- Either there is no block, and nothing changes, or a block that was not used becomes used.
abbrev pub AllocatesUnused : Fs → ℕ × Fs → Type 0
AllocatesUnused fs (n, fs') =
    ((n ≡ 0) × (fs' ≡ fs)) ⊎ (HasGroup fs n × (is_used fs n ≡ false) × Changes fs fs' n true)

module _ (fs : Fs) (v : IsValidFs fs) where
  alloc_at-AllocatesUnused :
      (o : Option (ℕ × ℕ))
      → IsFree fs.disk fs.s_blocks_per_group fs.bgtable 0 o
      → AllocatesUnused fs (alloc_at fs o)
  alloc_at-AllocatesUnused none f = inl (refl, refl)
  alloc_at-AllocatesUnused (some (bg, local)) (j, e, b, l, c) =
      let per = fs.s_blocks_per_group in
      let n = (local + bg * per) % 2 ^ 32 in
      let less : suc j * per ≤ length fs.bgtable * per = mul-le-mul_right per b in
      let zero_bg : bg ≡ j = omega (arith, e) in
      let exact : n ≡ local + j * per =
        omega (arith, ap (λ x. x * per) zero_bg, less, suc-mul j per, l, v.small) in
      let d : n / per ≡ bg =
        ap (λ x. x / per) exact
        ∙ (add-mul-div_right local j v.some_blocks ∙ omega (arith, e, div-eq_of_lt l)) in
      let r : n % per ≡ local =
        ap (λ x. x % per) exact ∙ (add-mul-mod_self_right local j per ∙ mod-eq_of_lt l) in
      inr (
        subst (λ x. x < length fs.bgtable) (sym (d ∙ zero_bg)) b,
        ap (λ q. get_or (fs.disk (bitmap_of fs q)) (n % per) true) (d ∙ zero_bg)
            ∙ (ap (λ x. get_or (fs.disk (bitmap_of fs j)) x true) r ∙ c),
        subst (λ x. Changes fs (mark fs x local true less_one) n true) d
            (subst (λ x. Changes fs (mark fs (n / per) x true less_one) n true) r
              (mark-Changes fs v n (subst (λ x. x < length fs.bgtable) (sym (d ∙ zero_bg)) b) true
                less_one)),
      )

  -- On a valid file system, with memory, e2_alloc_block either answers 0 and changes nothing, or answers
  -- a block of a group that was not used, which becomes used, and no other block changes.
  pub e2_alloc_block-AllocatesUnused : AllocatesUnused fs (e2_alloc_block true fs)
  unfolding e2_alloc_block
  e2_alloc_block-AllocatesUnused = elim (Bool-cases (fs.s_free_blocks_count == 0)) [
    | inl t ↦ rw t (inl (refl, refl))
    | inr t ↦
        rw t (
          alloc_at-AllocatesUnused _ (find_block-IsFree fs.disk fs.s_blocks_per_group fs.bgtable 0))
  ]

  -- e2_free_block of a block makes it unused, and no other block changes.
  pub e2_free_block-Changes :
      (n : ℕ) → HasGroup fs n → Changes fs (e2_free_block true n fs).1 n false
  unfolding e2_free_block
  e2_free_block-Changes n g = mark-Changes fs v n g false one_more
