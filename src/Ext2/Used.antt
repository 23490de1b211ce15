-- ===== src/Ext2/Used.antt =====
-- e2_alloc_block and e2_free_block of kernel/src/ext2fs/block.c as operations on the set of used blocks.
use stewieos.Prelude.{
  ℕ, ◌*◌, ◌/◌, ◌%◌, ◌^◌, ◌<◌, ◌≤◌, ◌≡◌, refl, ◌≢◌, Bool, true, get_or, set, length, ◌==◌,
  if◌then◌else◌, arith, ap, sym, ◌∙◌, subst, Bool-cases, inl, inr, get_or-set, get_or-set_ne,
  length-set, ==_iff,
}
use stewieos.Ext2.{Fs, no_group, mark, byte_of}
use native.Mathlib.Nat.{mod-add-div', mod-lt}

abbrev pub bitmap_of : Fs → ℕ → ℕ
bitmap_of fs bg = (get_or fs.bgtable bg no_group).bg_block_bitmap

-- Whether the bit of a block is set.
abbrev pub is_used : Fs → ℕ → Bool
is_used fs n =
    get_or (fs.disk (bitmap_of fs (n / fs.s_blocks_per_group))) (n % fs.s_blocks_per_group) true

-- The block lies in a group of the table.
abbrev pub HasGroup : Fs → ℕ → Type 0
HasGroup fs n = n / fs.s_blocks_per_group < length fs.bgtable

-- Each group has a bitmap of its own, at an offset of its own in 32 bits, with a bit for each of its
-- blocks, and the blocks are numbered in 32 bits.
pub record IsValidFs (fs : Fs) : Type 0 where
  pub some_blocks : 0 < fs.s_blocks_per_group
  pub wide :
      (bg : ℕ) → bg < length fs.bgtable → fs.s_blocks_per_group ≤ length (fs.disk (bitmap_of fs bg))
  pub apart :
      (bg bg' : ℕ)
      → bg < length fs.bgtable
      → bg' < length fs.bgtable
      → byte_of fs.s_blocksize (bitmap_of fs bg) ≡ byte_of fs.s_blocksize (bitmap_of fs bg')
      → bg ≡ bg'
  pub small : length fs.bgtable * fs.s_blocks_per_group ≤ 2 ^ 32

-- The bit of block `n` is `bit`, and every other block's is as before.
pub record Changes (fs fs' : Fs) (n : ℕ) (bit : Bool) : Type 0 where
  pub valid : IsValidFs fs'
  pub per_group : fs'.s_blocks_per_group ≡ fs.s_blocks_per_group
  pub groups : length fs'.bgtable ≡ length fs.bgtable
  pub at : is_used fs' n ≡ bit
  pub elsewhere : (m : ℕ) → HasGroup fs m → m ≢ n → is_used fs' m ≡ is_used fs m

bitmap_of-mark :
    (fs : Fs) (bg local : ℕ) (bit : Bool) (count : ℕ → ℕ → ℕ) (i : ℕ)
    → bg < length fs.bgtable
    → bitmap_of (mark fs bg local bit count) i ≡ bitmap_of fs i
unfolding mark
bitmap_of-mark fs bg local bit count i b =
    let g = get_or fs.bgtable bg no_group in
    let g' = record g { bg_free_blocks_count = count 16 g.bg_free_blocks_count } in
    let e = get_or-set fs.bgtable bg i g' no_group b in
    elim (Bool-cases (bg == i)) [
      | inl t ↦
          ap (λ x. x.bg_block_bitmap)
            (e ∙ ap (λ c. if c then g' else get_or fs.bgtable i no_group) t)
          ∙ ap (bitmap_of fs) ((==_iff bg i).0 t)
      | inr t ↦
          ap (λ x. x.bg_block_bitmap)
            (e ∙ ap (λ c. if c then g' else get_or fs.bgtable i no_group) t)
    ]

module _ (fs : Fs) (v : IsValidFs fs) (n : ℕ) (g : HasGroup fs n) (bit : Bool)
    (count : ℕ → ℕ → ℕ) where
  abbrev pub after : Fs
  after = mark fs (n / fs.s_blocks_per_group) (n % fs.s_blocks_per_group) bit count

  local_lt : (m : ℕ) → m % fs.s_blocks_per_group < fs.s_blocks_per_group
  local_lt m = mod-lt m v.some_blocks

  same_number :
      (m : ℕ)
      → m / fs.s_blocks_per_group ≡ n / fs.s_blocks_per_group
      → m % fs.s_blocks_per_group ≡ n % fs.s_blocks_per_group
      → m ≡ n
  same_number m d r = omega (
    arith,
    mod-add-div' m fs.s_blocks_per_group,
    mod-add-div' n fs.s_blocks_per_group,
    r,
    ap (λ q. q * fs.s_blocks_per_group) d,
  )

  -- What the disk holds in the bitmap of a group.
  bitmap_after :
      (bg : ℕ)
      → after.disk (bitmap_of after bg) ≡ (
          if byte_of fs.s_blocksize (bitmap_of fs (n / fs.s_blocks_per_group))
            == byte_of fs.s_blocksize (bitmap_of fs bg)
          then set
              (fs.disk (bitmap_of fs (n / fs.s_blocks_per_group)))
              (n % fs.s_blocks_per_group)
              bit
          else fs.disk (bitmap_of fs bg))
  unfolding mark
  bitmap_after bg =
      ap after.disk
        (bitmap_of-mark fs (n / fs.s_blocks_per_group) (n % fs.s_blocks_per_group) bit count bg g)

  mark-wide :
      (bg : ℕ)
      → bg < length fs.bgtable
      → fs.s_blocks_per_group ≤ length (after.disk (bitmap_of after bg))
  mark-wide bg b =
      let own = bitmap_of fs (n / fs.s_blocks_per_group) in
      let e = ap length (bitmap_after bg) in
      elim (Bool-cases (byte_of fs.s_blocksize own == byte_of fs.s_blocksize (bitmap_of fs bg))) [
        | inl t ↦
            subst (λ k. fs.s_blocks_per_group ≤ k)
              (sym (e ∙ rw t (length-set (fs.disk own) (n % fs.s_blocks_per_group) bit)))
              (v.wide (n / fs.s_blocks_per_group) g)
        | inr t ↦ subst (λ k. fs.s_blocks_per_group ≤ k) (sym (e ∙ rw t refl)) (v.wide bg b)
      ]

  mark-IsValidFs : IsValidFs after
  unfolding mark
  mark-IsValidFs =
      let l = length-set fs.bgtable (n / fs.s_blocks_per_group) _ in
      let same : (i : ℕ) → bitmap_of after i ≡ bitmap_of fs i = λ i.
        bitmap_of-mark fs (n / fs.s_blocks_per_group) (n % fs.s_blocks_per_group) bit count i g in
      record {
        some_blocks = v.some_blocks;
        wide = λ bg b. mark-wide bg (subst (λ k. bg < k) l b);
        apart = λ bg bg' b b' e.
            v.apart bg bg' (subst (λ k. bg < k) l b) (subst (λ k. bg' < k) l b') (
              ap (byte_of fs.s_blocksize) (sym (same bg))
              ∙ (e ∙ ap (byte_of fs.s_blocksize) (same bg')));
        small = subst (λ k. k * fs.s_blocks_per_group ≤ 2 ^ 32) (sym l) v.small;
      }

  mark-elsewhere : (m : ℕ) → HasGroup fs m → m ≢ n → is_used after m ≡ is_used fs m
  unfolding mark
  mark-elsewhere m h ne =
      let own = bitmap_of fs (n / fs.s_blocks_per_group) in
      let e =
        ap (λ bits. get_or bits (m % fs.s_blocks_per_group) true)
          (bitmap_after (m / fs.s_blocks_per_group)) in
      elim (Bool-cases (
        byte_of fs.s_blocksize own
        == byte_of fs.s_blocksize (bitmap_of fs (m / fs.s_blocks_per_group)))) [
          | inl t ↦
              let d = v.apart _ _ h g (sym ((==_iff _ _).0 t)) in
              let b = ap (bitmap_of fs) (sym d) in
              e
              ∙ rw t (
                  get_or-set_ne (fs.disk own) (n % fs.s_blocks_per_group)
                    (m % fs.s_blocks_per_group) bit true (λ r. ne (same_number m d (sym r)))
                  ∙ ap (λ x. get_or (fs.disk x) (m % fs.s_blocks_per_group) true) b)
          | inr t ↦ e ∙ rw t refl
        ]

  pub mark-Changes : Changes fs after n bit
  unfolding mark
  mark-Changes = record {
    valid = mark-IsValidFs;
    per_group = refl;
    groups = length-set fs.bgtable (n / fs.s_blocks_per_group) _;
    at =
        let own = bitmap_of fs (n / fs.s_blocks_per_group) in
        let t : (byte_of fs.s_blocksize own == byte_of fs.s_blocksize own) ≡ true =
          (==_iff _ _).1 refl in
        let w = v.wide (n / fs.s_blocks_per_group) g in
        ap (λ bits. get_or bits (n % fs.s_blocks_per_group) true)
          (bitmap_after (n / fs.s_blocks_per_group))
        ∙ rw t (
            get_or-set (fs.disk own) (n % fs.s_blocks_per_group) (n % fs.s_blocks_per_group) bit
              true (omega (arith, w, local_lt n))
            ∙ ground arith);
    elsewhere = mark-elsewhere;
  }
