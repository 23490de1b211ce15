-- ===== src/Ext2/Lookup.antt =====
-- The block map of e2_inode_read_block_map (kernel/src/ext2fs/inode.c) against the place of an entry in
-- the direct, indirect and doubly indirect blocks.
use stewieos.Prelude.{
  ℕ, ◌+◌, ◌-◌, ◌*◌, ◌/◌, ◌%◌, ◌<◌, ◌≤◌, suc, Bool, true, false, List, [], ◌∷◌, ◌++◌, Result, Errno,
  ok, err, get_or, take, length, ◌==◌, ltb, if◌then◌else◌, arith, ◌≡◌, refl, ap, sym, ◌∙◌, subst,
  Bool-cases, inl, inr, get_or-take, length-take, length-append, get_or-append,
}
use stewieos.Ext2.{
  Inode, nblocks, doubly_map, map_doubly, map_indirect, e2_inode_read_block_map, prepend,
}
use Prim.Native.Nat.{min}
use native.Mathlib.Nat.{add-div_left, add-mod_left, div-eq_of_lt, mod-eq_of_lt, suc-mul, zero-mul}

-- The first `n` values of `f`.
pub record Maps (f : ℕ → ℕ) (n : ℕ) (words : List ℕ) : Type 0 where
  pub size : length words ≡ n
  pub entry : (k : ℕ) → k < n → get_or words k 0 ≡ f k

take-Maps :
    (n : ℕ) (xs : List ℕ) (f : ℕ → ℕ)
    → n ≤ length xs
    → ((k : ℕ) → k < n → get_or xs k 0 ≡ f k)
    → Maps f n (take n xs)
take-Maps n xs f h e = record {
  size = length-take n xs ∙ ground arith;
  entry = λ k l. get_or-take n xs k 0 l ∙ e k l;
}

append-Maps :
    (f g : ℕ → ℕ) (a b : ℕ) (xs ys : List ℕ)
    → Maps f a xs
    → Maps g b ys
    → ((k : ℕ) → k < b → g k ≡ f (a + k))
    → Maps f (a + b) (xs ++ ys)
append-Maps f g a b xs ys h i e = record {
  size = length-append xs ys ∙ omega (arith, h.size, i.size);
  entry = λ k l. get_or-append xs ys k 0 ∙ elim (Bool-cases (ltb k (length xs))) [
    | inl t ↦ rw t (h.entry k (ground (arith, t, h.size)))
    | inr t ↦ rw t (
        i.entry (k - length xs) (ground (arith, l, t, h.size))
        ∙ (e _ (ground (arith, l, t, h.size)) ∙ ap f (ground (arith, l, t, h.size))))
  ];
}

-- A map of `n` entries, or -ENOMEM, which needs more than `most` entries and no memory.
abbrev pub Reads : (f : ℕ → ℕ) (n most : ℕ) (kmalloc : Bool) → Result (List ℕ) → Type 0
Reads f n most kmalloc (ok words) = Maps f n words
Reads f n most kmalloc (err e) = (e ≡ Errno.enomem) × (kmalloc ≡ false) × (most < n)

prepend-Reads :
    (f g : ℕ → ℕ) (a b most : ℕ) (kmalloc : Bool) (xs : List ℕ) (r : Result (List ℕ))
    → Maps f a xs
    → Reads g b most kmalloc r
    → ((k : ℕ) → k < b → g k ≡ f (a + k))
    → Reads f (a + b) (a + most) kmalloc (prepend xs r)
prepend-Reads f g a b most kmalloc xs (ok ys) h i e = append-Maps f g a b xs ys h i e
prepend-Reads f g a b most kmalloc xs (err x) h i e = (i.0, i.1, omega (arith, i.2))

module _ (disk : ℕ → List ℕ) (per : ℕ) (pos : 0 < per)
    (whole : (b : ℕ) → length (disk b) ≡ per) where
  -- The k-th entry of the blocks that `buffer` names.
  abbrev pub below : List ℕ → ℕ → ℕ
  below buffer k = get_or (disk (get_or buffer (k / per) 0)) (k % per) 0

  -- The block that holds the idx-th block of a file.
  abbrev pub block_of : Inode → ℕ → ℕ
  block_of i idx =
      if ltb idx 12
      then get_or i.i_block idx 0
      else if ltb (idx - 12) per
      then get_or (disk (get_or i.i_block 12 0)) (idx - 12) 0
      else below (disk (get_or i.i_block 13 0)) (idx - 12 - per)

  -- The entries of the first block, and those of the next ones.
  below-first :
      (b : ℕ) (buffer : List ℕ) (k : ℕ) → k < per → below (b ∷ buffer) k ≡ get_or (disk b) k 0
  below-first b buffer k h =
      ap (λ q. get_or (disk (get_or (b ∷ buffer) q 0)) (k % per) 0) (div-eq_of_lt h)
      ∙ ap (λ r. get_or (disk b) r 0) (mod-eq_of_lt h)

  below-next : (b : ℕ) (buffer : List ℕ) (k : ℕ) → below (b ∷ buffer) (per + k) ≡ below buffer k
  below-next b buffer k =
      let q : (per + k) / per ≡ suc (k / per) = add-div_left k pos ∙ omega arith in
      ap (λ n. get_or (disk (get_or (b ∷ buffer) n 0)) ((per + k) % per) 0) q
      ∙ ap (λ r. get_or (disk (get_or buffer (k / per) 0)) r 0) (add-mod_left per k)

  pub doubly_map-Maps :
      (buffer : List ℕ) (left : ℕ)
      → left ≤ length buffer * per
      → Maps (below buffer) left (doubly_map disk buffer left)
  unfolding doubly_map
  doubly_map-Maps [] left h = record {
    size = omega (arith, h, zero-mul per);
    entry = λ k l. absurd (omega (arith, h, l, zero-mul per));
  }
  doubly_map-Maps (b ∷ buffer) left h = elim (Bool-cases (left == 0)) [
    | inl t ↦
        let z : left ≡ 0 = ground (arith, t) in
        rw t (record { size = sym z; entry = λ k l. absurd (omega (arith, l, z)) })
    | inr t ↦
        let words = take left (disk b) in
        let m : length words ≡ min left per = length-take left (disk b) ∙ ap (min left) (whole b) in
        let first : Maps (below (b ∷ buffer)) (length words) words = record {
          size = refl;
          entry = λ k l.
              get_or-take left (disk b) k 0 (ground (arith, l, m))
              ∙ sym (below-first b buffer k (ground (arith, l, m)));
        } in
        let rest =
          doubly_map-Maps buffer (left - length words)
            (ground (arith, h, m, suc-mul (length buffer) per)) in
        let full : (k : ℕ) → k < left - length words → length words ≡ per =
          λ k l. ground (arith, l, m) in
        let join =
          append-Maps (below (b ∷ buffer)) (below buffer) (length words) (left - length words) words
            _ first rest
            (λ k l.
              sym (ap (λ n. below (b ∷ buffer) (n + k)) (full k l) ∙ below-next b buffer k)) in
        rw t (
          subst
            (λ n.
              Maps (below (b ∷ buffer)) n (words ++ doubly_map disk buffer (left - length words)))
            (ground (arith, m)) join)
  ]

  module _ (i : Inode) (kmalloc : Bool) where
    abbrev in_doubly : ℕ → ℕ
    in_doubly = below (disk (get_or i.i_block 13 0))

    abbrev in_indirect : ℕ → ℕ
    in_indirect k =
        if ltb k per then get_or (disk (get_or i.i_block 12 0)) k 0 else in_doubly (k - per)

    map_doubly-Reads :
        (left : ℕ)
        → 0 < left
        → left ≤ per * per
        → Reads in_doubly left 0 kmalloc (map_doubly disk kmalloc i left)
    unfolding map_doubly
    map_doubly-Reads left some h = elim (Bool-cases kmalloc) [
      | inl t ↦
          let m =
            doubly_map-Maps (disk (get_or i.i_block 13 0)) left
              (subst (λ n. left ≤ n * per) (sym (whole _)) h) in
          let z : (left - length (doubly_map disk (disk (get_or i.i_block 13 0)) left) == 0)
              ≡ true =
            ground (arith, m.size) in
          rw (t, z) m
      | inr t ↦ rw t (refl, refl, some)
    ]

    past : {n : ℕ} (k : ℕ) → n ≡ per → in_indirect (n + k) ≡ in_doubly k
    past {n} k e =
        let t : ltb (n + k) per ≡ false = ground (arith, e) in
        let d : n + k - per ≡ k = omega (arith, e) in rw t (ap in_doubly d)

    map_indirect-Reads :
        (left : ℕ)
        → 0 < left
        → left ≤ per + per * per
        → Reads in_indirect left per kmalloc (map_indirect disk kmalloc i left)
    unfolding map_indirect
    map_indirect-Reads left some h =
        let b = disk (get_or i.i_block 12 0) in
        let words = take left b in
        let m : length words ≡ min left per = length-take left b ∙ ap (min left) (whole _) in
        let first : Maps in_indirect (length words) words = record {
          size = refl;
          entry = λ k l.
              let t : ltb k per ≡ true = ground (arith, l, m) in
              rw t (get_or-take left b k 0 (ground (arith, l, m)));
        } in
        elim (Bool-cases (left - length words == 0)) [
          | inl t ↦ rw t (subst (λ n. Maps in_indirect n words) (ground (arith, t, m)) first)
          | inr t ↦
              let full : length words ≡ per = ground (arith, t, m) in
              let rest =
                map_doubly-Reads (left - length words) (ground (arith, t))
                  (ground (arith, h, full)) in
              let join =
                prepend-Reads in_indirect in_doubly (length words) (left - length words) 0 kmalloc
                  words _ first rest (λ k l. sym (past k full)) in
              rw t (
                subst
                  (λ n.
                    Reads in_indirect n per kmalloc
                      (prepend words (map_doubly disk kmalloc i (left - length words))))
                  (ground (arith, full, t))
                  (subst
                    (λ n.
                      Reads in_indirect (length words + (left - length words)) n kmalloc
                        (prepend words (map_doubly disk kmalloc i (left - length words))))
                    (omega (arith, full)) join))
        ]

    beyond : {n : ℕ} (k : ℕ) → n ≡ 12 → block_of i (n + k) ≡ in_indirect k
    beyond {n} k e =
        let t : ltb (n + k) 12 ≡ false = ground (arith, e) in
        let d : n + k - 12 ≡ k = omega (arith, e) in rw t (ap in_indirect d)

  -- On a disk whose blocks hold `per` words each, for an inode with at least one block and no triply
  -- indirect ones, e2_inode_read_block_map gives for each block of the file the place that the direct,
  -- the indirect or a doubly indirect block holds for it, or -ENOMEM, and that only without memory and
  -- with doubly indirect blocks.
  pub e2_inode_read_block_map-Reads :
      (i : Inode) (kmalloc : Bool)
      → length i.i_block ≡ 15
      → 0 < nblocks i
      → nblocks i ≤ 12 + (per + per * per)
      → Reads (block_of i) (nblocks i) (12 + per) kmalloc (e2_inode_read_block_map disk kmalloc i)
  unfolding e2_inode_read_block_map
  e2_inode_read_block_map-Reads i kmalloc fifteen some h =
      let n = nblocks i in
      let words = take n (take 12 i.i_block) in
      let m : length words ≡ min n 12 =
        length-take n (take 12 i.i_block)
        ∙ ap (min n) (length-take 12 i.i_block ∙ ap (min 12) fifteen) in
      let first : Maps (block_of i) (length words) words = record {
        size = refl;
        entry = λ k l.
            let t : ltb k 12 ≡ true = ground (arith, l, m) in
            rw t (
              get_or-take n (take 12 i.i_block) k 0 (ground (arith, l, m))
              ∙ get_or-take 12 i.i_block k 0 (ground (arith, l, m)));
      } in
      let z : (n == 0) ≡ false = ground (arith, some) in
      elim (Bool-cases (n - length words == 0)) [
        | inl t ↦ rw (z, t) (subst (λ k. Maps (block_of i) k words) (ground (arith, t, m)) first)
        | inr t ↦
            let full : length words ≡ 12 = ground (arith, t, m) in
            let r = map_indirect disk kmalloc i (n - length words) in
            let rest =
              map_indirect-Reads i kmalloc (n - length words) (ground (arith, t))
                (ground (arith, h, full)) in
            let join =
              prepend-Reads (block_of i) (in_indirect i kmalloc) (length words) (n - length words)
                per kmalloc words r first rest (λ k l. sym (beyond i kmalloc k full)) in
            rw (z, t)
              (subst (λ k. Reads (block_of i) k (12 + per) kmalloc (prepend words r))
                (ground (arith, full, t))
                (subst
                  (λ k.
                    Reads (block_of i) (length words + (n - length words)) k kmalloc
                      (prepend words r))
                  (omega (arith, full)) join))
      ]
