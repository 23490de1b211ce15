-- ===== src/Ext2/Written.antt =====
-- e2_inode_io of kernel/src/ext2fs/inode.c: what a write changes of the bytes of a file.
use stewieos.Prelude.{
  ℕ, suc, ◌+◌, ◌-◌, ◌*◌, ◌/◌, ◌%◌, ◌<◌, ◌≤◌, false, List, ◌++◌, get_or, take, drop, length, ◌==◌,
  ltb, leb, ◌&&◌, if◌then◌else◌, arith, ◌≡◌, ◌≢◌, ap, ap₂, sym, ◌∙◌, Bool-cases, inl, inr,
  get_or-append, get_or-take, get_or-drop, length-append, length-take, length-drop, ==_iff,
}
use stewieos.Ext2.{OpenInode, put_part, byte_of}
use stewieos.Ext2.Contents.{contents}
use native.Mathlib.Nat.{mod-add-div', mod-lt, suc-mul, mul-le-mul_right, div-lt_iff_lt-mul}

-- The bytes from `offset` on are the first `n` of the buffer, those elsewhere in the file are as before.
pub record Puts (i : OpenInode) (disk disk' : ℕ → List ℕ) (offset n : ℕ) (buffer : List ℕ)
    : Type 0 where
  pub whole : (b : ℕ) → length (disk' b) ≡ i.blocksize
  pub bytes :
      (x : ℕ)
      → x < length i.block * i.blocksize
      → contents disk' i x ≡ (
          if leb offset x && ltb x (offset + n)
          then get_or buffer (x - offset) 0
          else contents disk i x)

-- The bytes of a block with a part replaced.
splice-get :
    (b buffer : List ℕ) (o n r : ℕ)
    → o + n ≤ length b
    → n ≤ length buffer
    → get_or (take o b ++ (take n buffer ++ drop (o + n) b)) r 0
      ≡ (if leb o r && ltb r (o + n) then get_or buffer (r - o) 0 else get_or b r 0)
splice-get b buffer o n r h l = ground (
  arith,
  get_or-append (take o b) (take n buffer ++ drop (o + n) b) r 0,
  get_or-append (take n buffer) (drop (o + n) b) (r - o) 0,
  length-take o b,
  length-take n buffer,
  get_or-take o b r 0,
  get_or-take n buffer (r - o) 0,
  get_or-drop (o + n) b (r - o - n) 0,
)

module _ (i : OpenInode) (some : 0 < i.blocksize)
    (apart : (k m : ℕ)
      → k < length i.block
      → m < length i.block
      → byte_of i.blocksize (get_or i.block k 0) ≡ byte_of i.blocksize (get_or i.block m 0)
      → k ≡ m) where
  -- A place in another block than the one of the offset is not among the bytes behind the offset.
  elsewhere :
      (offset n x : ℕ)
      → offset % i.blocksize + n ≤ i.blocksize
      → offset / i.blocksize ≢ x / i.blocksize
      → leb offset x && ltb x (offset + n) ≡ false
  elsewhere offset n x h ne =
      let bs = i.blocksize in
      let a = mod-add-div' offset bs in
      let b = mod-add-div' x bs in
      let r = mod-lt x some in
      elim (Bool-cases (ltb (offset / bs) (x / bs))) [
        | inl t ↦
            let m : suc (offset / bs) * bs ≤ x / bs * bs =
              mul-le-mul_right bs (ground (arith, t)) in
            ground (arith, m, suc-mul (offset / bs) bs, a, b, h)
        | inr t ↦
            let m : suc (x / bs) * bs ≤ offset / bs * bs =
              mul-le-mul_right bs (ground (arith, t, ne)) in
            ground (arith, m, suc-mul (x / bs) bs, a, b, r)
      ]

  in_map : (x : ℕ) → x < length i.block * i.blocksize → x / i.blocksize < length i.block
  in_map x h = (div-lt_iff_lt-mul some).1 h

  module _ (disk : ℕ → List ℕ) (offset n : ℕ) (buffer : List ℕ)
      (w : (b : ℕ) → length (disk b) ≡ i.blocksize) (h : offset % i.blocksize + n ≤ i.blocksize)
      (l : n ≤ length buffer) (inside : offset < length i.block * i.blocksize) where
    spliced : List ℕ
    spliced =
        let b = disk (get_or i.block (offset / i.blocksize) 0) in
        take (offset % i.blocksize) b ++ (take n buffer ++ drop (offset % i.blocksize + n) b)

    length-spliced : length spliced ≡ i.blocksize
    unfolding spliced
    length-spliced =
        let b = disk (get_or i.block (offset / i.blocksize) 0) in
        let o = offset % i.blocksize in
        omega (
          arith,
          w (get_or i.block (offset / i.blocksize) 0),
          h,
          l,
          length-append (take o b) (take n buffer ++ drop (o + n) b),
          length-append (take n buffer) (drop (o + n) b),
          length-take o b,
          length-take n buffer,
          length-drop (o + n) b,
        )

    same_block :
        (x : ℕ)
        → offset / i.blocksize ≡ x / i.blocksize
        → get_or spliced (x % i.blocksize) 0 ≡ (
            if leb offset x && ltb x (offset + n)
            then get_or buffer (x - offset) 0
            else contents disk i x)
    unfolding spliced
    same_block x e =
        let b = disk (get_or i.block (offset / i.blocksize) 0) in
        let o = offset % i.blocksize in
        let r = x % i.blocksize in
        let p = mod-add-div' offset i.blocksize in
        let q = mod-add-div' x i.blocksize in
        let m = ap (λ k. k * i.blocksize) e in
        let d : r - o ≡ x - offset = omega (arith, p, q, m) in
        let t : (leb o r && ltb r (o + n)) ≡ (leb offset x && ltb x (offset + n)) =
          ground (arith, p, q, m) in
        splice-get b buffer o n r (omega (arith, h, w (get_or i.block (offset / i.blocksize) 0))) l
        ∙ (ap (λ c. if c then get_or buffer (r - o) 0 else get_or b r 0) t
            ∙ ap₂
                (λ k y.
                  if leb offset x && ltb x (offset + n)
                  then get_or buffer k 0
                  else get_or (disk (get_or i.block y 0)) r 0)
                d e)

    pub put_part-Puts :
        Puts i disk (put_part i disk offset (offset % i.blocksize) n buffer) offset n buffer
    unfolding spliced
    put_part-Puts =
        let at = get_or i.block (offset / i.blocksize) 0 in
        record {
          whole = λ b. elim (Bool-cases (byte_of i.blocksize at == byte_of i.blocksize b)) [
            | inl t ↦ rw t length-spliced
            | inr t ↦ rw t (w b)
          ];
          bytes = λ x k.
              elim (Bool-cases (
                byte_of i.blocksize at
                == byte_of i.blocksize (get_or i.block (x / i.blocksize) 0))) [
                  | inl t ↦
                      ap
                        (λ c.
                          get_or (if c then spliced else disk (get_or i.block (x / i.blocksize) 0))
                            (x % i.blocksize) 0)
                        t
                      ∙ same_block x (
                          apart (offset / i.blocksize) (x / i.blocksize) (in_map offset inside)
                            (in_map x k) ((==_iff _ _).0 t))
                  | inr t ↦
                      let f = elsewhere offset n x h (λ e. absurd (
                        ground (arith, t, ap (λ y. byte_of i.blocksize (get_or i.block y 0)) e))) in
                      ap
                        (λ c.
                          get_or (if c then spliced else disk (get_or i.block (x / i.blocksize) 0))
                            (x % i.blocksize) 0)
                        t
                      ∙ sym (
                          ap (λ c. if c then get_or buffer (x - offset) 0 else contents disk i x) f)
                ];
        }
