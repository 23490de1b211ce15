-- ===== src/Ext2/Rewrite.antt =====
-- A whole write of e2_inode_io (kernel/src/ext2fs/inode.c), step by step, and reading it back.
use stewieos.Prelude.{
  ℕ, zero, suc, ◌+◌, ◌-◌, ◌*◌, ◌/◌, ◌%◌, ◌<◌, ◌≤◌, List, ◌++◌, get_or, take, drop, length, ◌==◌,
  arith, ◌≡◌, ap, ◌∙◌, subst, Bool-cases, inl, inr, get_or-drop, length-drop, drop_all,
}
use stewieos.Ext2.{byte_of, OpenInode, put, put_part, write_whole, write_rest, write_aligned}
use stewieos.Ext2.Triply.{append_none}
use stewieos.Ext2.Written.{Puts, put_part-Puts}
use native.Mathlib.Nat.{
  mod-add-div', mod-lt, suc-mul, zero-mul, add-mod_right, add-mul-mod_self_right,
}

pub extend-Puts :
    (i : OpenInode) (disk disk' disk'' : ℕ → List ℕ) (offset n k : ℕ) (buffer : List ℕ)
    → Puts i disk disk' offset n buffer
    → Puts i disk' disk'' (offset + n) k (drop n buffer)
    → Puts i disk disk'' offset (n + k) buffer
extend-Puts i disk disk' disk'' offset n k buffer p q = record {
  whole = q.whole;
  bytes =
      λ x h. ground (arith, p.bytes x h, q.bytes x h, get_or-drop n buffer (x - (offset + n)) 0);
}

none-Puts :
    (i : OpenInode) (disk : ℕ → List ℕ) (offset n : ℕ) (buffer : List ℕ)
    → ((b : ℕ) → length (disk b) ≡ i.blocksize)
    → n ≡ 0
    → Puts i disk disk offset n buffer
none-Puts i disk offset n buffer w z = record { whole = w; bytes = λ x h. ground (arith, z) }

module _ (i : OpenInode) (some : 0 < i.blocksize)
    (apart : (k m : ℕ)
      → k < length i.block
      → m < length i.block
      → byte_of i.blocksize (get_or i.block k 0) ≡ byte_of i.blocksize (get_or i.block m 0)
      → k ≡ m) where
  -- A part that starts a block.
  start-Puts :
      (disk : ℕ → List ℕ) (offset n : ℕ) (buffer : List ℕ)
      → ((b : ℕ) → length (disk b) ≡ i.blocksize)
      → offset % i.blocksize ≡ 0
      → n ≤ i.blocksize
      → n ≤ length buffer
      → offset < length i.block * i.blocksize
      → Puts i disk (put_part i disk offset 0 n buffer) offset n buffer
  start-Puts disk offset n buffer w z h l inside =
      subst (λ o. Puts i disk (put_part i disk offset o n buffer) offset n buffer) z
        (put_part-Puts i some apart disk offset n buffer w (omega (arith, z, h)) l inside)

  -- A whole block.
  block-Puts :
      (disk : ℕ → List ℕ) (offset : ℕ) (buffer : List ℕ)
      → ((b : ℕ) → length (disk b) ≡ i.blocksize)
      → offset % i.blocksize ≡ 0
      → i.blocksize ≤ length buffer
      → offset < length i.block * i.blocksize
      → Puts i disk (put i disk offset (take i.blocksize buffer)) offset i.blocksize buffer
  block-Puts disk offset buffer w z l inside =
      let b = disk (get_or i.block (offset / i.blocksize) 0) in
      let e : take i.blocksize buffer ++ drop (0 + i.blocksize) b ≡ take i.blocksize buffer =
        ap (λ t. take i.blocksize buffer ++ t)
          (drop_all (0 + i.blocksize) b
            (omega (arith, w (get_or i.block (offset / i.blocksize) 0))))
        ∙ append_none _ in
      subst (λ t. Puts i disk (put i disk offset t) offset i.blocksize buffer) e
        (start-Puts disk offset i.blocksize buffer w z (omega arith) l inside)

  write_whole-Puts :
      (n offset : ℕ) (buffer : List ℕ) (disk : ℕ → List ℕ)
      → ((b : ℕ) → length (disk b) ≡ i.blocksize)
      → offset % i.blocksize ≡ 0
      → n * i.blocksize ≤ length buffer
      → offset + n * i.blocksize ≤ length i.block * i.blocksize
      → Puts i disk (write_whole i n offset buffer disk) offset (n * i.blocksize) buffer
  unfolding write_whole
  write_whole-Puts zero offset buffer disk w z l inside =
      none-Puts i disk offset (0 * i.blocksize) buffer w (zero-mul i.blocksize)
  write_whole-Puts (suc n) offset buffer disk w z l inside =
      let m = suc-mul n i.blocksize in
      let first =
        block-Puts disk offset buffer w z (omega (arith, l, m)) (omega (arith, inside, m, some)) in
      let rest =
        write_whole-Puts n (offset + i.blocksize) (drop i.blocksize buffer) _ first.whole
          (add-mod_right offset i.blocksize ∙ z)
          (omega (arith, l, m, length-drop i.blocksize buffer)) (omega (arith, inside, m)) in
      subst (λ k. Puts i disk (write_whole i (suc n) offset buffer disk) offset k buffer)
        (omega (arith, m))
        (extend-Puts i disk _ _ offset i.blocksize (n * i.blocksize) buffer first rest)

  write_rest-Puts :
      (offset size : ℕ) (buffer : List ℕ) (disk : ℕ → List ℕ)
      → ((b : ℕ) → length (disk b) ≡ i.blocksize)
      → offset % i.blocksize ≡ 0
      → size < i.blocksize
      → size ≤ length buffer
      → offset + size ≤ length i.block * i.blocksize
      → Puts i disk (write_rest i offset size buffer disk) offset size buffer
  unfolding write_rest
  write_rest-Puts offset size buffer disk w z h l inside = elim (Bool-cases (size == 0)) [
    | inl t ↦ rw t (none-Puts i disk offset size buffer w (ground (arith, t)))
    | inr t ↦
        rw t
          (start-Puts disk offset size buffer w z (omega (arith, h)) l (ground (arith, t, inside)))
  ]

  pub write_aligned-Puts :
      (offset size : ℕ) (buffer : List ℕ) (disk : ℕ → List ℕ)
      → ((b : ℕ) → length (disk b) ≡ i.blocksize)
      → offset % i.blocksize ≡ 0
      → size ≤ length buffer
      → offset + size ≤ length i.block * i.blocksize
      → Puts i disk (write_aligned i offset size buffer disk) offset size buffer
  unfolding write_aligned
  write_aligned-Puts offset size buffer disk w z l inside =
      let n = size / i.blocksize in
      let a = mod-add-div' size i.blocksize in
      let first =
        write_whole-Puts n offset buffer disk w z (omega (arith, l, a))
          (omega (arith, inside, a)) in
      let rest =
        write_rest-Puts (offset + n * i.blocksize) (size - n * i.blocksize)
          (drop (n * i.blocksize) buffer) _ first.whole
          (add-mul-mod_self_right offset n i.blocksize ∙ z) (omega (arith, a, mod-lt size some))
          (omega (arith, l, length-drop (n * i.blocksize) buffer)) (omega (arith, inside, a)) in
      subst (λ k. Puts i disk (write_aligned i offset size buffer disk) offset k buffer)
        (omega (arith, a))
        (extend-Puts i disk _ _ offset (n * i.blocksize) (size - n * i.blocksize) buffer first rest)
