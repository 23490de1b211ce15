-- ===== src/Ext2/Holds.antt =====
-- Blocks that e2_alloc_block handed out and e2_free_block did not get back (kernel/src/ext2fs/block.c).
use stewieos.Prelude.{
  ℕ, ◌/◌, ◌<◌, ◌≡◌, ◌≢◌, Bool, true, false, List, [], ◌∷◌, ◌++◌, length, ◌==◌, if◌then◌else◌, arith,
  ap, sym, ◌∙◌, subst, Bool-cases, inl, inr,
}
use stewieos.Ext2.{Fs, e2_alloc_block, e2_free_block}
use stewieos.Ext2.Used.{is_used, HasGroup, IsValidFs, Changes}
use stewieos.Ext2.Alloc.{AllocatesUnused, e2_alloc_block-AllocatesUnused, e2_free_block-Changes}

-- A file system and the blocks that are held.
pub record Held : Type 0 where
  pub fs : Fs
  pub blocks : List ℕ

-- An allocation, whose answer 0 is no block, or the release of a held block.
pub data Step : Held → Held → Type 0 where
  allocates :
      (h : Held)
      → Step h (record {
        fs = (e2_alloc_block true h.fs).1;
        blocks =
            if (e2_alloc_block true h.fs).0 == 0
            then h.blocks
            else (e2_alloc_block true h.fs).0 ∷ h.blocks;
      })
  frees :
      (fs : Fs) (before after : List ℕ) (n : ℕ)
      → Step
          (record { fs = fs; blocks = before ++ n ∷ after })
          (record { fs = (e2_free_block true n fs).1; blocks = before ++ after })

pub data Reach (start : Held) : Held → Type 0 where
  here : Reach start start
  next : {h h' : Held} → Reach start h → Step h h' → Reach start h'

-- `n` is none of them.
abbrev pub Absent : ℕ → List ℕ → Type 0
Absent n [] = Unit
Absent n (m ∷ ms) = (m ≢ n) × Absent n ms

abbrev pub Distinct : List ℕ → Type 0
Distinct [] = Unit
Distinct (n ∷ ns) = Absent n ns × Distinct ns

abbrev pub AllUsed : Fs → List ℕ → Type 0
AllUsed fs [] = Unit
AllUsed fs (n ∷ ns) = HasGroup fs n × (is_used fs n ≡ true) × AllUsed fs ns

-- The held blocks are used, and no block is held twice.
pub record IsHolding (h : Held) : Type 0 where
  pub valid : IsValidFs h.fs
  pub used : AllUsed h.fs h.blocks
  pub distinct : Distinct h.blocks

unused-Absent : (fs : Fs) (n : ℕ) (ns : List ℕ) → is_used fs n ≡ false → AllUsed fs ns → Absent n ns
unused-Absent fs n [] e u = tt
unused-Absent fs n (m ∷ ms) e u =
    (λ q. absurd (ground (arith, u.1, e, ap (is_used fs) q)), unused-Absent fs n ms e u.2)

changed-HasGroup :
    (fs fs' : Fs) (n m : ℕ) (bit : Bool) → Changes fs fs' n bit → HasGroup fs m → HasGroup fs' m
changed-HasGroup fs fs' n m bit c g =
    subst (λ k. m / k < length fs'.bgtable) (sym c.per_group)
      (subst (λ k. m / fs.s_blocks_per_group < k) (sym c.groups) g)

changed-AllUsed :
    (fs fs' : Fs) (n : ℕ) (bit : Bool) (ns : List ℕ)
    → Changes fs fs' n bit
    → Absent n ns
    → AllUsed fs ns
    → AllUsed fs' ns
changed-AllUsed fs fs' n bit [] c a u = tt
changed-AllUsed fs fs' n bit (m ∷ ms) c a u = (
  changed-HasGroup fs fs' n m bit c u.0,
  c.elsewhere m u.0 a.0 ∙ u.1,
  changed-AllUsed fs fs' n bit ms c a.1 u.2,
)

-- Without one element in the middle.
Absent-drop :
    (k n : ℕ) (before after : List ℕ) → Absent k (before ++ n ∷ after) → Absent k (before ++ after)
Absent-drop k n [] after a = a.1
Absent-drop k n (b ∷ before) after a = (a.0, Absent-drop k n before after a.1)

AllUsed-drop :
    (fs : Fs) (n : ℕ) (before after : List ℕ)
    → AllUsed fs (before ++ n ∷ after)
    → AllUsed fs (before ++ after)
AllUsed-drop fs n [] after u = u.2
AllUsed-drop fs n (b ∷ before) after u = (u.0, u.1, AllUsed-drop fs n before after u.2)

AllUsed-at :
    (fs : Fs) (n : ℕ) (before after : List ℕ) → AllUsed fs (before ++ n ∷ after) → HasGroup fs n
AllUsed-at fs n [] after u = u.0
AllUsed-at fs n (b ∷ before) after u = AllUsed-at fs n before after u.2

Absent-at : (k n : ℕ) (before after : List ℕ) → Absent k (before ++ n ∷ after) → n ≢ k
Absent-at k n [] after a = a.0
Absent-at k n (b ∷ before) after a = Absent-at k n before after a.1

Distinct-drop :
    (n : ℕ) (before after : List ℕ)
    → Distinct (before ++ n ∷ after)
    → Distinct (before ++ after) × Absent n (before ++ after)
Distinct-drop n [] after d = (d.1, d.0)
Distinct-drop n (b ∷ before) after d =
    let (e, a) = Distinct-drop n before after d.1 in
    ((Absent-drop b n before after d.0, e), (λ q. Absent-at b n before after d.0 (sym q), a))

allocated-IsHolding :
    (h : Held) (n : ℕ) (fs' : Fs)
    → IsHolding h
    → AllocatesUnused h.fs (n, fs')
    → IsHolding (record { fs = fs'; blocks = if n == 0 then h.blocks else n ∷ h.blocks })
allocated-IsHolding h n fs' i (inl (z, e)) =
    let t : (n == 0) ≡ true = ground (arith, z) in
    rw t (subst (λ x. IsHolding (record { fs = x; blocks = h.blocks })) (sym e) i)
allocated-IsHolding h n fs' i (inr (g, f, c)) =
    let a = unused-Absent h.fs n h.blocks f i.used in
    let u = changed-AllUsed h.fs fs' n true h.blocks c a i.used in
    elim (Bool-cases (n == 0)) [
      | inl t ↦ rw t (record { valid = c.valid; used = u; distinct = i.distinct })
      | inr t ↦ rw t (record {
        valid = c.valid;
        used = (changed-HasGroup h.fs fs' n n true c g, c.at, u);
        distinct = (a, i.distinct);
      })
    ]

Step-IsHolding : {h h' : Held} → Step h h' → IsHolding h → IsHolding h'
Step-IsHolding (allocates h) i =
    allocated-IsHolding h _ _ i (e2_alloc_block-AllocatesUnused h.fs i.valid)
Step-IsHolding (frees fs before after n) i =
    let c = e2_free_block-Changes fs i.valid n (AllUsed-at fs n before after i.used) in
    let (d, a) = Distinct-drop n before after i.distinct in
    record {
      valid = c.valid;
      used =
          changed-AllUsed fs _ n false (before ++ after) c a
            (AllUsed-drop fs n before after i.used);
      distinct = d;
    }

-- From a valid file system, where the bitmaps of two groups never have the same offset on the disk,
-- computed in 32 bits, and where the held blocks are used and none is held twice, whatever is allocated
-- with memory and released, in whatever order, the file system stays valid, the held blocks stay used
-- and none is held twice.
pub Reach-IsHolding : (start h : Held) → IsHolding start → Reach start h → IsHolding h
Reach-IsHolding start h i here = i
Reach-IsHolding start h i (next r s) = Step-IsHolding s (Reach-IsHolding start _ i r)
