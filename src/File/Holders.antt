-- ===== src/File/Holders.antt =====
-- The descriptors of kernel/src/fs.c that hold a file.
use stewieos.Prelude.{
  ℕ, ◌+◌, ◌<◌, ◌≤◌, Bool, true, false, Option, none, some, List, [], ◌∷◌, get_or, length, set, ◌==◌,
  if◌then◌else◌, arith, ◌≡◌, Option-cases, Bool-cases, inl, inr, ap, sym, ◌∙◌, suc, zero, subst,
  get_or-set,
}
use stewieos.File.{Descr, no_descr, is_valid, fd_valid, find_fd, bump}

abbrev pub points : Option ℕ → ℕ → ℕ
points none p = 0
points (some q) p = if q == p then 1 else 0

-- How many descriptors of a table point at the file `p`.
abbrev pub holders : List Descr → ℕ → ℕ
holders [] p = 0
holders (d ∷ table) p = points d.file p + holders table p

abbrev pub has_file : Option ℕ → Bool
has_file none = false
has_file (some p) = true

-- A descriptor points at a file when it is valid.
abbrev pub IsTidyDescr : Descr → Type 0
IsTidyDescr d = is_valid d ≡ has_file d.file

-- The descriptors that point at a file are the valid ones.
abbrev pub IsTidy : List Descr → Type 0
IsTidy table = (fd : ℕ) → IsTidyDescr (get_or table fd no_descr)

pub points-le : (o : Option ℕ) (p : ℕ) → points o p ≤ 1
points-le none p = omega arith
points-le (some q) p = ground arith

pub holders-le : (table : List Descr) (p : ℕ) → holders table p ≤ length table
holders-le [] p = omega arith
holders-le (d ∷ table) p = omega (arith, holders-le table p, points-le d.file p)

pub holders-set :
    (table : List Descr) (fd : ℕ) (d : Descr) (p : ℕ)
    → fd < length table
    → holders (set table fd d) p + points (get_or table fd no_descr).file p
      ≡ holders table p + points d.file p
holders-set [] fd d p h = absurd (omega arith)
holders-set (x ∷ table) zero d p h = omega arith
holders-set (x ∷ table) (suc fd) d p h = omega (arith, holders-set table fd d p (omega arith))

pub holders-one :
    (table : List Descr) (fd p : ℕ) → (get_or table fd no_descr).file ≡ some p → 1 ≤ holders table p
holders-one [] fd p e = cc
holders-one (x ∷ table) zero p e =
    let one : points x.file p ≡ 1 = ap (λ o. points o p) e ∙ ground arith in omega (arith, one)
holders-one (x ∷ table) (suc fd) p e = omega (arith, holders-one table fd p e)

pub set-IsTidy :
    (table : List Descr) (fd : ℕ) (d : Descr)
    → fd < length table
    → IsTidyDescr d
    → IsTidy table
    → IsTidy (set table fd d)
set-IsTidy table fd d b e t i = elim (Bool-cases (fd == i)) [
  | inl h ↦
      subst IsTidyDescr
        (sym (
          get_or-set table fd i d no_descr b
          ∙ ap (λ b. if b then d else get_or table i no_descr) h))
        e
  | inr h ↦
      subst IsTidyDescr
        (sym (
          get_or-set table fd i d no_descr b
          ∙ ap (λ b. if b then d else get_or table i no_descr) h))
        (t i)
]

-- A valid descriptor of a tidy table points at a file.
pub valid-has :
    (table : List Descr) (fd : ℕ)
    → IsTidy table
    → fd_valid table fd ≡ true
    → (fd < length table) × (p : ℕ) × ((get_or table fd no_descr).file ≡ some p)
valid-has table fd t v = elim (Option-cases (get_or table fd no_descr).file) [
  | inl e ↦ absurd (ground (arith, t fd, ap has_file e, v))
  | inr (p, e) ↦ (ground (arith, v), p, e)
]

-- What find_fd finds is in range and has the property.
abbrev pub IsFound : (Descr → Bool) → List Descr → Option ℕ → Type 0
IsFound test table none = Unit
IsFound test table (some i) = (i < length table) × (test (get_or table i no_descr) ≡ true)

bump-IsFound :
    (test : Descr → Bool) (table : List Descr) (d : Descr) (o : Option ℕ)
    → IsFound test table o
    → IsFound test (d ∷ table) (bump o)
bump-IsFound test table d none f = tt
bump-IsFound test table d (some i) f = (omega (arith, f.0), f.1)

pub find_fd-IsFound :
    (test : Descr → Bool) (table : List Descr) → IsFound test table (find_fd test table)
find_fd-IsFound test [] = tt
find_fd-IsFound test (d ∷ table) = elim (Bool-cases (test d)) [
  | inl h ↦ rw h (omega arith, h)
  | inr h ↦ rw h (bump-IsFound test table d _ (find_fd-IsFound test table))
]
