-- ===== src/Pmm/Owner.antt =====
-- alloc_frame and free_frame of kernel/src/pmm.c: the frames that page table entries hold.
use stewieos.Prelude.{
  ℕ, ◌*◌, ◌/◌, ◌%◌, ◌^◌, ◌≤◌, ◌<◌, ◌≡◌, refl, subst, ◌≢◌, ◌⊎◌, inl, inr, Bool, true, false, not,
  ◌||◌, Option, none, some, List, arith, ◌==◌, Bool-cases, if◌then◌else◌, length, get_or, set,
  get_or-set, set-get_or,
}
use stewieos.Pmm.{
  Frames, Page, find_free_frame, write_bit, reserve_frame, release_frame, alloc_frame, free_frame,
}
use stewieos.Pmm.Bitmap.{
  IsValid, reserved, Taken, IsFirstFree, find_free_frame-IsFirstFree, reserved-write_bit,
  write_bit-IsValid,
}

-- the frames that the bitmap covers
abbrev pub limit : Frames → ℕ
limit s = s.physical_frame_count / 32 * 32

-- What a successful allocation does: the entry maps a frame that nobody had, and that frame alone
-- becomes reserved.
pub record Allocated (s : Frames) (user rw_bit : Bool) (p : Page) (s' : Frames) : Type 0 where
  pub mapped : p.present ≡ true
  pub flags : (p.user ≡ user) × (p.rw_bit ≡ rw_bit)
  pub in_range : (p.frame ≢ 0) × (p.frame < limit s)
  pub fresh : reserved s p.frame ≡ false
  pub lowest : Taken s 0 p.frame
  pub only : (j : ℕ) → reserved s' j ≡ (if p.frame == j then true else reserved s j)
  pub same_count : s'.physical_frame_count ≡ s.physical_frame_count
  pub valid : IsValid s'

-- the outcome on every path; `none` is a halt
abbrev pub AllocSpec : Page → (user rw_bit : Bool) → Frames → Option (Page × Frames) → Type 0
AllocSpec page user rw_bit s none = (page.present ≡ true) ⊎ Taken s 0 (limit s)
AllocSpec page user rw_bit s (some (p, s')) = (page.present ≡ false) × Allocated s user rw_bit p s'

module _ (page : Page) (user rw_bit : Bool) (s : Frames) (v : IsValid s)
    (small : limit s ≤ 2 ^ 20) where
  alloc_first :
      (o : Option ℕ)
      → page.present ≡ false
      → IsFirstFree s 0 (limit s) o
      → AllocSpec page user rw_bit s (elim o [
        | none ↦ none
        | some idx ↦ some (
          record { present = true; user = user; rw_bit = rw_bit; frame = idx % 2 ^ 20 },
          reserve_frame s idx,
        )
      ])
  unfolding reserve_frame
  alloc_first none free t = inr t
  alloc_first (some f) free (p, q, n, z, t) =
      let e : f % 2 ^ 20 ≡ f = omega arith in
      (
        free,
        record {
          mapped = refl;
          flags = (refl, refl);
          in_range = omega arith;
          fresh = rw e z;
          lowest = rw e t;
          only = λ j. rw e (reserved-write_bit s v f q j true);
          same_count = refl;
          valid = write_bit-IsValid s v f q true;
        },
      )

  -- alloc_frame, on a valid bitmap of at most 2 ^ 20 frames, halts only if the entry is mapped
  -- already or every frame other than 0 is reserved; else it maps the entry to the lowest free frame
  -- other than 0, which nobody had, with the flags asked for, reserves that frame and no other, and keeps the bitmap
  -- valid.
  pub alloc_frame-AllocSpec : AllocSpec page user rw_bit s (alloc_frame page user rw_bit s)
  unfolding alloc_frame
  alloc_frame-AllocSpec = elim (Bool-cases page.present) [
    | inl e ↦ simp e (inl refl)
    | inr e ↦ simp e (alloc_first (find_free_frame s) e (find_free_frame-IsFirstFree s v))
  ]

-- free_frame clears the entry, and the bit of the frame that it held and of no other; an entry that
-- is not mapped or holds frame 0 is left alone, and so is the bitmap.
pub free_frame_lem :
    (page : Page) (s : Frames)
    → IsValid s
    → page.frame < limit s
    → let (p, s') = free_frame page s in
      IsValid s'
      × (s'.physical_frame_count ≡ s.physical_frame_count)
      × (page.present ≡ true
          → page.frame ≢ 0
          → (p.present ≡ false)
            × (p.frame ≡ 0)
            × ((j : ℕ) → reserved s' j ≡ (if page.frame == j then false else reserved s j)))
unfolding free_frame release_frame
free_frame_lem page s v h = elim (Bool-cases (not page.present || (page.frame == 0))) [
  | inl e ↦ simp e (v, refl, λ p n. ground arith)
  | inr e ↦ simp e (
    write_bit-IsValid s v page.frame h false,
    refl,
    λ p n. (refl, refl, λ j. reserved-write_bit s v page.frame h j false),
  )
]

-- A kernel that maps and unmaps the entries of a page table, `alloc_frame` on any entry and
-- `free_frame` on any entry, in any order.
pub record Kernel : Type 0 where
  pub pages : List Page
  pub frames : Frames

abbrev pub blank : Page
blank = record { present = false; user = false; rw_bit = false; frame = 0 }

abbrev pub page_at : Kernel → ℕ → Page
page_at k i = get_or k.pages i blank

abbrev pub put : Kernel → ℕ → Page × Frames → Kernel
put k i (p, s) = record { pages = set k.pages i p; frames = s }

pub data Step (k : Kernel) : Kernel → Type 0 where
  alloc :
      (i : ℕ) (user rw_bit : Bool) (r : Page × Frames)
      → i < length k.pages
      → alloc_frame (page_at k i) user rw_bit k.frames ≡ some r
      → Step k (put k i r)
  free : (i : ℕ) → i < length k.pages → Step k (put k i (free_frame (page_at k i) k.frames))

pub data Reach (k : Kernel) : Kernel → Type 0 where
  here : Reach k k
  next : {l m : Kernel} → Reach k l → Step l m → Reach k m

-- Every mapped entry holds a reserved frame in range, and no two hold the same one.
pub record Owns (k : Kernel) : Type 0 where
  pub bitmap : IsValid k.frames
  pub small : limit k.frames ≤ 2 ^ 20
  pub held :
      (i : ℕ)
      → (page_at k i).present ≡ true
      → ((page_at k i).frame ≢ 0)
        × ((page_at k i).frame < limit k.frames)
        × (reserved k.frames (page_at k i).frame ≡ true)
  pub apart :
      (i j : ℕ)
      → (page_at k i).present ≡ true
      → (page_at k j).present ≡ true
      → (page_at k i).frame ≡ (page_at k j).frame
      → i ≡ j
  pub cleared : (i : ℕ) → (page_at k i).present ≡ false → (page_at k i).frame ≡ 0

alloc-Owns :
    (k : Kernel) (i : ℕ) (user rw_bit : Bool) (p : Page) (s : Frames)
    → Owns k
    → i < length k.pages
    → (page_at k i).present ≡ false
    → Allocated k.frames user rw_bit p s
    → Owns (put k i (p, s))
alloc-Owns k i user rw_bit p s o h unmapped a = record {
  bitmap = a.valid;
  small = omega (arith, a.same_count, o.small);
  held = λ j m. ground (
    arith,
    (now j),
    o.held j,
    a.in_range,
    a.mapped,
    a.same_count,
    a.only (page_at k j).frame,
    a.only p.frame,
  );
  apart = λ j l m n e. ground (arith, (now j), now l, o.held j, o.held l, o.apart j l, a.fresh);
  cleared = λ j m. ground (arith, (now j), o.cleared j, a.mapped);
}
  where
    now : (j : ℕ) → page_at (put k i (p, s)) j ≡ (if i == j then p else page_at k j)
    now j = get_or-set k.pages i j p blank h

free_mapped :
    (p : Page) (s : Frames)
    → p.present ≡ true
    → p.frame ≢ 0
    → free_frame p s ≡ (record p { frame = 0; present = false }, write_bit s p.frame false)
unfolding free_frame release_frame
free_mapped p s e n = elim (Bool-cases (not p.present || (p.frame == 0))) [
  | inl z ↦ absurd (n (ground arith))
  | inr z ↦ simp z
]

free_unmapped : (p : Page) (s : Frames) → p.present ≡ false → free_frame p s ≡ (p, s)
unfolding free_frame
free_unmapped p s e = simp e

module _ (k : Kernel) (i : ℕ) (o : Owns k) (h : i < length k.pages) where
  release-Owns :
      (page_at k i).present ≡ true
      → Owns (
          put k i (
            record (page_at k i) { frame = 0; present = false },
            write_bit k.frames (page_at k i).frame false,
          ))
  release-Owns m = record {
    bitmap = write_bit-IsValid k.frames o.bitmap (page_at k i).frame in_range false;
    small = o.small;
    held = λ j n.
        ground (arith, now j, o.held j, o.held i, o.apart i j, cleared_bit (page_at k j).frame);
    apart = λ j l m n e. ground (arith, now j, now l, o.apart j l);
    cleared = λ j n. ground (arith, now j, o.cleared j);
  }
    where
      in_range : (page_at k i).frame < limit k.frames
      in_range = (o.held i m).1

      p : Page
      p = record (page_at k i) { frame = 0; present = false }

      now : (j : ℕ) → get_or (set k.pages i p) j blank ≡ (if i == j then p else page_at k j)
      now j = get_or-set k.pages i j p blank h

      cleared_bit :
          (j : ℕ)
          → reserved (write_bit k.frames (page_at k i).frame false) j
            ≡ (if (page_at k i).frame == j then false else reserved k.frames j)
      cleared_bit j = reserved-write_bit k.frames o.bitmap (page_at k i).frame in_range j false

  free-Owns : Owns (put k i (free_frame (page_at k i) k.frames))
  free-Owns = elim (Bool-cases (page_at k i).present) [
    | inl e ↦ rw (free_mapped (page_at k i) k.frames e (o.held i e).0) (release-Owns e)
    | inr e ↦ rw (free_unmapped (page_at k i) k.frames e) (rw (set-get_or k.pages i blank h) o)
  ]

-- From a state in which this holds already, with a bitmap of at most 2 ^ 20 frames, whatever entries
-- are mapped and unmapped, in whatever order, no two mapped entries hold the same frame, and every mapped entry holds a reserved frame other than 0 in the bitmap's range.
pub Reach-Owns : (k l : Kernel) → Owns k → Reach k l → Owns l
Reach-Owns k l o here = o
Reach-Owns k l o (next {l = m} r (alloc i user rw_bit (p, s) h e)) =
    let om = Reach-Owns k m o r in
    let a : AllocSpec (page_at m i) user rw_bit m.frames (some (p, s)) =
      subst (AllocSpec (page_at m i) user rw_bit m.frames) e
        (alloc_frame-AllocSpec (page_at m i) user rw_bit m.frames om.bitmap om.small) in
    alloc-Owns m i user rw_bit p s om h a.0 a.1
Reach-Owns k l o (next {l = m} r (free i h)) = free-Owns m i (Reach-Owns k m o r) h
