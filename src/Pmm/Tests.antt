-- ===== src/Pmm/Tests.antt =====
-- Small runs of kernel/src/pmm.c: 64 frames, two mapped entries.
use stewieos.Prelude.{
  ℕ, List, [], ◌∷◌, ◌≡◌, refl, arith, zero, Bool, true, false, some, replicate, suc, ◌<◌, all_ones,
  length, sym, ◌∙◌, ◌≢◌, ◌≢◌,
}
use stewieos.Pmm.{
  word_at, Frames, Page, FrameStack, alloc_frame, free_frame, find_free_frame, find_from,
  find_in_word, reserve_frame,
}
use stewieos.Pmm.Bitmap.{IsValid, reserved}
use stewieos.Pmm.Owner.{
  page_at, AllocSpec, alloc_frame-AllocSpec, Kernel, put, Owns, here, next, free, Reach-Owns,
}

abbrev full : List Bool
full = replicate 32 true

abbrev half : List Bool
half = true ∷ false ∷ replicate 30 true

-- 64 frames, of which only frame 33 is free (frame 0 is never given out)
abbrev frames : Frames
frames = record { physical_frame = full ∷ half ∷ []; physical_frame_count = 64 }

abbrev unmapped : Page
unmapped = record { present = false; user = false; rw_bit = false; frame = 0 }

abbrev mapped : Page
mapped = record { present = true; user = true; rw_bit = false; frame = 5 }

abbrev stack : FrameStack
stack = record { entries = 7 ∷ 8 ∷ 9 ∷ []; ptr = 2; size = 6 }

words_of_32 : (i : ℕ) → i < 2 → length (word_at frames i) ≡ 32
words_of_32 zero h = refl
words_of_32 (suc zero) h = refl
words_of_32 (suc (suc i)) h = absurd (omega arith)

frames-IsValid : IsValid frames
frames-IsValid = record { words = refl; bits = words_of_32 }

alloc_runs :
    alloc_frame unmapped true true frames
    ≡ some (
      record { present = true; user = true; rw_bit = true; frame = 33 },
      record { physical_frame = full ∷ full ∷ []; physical_frame_count = 64 },
    )
unfolding alloc_frame find_free_frame find_from find_in_word reserve_frame all_ones
alloc_runs = refl

alloc_frame-AllocSpec_example :
    AllocSpec unmapped true false frames (alloc_frame unmapped true false frames)
alloc_frame-AllocSpec_example =
    alloc_frame-AllocSpec unmapped true false frames frames-IsValid (omega arith)

abbrev kernel : Kernel
kernel = record { pages = unmapped ∷ mapped ∷ []; frames = frames }

only_entry_1 : (i : ℕ) → (page_at kernel i).present ≡ true → i ≡ 1
only_entry_1 zero e = cc
only_entry_1 (suc zero) e = refl
only_entry_1 (suc (suc i)) e = cc

kernel_cleared : (i : ℕ) → (page_at kernel i).present ≡ false → (page_at kernel i).frame ≡ 0
kernel_cleared zero e = refl
kernel_cleared (suc zero) e = cc
kernel_cleared (suc (suc i)) e = refl

kernel_held :
    (i : ℕ)
    → (page_at kernel i).present ≡ true
    → ((page_at kernel i).frame ≢ 0)
      × ((page_at kernel i).frame < 64)
      × (reserved frames (page_at kernel i).frame ≡ true)
kernel_held zero e = cc
kernel_held (suc zero) e = (omega arith, omega arith, refl)
kernel_held (suc (suc i)) e = cc

kernel-Owns : Owns kernel
kernel-Owns = record {
  bitmap = frames-IsValid;
  small = omega arith;
  held = kernel_held;
  apart = λ i j m n e. only_entry_1 i m ∙ sym (only_entry_1 j n);
  cleared = kernel_cleared;
}

-- entry 1 is unmapped, and entry 0 is mapped
abbrev after : Kernel
after = put kernel 1 (free_frame mapped frames)

Reach-Owns_example : Owns after
Reach-Owns_example = Reach-Owns kernel after kernel-Owns (next here (free 1 (omega arith)))
