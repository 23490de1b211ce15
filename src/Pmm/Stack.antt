-- ===== src/Pmm/Stack.antt =====
-- The frame stack of kernel/src/pmm.c (push_frame, pop_frame).
use stewieos.Prelude.{
  ℕ, ◌+◌, ◌-◌, ◌*◌, ◌/◌, ◌%◌, ◌^◌, ◌≤◌, ◌<◌, ◌≡◌, ◌≢◌, none, some, arith, length, get_or, set,
  get_or-set, length-set, ◌↔◌,
}
use stewieos.Pmm.{FrameStack, push_frame, pop_frame}

-- The stack pointer lies in the storage, which has `size / 2` entries.
pub record InStack (s : FrameStack) : Type 0 where
  pub storage : length s.entries * 2 ≡ s.size
  pub within : s.ptr * 2 ≤ s.size

-- On a stack whose pointer lies in its storage, push_frame halts exactly when the pointer is at the
-- start; else a pop_frame right after it succeeds, restores the pointer and returns the address of
-- the page pushed, if that address lies below 2 ^ 28.
pub pop_frame-push_frame :
    (s : FrameStack) (frame : ℕ)
    → InStack s
    → s.ptr ≢ 0
    → frame < 2 ^ 28
    → (t u : FrameStack) × (push_frame s frame ≡ some t)
      × (pop_frame t ≡ some (frame / 0x1000 * 0x1000, u))
      × (u.ptr ≡ s.ptr)
      × InStack u
unfolding push_frame pop_frame
pop_frame-push_frame s frame v n small = (
  pushed,
  record pushed { ptr = s.ptr - 1 + 1 },
  ground arith,
  ground (arith, read),
  omega arith,
  record {
    storage = omega (arith, v.storage, length-set s.entries (s.ptr - 1) entry);
    within = omega (arith, v.within);
  },
)
  where
    entry : ℕ
    entry = (frame / 0x1000) % 2 ^ 16

    pushed : FrameStack
    pushed = record s { entries = set s.entries (s.ptr - 1) entry; ptr = s.ptr - 1 }

    read : get_or (set s.entries (s.ptr - 1) entry) (s.ptr - 1) 0 ≡ frame / 0x1000
    read =
        rw
          (get_or-set s.entries (s.ptr - 1) (s.ptr - 1) entry 0
            (omega (arith, v.storage, v.within)))
          (ground arith)

-- What push_frame and pop_frame do at the ends of the stack: they halt there, and nowhere else.
pub halts_at_the_ends :
    (s : FrameStack) (frame : ℕ)
    → ((push_frame s frame ≡ none) ↔ (s.ptr ≡ 0)) × ((pop_frame s ≡ none) ↔ (s.ptr * 2 ≡ s.size))
unfolding push_frame pop_frame
halts_at_the_ends s frame =
    ((λ e. ground arith, λ e. ground arith), (λ e. ground arith, λ e. ground arith))
