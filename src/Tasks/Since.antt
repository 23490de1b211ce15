-- ===== src/Tasks/Since.antt =====
-- The loop of task_preempt in kernel/src/task.c ends: the queue of ready tasks from one task on.
use stewieos.Prelude.{
  ℕ, ◌≤◌, ◌<◌, ◌≡◌, ◌≢◌, refl, true, List, [], ◌∷◌, ◌==◌, if◌then◌else◌, arith, none, some, length,
}
use stewieos.Tasks.{queued, unlink, next_in, first_of}
use stewieos.Tasks.Member.{next_in-queued, unrepeated}

-- the queue from a task on
unfoldable pub since : ℕ → List ℕ → List ℕ
since t [] = []
since t (a ∷ l) = let rest = since t l in if a == t then a ∷ l else rest

pub since-first_of : (l : List ℕ) (t : ℕ) → first_of l ≡ some t → since t l ≡ l
unfolding since first_of
since-first_of [] t e = ground arith
since-first_of (a ∷ l) t e = ground (arith, e)

pub since-queued : (t r : ℕ) (l : List ℕ) → queued r (since t l) ≡ true → queued r l ≡ true
unfolding since queued
since-queued t r [] q = q
since-queued t r (a ∷ l) q = ground (arith, since-queued t r l)

-- The successor is one task further on.
pub since-next_in :
    (t u : ℕ) (l : List ℕ)
    → unrepeated l ≡ true
    → queued t l ≡ true
    → next_in t l ≡ some u
    → since t l ≡ t ∷ since u l
unfolding since next_in queued unrepeated first_of
since-next_in t u [] o q e = ground arith
since-next_in t u (a ∷ []) o q e = ground arith
since-next_in t u (a ∷ b ∷ l) o q e =
    ground (arith, since-next_in t u (b ∷ l), next_in-queued t u (b ∷ l))

-- The last task has none after it.
pub since-last :
    (t : ℕ) (l : List ℕ)
    → unrepeated l ≡ true
    → queued t l ≡ true
    → next_in t l ≡ none
    → since t l ≡ t ∷ []
unfolding since next_in queued unrepeated first_of
since-last t [] o q e = ground arith
since-last t (a ∷ []) o q e = ground arith
since-last t (a ∷ b ∷ l) o q e = ground (arith, since-last t (b ∷ l))

pub since-unlink : (t u : ℕ) (l : List ℕ) → t ≢ u → since u (unlink t l) ≡ unlink t (since u l)
unfolding since unlink
since-unlink t u [] ne = refl
since-unlink t u (a ∷ l) ne = ground (arith, since-unlink t u l)

pub length-unlink_le : (t : ℕ) (l : List ℕ) → length (unlink t l) ≤ length l
unfolding unlink
length-unlink_le t [] = omega arith
length-unlink_le t (a ∷ l) = ground (arith, length-unlink_le t l)

pub length-unlink : (t : ℕ) (l : List ℕ) → queued t l ≡ true → length (unlink t l) < length l
unfolding unlink queued
length-unlink t [] q = ground arith
length-unlink t (a ∷ l) q = ground (arith, length-unlink t l, length-unlink_le t l)
