-- ===== src/Tasks/Member.antt =====
-- Queues of tasks: who stands in one after list_rem, and that nobody stands there twice.
use stewieos.Prelude.{
  ℕ, ◌≡◌, refl, Bool, true, false, List, [], ◌∷◌, ◌==◌, if◌then◌else◌, arith, some, not, ◌&&◌,
}
use stewieos.Tasks.{queued, unlink, next_in, first_of}

pub queued-unlink :
    (x t : ℕ) (l : List ℕ) → queued x (unlink t l) ≡ (if t == x then false else queued x l)
unfolding queued unlink
queued-unlink x t [] = ground arith
queued-unlink x t (a ∷ l) = ground (arith, queued-unlink x t l)

-- no task stands in the queue twice
unfoldable pub unrepeated : List ℕ → Bool
unrepeated [] = true
unrepeated (t ∷ ts) = not (queued t ts) && unrepeated ts

pub unrepeated-unlink : (t : ℕ) (l : List ℕ) → unrepeated l ≡ true → unrepeated (unlink t l) ≡ true
unfolding unrepeated unlink
unrepeated-unlink t [] u = refl
unrepeated-unlink t (a ∷ l) u = ground (arith, unrepeated-unlink t l, queued-unlink a t l)

pub unrepeated-cons :
    (t : ℕ) (l : List ℕ) → unrepeated l ≡ true → unrepeated (t ∷ unlink t l) ≡ true
unfolding unrepeated
unrepeated-cons t l u = ground (arith, unrepeated-unlink t l u, queued-unlink t t l)

-- The first task of a queue stands in it, and so does the successor of one that does.
pub first_of-queued : (l : List ℕ) (x : ℕ) → first_of l ≡ some x → queued x l ≡ true
unfolding first_of queued
first_of-queued [] x e = ground arith
first_of-queued (a ∷ l) x e = ground arith

pub next_in-queued :
    (t x : ℕ) (l : List ℕ) → queued t l ≡ true → next_in t l ≡ some x → queued x l ≡ true
unfolding next_in queued
next_in-queued t x [] q e = ground arith
next_in-queued t x (a ∷ l) q e = ground (arith, next_in-queued t x l, first_of-queued l x)
