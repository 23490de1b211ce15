-- ===== src/Kheap/Holes.antt =====
-- The list of holes of a kernel heap: list_inserted after list_rem and after list_add_ordered.
use stewieos.Prelude.{
  ℕ, ◌≤◌, ◌<◌, ◌≡◌, true, false, ◌||◌, List, [], ◌∷◌, ◌==◌, length, if◌then◌else◌, arith,
}
use stewieos.Kheap.{inserted, remove_hole, list_add_ordered}

pub inserted-remove_hole :
    (x y : ℕ) (l : List ℕ) → inserted x (remove_hole y l) ≡ (if y == x then false else inserted x l)
unfolding inserted remove_hole
inserted-remove_hole x y [] = ground arith
inserted-remove_hole x y (a ∷ l) = ground (arith, inserted-remove_hole x y l)

pub length-remove_hole_le : (y : ℕ) (l : List ℕ) → length (remove_hole y l) ≤ length l
unfolding remove_hole
length-remove_hole_le y [] = omega arith
length-remove_hole_le y (a ∷ l) = ground (arith, length-remove_hole_le y l)

pub length-remove_hole :
    (y : ℕ) (l : List ℕ) → inserted y l ≡ true → length (remove_hole y l) < length l
unfolding inserted remove_hole
length-remove_hole y [] i = ground arith
length-remove_hole y (a ∷ l) i = ground (arith, length-remove_hole y l, length-remove_hole_le y l)

pub inserted-list_add_ordered :
    (sizes : ℕ → ℕ) (x w : ℕ) (l : List ℕ)
    → inserted x (list_add_ordered sizes w l) ≡ (w == x || inserted x l)
unfolding inserted list_add_ordered
inserted-list_add_ordered sizes x w [] = ground arith
inserted-list_add_ordered sizes x w (a ∷ l) = ground (arith, inserted-list_add_ordered sizes x w l)
