-- ===== src/Prelude/Words.antt =====
-- Machine words that the code reads bit by bit: a list of bits, the lowest first.
use Prim.Native.Nat.{ℕ, zero, suc, ◌<◌}
use mathlib.Core.Path.{◌≡◌, refl}
use mathlib.Core.Bool.{Bool, true, false, ◌&&◌}
use mathlib.Core.List.{List, [], ◌∷◌}
use native.Mathlib.Omega.{arith}
use stewieos.Prelude.Tests.{◌==◌, if◌then◌else◌}
use stewieos.Prelude.Lists.{length, get_or, set}

abbrev pub Word : Type 0
Word = List Bool

-- `w & (1 << m)`, as a test. A bit past the end of the word is 0.
abbrev pub test_bit : Word → ℕ → Bool
test_bit w m = get_or w m false

-- `w == 0xFFFFFFFF`
unfoldable pub all_ones : Word → Bool
all_ones [] = true
all_ones (b ∷ w) = b && all_ones w

pub test_bit-all_ones : (w : Word) (m : ℕ) → all_ones w ≡ true → m < length w → test_bit w m ≡ true
unfolding all_ones
test_bit-all_ones [] m h l = absurd (omega arith)
test_bit-all_ones (b ∷ w) zero h l = ground arith
test_bit-all_ones (b ∷ w) (suc m) h l = test_bit-all_ones w m (ground arith) (omega arith)

-- What a write of one bit does to the others.
pub test_bit-set :
    (w : Word) (m k : ℕ) (b : Bool)
    → m < length w
    → test_bit (set w m b) k ≡ (if m == k then b else test_bit w k)
test_bit-set [] m k b l = absurd (omega arith)
test_bit-set (c ∷ w) zero zero b l = refl
test_bit-set (c ∷ w) zero (suc k) b l = ground arith
test_bit-set (c ∷ w) (suc m) zero b l = ground arith
test_bit-set (c ∷ w) (suc m) (suc k) b l = ground (arith, test_bit-set w m k b)
