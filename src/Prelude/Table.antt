-- ===== src/Prelude/Table.antt =====
-- Facts about a byte by a look at each of its values.
use pcboot.Prelude.Tests.{◌==◌}
use Prim.Native.Nat.{ℕ, zero, suc, ◌<◌}
use mathlib.Core.Bool.{Bool, true, ◌&&◌}
use mathlib.Core.Path.{◌≡◌}
use native.Mathlib.Decide.{ℕ_discrete}
use native.Mathlib.Omega.{arith}

-- The two functions agree at each of the first `n` numbers.
unfoldable pub agree : (n : ℕ) (f g : ℕ → ℕ) → Bool
agree zero f g = true
agree (suc n) f g = (f n == g n) && agree n f g

pub agree-eq : (n : ℕ) (f g : ℕ → ℕ) → agree n f g ≡ true → (x : ℕ) → x < n → f x ≡ g x
unfolding agree
agree-eq zero f g h x lt = absurd (omega arith)
agree-eq (suc n) f g h x lt = elim (ℕ_discrete x n) [
  | yes e ↦ rw e (ground arith)
  | no ne ↦ agree-eq n f g (ground arith) x (omega arith)
]
