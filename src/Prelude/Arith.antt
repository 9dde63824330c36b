-- ===== src/Prelude/Arith.antt =====
-- Quotient and remainder by a variable: they are determined by the equation of division.
use Prim.Native.Nat.{ℕ, ◌+◌, ◌*◌, ◌/◌, ◌%◌, ◌<◌}
use mathlib.Core.Path.{◌≡◌, sym, subst, ap, ◌∙◌}
use native.Mathlib.Decide.{ℕ_discrete}
use native.Mathlib.Nat.{mul-add-mod_self_left, mod-eq_of_lt, mul-add-div, div-eq_of_lt, div-add-mod}
use native.Mathlib.Omega.{arith}

pub mod_unique : (d q r n : ℕ) → n ≡ d * q + r → r < d → n % d ≡ r
mod_unique d q r n e h = ap (λ k. k % d) e ∙ mul-add-mod_self_left d q r ∙ mod-eq_of_lt h

pub div_unique : (d q r n : ℕ) → n ≡ d * q + r → r < d → n / d ≡ q
div_unique d q r n e h =
    ap (λ k. k / d) e
    ∙ mul-add-div {m = d} (omega arith) q r
    ∙ omega (arith, div-eq_of_lt {n = r} {m = d} h)

-- The remainder by `d * 2` from that of the half by `d`.
pub mod-mul_two : (d x : ℕ) → 0 < d → x % (d * 2) ≡ x / 2 % d * 2 + x % 2
mod-mul_two d x h =
    mod_unique (d * 2) (x / 2 / d) (x / 2 % d * 2 + x % 2) x
      (omega (arith, ap (λ k. k * 2) (div-add-mod (x / 2) d))) (omega arith)

-- What holds below `n` and at `n` holds below `n + 1`.
pub below_next {ℓ} :
    (P : ℕ → Type ℓ) (n : ℕ) → ((q : ℕ) → q < n → P q) → P n → (q : ℕ) → q < n + 1 → P q
below_next P n below here q h = elim (ℕ_discrete q n) [
  | yes e ↦ subst P (sym e) here
  | no ne ↦ below q (omega arith)
]
