-- ===== src/Prelude/Bits.antt =====
-- The bits of a word, and the bitwise operators of C at variables.
use Prim.Native.Nat.{
  ℕ, zero, suc, ◌+◌, ◌-◌, ◌*◌, ◌/◌, ◌%◌, ◌^◌, ◌≤◌, ◌<◌, min, max, bit_and, bit_or, digits,
  bit_and-bitwise, bit_or-bitwise,
}
use native.Mathlib.Nat.{pow-suc}
use mathlib.Core.Path.{◌≡◌, refl, sym, ap, ◌∙◌}
use mathlib.Core.Logic.{◌≢◌}
use native.Mathlib.Omega.{arith}
use pcboot.Prelude.Arith.{mod-mul_two}

-- Bit `i` of `a`, as 0 or 1.
abbrev pub bit : ℕ → ℕ → ℕ
bit a zero = a % 2
bit a (suc i) = bit (a / 2) i

pub bit-le-one : (a i : ℕ) → bit a i ≤ 1
bit-le-one a zero = omega arith
bit-le-one a (suc i) = bit-le-one (a / 2) i

pub bit-zero : (i : ℕ) → bit 0 i ≡ 0
bit-zero zero = refl
bit-zero (suc i) = bit-zero i

-- Both operators are a recursion on digits, `z` being the result where the first word has run out.
module _ (z : ℕ → ℕ) (f : ℕ → ℕ → ℕ) where
  one_more_digit : (c x y : ℕ) → x ≤ c → digits z f (suc c) x y ≡ digits z f c x y
  one_more_digit zero zero y h = refl
  one_more_digit (suc c) zero y h = refl
  one_more_digit zero (suc x) y h = absurd (omega arith)
  one_more_digit (suc c) (suc x) y h =
      ap (λ k. k * 2 + f (suc x % 2) (y % 2)) (one_more_digit c (suc x / 2) (y / 2) (omega arith))

  enough_digits : (extra x y : ℕ) → digits z f (extra + x) x y ≡ digits z f x x y
  enough_digits zero x y = ap (λ c. digits z f c x y) (omega arith)
  enough_digits (suc extra) x y =
      let count : suc extra + x ≡ suc (extra + x) = omega arith in
      ap (λ c. digits z f c x y) count
      ∙ one_more_digit (extra + x) x y (omega arith)
      ∙ enough_digits extra x y

  digits_step :
      (x y : ℕ)
      → z y ≡ z (y / 2) * 2 + f 0 (y % 2)
      → digits z f x x y ≡ digits z f (x / 2) (x / 2) (y / 2) * 2 + f (x % 2) (y % 2)
  digits_step zero y end = end
  digits_step (suc x) y end =
      let half = suc x / 2 in
      let split : x - half + half ≡ x = omega arith in
      ap (λ k. k * 2 + f (suc x % 2) (y % 2))
        (ap (λ c. digits z f c half (y / 2)) (sym split) ∙ enough_digits (x - half) half (y / 2))

zero-bit_or : (b : ℕ) → bit_or 0 b ≡ b
zero-bit_or b = bit_or-bitwise 0 b

zero-bit_and : (b : ℕ) → bit_and 0 b ≡ 0
zero-bit_and b = bit_and-bitwise 0 b

bit_or_step : (a b : ℕ) → bit_or a b ≡ bit_or (a / 2) (b / 2) * 2 + max (a % 2) (b % 2)
bit_or_step a b =
    bit_or-bitwise a b
    ∙ digits_step (λ b. b) max a b (omega arith)
    ∙ ap (λ k. k * 2 + max (a % 2) (b % 2)) (sym (bit_or-bitwise (a / 2) (b / 2)))

pub bit_and_step : (a b : ℕ) → bit_and a b ≡ bit_and (a / 2) (b / 2) * 2 + min (a % 2) (b % 2)
bit_and_step a b =
    bit_and-bitwise a b
    ∙ digits_step (λ b. zero) min a b (omega arith)
    ∙ ap (λ k. k * 2 + min (a % 2) (b % 2)) (sym (bit_and-bitwise (a / 2) (b / 2)))

-- The operators act on each bit alone.
pub bit-bit_or : (a b i : ℕ) → bit (bit_or a b) i ≡ max (bit a i) (bit b i)
bit-bit_or a b zero = omega (arith, bit_or_step a b)
bit-bit_or a b (suc i) =
    let e : bit_or a b / 2 ≡ bit_or (a / 2) (b / 2) = omega (arith, bit_or_step a b) in
    ap (λ n. bit n i) e ∙ bit-bit_or (a / 2) (b / 2) i

pub bit-bit_and : (a b i : ℕ) → bit (bit_and a b) i ≡ min (bit a i) (bit b i)
bit-bit_and a b zero = omega (arith, bit_and_step a b)
bit-bit_and a b (suc i) =
    let e : bit_and a b / 2 ≡ bit_and (a / 2) (b / 2) = omega (arith, bit_and_step a b) in
    ap (λ n. bit n i) e ∙ bit-bit_and (a / 2) (b / 2) i

-- `1 << j`
pub bit-pow_self : (j : ℕ) → bit (2 ^ j) j ≡ 1
bit-pow_self zero = refl
bit-pow_self (suc j) =
    let e : 2 ^ suc j / 2 ≡ 2 ^ j = omega (arith, pow-suc 2 j) in
    ap (λ n. bit n j) e ∙ bit-pow_self j

pub bit-pow_ne : (j i : ℕ) → j ≢ i → bit (2 ^ j) i ≡ 0
bit-pow_ne zero zero ne = absurd (ne refl)
bit-pow_ne zero (suc i) ne = bit-zero i
bit-pow_ne (suc j) zero ne = omega (arith, pow-suc 2 j)
bit-pow_ne (suc j) (suc i) ne =
    let e : 2 ^ suc j / 2 ≡ 2 ^ j = omega (arith, pow-suc 2 j) in
    ap (λ n. bit n i) e ∙ bit-pow_ne j i (omega arith)

pub pow_pos : (w : ℕ) → 0 < 2 ^ w
pow_pos zero = omega arith
pow_pos (suc w) = omega (arith, pow-suc 2 w, pow_pos w)

pub pow_mono : (i w : ℕ) → i < w → 2 ^ i < 2 ^ w
pow_mono i zero h = absurd (omega arith)
pow_mono zero (suc w) h = omega (arith, pow-suc 2 w, pow_pos w)
pow_mono (suc i) (suc w) h = omega (arith, pow-suc 2 w, pow-suc 2 i, pow_mono i w (omega arith))

-- `~x` at width `w`
pub bit-not : (w x i : ℕ) → x < 2 ^ w → i < w → bit (2 ^ w - 1 - x) i ≡ 1 - bit x i
bit-not zero x i h k = absurd (omega arith)
bit-not (suc w) x zero h k = omega (arith, pow-suc 2 w)
bit-not (suc w) x (suc i) h k =
    let e : (2 ^ suc w - 1 - x) / 2 ≡ 2 ^ w - 1 - x / 2 = omega (arith, pow-suc 2 w) in
    ap (λ n. bit n i) e ∙ bit-not w (x / 2) i (omega (arith, pow-suc 2 w)) (omega arith)

-- A word whose bits are all set is the word of ones.
pub all_ones : (w x : ℕ) → x < 2 ^ w → ((i : ℕ) → i < w → bit x i ≡ 1) → x ≡ 2 ^ w - 1
all_ones zero x h ones = omega arith
all_ones (suc w) x h ones = omega (
  arith,
  pow-suc 2 w,
  ones 0 (omega arith),
  all_ones w (x / 2) (omega (arith, pow-suc 2 w)) (λ i k. ones (suc i) (omega arith)),
)

pub bit-ones : (w i : ℕ) → i < w → bit (2 ^ w - 1) i ≡ 1
bit-ones w i h =
    let e : 2 ^ w - 1 - 0 ≡ 2 ^ w - 1 = omega arith in
    omega (arith, ap (λ n. bit n i) e, bit-not w 0 i (pow_pos w) h, bit-zero i)

pub bit_and-le_right : (n a b : ℕ) → a ≤ n → bit_and a b ≤ b
bit_and-le_right n zero b h = omega (arith, zero-bit_and b)
bit_and-le_right zero (suc a) b h = absurd (omega arith)
bit_and-le_right (suc n) (suc a) b h =
    omega (arith, bit_and_step (suc a) b, bit_and-le_right n (suc a / 2) (b / 2) (omega arith))

-- `x & 63` and such: a mask of `w` ones keeps the remainder.
pub bit_and-mask : (w x : ℕ) → bit_and x (2 ^ w - 1) ≡ x % 2 ^ w
bit_and-mask zero x = omega (arith, bit_and-le_right x x 0 (omega arith))
bit_and-mask (suc w) x =
    let e : (2 ^ suc w - 1) / 2 ≡ 2 ^ w - 1 = omega (arith, pow-suc 2 w) in
    omega (
      arith,
      bit_and_step x (2 ^ suc w - 1),
      ap (bit_and (x / 2)) e,
      bit_and-mask w (x / 2),
      pow-suc 2 w,
      pow_pos w,
      ap (λ k. x % k) (pow-suc 2 w),
      mod-mul_two (2 ^ w) x (pow_pos w),
    )

-- The operators stay below a power of two.
pub bit_or-lt : (w a b : ℕ) → a < 2 ^ w → b < 2 ^ w → bit_or a b < 2 ^ w
bit_or-lt zero a b ha hb =
    let e : a ≡ 0 = omega arith in omega (arith, ap (λ n. bit_or n b) e, zero-bit_or b)
bit_or-lt (suc w) a b ha hb = omega (
  arith,
  pow-suc 2 w,
  bit_or_step a b,
  bit_or-lt w (a / 2) (b / 2) (omega (arith, pow-suc 2 w)) (omega (arith, pow-suc 2 w)),
)

pub bit_and-le : (n a b : ℕ) → a ≤ n → bit_and a b ≤ a
bit_and-le n zero b h = omega (arith, zero-bit_and b)
bit_and-le zero (suc a) b h = absurd (omega arith)
bit_and-le (suc n) (suc a) b h =
    omega (arith, bit_and_step (suc a) b, bit_and-le n (suc a / 2) (b / 2) (omega arith))

-- A test of one bit: `w & (1 << j)`.
pub bit_and-pow : (w j : ℕ) → bit_and w (2 ^ j) ≡ bit w j * 2 ^ j
bit_and-pow w zero = omega (arith, bit_and-mask 1 w)
bit_and-pow w (suc j) =
    let e : 2 ^ suc j / 2 ≡ 2 ^ j = omega (arith, pow-suc 2 j) in
    omega (
      arith,
      bit_and_step w (2 ^ suc j),
      ap (bit_and (w / 2)) e,
      bit_and-pow (w / 2) j,
      pow-suc 2 j,
      ap (λ k. bit w (suc j) * k) (pow-suc 2 j),
    )

-- `x & ~3` of a 32-bit word
pub bit_and-mask_four : (x : ℕ) → x < 2 ^ 32 → bit_and x 0xfffffffc ≡ x / 4 * 4
bit_and-mask_four x h =
    omega (
      arith,
      bit_and_step x 0xfffffffc,
      bit_and_step (x / 2) 0x7ffffffe,
      bit_and-mask 30 (x / 2 / 2),
    )
