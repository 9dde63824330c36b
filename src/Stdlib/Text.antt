-- ===== src/Stdlib/Text.antt =====
-- src/libc/stdlib.c: strtol reads the digits that itoa writes.
use pcboot.Prelude.{
  ℕ, zero, suc, ◌+◌, ◌*◌, ◌/◌, ◌%◌, ◌^◌, ◌≤◌, ◌<◌, ◌≡◌, refl, ap, ◌∙◌, Bool, true, false, List, [],
  ◌∷◌, ◌++◌, some, ◌==◌, if◌then◌else◌, length, arith, Bool-cases, inl, inr, ◌⊎◌,
}
use mathlib.Core.List.{reverse, reverse-append, append_assoc}
use native.Mathlib.Nat.{
  pow-suc, div-lt_iff_lt-mul, mul-le-mul_left, mod-lt, div-lt_self, div-add-mod', mod-eq_of_lt,
}
use native.Mathlib.Decide.{dec_lt}
use pcboot.Stdlib.{digit_val, read_digits, digit_char, write_digits, after_digit}

pub digit_val-digit_char :
    (d base : ℕ) → d < base → base ≤ 16 → digit_val (digit_char false d) base ≡ some d
unfolding digit_val digit_char
digit_val-digit_char d base h b = ground arith

pub reverse-cons_append {ℓ} :
    {A : Type ℓ} (x : A) (xs ys : List A) → reverse (x ∷ xs) ++ ys ≡ reverse xs ++ x ∷ ys
reverse-cons_append x xs ys =
    ap (λ l. l ++ ys) (reverse-append (x ∷ []) xs) ∙ append_assoc (reverse xs) (x ∷ []) ys

pub read_digit :
    (base acc d : ℕ) (valid : Bool) (rest : List ℕ)
    → d < base
    → base ≤ 16
    → read_digits base acc valid (digit_char false d ∷ rest)
      ≡ read_digits base ((acc * base + d) % 2 ^ 32) true rest
unfolding read_digits after_digit
read_digit base acc d valid rest h b =
    ap
      (λ o.
        after_digit o (record { acc = acc; valid = valid; str = digit_char false d ∷ rest })
          (λ val. read_digits base ((acc * base + val) % 2 ^ 32) true rest))
      (digit_val-digit_char d base h b)

divided : (b f n base : ℕ) → 0 < b → b ≤ base → n < b ^ suc f → n / base < b ^ f
divided b f n base pos h lt =
    (div-lt_iff_lt-mul (omega (arith, pos, h))).1
      (omega (arith, lt, pow-suc b f, mul-le-mul_left (b ^ f) h))

-- The characters are read from the last one on.
pub read_digits-write_digits :
    (f base n : ℕ) (valid : Bool) (rest : List ℕ)
    → 2 ≤ base
    → base ≤ 16
    → n < 2 ^ f
    → n < 2 ^ 32
    → read_digits base 0 valid (reverse (write_digits f false base n) ++ rest)
      ≡ read_digits base n (if n == 0 then valid else true) rest
unfolding write_digits
read_digits-write_digits zero base n valid rest lo hi few small =
    let e : n ≡ 0 = omega arith in rw e refl
read_digits-write_digits (suc f) base n valid rest lo hi few small = elim (Bool-cases (n == 0)) [
  | inl e ↦ let zero_n : n ≡ 0 = ground (arith, e) in rw zero_n refl
  | inr ne ↦
      let pos : 0 < n = ground (arith, ne) in
      let d : n % base < base = mod-lt n (omega (arith, lo)) in
      let c = digit_char false (n % base) in
      let less = div-lt_self {n = n} {k = base} pos lo in
      let ih =
        read_digits-write_digits f base (n / base) valid (c ∷ rest) lo hi
          (divided 2 f n base (omega arith) lo few) (omega (arith, less, small)) in
      let whole : (n / base * base + n % base) % 2 ^ 32 ≡ n =
        ap (λ (k : ℕ). k % 2 ^ 32) (div-add-mod' n base) ∙ mod-eq_of_lt small in
      rw ne (
        ap (read_digits base 0 valid)
          (reverse-cons_append c (write_digits f false base (n / base)) rest)
        ∙ ih
        ∙ read_digit base (n / base) (n % base) (if n / base == 0 then valid else true) rest d hi
        ∙ ap (λ k. read_digits base k true rest) whole)
]

-- Each character is a digit that no sign and no space is spelled like.
abbrev pub IsDigit : ℕ → Type 0
IsDigit c = ((48 ≤ c) × (c ≤ 57)) ⊎ ((97 ≤ c) × (c ≤ 102))

pub digit_char-IsDigit : (d : ℕ) → d < 16 → IsDigit (digit_char false d)
unfolding digit_char
digit_char-IsDigit d h = elim (dec_lt d 10) [
  | yes low ↦ inl (ground arith, ground arith)
  | no high ↦ inr (ground arith, ground arith)
]

-- What the digits in front of a digit start with
pub starts :
    (f base n c : ℕ) (rest : List ℕ)
    → 0 < base
    → base ≤ 16
    → IsDigit c
    → (d : ℕ) × (s : List ℕ) × (reverse (write_digits f false base n) ++ c ∷ rest ≡ d ∷ s)
      × IsDigit d
unfolding write_digits
starts zero base n c rest lo hi w = (c, rest, refl, w)
starts (suc f) base n c rest lo hi w = elim (Bool-cases (n == 0)) [
  | inl e ↦ rw e (c, rest, refl, w)
  | inr ne ↦
      let d = digit_char false (n % base) in
      let below : n % base < 16 = omega (arith, mod-lt n lo, hi) in
      let (d', s, e, w') =
        starts f base (n / base) d (c ∷ rest) lo hi (digit_char-IsDigit (n % base) below) in
      rw ne (d', s, reverse-cons_append d (write_digits f false base (n / base)) (c ∷ rest) ∙ e, w')
]

pub starts_pos :
    (f base n : ℕ) (rest : List ℕ)
    → 0 < base
    → base ≤ 16
    → (n == 0) ≡ false
    → (d : ℕ) × (s : List ℕ) × (reverse (write_digits (suc f) false base n) ++ rest ≡ d ∷ s)
      × IsDigit d
unfolding write_digits
starts_pos f base n rest lo hi ne =
    let c = digit_char false (n % base) in
    let below : n % base < 16 = omega (arith, mod-lt n lo, hi) in
    let (d, s, e, w) =
      starts f base (n / base) c rest lo hi (digit_char-IsDigit (n % base) below) in
    rw ne (d, s, reverse-cons_append c (write_digits f false base (n / base)) rest ∙ e, w)

pub length-write_digits :
    (f k n base : ℕ) (below : Bool)
    → 10 ≤ base
    → n < 10 ^ k
    → length (write_digits f below base n) ≤ k
unfolding write_digits
length-write_digits zero k n base below h lt = omega arith
length-write_digits (suc f) zero n base below h lt =
    let e : n ≡ 0 = omega arith in rw e (omega arith)
length-write_digits (suc f) (suc k) n base below h lt = elim (Bool-cases (n == 0)) [
  | inl e ↦ rw e (omega arith)
  | inr ne ↦
      let ih =
        length-write_digits f k (n / base) base below h (divided 10 k n base (omega arith) h lt) in
      rw ne (omega (arith, ih))
]
