-- ===== src/Stdlib/Round.antt =====
-- src/libc/stdlib.c: what strtol makes of the texts of itoa and utoa.
use pcboot.Prelude.{
  ℕ, ◌+◌, ◌*◌, ◌%◌, ◌^◌, ◌≤◌, ◌<◌, ◌≡◌, ◌≢◌, refl, sym, ap, ◌∙◌, Bool, true, false, List, [], ◌∷◌,
  ◌++◌, Option, none, some, ltb, leb, ◌==◌, if◌then◌else◌, length, arith, Bool-cases, inl, inr,
  length-append,
}
use mathlib.Core.List.{reverse, reverse-append}
use pcboot.Strings.{first}
use pcboot.Stdlib.{
  negate, skip_space, take_sign, base_of, digit_val, after_digit, read_digits, digit_char, Parsed,
  rbuf_size, digits_of, copy_back, strtol, itoa, utoa,
}
use pcboot.Stdlib.Text.{
  IsDigit, starts_pos, length-write_digits, read_digits-write_digits, read_digit,
}

-- No digit of the base stands in front.
abbrev pub Stops : (base : ℕ) → List ℕ → Type 0
Stops base rest = digit_val (first rest) base ≡ none

read_digits-Stops :
    (base acc : ℕ) (rest : List ℕ)
    → Stops base rest
    → read_digits base acc true rest ≡ record { acc = acc; valid = true; str = rest }
unfolding read_digits after_digit
read_digits-Stops base acc [] h = refl
read_digits-Stops base acc (c ∷ s) h =
    ap
      (λ o.
        after_digit o (record { acc = acc; valid = true; str = c ∷ s })
          (λ val. read_digits base ((acc * base + val) % 2 ^ 32) true s))
      h

read_digits-digits_of :
    (val base : ℕ) (rest : List ℕ)
    → 2 ≤ base
    → base ≤ 16
    → val < 2 ^ 32
    → Stops base rest
    → read_digits base 0 false (reverse (digits_of false val base) ++ rest)
      ≡ record { acc = val; valid = true; str = rest }
unfolding digits_of digit_char
read_digits-digits_of val base rest lo hi small stop = elim (Bool-cases (val == 0)) [
  | inl e ↦
      let zero_val : val ≡ 0 = ground (arith, e) in
      rw zero_val (
        read_digit base 0 0 false rest (omega (arith, lo)) hi
        ∙ ap (λ k. read_digits base k true rest) (omega arith)
        ∙ read_digits-Stops base 0 rest stop)
  | inr ne ↦ rw ne (
      read_digits-write_digits 32 base val false rest lo hi small small
      ∙ rw ne (read_digits-Stops base val rest stop))
]

digits_of-starts :
    (val base : ℕ) (rest : List ℕ)
    → 2 ≤ base
    → base ≤ 16
    → (d : ℕ) × (s : List ℕ) × (reverse (digits_of false val base) ++ rest ≡ d ∷ s) × IsDigit d
unfolding digits_of digit_char
digits_of-starts val base rest lo hi = elim (Bool-cases (val == 0)) [
  | inl e ↦ rw e (48, rest, refl, inl (omega arith, omega arith))
  | inr ne ↦ rw ne (starts_pos 31 base val rest (omega (arith, lo)) hi ne)
]

skip_space-digit : (d : ℕ) (s : List ℕ) → IsDigit d → skip_space (d ∷ s) ≡ d ∷ s
unfolding skip_space
skip_space-digit d s (inl (lo, hi)) = ground arith
skip_space-digit d s (inr (lo, hi)) = ground arith

take_sign-digit : (d : ℕ) (s : List ℕ) → IsDigit d → take_sign (d ∷ s) ≡ (false, d ∷ s)
unfolding take_sign
take_sign-digit d s (inl (lo, hi)) = ground arith
take_sign-digit d s (inr (lo, hi)) = ground arith

base_of-ne : (str : List ℕ) (base : ℕ) → base ≢ 0 → base_of str base ≡ base
unfolding base_of
base_of-ne str base ne = let other : (base == 0) ≡ false = ground (arith, ne) in rw other refl

-- What strtol gives for what the loop over the digits gives
abbrev result : (neg : Bool) (str : List ℕ) → Parsed → ℕ × List ℕ
result neg str p = (if neg then negate p.acc else p.acc, if p.valid then p.str else str)

strtol-digit :
    (base d : ℕ) (s : List ℕ)
    → base ≢ 0
    → IsDigit d
    → strtol (d ∷ s) base ≡ result false (d ∷ s) (read_digits base 0 false (d ∷ s))
unfolding strtol
strtol-digit base d s ne w =
    rw (skip_space-digit d s w, take_sign-digit d s w, base_of-ne (d ∷ s) base ne) refl

strtol-minus :
    (base : ℕ) (s : List ℕ)
    → base ≢ 0
    → strtol (b'-' ∷ s) base ≡ result true (b'-' ∷ s) (read_digits base 0 false s)
unfolding strtol skip_space take_sign
strtol-minus base s ne = rw (base_of-ne (b'-' ∷ s) base ne) refl

strtol-digits_of :
    (val base : ℕ) (rest : List ℕ)
    → 2 ≤ base
    → base ≤ 16
    → val < 2 ^ 32
    → Stops base rest
    → strtol (reverse (digits_of false val base) ++ rest) base ≡ (val, rest)
strtol-digits_of val base rest lo hi small stop =
    let (d, s, e, w) = digits_of-starts val base rest lo hi in
    let p = read_digits-digits_of val base rest lo hi small stop in
    ap (λ str. strtol str base) e
    ∙ strtol-digit base d s (λ z. absurd (omega (arith, z, lo))) w
    ∙ ap (λ str. result false str (read_digits base 0 false str)) (sym e)
    ∙ ap (result false (reverse (digits_of false val base) ++ rest)) p

negated :
    (val base : ℕ) (rest : List ℕ)
    → 2 ≤ base
    → base ≤ 16
    → val < 2 ^ 32
    → Stops base rest
    → strtol (reverse (digits_of false val base ++ b'-' ∷ []) ++ rest) base ≡ (negate val, rest)
negated val base rest lo hi small stop =
    let text = digits_of false val base in
    ap (λ str. strtol (str ++ rest) base) (reverse-append text (b'-' ∷ []))
    ∙ strtol-minus base (reverse text ++ rest) (λ z. absurd (omega (arith, z, lo)))
    ∙ ap (result true (b'-' ∷ reverse text ++ rest))
        (read_digits-digits_of val base rest lo hi small stop)

length-digits_of :
    (val base : ℕ) (below : Bool)
    → 10 ≤ base
    → val < 2 ^ 32
    → length (digits_of below val base) ≤ 10
unfolding digits_of digit_char
length-digits_of val base below h small = elim (Bool-cases (val == 0)) [
  | inl e ↦ rw e (omega arith)
  | inr ne ↦ rw ne (length-write_digits 32 10 val base below h (omega arith))
]

copy_back-fits : (rbuf : List ℕ) → length rbuf ≤ 16 → copy_back rbuf ≡ some (reverse rbuf)
unfolding copy_back rbuf_size
copy_back-fits rbuf h = let fits : ltb 16 (length rbuf) ≡ false = ground (arith, h) in rw fits refl

-- The number, and nothing behind it, is read back.
abbrev pub ReadsBack : (text : Option (List ℕ)) (val base : ℕ) (rest : List ℕ) → Type 0
ReadsBack text val base rest =
    (s : List ℕ) × (text ≡ some s) × (strtol (s ++ rest) base ≡ (val, rest))

pub strtol-utoa :
    (val base : ℕ) (rest : List ℕ)
    → 10 ≤ base
    → base ≤ 16
    → val < 2 ^ 32
    → Stops base rest
    → ReadsBack (utoa val base) val base rest
unfolding utoa
strtol-utoa val base rest lo hi small stop =
    let text = digits_of false val base in
    let few = length-digits_of val base false lo small in
    (
      reverse text,
      copy_back-fits text (omega (arith, few)),
      strtol-digits_of val base rest (omega (arith, lo)) hi small stop,
    )

-- itoa of any int but the least one, in a base from 10 to 16, has room in its buffer, and strtol reads the
-- int back from the text, up to what follows, if that starts with no digit of the base.
pub strtol-itoa :
    (val base : ℕ) (rest : List ℕ)
    → 10 ≤ base
    → base ≤ 16
    → val < 2 ^ 32
    → val ≢ 2 ^ 31
    → Stops base rest
    → ReadsBack (itoa val base) val base rest
unfolding itoa
strtol-itoa val base rest lo hi small ne stop = elim (Bool-cases (leb (2 ^ 31) val)) [
  | inl neg ↦
      let size : negate val < 2 ^ 31 = ground (arith, ne) in
      let above : leb (2 ^ 31) (negate val) ≡ false = ground (arith, size) in
      let text = digits_of false (negate val) base in
      let few = length-digits_of (negate val) base false lo (omega (arith, size)) in
      let back : negate (negate val) ≡ val = ground (arith, neg) in
      rw (neg, above)
        (
          reverse (text ++ b'-' ∷ []),
          copy_back-fits (text ++ b'-' ∷ []) (omega (arith, few, length-append text (b'-' ∷ []))),
          negated (negate val) base rest (omega (arith, lo)) hi (omega (arith, size)) stop
              ∙ ap (λ n. (n, rest)) back,
        )
  | inr pos ↦
      let few = length-digits_of val base false lo small in
      rw (pos, pos)
        (
          reverse (digits_of false val base),
          copy_back-fits (digits_of false val base) (omega (arith, few)),
          strtol-digits_of val base rest (omega (arith, lo)) hi small stop,
        )
]

-- A prefix of base 16 chooses the base, but is read as the digit 0.
pub strtol-prefix : (s : List ℕ) → strtol (b'0' ∷ b'x' ∷ s) 0 ≡ (0, b'x' ∷ s)
unfolding strtol skip_space take_sign base_of read_digits after_digit digit_val
strtol-prefix s = refl
