-- ===== src/Stdlib/Tests.antt =====
-- Numbers that are written and read back
use pcboot.Prelude.{◌-◌, ◌^◌, ◌≡◌, refl, [], ◌∷◌, none, some, arith}
use pcboot.Stdlib.{digit_val, itoa, utoa, digits_of, write_digits, digit_char, copy_back, rbuf_size}
use pcboot.Stdlib.Round.{ReadsBack, strtol-itoa, strtol-utoa}

-- -1234, with a space behind it
strtol-itoa_example : ReadsBack (itoa (2 ^ 32 - 1234) 10) (2 ^ 32 - 1234) 10 (32 ∷ [])
unfolding digit_val
strtol-itoa_example =
    strtol-itoa (2 ^ 32 - 1234) 10 (32 ∷ []) (omega arith) (omega arith) (omega arith)
      (λ e. absurd (omega (arith, e))) refl

strtol-utoa_run : ReadsBack (utoa (2 ^ 32 - 1) 16) (2 ^ 32 - 1) 16 []
unfolding digit_val
strtol-utoa_run = strtol-utoa (2 ^ 32 - 1) 16 [] (omega arith) (omega arith) (omega arith) refl

itoa_negative : itoa (2 ^ 32 - 1234) 10 ≡ some (45 ∷ 49 ∷ 50 ∷ 51 ∷ 52 ∷ [])
unfolding itoa digits_of write_digits digit_char copy_back rbuf_size
itoa_negative = refl

-- The least int has characters in front of '0' for digits.
itoa_least : itoa (2 ^ 31) 16 ≡ some (45 ∷ 40 ∷ 48 ∷ 48 ∷ 48 ∷ 48 ∷ 48 ∷ 48 ∷ 48 ∷ [])
unfolding itoa digits_of write_digits digit_char copy_back rbuf_size
itoa_least = refl

-- 17 digits do not fit.
itoa_binary : itoa 65536 2 ≡ none
unfolding itoa digits_of write_digits digit_char copy_back rbuf_size
itoa_binary = refl
