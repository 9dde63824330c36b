-- ===== src/Strings/Compare.antt =====
-- What the comparisons of string.c compute.
use pcboot.Prelude.{
  ℕ, zero, suc, ◌<◌, ◌≡◌, ◌≢◌, refl, sym, ap, ◌∙◌, ◌↔◌, true, false, List, [], ◌∷◌, leb, ◌==◌,
  if◌then◌else◌, arith, Bool-cases, inl, inr, take, map,
}
use pcboot.Prelude.Int.{pos, ◌-ℤ◌, ◌+ℤ◌}
use pcboot.Strings.{value, tolower, strcmp, strcasecmp, strncmp}

abbrev pub IsText : List ℕ → Type 0
IsText [] = Unit
IsText (c ∷ s) = (0 < c) × (c < 256) × IsText s

value-ne : (a b : ℕ) → a < 256 → b < 256 → value a -ℤ value b ≡ pos 0 → a ≡ b
unfolding ◌-ℤ◌
value-ne a b ha hb h = ground arith

value-zero : (a : ℕ) → 0 < a → a < 256 → value a -ℤ value 0 ≢ pos 0
value-zero a h h' e = absurd (omega (arith, value-ne a 0 h' (omega arith) e))

pub strcmp_self : (s : List ℕ) → strcmp s s ≡ pos 0
unfolding strcmp ◌-ℤ◌
strcmp_self [] = refl
strcmp_self (a ∷ s) = let same : (a == a) ≡ true = ground arith in rw same (strcmp_self s)

strcmp_zero : (s1 s2 : List ℕ) → IsText s1 → IsText s2 → strcmp s1 s2 ≡ pos 0 → s1 ≡ s2
unfolding strcmp
strcmp_zero [] [] t1 t2 e = refl
strcmp_zero [] (b ∷ s2) t1 (h, h', t2) e = absurd (omega (arith, value-ne 0 b (omega arith) h' e))
strcmp_zero (a ∷ s1) [] (h, h', t1) t2 e = absurd (value-zero a h h' e)
strcmp_zero (a ∷ s1) (b ∷ s2) (h, h', t1) (k, k', t2) e = elim (Bool-cases (a == b)) [
  | inl same ↦
      let at_a : a ≡ b = ground arith in
      rw at_a (ap (λ s. b ∷ s) (strcmp_zero s1 s2 t1 t2 (rw same at e)))
  | inr other ↦ absurd (ground (arith, other, value-ne a b h' k' (rw other at e)))
]

-- `strcmp` of two strings of bytes other than 0 is 0 exactly if they are the same.
pub strcmp-eq : (s1 s2 : List ℕ) → IsText s1 → IsText s2 → (strcmp s1 s2 ≡ pos 0) ↔ (s1 ≡ s2)
unfolding strcmp
strcmp-eq s1 s2 t1 t2 = (strcmp_zero s1 s2 t1 t2, λ e. ap (strcmp s1) (sym e) ∙ strcmp_self s1)

-- Exchanging the strings turns the sign.
pub strcmp-swap : (s1 s2 : List ℕ) → strcmp s1 s2 +ℤ strcmp s2 s1 ≡ pos 0
unfolding strcmp ◌-ℤ◌ ◌+ℤ◌
strcmp-swap [] [] = refl
strcmp-swap [] (b ∷ s2) = ground arith
strcmp-swap (a ∷ s1) [] = ground arith
strcmp-swap (a ∷ s1) (b ∷ s2) = elim (Bool-cases (a == b)) [
  | inl same ↦ let same' : (b == a) ≡ true = ground arith in rw (same, same') (strcmp-swap s1 s2)
  | inr other ↦ let other' : (b == a) ≡ false = ground arith in rw (other, other') (ground arith)
]

-- `strcasecmp` is `strcmp` of the strings in lower case.
pub strcasecmp-strcmp :
    (s1 s2 : List ℕ) → strcasecmp s1 s2 ≡ strcmp (map tolower s1) (map tolower s2)
unfolding strcasecmp strcmp
strcasecmp-strcmp [] [] = refl
strcasecmp-strcmp [] (b ∷ s2) = refl
strcasecmp-strcmp (a ∷ s1) [] = refl
strcasecmp-strcmp (a ∷ s1) (b ∷ s2) =
    ap (λ x. if tolower a == tolower b then x else value (tolower a) -ℤ value (tolower b))
      (strcasecmp-strcmp s1 s2)

steps_left : (n : ℕ) → leb (suc n) 0 ≡ false
steps_left n = ground arith

-- `strncmp` of `n + 1` characters compares the first `n` only: it is `strcmp` of the strings cut to
-- `n` characters.
pub strncmp-strcmp :
    (n : ℕ) (s1 s2 : List ℕ) → strncmp s1 s2 (suc n) ≡ strcmp (take n s1) (take n s2)
unfolding strncmp strcmp ◌-ℤ◌
strncmp-strcmp zero [] s2 = refl
strncmp-strcmp zero (a ∷ s1) [] = refl
strncmp-strcmp zero (a ∷ s1) (b ∷ s2) = elim (Bool-cases (a == b)) [
  | inl same ↦ rw same refl
  | inr other ↦ rw other refl
]
strncmp-strcmp (suc n) [] [] = rw (steps_left n) refl
strncmp-strcmp (suc n) [] (b ∷ s2) = rw (steps_left n) refl
strncmp-strcmp (suc n) (a ∷ s1) [] = rw (steps_left n) refl
strncmp-strcmp (suc n) (a ∷ s1) (b ∷ s2) = elim (Bool-cases (a == b)) [
  | inl same ↦ rw same (strncmp-strcmp n s1 s2)
  | inr other ↦ rw (other, steps_left n) refl
]
