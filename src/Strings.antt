-- ===== src/Strings.antt =====
-- src/libc/string.c and src/libc/ctype.c: comparing strings. A string is the list of its bytes before
-- the terminator, none of which is 0. A `char` is signed: its value is that of the byte less 256 from
-- 128 on.
pub mod Compare
mod Tests
use pcboot.Prelude.{
  ℕ, zero, suc, ◌+◌, ◌-◌, Bool, true, false, ◌&&◌, ◌||◌, List, [], ◌∷◌, ltb, leb, ◌==◌,
  if◌then◌else◌,
}
use pcboot.Prelude.Int.{ℤ, pos, negsuc, ◌-ℤ◌}

-- The value of a `char`.
abbrev pub value : ℕ → ℤ
value c = if ltb c 128 then pos c else negsuc (255 - c)

abbrev pub isupper : ℕ → Bool
isupper c = leb 65 c && leb c 90

abbrev pub tolower : ℕ → ℕ
tolower c = if isupper c then c + 32 else c

abbrev pub isblank : ℕ → Bool
isblank c = c == 32 || c == 9

abbrev pub isspace : ℕ → Bool
isspace c = isblank c || c == 12 || c == 10 || c == 13 || c == 11

-- A test for equal strings
abbrev pub is_zero : ℤ → Bool
is_zero (pos n) = n == 0
is_zero (negsuc n) = false

-- `*s`
abbrev pub first : List ℕ → ℕ
first [] = 0
first (c ∷ s) = c

unfoldable pub strcmp : List ℕ → List ℕ → ℤ
strcmp (a ∷ s1) (b ∷ s2) = let rest = strcmp s1 s2 in if a == b then rest else value a -ℤ value b
strcmp [] s2 = value 0 -ℤ value (first s2)
strcmp (a ∷ s1) [] = value a -ℤ value 0

unfoldable pub strcasecmp : List ℕ → List ℕ → ℤ
strcasecmp (a ∷ s1) (b ∷ s2) =
    let rest = strcasecmp s1 s2 in
    if tolower a == tolower b then rest else value (tolower a) -ℤ value (tolower b)
strcasecmp [] s2 = value (tolower 0) -ℤ value (tolower (first s2))
strcasecmp (a ∷ s1) [] = value (tolower a) -ℤ value (tolower 0)

-- The loop of `strncmp`, with `n` steps left, and the test of `n` behind it, which is one less than
-- that, or -1.
pub strncmp : List ℕ → List ℕ → ℕ → ℤ
strncmp s1 s2 zero = pos 0
strncmp (a ∷ s1) (b ∷ s2) (suc n) =
    let rest = strncmp s1 s2 n in
    let diff = value a -ℤ value b in if a == b then rest else if leb n 0 then pos 0 else diff
strncmp [] s2 (suc n) = if leb n 0 then pos 0 else value 0 -ℤ value (first s2)
strncmp (a ∷ s1) [] (suc n) = if leb n 0 then pos 0 else value a -ℤ value 0
