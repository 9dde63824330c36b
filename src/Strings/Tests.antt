-- ===== src/Strings/Tests.antt =====
-- Runs of string.c, and the theorems there.
use pcboot.Prelude.{ℕ, List, ◌≡◌, refl, [], ◌∷◌}
use pcboot.Prelude.Int.{pos}
use pcboot.Strings.{strcmp, strncmp}
use pcboot.Strings.Compare.{strncmp-strcmp}

-- "ab" and "ac" differ in the second of two characters, which `strncmp` does not see.
last_unseen : strncmp (97 ∷ 98 ∷ []) (97 ∷ 99 ∷ []) 2 ≡ pos 0
unfolding strncmp
last_unseen = refl

abbrev ab : List ℕ
ab = 97 ∷ 98 ∷ []

abbrev other : List ℕ
other = 97 ∷ 200 ∷ []

strncmp-strcmp_run : strncmp (97 ∷ 98 ∷ []) (97 ∷ 99 ∷ []) 2 ≡ strcmp (97 ∷ []) (97 ∷ [])
strncmp-strcmp_run = strncmp-strcmp 1 (97 ∷ 98 ∷ []) (97 ∷ 99 ∷ [])
