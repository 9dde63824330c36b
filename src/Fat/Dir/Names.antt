-- ===== src/Fat/Dir/Names.antt =====
-- The names of entries in fsfat.c: the short ones, padded with blanks, and the long ones, in pieces of 13
-- units.
use pcboot.Prelude.{
  ℕ, zero, suc, ◌<◌, ◌≡◌, ◌≢◌, refl, ap, ◌∙◌, true, false, List, [], ◌∷◌, ◌++◌, ◌==◌, arith, length,
}
use pcboot.Strings.{isspace, first}
use pcboot.Strings.Compare.{IsText}
use pcboot.Fat.{Bytes, copy}
use pcboot.Fat.Dir.{text, clean_trailws, short_name}

-- No blank stands at the end.
abbrev pub IsTrimmed : List ℕ → Type 0
IsTrimmed [] = Unit
IsTrimmed (c ∷ []) = isspace c ≡ false
IsTrimmed (c ∷ d ∷ s) = IsTrimmed (d ∷ s)

abbrev pub AreBlanks : List ℕ → Type 0
AreBlanks [] = Unit
AreBlanks (c ∷ s) = (isspace c ≡ true) × AreBlanks s

clean_blanks : (s : List ℕ) → AreBlanks s → clean_trailws s ≡ []
unfolding clean_trailws
clean_blanks [] h = refl
clean_blanks (c ∷ s) (b, h) = rw (clean_blanks s h, b) refl

-- `clean_trailws` gives what stands in front of the blanks at the end.
pub clean_trailws_lem : (s t : List ℕ) → IsTrimmed s → AreBlanks t → clean_trailws (s ++ t) ≡ s
unfolding clean_trailws
clean_trailws_lem [] t h b = clean_blanks t b
clean_trailws_lem (c ∷ []) t h b = rw (clean_blanks t b, h) refl
clean_trailws_lem (c ∷ d ∷ s) t h b = rw (clean_trailws_lem (d ∷ s) t h b) refl

abbrev pub blanks : ℕ → List ℕ
blanks zero = []
blanks (suc n) = 32 ∷ blanks n

blanks-AreBlanks : (n : ℕ) → AreBlanks (blanks n)
blanks-AreBlanks zero = tt
blanks-AreBlanks (suc n) = (refl, blanks-AreBlanks n)

text-blanks : (n : ℕ) → text (blanks n) ≡ blanks n
text-blanks zero = refl
text-blanks (suc n) = ap (λ s. 32 ∷ s) (text-blanks n)

text-padded : (s : List ℕ) (n : ℕ) → IsText s → text (s ++ blanks n) ≡ s ++ blanks n
text-padded [] n t = text-blanks n
text-padded (c ∷ s) n (h, h', t) =
    let other : (c == 0) ≡ false = ground (arith, h) in rw (other, text-padded s n t) refl

padded : (s : List ℕ) (n : ℕ) → IsText s → IsTrimmed s → clean_trailws (text (s ++ blanks n)) ≡ s
padded s n t h =
    ap clean_trailws (text-padded s n t) ∙ clean_trailws_lem s (blanks n) h (blanks-AreBlanks n)

-- The name that the fields stand for
abbrev pub dotted : (base ext : List ℕ) → List ℕ
dotted base [] = base
dotted base (c ∷ ext) = base ++ 0x2e ∷ c ∷ ext

no_extension : (d : Bytes) (n : ℕ) → copy d 8 3 ≡ blanks n → d 8 ≡ 32
no_extension d zero e = cc e
no_extension d (suc n) e = ap first e

-- The fields of a short name, padded with blanks, give the name and the extension behind a dot, if there
-- is one.
pub short_name-dotted :
    (d : Bytes) (base ext : List ℕ) (m n : ℕ)
    → 0 < length base
    → IsText base
    → IsTrimmed base
    → IsText ext
    → IsTrimmed ext
    → first ext ≢ 32
    → copy d 0 8 ≡ base ++ blanks m
    → copy d 8 3 ≡ ext ++ blanks n
    → short_name d ≡ dotted base ext
unfolding short_name
short_name-dotted d base [] m n h t tr t' tr' ne e e' =
    let base' : clean_trailws (text (copy d 0 8)) ≡ base =
      ap (λ l. clean_trailws (text l)) e ∙ padded base m t tr in
    let some_char : (length base == 0) ≡ false = ground (arith, h) in
    let no_ext : d 8 ≡ 32 = no_extension d n e' in rw (base', some_char, no_ext) refl
short_name-dotted d base (c ∷ ext) m n h t tr (k, k', t') tr' ne e e' =
    let base' : clean_trailws (text (copy d 0 8)) ≡ base =
      ap (λ l. clean_trailws (text l)) e ∙ padded base m t tr in
    let ext' : clean_trailws (text (copy d 8 3)) ≡ c ∷ ext =
      ap (λ l. clean_trailws (text l)) e' ∙ padded (c ∷ ext) n (k, k', t') tr' in
    let some_char : (length base == 0) ≡ false = ground (arith, h) in
    let at_c : d 8 ≡ c = ap first e' in
    let not_null : (d 8 == 0) ≡ false = ground (arith, k, at_c) in
    let not_blank : (d 8 == 32) ≡ false = ground (arith, ne, at_c) in
    rw (base', ext', some_char, not_null, not_blank) refl
