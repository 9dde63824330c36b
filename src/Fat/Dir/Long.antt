-- ===== src/Fat/Dir/Long.antt =====
-- The long names of entries in fsfat.c: stored in pieces of 13 units, in the entries in front of that of the
-- file, the first piece last.
use pcboot.Prelude.{
  ℕ, zero, suc, ◌-◌, ◌%◌, ◌^◌, ◌≤◌, ◌<◌, ◌≡◌, refl, ap, ◌∙◌, Bool, true, false, ◌&&◌, ◌||◌, List,
  [], ◌∷◌, ◌++◌, ltb, leb, ◌==◌, if◌then◌else◌, bit_and, arith, length, Bool-cases, inl, inr, take,
  drop, take-append-drop, length-take,
}
use pcboot.Strings.Compare.{IsText}
use pcboot.Fat.{Bytes}
use pcboot.Fat.Dir.{dent, attr, attr_lfn, lfn_units, lfn_chars, lfn_loop, dent_filename}

-- A 0 behind the name, and 0xffff behind that
abbrev pub filler : ℕ → List ℕ
filler zero = []
filler (suc n) = 0xffff ∷ filler n

abbrev pub piece : List ℕ → List ℕ
piece name = take 13 (name ++ 0 ∷ filler 12)

-- The entries with the indices below `p`, down to `prev`, hold the name, and the flag 0x40 of `seq` marks the
-- last piece.
abbrev pub Stores : Bytes → (prev p : ℕ) → List ℕ → Type 0
Stores ent prev zero name = ⊥
Stores ent prev (suc i) name =
    (prev < suc i)
    × (attr ent i ≡ attr_lfn)
    × (lfn_units (dent ent i) ≡ piece name)
    × ((bit_and (dent ent i 0) 0xf0 == 0x40) ≡ leb (length name) 13)
    × (13 < length name → Stores ent prev i (drop 13 name))

chars-take :
    (n : ℕ) (name rest : List ℕ) → IsText name → lfn_chars (take n (name ++ 0 ∷ rest)) ≡ take n name
unfolding lfn_chars
chars-take zero name rest t = refl
chars-take (suc n) [] rest t = refl
chars-take (suc n) (c ∷ name) rest (h, h', t) =
    let other : (c == 0) ≡ false = ground (arith, h) in
    let low : c % 2 ^ 8 ≡ c = omega (arith, h') in rw (other, low, chars-take n name rest t) refl

drop-IsText : (n : ℕ) (name : List ℕ) → IsText name → IsText (drop n name)
drop-IsText zero name t = t
drop-IsText (suc n) [] t = t
drop-IsText (suc n) (c ∷ name) (h, h', t) = drop-IsText n name t

take_all : (n : ℕ) (name : List ℕ) → length name ≤ n → take n name ≡ name
take_all zero [] h = refl
take_all zero (c ∷ name) h = absurd (omega (arith, h))
take_all (suc n) [] h = refl
take_all (suc n) (c ∷ name) h = ap (λ s. c ∷ s) (take_all n name (omega (arith, h)))

-- A step of the loop with its tests: the last piece, and another one
abbrev step : (chars rest : List ℕ) (flag more : Bool) → List ℕ
step chars rest flag more =
    if ltb (length chars) 13 || flag then chars else if more then chars ++ rest else chars

step-last :
    (chars rest : List ℕ) (flag more : Bool) → flag ≡ true → step chars rest flag more ≡ chars
step-last chars rest flag more e = elim (Bool-cases (ltb (length chars) 13)) [
  | inl short ↦ rw short refl
  | inr whole ↦ rw (whole, e) refl
]

step-more :
    (chars rest : List ℕ) (flag more : Bool)
    → ltb (length chars) 13 ≡ false
    → flag ≡ false
    → more ≡ true
    → step chars rest flag more ≡ chars ++ rest
step-more chars rest flag more whole e e' = rw (whole, e, e') refl

-- The test before a step
abbrev goes_on : Bytes → (prev i : ℕ) → Bool
goes_on ent prev i = ltb prev i && attr ent (i - 1) == attr_lfn

goes_on-Stores :
    (ent : Bytes) (prev i : ℕ) (name : List ℕ) → Stores ent prev i name → goes_on ent prev i ≡ true
goes_on-Stores ent prev zero name st = absurd st
goes_on-Stores ent prev (suc i) name (above, at_attr, stored, flag, rest) =
    let go : ltb prev (suc i) ≡ true = ground (arith, above) in
    let here : attr ent (suc i - 1) ≡ attr_lfn = ap (attr ent) (omega arith) ∙ at_attr in
    let lfn : (attr ent (suc i - 1) == attr_lfn) ≡ true = ground (arith, here) in rw (go, lfn) refl

lfn_loop-Stores :
    (ent : Bytes) (prev p : ℕ) (name : List ℕ)
    → IsText name
    → Stores ent prev p name
    → lfn_loop ent prev p ≡ name
unfolding lfn_loop
lfn_loop-Stores ent prev zero name t st = absurd st
lfn_loop-Stores ent prev (suc i) name t (above, at_attr, stored, flag, rest) =
    let chars : lfn_chars (lfn_units (dent ent i)) ≡ take 13 name =
      ap lfn_chars stored ∙ chars-take 13 name (filler 12) t in
    let seq : Bool = bit_and (dent ent i 0) 0xf0 == 0x40 in
    elim (Bool-cases (leb (length name) 13)) [
      | inl short ↦
          step-last (lfn_chars (lfn_units (dent ent i))) (lfn_loop ent prev i) seq
            (goes_on ent prev i) (flag ∙ short)
          ∙ chars
          ∙ take_all 13 name (ground (arith, short))
      | inr long ↦
          let st = rest (ground (arith, long)) in
          let count : length (lfn_chars (lfn_units (dent ent i))) ≡ 13 =
            ap length chars ∙ length-take 13 name ∙ ground (arith, long) in
          step-more (lfn_chars (lfn_units (dent ent i))) (lfn_loop ent prev i) seq
            (goes_on ent prev i) (ground (arith, count)) (flag ∙ long)
            (goes_on-Stores ent prev i (drop 13 name) st)
          ∙ ap (λ l. l ++ lfn_loop ent prev i) chars
          ∙ ap (λ l. take 13 name ++ l)
              (lfn_loop-Stores ent prev i (drop 13 name) (drop-IsText 13 name t) st)
          ∙ take-append-drop 13 name
    ]

-- `dent_filename` gives the long name that the entries in front store.
pub dent_filename-Stores :
    (ent : Bytes) (i prev : ℕ) (name : List ℕ)
    → IsText name
    → Stores ent prev i name
    → dent_filename ent i prev ≡ name
unfolding dent_filename
dent_filename-Stores ent i prev name t st =
    rw (goes_on-Stores ent prev i name st) (lfn_loop-Stores ent prev i name t st)
