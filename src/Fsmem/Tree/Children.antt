-- ===== src/Fsmem/Tree/Children.antt =====
-- The children of a directory of fsmem.c, and the pointer to the last one.
use mathlib.Core.Option.{some-injective}
use pcboot.Prelude.{
  ℕ, ◌≡◌, ◌≢◌, refl, subst, ap, ◌∙◌, Bool, true, List, [], ◌∷◌, ◌++◌, Option, some, ◌==◌, arith,
  Bool-cases, inl, inr,
}
use pcboot.Links.Chain.{Linked, IsFresh, AreDistinct, any, erase_first, pred_of}
use pcboot.Fsmem.Tree.{Nodes}

-- The last of the nodes, if there are any
abbrev pub TailOf : Option ℕ → List ℕ → Type 0
TailOf o [] = Unit
TailOf o (a ∷ []) = o ≡ some a
TailOf o (a ∷ b ∷ l) = TailOf o (b ∷ l)

-- A directory with these children
abbrev pub IsDir : Nodes → ℕ → List ℕ → Type 0
IsDir t dir l = Linked t.next (t.clist dir) l × AreDistinct l × TailOf (t.ctail dir) l

abbrev pub is : ℕ → ℕ → Bool
is n m = m == n

pub TailOf-last : (o : Option ℕ) (l : List ℕ) (t : ℕ) → TailOf o (l ++ t ∷ []) → o ≡ some t
TailOf-last o [] t e = e
TailOf-last o (a ∷ []) t e = e
TailOf-last o (a ∷ b ∷ l) t e = TailOf-last o (b ∷ l) t e

pub TailOf-append : (o : Option ℕ) (l : List ℕ) (t : ℕ) → o ≡ some t → TailOf o (l ++ t ∷ [])
TailOf-append o [] t e = e
TailOf-append o (a ∷ []) t e = e
TailOf-append o (a ∷ b ∷ l) t e = TailOf-append o (b ∷ l) t e

not_tail : (n : ℕ) (b : ℕ) (l : List ℕ) → IsFresh n (b ∷ l) → TailOf (some n) (b ∷ l) → ⊥
not_tail n b [] (ne, f) e = ne (some-injective _ _ e)
not_tail n b (c ∷ l) (ne, f) e = not_tail n c l f e

only_tail : (n b : ℕ) (l : List ℕ) → b ≡ n → IsFresh b l → TailOf (some n) (b ∷ l) → l ≡ []
only_tail n b [] e f t = refl
only_tail n b (c ∷ l) e f t = absurd (not_tail n c l (subst (λ k. IsFresh k (c ∷ l)) e f) t)

-- The node that is taken was the last: the one in front is the last now.
pub tail_back :
    (n : ℕ) (o : Option ℕ) (l : List ℕ)
    → AreDistinct l
    → TailOf (some n) l
    → any (is n) l ≡ true
    → TailOf (pred_of (is n) o l) (erase_first (is n) l)
tail_back n o [] d e found = cc found
tail_back n o (a ∷ []) d e found =
    let hit : is n a ≡ true = ground (arith, some-injective _ _ e) in rw hit tt
tail_back n o (a ∷ b ∷ l) (f, d) e found = elim (Bool-cases (is n a)) [
  | inl hit ↦
      let same : a ≡ n = ground (arith, hit) in
      absurd (not_tail n b l (subst (λ k. IsFresh k (b ∷ l)) same f) e)
  | inr miss ↦ elim (Bool-cases (is n b)) [
    | inl hit ↦
        let nothing : l ≡ [] = only_tail n b l (ground (arith, hit)) d.0 e in
        rw (miss, hit, nothing) refl
    | inr miss' ↦
        let found' : any (is n) (b ∷ l) ≡ true = rw miss at found in
        let rest : TailOf (pred_of (is n) (some b) l) (b ∷ erase_first (is n) l) =
          rw miss' at (tail_back n (some a) (b ∷ l) d e found') in
        rw (miss, miss') rest
  ]
]

after_hit :
    (n : ℕ) (o : Option ℕ) (a b : ℕ) (l : List ℕ)
    → b ≡ n
    → o ≢ some n
    → TailOf o (b ∷ l)
    → TailOf o (a ∷ l)
after_hit n o a b [] e ne t = absurd (ne (t ∙ ap some e))
after_hit n o a b (c ∷ l) e ne t = t

-- Another one was taken: the last stays.
pub tail_stays :
    (n : ℕ) (o : Option ℕ) (l : List ℕ) → o ≢ some n → TailOf o l → TailOf o (erase_first (is n) l)
tail_stays n o [] ne t = tt
tail_stays n o (a ∷ []) ne t = elim (Bool-cases (is n a)) [
  | inl hit ↦ rw hit tt
  | inr miss ↦ rw miss t
]
tail_stays n o (a ∷ b ∷ l) ne t = elim (Bool-cases (is n a)) [
  | inl hit ↦ rw hit t
  | inr miss ↦ elim (Bool-cases (is n b)) [
    | inr miss' ↦
        let rest : TailOf o (b ∷ erase_first (is n) l) =
          rw miss' at (tail_stays n o (b ∷ l) ne t) in
        rw (miss, miss') rest
    | inl hit ↦
        let same : b ≡ n = ground (arith, hit) in rw (miss, hit) (after_hit n o a b l same ne t)
  ]
]

IsFresh-erased : (a n : ℕ) (l : List ℕ) → IsFresh a l → IsFresh a (erase_first (is n) l)
IsFresh-erased a n [] f = tt
IsFresh-erased a n (b ∷ l) (ne, f) = elim (Bool-cases (is n b)) [
  | inl hit ↦ rw hit f
  | inr miss ↦ rw miss (ne, IsFresh-erased a n l f)
]

pub AreDistinct-erased : (n : ℕ) (l : List ℕ) → AreDistinct l → AreDistinct (erase_first (is n) l)
AreDistinct-erased n [] d = tt
AreDistinct-erased n (b ∷ l) (f, d) = elim (Bool-cases (is n b)) [
  | inl hit ↦ rw hit d
  | inr miss ↦ rw miss (IsFresh-erased b n l f, AreDistinct-erased n l d)
]
