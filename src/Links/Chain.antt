-- ===== src/Links/Chain.antt =====
-- The nodes of a linked list, and what a walk does to them.
use pcboot.Prelude.{
  ℕ, zero, suc, ◌<◌, ◌≡◌, ◌≢◌, refl, sym, subst, ap, ◌∙◌, Bool, true, false, List, [], ◌∷◌, ◌++◌,
  Option, none, some, ◌==◌, if◌then◌else◌, arith, length, Bool-cases, inl, inr,
}
use pcboot.Links.{Next, set_next, follow, Unlinked, endless, missing, unlinked, bypass, unlink}

-- From the pointer `o` on the list has these nodes.
abbrev pub Linked : Next → Option ℕ → List ℕ → Type 0
Linked next o [] = o ≡ none
Linked next o (a ∷ l) = (o ≡ some a) × Linked next (next a) l

abbrev pub IsFresh : ℕ → List ℕ → Type 0
IsFresh a [] = Unit
IsFresh a (b ∷ l) = (a ≢ b) × IsFresh a l

abbrev pub AreDistinct : List ℕ → Type 0
AreDistinct [] = Unit
AreDistinct (a ∷ l) = IsFresh a l × AreDistinct l

pub set_next_same : (next : Next) (a : ℕ) (v : Option ℕ) → set_next next a v a ≡ v
set_next_same next a v = let e : (a == a) ≡ true = ground arith in rw e refl

pub set_next_other : (next : Next) (a b : ℕ) (v : Option ℕ) → b ≢ a → set_next next a v b ≡ next b
set_next_other next a b v ne = let e : (b == a) ≡ false = ground (arith, ne) in rw e refl

pub Linked-fresh :
    (next : Next) (o : Option ℕ) (l : List ℕ) (a : ℕ) (v : Option ℕ)
    → IsFresh a l
    → Linked next o l
    → Linked (set_next next a v) o l
Linked-fresh next o [] a v f at_o = at_o
Linked-fresh next o (b ∷ l) a v (ne, f) (at_o, rest) =
    let other : set_next next a v b ≡ next b = set_next_other next a b v (λ e. ne (sym e)) in
    (at_o, rw other (Linked-fresh next (next b) l a v f rest))

pub IsFresh-last : (a b : ℕ) (l r : List ℕ) → IsFresh a (l ++ b ∷ r) → a ≢ b
IsFresh-last a b [] r (ne, f) = ne
IsFresh-last a b (c ∷ l) r (ne, f) = IsFresh-last a b l r f

-- The node `p` gets another list behind it.
pub relinked :
    (next : Next) (o q : Option ℕ) (l r r' : List ℕ) (p : ℕ)
    → AreDistinct (l ++ p ∷ r)
    → Linked next o (l ++ p ∷ r)
    → IsFresh p r'
    → Linked next q r'
    → Linked (set_next next p q) o (l ++ p ∷ r')
relinked next o q [] r r' p d (at_o, rest) f tail =
    (at_o, rw (set_next_same next p q) (Linked-fresh next q r' p q f tail))
relinked next o q (c ∷ l) r r' p (g, d) (at_o, rest) f tail =
    let other : set_next next p q c ≡ next c = set_next_other next p c q (IsFresh-last c p l r g) in
    (at_o, rw other (relinked next (next c) q l r r' p d rest f tail))

behind :
    (next : Next) (o : Option ℕ) (l r : List ℕ) (p : ℕ)
    → Linked next o (l ++ p ∷ r)
    → Linked next (next p) r
behind next o [] r p (at_o, rest) = rest
behind next o (c ∷ l) r p (at_o, rest) = behind next (next c) l r p rest

-- The first node that passes the test is taken away.
abbrev pub erase_first : (ℕ → Bool) → List ℕ → List ℕ
erase_first test [] = []
erase_first test (a ∷ l) = if test a then l else a ∷ erase_first test l

abbrev pub any : (ℕ → Bool) → List ℕ → Bool
any test [] = false
any test (a ∷ l) = if test a then true else any test l

-- The node in front of the first that passes the test, `o` being in front of the list.
abbrev pub pred_of : (ℕ → Bool) → Option ℕ → List ℕ → Option ℕ
pred_of test o [] = o
pred_of test o (a ∷ l) = if test a then o else pred_of test (some a) l

-- What `unlink` does to a list: it has no node to take, or one that passes the test is gone.
abbrev pub Erased : (ℕ → Bool) → List ℕ → Unlinked → Type 0
Erased test l endless = ⊥
Erased test l missing = any test l ≡ false
Erased test l (unlinked node prev next' head') =
    (any test l ≡ true)
    × (test node ≡ true)
    × Linked next' head' (erase_first test l)
    × (prev ≡ pred_of test none l)

pub append_assoc : (l r : List ℕ) (p m : ℕ) → (l ++ p ∷ []) ++ m ∷ r ≡ l ++ p ∷ m ∷ r
append_assoc [] r p m = refl
append_assoc (c ∷ l) r p m = ap (λ s. c ∷ s) (append_assoc l r p m)

abbrev NoneOf : (ℕ → Bool) → List ℕ → Type 0
NoneOf test [] = Unit
NoneOf test (a ∷ l) = (test a ≡ false) × NoneOf test l

NoneOf-append :
    (test : ℕ → Bool) (l : List ℕ) (p : ℕ)
    → NoneOf test l
    → test p ≡ false
    → NoneOf test (l ++ p ∷ [])
NoneOf-append test [] p u e = (e, tt)
NoneOf-append test (a ∷ l) p (h, u) e = (h, NoneOf-append test l p u e)

erase_first-append :
    (test : ℕ → Bool) (l r : List ℕ)
    → NoneOf test l
    → erase_first test (l ++ r) ≡ l ++ erase_first test r
erase_first-append test [] r u = refl
erase_first-append test (a ∷ l) r (h, u) = rw h (ap (λ s. a ∷ s) (erase_first-append test l r u))

any-append : (test : ℕ → Bool) (l r : List ℕ) → NoneOf test l → any test (l ++ r) ≡ any test r
any-append test [] r u = refl
any-append test (a ∷ l) r (h, u) = rw h (any-append test l r u)

AreDistinct-behind : (l r : List ℕ) (p : ℕ) → AreDistinct (l ++ p ∷ r) → IsFresh p r × AreDistinct r
AreDistinct-behind [] r p d = d
AreDistinct-behind (a ∷ l) r p (f, d) = AreDistinct-behind l r p d

append-one : (l r : List ℕ) (p : ℕ) → (l ++ p ∷ []) ++ r ≡ l ++ p ∷ r
append-one [] r p = refl
append-one (c ∷ l) r p = ap (λ s. c ∷ s) (append-one l r p)

erase-hit : (test : ℕ → Bool) (m : ℕ) (r : List ℕ) → test m ≡ true → erase_first test (m ∷ r) ≡ r
erase-hit test m r hit = rw hit refl

any-hit : (test : ℕ → Bool) (m : ℕ) (r : List ℕ) → test m ≡ true → any test (m ∷ r) ≡ true
any-hit test m r hit = rw hit refl

pred-hit :
    (test : ℕ → Bool) (a : ℕ) (l : List ℕ) (o : Option ℕ)
    → test a ≡ true
    → pred_of test o (a ∷ l) ≡ o
pred-hit test a l o hit = rw hit refl

pred_of-append :
    (test : ℕ → Bool) (o : Option ℕ) (l r : List ℕ) (p m : ℕ)
    → NoneOf test (l ++ p ∷ [])
    → test m ≡ true
    → pred_of test o (l ++ p ∷ m ∷ r) ≡ some p
pred_of-append test o [] r p m (miss, u) hit = rw (miss, hit) refl
pred_of-append test o (a ∷ l) r p m (miss, u) hit =
    rw miss (pred_of-append test (some a) l r p m u hit)

any-none : (test : ℕ → Bool) (l : List ℕ) → NoneOf test l → any test l ≡ false
any-none test [] u = refl
any-none test (a ∷ l) (h, u) = rw h (any-none test l u)

module _ (test : ℕ → Bool) (next : Next) (head : Option ℕ) where
  abbrev walk_on : ℕ → Option ℕ → Option ℕ → Unlinked
  walk_on fuel prev o = elim o [
    | none ↦ missing
    | some m ↦ if test m then bypass next head prev m else unlink fuel test next head (some m)
  ]

  unlink_step :
      (fuel : ℕ) (prev o : Option ℕ)
      → follow next head prev ≡ o
      → unlink (suc fuel) test next head prev ≡ walk_on fuel prev o
  unfolding unlink
  unlink_step fuel prev o e = ap (walk_on fuel prev) e

  unlink-hit :
      (fuel m : ℕ) (prev : Option ℕ)
      → follow next head prev ≡ some m
      → test m ≡ true
      → unlink (suc fuel) test next head prev ≡ bypass next head prev m
  unlink-hit fuel m prev e hit =
      unlink_step fuel prev (some m) e
      ∙ ap (λ b. if b then bypass next head prev m else unlink fuel test next head (some m)) hit

  unlink-miss :
      (fuel m : ℕ) (prev : Option ℕ)
      → follow next head prev ≡ some m
      → test m ≡ false
      → unlink (suc fuel) test next head prev ≡ unlink fuel test next head (some m)
  unlink-miss fuel m prev e miss =
      unlink_step fuel prev (some m) e
      ∙ ap (λ b. if b then bypass next head prev m else unlink fuel test next head (some m)) miss

  bypass-Erased :
      (l r : List ℕ) (p m : ℕ)
      → NoneOf test (l ++ p ∷ [])
      → test m ≡ true
      → next p ≡ some m
      → AreDistinct (l ++ p ∷ m ∷ r)
      → Linked next head (l ++ p ∷ m ∷ r)
      → Erased test (l ++ p ∷ m ∷ r) (bypass next head (some p) m)
  unfolding bypass
  bypass-Erased l r p m u hit at_p d linked =
      let (fresh, d') = AreDistinct-behind l (m ∷ r) p d in
      let tail : Linked next (next m) r = (behind next head l (m ∷ r) p linked).1 in
      let same = append_assoc l r p m in
      let gone : erase_first test (l ++ p ∷ m ∷ r) ≡ l ++ p ∷ r =
        ap (erase_first test) (sym same)
        ∙ erase_first-append test (l ++ p ∷ []) (m ∷ r) u
        ∙ ap (λ s. (l ++ p ∷ []) ++ s) (erase-hit test m r hit)
        ∙ append-one l r p in
      (
        ap (any test) (sym same) ∙ any-append test (l ++ p ∷ []) (m ∷ r) u ∙ any-hit test m r hit,
        hit,
        rw gone (relinked next head (next m) l (m ∷ r) r p d linked fresh.1 tail),
        sym (pred_of-append test none l r p m u hit),
      )

  unlink-after :
      (fuel : ℕ) (t l r : List ℕ) (p : ℕ)
      → t ≡ l ++ p ∷ r
      → length r < fuel
      → NoneOf test (l ++ p ∷ [])
      → AreDistinct t
      → Linked next head t
      → Erased test t (unlink fuel test next head (some p))
  unlink-after zero t l r p e h u d linked = absurd (omega (arith, h))
  unlink-after (suc fuel) t l [] p e h u d linked =
      let at_p : next p ≡ none = behind next head l [] p (subst (Linked next head) e linked) in
      subst (Erased test t) (sym (unlink_step fuel (some p) none at_p))
        (ap (any test) e ∙ any-none test (l ++ p ∷ []) u)
  unlink-after (suc fuel) t l (m ∷ r) p e h u d linked =
      let at_p : next p ≡ some m =
        (behind next head l (m ∷ r) p (subst (Linked next head) e linked)).0 in
      elim (Bool-cases (test m)) [
        | inl hit ↦
            let taken : Erased test t (bypass next head (some p) m) =
              subst (λ t. Erased test t (bypass next head (some p) m)) (sym e)
                (bypass-Erased l r p m u hit at_p (subst AreDistinct e d)
                  (subst (Linked next head) e linked)) in
            subst (Erased test t) (sym (unlink-hit fuel m (some p) at_p hit)) taken
        | inr miss ↦ subst (Erased test t) (sym (unlink-miss fuel m (some p) at_p miss)) (
            unlink-after fuel t (l ++ p ∷ []) r m (e ∙ sym (append_assoc l r p m))
              (omega (arith, h)) (NoneOf-append test (l ++ p ∷ []) m u miss) d linked)
      ]

  -- `unlink` takes the first node that passes the test out of a list of distinct nodes.
  pub unlink-Erased :
      (fuel : ℕ) (l : List ℕ)
      → length l < fuel
      → AreDistinct l
      → Linked next head l
      → Erased test l (unlink fuel test next head none)
  unfolding bypass
  unlink-Erased zero l h d linked = absurd (omega (arith, h))
  unlink-Erased (suc fuel) [] h d linked =
      subst (Erased test []) (sym (unlink_step fuel none none linked)) refl
  unlink-Erased (suc fuel) (a ∷ l) h d (at_head, linked) = elim (Bool-cases (test a)) [
    | inl hit ↦
        let gone = erase-hit test a l hit in
        subst (Erased test (a ∷ l)) (sym (unlink-hit fuel a none at_head hit)) (
          any-hit test a l hit,
          hit,
          subst (Linked next (next a)) (sym gone) linked,
          sym (pred-hit test a l none hit),
        )
    | inr miss ↦
        subst (Erased test (a ∷ l)) (sym (unlink-miss fuel a none at_head miss))
          (unlink-after fuel (a ∷ l) [] l a refl (omega (arith, h)) (miss, tt) d (at_head, linked))
  ]

-- A node behind the last one
pub appended :
    (next : Next) (head : Option ℕ) (l : List ℕ) (t n : ℕ)
    → AreDistinct (l ++ t ∷ [])
    → Linked next head (l ++ t ∷ [])
    → t ≢ n
    → next n ≡ none
    → Linked (set_next next t (some n)) head (l ++ t ∷ n ∷ [])
appended next head l t n d linked ne at_n =
    relinked next head (some n) l [] (n ∷ []) t d linked (ne, tt) (refl, at_n)

pub Linked-empty : (next : Next) (l : List ℕ) → Linked next none l → l ≡ []
Linked-empty next [] e = refl
Linked-empty next (a ∷ l) (e, rest) = cc e

pub no_head : (next : Next) (l : List ℕ) (t : ℕ) → Linked next none (l ++ t ∷ []) → ⊥
no_head next [] t (e, rest) = cc e
no_head next (a ∷ l) t (e, rest) = cc e

pub erase_last :
    (test : ℕ → Bool) (l : List ℕ) (t : ℕ)
    → any test l ≡ false
    → test t ≡ true
    → erase_first test (l ++ t ∷ []) ≡ l
erase_last test [] t e hit = rw hit refl
erase_last test (a ∷ l) t e hit = elim (Bool-cases (test a)) [
  | inl here ↦ cc (sym (ap (λ b. if b then true else any test l) here) ∙ e)
  | inr other ↦ rw other (
      ap (λ s. a ∷ s)
        (erase_last test l t (sym (ap (λ b. if b then true else any test l) other) ∙ e) hit))
]

pub any_last :
    (test : ℕ → Bool) (l : List ℕ) (t : ℕ) → test t ≡ true → any test (l ++ t ∷ []) ≡ true
any_last test [] t hit = rw hit refl
any_last test (a ∷ l) t hit = elim (Bool-cases (test a)) [
  | inl here ↦ rw here refl
  | inr other ↦ rw other (any_last test l t hit)
]
