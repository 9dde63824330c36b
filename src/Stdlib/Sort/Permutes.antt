-- ===== src/Stdlib/Sort/Permutes.antt =====
-- src/libc/stdlib.c: SWAP of neighbours keeps the items of a part.
use pcboot.Prelude.{
  ℕ, zero, suc, ◌+◌, ◌≤◌, ◌<◌, ◌≡◌, ◌⊎◌, refl, subst, ◌∙◌, Bool, false, ◌==◌, if◌then◌else◌, arith,
  inl, inr,
}
use native.Mathlib.Decide.{dec_lt}
use pcboot.Stdlib.Sort.{swap}

-- The number of items of the part that `p` holds of
pub count_of : {A : Type 0} → (p : A → Bool) (items : ℕ → A) (arr n : ℕ) → ℕ
count_of p items arr zero = 0
count_of p items arr (suc n) = count_of p items arr n + (if p (items (arr + n)) then 1 else 0)

-- The same items in the part, as often, and the same ones outside
pub record Permutes {A : Type 0} (arr count : ℕ) (items after : ℕ → A) : Type 0 where
  pub same_count : (p : A → Bool) → count_of p after arr count ≡ count_of p items arr count
  pub kept : (i : ℕ) → (i < arr) ⊎ (arr + count ≤ i) → after i ≡ items i

pub swap_part :
    {A : Type 0} (arr a : ℕ) (items : ℕ → A) (j : ℕ)
    → swap (arr + suc a) (arr + a) items (arr + j) ≡ (
        if j == suc a
        then items (arr + a)
        else if j == a
        then items (arr + suc a)
        else items (arr + j))
unfolding swap
swap_part arr a items j = ground arith

count_below :
    {A : Type 0} (p : A → Bool) (arr a n : ℕ) (items : ℕ → A)
    → n ≤ a
    → count_of p (swap (arr + suc a) (arr + a) items) arr n ≡ count_of p items arr n
unfolding count_of
count_below p arr a zero items h = refl
count_below p arr a (suc n) items h =
    let ih = count_below p arr a n items (omega (arith, h)) in
    let upper : (n == suc a) ≡ false = ground (arith, h) in
    let lower : (n == a) ≡ false = ground (arith, h) in
    let e : swap (arr + suc a) (arr + a) items (arr + n) ≡ items (arr + n) =
      swap_part arr a items n ∙ rw (upper, lower) refl in
    rw (ih, e) refl

at_upper :
    {A : Type 0} (arr a : ℕ) (items : ℕ → A)
    → swap (arr + suc a) (arr + a) items (arr + suc a) ≡ items (arr + a)
unfolding swap
at_upper arr a items = ground arith

at_lower :
    {A : Type 0} (arr a : ℕ) (items : ℕ → A)
    → swap (arr + suc a) (arr + a) items (arr + a) ≡ items (arr + suc a)
unfolding swap
at_lower arr a items = ground arith

swap-kept :
    {A : Type 0} (arr a count : ℕ) (items : ℕ → A)
    → suc a < count
    → (i : ℕ) → (i < arr) ⊎ (arr + count ≤ i)
    → swap (arr + suc a) (arr + a) items i ≡ items i
unfolding swap
swap-kept arr a count items h i (inl o) = ground (arith, o, h)
swap-kept arr a count items h i (inr o) = ground (arith, o, h)

count-swap_two :
    {A : Type 0} (p : A → Bool) (arr a : ℕ) (items : ℕ → A)
    → count_of p (swap (arr + suc a) (arr + a) items) arr (suc (suc a))
      ≡ count_of p items arr (suc (suc a))
unfolding count_of
count-swap_two p arr a items =
    rw (count_below p arr a a items (omega arith), at_upper arr a items, at_lower arr a items)
      (omega arith)

count-swap :
    {A : Type 0} (p : A → Bool) (arr a n : ℕ) (items : ℕ → A)
    → suc a < n
    → count_of p (swap (arr + suc a) (arr + a) items) arr n ≡ count_of p items arr n
unfolding count_of
count-swap p arr a zero items h = elim h [ ]
count-swap p arr a (suc n) items h = elim (dec_lt (suc a) n) [
  | yes more ↦
      let e : swap (arr + suc a) (arr + a) items (arr + n) ≡ items (arr + n) =
        unfold swap in ground (arith, more) in
      rw (count-swap p arr a n items more, e) refl
  | no last ↦
      let e : suc (suc a) ≡ suc n = omega (arith, h, last) in
      subst (λ k. count_of p (swap (arr + suc a) (arr + a) items) arr k ≡ count_of p items arr k) e
        (count-swap_two p arr a items)
]

pub swap-Permutes :
    {A : Type 0} (arr a count : ℕ) (items : ℕ → A)
    → suc a < count
    → Permutes arr count items (swap (arr + suc a) (arr + a) items)
swap-Permutes arr a count items h = record {
  same_count = λ p. count-swap p arr a count items h;
  kept = λ i o. swap-kept arr a count items h i o;
}

pub Permutes-trans :
    {A : Type 0} {arr count : ℕ} {a b c : ℕ → A}
    → Permutes arr count a b
    → Permutes arr count b c
    → Permutes arr count a c
Permutes-trans f g = record {
  same_count = λ p. g.same_count p ∙ f.same_count p;
  kept = λ i o. g.kept i o ∙ f.kept i o;
}
