-- ===== src/Stdlib/Sort/Insertion.antt =====
-- src/libc/stdlib.c: ins_sort puts the items in order, and keeps them.
use pcboot.Prelude.{
  ℕ, zero, suc, ◌+◌, ◌-◌, ◌≤◌, ◌<◌, ◌≡◌, ◌≢◌, refl, Bool, true, false, leb, ◌==◌, arith, Bool-cases,
  inl, inr,
}
use pcboot.Stdlib.Sort.{swap, sink, ins_rounds, ins_sort}
use pcboot.Stdlib.Sort.Permutes.{Permutes, swap_part, swap-Permutes, Permutes-trans}

-- What cmp is to give: an order, in which items may be equal.
pub record IsOrder {A : Type 0} (lt : A → A → Bool) : Type 0 where
  pub asym : (a b : A) → lt a b ≡ true → lt b a ≡ false
  pub le_trans : (a b c : A) → lt b a ≡ false → lt c b ≡ false → lt c a ≡ false

module _ {A : Type 0} (lt : A → A → Bool) (order : IsOrder lt) where
  -- The first `n` items are in order, but for those in front of the item `a`, which is on its way down.
  abbrev InOrderBut : (arr n a : ℕ) (items : ℕ → A) → Type 0
  InOrderBut arr n a items =
      (i j : ℕ) → i < j → j < n → j ≢ a → lt (items (arr + j)) (items (arr + i)) ≡ false

  abbrev pub InOrder : (arr n : ℕ) (items : ℕ → A) → Type 0
  InOrder arr n items = (i j : ℕ) → i < j → j < n → lt (items (arr + j)) (items (arr + i)) ≡ false

  swap-InOrderBut :
      (arr n a : ℕ) (items : ℕ → A)
      → suc a < n
      → lt (items (arr + suc a)) (items (arr + a)) ≡ true
      → InOrderBut arr n (suc a) items
      → InOrderBut arr n a (swap (arr + suc a) (arr + a) items)
  swap-InOrderBut arr n a items ha less o i j hij hj ne =
      let at_j = swap_part arr a items j in
      let at_i = swap_part arr a items i in
      let lower : (j == a) ≡ false = ground (arith, ne) in
      elim (Bool-cases (j == suc a)) [
        | inl e ↦
            let j_upper : j ≡ suc a = ground (arith, e) in
            let not_upper : (i == suc a) ≡ false = ground (arith, hij, j_upper) in
            elim (Bool-cases (i == a)) [
              | inl f ↦ rw (at_j, at_i, e, not_upper, f) (order.asym _ _ less)
              | inr f ↦
                  let below : i < a = ground (arith, hij, j_upper, f) in
                  rw (at_j, at_i, e, not_upper, f)
                    (o i a below (omega (arith, ha)) (λ z. absurd (omega (arith, z))))
            ]
        | inr e ↦
            let j_other : j ≢ suc a = λ z. absurd (ground (arith, e, z)) in
            elim (Bool-cases (i == suc a)) [
              | inl f ↦
                  let i_upper : i ≡ suc a = ground (arith, f) in
                  rw (at_j, at_i, e, lower, f) (o a j (omega (arith, hij, i_upper)) hj j_other)
              | inr f ↦ elim (Bool-cases (i == a)) [
                | inl g ↦
                    let i_lower : i ≡ a = ground (arith, g) in
                    let above : suc a < j = ground (arith, hij, i_lower, j_other) in
                    rw (at_j, at_i, e, lower, f, g) (o (suc a) j above hj j_other)
                | inr g ↦ rw (at_j, at_i, e, lower, f, g) (o i j hij hj j_other)
              ]
            ]
      ]

  -- An item that is not below its neighbour has come to its place.
  settled :
      (arr n a : ℕ) (items : ℕ → A)
      → lt (items (arr + suc a)) (items (arr + a)) ≡ false
      → InOrderBut arr n (suc a) items
      → suc a < n
      → InOrder arr n items
  settled arr n a items le o ha i j hij hj = elim (Bool-cases (j == suc a)) [
    | inl e ↦
        let j_is : j ≡ suc a = ground (arith, e) in
        elim (Bool-cases (i == a)) [
          | inl f ↦ let i_is : i ≡ a = ground (arith, f) in rw (j_is, i_is) le
          | inr f ↦
              let below : i < a = ground (arith, hij, j_is, f) in
              rw j_is (
                order.le_trans (items (arr + i)) (items (arr + a)) (items (arr + suc a))
                  (o i a below (omega (arith, ha)) (λ z. absurd (omega (arith, z)))) le)
        ]
    | inr e ↦ o i j hij hj (λ z. absurd (ground (arith, e, z)))
  ]

  -- What sorting a part is
  abbrev pub Sorts : (arr count : ℕ) (items after : ℕ → A) → Type 0
  Sorts arr count items after = InOrder arr count after × Permutes arr count items after

  sink-Sorts :
      (arr n count a : ℕ) (items : ℕ → A)
      → a < n
      → n ≤ count
      → InOrderBut arr n a items
      → InOrder arr n (sink lt arr a items) × Permutes arr count items (sink lt arr a items)
  unfolding sink
  sink-Sorts arr n count zero items h hn o = (
    λ i j hij hj. o i j hij hj (λ z. absurd (omega (arith, hij, z))),
    record { same_count = λ p. refl; kept = λ i w. refl },
  )
  sink-Sorts arr n count (suc a) items h hn o =
      elim (Bool-cases (lt (items (arr + suc a)) (items (arr + a)))) [
        | inl less ↦
            let (sorted, same) =
              sink-Sorts arr n count a (swap (arr + suc a) (arr + a) items) (omega (arith, h)) hn
                (swap-InOrderBut arr n a items h less o) in
            rw less
              (sorted, Permutes-trans (swap-Permutes arr a count items (omega (arith, h, hn))) same)
        | inr le ↦
            rw le
              (settled arr n a items le o h, record { same_count = λ p. refl; kept = λ i w. refl })
      ]

  ins_rounds-Sorts :
      (arr count left i : ℕ) (items : ℕ → A)
      → left + i ≡ count
      → InOrder arr i items
      → Sorts arr count items (ins_rounds lt arr left i items)
  unfolding ins_rounds
  ins_rounds-Sorts arr count zero i items e o = (
    λ a b hab hb. o a b hab (omega (arith, hb, e)),
    record { same_count = λ p. refl; kept = λ a w. refl },
  )
  ins_rounds-Sorts arr count (suc left) i items e o =
      let (sorted, same) =
        sink-Sorts arr (i + 1) count i items (omega arith) (omega (arith, e))
          (λ a b hab hb ne. o a b hab (ground (arith, hb, ne))) in
      let (all, rest) =
        ins_rounds-Sorts arr count left (i + 1) (sink lt arr i items) (omega (arith, e)) sorted in
      (all, Permutes-trans same rest)

  -- By an order, the part is sorted: each item is as often in it as before, and those outside are as they
  -- were.
  pub ins_sort-Sorts :
      (arr count : ℕ) (items : ℕ → A) → Sorts arr count items (ins_sort lt arr count items)
  unfolding ins_sort
  ins_sort-Sorts arr count items = elim (Bool-cases (leb count 1)) [
    | inl few ↦
        let small : count ≤ 1 = ground (arith, few) in
        rw few (
          λ i j hij hj. absurd (omega (arith, hij, hj, small)),
          record { same_count = λ p. refl; kept = λ i w. refl },
        )
    | inr more ↦
        let many : 1 < count = ground (arith, more) in
        rw more (
          ins_rounds-Sorts arr count (count - 1) 1 items (omega (arith, many))
            (λ i j hij hj. absurd (omega (arith, hij, hj))))
  ]
