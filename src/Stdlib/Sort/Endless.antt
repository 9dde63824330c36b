-- ===== src/Stdlib/Sort/Endless.antt =====
-- src/libc/stdlib.c: qsort of items that are equal to each other.
use pcboot.Prelude.{
  ℕ, zero, suc, ◌+◌, ◌-◌, ◌/◌, ◌≤◌, ◌<◌, ◌≡◌, ◌⊎◌, refl, ap, ◌∙◌, Bool, false, none, some, ltb, leb,
  ◌==◌, arith, Bool-cases, inl, inr,
}
use pcboot.Stdlib.Sort.{
  swap, scan_left, scan_right, split_at, partition_loop, choose_pivot, sort_parts, qsort,
}

module _ {A : Type 0} (lt : A → A → Bool) where
  -- No item comes before another one.
  abbrev pub AllEqual : (ℕ → A) → Type 0
  AllEqual items = (i j : ℕ) → lt (items i) (items j) ≡ false

  -- An item of the result is an item.
  swap-from : (p q : ℕ) (items : ℕ → A) (i : ℕ) → (k : ℕ) × (swap p q items i ≡ items k)
  unfolding swap
  swap-from p q items i = elim (Bool-cases (i == p)) [
    | inl e ↦ (q, rw e refl)
    | inr n ↦ elim (Bool-cases (i == q)) [
      | inl e ↦ (p, rw (n, e) refl)
      | inr m ↦ (i, rw (n, m) refl)
    ]
  ]

  swap-AllEqual : (p q : ℕ) (items : ℕ → A) → AllEqual items → AllEqual (swap p q items)
  swap-AllEqual p q items all i j =
      let (k, e) = swap-from p q items i in
      let (l, f) = swap-from p q items j in
      ap (λ a. lt a (swap p q items j)) e ∙ ap (lt (items k)) f ∙ all k l

  choose_pivot-same :
      (ma mb mc : ℕ) (items : ℕ → A) → AllEqual items → choose_pivot lt ma mb mc items ≡ items
  unfolding choose_pivot
  choose_pivot-same ma mb mc items all = rw (all ma mb, all mc ma) refl

  scan_left-stays :
      (fuel ma left : ℕ) (items : ℕ → A)
      → AllEqual items
      → (scan_left lt fuel ma left items ≡ none) ⊎ (scan_left lt fuel ma left items ≡ some left)
  unfolding scan_left
  scan_left-stays zero ma left items all = inl refl
  scan_left-stays (suc fuel) ma left items all = rw (all left ma) (inr refl)

  scan_right-stays :
      (fuel ma right : ℕ) (items : ℕ → A)
      → AllEqual items
      → (scan_right lt fuel ma right items ≡ none)
        ⊎ (scan_right lt fuel ma right items ≡ some right)
  unfolding scan_right
  scan_right-stays zero ma right items all = inl refl
  scan_right-stays (suc fuel) ma right items all = rw (all ma right) (inr refl)

  partition_loop_endless :
      (fuel ma left right : ℕ) (items : ℕ → A)
      → left < right
      → AllEqual items
      → partition_loop lt fuel ma left right items ≡ none
  unfolding partition_loop split_at
  partition_loop_endless zero ma left right items h all = refl
  partition_loop_endless (suc fuel) ma left right items h all =
      let go = λ (l r : ℕ) (s : ℕ → A). partition_loop lt fuel ma l r s in
      let more : leb right left ≡ false = ground (arith, h) in
      let again =
        partition_loop_endless fuel ma left right (swap left right items) h
          (swap-AllEqual left right items all) in
      let stays : split_at lt go items (some left) (some right) ≡ none = rw more again in
      elim (scan_left-stays fuel ma left items all) [
        | inl e ↦ ap (λ o. split_at lt go items o (scan_right lt fuel ma right items)) e
        | inr e ↦ elim (scan_right-stays fuel ma right items all) [
          | inl f ↦
              ap (split_at lt go items (scan_left lt fuel ma left items)) f
              ∙ ap (λ o. split_at lt go items o none) e
          | inr f ↦
              ap (split_at lt go items (scan_left lt fuel ma left items)) f
              ∙ ap (λ o. split_at lt go items o (some right)) e
              ∙ stays
        ]
      ]

  -- With 4 items or more, all of them equal in the order, qsort runs out of any fuel.
  pub qsort_endless :
      (fuel arr count : ℕ) (items : ℕ → A)
      → 4 ≤ count
      → AllEqual items
      → qsort lt fuel arr count items ≡ none
  unfolding qsort
  qsort_endless zero arr count items h all = refl
  qsort_endless (suc fuel) arr count items h all =
      let many : leb count 1 ≡ false = ground (arith, h) in
      let more : ltb count 4 ≡ false = ground (arith, h) in
      let mc = arr + (count - 1) in
      let same = choose_pivot-same arr (arr + count / 2) mc items all in
      let loop =
        ap (partition_loop lt fuel arr (arr + 1) (mc - 1)) same
        ∙ partition_loop_endless fuel arr (arr + 1) (mc - 1) items (omega (arith, h)) all in
      rw (many, more)
        (ap (sort_parts lt (λ a c s. qsort lt fuel a c s) arr count) loop
          ∙ unfold sort_parts in refl)
