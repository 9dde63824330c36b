-- ===== src/Stdlib/Sort/Tests.antt =====
-- Arrays of numbers, in their order
use pcboot.Prelude.{ℕ, ◌≡◌, refl, Option, none, some, ltb, [], ◌∷◌, List, get_or, arith, map}
use pcboot.Stdlib.Sort.{
  swap, ins_sort, qsort, scan_left, scan_right, split_at, partition_loop, choose_pivot, sort_parts,
  sink, ins_rounds,
}
use pcboot.Stdlib.Sort.Endless.{qsort_endless}
use pcboot.Stdlib.Sort.Insertion.{IsOrder, Sorts, ins_sort-Sorts}

ltb-IsOrder : IsOrder ltb
ltb-IsOrder = record {
  asym = λ a b h. ground (arith, h);
  le_trans = λ a b c h k. ground (arith, h, k);
}

qsort_endless_example : qsort ltb 1000 0 5 (λ i. 7) ≡ none
qsort_endless_example = qsort_endless ltb 1000 0 5 (λ i. 7) (omega arith) (λ i j. refl)

-- 5 3 8 1 9 2 7
abbrev shuffled : ℕ → ℕ
shuffled i = get_or (5 ∷ 3 ∷ 8 ∷ 1 ∷ 9 ∷ 2 ∷ 7 ∷ []) i 0

ins_sort-Sorts_example : Sorts ltb ltb-IsOrder 2 5 shuffled (ins_sort ltb 2 5 shuffled)
ins_sort-Sorts_example = ins_sort-Sorts ltb ltb-IsOrder 2 5 shuffled

abbrev sorted_by : Option (ℕ → ℕ) → List ℕ
sorted_by none = []
sorted_by (some items) = map items (0 ∷ 1 ∷ 2 ∷ 3 ∷ 4 ∷ 5 ∷ 6 ∷ [])

qsort_distinct : sorted_by (qsort ltb 8 0 7 shuffled) ≡ 1 ∷ 2 ∷ 3 ∷ 5 ∷ 7 ∷ 8 ∷ 9 ∷ []
unfolding swap qsort scan_left scan_right split_at partition_loop choose_pivot sort_parts ins_sort
    ins_rounds sink
qsort_distinct = refl
