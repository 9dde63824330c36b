-- ===== src/Stdlib/Sort.antt =====
-- src/libc/stdlib.c: ins_sort and qsort. The array is a function from indexes to items, and `lt a b` is
-- cmp(a, b) < 0. The part that is sorted starts at the index `arr`.
mod Endless
mod Permutes
mod Insertion
mod Tests
use pcboot.Prelude.{
  ℕ, zero, suc, ◌+◌, ◌-◌, ◌/◌, Bool, true, false, Option, none, some, ltb, leb, ◌==◌, if◌then◌else◌,
}

-- QSORT_THRESHOLD
abbrev pub qsort_threshold : ℕ
qsort_threshold = 4

-- SWAP
pub swap : {A : Type 0} → (p q : ℕ) → (ℕ → A) → ℕ → A
swap p q items i = if i == p then items q else if i == q then items p else items i

module _ {A : Type 0} (lt : A → A → Bool) where
  -- The inner loop of `ins_sort`, from the item `a` of the part on
  pub sink : (arr a : ℕ) → (ℕ → A) → ℕ → A
  sink arr zero items = items
  sink arr (suc a) items =
      let below = sink arr a (swap (arr + suc a) (arr + a) items) in
      if lt (items (arr + suc a)) (items (arr + a)) then below else items

  -- `left` rounds of the outer loop, up to the item `i`
  pub ins_rounds : (arr left i : ℕ) → (ℕ → A) → ℕ → A
  ins_rounds arr zero i items = items
  ins_rounds arr (suc left) i items = ins_rounds arr left (i + 1) (sink arr i items)

  pub ins_sort : (arr count : ℕ) → (ℕ → A) → ℕ → A
  ins_sort arr count items = if leb count 1 then items else ins_rounds arr (count - 1) 1 items

  -- The loops of `qsort` are on fuel; none if it runs out.
  pub scan_left : (fuel ma left : ℕ) → (ℕ → A) → Option ℕ
  scan_left zero ma left items = none
  scan_left (suc fuel) ma left items =
      let next = scan_left fuel ma (left + 1) items in
      if lt (items left) (items ma) then next else some left

  pub scan_right : (fuel ma right : ℕ) → (ℕ → A) → Option ℕ
  scan_right zero ma right items = none
  scan_right (suc fuel) ma right items =
      let next = scan_right fuel ma (right - 1) items in
      if lt (items ma) (items right) then next else some right

  -- The items and `right`, where the loop breaks. `go` is the next round.
  pub split_at :
      (go : (left right : ℕ) → (ℕ → A) → Option ((ℕ → A) × ℕ)) (items : ℕ → A)
      → Option ℕ
      → Option ℕ
      → Option ((ℕ → A) × ℕ)
  split_at go items none right = none
  split_at go items (some left) none = none
  split_at go items (some left) (some right) =
      let next = go left right (swap left right items) in
      if leb right left then some (items, right) else next

  pub partition_loop : (fuel ma left right : ℕ) → (ℕ → A) → Option ((ℕ → A) × ℕ)
  partition_loop zero ma left right items = none
  partition_loop (suc fuel) ma left right items =
      split_at (λ l r s. partition_loop fuel ma l r s) items (scan_left fuel ma left items)
        (scan_right fuel ma right items)

  -- The first item, the middle one and the last one are put in some order.
  pub choose_pivot : (ma mb mc : ℕ) → (ℕ → A) → ℕ → A
  choose_pivot ma mb mc items =
      let middle = if lt (items ma) (items mb) then swap ma mb items else items in
      if lt (middle mc) (middle ma) then swap mc ma middle else middle

  -- Both parts beside `right`, which is the index of the item that separates them
  pub sort_parts :
      (sort : (arr count : ℕ) → (ℕ → A) → Option (ℕ → A)) (arr count : ℕ)
      → Option ((ℕ → A) × ℕ)
      → Option (ℕ → A)
  sort_parts sort arr count none = none
  sort_parts sort arr count (some (items, right)) =
      let nleft = right - arr in
      elim (sort arr nleft (swap arr right items)) [
        | none ↦ none
        | some lower ↦ sort (right + 1) (count - nleft - 1) lower
      ]

  pub qsort : (fuel arr count : ℕ) → (ℕ → A) → Option (ℕ → A)
  qsort zero arr count items = none
  qsort (suc fuel) arr count items =
      let mc = arr + (count - 1) in
      let chosen = choose_pivot arr (arr + count / 2) mc items in
      let parts =
        sort_parts (λ a c s. qsort fuel a c s) arr count
          (partition_loop fuel arr (arr + 1) (mc - 1) chosen) in
      if leb count 1
      then some items
      else if ltb count qsort_threshold
      then some (ins_sort arr count items)
      else parts
