-- ===== src/Ring/Contents.antt =====
-- The ring buffers as queues.
use pcboot.Prelude.{
  ℕ, zero, suc, ◌+◌, ◌-◌, ◌^◌, ◌≤◌, ◌<◌, ◌≡◌, refl, sym, ap, ◌≢◌, ◌∙◌, true, false, List, [], ◌∷◌,
  ◌++◌, ltb, leb, ◌==◌, if◌then◌else◌, arith, Bool-cases, inl, inr, length,
}
use pcboot.Prelude.Bits.{bit_and-mask}
use pcboot.Prelude.Arith.{mod_unique}
use pcboot.Ring.{Ring, advance}

abbrev pub IsValid : ℕ → Ring → Type 0
IsValid size r = (r.ridx < size) × (r.widx < size)

-- The place that follows.
abbrev pub follow : (size i : ℕ) → ℕ
follow size i = if i + 1 == size then 0 else i + 1

-- `n` entries from the place `i` on.
abbrev pub entries : ℕ → (ℕ → ℕ) → (n i : ℕ) → List ℕ
entries size buffer zero i = []
entries size buffer (suc n) i = buffer i ∷ entries size buffer n (follow size i)

abbrev pub count : ℕ → Ring → ℕ
count size r = if leb r.ridx r.widx then r.widx - r.ridx else r.widx + size - r.ridx

-- The abstract queue, the oldest entry first.
abbrev pub contents : ℕ → Ring → List ℕ
contents size r = entries size r.buffer (count size r) r.ridx

-- The queue that holds one entry less than the ring has places.
abbrev pub tail : List ℕ → List ℕ
tail [] = []
tail (x ∷ l) = l

abbrev pub queue_push : (size key : ℕ) → List ℕ → List ℕ
queue_push size key l = if length l + 1 == size then tail l ++ (key ∷ []) else l ++ (key ∷ [])

abbrev pub queue_putback : (size key : ℕ) → List ℕ → List ℕ
queue_putback size key l = if length l + 1 == size then key ∷ tail l else key ∷ l

pub advance-follow : (w i : ℕ) → i < 2 ^ w → advance (2 ^ w - 1) i ≡ follow (2 ^ w) i
unfolding advance
advance-follow w i h = elim (Bool-cases (i + 1 == 2 ^ w)) [
  | inl last ↦
      rw (bit_and-mask w (i + 1), last)
        (mod_unique (2 ^ w) 1 0 (i + 1) (ground arith) (omega arith))
  | inr inside ↦
      rw (bit_and-mask w (i + 1), inside)
        (mod_unique (2 ^ w) 0 (i + 1) (i + 1) (omega arith) (ground arith))
]

module _ (size : ℕ) (buffer : ℕ → ℕ) where
  length-entries : (n i : ℕ) → length (entries size buffer n i) ≡ n
  length-entries zero i = refl
  length-entries (suc n) i = omega (arith, length-entries n (follow size i))

  -- The place `n` after `i`.
  abbrev place : (n i : ℕ) → ℕ
  place n i = if ltb (i + n) size then i + n else i + n - size

  place-follow : (n i : ℕ) → i < size → suc n < size → place n (follow size i) ≡ place (suc n) i
  place-follow n i h k = ground arith

  entries-snoc :
      (n i : ℕ)
      → i < size
      → n < size
      → entries size buffer (suc n) i ≡ entries size buffer n i ++ (buffer (place n i) ∷ [])
  entries-snoc zero i h k = let e : i ≡ place 0 i = ground arith in ap (λ j. buffer j ∷ []) e
  entries-snoc (suc n) i h k =
      ap (λ l. buffer i ∷ l)
        (entries-snoc n (follow size i) (ground arith) (omega arith)
          ∙ ap (λ j. entries size buffer n (follow size i) ++ (buffer j ∷ []))
              (place-follow n i h k))

  -- A write outside of the entries.
  entries-write :
      (key j n i : ℕ)
      → i < size
      → n < size
      → ((k : ℕ) → k < n → place k i ≡ j → ⊥)
      → entries size (λ x. if x == j then key else buffer x) n i ≡ entries size buffer n i
  entries-write key j zero i h k out = refl
  entries-write key j (suc n) i h k out =
      let here : i ≡ place 0 i = ground arith in
      let other : (i == j) ≡ false = elim (Bool-cases (i == j)) [
        | inl e ↦ absurd (out 0 (omega arith) (ground (arith, here)))
        | inr e ↦ e
      ] in
      rw other (
        ap (λ l. buffer i ∷ l)
          (entries-write key j n (follow size i) (ground arith) (omega arith)
            λ k' lt e. out (suc k') (omega arith) (sym (place-follow k' i h (omega arith)) ∙ e)))

-- A write behind the entries adds one.
entries-push :
    (size : ℕ) (buffer : ℕ → ℕ) (key j n i : ℕ)
    → i < size
    → n < size
    → j ≡ place size buffer n i
    → entries size (λ x. if x == j then key else buffer x) (suc n) i
      ≡ entries size buffer n i ++ (key ∷ [])
entries-push size buffer key j n i h k e =
    let buffer' : ℕ → ℕ = λ x. if x == j then key else buffer x in
    let at_j : buffer' (place size buffer n i) ≡ key = ground (arith, e) in
    entries-snoc size buffer' n i h k
    ∙ ap (λ x. entries size buffer' n i ++ (x ∷ [])) at_j
    ∙ ap (λ l. l ++ (key ∷ []))
        (entries-write size buffer key j n i h k λ k' lt at. absurd (ground (arith, e, at)))

pub contents-count :
    (size n : ℕ) (r : Ring) → count size r ≡ n → contents size r ≡ entries size r.buffer n r.ridx
contents-count size n r e = ap (λ n. entries size r.buffer n r.ridx) e

module _ (size : ℕ) (r : Ring) (v : IsValid size r) (room : 2 ≤ size) where
  pub length-contents : length (contents size r) ≡ count size r
  length-contents = length-entries size r.buffer (count size r) r.ridx

  abbrev written : ℕ → ℕ → ℕ → ℕ
  written key j x = if x == j then key else r.buffer x

  -- A write at the place `at`, and the new ends.
  abbrev after : (key at ridx widx : ℕ) → Ring
  after key at ridx widx = record { buffer = written key at; ridx = ridx; widx = widx }

  pub push_full :
      (key : ℕ)
      → follow size r.widx ≡ r.ridx
      → contents size (after key r.widx (follow size r.ridx) (follow size r.widx))
        ≡ queue_push size key (contents size r)
  push_full key e =
      let k = size - 2 in
      let (lo, hi) = v in
      let was : count size r ≡ suc k = ground (arith, e) in
      let full : (length (contents size r) + 1 == size) ≡ true =
        ground (arith, length-contents, was) in
      let now : count size (after key r.widx (follow size r.ridx) (follow size r.widx)) ≡ suc k =
        ground (arith, e) in
      rw full (
        contents-count size (suc k) (after key r.widx (follow size r.ridx) (follow size r.widx)) now
        ∙ entries-push size r.buffer key r.widx k (follow size r.ridx) (ground arith) (omega arith)
            (ground (arith, e))
        ∙ ap (λ l. tail l ++ (key ∷ [])) (sym (contents-count size (suc k) r was)))

  pub push_room :
      (key : ℕ)
      → follow size r.widx ≢ r.ridx
      → contents size (after key r.widx r.ridx (follow size r.widx))
        ≡ queue_push size key (contents size r)
  push_room key ne =
      let (lo, hi) = v in
      let n = count size r in
      let few : n + 1 < size = elim (Bool-cases (follow size r.widx == r.ridx)) [
        | inl e ↦ absurd (ne (ground arith))
        | inr other ↦ ground (arith, other)
      ] in
      let some_left : (length (contents size r) + 1 == size) ≡ false =
        ground (arith, length-contents, few) in
      let now : count size (after key r.widx r.ridx (follow size r.widx)) ≡ suc n =
        ground (arith, few) in
      rw some_left (
        contents-count size (suc n) (after key r.widx r.ridx (follow size r.widx)) now
        ∙ entries-push size r.buffer key r.widx n r.ridx lo (omega (arith, few)) (ground arith))

  -- A write in front of the entries that are left.
  entries-putback :
      (key n i : ℕ)
      → i < size
      → n + 1 < size
      → entries size (written key i) (suc n) i ≡ key ∷ entries size r.buffer n (follow size i)
  entries-putback key n i h k =
      let at_i : written key i i ≡ key = ground arith in
      rw at_i (
        ap (λ l. key ∷ l)
          (entries-write size r.buffer key i n (follow size i) (ground arith) (omega arith)
            λ k' lt at. absurd (ground (arith, at))))

  -- The place before.
  abbrev pub back : ℕ
  back = if ltb r.ridx 1 then size - 1 else r.ridx - 1

  pub putback_full :
      (key : ℕ)
      → back ≡ r.widx
      → contents size (after key r.ridx r.ridx r.widx) ≡ queue_putback size key (contents size r)
  putback_full key e =
      let k = size - 2 in
      let (lo, hi) = v in
      let was : count size r ≡ suc k = ground (arith, e) in
      let full : (length (contents size r) + 1 == size) ≡ true =
        ground (arith, length-contents, was) in
      rw full (
        contents-count size (suc k) (after key r.ridx r.ridx r.widx) was
        ∙ entries-putback key k r.ridx lo (omega arith)
        ∙ ap (λ l. key ∷ tail l) (sym (contents-count size (suc k) r was)))

  pub putback_room :
      (key : ℕ)
      → back ≢ r.widx
      → contents size (after key back back r.widx) ≡ queue_putback size key (contents size r)
  putback_room key ne =
      let (lo, hi) = v in
      let n = count size r in
      let few : n + 1 < size = elim (Bool-cases (back == r.widx)) [
        | inl e ↦ absurd (ne (ground arith))
        | inr other ↦ ground (arith, other)
      ] in
      let some_left : (length (contents size r) + 1 == size) ≡ false =
        ground (arith, length-contents, few) in
      let now : count size (after key back back r.widx) ≡ suc n = ground (arith, few) in
      let there : follow size back ≡ r.ridx = ground arith in
      rw some_left (
        contents-count size (suc n) (after key back back r.widx) now
        ∙ entries-putback key n back (ground arith) (omega (arith, few))
        ∙ ap (λ i. key ∷ entries size r.buffer n i) there)
