-- ===== src/Mem/Range.antt =====
-- Ranges of pages in mem.c: what `alloc_ppage_range` and the frees do to the set of free pages.
use pcboot.Prelude.{
  ℕ, zero, suc, ◌+◌, ◌≤◌, ◌<◌, ◌≡◌, refl, true, false, ◌⊎◌, ◌==◌, if◌then◌else◌, arith, Bool-cases,
  inl, inr,
}
use pcboot.Mem.{Bitmap, Mem, used, is_free, mark_pages, range_is_free, alloc_ppage_range}
use pcboot.Mem.Bitmap.{in_range, is_free-mark_pages}

-- All `n` pages from `pg` on are free.
abbrev pub RangeFree : ℕ → ℕ → Bitmap → Type 0
RangeFree pg n bitmap = (q : ℕ) → pg ≤ q → q < pg + n → is_free bitmap q ≡ true

pub range_is_free-true :
    (n pg : ℕ) (bitmap : Bitmap) → range_is_free n pg bitmap ≡ true → RangeFree pg n bitmap
unfolding range_is_free
range_is_free-true zero pg bitmap h q lo hi = absurd (omega arith)
range_is_free-true (suc n) pg bitmap h q lo hi = elim (Bool-cases (q == pg)) [
  | inl e ↦ let e' : q ≡ pg = ground arith in rw e' (ground arith)
  | inr ne ↦ range_is_free-true n (pg + 1) bitmap (ground arith) q (ground arith) (omega arith)
]

pub range_is_free-false :
    (n pg : ℕ) (bitmap : Bitmap)
    → range_is_free n pg bitmap ≡ false
    → (q : ℕ) × (pg ≤ q) × (q < pg + n) × (is_free bitmap q ≡ false)
unfolding range_is_free
range_is_free-false zero pg bitmap h = cc
range_is_free-false (suc n) pg bitmap h = elim (Bool-cases (is_free bitmap pg)) [
  | inl yes_free ↦
      let (q, lo, hi, e) = range_is_free-false n (pg + 1) bitmap (ground arith) in
      (q, omega arith, omega arith, e)
  | inr not_free ↦ (pg, omega arith, omega arith, not_free)
]

-- `m'` is `m` with the `n` pages from `pg` on taken, all of which were free, and no other changed.
pub record Took (n pg : ℕ) (m m' : Mem) : Type 0 where
  pub were_free : RangeFree pg n m.bitmap
  pub now : (q : ℕ) → is_free m'.bitmap q ≡ (if in_range pg n q then false else is_free m.bitmap q)
  pub size : m'.bmsize ≡ m.bmsize

pub alloc_ppage_range-true :
    (start size : ℕ) (m : Mem)
    → range_is_free size start m.bitmap ≡ true
    → (m' : Mem) × (alloc_ppage_range start size m ≡ (true, m'))
      × Took size start m m'
      × (m'.last_alloc_idx ≡ m.last_alloc_idx)
      × (m'.enabled ≡ m.enabled)
unfolding alloc_ppage_range
alloc_ppage_range-true start size m h = (
  record m { bitmap = mark_pages size start used m.bitmap },
  rw h,
  record {
    were_free = range_is_free-true size start m.bitmap h;
    now = λ q. is_free-mark_pages size start q used m.bitmap;
    size = refl;
  },
  refl,
  refl,
)

pub alloc_ppage_range-false :
    (start size : ℕ) (m : Mem)
    → range_is_free size start m.bitmap ≡ false
    → alloc_ppage_range start size m ≡ (false, record m { enabled = false })
unfolding alloc_ppage_range
alloc_ppage_range-false start size m h = rw h

-- `alloc_ppage_range` takes exactly the pages of its range if all of them are free, and then leaves
-- the interrupt flag as it was. If one is not free it changes no page, but returns with the
-- interrupts off.
pub alloc_ppage_range_lem :
    (start size : ℕ) (m : Mem)
    → ((m' : Mem) × (alloc_ppage_range start size m ≡ (true, m'))
        × Took size start m m'
        × (m'.enabled ≡ m.enabled))
      ⊎ (((q : ℕ) × (start ≤ q) × (q < start + size) × (is_free m.bitmap q ≡ false))
          × (alloc_ppage_range start size m ≡ (false, record m { enabled = false })))
alloc_ppage_range_lem start size m = elim (Bool-cases (range_is_free size start m.bitmap)) [
  | inl all_free ↦
      let (m', e, took, last, on) = alloc_ppage_range-true start size m all_free in
      inl (m', e, took, on)
  | inr taken ↦
      inr
        (range_is_free-false size start m.bitmap taken, alloc_ppage_range-false start size m taken)
]
