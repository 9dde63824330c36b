-- ===== src/Mem/Free.antt =====
-- What the frees of mem.c do to the set of free pages.
use pcboot.Prelude.{
  ℕ, zero, suc, ◌+◌, ◌/◌, ◌≤◌, ◌<◌, ◌≡◌, ◌≢◌, refl, ap, true, false, none, some, ltb, if◌then◌else◌,
  arith, Bool-cases, inl, inr,
}
use pcboot.Mem.{Mem, free, is_free, mark_page, free_ppage, free_ppages}
use pcboot.Mem.Bitmap.{in_range, is_free-mark_page}

-- `m'` is `m` with the `n` pages from `pg` on free again, and no other changed.
pub record Freed (n pg : ℕ) (m m' : Mem) : Type 0 where
  pub now : (q : ℕ) → is_free m'.bitmap q ≡ (if in_range pg n q then true else is_free m.bitmap q)
  pub size : m'.bmsize ≡ m.bmsize
  pub flag : m'.enabled ≡ m.enabled

-- The state that `free_ppage` leaves where the page was in use.
abbrev pub freed : ℕ → Mem → Mem
freed pg m = record m {
  bitmap = mark_page pg free m.bitmap;
  last_alloc_idx = if ltb (pg / 32) m.last_alloc_idx then pg / 32 else m.last_alloc_idx;
}

pub free_ppage_used :
    (pg : ℕ) (m : Mem) → is_free m.bitmap pg ≡ false → free_ppage pg m ≡ some (freed pg m)
unfolding free_ppage
free_ppage_used pg m h = rw h

pub free_ppage_free : (pg : ℕ) (m : Mem) → is_free m.bitmap pg ≡ true → free_ppage pg m ≡ none
unfolding free_ppage
free_ppage_free pg m h = rw h

module _ (n pg : ℕ) (m : Mem) where
  still_used :
      ((q : ℕ) → pg ≤ q → q < pg + suc n → is_free m.bitmap q ≡ false)
      → (q : ℕ) → pg + 1 ≤ q
      → q < pg + 1 + n
      → is_free (freed pg m).bitmap q ≡ false
  still_used h q lo hi =
      ground (arith, is_free-mark_page pg q free m.bitmap, h q (omega arith) (omega arith))

  Freed-suc : {m' : Mem} → Freed n (pg + 1) (freed pg m) m' → Freed (suc n) pg m m'
  Freed-suc f = record {
    now = λ q. ground (arith, f.now q, is_free-mark_page pg q free m.bitmap);
    size = f.size;
    flag = f.flag;
  }

-- Freeing a range of pages that are all in use does not panic, and makes exactly these free. The
-- interrupt flag is as it was.
pub free_ppages-Freed :
    (n pg : ℕ) (m : Mem)
    → ((q : ℕ) → pg ≤ q → q < pg + n → is_free m.bitmap q ≡ false)
    → (m' : Mem) × (free_ppages pg n m ≡ some m') × Freed n pg m m'
unfolding free_ppages
free_ppages-Freed zero pg m h =
    (m, refl, record { now = λ q. ground arith; size = refl; flag = refl })
free_ppages-Freed (suc n) pg m h =
    let (m', e, f) = free_ppages-Freed n (pg + 1) (freed pg m) (still_used n pg m h) in
    (
      m',
      rw (free_ppage_used pg m (h pg (omega arith) (omega arith)), free_ppages) e,
      Freed-suc n pg m f,
    )

-- A range that has a free page in it is a panic: a double free is caught.
pub free_ppages_panic :
    (n pg q : ℕ) (m : Mem)
    → pg ≤ q
    → q < pg + n
    → is_free m.bitmap q ≡ true
    → free_ppages pg n m ≡ none
unfolding free_ppages
free_ppages_panic zero pg q m lo hi h = absurd (omega arith)
free_ppages_panic (suc n) pg q m lo hi h = elim (Bool-cases (is_free m.bitmap pg)) [
  | inl now ↦ rw (free_ppage_free pg m now, free_ppages)
  | inr not_now ↦
      let other : q ≢ pg = λ e. cc (ap (is_free m.bitmap) e) in
      rw (free_ppage_used pg m not_now, free_ppages)
        (free_ppages_panic n (pg + 1) q (freed pg m) (omega arith) (omega arith)
          (ground (arith, is_free-mark_page pg q free m.bitmap)))
]
