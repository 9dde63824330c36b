-- ===== src/Mem/Valid.antt =====
-- What holds of the state of mem.c between two calls.
use pcboot.Prelude.{ℕ, zero, suc, ◌*◌, ◌/◌, ◌%◌, ◌≤◌, ◌<◌, ◌≡◌, false}
use pcboot.Mem.{Bitmap, Mem, is_free, range_is_free, Outcome, page, no_page, out_of_fuel}
use pcboot.Mem.Range.{Took}

-- No page before the word of `last_alloc_idx` is free.
abbrev pub HintOk : Mem → Type 0
HintOk m = (q : ℕ) → q < m.last_alloc_idx * 32 → is_free m.bitmap q ≡ false

pub record IsValid (m : Mem) : Type 0 where
  pub hint : HintOk m
  pub within : m.last_alloc_idx ≤ m.bmsize / 4
  pub whole : m.bmsize % 4 ≡ 0
  pub some_words : 0 < m.bmsize

-- The range of `count` pages from `q` on is not free.
abbrev pub Miss : ℕ → Bitmap → ℕ → Type 0
Miss count bitmap q = range_is_free count q bitmap ≡ false

-- What a search for `count` pages in `m` has found when it ends at `m'`.
abbrev pub Ensures : ℕ → Mem → Outcome → Mem → Type 0
Ensures count m (page pg) m' = Took count pg m m' × (pg < m.bmsize * 8)
Ensures count m no_page m' =
    (m'.bitmap ≡ m.bitmap)
    × (m'.bmsize ≡ m.bmsize)
    × ((q : ℕ) → q < m.bmsize * 8 → Miss count m.bitmap q)
Ensures count m out_of_fuel m' = ⊥

pub Miss-taken :
    (count q : ℕ) (bitmap : Bitmap) → 0 < count → is_free bitmap q ≡ false → Miss count bitmap q
unfolding range_is_free
Miss-taken zero q bitmap pos h = elim pos [ ]
Miss-taken (suc count) q bitmap pos h = rw h
