-- ===== src/Mem/Keep.antt =====
-- The calls of mem.c together: taking and freeing, the state between calls, and `init_mem`.
use mathlib.Core.Path.{subst}
use mathlib.Core.Option.{some-injective}
use pcboot.Prelude.{
  ℕ, zero, suc, ◌+◌, ◌-◌, ◌*◌, ◌/◌, ◌%◌, ◌^◌, ◌≤◌, ◌<◌, ◌≡◌, ◌∙◌, Bool, false, ◌||◌, List, some,
  ltb, ◌==◌, arith, Bool-cases, inl, inr, length,
}
use pcboot.Mem.{
  Bitmap, Mem, Area, free, used, is_free, mark_pages, range_is_free, page, alloc_ppages,
  alloc_ppage_range, free_ppages, MemRange, init_mem,
}
use pcboot.Mem.Bitmap.{in_range, is_free-mark_page, is_free-mark_pages}
use pcboot.Mem.Range.{Took, alloc_ppage_range-true, alloc_ppage_range-false}
use pcboot.Mem.Free.{freed, free_ppages-Freed, free_ppage_used, free_ppage_free}
use pcboot.Mem.Valid.{IsValid}
use pcboot.Mem.Alloc.{alloc_ppages-Ensures}

-- What `alloc_ppages` gave can be freed: `free_ppages` does not panic, and afterwards exactly those
-- pages are free that were free before the two calls. The interrupt flag is as it was.
pub free_ppages-alloc_ppages :
    (count pg : ℕ) (area : Area) (m m' : Mem)
    → 0 < count
    → IsValid m
    → alloc_ppages count area m ≡ (page pg, m')
    → (m'' : Mem) × (free_ppages pg count m' ≡ some m'')
      × ((q : ℕ) → is_free m''.bitmap q ≡ is_free m.bitmap q)
      × (m''.enabled ≡ m.enabled)
free_ppages-alloc_ppages count pg area m m' pos v e =
    let (found, on, valid) = alloc_ppages-Ensures count area m pos v in
    let took : Took count pg m m' = (rw e at found).0 in
    let (m'', done, f) = free_ppages-Freed count pg m' (λ q lo hi. ground (arith, took.now q)) in
    (
      m'',
      done,
      λ q. elim (Bool-cases (in_range pg count q)) [
        | inl here ↦ ground (arith, f.now q, took.were_free q (ground arith) (ground arith))
        | inr other ↦ ground (arith, f.now q, took.now q)
      ],
      f.flag ∙ (rw e at on),
    )

alloc_ppage_range-IsValid :
    (start size : ℕ) (m : Mem) → IsValid m → IsValid (alloc_ppage_range start size m).1
alloc_ppage_range-IsValid start size m v = elim (Bool-cases (range_is_free size start m.bitmap)) [
  | inl all_free ↦
      let (m', e, took, last, on) = alloc_ppage_range-true start size m all_free in
      rw e (record {
        hint = λ q h. ground (arith, took.now q, v.hint q (omega (arith, last)));
        within = rw (last, took.size) v.within;
        whole = rw (took.size) v.whole;
        some_words = rw (took.size) v.some_words;
      })
  | inr taken ↦
      rw (alloc_ppage_range-false start size m taken)
        (record { hint = v.hint; within = v.within; whole = v.whole; some_words = v.some_words })
]

freed-IsValid : (pg : ℕ) (m : Mem) → IsValid m → IsValid (freed pg m)
freed-IsValid pg m v = record {
  hint = λ q h. ground (arith, is_free-mark_page pg q free m.bitmap, v.hint q (ground arith));
  within = ground (arith, v.within);
  whole = v.whole;
  some_words = v.some_words;
}

free_ppages-IsValid :
    (n pg : ℕ) (m m' : Mem) → IsValid m → free_ppages pg n m ≡ some m' → IsValid m'
unfolding free_ppages
free_ppages-IsValid zero pg m m' v e = subst IsValid (some-injective _ _ e) v
free_ppages-IsValid (suc n) pg m m' v e = elim (Bool-cases (is_free m.bitmap pg)) [
  | inl now ↦ cc (free_ppage_free pg m now)
  | inr not_now ↦
      free_ppages-IsValid n (pg + 1) (freed pg m) m' (freed-IsValid pg m v)
        (rw (free_ppage_used pg m not_now, free_ppages) at e)
]

-- A call of the allocator that returns.
pub data Step (m : Mem) : Mem → Type 0 where
  take : (count : ℕ) (area : Area) → 0 < count → Step m (alloc_ppages count area m).1
  take_range : (start size : ℕ) → Step m (alloc_ppage_range start size m).1
  give_back : {m' : Mem} (pg n : ℕ) → free_ppages pg n m ≡ some m' → Step m m'

pub data Reach (m : Mem) : Mem → Type 0 where
  here : Reach m m
  next : {m₁ m₂ : Mem} → Reach m m₁ → Step m₁ m₂ → Reach m m₂

Step-IsValid : {m m' : Mem} → Step m m' → IsValid m → IsValid m'
Step-IsValid {m} (take count area pos) v = (alloc_ppages-Ensures count area m pos v).2
Step-IsValid {m} (take_range start size) v = alloc_ppage_range-IsValid start size m v
Step-IsValid {m} (give_back {m'} pg n e) v = free_ppages-IsValid n pg m m' v e

-- No sequence of calls that return breaks the state: no page before the word of `last_alloc_idx` is
-- ever free, and the hint stays inside the bitmap.
pub Reach-IsValid : {m m' : Mem} → IsValid m → Reach m m' → IsValid m'
Reach-IsValid v here = v
Reach-IsValid v (next r st) = Step-IsValid st (Reach-IsValid v r)

-- The state that `init_mem` makes of the bitmap and the last page of the memory map.
abbrev init_state : ℕ → Bitmap → ℕ → Bool → Mem
init_state mem_start bitmap end_pg on = record {
  bitmap =
      mark_pages ((mem_start + end_pg / 32 * 4 + (2 ^ 32 - 1)) % 2 ^ 32 / 2 ^ 12 + 1) 0 used bitmap;
  bmsize = end_pg / 32 * 4;
  last_alloc_idx = 0;
  enabled = on;
}

abbrev Protects : ℕ → Mem → Type 0
Protects mem_start m =
    0 < m.bmsize
    → mem_start + m.bmsize < 2 ^ 32
    → IsValid m × ((q : ℕ) → q ≤ (mem_start + m.bmsize - 1) / 4096 → is_free m.bitmap q ≡ false)

init_state-Protects :
    (mem_start : ℕ) (bitmap : Bitmap) (end_pg : ℕ) (on : Bool)
    → Protects mem_start (init_state mem_start bitmap end_pg on)
init_state-Protects mem_start bitmap end_pg on some_words fits = (
  record {
    hint = λ q h. absurd (omega arith);
    within = omega arith;
    whole = omega arith;
    some_words = some_words;
  },
  λ q h. ground (
    arith,
    is_free-mark_pages ((mem_start + end_pg / 32 * 4 + (2 ^ 32 - 1)) % 2 ^ 32 / 2 ^ 12 + 1) 0 q used
        bitmap,
  ),
)

-- What `init_mem` leaves is valid, if the memory map reaches a whole word of pages and the end of the
-- bitmap does not wrap, and no page up to the last one of the bitmap is free: neither the kernel's image nor the bitmap can be allocated.
pub init_mem-IsValid :
    (mem_start : ℕ) (map : List MemRange) (m m' : Mem)
    → init_mem mem_start map m ≡ some m'
    → 0 < m'.bmsize
    → mem_start + m'.bmsize < 2 ^ 32
    → IsValid m' × ((q : ℕ) → q ≤ (mem_start + m'.bmsize - 1) / 4096 → is_free m'.bitmap q ≡ false)
unfolding init_mem
init_mem-IsValid mem_start map m m' e = elim (Bool-cases (length map == 0 || ltb 16 (length map))) [
  | inl bad ↦ cc (rw bad at e)
  | inr good ↦
      subst (Protects mem_start) (some-injective _ _ (rw good at e))
        (init_state-Protects mem_start _ _ m.enabled)
]
