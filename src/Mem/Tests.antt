-- ===== src/Mem/Tests.antt =====
-- Runs of mem.c on small bitmaps, and the theorems there.
use native.Mathlib.Decide.{ℕ_discrete}
use pcboot.Prelude.{
  ℕ, ◌≤◌, ◌<◌, ◌≡◌, refl, true, false, [], ◌∷◌, some, ltb, ◌==◌, if◌then◌else◌, arith,
}
use pcboot.Mem.{
  Mem, Bitmap, heap, stack, is_free, used, alloc_ppage_range, free_ppages, page, no_page,
  alloc_ppages, MemRange, add_ranges, init_mem, search_area, visit_word, range_is_free, mark_pages,
}
use pcboot.Mem.Bitmap.{full_word}
use pcboot.Mem.Valid.{IsValid, Ensures}
use pcboot.Mem.Alloc.{alloc_ppages-Ensures}
use pcboot.Mem.Keep.{
  free_ppages-alloc_ppages, here, next, take, take_range, Reach-IsValid, init_mem-IsValid,
}

-- Of 64 pages the pages 36 to 39 are free.
abbrev four_free : Mem
four_free = record {
  bitmap = λ idx. if idx == 1 then 0xffffff0f else 0xffffffff;
  bmsize = 8;
  last_alloc_idx = 1;
  enabled = true;
}

four_free-IsValid : IsValid four_free
four_free-IsValid = record {
  hint = λ q h. full_word four_free.bitmap q (ground arith);
  within = omega arith;
  whole = omega arith;
  some_words = omega arith;
}

takes_two : (alloc_ppages 2 heap four_free).0 ≡ page 36
unfolding alloc_ppages search_area visit_word is_free alloc_ppage_range range_is_free
takes_two = refl

takes_from_top : (alloc_ppages 1 stack four_free).0 ≡ page 39
unfolding alloc_ppages search_area visit_word is_free alloc_ppage_range range_is_free
takes_from_top = refl

no_five : (alloc_ppages 5 heap four_free).0 ≡ no_page
unfolding alloc_ppages search_area visit_word is_free alloc_ppage_range range_is_free
no_five = refl

alloc_ppages-Ensures_example :
    let (out, m') = alloc_ppages 2 heap four_free in
    Ensures 2 four_free out m' × (m'.enabled ≡ true) × IsValid m'
alloc_ppages-Ensures_example = alloc_ppages-Ensures 2 heap four_free (omega arith) four_free-IsValid

took_two : alloc_ppages 2 heap four_free ≡ (page 36, (alloc_ppages 2 heap four_free).1)
unfolding alloc_ppages search_area visit_word is_free alloc_ppage_range range_is_free
took_two = refl

free_ppages-alloc_ppages_example :
    (m'' : Mem) × (free_ppages 36 2 (alloc_ppages 2 heap four_free).1 ≡ some m'')
    × ((q : ℕ) → is_free m''.bitmap q ≡ is_free four_free.bitmap q)
    × (m''.enabled ≡ true)
free_ppages-alloc_ppages_example =
    free_ppages-alloc_ppages 2 36 heap four_free (alloc_ppages 2 heap four_free).1 (omega arith)
      four_free-IsValid took_two

Reach-IsValid_example : IsValid (alloc_ppage_range 38 1 (alloc_ppages 2 heap four_free).1).1
Reach-IsValid_example =
    Reach-IsValid four_free-IsValid (next (next here (take 2 heap (omega arith))) (take_range 38 1))

full_pages : (q : ℕ) → 32 ≤ q → q < 34 → is_free four_free.bitmap q ≡ false
unfolding is_free
full_pages q lo hi = elim (ℕ_discrete q 32) [
  | yes e ↦ rw e
  | no ne ↦ let e : q ≡ 33 = omega arith in rw e
]

-- Two megabytes from address 0, the kernel's image ending at 0x101000.
abbrev low_range : MemRange
low_range = record { start = 0; size = 0x200000 }

-- Four megabytes from the first, and a kernel's image of a page.
abbrev high_range : MemRange
high_range = record { start = 0x100000; size = 0x400000 }

abbrev blank : Bitmap
blank idx = if ltb idx 32768 then 0xffffffff else four_free.bitmap idx

abbrev started : Mem
started = record {
  bitmap = mark_pages 258 0 used (add_ranges 0x101000 (high_range ∷ []) (blank, 0)).0;
  bmsize = 160;
  last_alloc_idx = 0;
  enabled = true;
}

starts : init_mem 0x101000 (high_range ∷ []) four_free ≡ some started
unfolding init_mem
starts = refl

init_mem-IsValid_example : IsValid started × ((q : ℕ) → q ≤ 257 → is_free started.bitmap q ≡ false)
init_mem-IsValid_example =
    init_mem-IsValid 0x101000 (high_range ∷ []) four_free started starts (omega arith) (omega arith)
