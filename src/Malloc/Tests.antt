-- ===== src/Malloc/Tests.antt =====
-- Runs of malloc.c, and the theorems there.
use pcboot.Prelude.{
  ℕ, ◌+◌, ◌*◌, ◌≤◌, ◌<◌, ◌≡◌, refl, true, inl, inr, [], ◌∷◌, none, some, ltb, ◌==◌, if◌then◌else◌,
  arith, Bool-cases,
}
use pcboot.Mem.{
  heap, alloc_ppages, search_area, visit_word, is_free, alloc_ppage_range, range_is_free,
}
use pcboot.Mem.Bitmap.{full_word}
use pcboot.Malloc.{
  Heap, magic_free, magic_used, total_size, bytes_to_pages, take_block, free, malloc, realloc, put,
  used_desc,
}
use pcboot.Malloc.Chain.{Agree, bytes}
use pcboot.Malloc.Valid.{IsValid}
use pcboot.Malloc.Safe.{here, free_lem}
use pcboot.Malloc.Give.{Given}
use pcboot.Malloc.Answer.{Answer, malloc_lem}
use pcboot.Malloc.Resize.{Grown, realloc_lem, realloc-Given}
use pcboot.Malloc.Runs.{gives, start, next, Runs-IsValid}
use pcboot.Malloc.Sliver.{empty_pool, malloc_past_end}

-- Of the pages the ones from 36 to 39 are free, and page 1 has one free block of 512 bytes, and one
-- in use of 64 bytes.
abbrev small : Heap
small = record {
  desc = λ x.
      if x == 0x1000
      then record { size = 512; magic = magic_free }
      else if x == 0x1800
      then record { size = 64; magic = magic_used }
      else record { size = 0; magic = 0 };
  pool = 0x1000 ∷ [];
  mem = record {
    bitmap = λ idx. if idx == 1 then 0xffffff0f else 0xffffffff;
    bmsize = 8;
    last_alloc_idx = 1;
    enabled = true;
  };
}

low_page : (q : ℕ) → is_free small.mem.bitmap q ≡ true → 32 ≤ q
low_page q h = elim (Bool-cases (ltb q 32)) [
  | inl low ↦ absurd (ground (arith, full_word small.mem.bitmap q (ground arith)))
  | inr high ↦ ground arith
]

small-IsValid : IsValid small (0x1800 ∷ [])
small-IsValid = record {
  chain = (omega arith, refl, omega arith, tt);
  in_use = (refl, omega arith, (inl (omega arith), tt), tt, tt);
  pages = λ q h. ((inl (omega (arith, low_page q h)), tt), (inl (omega (arith, low_page q h)), tt));
  mem_valid = record {
    hint = λ q h. full_word small.mem.bitmap q (ground arith);
    within = omega arith;
    whole = omega arith;
    some_words = omega arith;
  };
}

-- 100 bytes and a descriptor come from the upper end of the free block.
abbrev hundred : Heap
hundred = record small {
  desc =
      put (put small.desc 0x1000 (record { size = 400; magic = magic_free })) 0x1190
        (used_desc 112);
}

gives_hundred : malloc 100 small ≡ some (0x119c, hundred)
unfolding malloc total_size take_block
gives_hundred = refl

twice_freed : free 0x119c small ≡ none
unfolding free
twice_freed = refl

malloc_lem_example : (100 + 12 ≤ 112) × Answer small (0x1800 ∷ []) 112 (malloc 100 small)
unfolding total_size bytes_to_pages
malloc_lem_example =
    malloc_lem 100 small (0x1800 ∷ []) small-IsValid (omega arith) (inr (omega arith))

free_lem_example :
    (h' : Heap) × (free 0x180c small ≡ some h')
    × IsValid h' []
    × (bytes h'.desc h'.pool ≡ 576)
    × Agree small.desc h'.desc []
    × (h'.mem ≡ small.mem)
free_lem_example = free_lem small [] (0x1800 ∷ []) 0x1800 small-IsValid here

realloc_lem_example : Grown small [] (0x1800 ∷ []) 0x1800 200 (realloc 0x180c 200 small)
unfolding total_size bytes_to_pages
realloc_lem_example =
    realloc_lem small [] (0x1800 ∷ []) 0x1800 200 small-IsValid here (omega arith) (omega arith)
      (inr (omega arith))

given : Given small (0x1800 ∷ []) 112 0x119c hundred
given = record {
  block = 0x1190;
  at_block = refl;
  valid = record {
    chain = (omega arith, refl, omega arith, tt);
    in_use = (
      refl,
      omega arith,
      (inl (omega arith), tt),
      (inr (omega arith), tt),
      (refl, omega arith, (inl (omega arith), tt), tt, tt),
    );
    pages = λ q h. (
      (inl (omega (arith, low_page q h)), tt),
      (inl (omega (arith, low_page q h)), (inl (omega (arith, low_page q h)), tt)),
    );
    mem_valid = small-IsValid.mem_valid;
  };
  size = refl;
  kept = (refl, tt);
}

realloc-Given_run :
    (realloc 0x119c 110 hundred ≡ some (0x119c, 0, hundred)) × (0x1190 + 112 < 0x119c + 110)
unfolding given realloc
realloc-Given_run =
    realloc-Given small hundred (0x1800 ∷ []) 112 0x119c 110 given (omega arith) (omega arith)

Runs-IsValid_example : IsValid hundred (0x1190 ∷ 0x1800 ∷ [])
unfolding total_size bytes_to_pages
Runs-IsValid_example =
    Runs-IsValid (next start (gives 100 (omega arith, inr (omega arith)) gives_hundred))
      small-IsValid

-- 4076 bytes and a descriptor leave 8 of a page, which is the page 36.
malloc_past_end_example :
    (h' : Heap) × (rest : ℕ) × (malloc 4076 (empty_pool small.desc small.mem) ≡ some (0x2400c, h'))
    × (h'.pool ≡ rest ∷ [])
    × (rest < 37 * 4096)
    × (37 * 4096 < rest + 12)
unfolding total_size bytes_to_pages alloc_ppages search_area visit_word is_free alloc_ppage_range
    range_is_free
malloc_past_end_example =
    malloc_past_end 4076 36 small.desc small.mem (alloc_ppages 1 heap small.mem).1 (omega arith)
      (omega arith) refl
