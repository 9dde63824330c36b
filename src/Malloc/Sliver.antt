-- ===== src/Malloc/Sliver.antt =====
-- The rest of fresh pages in `malloc` of malloc.c, where it is too small.
use pcboot.Prelude.{
  ℕ, ◌+◌, ◌-◌, ◌*◌, ◌%◌, ◌^◌, ◌<◌, ◌≡◌, refl, true, false, [], ◌∷◌, Option, none, some, ap, ◌∙◌,
  ltb, ◌==◌, arith,
}
use pcboot.Mem.{Mem, heap, Outcome, page, no_page, out_of_fuel, alloc_ppages}
use pcboot.Malloc.{
  Store, Heap, magic_free, desc_size, desc_ptr, ptr_desc, put, used_desc, add_free, free,
  fresh_block, total_size, bytes_to_pages, take_block, malloc,
}

-- In `fresh_block`, where fresh pages have a rest that is smaller than a descriptor, and the pool is empty, the rest
-- becomes the one block of the pool, and its descriptor ends past the last of the pages.
fresh_block_past_end :
    (total pg npages : ℕ) (h : Heap)
    → h.pool ≡ []
    → total < npages * 4096
    → npages * 4096 < total + desc_size
    → (h' : Heap) × (rest : ℕ) × (fresh_block total pg npages h ≡ some (desc_ptr (pg * 2 ^ 12), h'))
      × (h'.pool ≡ rest ∷ [])
      × (rest < (pg + npages) * 4096)
      × ((pg + npages) * 4096 < rest + desc_size)
unfolding fresh_block free add_free
fresh_block_past_end total pg npages h empty some_left small =
    let left : ltb 0 (npages * 4096 - total) ≡ true = ground arith in
    let not_null : (desc_ptr (pg * 2 ^ 12 + total) == 0) ≡ false = ground arith in
    let e : ptr_desc (desc_ptr (pg * 2 ^ 12 + total)) ≡ pg * 2 ^ 12 + total = omega arith in
    let same : (pg * 2 ^ 12 + total == pg * 2 ^ 12 + total) ≡ true = ground arith in
    let rest = pg * 2 ^ 12 + total in
    let d =
      put (put h.desc (pg * 2 ^ 12) (used_desc total)) rest (used_desc (npages * 4096 - total)) in
    (
      record h { desc = put d rest (record (d rest) { magic = magic_free }); pool = rest ∷ [] },
      rest,
      rw (left, not_null, e, same, empty) refl,
      refl,
      omega arith,
      omega arith,
    )

-- The pages that `malloc` takes for its bytes are as many as hold them, and the rest is that of the last one.
rest_of_pages :
    (total : ℕ)
    → total + 0x1000 < 2 ^ 32
    → 4084 < total % 4096
    → (total < bytes_to_pages total * 4096) × (bytes_to_pages total * 4096 < total + desc_size)
unfolding bytes_to_pages
rest_of_pages total small sliver = omega arith

-- The heap with an empty pool
abbrev pub empty_pool : Store → Mem → Heap
empty_pool desc mem = record { desc = desc; pool = []; mem = mem }

malloc_fresh :
    (sz pg : ℕ) (d : Store) (before m : Mem)
    → alloc_ppages (bytes_to_pages (total_size sz)) heap before ≡ (page pg, m)
    → malloc sz (empty_pool d before)
      ≡ fresh_block (total_size sz) pg (bytes_to_pages (total_size sz)) (empty_pool d m)
unfolding malloc take_block
malloc_fresh sz pg d before m pages =
    let after : Outcome × Mem → Option (ℕ × Heap) = λ r. elim r.0 [
      | page pg ↦ fresh_block (total_size sz) pg (bytes_to_pages (total_size sz)) (empty_pool d r.1)
      | no_page ↦ some (0, empty_pool d r.1)
      | out_of_fuel ↦ none
    ] in
    ap after pages

-- `malloc` on an empty pool, of a size that with its descriptor leaves 1 to 11 bytes of its last page and does
-- not wrap: if alloc_ppages gives pages from `pg` on, the pool is the rest, with a descriptor that begins in
-- these pages and ends behind them.
pub malloc_past_end :
    (sz pg : ℕ) (d : Store) (before m : Mem)
    → total_size sz + 0x1000 < 2 ^ 32
    → 4084 < total_size sz % 4096
    → alloc_ppages (bytes_to_pages (total_size sz)) heap before ≡ (page pg, m)
    → (h' : Heap) × (rest : ℕ) × (malloc sz (empty_pool d before) ≡ some (desc_ptr (pg * 4096), h'))
      × (h'.pool ≡ rest ∷ [])
      × (rest < (pg + bytes_to_pages (total_size sz)) * 4096)
      × ((pg + bytes_to_pages (total_size sz)) * 4096 < rest + desc_size)
malloc_past_end sz pg d before m small sliver pages =
    let total = total_size sz in
    let (more, few) = rest_of_pages total small sliver in
    let (h', rest, e, at_pool, inside, past) =
      fresh_block_past_end total pg (bytes_to_pages total) (empty_pool d m) refl more few in
    (h', rest, malloc_fresh sz pg d before m pages ∙ e, at_pool, inside, past)
