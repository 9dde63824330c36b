-- ===== src/Malloc/Answer.antt =====
-- `malloc` of malloc.c as a whole.
use pcboot.Prelude.{
  ℕ, ◌+◌, ◌-◌, ◌*◌, ◌^◌, ◌/◌, ◌%◌, ◌≤◌, ◌<◌, ◌≡◌, refl, sym, ap, ◌∙◌, ◌⊎◌, inl, inr, List, Option,
  none, some, arith, bit_and,
}
use pcboot.Prelude.Bits.{bit_and-mask_four}
use pcboot.Mem.{Mem, Outcome, heap, page, no_page, out_of_fuel, is_free, alloc_ppages}
use pcboot.Mem.Valid
use pcboot.Mem.Alloc.{alloc_ppages-Ensures}
use pcboot.Malloc.{
  Store, Heap, put, desc_size, used_desc, desc_ptr, total_size, bytes_to_pages, take_block,
  fresh_block, malloc,
}
use pcboot.Malloc.TakeBlock.{Taken, AllSmall, take_block-Taken}
use pcboot.Malloc.Valid.{IsValid}
use pcboot.Malloc.Fresh.{alloc_ppages-Fresh}
use pcboot.Malloc.Give.{Given, Gives, NoSliver, take-Given, fresh_block-Gives}

total_size_lem : (sz : ℕ) → sz + 16 < 2 ^ 32 → total_size sz ≡ (sz + 15) / 4 * 4
unfolding total_size
total_size_lem sz h =
    let e : ((sz + 12) % 2 ^ 32 + 3) % 2 ^ 32 ≡ sz + 15 = omega arith in
    ap (λ x. bit_and x 0xfffffffc) e ∙ bit_and-mask_four (sz + 15) (omega arith)

-- A refusal: no block of the pool has room, no range of pages is free, and nothing is changed.
pub record Refused (h : Heap) (total : ℕ) (h' : Heap) : Type 0 where
  pub small : AllSmall total h.desc h.pool
  pub no_pages : (q : ℕ) → q < h.mem.bmsize * 8 → Valid.Miss (bytes_to_pages total) h.mem.bitmap q
  pub same_desc : h'.desc ≡ h.desc
  pub same_pool : h'.pool ≡ h.pool
  pub same_bitmap : h'.mem.bitmap ≡ h.mem.bitmap

abbrev pub Answer : Heap → List ℕ → ℕ → Option (ℕ × Heap) → Type 0
Answer h us total none = ⊥
Answer h us total (some (p, h')) =
    Given h us total p h' ⊎ ((p ≡ 0) × Refused h total h' × IsValid h' us)

Gives-Answer :
    (h : Heap) (us : List ℕ) (total : ℕ) (o : Option (ℕ × Heap))
    → Gives h us total o
    → Answer h us total o
Gives-Answer h us total none g = g
Gives-Answer h us total (some (p, h')) g = inl g

module _ (h : Heap) (us : List ℕ) (v : IsValid h us) (total : ℕ) (big : desc_size ≤ total) where
  from_pool :
      (o : Option (ℕ × List ℕ × Store)) (fresh : Option (ℕ × Heap))
      → Taken total h.desc 0 h.pool o
      → (AllSmall total h.desc h.pool → Answer h us total fresh)
      → Answer h us total (elim o [
        | some (b, pool, d) ↦
            some (desc_ptr b, record h { desc = put d b (used_desc total); pool = pool })
        | none ↦ fresh
      ])
  from_pool none fresh t otherwise = otherwise t
  from_pool (some (b, p', d')) fresh t otherwise = inl (take-Given h us v total b p' d' big t)

  from_pages :
      (n : ℕ)
      → n ≡ bytes_to_pages total
      → 0 < n
      → total ≤ n * 4096
      → NoSliver (n * 4096 - total)
      → AllSmall total h.desc h.pool
      → (r : Outcome × Mem) → alloc_ppages n heap h.mem ≡ r
      → Answer h us total (elim (r.0) [
        | page pg ↦ fresh_block total pg n (record h { mem = r.1 })
        | no_page ↦ some (0, record h { mem = r.1 })
        | out_of_fuel ↦ none
      ])
  from_pages n is_n pos enough sliver small (page pg, m') e = Gives-Answer h us total _ (
      fresh_block-Gives h us total n pg m' big enough (alloc_ppages-Fresh h us n pg m' pos v e)
        sliver)
  from_pages n is_n pos enough sliver small (no_page, m') e =
      let (found, on, valid) = alloc_ppages-Ensures n heap h.mem pos v.mem_valid in
      let (same, size, miss) = rw e at found in
      inr (
        refl,
        record {
          small = small;
          no_pages = rw (sym is_n) miss;
          same_desc = refl;
          same_pool = refl;
          same_bitmap = same;
        },
        record {
          chain = v.chain;
          in_use = v.in_use;
          pages = λ q clear. v.pages q (ap (λ bitmap. is_free bitmap q) (sym same) ∙ clear);
          mem_valid = rw e at valid;
        },
      )
  from_pages n is_n pos enough sliver small (out_of_fuel, m') e =
      let (found, on, valid) = alloc_ppages-Ensures n heap h.mem pos v.mem_valid in
      absurd (rw e at found)

-- `malloc` of a size that is not near 2 ^ 32 never panics, unless the rest of fresh pages would be
-- too small for its descriptor. It gives a block of at least 12 bytes more than asked for, which
-- meets no other block, and the heap stays right. Or it gives NULL: then no block of the pool has
-- room, no range of pages is free, and nothing is changed.
pub malloc_lem :
    (sz : ℕ) (h : Heap) (us : List ℕ)
    → IsValid h us
    → sz + 0x2000 < 2 ^ 32
    → NoSliver (bytes_to_pages (total_size sz) * 4096 - total_size sz)
    → (sz + desc_size ≤ total_size sz) × Answer h us (total_size sz) (malloc sz h)
unfolding malloc bytes_to_pages
malloc_lem sz h us v fits sliver =
    let total = total_size sz in
    let e : total ≡ (sz + 15) / 4 * 4 = total_size_lem sz (omega arith) in
    let n = bytes_to_pages total in
    (
      omega arith,
      from_pool h us v total (omega arith) (take_block total h.pool h.desc) _
          (take_block-Taken total (omega arith) (omega arith) h.desc 0 h.pool v.chain)
          λ small.
            from_pages h us v total (omega arith) n refl (omega arith) (omega arith) sliver small _
              refl,
    )
