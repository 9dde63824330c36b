-- ===== src/Mem/Init.antt =====
-- `init_mem` of mem.c where a range of the memory map holds the kernel's image.
use pcboot.Prelude.{ℕ, ◌+◌, ◌-◌, ◌/◌, ◌%◌, ◌^◌, ◌≤◌, ◌<◌, ◌≡◌, true, [], ◌∷◌, arith, bit_and}
use pcboot.Mem.{Bitmap, is_free, free, MemRange, range_extent, add_memory, add_ranges}
use pcboot.Mem.Bitmap.{is_free-mark_pages}

range_extent_fits :
    (r : MemRange)
    → bit_and r.size 0xfffffffc ≡ r.size
    → r.start + r.size < 2 ^ 32
    → range_extent r ≡ (r.start + r.size, r.size)
unfolding range_extent
range_extent_fits r whole no_wrap = rw whole (ground arith)

-- For a range that begins before the end of the kernel's image and ends behind it, `init_mem` frees
-- as many pages from the image's end on as the whole range has: also those from the range's end on,
-- as many as the image has in it.
pub add_ranges_past_end :
    (mem_start : ℕ) (r : MemRange) (bitmap : Bitmap) (end_pg q : ℕ)
    → bit_and r.size 0xfffffffc ≡ r.size
    → r.start + r.size < 2 ^ 32 - 4096
    → r.start < mem_start
    → mem_start ≤ r.start + r.size
    → mem_start / 4096 ≤ q
    → q < mem_start / 4096 + (r.size + 4095) / 4096
    → is_free (add_ranges mem_start (r ∷ []) (bitmap, end_pg)).0 q ≡ true
unfolding add_ranges add_memory
add_ranges_past_end mem_start r bitmap end_pg q whole no_wrap before reaches lo hi = ground (
  arith,
  is_free-mark_pages ((r.size + 4095) % 2 ^ 32 / 2 ^ 12) (mem_start / 2 ^ 12) q free bitmap,
  range_extent_fits r whole (omega arith),
)
