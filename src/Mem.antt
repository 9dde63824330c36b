-- ===== src/Mem.antt =====
-- src/mem.c and src/mem.h: the allocator of physical pages.
-- `bitmap` is the memory from `_mem_start` on, as 32-bit words by their index, so that an index past
-- the bitmap reads and writes whatever stands there. A page and an index are the `int`s of the
-- source where those are not negative. `enabled` is the interrupt flag of the processor, and `none`
-- a panic of the kernel, unless something else is said.
pub mod Bitmap
pub mod Range
pub mod Valid
pub mod Alloc
pub mod Keep
pub mod Init
pub mod Free
mod Tests
use pcboot.Prelude.{
  ℕ, zero, suc, ◌+◌, ◌-◌, ◌*◌, ◌/◌, ◌%◌, ◌^◌, Bool, true, false, not, ◌&&◌, ◌||◌, List, [], ◌∷◌,
  Option, none, some, ltb, leb, ◌==◌, if◌then◌else◌, bit_and, bit_or, length,
}

abbrev pub Bitmap : Type 0
Bitmap = ℕ → ℕ

pub record Mem : Type 0 where
  pub bitmap : Bitmap
  pub bmsize : ℕ
  pub last_alloc_idx : ℕ
  pub enabled : Bool

pub data Area : Type 0 where
  heap stack : Area

pub data Use : Type 0 where
  free used : Use

abbrev pub bm_idx : ℕ → ℕ
bm_idx pg = pg / 32

abbrev pub bm_bit : ℕ → ℕ
bm_bit pg = bit_and pg 0x1f

abbrev addr_to_page : ℕ → ℕ
addr_to_page x = x / 2 ^ 12

unfoldable pub is_free : Bitmap → ℕ → Bool
is_free bitmap pg = bit_and (bitmap (bm_idx pg)) (2 ^ bm_bit pg) == 0

store : Bitmap → ℕ → ℕ → Bitmap
store bitmap idx w i = if i == idx then w else bitmap i

-- `~x` of a 32-bit word
abbrev complement : ℕ → ℕ
complement x = 2 ^ 32 - 1 - x

pub mark_page : ℕ → Use → Bitmap → Bitmap
unfolding store
mark_page pg used bitmap = store bitmap (bm_idx pg) (bit_or (bitmap (bm_idx pg)) (2 ^ bm_bit pg))
mark_page pg free bitmap =
    store bitmap (bm_idx pg) (bit_and (bitmap (bm_idx pg)) (complement (2 ^ bm_bit pg)))

-- Marks `n` pages from `pg` on, in order.
pub mark_pages : ℕ → ℕ → Use → Bitmap → Bitmap
mark_pages zero pg u bitmap = bitmap
mark_pages (suc n) pg u bitmap = mark_pages n (pg + 1) u (mark_page pg u bitmap)

-- The loop that validates a range.
unfoldable pub range_is_free : ℕ → ℕ → Bitmap → Bool
range_is_free zero pg bitmap = true
range_is_free (suc n) pg bitmap = is_free bitmap pg && range_is_free n (pg + 1) bitmap

-- 0 is `true`, and -1 is `false`. The early return leaves the interrupts off.
unfoldable pub alloc_ppage_range : ℕ → ℕ → Mem → Bool × Mem
alloc_ppage_range start size m =
    let off = record m { enabled = false } in
    if range_is_free size start m.bitmap
    then (true, record m { bitmap = mark_pages size start used m.bitmap })
    else (false, off)

-- A page that is free already is a panic.
pub free_ppage : ℕ → Mem → Option Mem
free_ppage pg m =
    if is_free m.bitmap pg
    then none
    else (let idx = bm_idx pg in
        let last = if ltb idx m.last_alloc_idx then idx else m.last_alloc_idx in
        some (record m { bitmap = mark_page pg free m.bitmap; last_alloc_idx = last }))

pub free_ppages : ℕ → ℕ → Mem → Option Mem
free_ppages pg0 zero m = some m
free_ppages pg0 (suc count) m = elim (free_ppage pg0 m) [
  | none ↦ none
  | some m' ↦ free_ppages (pg0 + 1) count m'
]

-- It returns 0 after the same loop.
pub free_ppage_range : ℕ → ℕ → Mem → Option Mem
unfolding free_ppages
free_ppage_range start size m = free_ppages start size m

-- What the search carries along: the state, and `found_free`.
pub record Search : Type 0 where
  pub mem : Mem
  pub found_free : Bool

-- The body of the inner loop: whether the range at `pg` was taken.
pub try_page : Area → (count idx pg : ℕ) → Search → Bool × Search
try_page area count idx pg s =
    if is_free s.mem.bitmap pg
    then (let first = not s.found_free && (elim area [ heap ↦ true | stack ↦ false ]) in
        let m = if first then record (s.mem) { last_alloc_idx = idx } else s.mem in
        let (taken, m') = alloc_ppage_range pg count m in
        (taken, record { mem = m'; found_free = first || s.found_free }))
    else (false, s)

abbrev next_page : Area → ℕ → ℕ
next_page heap pg = pg + 1
next_page stack pg = pg - 1

-- The 32 pages of a word, with the rounds that are left.
pub scan_word : ℕ → Area → (count idx pg : ℕ) → Search → Option ℕ × Search
unfolding try_page
scan_word zero area count idx pg s = (none, s)
scan_word (suc i) area count idx pg s =
    let (taken, s') = try_page area count idx pg s in
    let rest = scan_word i area count idx (next_page area pg) s' in
    if taken then (some pg, s') else rest

abbrev first_page : Area → ℕ → ℕ
first_page heap idx = idx * 32
first_page stack idx = idx * 32 + 31

-- The body of the outer loop: a word with no free page is skipped.
unfoldable pub visit_word : Area → (count idx : ℕ) → Search → Option ℕ × Search
unfolding scan_word
visit_word area count idx s =
    if s.mem.bitmap idx == 0xffffffff
    then (none, s)
    else scan_word 32 area count idx (first_page area idx) s

pub data Outcome : Type 0 where
  page : ℕ → Outcome
  no_page : Outcome
  out_of_fuel : Outcome

-- Upwards while `idx != max`, on fuel.
pub search_up : ℕ → (count idx max : ℕ) → Search → Outcome × Search
search_up zero count idx max s = (out_of_fuel, s)
search_up (suc fuel) count idx max s =
    let (found, s') = visit_word heap count idx s in
    let rest = search_up fuel count (idx + 1) max s' in
    if idx == max then (no_page, s) else elim found [ some pg ↦ (page pg, s') | none ↦ rest ]

-- Downwards from the index `n - 1` until -1.
pub search_down : (count n : ℕ) → Search → Outcome × Search
search_down count zero s = (no_page, s)
search_down count (suc idx) s =
    let (found, s') = visit_word stack count idx s in
    let rest = search_down count idx s' in elim found [ some pg ↦ (page pg, s') | none ↦ rest ]

-- `(bmsize - 1) / 4` is 0 for an empty bitmap too: C rounds to 0.
unfoldable pub search_area : ℕ → Area → Search → Outcome × Search
unfolding search_up search_down
search_area count heap s =
    search_up (s.mem.bmsize / 4 + 1) count s.mem.last_alloc_idx (s.mem.bmsize / 4) s
search_area count stack s = search_down count ((s.mem.bmsize - 1) / 4 + 1) s

-- Each return restores the interrupt flag.
unfoldable pub alloc_ppages : ℕ → Area → Mem → Outcome × Mem
alloc_ppages count area m =
    let intr_state = m.enabled in
    let begin : Search = record { mem = record m { enabled = false }; found_free = false } in
    let (out, s) = search_area count area begin in (out, record (s.mem) { enabled = intr_state })

pub alloc_ppage : Area → Mem → Outcome × Mem
alloc_ppage area m = alloc_ppages 1 area m

-- `size_t` and `uint32_t` wrap at 32 bits.
pub add_memory : (start sz : ℕ) → Bitmap → Bitmap
add_memory start sz bitmap =
    mark_pages (addr_to_page ((sz + 4095) % 2 ^ 32)) (addr_to_page start) free bitmap

-- `struct mem_range`
pub record MemRange : Type 0 where
  pub start : ℕ
  pub size : ℕ

-- The end and the size of a range: one that runs past 32 bits is cut.
pub range_extent : MemRange → ℕ × ℕ
range_extent r =
    let sz = bit_and r.size 0xfffffffc in
    let end = (r.start + sz) % 2 ^ 32 in
    if ltb end sz then (0xfffffffc, (2 ^ 32 + 0xfffffffc - r.start) % 2 ^ 32) else (end, sz)

-- The loop over the memory map, `mem_start` being the end of the kernel image: the bitmap, and
-- `end_pg`.
pub add_ranges : (mem_start : ℕ) → List MemRange → Bitmap × ℕ → Bitmap × ℕ
unfolding range_extent add_memory
add_ranges mem_start [] acc = acc
add_ranges mem_start (r ∷ rs) (bitmap, end_pg) =
    let (end, sz) = range_extent r in
    let start = if ltb r.start mem_start then mem_start else r.start in
    let pg = addr_to_page end in
    add_ranges mem_start rs (
      if ltb end mem_start
      then (bitmap, end_pg)
      else (add_memory start sz bitmap, if ltb end_pg pg then pg else end_pg))

-- What `init_mem` leaves, from a `_mem_start` and a memory map; what it prints is left out.
pub init_mem : (mem_start : ℕ) → List MemRange → Mem → Option Mem
unfolding add_ranges
init_mem mem_start map m =
    if length map == 0 || ltb 16 (length map)
    then none
    else (let (bitmap, end_pg) =
          add_ranges mem_start map
            ((λ idx. if ltb idx 32768 then 0xffffffff else m.bitmap idx), 0) in
        let bmsize = end_pg / 32 * 4 in
        let used_end = (mem_start + bmsize + (2 ^ 32 - 1)) % 2 ^ 32 in
        some (record {
          bitmap = mark_pages (addr_to_page used_end + 1) 0 used bitmap;
          bmsize = bmsize;
          last_alloc_idx = 0;
          enabled = m.enabled;
        }))
