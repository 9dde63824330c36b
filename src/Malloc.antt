-- ===== src/Malloc.antt =====
-- src/libc/malloc.c with SINGLE_POOL defined, as it is in the source: the free list behind `malloc`.
-- The memory is the block descriptors by their address, and `pool` is the list of the addresses from
-- `pool` on along `next`, so that an assignment to a `next` on the way is a change of the list.
-- Descriptors at different addresses do not overlap, which holds of blocks of 12 bytes or more.
-- An address plus the size of its block does not wrap. `none` is a panic of the kernel.
pub mod Chain
pub mod FreeList
pub mod TakeBlock
pub mod Valid
pub mod Safe
pub mod Fresh
pub mod Give
pub mod Answer
pub mod Resize
pub mod Runs
pub mod Sliver
mod Tests
use pcboot.Prelude.{
  ℕ, zero, suc, ◌+◌, ◌-◌, ◌*◌, ◌/◌, ◌%◌, ◌^◌, Bool, true, false, ◌&&◌, List, [], ◌∷◌, Option, none,
  some, ltb, leb, ◌==◌, if◌then◌else◌, bit_and,
}
use pcboot.Mem.{Mem, heap, Outcome, page, no_page, out_of_fuel, alloc_ppages}

-- `struct mem_desc` without `next`
pub record Desc : Type 0 where
  pub size : ℕ
  pub magic : ℕ

abbrev pub Store : Type 0
Store = ℕ → Desc

pub record Heap : Type 0 where
  pub desc : Store
  pub pool : List ℕ
  pub mem : Mem

abbrev pub magic_used : ℕ
magic_used = 0xdeadf00d

abbrev pub magic_free : ℕ
magic_free = 0x1ee7d00d

-- `sizeof(struct mem_desc)`
abbrev pub desc_size : ℕ
desc_size = 12

abbrev pub min_block_size : ℕ
min_block_size = desc_size * 2

abbrev pub desc_ptr : ℕ → ℕ
desc_ptr b = b + desc_size

abbrev pub ptr_desc : ℕ → ℕ
ptr_desc p = p - desc_size

abbrev pub put : Store → ℕ → Desc → Store
put d a v x = if x == a then v else d x

-- `size_t` wraps at 32 bits.
abbrev pub add32 : ℕ → ℕ → ℕ
add32 a b = (a + b) % 2 ^ 32

pub total_size : ℕ → ℕ
total_size sz = bit_and (add32 (add32 sz desc_size) 3) 0xfffffffc

-- `BYTES_TO_PAGES`
pub bytes_to_pages : ℕ → ℕ
bytes_to_pages x = add32 x 4095 / 2 ^ 12

-- The walk of `malloc` along the pool: the block, and the pool and the memory without it. A block
-- with enough room is split, and its upper part taken.
pub take_block : ℕ → List ℕ → Store → Option (ℕ × List ℕ × Store)
take_block total [] d = none
take_block total (mem ∷ rest) d =
    let size = (d mem).size in
    let further : Option (ℕ × List ℕ × Store) = elim (take_block total rest d) [
      | none ↦ none
      | some (b, rest', d') ↦ some (b, mem ∷ rest', d')
    ] in
    if leb total size && ltb size (add32 total min_block_size)
    then some (mem, rest, d)
    else if ltb total size
    then some (mem + size - total, mem ∷ rest, put d mem (record (d mem) { size = size - total }))
    else further

-- The walk of `free` for the block `mem`, behind `prev`: the rest of the pool and the memory.
pub insert_free : (mem prev : ℕ) → List ℕ → Store → List ℕ × Store
insert_free mem prev [] d =
    if prev + (d prev).size == mem
    then (
      [],
      put (put d mem (record (d mem) { magic = 0 })) prev
          (record (d prev) { size = (d prev).size + (d mem).size }),
    )
    else (mem ∷ [], d)
insert_free mem prev (cur ∷ rest) d =
    let end = mem + (d mem).size in
    let further = insert_free mem cur rest d in
    if cur == end
    then (
      mem ∷ rest,
      put (put d mem (record (d mem) { size = (d mem).size + (d cur).size })) cur
          (record (d cur) { magic = 0 }),
    )
    else if ltb end cur
    then (mem ∷ cur ∷ rest, d)
    else (cur ∷ further.0, further.1)

-- A pool that is empty takes the block as it is. The head of the walk is `dummy`, which is read
-- nowhere.
pub add_free : ℕ → List ℕ → Store → List ℕ × Store
unfolding insert_free
add_free mem [] d = (mem ∷ [], d)
add_free mem (cur ∷ rest) d = insert_free mem 0 (cur ∷ rest) d

-- `free` of a pointer, 0 being NULL.
pub free : ℕ → Heap → Option Heap
unfolding add_free
free p h =
    let mem = ptr_desc p in
    let marked = put h.desc mem (record (h.desc mem) { magic = magic_free }) in
    let added = add_free mem h.pool marked in
    if p == 0
    then some h
    else if (h.desc mem).magic == magic_used
    then some (record h { desc = added.1; pool = added.0 })
    else none

abbrev used_desc : ℕ → Desc
used_desc size = record { size = size; magic = magic_used }

-- A block on fresh pages, the rest of which goes into the pool.
pub fresh_block : (total pg npages : ℕ) → Heap → Option (ℕ × Heap)
fresh_block total pg npages h =
    let mem = pg * 2 ^ 12 in
    let rest_sz = npages * 4096 - total in
    let rest = mem + total in
    let h₁ : Heap = record h { desc = put h.desc mem (used_desc total) } in
    let h₂ : Heap = record h₁ { desc = put h₁.desc rest (used_desc rest_sz) } in
    let freed : Option (ℕ × Heap) = elim (free (desc_ptr rest) h₂) [
      | none ↦ none
      | some h' ↦ some (desc_ptr mem, h')
    ] in
    if ltb 0 rest_sz then freed else some (desc_ptr mem, h₁)

-- 0 is NULL, with `errno` set to ENOMEM. The fuel of `alloc_ppages` never runs out.
pub malloc : ℕ → Heap → Option (ℕ × Heap)
malloc sz h =
    let total = total_size sz in
    elim (take_block total h.pool h.desc) [
      | some (b, pool, d) ↦
          some (desc_ptr b, record h { desc = put d b (used_desc total); pool = pool })
      | none ↦
          let npages = bytes_to_pages total in
          let (out, m) = alloc_ppages npages heap h.mem in
          elim out [
            | page pg ↦ fresh_block total pg npages (record h { mem = m })
            | no_page ↦ some (0, record h { mem = m })
            | out_of_fuel ↦ none
          ]
    ]

-- The pointer, the heap, and how many bytes are copied from the old block to the new one, if any.
pub realloc : (ptr size : ℕ) → Heap → Option (ℕ × ℕ × Heap)
realloc ptr size h =
    let old = h.desc (ptr_desc ptr) in
    if ptr == 0
    then (elim (malloc size h) [ none ↦ none | some (p, h') ↦ some (p, 0, h') ])
    else if leb size old.size
    then some (ptr, 0, h)
    else (elim (malloc size h) [
      | none ↦ none
      | some (newp, h') ↦
          let copied : Option (ℕ × ℕ × Heap) = elim (free ptr h') [
            | none ↦ none
            | some h'' ↦ some (newp, (h'.desc (ptr_desc ptr)).size, h'')
          ] in
          if newp == 0 then some (0, 0, h') else copied
    ])
