-- ===== src/Fat.antt =====
-- src/fsfat.c: the allocation table of a FAT file system, and the files. Sectors come from
-- `bdev_read_range` of src/bootdev.c, which is a parameter here: it gives the bytes of a range of
-- sectors, or none if the read fails. Sizes and sector numbers stay below the limits of their types.
-- A negative cluster number is `none`.
pub mod Chain
pub mod Advance
pub mod Dir
pub mod Table
pub mod Create
pub mod Read
pub mod Seek
mod Tests
use pcboot.Prelude.{
  ℕ, zero, suc, ◌+◌, ◌-◌, ◌*◌, ◌/◌, ◌%◌, ◌^◌, min, Bool, true, false, not, ◌&&◌, ◌||◌, List, [],
  ◌∷◌, ◌++◌, Option, none, some, ltb, leb, ◌==◌, if◌then◌else◌, bit_and,
}
use pcboot.Fs.{Whence, seek_set, seek_cur, seek_end}

-- Memory by its bytes
abbrev pub Bytes : Type 0
Bytes = ℕ → ℕ

abbrev pub le16 : Bytes → ℕ → ℕ
le16 m a = m a + m (a + 1) * 2 ^ 8

abbrev pub le32 : Bytes → ℕ → ℕ
le32 m a = m a + m (a + 1) * 2 ^ 8 + m (a + 2) * 2 ^ 16 + m (a + 3) * 2 ^ 24

pub data FatType : Type 0 where
  fat12 fat16 fat32 exfat : FatType

-- `struct fatfs`. The field `type` is `kind` here, and the root directory stands in Fat/Dir.
pub record FatFs : Type 0 where
  pub kind : FatType
  pub dev : ℕ
  pub start_sect : ℕ
  pub size : ℕ
  pub cluster_size : ℕ
  pub fat_size : ℕ
  pub fat_sect : ℕ
  pub root_sect : ℕ
  pub root_size : ℕ
  pub first_data_sect : ℕ
  pub num_data_sect : ℕ
  pub num_clusters : ℕ
  pub label : List ℕ
  pub fat : Bytes
  pub clust_mask : ℕ
  pub clust_shift : ℕ

-- The table is read as words of 16 or 32 bits.
pub read_entry : FatType → (fat : Bytes) (addr : ℕ) → ℕ
read_entry fat12 fat addr =
    let idx = addr + addr / 2 in
    let res = le16 fat (2 * idx) in if bit_and idx 1 == 0 then bit_and res 0xfff else res / 2 ^ 4
read_entry fat16 fat addr = le16 fat (2 * addr)
read_entry fat32 fat addr = le32 fat (4 * addr)
read_entry exfat fat addr = le32 fat (4 * addr)

pub read_fat : FatFs → ℕ → ℕ
read_fat fatfs addr = read_entry fatfs.kind fatfs.fat addr

-- The least value that ends a chain
pub end_mark : FatType → ℕ
end_mark fat12 = 0xff8
end_mark fat16 = 0xfff8
end_mark fat32 = 0xffffff8
end_mark exfat = 0xffffff8

pub next_cluster : FatFs → ℕ → Option ℕ
next_cluster fatfs addr =
    let fatval = read_fat fatfs addr in
    if fatval == 0 then none else if leb (end_mark fatfs.kind) fatval then none else some fatval

pub find_cluster : FatFs → (count clust : ℕ) → Option ℕ
find_cluster fatfs zero clust = some clust
find_cluster fatfs (suc count) clust = elim (next_cluster fatfs clust) [
  | none ↦ none
  | some clust' ↦ find_cluster fatfs count clust'
]

-- What the driver calls: `boot_drive_number` and `bdev_read_range`, and whether `realloc` gives so many bytes
pub record Disk : Type 0 where
  pub boot_drive_number : ℕ
  pub bdev_read_range : (sidx count : ℕ) → Option Bytes
  pub realloc_gives : (bufsz : ℕ) → Bool

-- Other drives than the boot drive fail. The device -1 is `none`.
pub read_sectors : Disk → Option ℕ → (sidx count : ℕ) → Option Bytes
read_sectors disk none sidx count = disk.bdev_read_range sidx count
read_sectors disk (some dev) sidx count =
    if dev == disk.boot_drive_number then disk.bdev_read_range sidx count else none

-- `addr - 2` wraps at 32 bits.
pub read_cluster : Disk → FatFs → ℕ → Option Bytes
read_cluster disk fatfs addr =
    let saddr =
      (addr + 2 ^ 32 - 2) % 2 ^ 32 * fatfs.cluster_size
      + fatfs.first_data_sect
      + fatfs.start_sect in
    read_sectors disk (some fatfs.dev) saddr fatfs.cluster_size

-- `struct fat_file`, with the size of its entry for the entry.
pub record File : Type 0 where
  pub size_bytes : ℕ
  pub first_clust : ℕ
  pub cur_pos : ℕ
  pub cur_clust : Option ℕ
  pub clustbuf : Bytes
  pub buf_valid : Bool

-- The file of an entry, `clustbuf` being the memory that it is given.
pub init_file : (first_cluster_low first_cluster_high size_bytes : ℕ) → Bytes → File
init_file low high size_bytes clustbuf =
    let first_clust = low + high * 2 ^ 16 in
    record {
      size_bytes = size_bytes;
      first_clust = first_clust;
      cur_pos = 0;
      cur_clust = some first_clust;
      clustbuf = clustbuf;
      buf_valid = false;
    }

pub fsize : File → ℕ
fsize file = file.size_bytes

pub tell : File → ℕ
tell file = file.cur_pos

-- `memcpy` of `len` bytes from the offset `offs`
abbrev pub copy : Bytes → (offs len : ℕ) → List ℕ
copy m offs zero = []
copy m offs (suc len) = m offs ∷ copy m (offs + 1) len

-- What `read` copies, with the file; or a copy of a negative length.
pub data Copied : Type 0 where
  got : List ℕ → File → Copied
  bad_copy : Copied
  out_of_fuel : Copied

abbrev pub more : List ℕ → Copied → Copied
more bytes (got l f) = got (bytes ++ l) f
more bytes bad_copy = bad_copy
more bytes out_of_fuel = out_of_fuel

-- The buffer is taken as valid even if the read failed.
pub fill_buf : Disk → FatFs → (clust : ℕ) → File → File
fill_buf disk fatfs clust file =
    let filled : Bytes = elim (read_cluster disk fatfs clust) [
      | none ↦ file.clustbuf
      | some bytes ↦ bytes
    ] in
    if file.buf_valid then file else record file { clustbuf = filled; buf_valid = true }

-- What a round of the loop of `read` copies, with `left` bytes wanted.
pub round_len : FatFs → (left : ℕ) → File → ℕ
round_len fatfs left file =
    let buf_left = fatfs.cluster_size * 512 - bit_and file.cur_pos fatfs.clust_mask in
    let len = min buf_left left in
    if ltb file.size_bytes (file.cur_pos + len) then file.size_bytes - file.cur_pos else len

-- How a round ends: the last one, a copy of a negative length, or another round with the number of
-- bytes copied, `cur_clust_idx` and `cur_clust`.
pub data Round : Type 0 where
  last : List ℕ → File → Round
  negative : Round
  again : List ℕ → (len cur_clust_idx clust : ℕ) → File → Round

-- The round behind the copy
pub next_round : FatFs → (cur_clust_idx clust : ℕ) → List ℕ → (len : ℕ) → File → Round
next_round fatfs cur_clust_idx clust bytes len file =
    let pos = file.cur_pos + len in
    let moved = record file { cur_pos = pos } in
    let new_clust_idx = pos / 2 ^ fatfs.clust_shift in
    let step : Round = elim (next_cluster fatfs clust) [
      | none ↦ last bytes (record moved { buf_valid = false; cur_clust = none })
      | some clust' ↦
          again bytes len new_clust_idx clust'
            (record moved { buf_valid = false; cur_clust = some clust' })
    ] in
    if leb file.size_bytes pos
    then last bytes (record moved { cur_clust = none; buf_valid = false })
    else if new_clust_idx == cur_clust_idx
    then again bytes len cur_clust_idx clust moved
    else step

pub read_round : Disk → FatFs → (left cur_clust_idx clust : ℕ) → File → Round
read_round disk fatfs left cur_clust_idx clust file =
    let filled = fill_buf disk fatfs clust file in
    let len = round_len fatfs left filled in
    let bytes = copy filled.clustbuf (bit_and filled.cur_pos fatfs.clust_mask) len in
    if ltb file.size_bytes file.cur_pos
    then negative
    else next_round fatfs cur_clust_idx clust bytes len filled

-- The loop, on fuel, `clust` being `cur_clust` and `left` the difference `sz - num_read`.
pub read_loop : (fuel : ℕ) → Disk → FatFs → (left cur_clust_idx clust : ℕ) → File → Copied
read_loop zero disk fatfs left cur_clust_idx clust file = out_of_fuel
read_loop (suc fuel) disk fatfs zero cur_clust_idx clust file = got [] file
read_loop (suc fuel) disk fatfs (suc left) cur_clust_idx clust file =
    elim (read_round disk fatfs (suc left) cur_clust_idx clust file) [
      | last bytes file' ↦ got bytes file'
      | negative ↦ bad_copy
      | again bytes len idx clust' file' ↦
          more bytes (read_loop fuel disk fatfs (suc left - len) idx clust' file')
    ]

-- A round of the loop copies a byte at least, or ends it.
pub read : Disk → FatFs → (sz : ℕ) → File → Copied
read disk fatfs sz file = elim (file.cur_clust) [
  | none ↦ got [] file
  | some clust ↦ read_loop (sz + 1) disk fatfs sz (file.cur_pos / 2 ^ fatfs.clust_shift) clust file
]

-- The offset is added or, if `back`, taken away.
pub seek_pos : (back : Bool) (offs : ℕ) → Whence → File → ℕ
seek_pos back offs whence file =
    let from : ℕ = elim whence [
      | seek_set ↦ 0
      | seek_cur ↦ file.cur_pos
      | seek_end ↦ file.size_bytes
    ] in
    if back then from - offs else from + offs

-- With a negative cluster, `find_cluster` reads outside of the table.
pub seek_forward : FatFs → (count new_pos : ℕ) → (cur_clust : Option ℕ) → File → Option File
seek_forward fatfs count new_pos none file = none
seek_forward fatfs count new_pos (some clust) file = some (record file {
  cur_clust = find_cluster fatfs count clust;
  buf_valid = false;
  cur_pos = new_pos;
})

-- `none` is a read outside of the table.
pub seek : FatFs → (back : Bool) (offs : ℕ) → Whence → File → Option File
seek fatfs back offs whence file =
    let new_pos = seek_pos back offs whence file in
    let cur_clust_idx = file.cur_pos / 2 ^ fatfs.clust_shift in
    let new_clust_idx = new_pos / 2 ^ fatfs.clust_shift in
    if new_clust_idx == cur_clust_idx
    then some (record file { cur_pos = new_pos })
    else if ltb new_clust_idx cur_clust_idx
    then some (record file {
      cur_clust = find_cluster fatfs new_clust_idx file.first_clust;
      buf_valid = false;
      cur_pos = new_pos;
    })
    else seek_forward fatfs (new_clust_idx - cur_clust_idx) new_pos file.cur_clust file
