-- ===== src/Part.antt =====
-- src/part.c: the partitions of the boot drive. `bdev_read_sect` of src/bootdev.c is a parameter: it gives the bytes of
-- a sector, or none. The messages are left out.
pub mod Scan
mod Tests
use pcboot.Prelude.{
  ℕ, zero, suc, ◌+◌, ◌-◌, ◌*◌, ◌/◌, ◌%◌, ◌^◌, Bool, true, false, not, ◌&&◌, ◌||◌, List, [], ◌∷◌,
  ◌++◌, Option, none, some, ltb, leb, ◌==◌, if◌then◌else◌, bit_and, bit_or,
}
use pcboot.Fat.{Bytes, le16, le32}

-- `struct part_record` with the index `i` in the table of a sector
abbrev pub prec : Bytes → ℕ → Bytes
prec sectdata i off = sectdata (0x1be + 16 * i + off)

abbrev pub type_of : Bytes → ℕ → ℕ
type_of sectdata i = prec sectdata i 4

abbrev pub bootsig : ℕ
bootsig = 0xaa55

abbrev pub ptype_ext : ℕ
ptype_ext = 0x5

abbrev pub ptype_ext_lba : ℕ
ptype_ext_lba = 0xf

abbrev pub part_act_bit : ℕ
part_act_bit = 0x200

abbrev pub part_prim_bit : ℕ
part_prim_bit = 0x400

pub record Partition : Type 0 where
  pub start_sect : ℕ
  pub size_sect : ℕ
  pub attributes : ℕ

-- The variables of the loops. `ptab` are the entries that were written, whether the array has room or not.
pub record Walk : Type 0 where
  pub sidx : ℕ
  pub first_ebr_offs : ℕ
  pub nparts : ℕ
  pub ptab : List Partition

abbrev pub is_mbr : Walk → Bool
is_mbr w = w.sidx == 0

-- The attributes of a record, with `sidx` as it is then.
pub attributes : Bytes → ℕ → Walk → ℕ
attributes sectdata i w =
    let active =
      if bit_and (prec sectdata i 0) 0x80 == 0
      then type_of sectdata i
      else bit_or (type_of sectdata i) part_act_bit in
    if is_mbr w then bit_or active part_prim_bit else active

-- `start_sect` has 32 bits.
pub partition : Bytes → ℕ → Walk → Partition
partition sectdata i w = record {
  start_sect = (le32 (prec sectdata i) 8 + w.first_ebr_offs) % 2 ^ 32;
  size_sect = le32 (prec sectdata i) 12;
  attributes = attributes sectdata i w;
}

abbrev pub is_ext : ℕ → Bool
is_ext type = type == ptype_ext || type == ptype_ext_lba

-- A record, and whether the loop over the records is left. Without `has_ptab` partitions are only counted.
pub scan_record : (has_ptab : Bool) (sectdata : Bytes) (num_bootrec i : ℕ) → Walk → Walk × Bool
scan_record has_ptab sectdata num_bootrec i w =
    let written = if has_ptab then w.ptab ++ partition sectdata i w ∷ [] else w.ptab in
    if type_of sectdata i == 0
    then if ltb 0 num_bootrec then (record w { sidx = 0 }, true) else (w, false)
    else if is_ext (type_of sectdata i)
    then (record w { sidx = w.first_ebr_offs + le32 (prec sectdata i) 8 }, false)
    else (record w { nparts = w.nparts + 1; ptab = written }, false)

-- The loop over the records, with `left` of them left.
pub scan_records : (has_ptab : Bool) (sectdata : Bytes) (num_bootrec left i : ℕ) → Walk → Walk
scan_records has_ptab sectdata num_bootrec zero i w = w
scan_records has_ptab sectdata num_bootrec (suc left) i w =
    let r = scan_record has_ptab sectdata num_bootrec i w in
    let rest = scan_records has_ptab sectdata num_bootrec left (i + 1) r.0 in
    if r.1 then r.0 else rest

-- `IS_FIRST_EBR`
pub mark_ebr : Walk → Walk
mark_ebr w =
    if not (is_mbr w) && w.first_ebr_offs == 0 then record w { first_ebr_offs = w.sidx } else w

pub num_rec : Walk → ℕ
num_rec w = if is_mbr w then 4 else 2

-- -1, no end within the fuel, or the number of partitions, with the table.
pub data Partitions : Type 0 where
  failed : Partitions
  endless : Partitions
  partitions : (nparts : ℕ) (ptab : List Partition) → Partitions

-- `ptabsz` is none where there is no table.
pub goes_on : Option ℕ → Walk → Bool
goes_on none w = ltb 0 w.sidx
goes_on (some ptabsz) w = ltb 0 w.sidx && ltb w.nparts ptabsz

abbrev pub has_table : Option ℕ → Bool
has_table none = false
has_table (some ptabsz) = true

-- The end of a round, with what the next one gives
pub after : Bytes → (ptabsz : Option ℕ) → Walk → Partitions → Partitions
after sectdata ptabsz w rest =
    if not (le16 sectdata 510 == bootsig)
    then failed
    else if goes_on ptabsz w
    then rest
    else partitions w.nparts w.ptab

pub scan_sector : Bytes → (ptabsz : Option ℕ) → (num_bootrec : ℕ) → Walk → Walk
scan_sector sectdata ptabsz num_bootrec w =
    scan_records (has_table ptabsz) sectdata num_bootrec (num_rec (mark_ebr w)) 0 (mark_ebr w)

pub read_loop :
    (fuel : ℕ)
    → (bdev_read_sect : ℕ → Option Bytes) → (ptabsz : Option ℕ) → (num_bootrec : ℕ) → Walk
    → Partitions
read_loop zero bdev_read_sect ptabsz num_bootrec w = endless
read_loop (suc fuel) bdev_read_sect ptabsz num_bootrec w = elim (bdev_read_sect w.sidx) [
  | none ↦ failed
  | some sectdata ↦
      let scanned = scan_sector sectdata ptabsz num_bootrec w in
      after sectdata ptabsz scanned (read_loop fuel bdev_read_sect ptabsz (num_bootrec + 1) scanned)
]

-- The drive: -1 or the boot drive, as other drives fail.
pub read_partitions :
    (fuel : ℕ)
    → (bdev_read_sect : ℕ → Option Bytes) → (boot_drive_number : ℕ) → (dev : Option ℕ)
    → (ptabsz : ℕ) → Partitions
read_partitions fuel bdev_read_sect boot_drive_number dev ptabsz =
    let size : Option ℕ = if ptabsz == 0 then none else some ptabsz in
    let start : Walk = record { sidx = 0; first_ebr_offs = 0; nparts = 0; ptab = [] } in
    let here : Bool = elim dev [ none ↦ true | some d ↦ d == boot_drive_number ] in
    if here then read_loop fuel bdev_read_sect size 0 start else failed
