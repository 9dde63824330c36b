-- ===== src/Fat/Create.antt =====
-- src/fsfat.c: `fsfat_create`, which reads the parameter block of a volume, its table and its root directory.
-- The memory that is allocated for the table and the directory is an argument, since a read that fails
-- leaves it as it is. The messages are left out.
pub mod Sectors
pub mod Geometry
pub mod Mount
mod Tests
use pcboot.Prelude.{
  ℕ, zero, suc, ◌+◌, ◌-◌, ◌*◌, ◌/◌, ◌%◌, ◌^◌, min, Bool, true, false, not, ◌&&◌, ◌||◌, List, [],
  Option, none, some, ltb, leb, ◌==◌, if◌then◌else◌,
}
use pcboot.Fat.{
  Bytes, le16, le32, FatType, fat12, fat16, fat32, exfat, FatFs, Disk, read_sectors, copy,
}
use pcboot.Fat.Dir.{
  FatDir, Loaded, loaded, failed, no_memory, out_of_fuel, attr_dir, clean_trailws,
  parse_dir_entries, load_dir,
}

-- `struct bparam` and its extensions, at their offsets in the first sector
abbrev pub sect_bytes : Bytes → ℕ
sect_bytes b = le16 b 11

abbrev pub reserved_sect : Bytes → ℕ
reserved_sect b = le16 b 14

abbrev pub num_fats : Bytes → ℕ
num_fats b = b 16

abbrev pub num_dirent : Bytes → ℕ
num_dirent b = le16 b 17

abbrev pub root_clust : Bytes → ℕ
root_clust b = le32 b 44

-- `max_sect_once`, from the address of the buffer in low memory
pub max_sect_once : (low_mem_buffer : ℕ) → ℕ
max_sect_once low_mem_buffer = min ((0xa0000 - low_mem_buffer) / 512) 127

-- The kind of a volume, by its number of clusters.
pub kind_of : ℕ → FatType
kind_of num_clusters =
    if ltb num_clusters 4085
    then fat12
    else if ltb num_clusters 65525
    then fat16
    else if ltb num_clusters 268435445
    then fat32
    else exfat

-- The first sector of the root directory and its size, and the label, with the kind.
pub root_of : FatType → Bytes → (cluster_size root_sect root_size : ℕ) → ℕ × ℕ
root_of fat12 b cluster_size root_sect root_size = (root_sect, root_size)
root_of fat16 b cluster_size root_sect root_size = (root_sect, root_size)
root_of fat32 b cluster_size root_sect root_size = (root_clust b / cluster_size, 0)
root_of exfat b cluster_size root_sect root_size = (root_clust b / cluster_size, 0)

pub label_of : FatType → Bytes → List ℕ
label_of fat12 b = []
label_of fat16 b = clean_trailws (copy b 43 11)
label_of fat32 b = clean_trailws (copy b 71 11)
label_of exfat b = clean_trailws (copy b 71 11)

-- The loop that finds `clust_shift`, on fuel.
pub find_shift : (fuel shift bytes : ℕ) → ℕ
find_shift zero shift bytes = shift
find_shift (suc fuel) shift bytes =
    let rest = find_shift fuel (shift + 1) bytes in if ltb (2 ^ shift) bytes then rest else shift

-- The loops that read the table and the root directory, on fuel, in ranges of at most `max_once` sectors.
pub load_sectors :
    (fuel : ℕ) → Disk → Option ℕ → (max_once sidx size num_read : ℕ) → Bytes → Option Bytes
load_sectors zero disk dev max_once sidx size num_read m =
    if ltb num_read size then none else some m
load_sectors (suc fuel) disk dev max_once sidx size num_read m =
    let count = min (size - num_read) max_once in
    let m' : Bytes = elim (read_sectors disk dev (sidx + num_read) count) [
      | none ↦ m
      | some sect ↦ λ i.
          if leb (num_read * 512) i && ltb i ((num_read + count) * 512)
          then sect (i - num_read * 512)
          else m i
    ] in
    let rest = load_sectors fuel disk dev max_once sidx size (num_read + count) m' in
    if ltb num_read size then rest else some m

-- The fields of `struct fatfs` that the block determines. `num_data_sect` wraps at 32 bits.
pub geometry : Bytes → (dev start : ℕ) → (fat : Bytes) → FatFs
geometry b dev start fat =
    let size = if le16 b 19 == 0 then le32 b 32 else le16 b 19 in
    let cluster_size = b 13 in
    let fat_size = if le16 b 22 == 0 then le32 b 36 else le16 b 22 in
    let root_size = (num_dirent b * 32 + 511) / 512 in
    let first_data_sect = reserved_sect b + num_fats b * fat_size + root_size in
    let num_data_sect = (size + 2 ^ 32 - first_data_sect) % 2 ^ 32 in
    let num_clusters = num_data_sect / cluster_size in
    let kind = kind_of num_clusters in
    let root = root_of kind b cluster_size (reserved_sect b + fat_size * num_fats b) root_size in
    record {
      kind = kind;
      dev = dev;
      start_sect = start;
      size = size;
      cluster_size = cluster_size;
      fat_size = fat_size;
      fat_sect = reserved_sect b;
      root_sect = root.0;
      root_size = root.1;
      first_data_sect = first_data_sect;
      num_data_sect = num_data_sect;
      num_clusters = num_clusters;
      label = label_of kind b;
      fat = fat;
      clust_mask = cluster_size * 512 - 1;
      clust_shift = find_shift 32 0 (cluster_size * 512);
    }

-- No volume that this driver reads; a division by 0; a root directory that cannot be loaded, or for which there is
-- no memory, at which the kernel stops; no end within the fuel; or a volume with its root directory.
pub data Created : Type 0 where
  not_fat : Created
  division_by_zero : Created
  panicked : Created
  endless : Created
  created : FatFs → FatDir → Created

pub with_root : FatFs → Loaded → Created
with_root fatfs (loaded dir) = created fatfs (record dir { ref = 1 })
with_root fatfs failed = panicked
with_root fatfs no_memory = panicked
with_root fatfs out_of_fuel = endless

-- The root directory by its sectors, and on FAT32 by its clusters.
pub with_entries : FatFs → Option Bytes → Created
with_entries fatfs none = endless
with_entries fatfs (some ent) =
    with_root fatfs (loaded (parse_dir_entries ent (fatfs.root_size * 512 / 32)))

pub root_sectors : (fuel : ℕ) → Disk → Option ℕ → (max_once : ℕ) → FatFs → (m : Bytes) → Created
root_sectors fuel disk dev max_once fatfs m =
    with_entries fatfs
      (load_sectors fuel disk dev max_once (fatfs.start_sect + fatfs.root_sect) fatfs.root_size 0 m)

pub open_root :
    (fuel : ℕ)
    → Disk
    → Option ℕ
    → (max_once : ℕ) → (b : Bytes) → FatFs
    → FatType
    → (m : Bytes) → Created
open_root fuel disk dev max_once b fatfs fat32 m =
    with_root fatfs
      (load_dir fuel disk fatfs attr_dir (root_clust b % 2 ^ 16) (root_clust b / 2 ^ 16))
open_root fuel disk dev max_once b fatfs fat12 m = root_sectors fuel disk dev max_once fatfs m
open_root fuel disk dev max_once b fatfs fat16 m = root_sectors fuel disk dev max_once fatfs m
open_root fuel disk dev max_once b fatfs exfat m = root_sectors fuel disk dev max_once fatfs m

-- The volume with its table, as far as that was read.
pub with_fat :
    (fuel : ℕ)
    → Disk
    → Option ℕ
    → (max_once : ℕ) → (b : Bytes) → (sizes : FatFs) → (root_mem : Bytes) → Option Bytes
    → Created
with_fat fuel disk dev max_once b sizes root_mem none = endless
with_fat fuel disk dev max_once b sizes root_mem (some fat) =
    open_root fuel disk dev max_once b (record sizes { fat = fat }) sizes.kind root_mem

-- The device -1 is the boot drive.
abbrev pub drive : Disk → Option ℕ → ℕ
drive disk dev = elim dev [ none ↦ disk.boot_drive_number | some d ↦ d ]

pub with_block :
    (fuel : ℕ)
    → Disk
    → (max_once : ℕ) → Option ℕ
    → (start : ℕ) → (fat_mem root_mem : Bytes) → Option Bytes
    → Created
with_block fuel disk max_once dev start fat_mem root_mem none = not_fat
with_block fuel disk max_once dev start fat_mem root_mem (some b) =
    let sizes = geometry b (drive disk dev) start fat_mem in
    let fat =
      load_sectors fuel disk dev max_once (start + sizes.fat_sect) sizes.fat_size 0 fat_mem in
    let opened = with_fat fuel disk dev max_once b sizes root_mem fat in
    if not (b 0 == 0xeb) || not (b 2 == 0x90)
    then not_fat
    else if not (sect_bytes b == 512)
    then not_fat
    else if b 13 == 0
    then division_by_zero
    else opened

pub fsfat_create :
    (fuel : ℕ)
    → Disk
    → (low_mem_buffer : ℕ) → (dev : Option ℕ) → (start : ℕ) → (fat_mem root_mem : Bytes) → Created
fsfat_create fuel disk low_mem_buffer dev start fat_mem root_mem =
    with_block fuel disk (max_sect_once low_mem_buffer) dev start fat_mem root_mem
      (read_sectors disk dev start 1)
