-- ===== src/Fat/Create/Mount.antt =====
-- `fsfat_create` on a device that holds a volume of the kinds with a root directory of fixed size.
use pcboot.Prelude.{
  ℕ, ◌+◌, ◌*◌, ◌/◌, ◌≤◌, ◌<◌, ◌≡◌, ◌≢◌, refl, ap, ◌∙◌, Bool, false, not, ◌||◌, Option, some, ◌==◌,
  if◌then◌else◌, arith,
}
use pcboot.Fat.{Bytes, Disk, FatFs, FatType, fat12, fat16, fat32, exfat, read_sectors}
use pcboot.Fat.Dir.{FatDir, parse_dir_entries}
use pcboot.Fat.Create.{
  Created, created, not_fat, division_by_zero, drive, with_entries, with_fat, with_block, geometry,
  fsfat_create, max_sect_once, open_root, root_sectors, with_root, sect_bytes,
}
use pcboot.Fat.Create.Sectors.{Image, load_sectors-Image}

-- The memory at `m` holds `n` sectors of the device, from `s` on.
abbrev pub HoldsSectors : (m image : Bytes) (s n : ℕ) → Type 0
HoldsSectors m image s n = (i : ℕ) → i < n * 512 → m i ≡ image (s * 512 + i)

fixed_root :
    (fuel : ℕ) (disk : Disk) (dev : Option ℕ) (max_once : ℕ) (b : Bytes) (fatfs : FatFs)
    (kind : FatType) (m : Bytes)
    → kind ≢ fat32
    → open_root fuel disk dev max_once b fatfs kind m ≡ root_sectors fuel disk dev max_once fatfs m
unfolding open_root
fixed_root fuel disk dev max_once b fatfs fat12 m h = refl
fixed_root fuel disk dev max_once b fatfs fat16 m h = refl
fixed_root fuel disk dev max_once b fatfs fat32 m h = absurd (h refl)
fixed_root fuel disk dev max_once b fatfs exfat m h = refl

root_sectors-HoldsSectors :
    (fuel : ℕ) (disk : Disk) (dev : Option ℕ) (max_once : ℕ) (fatfs : FatFs) (m image : Bytes)
    → 0 < max_once
    → Image disk dev max_once image
    → fatfs.root_size ≤ fuel
    → (dir : FatDir) × (root_sectors fuel disk dev max_once fatfs m ≡ created fatfs dir)
      × (dir.max_nent ≡ fatfs.root_size * 512 / 32)
      × HoldsSectors dir.ent image (fatfs.start_sect + fatfs.root_sect) fatfs.root_size
unfolding root_sectors with_entries with_root parse_dir_entries
root_sectors-HoldsSectors fuel disk dev max_once fatfs m image h reads enough =
    let (ent, e, bytes) =
      load_sectors-Image disk dev max_once image h reads fuel (fatfs.start_sect + fatfs.root_sect)
        fatfs.root_size 0 m (omega (arith, enough)) (λ i less. absurd (omega (arith, less))) in
    (
      record (parse_dir_entries ent (fatfs.root_size * 512 / 32)) { ref = 1 },
      ap (with_entries fatfs) e,
      refl,
      bytes,
    )

guarded :
    (p q r : Bool) (x : Created)
    → p ≡ false
    → q ≡ false
    → r ≡ false
    → (if p then not_fat else if q then not_fat else if r then division_by_zero else x) ≡ x
guarded p q r x e e' e'' = rw (e, e', e'') refl

-- `fsfat_create` opens a volume with a valid block whose sectors can be read, if its kind is not FAT32: it gives
-- the sizes of the block, with the table and the root directory that stand on the device.
pub fsfat_create-HoldsSectors :
    (fuel : ℕ) (disk : Disk) (low_mem_buffer : ℕ) (dev : Option ℕ) (start : ℕ)
    (b image fat_mem root_mem : Bytes)
    → 0 < max_sect_once low_mem_buffer
    → Image disk dev (max_sect_once low_mem_buffer) image
    → read_sectors disk dev start 1 ≡ some b
    → b 0 ≡ 0xeb
    → b 2 ≡ 0x90
    → sect_bytes b ≡ 512
    → 0 < b 13
    → let sizes = geometry b (drive disk dev) start fat_mem in
      sizes.kind ≢ fat32
      → sizes.fat_size ≤ fuel
      → sizes.root_size ≤ fuel
      → (fat : Bytes) × (dir : FatDir) × (fsfat_create fuel disk low_mem_buffer dev start fat_mem
            root_mem
          ≡ created (record sizes { fat = fat }) dir)
        × HoldsSectors fat image (start + sizes.fat_sect) sizes.fat_size
        × (dir.max_nent ≡ sizes.root_size * 512 / 32)
        × HoldsSectors dir.ent image (sizes.start_sect + sizes.root_sect) sizes.root_size
unfolding fsfat_create with_block with_fat
fsfat_create-HoldsSectors fuel disk low_mem_buffer dev start b image fat_mem root_mem h reads e at0
      at2 bytes512 some_sects kind enough enough' =
    let max_once = max_sect_once low_mem_buffer in
    let sizes : FatFs = geometry b (drive disk dev) start fat_mem in
    let (fat, e', bytes) =
      load_sectors-Image disk dev max_once image h reads fuel (start + sizes.fat_sect)
        sizes.fat_size 0 fat_mem (omega (arith, enough)) (λ i less. absurd (omega (arith, less))) in
    let fatfs : FatFs = record sizes { fat = fat } in
    let (dir, e'', count, bytes') =
      root_sectors-HoldsSectors fuel disk dev max_once fatfs root_mem image h reads enough' in
    let jmp : not (b 0 == 0xeb) || not (b 2 == 0x90) ≡ false = rw (at0, at2) refl in
    let sectors : not (sect_bytes b == 512) ≡ false = rw bytes512 refl in
    let divides : (b 13 == 0) ≡ false = ground (arith, some_sects) in
    (
      fat,
      dir,
      ap (with_block fuel disk max_once dev start fat_mem root_mem) e
          ∙ guarded (not (b 0 == 0xeb) || not (b 2 == 0x90)) (not (sect_bytes b == 512)) (b 13 == 0)
              _ jmp sectors divides
          ∙ ap (with_fat fuel disk dev max_once b sizes root_mem) e'
          ∙ fixed_root fuel disk dev max_once b fatfs sizes.kind root_mem kind
          ∙ e'',
      bytes,
      count,
      bytes',
    )
