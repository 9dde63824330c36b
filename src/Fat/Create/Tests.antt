-- ===== src/Fat/Create/Tests.antt =====
-- A small volume, and a table of 12-bit entries.
use pcboot.Prelude.{
  ℕ, ◌+◌, ◌*◌, ◌%◌, ◌≡◌, refl, true, List, [], ◌∷◌, none, some, ◌==◌, if◌then◌else◌, arith, get_or,
}
use pcboot.Fat.{Bytes, FatFs, fat12, Disk, read_fat, read_sectors}
use pcboot.Fat.Dir.{FatDir}
use pcboot.Fat.Table.{read_fat-misses}
use pcboot.Fat.Create.{
  created, geometry, fsfat_create, max_sect_once, kind_of, root_of, label_of, find_shift,
}
use pcboot.Fat.Create.Mount.{HoldsSectors, fsfat_create-HoldsSectors}

-- The parameter block: sectors of 512 bytes, one to a cluster, one reserved; two tables of one sector; 16 entries
-- in the root directory; 100 sectors
abbrev block : List ℕ
block =
    235 ∷ 60 ∷ 144 ∷ 0 ∷ 0 ∷ 0 ∷ 0 ∷ 0 ∷ 0 ∷ 0 ∷ 0 ∷ 0 ∷ 2 ∷ 1 ∷ 1 ∷ 0 ∷ 2 ∷ 16 ∷ 0 ∷ 100 ∷ 0 ∷ 248
    ∷ 1 ∷ 0 ∷ []

abbrev image : Bytes
image a = get_or block a (a % 251)

abbrev disk : Disk
disk = record {
  boot_drive_number = 0x80;
  bdev_read_range = λ sidx count. some (λ i. image (sidx * 512 + i));
  realloc_gives = λ bufsz. true;
}

abbrev zeros : Bytes
zeros a = 0

fsfat_create-HoldsSectors_example :
    (fat : Bytes) × (dir : FatDir) × (fsfat_create 1 disk 0x1000 none 0 zeros zeros
      ≡ created (record (geometry image 0x80 0 zeros) { fat = fat }) dir)
    × HoldsSectors fat image 1 1
    × (dir.max_nent ≡ 16)
    × HoldsSectors dir.ent image 3 1
unfolding geometry kind_of root_of label_of find_shift max_sect_once read_sectors
fsfat_create-HoldsSectors_example =
    fsfat_create-HoldsSectors 1 disk 0x1000 none 0 (λ i. image (0 * 512 + i)) image zeros zeros
      (omega arith) (λ s n h le. ((λ i. image (s * 512 + i)), refl, λ i less. refl)) refl refl refl
      refl (omega arith) (λ e. cc e) (omega arith) (omega arith)

abbrev volume : FatFs
volume = record {
  kind = fat12;
  dev = 0;
  start_sect = 0;
  size = 100;
  cluster_size = 1;
  fat_size = 1;
  fat_sect = 1;
  root_sect = 3;
  root_size = 1;
  first_data_sect = 4;
  num_data_sect = 96;
  num_clusters = 96;
  label = [];
  fat = zeros;
  clust_mask = 511;
  clust_shift = 9;
}

-- The end mark in the entry 2
abbrev marked : Bytes
marked a = if a == 3 then 0xff else if a == 4 then 0xf else 0

read_fat-misses_run : read_fat volume 2 ≡ read_fat (record volume { fat = marked }) 2
read_fat-misses_run =
    read_fat-misses volume marked 2 refl (omega arith) (λ a ne ne'. ground (arith, ne, ne'))
