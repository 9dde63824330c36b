-- ===== src/Fat/Dir/Tests.antt =====
-- A directory with a label, a long name in two pieces, and its file.
use mathlib.Core.Option.{some-injective}
use pcboot.Prelude.{
  ℕ, zero, suc, ◌-◌, ◌≡◌, refl, subst, ap, List, [], ◌∷◌, ◌++◌, none, some, ◌==◌, if◌then◌else◌,
  arith, get_elem?, get_or, leb,
}
use pcboot.Strings.Compare.{IsText}
use pcboot.Fat.{
  Bytes, FatFs, Disk, next_cluster, read_fat, read_entry, end_mark, read_cluster, read_sectors,
  fat16,
}
use pcboot.Fs.{fsnode_file}
use pcboot.Fat.Dir.{
  dent_filename, lfn_loop, lfn_chars, short_name, clean_trailws, fs_dirent, parse_dir_entries,
  parse_loop, load_dir, dir_addr, no_memory,
}
use pcboot.Fat.Dir.Long.{Stores, dent_filename-Stores}
use pcboot.Fat.Dir.Listing.{Lists, used, parse_dir_entries-Lists}
use pcboot.Fat.Dir.Load.{IsEnded, Holds, load_dir-Holds, load_dir-no_memory}

abbrev label_entry : List ℕ
label_entry =
    80 ∷ 67 ∷ 66 ∷ 79 ∷ 79 ∷ 84 ∷ 32 ∷ 32 ∷ 32 ∷ 32 ∷ 32 ∷ 8 ∷ 0 ∷ 0 ∷ 0 ∷ 0 ∷ 0 ∷ 0 ∷ 0 ∷ 0 ∷ 0 ∷ 0
    ∷ 0 ∷ 0 ∷ 0 ∷ 0 ∷ 0 ∷ 0 ∷ 0 ∷ 0 ∷ 0 ∷ 0 ∷ []

abbrev second_piece : List ℕ
second_piece =
    66 ∷ 110 ∷ 0 ∷ 111 ∷ 0 ∷ 0 ∷ 0 ∷ 255 ∷ 255 ∷ 255 ∷ 255 ∷ 15 ∷ 0 ∷ 0 ∷ 255 ∷ 255 ∷ 255 ∷ 255
    ∷ 255 ∷ 255 ∷ 255 ∷ 255 ∷ 255 ∷ 255 ∷ 255 ∷ 255 ∷ 0 ∷ 0 ∷ 255 ∷ 255 ∷ 255 ∷ 255 ∷ []

abbrev first_piece : List ℕ
first_piece =
    1 ∷ 97 ∷ 0 ∷ 98 ∷ 0 ∷ 99 ∷ 0 ∷ 100 ∷ 0 ∷ 101 ∷ 0 ∷ 15 ∷ 0 ∷ 0 ∷ 102 ∷ 0 ∷ 103 ∷ 0 ∷ 104 ∷ 0
    ∷ 105 ∷ 0 ∷ 106 ∷ 0 ∷ 107 ∷ 0 ∷ 0 ∷ 0 ∷ 108 ∷ 0 ∷ 109 ∷ 0 ∷ []

abbrev file_entry : List ℕ
file_entry =
    65 ∷ 66 ∷ 67 ∷ 68 ∷ 69 ∷ 70 ∷ 126 ∷ 49 ∷ 84 ∷ 88 ∷ 84 ∷ 32 ∷ 0 ∷ 0 ∷ 0 ∷ 0 ∷ 0 ∷ 0 ∷ 0 ∷ 0 ∷ 0
    ∷ 0 ∷ 0 ∷ 0 ∷ 0 ∷ 0 ∷ 0 ∷ 0 ∷ 100 ∷ 0 ∷ 0 ∷ 0 ∷ []

abbrev long_name : List ℕ
long_name =
    97 ∷ 98 ∷ 99 ∷ 100 ∷ 101 ∷ 102 ∷ 103 ∷ 104 ∷ 105 ∷ 106 ∷ 107 ∷ 108 ∷ 109 ∷ 110 ∷ 111 ∷ []

abbrev dir_bytes : Bytes
dir_bytes a = get_or (label_entry ++ second_piece ++ first_piece ++ file_entry) a 0

long_name-Stores : Stores dir_bytes 1 3 long_name
long_name-Stores = (
  omega arith,
  refl,
  refl,
  refl,
  λ h. (omega arith, refl, refl, refl, λ h'. absurd (omega (arith, h'))),
)

long_name-IsText : IsText long_name
long_name-IsText = (
  omega arith,
  omega arith,
  (
    omega arith,
    omega arith,
    (
      omega arith,
      omega arith,
      (
        omega arith,
        omega arith,
        (
          omega arith,
          omega arith,
          (
            omega arith,
            omega arith,
            (
              omega arith,
              omega arith,
              (
                omega arith,
                omega arith,
                (
                  omega arith,
                  omega arith,
                  (
                    omega arith,
                    omega arith,
                    (
                      omega arith,
                      omega arith,
                      (
                        omega arith,
                        omega arith,
                        (
                          omega arith,
                          omega arith,
                          (omega arith, omega arith, (omega arith, omega arith, tt)),
                        ),
                      ),
                    ),
                  ),
                ),
              ),
            ),
          ),
        ),
      ),
    ),
  ),
)

dent_filename-Stores_example : dent_filename dir_bytes 3 1 ≡ long_name
dent_filename-Stores_example =
    dent_filename-Stores dir_bytes 3 1 long_name long_name-IsText long_name-Stores

parse_dir_entries-Lists_example :
    Lists dir_bytes (used dir_bytes 16 0) 0 (parse_dir_entries dir_bytes 16).fsent
parse_dir_entries-Lists_example = parse_dir_entries-Lists dir_bytes 16

listed :
    (parse_dir_entries dir_bytes 16).fsent
    ≡ record { name = long_name; data_index = 3; type_of = fsnode_file; fsize = 100 } ∷ []
unfolding parse_dir_entries parse_loop fs_dirent dent_filename lfn_loop lfn_chars short_name
    clean_trailws
listed = refl

-- A FAT16 volume whose table leads from the cluster 2 to 3, and from 5 back to 5
abbrev table : Bytes
table a =
    if a == 4 then 3 else if a == 6 then 0xff else if a == 7 then 0xff else if a == 10 then 5 else 0

abbrev volume : FatFs
volume = record {
  kind = fat16;
  dev = 0;
  start_sect = 1;
  size = 100;
  cluster_size = 1;
  fat_size = 4;
  fat_sect = 1;
  root_sect = 9;
  root_size = 1;
  first_data_sect = 10;
  num_data_sect = 90;
  num_clusters = 90;
  label = [];
  fat = table;
  clust_mask = 511;
  clust_shift = 9;
}

-- The cluster 2 starts with the directory.
abbrev contents : ℕ → Bytes
contents c i = if c == 2 then dir_bytes i else 0

abbrev disk : Disk
disk = record {
  boot_drive_number = 0;
  bdev_read_range = λ sidx count. some (contents (sidx - 9));
  realloc_gives = λ bufsz. leb bufsz 4096;
}

abbrev chain : List ℕ
chain = 2 ∷ 3 ∷ []

chain-follows :
    (q c c' : ℕ)
    → get_elem? chain q ≡ some c
    → get_elem? chain (suc q) ≡ some c'
    → next_cluster volume c ≡ some c'
unfolding next_cluster read_fat read_entry end_mark
chain-follows zero c c' e e' =
    subst (λ c. next_cluster volume c ≡ some c') (some-injective _ _ e) e'
chain-follows (suc zero) c c' e e' = cc e'
chain-follows (suc (suc q)) c c' e e' = cc (e, e')

chain-readable :
    (q c : ℕ) → get_elem? chain q ≡ some c → read_cluster disk volume c ≡ some (contents c)
unfolding read_cluster read_sectors
chain-readable zero c e =
    subst (λ c. read_cluster disk volume c ≡ some (contents c)) (some-injective _ _ e) refl
chain-readable (suc zero) c e =
    subst (λ c. read_cluster disk volume c ≡ some (contents c)) (some-injective _ _ e) refl
chain-readable (suc (suc q)) c e = cc e

chain-IsEnded : IsEnded volume chain
unfolding next_cluster read_fat read_entry end_mark
chain-IsEnded zero c e h = absurd (omega (arith, h))
chain-IsEnded (suc zero) c e h =
    subst (λ c. next_cluster volume c ≡ none) (some-injective _ _ e) refl
chain-IsEnded (suc (suc q)) c e h = cc e

load_dir-Holds_example :
    Holds disk.realloc_gives 512 chain contents (load_dir 2 disk volume 0x10 2 0)
unfolding dir_addr
load_dir-Holds_example =
    load_dir-Holds disk volume chain contents
      (record { shift = refl; mask = refl; follows = chain-follows; readable = chain-readable }) 2
      0x10 2 0 chain-IsEnded (omega arith) refl refl

loop-next : (c : ℕ) → c ≡ 5 → (c' : ℕ) × (next_cluster volume c ≡ some c') × (c' ≡ 5)
unfolding next_cluster read_fat read_entry end_mark
loop-next c e = (5, ap (next_cluster volume) e, refl)

loop-readable : (c : ℕ) → c ≡ 5 → (clust : Bytes) × (read_cluster disk volume c ≡ some clust)
unfolding read_cluster read_sectors
loop-readable c e = (contents 5, ap (read_cluster disk volume) e)

load_dir-no_memory_example : load_dir 5000 disk volume 0x10 5 0 ≡ no_memory
unfolding dir_addr
load_dir-no_memory_example =
    load_dir-no_memory disk volume (λ c. c ≡ 5) loop-readable loop-next (omega arith) 4096
      (λ bufsz h. ground (arith, h)) 5000 0x10 5 0 refl (omega arith) refl
