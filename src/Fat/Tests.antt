-- ===== src/Fat/Tests.antt =====
-- A volume of the FAT16 kind with a file of 600 bytes in its clusters 2 and 3, of one sector each.
use mathlib.Core.Option.{some-injective}
use pcboot.Prelude.{
  ℕ, zero, suc, ◌+◌, ◌-◌, ◌*◌, ◌%◌, ◌≡◌, refl, subst, true, false, List, [], ◌∷◌, Option, none,
  some, ◌==◌, if◌then◌else◌, arith, min, get_elem?, inl, inr,
}
use pcboot.Fat.{
  Bytes, FatFs, fat16, Disk, File, Copied, got, bad_copy, out_of_fuel, read_loop, read_round,
  round_len, next_round, fill_buf, init_file, read, next_cluster, read_fat, read_entry, end_mark,
  read_cluster, read_sectors, seek_pos, seek,
}
use pcboot.Fs.{seek_cur, seek_end}
use pcboot.Fat.Chain.{Layout, slice}
use pcboot.Fat.Advance.{init_file-IsOpen, IsOpen, Reads}
use pcboot.Fat.Read.{read-Reads}
use pcboot.Fat.Seek.{OpenAt, seek-OpenAt, read-seek, seek-stuck}

-- The entries 2 and 3, of two bytes each
abbrev table : Bytes
table a = if a == 4 then 3 else if a == 6 then 0xff else if a == 7 then 0xff else 0

abbrev volume : FatFs
volume = record {
  kind = fat16;
  dev = 0;
  start_sect = 1;
  size = 100;
  cluster_size = 1;
  fat_size = 4;
  fat_sect = 1;
  root_sect = 9;
  root_size = 1;
  first_data_sect = 10;
  num_data_sect = 90;
  num_clusters = 90;
  label = [];
  fat = table;
  clust_mask = 511;
  clust_shift = 9;
}

-- The byte `i` of the cluster `c`
abbrev contents : ℕ → Bytes
contents c i = (c * 100 + i) % 256

abbrev disk : Disk
disk = record {
  boot_drive_number = 0;
  bdev_read_range = λ sidx count. some (contents (sidx - 9));
  realloc_gives = λ bufsz. true;
}

abbrev chain : List ℕ
chain = 2 ∷ 3 ∷ []

chain-follows :
    (q c c' : ℕ)
    → get_elem? chain q ≡ some c
    → get_elem? chain (suc q) ≡ some c'
    → next_cluster volume c ≡ some c'
unfolding next_cluster read_fat read_entry end_mark
chain-follows zero c c' e e' =
    subst (λ c. next_cluster volume c ≡ some c') (some-injective _ _ e) e'
chain-follows (suc zero) c c' e e' = cc e'
chain-follows (suc (suc q)) c c' e e' = cc e

chain-readable :
    (q c : ℕ) → get_elem? chain q ≡ some c → read_cluster disk volume c ≡ some (contents c)
unfolding read_cluster read_sectors
chain-readable zero c e =
    subst (λ c. read_cluster disk volume c ≡ some (contents c)) (some-injective _ _ e) refl
chain-readable (suc zero) c e =
    subst (λ c. read_cluster disk volume c ≡ some (contents c)) (some-injective _ _ e) refl
chain-readable (suc (suc q)) c e = cc e

volume-Layout : Layout disk volume chain contents
volume-Layout = record {
  shift = refl;
  mask = refl;
  follows = chain-follows;
  readable = chain-readable;
}

-- The file at its start, in the middle and at its end
abbrev opened_file : File
opened_file = init_file 2 0 600 (λ i. 0)

opened_file-IsOpen : IsOpen 512 chain contents opened_file
opened_file-IsOpen =
    init_file-IsOpen 512 chain contents 2 0 600 (λ i. 0) refl (omega arith) (omega arith)

abbrev file_at : ℕ → Option ℕ → File
file_at pos clust = record {
  size_bytes = 600;
  first_clust = 2;
  cur_pos = pos;
  cur_clust = clust;
  clustbuf = λ i. 0;
  buf_valid = false;
}

middle-IsOpen : IsOpen 512 chain contents (file_at 510 (some 2))
middle-IsOpen = record {
  first = refl;
  enough = omega arith;
  at_clust = refl;
  buffer = λ c valid. cc valid;
}

end-IsOpen : IsOpen 512 chain contents (file_at 600 none)
end-IsOpen = record {
  first = refl;
  enough = omega arith;
  at_clust = omega arith;
  buffer = λ c valid. cc valid;
}

-- Four bytes around the boundary of the clusters
abbrev bytes_of : Copied → List ℕ
bytes_of (got l file') = l
bytes_of bad_copy = []
bytes_of out_of_fuel = []

read-middle : bytes_of (read disk volume 4 (file_at 510 (some 2))) ≡ 198 ∷ 199 ∷ 44 ∷ 45 ∷ []
unfolding read read_loop read_round round_len next_round fill_buf read_cluster read_sectors
    next_cluster read_fat read_entry end_mark
read-middle = refl

-- The last byte
read-last : bytes_of (read disk volume 4 (file_at 599 (some 3))) ≡ 131 ∷ []
unfolding read read_loop read_round round_len next_round fill_buf read_cluster read_sectors
    next_cluster read_fat read_entry end_mark
read-last = refl

read-Reads_example :
    Reads 512 chain contents 4 (file_at 510 (some 2)) (read disk volume 4 (file_at 510 (some 2)))
read-Reads_example =
    read-Reads disk volume chain contents volume-Layout 4 (file_at 510 (some 2)) (omega arith)
      middle-IsOpen

seek-OpenAt_example :
    OpenAt disk volume chain contents volume-Layout
      (file_at 600 none)
      100
      (seek volume true 500 seek_end (file_at 600 none))
unfolding seek_pos
seek-OpenAt_example =
    seek-OpenAt disk volume chain contents volume-Layout (file_at 600 none) true 500 seek_end
      (omega arith) (inl (omega arith)) end-IsOpen

read-seek_example :
    (file' : File) × (seek volume false 80 seek_cur (file_at 510 (some 2)) ≡ some file')
    × (l : List ℕ) × (file'' : File) × (read disk volume 3 file' ≡ got l file'')
    × (l ≡ slice 512 chain contents 590 (min 3 10))
unfolding seek_pos
read-seek_example =
    read-seek disk volume chain contents volume-Layout (file_at 510 (some 2)) false 80 seek_cur 3
      (omega arith) (inr (2, refl)) middle-IsOpen

seek-stuck_run :
    (seek volume true 10 seek_end (file_at 600 none) ≡ some (file_at 590 none))
    × (read disk volume 4 (file_at 590 none) ≡ got [] (file_at 590 none))
unfolding seek_pos
seek-stuck_run =
    seek-stuck disk volume chain contents volume-Layout (file_at 600 none) true 10 seek_end 4 refl
      refl
