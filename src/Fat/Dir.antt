-- ===== src/Fat/Dir.antt =====
-- src/fsfat.c: the directories of a FAT file system. A directory is its bytes with its number of
-- entries, 32 bytes each, and a pointer to an entry is its index plus one: `prev_dent` starts in front
-- of the first entry, at 0. Names are not cut to the 195 bytes of the buffer that they are built in.
pub mod Names
pub mod Long
pub mod Load
pub mod Listing
mod Tests
use pcboot.Prelude.{
  ℕ, zero, suc, ◌+◌, ◌-◌, ◌*◌, ◌/◌, ◌%◌, ◌^◌, Bool, true, false, not, ◌&&◌, ◌||◌, List, [], ◌∷◌,
  ◌++◌, Option, none, some, ltb, leb, ◌==◌, if◌then◌else◌, bit_and, length, get_elem?,
}
use pcboot.Prelude.Int.{ℤ, pos, negsuc}
use pcboot.Strings.{isspace, strcasecmp, is_zero}
use pcboot.Fs.{Kind, fsnode_file, fsnode_dir}
use pcboot.Fat.{
  Bytes, le16, le32, FatType, fat12, fat16, fat32, exfat, FatFs, Disk, read_cluster, next_cluster,
  copy,
}

-- The string that starts `l`, up to a 0
abbrev pub text : List ℕ → List ℕ
text [] = []
text (c ∷ s) = let rest = text s in if c == 0 then [] else c ∷ rest

-- The blanks at the end are cut off.
pub clean_trailws : List ℕ → List ℕ
clean_trailws [] = []
clean_trailws (c ∷ s) = elim (clean_trailws s) [
  | [] ↦ if isspace c then [] else c ∷ []
  | d ∷ rest ↦ c ∷ d ∷ rest
]

-- `struct fat_dirent` at the index `i`: its bytes
abbrev pub dent : Bytes → ℕ → Bytes
dent ent i off = ent (32 * i + off)

abbrev pub attr : Bytes → ℕ → ℕ
attr ent i = dent ent i 11

abbrev pub attr_volid : ℕ
attr_volid = 0x08

abbrev pub attr_dir : ℕ
attr_dir = 0x10

abbrev pub attr_lfn : ℕ
attr_lfn = 0xf

abbrev pub dirent_unused : ℕ
dirent_unused = 0xe5

-- `struct fat_lfnent`: the units of its three parts
abbrev pub units : Bytes → (off n : ℕ) → List ℕ
units m off zero = []
units m off (suc n) = le16 m off ∷ units m (off + 2) n

abbrev pub lfn_units : Bytes → List ℕ
lfn_units m = units m 1 5 ++ units m 14 6 ++ units m 28 2

-- The low bytes of the units before a 0
pub lfn_chars : List ℕ → List ℕ
lfn_chars [] = []
lfn_chars (u ∷ us) = let rest = lfn_chars us in if u == 0 then [] else u % 2 ^ 8 ∷ rest

-- The loop over the entries of a long name, from the one with the index `p - 1` down to `prev`.
pub lfn_loop : Bytes → (prev p : ℕ) → List ℕ
lfn_loop ent prev zero = []
lfn_loop ent prev (suc i) =
    let chars = lfn_chars (lfn_units (dent ent i)) in
    let rest = lfn_loop ent prev i in
    if ltb (length chars) 13 || bit_and (dent ent i 0) 0xf0 == 0x40
    then chars
    else if ltb prev i && attr ent (i - 1) == attr_lfn
    then chars ++ rest
    else chars

pub short_name : Bytes → List ℕ
short_name d =
    let base = clean_trailws (text (copy d 0 8)) in
    let ext = clean_trailws (text (copy d 8 3)) in
    if length base == 0
    then []
    else if not (d 8 == 0) && not (d 8 == 32)
    then base ++ 0x2e ∷ ext
    else base

-- The entry with the index `i`. The result is what `buf` holds, and its length is what is returned.
pub dent_filename : Bytes → (i prev : ℕ) → List ℕ
dent_filename ent i prev =
    if ltb prev i && attr ent (i - 1) == attr_lfn
    then lfn_loop ent prev i
    else short_name (dent ent i)

-- `struct fs_dirent`, with the index of the entry for `data`.
pub record FsDirent : Type 0 where
  pub name : List ℕ
  pub data_index : ℕ
  pub type_of : Kind
  pub fsize : ℕ

pub fs_dirent : Bytes → (i prev : ℕ) → FsDirent
fs_dirent ent i prev = record {
  name = text (dent_filename ent i prev);
  data_index = i;
  type_of = if bit_and (attr ent i) attr_dir == 0 then fsnode_file else fsnode_dir;
  fsize = le32 (dent ent i) 28;
}

abbrev pub is_listed : Bytes → (i prev : ℕ) → Bool
is_listed ent i prev =
    not (dent ent i 0 == dirent_unused)
    && not (attr ent i == attr_volid)
    && not (attr ent i == attr_lfn)
    && ltb 0 (length (dent_filename ent i prev))

-- The loop of `parse_dir_entries`, with `left` entries left.
pub parse_loop : Bytes → (left i prev : ℕ) → List FsDirent
parse_loop ent zero i prev = []
parse_loop ent (suc left) i prev =
    let prev' = if attr ent i == attr_lfn then prev else i + 1 in
    let rest = parse_loop ent left (i + 1) prev' in
    if dent ent i 0 == 0
    then []
    else if is_listed ent i prev
    then fs_dirent ent i prev ∷ rest
    else rest

-- `struct fat_dir`
pub record FatDir : Type 0 where
  pub ent : Bytes
  pub max_nent : ℕ
  pub fsent : List FsDirent
  pub cur_ent : ℕ
  pub ref : ℕ

unfoldable pub parse_dir_entries : Bytes → (max_nent : ℕ) → FatDir
parse_dir_entries ent max_nent = record {
  ent = ent;
  max_nent = max_nent;
  fsent = parse_loop ent max_nent 0 0;
  cur_ent = 0;
  ref = 0;
}

pub find_entry : List FsDirent → List ℕ → Option FsDirent
find_entry [] name = none
find_entry (dent ∷ fsent) name =
    let rest = find_entry fsent name in
    if is_zero (strcasecmp dent.name name) then some dent else rest

pub rewinddir : FatDir → FatDir
rewinddir dir = record dir { cur_ent = 0 }

pub readdir : FatDir → Option FsDirent × FatDir
readdir dir =
    if leb (length dir.fsent) dir.cur_ent
    then (none, dir)
    else (get_elem? dir.fsent dir.cur_ent, record dir { cur_ent = dir.cur_ent + 1 })

-- What `load_dir` gives: the directory, nothing if a cluster cannot be read or the entry is no
-- directory, a panic if realloc does not give the buffer, or no result within the fuel. The allocations behind the
-- loop, which are small, are taken to succeed.
pub data Loaded : Type 0 where
  loaded : FatDir → Loaded
  failed : Loaded
  no_memory : Loaded
  out_of_fuel : Loaded

-- The bytes of the clusters behind those that are read already
abbrev pub join : (bufsz : ℕ) → Bytes → Bytes → Bytes
join bufsz buf clust i = if ltb i bufsz then buf i else clust (i - bufsz)

-- The loop of `load_dir`, on fuel.
pub load_loop : (fuel : ℕ) → Disk → FatFs → (addr bufsz : ℕ) → Bytes → Loaded
load_loop zero disk fatfs addr bufsz buf = out_of_fuel
load_loop (suc fuel) disk fatfs addr bufsz buf =
    let bufsz' = bufsz + fatfs.cluster_size * 512 in
    elim (disk.realloc_gives bufsz') [
      | false ↦ no_memory
      | true ↦ elim (read_cluster disk fatfs addr) [
        | none ↦ failed
        | some clust ↦
            let buf' = join bufsz buf clust in
            elim (next_cluster fatfs addr) [
              | none ↦ loaded (parse_dir_entries buf' (bufsz' / 32))
              | some addr' ↦ load_loop fuel disk fatfs addr' bufsz' buf'
            ]
      ]
    ]

-- The address of the entry, without the high word unless the volume has one
pub dir_addr : FatType → (first_cluster_low first_cluster_high : ℕ) → ℕ
dir_addr fat12 low high = low
dir_addr fat16 low high = low
dir_addr fat32 low high = low + high * 2 ^ 16
dir_addr exfat low high = low + high * 2 ^ 16

pub load_dir : (fuel : ℕ) → Disk → FatFs → (attr first_cluster_low first_cluster_high : ℕ) → Loaded
load_dir fuel disk fatfs attr low high =
    if bit_and attr attr_dir == 0
    then failed
    else load_loop fuel disk fatfs (dir_addr fatfs.kind low high) 0 (λ i. 0)
