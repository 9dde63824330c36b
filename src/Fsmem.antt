-- ===== src/Fsmem.antt =====
-- src/fsmem.c: the contents of files in memory. A file is shared by all that opened it; each has a position of its
-- own. Buffers are not null, counts are not negative, and sizes stay below 2^31. What `realloc` gives is an argument:
-- nothing, or memory. Tree models the directories.
pub mod Copy
pub mod Content
pub mod Shared
pub mod Tree
mod Tests
use pcboot.Prelude.{
  ℕ, zero, suc, ◌+◌, ◌-◌, ◌*◌, min, Bool, true, false, ◌&&◌, List, [], ◌∷◌, Option, none, some, ltb,
  leb, ◌==◌, if◌then◌else◌, length, get_or,
}
use pcboot.Fat.{Bytes, copy}
use pcboot.Fs.{Whence, seek_set, seek_cur, seek_end}

-- `struct memfs_file`
pub record MemFile : Type 0 where
  pub data_bytes : Bytes
  pub size : ℕ
  pub max_size : ℕ

-- `memcpy` of a buffer to `pos`
abbrev pub paste : Bytes → (pos : ℕ) → List ℕ → Bytes
paste m pos buf i = if leb pos i && ltb i (pos + length buf) then get_or buf (i - pos) 0 else m i

pub fsize : MemFile → ℕ
fsize file = file.size

pub seek_base : Whence → MemFile → (cur_pos : ℕ) → ℕ
seek_base seek_set file cur_pos = 0
seek_base seek_cur file cur_pos = cur_pos
seek_base seek_end file cur_pos = file.size

-- The offset is added or, if `back`, taken away; a position below 0 becomes 0.
pub seek : (back : Bool) (offs : ℕ) → Whence → MemFile → (cur_pos : ℕ) → ℕ
seek back offs whence file cur_pos =
    let base = seek_base whence file cur_pos in if back then base - offs else base + offs

-- What `read` copies, with the new position; or a copy of a negative length.
pub data Given : Type 0 where
  given : List ℕ → (cur_pos : ℕ) → Given
  negative : Given

pub read : MemFile → (cur_pos sz : ℕ) → Given
read file cur_pos sz =
    let len = min sz (file.size - cur_pos) in
    if ltb file.size cur_pos
    then negative
    else given (copy file.data_bytes cur_pos len) (cur_pos + len)

-- The size that a write makes room for
pub new_max_size : (total_sz max_size : ℕ) → ℕ
new_max_size total_sz max_size = if ltb total_sz (max_size * 2) then max_size * 2 else total_sz

-- The end of `write`, where there is room
pub store_bytes : MemFile → (cur_pos : ℕ) → List ℕ → MemFile × ℕ
store_bytes file cur_pos buf =
    let end = cur_pos + length buf in
    (
      record file {
        data_bytes = paste file.data_bytes cur_pos buf;
        size = if ltb file.size end then end else file.size;
      },
      end,
    )

-- `none` is the error ENOSPC.
pub grown : (max_size : ℕ) → Option Bytes → MemFile → Option MemFile
grown max_size none file = none
grown max_size (some m) file = some (record file { data_bytes = m; max_size = max_size })

pub write :
    (realloc : Bytes → (old_size size : ℕ) → Option Bytes)
    → MemFile
    → (cur_pos : ℕ) → List ℕ
    → Option (MemFile × ℕ)
write realloc file cur_pos buf =
    let total_sz = cur_pos + length buf in
    let max_size = new_max_size total_sz file.max_size in
    let room : Option MemFile =
      grown max_size (realloc file.data_bytes file.max_size max_size) file in
    let stored : Option (MemFile × ℕ) = elim room [
      | none ↦ none
      | some file' ↦ some (store_bytes file' cur_pos buf)
    ] in
    if ltb file.max_size total_sz then stored else some (store_bytes file cur_pos buf)
