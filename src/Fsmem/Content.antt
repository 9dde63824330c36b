-- ===== src/Fsmem/Content.antt =====
-- Reading and writing a file of fsmem.c, as the list of its bytes.
use pcboot.Prelude.{
  ℕ, zero, suc, ◌+◌, ◌-◌, ◌≤◌, ◌<◌, ◌≡◌, refl, sym, ap, ◌∙◌, min, false, List, ◌∷◌, ◌++◌, Option,
  none, some, ltb, leb, if◌then◌else◌, arith, length, take, drop, Bool-cases, inl, inr,
}
use pcboot.Fat.{Bytes, copy}
use pcboot.Fsmem.{MemFile, paste, given, read, new_max_size, store_bytes, grown, write}
use pcboot.Fsmem.Copy.{
  copy-add, copy-agree, length-copy, take-copy, drop-copy, drop_all, copy-paste, paste_before,
  paste_behind,
}

abbrev pub Realloc : Type 0
Realloc = Bytes → (old_size size : ℕ) → Option Bytes

-- `realloc` keeps the bytes that there were.
abbrev pub Keeps : Realloc → Type 0
Keeps realloc =
    (m m' : Bytes) (old_size size : ℕ)
    → realloc m old_size size ≡ some m'
    → old_size ≤ size
    → (i : ℕ) → i < old_size
    → m' i ≡ m i

abbrev pub IsValid : MemFile → Type 0
IsValid file = file.size ≤ file.max_size

abbrev pub content : MemFile → List ℕ
content file = copy file.data_bytes 0 file.size

-- `buf` in place of what stands at `pos`, or behind the end
abbrev pub overwrite : (pos : ℕ) → List ℕ → List ℕ → List ℕ
overwrite pos buf l = take pos l ++ (buf ++ drop (pos + length buf) l)

take_front : (m : Bytes) (o sz n : ℕ) → take sz (copy m o n) ≡ copy m o (min sz n)
take_front m o zero n = ap (copy m o) {x = 0} (omega arith)
take_front m o (suc sz) zero = ap (copy m o) {x = 0} (omega arith)
take_front m o (suc sz) (suc n) =
    let e : suc (min sz n) ≡ min (suc sz) (suc n) = omega arith in
    ap (λ l. m o ∷ l) (take_front m (o + 1) sz n) ∙ ap (copy m o) e

drop_rest : (m : Bytes) (n size : ℕ) → drop n (copy m 0 size) ≡ copy m n (size - n)
drop_rest m n size = elim (Bool-cases (leb n size)) [
  | inl within ↦
      let split : size ≡ n + (size - n) = ground (arith, within) in
      ap (λ k. drop n (copy m 0 k)) split
      ∙ drop-copy m 0 n (size - n)
      ∙ ap (λ o. copy m o (size - n)) {x = 0 + n} (omega arith)
  | inr past ↦
      let nothing : 0 ≡ size - n = ground (arith, past) in
      drop_all n (copy m 0 size) (ground (arith, past, length-copy m 0 size))
      ∙ ap (copy m n) nothing
]

take_rest : (m : Bytes) (n size : ℕ) → n ≤ size → take n (copy m 0 size) ≡ copy m 0 n
take_rest m n size h =
    let split : size ≡ n + (size - n) = omega (arith, h) in
    ap (λ k. take n (copy m 0 k)) split ∙ take-copy m 0 n (size - n)

store_bytes-content :
    (file : MemFile) (pos : ℕ) (buf : List ℕ)
    → pos ≤ file.size
    → content (store_bytes file pos buf).0 ≡ overwrite pos buf (content file)
unfolding store_bytes
store_bytes-content file pos buf h =
    let m = file.data_bytes in
    let m' = paste m pos buf in
    let n = length buf in
    let tail = file.size - (pos + n) in
    let size : (if ltb file.size (pos + n) then pos + n else file.size) ≡ pos + (n + tail) =
      ground (arith, h) in
    let before : copy m' 0 pos ≡ copy m 0 pos =
      copy-agree m' m 0 pos (λ i le less. paste_before m pos buf i (omega (arith, less))) in
    let after : copy m' (pos + n) tail ≡ copy m (pos + n) tail =
      copy-agree m' m (pos + n) tail (λ i le less. paste_behind m pos buf i le) in
    ap (copy m' 0) size
    ∙ copy-add m' 0 pos (n + tail)
    ∙ ap (λ l. l ++ copy m' (0 + pos) (n + tail)) before
    ∙ ap (λ o. copy m 0 pos ++ copy m' o (n + tail)) {x = 0 + pos} (omega arith)
    ∙ ap (λ l. copy m 0 pos ++ l) (copy-add m' pos n tail)
    ∙ ap (λ l. copy m 0 pos ++ (l ++ copy m' (pos + n) tail)) (copy-paste m pos buf)
    ∙ ap (λ l. copy m 0 pos ++ (buf ++ l)) after
    ∙ ap (λ l. l ++ (buf ++ copy m (pos + n) tail)) (sym (take_rest m pos file.size h))
    ∙ ap (λ l. take pos (content file) ++ (buf ++ l)) (sym (drop_rest m (pos + n) file.size))

-- Within the file, or at its end, `read` gives the next bytes of the content and moves by their number.
pub read-content :
    (file : MemFile) (cur_pos sz : ℕ)
    → cur_pos ≤ file.size
    → read file cur_pos sz
      ≡ given (take sz (drop cur_pos (content file))) (cur_pos + min sz (file.size - cur_pos))
unfolding read
read-content file cur_pos sz h =
    let inside : ltb file.size cur_pos ≡ false = ground (arith, h) in
    let n = file.size - cur_pos in
    let rest : drop cur_pos (content file) ≡ copy file.data_bytes cur_pos n =
      drop_rest file.data_bytes cur_pos file.size in
    let front : take sz (copy file.data_bytes cur_pos n) ≡ copy file.data_bytes cur_pos (min sz n) =
      take_front file.data_bytes cur_pos sz n in
    rw (inside, rest, front) refl

-- What a write gives if there is room: the content is overwritten at the position, which moves behind it, and the
-- file stays within its memory.
abbrev pub Written : MemFile → (cur_pos : ℕ) → List ℕ → Option (MemFile × ℕ) → Type 0
Written file cur_pos buf none = ⊥
Written file cur_pos buf (some r) =
    (content r.0 ≡ overwrite cur_pos buf (content file))
    × (r.1 ≡ cur_pos + length buf)
    × IsValid r.0

room-Written :
    (file file' : MemFile) (cur_pos : ℕ) (buf : List ℕ)
    → cur_pos ≤ file.size
    → file'.size ≡ file.size
    → content file' ≡ content file
    → file.size ≤ file'.max_size
    → cur_pos + length buf ≤ file'.max_size
    → Written file cur_pos buf (some (store_bytes file' cur_pos buf))
unfolding store_bytes
room-Written file file' cur_pos buf h same same' fits fits' = (
  store_bytes-content file' cur_pos buf (omega (arith, h, same)) ∙ ap (overwrite cur_pos buf) same',
  refl,
  ground (arith, fits, fits', same),
)

grown-Written :
    (file : MemFile) (cur_pos max_size : ℕ) (buf : List ℕ) (m : Bytes)
    → cur_pos ≤ file.size
    → file.size ≤ max_size
    → cur_pos + length buf ≤ max_size
    → ((i : ℕ) → i < file.size → m i ≡ file.data_bytes i)
    → Written file cur_pos buf
        (some (store_bytes (record file { data_bytes = m; max_size = max_size }) cur_pos buf))
grown-Written file cur_pos max_size buf m h fits fits' keeps =
    room-Written file (record file { data_bytes = m; max_size = max_size }) cur_pos buf h refl
      (copy-agree m file.data_bytes 0 file.size (λ i le less. keeps i (omega (arith, less)))) fits
      fits'

-- `write` within the file, or at its end, overwrites its content there, if the memory that it asks for is given.
pub write-Written :
    (realloc : Realloc) (file : MemFile) (cur_pos : ℕ) (buf : List ℕ)
    → Keeps realloc
    → ((m : Bytes) (old_size size : ℕ) → (m' : Bytes) × (realloc m old_size size ≡ some m'))
    → IsValid file
    → cur_pos ≤ file.size
    → Written file cur_pos buf (write realloc file cur_pos buf)
unfolding write grown new_max_size
write-Written realloc file cur_pos buf keeps given_memory v h =
    elim (Bool-cases (ltb file.max_size (cur_pos + length buf))) [
      | inr fits ↦ rw fits (room-Written file file cur_pos buf h refl refl v (ground (arith, fits)))
      | inl short ↦
          let total = cur_pos + length buf in
          let max_size = new_max_size total file.max_size in
          let (m', e) = given_memory file.data_bytes file.max_size max_size in
          let enough : total ≤ max_size = ground arith in
          let larger : file.max_size ≤ max_size = ground (arith, short) in
          rw (short, e)
            (grown-Written file cur_pos max_size buf m' h (omega (arith, v, larger)) enough
              (λ i less.
                keeps file.data_bytes m' file.max_size max_size e larger i
                  (omega (arith, less, v))))
    ]
