-- ===== src/Fsmem/Shared.antt =====
-- A file of fsmem.c that is open twice: what one writes, the other reads.
use pcboot.Prelude.{
  ℕ, zero, suc, ◌+◌, ◌-◌, ◌≤◌, ◌≡◌, refl, ap, ◌∙◌, min, List, [], ◌∷◌, ◌++◌, Option, none, some,
  arith, length, length-append, length-take, take, drop,
}
use pcboot.Fat.{Bytes}
use pcboot.Fsmem.{MemFile, given, read, write}
use pcboot.Fsmem.Copy.{length-copy}
use pcboot.Fsmem.Content.{Realloc, Keeps, IsValid, content, Written, read-content, write-Written}

drop_front : (a x : List ℕ) (n : ℕ) → n ≡ length a → drop n (a ++ x) ≡ x
drop_front [] x zero e = refl
drop_front [] x (suc n) e = absurd (omega (arith, e))
drop_front (c ∷ a) x zero e = absurd (omega (arith, e))
drop_front (c ∷ a) x (suc n) e = drop_front a x n (omega (arith, e))

take_front : (a x : List ℕ) → take (length a) (a ++ x) ≡ a
take_front [] x = refl
take_front (c ∷ a) x = ap (λ l. c ∷ l) (take_front a x)

read-Written :
    (file : MemFile) (cur_pos : ℕ) (buf : List ℕ) (r : MemFile × ℕ)
    → cur_pos ≤ file.size
    → Written file cur_pos buf (some r)
    → read r.0 cur_pos (length buf) ≡ given buf r.1
read-Written file cur_pos buf r h (bytes, at_end, v) =
    let l = content file in
    let front : cur_pos ≡ length (take cur_pos l) =
      omega (arith, h, length-take cur_pos l, length-copy file.data_bytes 0 file.size) in
    let size : r.0.size ≡ cur_pos + (length buf + length (drop (cur_pos + length buf) l)) = omega (
      arith,
      length-copy r.0.data_bytes 0 r.0.size,
      ap length bytes,
      length-append (take cur_pos l) (buf ++ drop (cur_pos + length buf) l),
      length-append buf (drop (cur_pos + length buf) l),
      front,
    ) in
    let rest : drop cur_pos (content r.0) ≡ buf ++ drop (cur_pos + length buf) l =
      ap (drop cur_pos) bytes
      ∙ drop_front (take cur_pos l) (buf ++ drop (cur_pos + length buf) l) cur_pos front in
    let all : take (length buf) (drop cur_pos (content r.0)) ≡ buf =
      ap (take (length buf)) rest ∙ take_front buf (drop (cur_pos + length buf) l) in
    let count : cur_pos + min (length buf) (r.0.size - cur_pos) ≡ r.1 =
      omega (arith, size, at_end) in
    read-content r.0 cur_pos (length buf) (omega (arith, size))
    ∙ ap (λ b. given b (cur_pos + min (length buf) (r.0.size - cur_pos))) all
    ∙ ap (given buf) count

stored :
    (file : MemFile) (cur_pos : ℕ) (buf : List ℕ) (o : Option (MemFile × ℕ))
    → cur_pos ≤ file.size
    → Written file cur_pos buf o
    → (r : MemFile × ℕ) × (o ≡ some r) × (read r.0 cur_pos (length buf) ≡ given buf r.1)
stored file cur_pos buf none h w = absurd w
stored file cur_pos buf (some r) h w = (r, refl, read-Written file cur_pos buf r h w)

-- What was written at a position within the file, or at its end, is read from there, at whatever position the file
-- was opened.
pub read-write :
    (realloc : Realloc) (file : MemFile) (cur_pos : ℕ) (buf : List ℕ)
    → Keeps realloc
    → ((m : Bytes) (old_size size : ℕ) → (m' : Bytes) × (realloc m old_size size ≡ some m'))
    → IsValid file
    → cur_pos ≤ file.size
    → (r : MemFile × ℕ) × (write realloc file cur_pos buf ≡ some r)
      × (read r.0 cur_pos (length buf) ≡ given buf r.1)
read-write realloc file cur_pos buf keeps given_memory v h =
    stored file cur_pos buf (write realloc file cur_pos buf) h
      (write-Written realloc file cur_pos buf keeps given_memory v h)
