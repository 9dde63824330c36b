-- ===== src/Fsmem/Copy.antt =====
-- Parts of memory as lists: what fsmem.c copies in and out.
use pcboot.Prelude.{
  ℕ, zero, suc, ◌+◌, ◌≤◌, ◌<◌, ◌≡◌, refl, ap, ◌∙◌, true, false, List, [], ◌∷◌, ◌++◌, ltb, leb,
  arith, length, get_or, take, drop,
}
use pcboot.Fat.{Bytes, copy}
use pcboot.Fsmem.{paste}

pub copy-add : (m : Bytes) (o a b : ℕ) → copy m o (a + b) ≡ copy m o a ++ copy m (o + a) b
copy-add m o zero b =
    let e : 0 + b ≡ b = omega arith in let e' : o + 0 ≡ o = omega arith in rw (e, e') refl
copy-add m o (suc a) b =
    let e : suc a + b ≡ suc (a + b) = omega arith in
    let e' : o + suc a ≡ o + 1 + a = omega arith in
    rw (e, e') (ap (λ l. m o ∷ l) (copy-add m (o + 1) a b))

pub copy-agree :
    (m m' : Bytes) (o n : ℕ) → ((i : ℕ) → o ≤ i → i < o + n → m i ≡ m' i) → copy m o n ≡ copy m' o n
copy-agree m m' o zero h = refl
copy-agree m m' o (suc n) h =
    let here : m o ≡ m' o = h o (omega arith) (omega arith) in
    rw
      (here, copy-agree m m' (o + 1) n (λ i le less. h i (omega (arith, le)) (omega (arith, less))))
      refl

pub length-copy : (m : Bytes) (o n : ℕ) → length (copy m o n) ≡ n
length-copy m o zero = refl
length-copy m o (suc n) = ap suc (length-copy m (o + 1) n)

pub take-copy : (m : Bytes) (o n k : ℕ) → take n (copy m o (n + k)) ≡ copy m o n
take-copy m o zero k = refl
take-copy m o (suc n) k =
    let e : suc n + k ≡ suc (n + k) = omega arith in
    rw e (ap (λ l. m o ∷ l) (take-copy m (o + 1) n k))

pub drop-copy : (m : Bytes) (o n k : ℕ) → drop n (copy m o (n + k)) ≡ copy m (o + n) k
drop-copy m o zero k =
    let e : 0 + k ≡ k = omega arith in let e' : o + 0 ≡ o = omega arith in rw (e, e') refl
drop-copy m o (suc n) k =
    let e : suc n + k ≡ suc (n + k) = omega arith in
    let e' : o + suc n ≡ o + 1 + n = omega arith in rw (e, e') (drop-copy m (o + 1) n k)

pub drop_all : (n : ℕ) (l : List ℕ) → length l ≤ n → drop n l ≡ []
drop_all zero [] h = refl
drop_all zero (a ∷ l) h = absurd (omega (arith, h))
drop_all (suc n) [] h = refl
drop_all (suc n) (a ∷ l) h = drop_all n l (omega (arith, h))

-- A buffer is read back where it was pasted, and the rest is as before.
copy-get_or :
    (m : Bytes) (o : ℕ) (buf : List ℕ)
    → ((i : ℕ) → i < length buf → m (o + i) ≡ get_or buf i 0)
    → copy m o (length buf) ≡ buf
copy-get_or m o [] h = refl
copy-get_or m o (c ∷ buf) h =
    let here : m o ≡ c = ap m {x = o} (omega arith) ∙ h 0 (omega arith) in
    let rest : copy m (o + 1) (length buf) ≡ buf =
      copy-get_or m (o + 1) buf
        (λ i less. ap m {x = o + 1 + i} (omega arith) ∙ h (suc i) (omega (arith, less))) in
    rw (here, rest) refl

paste_in :
    (m : Bytes) (pos : ℕ) (buf : List ℕ) (i : ℕ)
    → i < length buf
    → paste m pos buf (pos + i) ≡ get_or buf i 0
paste_in m pos buf i h =
    let above : leb pos (pos + i) ≡ true = ground arith in
    let below : ltb (pos + i) (pos + length buf) ≡ true = ground (arith, h) in
    rw (above, below) (ap (λ k. get_or buf k 0) (omega arith))

pub copy-paste :
    (m : Bytes) (pos : ℕ) (buf : List ℕ) → copy (paste m pos buf) pos (length buf) ≡ buf
copy-paste m pos buf = copy-get_or (paste m pos buf) pos buf (paste_in m pos buf)

pub paste_before : (m : Bytes) (pos : ℕ) (buf : List ℕ) (i : ℕ) → i < pos → paste m pos buf i ≡ m i
paste_before m pos buf i h = let out : leb pos i ≡ false = ground (arith, h) in rw out refl

pub paste_behind :
    (m : Bytes) (pos : ℕ) (buf : List ℕ) (i : ℕ) → pos + length buf ≤ i → paste m pos buf i ≡ m i
paste_behind m pos buf i h =
    let in' : leb pos i ≡ true = ground (arith, h) in
    let out : ltb i (pos + length buf) ≡ false = ground (arith, h) in rw (in', out) refl
