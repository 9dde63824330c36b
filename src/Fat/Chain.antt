-- ===== src/Fat/Chain.antt =====
-- The chain of clusters that a file has in fsfat.c, and the bytes that it holds.
use mathlib.Core.Option.{some-injective}
use pcboot.Prelude.{
  ℕ, zero, suc, ◌+◌, ◌-◌, ◌*◌, ◌/◌, ◌%◌, ◌^◌, ◌≤◌, ◌<◌, ◌≡◌, refl, sym, ap, ◌∙◌, List, [], ◌∷◌,
  ◌++◌, some, arith, length, get_elem?, get_or,
}
use pcboot.Prelude.Arith.{mod_unique, div_unique}
use pcboot.Fat.{Bytes, FatFs, Disk, next_cluster, find_cluster, read_cluster, copy}

-- `cs` is a chain of the table, whose clusters can be read and hold the bytes of `holds`.
pub record Layout (disk : Disk) (fatfs : FatFs) (cs : List ℕ) (holds : ℕ → Bytes) : Type 0 where
  pub shift : fatfs.cluster_size * 512 ≡ 2 ^ fatfs.clust_shift
  pub mask : fatfs.clust_mask ≡ 2 ^ fatfs.clust_shift - 1
  pub follows :
      (q c c' : ℕ)
      → get_elem? cs q ≡ some c
      → get_elem? cs (suc q) ≡ some c'
      → next_cluster fatfs c ≡ some c'
  pub readable : (q c : ℕ) → get_elem? cs q ≡ some c → read_cluster disk fatfs c ≡ some (holds c)

module _ {ℓ} {A : Type ℓ} where
  pub get_elem?-lt : (l : List A) (q : ℕ) → q < length l → (a : A) × (get_elem? l q ≡ some a)
  get_elem?-lt [] q h = absurd (omega arith)
  get_elem?-lt (a ∷ l) zero h = (a, refl)
  get_elem?-lt (a ∷ l) (suc q) h = get_elem?-lt l q (omega arith)

  pub get_elem?-length : (l : List A) (q : ℕ) (a : A) → get_elem? l q ≡ some a → q < length l
  get_elem?-length [] q a e = cc e
  get_elem?-length (x ∷ l) zero a e = omega arith
  get_elem?-length (x ∷ l) (suc q) a e = omega (arith, get_elem?-length l q a e)

  pub get_or-get_elem? : (l : List A) (q : ℕ) (a d : A) → get_elem? l q ≡ some a → get_or l q d ≡ a
  get_or-get_elem? [] q a d e = cc e
  get_or-get_elem? (x ∷ l) zero a d e = some-injective _ _ e
  get_or-get_elem? (x ∷ l) (suc q) a d e = get_or-get_elem? l q a d e

module _ (disk : Disk) (fatfs : FatFs) (cs : List ℕ) (holds : ℕ → Bytes)
    (lay : Layout disk fatfs cs holds) where
  -- `find_cluster` walks the chain.
  pub find_cluster-get_elem? :
      (n q c c' : ℕ)
      → get_elem? cs q ≡ some c
      → get_elem? cs (q + n) ≡ some c'
      → find_cluster fatfs n c ≡ some c'
  unfolding find_cluster
  find_cluster-get_elem? zero q c c' e e' =
      let same : q + 0 ≡ q = omega arith in sym e ∙ (rw same at e')
  find_cluster-get_elem? (suc n) q c c' e e' =
      let far : q + suc n < length cs = get_elem?-length cs (q + suc n) c' e' in
      let (d, at_d) = get_elem?-lt cs (suc q) (omega (arith, far)) in
      let same : q + suc n ≡ suc q + n = omega arith in
      rw (find_cluster, lay.follows q c d e at_d)
        (find_cluster-get_elem? n (suc q) d c' at_d (rw same at e'))

-- The bytes of a chain of clusters of `cb` bytes, and `n` of them from the position `pos` on.
abbrev pub byte : ℕ → List ℕ → (ℕ → Bytes) → ℕ → ℕ
byte cb cs holds pos = holds (get_or cs (pos / cb) 0) (pos % cb)

abbrev pub slice : ℕ → List ℕ → (ℕ → Bytes) → (pos n : ℕ) → List ℕ
slice cb cs holds pos zero = []
slice cb cs holds pos (suc n) = byte cb cs holds pos ∷ slice cb cs holds (pos + 1) n

module _ (cb : ℕ) (cs : List ℕ) (holds : ℕ → Bytes) where
  pub slice-add :
      (a b pos : ℕ)
      → slice cb cs holds pos (a + b) ≡ slice cb cs holds pos a ++ slice cb cs holds (pos + a) b
  slice-add zero b pos =
      let e : pos + 0 ≡ pos = omega arith in let e' : 0 + b ≡ b = omega arith in rw (e, e') refl
  slice-add (suc a) b pos =
      let e : suc a + b ≡ suc (a + b) = omega arith in
      let e' : pos + suc a ≡ pos + 1 + a = omega arith in
      rw (e, e') (ap (λ l. byte cb cs holds pos ∷ l) (slice-add a b (pos + 1)))

  -- A part of one cluster
  pub copy-slice :
      (len pos q r c : ℕ)
      → pos ≡ cb * q + r
      → r + len ≤ cb
      → get_elem? cs q ≡ some c
      → copy (holds c) r len ≡ slice cb cs holds pos len
  copy-slice zero pos q r c e h at_c = refl
  copy-slice (suc len) pos q r c e h at_c =
      let here : get_or cs (pos / cb) 0 ≡ c =
        ap (λ q. get_or cs q 0) (div_unique cb q r pos e (omega arith))
        ∙ get_or-get_elem? cs q c 0 at_c in
      let offs : pos % cb ≡ r = mod_unique cb q r pos e (omega arith) in
      let tail : copy (holds c) (r + 1) len ≡ slice cb cs holds (pos + 1) len =
        copy-slice len (pos + 1) q (r + 1) c (omega (arith, e)) (omega arith) at_c in
      rw (here, offs, tail) refl
