-- ===== src/Fat/Advance.antt =====
-- A round of the loop of `read` in fsfat.c, on a file whose chain of clusters is long enough.
use mathlib.Core.Option.{some-injective}
use native.Mathlib.Nat.{div-eq_of_lt, div-add-mod, mod-lt, lt_of_mul-lt-mul_left, mul-suc}
use pcboot.Prelude.{
  ℕ, suc, ◌+◌, ◌-◌, ◌*◌, ◌/◌, ◌%◌, ◌^◌, ◌≤◌, ◌<◌, ◌≡◌, ◌≢◌, refl, sym, ap, ◌∙◌, true, false, List,
  ◌++◌, Option, none, some, ltb, leb, ◌==◌, arith, length, get_elem?, min, Bool-cases, inl, inr,
}
use pcboot.Prelude.Arith.{div_unique}
use pcboot.Prelude.Bits.{pow_pos}
use pcboot.Fat.{
  Bytes, FatFs, Disk, File, init_file, Copied, got, bad_copy, out_of_fuel, more, fill_buf, Round,
  last, negative, again, next_round, next_cluster, copy,
}
use pcboot.Fat.Chain.{Layout, slice, slice-add, copy-slice, get_elem?-lt}

-- The cluster of the position, or the end of the file.
abbrev pub AtClust : ℕ → List ℕ → File → Option ℕ → Type 0
AtClust cb cs file none = file.size_bytes ≤ file.cur_pos
AtClust cb cs file (some c) = get_elem? cs (file.cur_pos / cb) ≡ some c

-- What holds of an open file between two calls.
pub record IsOpen (cb : ℕ) (cs : List ℕ) (holds : ℕ → Bytes) (file : File) : Type 0 where
  pub first : get_elem? cs 0 ≡ some file.first_clust
  pub enough : file.size_bytes ≤ cb * length cs
  pub at_clust : AtClust cb cs file file.cur_clust
  pub buffer : (c : ℕ) → file.buf_valid ≡ true → file.cur_clust ≡ some c → file.clustbuf ≡ holds c

-- A file that `open` gives.
pub init_file-IsOpen :
    (cb : ℕ) (cs : List ℕ) (holds : ℕ → Bytes) (low high size_bytes : ℕ) (clustbuf : Bytes)
    → get_elem? cs 0 ≡ some (low + high * 2 ^ 16)
    → size_bytes ≤ cb * length cs
    → 0 < cb
    → IsOpen cb cs holds (init_file low high size_bytes clustbuf)
unfolding init_file
init_file-IsOpen cb cs holds low high size_bytes clustbuf first enough h = record {
  first = first;
  enough = enough;
  at_clust = ap (get_elem? cs) (div-eq_of_lt h) ∙ first;
  buffer = λ c valid. cc valid;
}

-- `n` bytes from the position on, as far as the file goes.
abbrev pub Reads :
    (cb : ℕ) (cs : List ℕ) (holds : ℕ → Bytes) (n : ℕ) (file : File) → Copied → Type 0
Reads cb cs holds n file (got l file') =
    let len = min n (file.size_bytes - file.cur_pos) in
    (l ≡ slice cb cs holds file.cur_pos len)
    × (file'.cur_pos ≡ file.cur_pos + len)
    × (file'.size_bytes ≡ file.size_bytes)
    × IsOpen cb cs holds file'
Reads cb cs holds n file bad_copy = ⊥
Reads cb cs holds n file out_of_fuel = ⊥

-- A round of the loop reads a byte at least, and what is left of `n` bytes is for the next one.
abbrev pub Progress :
    (cb : ℕ) (cs : List ℕ) (holds : ℕ → Bytes) (n : ℕ) (file : File) → Round → Type 0
Progress cb cs holds n file (last l file') = Reads cb cs holds n file (got l file')
Progress cb cs holds n file negative = ⊥
Progress cb cs holds n file (again l len idx clust file') =
    (0 < len)
    × (len ≤ min n (file.size_bytes - file.cur_pos))
    × (l ≡ slice cb cs holds file.cur_pos len)
    × (file'.cur_pos ≡ file.cur_pos + len)
    × (file'.size_bytes ≡ file.size_bytes)
    × (idx ≡ file'.cur_pos / cb)
    × (file'.cur_clust ≡ some clust)
    × IsOpen cb cs holds file'

module _ (disk : Disk) (fatfs : FatFs) (cs : List ℕ) (holds : ℕ → Bytes)
    (lay : Layout disk fatfs cs holds) where
  abbrev cb : ℕ
  cb = 2 ^ fatfs.clust_shift

  pub fill_buf_lem :
      (q clust : ℕ) (file : File)
      → get_elem? cs q ≡ some clust
      → (file.buf_valid ≡ true → file.clustbuf ≡ holds clust)
      → fill_buf disk fatfs clust file ≡ record file { clustbuf = holds clust; buf_valid = true }
  unfolding fill_buf
  fill_buf_lem q clust file at_c valid = elim (Bool-cases file.buf_valid) [
    | inl full ↦ rw full λ i. record file { clustbuf = valid full i; buf_valid = true }
    | inr empty ↦ rw (empty, lay.readable q clust at_c) refl
  ]

  -- The part of a round that is copied goes with what the rest of the loop reads.
  pub more-Reads :
      (n len : ℕ) (file file' : File) (r : Copied)
      → len ≤ min n (file.size_bytes - file.cur_pos)
      → file'.cur_pos ≡ file.cur_pos + len
      → file'.size_bytes ≡ file.size_bytes
      → Reads cb cs holds (n - len) file' r
      → Reads cb cs holds n file (more (slice cb cs holds file.cur_pos len) r)
  more-Reads n len file file' (got l f) le at_pos size (bytes, pos, size', opened) =
      let whole : min n (file.size_bytes - file.cur_pos)
          ≡ len + min (n - len) (file'.size_bytes - file'.cur_pos) =
        ground (arith, at_pos, size) in
      (
        ap (λ l. slice cb cs holds file.cur_pos len ++ l) bytes
            ∙ ap
                (λ p.
                  slice cb cs holds file.cur_pos len
                  ++ slice cb cs holds p (min (n - len) (file'.size_bytes - file'.cur_pos)))
                at_pos
            ∙ sym (
                slice-add cb cs holds len (min (n - len) (file'.size_bytes - file'.cur_pos))
                  file.cur_pos)
            ∙ ap (slice cb cs holds file.cur_pos) (sym whole),
        omega (arith, pos, at_pos, whole),
        size' ∙ size,
        opened,
      )
  more-Reads n len file file' bad_copy le at_pos size r = r
  more-Reads n len file file' out_of_fuel le at_pos size r = r

  -- Behind a part of a cluster is the same cluster, or the next one.
  after_part :
      (pos len : ℕ)
      → len ≤ cb - pos % cb
      → (pos + len) / cb ≢ pos / cb
      → pos + len ≡ cb * suc (pos / cb)
  after_part pos len h ne =
      let split : cb * (pos / cb) + pos % cb ≡ pos = div-add-mod pos cb in
      let inside : pos % cb < cb = mod-lt pos (pow_pos fatfs.clust_shift) in
      elim (Bool-cases (ltb (pos % cb + len) cb)) [
        | inl part ↦ absurd (
            ne (
              div_unique cb (pos / cb) (pos % cb + len) (pos + len) (omega (arith, split))
                (ground arith)))
        | inr whole ↦
            let e : pos % cb + len ≡ cb = ground (arith, inside, whole) in
            omega (arith, split, mul-suc cb (pos / cb), e)
      ]

  abbrev pub filled : ℕ → File → File
  filled clust file = record file { clustbuf = holds clust; buf_valid = true }

  module _ (n clust : ℕ) (file : File) (at_c : file.cur_clust ≡ some clust)
      (pos : file.cur_pos ≤ file.size_bytes) (v : IsOpen cb cs holds file) where
    pub at_pos : get_elem? cs (file.cur_pos / cb) ≡ some clust
    at_pos = rw at_c at (v.at_clust)

    pub filled-IsOpen : IsOpen cb cs holds (filled clust file)
    filled-IsOpen = record {
      first = v.first;
      enough = v.enough;
      at_clust = v.at_clust;
      buffer = λ c valid e. ap holds (some-injective _ _ (sym at_c ∙ e));
    }

    -- A part of the cluster of the position, within the file
    module _ (len : ℕ) (some_bytes : file.cur_pos < file.size_bytes → 0 < len)
        (le : len ≤ min n (file.size_bytes - file.cur_pos))
        (in_clust : len ≤ cb - file.cur_pos % cb) where
      pub copy-part :
          copy (holds clust) (file.cur_pos % cb) len ≡ slice cb cs holds file.cur_pos len
      copy-part =
          copy-slice cb cs holds len file.cur_pos (file.cur_pos / cb) (file.cur_pos % cb) clust
            (sym (div-add-mod file.cur_pos cb))
            (omega (arith, in_clust, mod-lt file.cur_pos (pow_pos fatfs.clust_shift))) at_pos

      ends :
          file.size_bytes ≤ file.cur_pos + len
          → Reads cb cs holds n file (
              got
                (slice cb cs holds file.cur_pos len)
                (record file { cur_pos = file.cur_pos + len; cur_clust = none; buf_valid = false }))
      ends last_byte =
          let whole : len ≡ min n (file.size_bytes - file.cur_pos) = ground arith in
          (
            ap (slice cb cs holds file.cur_pos) whole,
            ap (λ k. file.cur_pos + k) whole,
            refl,
            record {
              first = v.first;
              enough = v.enough;
              at_clust = last_byte;
              buffer = λ c valid. cc valid;
            },
          )

      stays :
          (file.cur_pos + len) / cb ≡ file.cur_pos / cb
          → IsOpen cb cs holds (record file { cur_pos = file.cur_pos + len })
      stays same = record {
        first = v.first;
        enough = v.enough;
        at_clust = rw (at_c, same) at_pos;
        buffer = v.buffer;
      }

      moves :
          file.cur_pos + len < file.size_bytes
          → (file.cur_pos + len) / cb ≢ file.cur_pos / cb
          → (clust' : ℕ) × (next_cluster fatfs clust ≡ some clust')
            × IsOpen cb cs holds (record file {
              cur_pos = file.cur_pos + len;
              buf_valid = false;
              cur_clust = some clust';
            })
      moves inside ne =
          let q = file.cur_pos / cb in
          let e : file.cur_pos + len ≡ cb * suc q = after_part file.cur_pos len in_clust ne in
          let far : suc q < length cs = lt_of_mul-lt-mul_left cb (omega (arith, e, v.enough)) in
          let (clust', at_next) = get_elem?-lt cs (suc q) far in
          let there : (file.cur_pos + len) / cb ≡ suc q =
            div_unique cb (suc q) 0 (file.cur_pos + len) (omega (arith, e))
              (pow_pos fatfs.clust_shift) in
          (
            clust',
            lay.follows q clust clust' at_pos at_next,
            record {
              first = v.first;
              enough = v.enough;
              at_clust = ap (get_elem? cs) there ∙ at_next;
              buffer = λ c valid. cc valid;
            },
          )

      pub next_round-Progress :
          Progress cb cs holds n file (
            next_round fatfs
              (file.cur_pos / cb)
              clust
              (slice cb cs holds file.cur_pos len)
              len
              file)
      unfolding next_round
      next_round-Progress = elim (Bool-cases (leb file.size_bytes (file.cur_pos + len))) [
        | inl done ↦ rw done (ends (ground arith))
        | inr inside ↦ elim (Bool-cases ((file.cur_pos + len) / cb == file.cur_pos / cb)) [
          | inl same ↦
              let e : (file.cur_pos + len) / cb ≡ file.cur_pos / cb = ground arith in
              rw (inside, same)
                (some_bytes (ground arith), le, refl, refl, refl, sym e, at_c, stays e)
          | inr other ↦
              let (clust', next, opened) = moves (ground arith) (ground arith) in
              rw (inside, other, next)
                (some_bytes (ground arith), le, refl, refl, refl, refl, refl, opened)
        ]
      ]
