-- ===== src/Fat/Read.antt =====
-- `read` of fsfat.c, on a file whose chain of clusters is long enough.
use native.Mathlib.Nat.{mod-lt}
use pcboot.Prelude.{
  ℕ, zero, suc, ◌+◌, ◌-◌, ◌/◌, ◌%◌, ◌^◌, ◌≤◌, ◌<◌, ◌≡◌, refl, subst, ap, ◌∙◌, false, List, [],
  Option, none, some, ltb, if◌then◌else◌, arith, min, Option-cases, inl, inr,
}
use pcboot.Prelude.Bits.{pow_pos, bit_and-mask}
use pcboot.Fat.{
  Bytes, FatFs, Disk, File, Copied, got, bad_copy, more, fill_buf, Round, last, negative, again,
  round_len, next_round, read_round, read_loop, read,
}
use pcboot.Fat.Chain.{Layout, slice}
use pcboot.Fat.Advance.{
  AtClust, IsOpen, Reads, Progress, fill_buf_lem, more-Reads, filled, at_pos, filled-IsOpen,
  copy-part, next_round-Progress,
}

module _ (disk : Disk) (fatfs : FatFs) (cs : List ℕ) (holds : ℕ → Bytes)
    (lay : Layout disk fatfs cs holds) where
  abbrev cb : ℕ
  cb = 2 ^ fatfs.clust_shift

  abbrev part : ℕ → File → ℕ
  part n file =
      let len = min (cb - file.cur_pos % cb) n in
      if ltb file.size_bytes (file.cur_pos + len) then file.size_bytes - file.cur_pos else len

  round_len-part : (n : ℕ) (file : File) → round_len fatfs n file ≡ part n file
  unfolding round_len
  round_len-part n file = simp (lay.shift, lay.mask, bit_and-mask fatfs.clust_shift file.cur_pos)

  module _ (n clust : ℕ) (file : File) (at_c : file.cur_clust ≡ some clust)
      (pos : file.cur_pos ≤ file.size_bytes) (wanted : 0 < n) (v : IsOpen cb cs holds file) where
    round-bounds :
        (file.cur_pos < file.size_bytes → 0 < part n file)
        × (part n file ≤ min n (file.size_bytes - file.cur_pos))
        × (part n file ≤ cb - file.cur_pos % cb)
    round-bounds =
        let inside : file.cur_pos % cb < cb = mod-lt file.cur_pos (pow_pos fatfs.clust_shift) in
        (λ more_left. ground (arith, inside, more_left), ground arith, ground arith)

    filled_round :
        read_round disk fatfs n (file.cur_pos / cb) clust file
        ≡ next_round fatfs
            (file.cur_pos / cb)
            clust
            (slice cb cs holds file.cur_pos (part n file))
            (part n file)
            (filled disk fatfs cs holds lay clust file)
    unfolding read_round
    filled_round =
        let at_q = at_pos disk fatfs cs holds lay n clust file at_c pos v in
        let full : fill_buf disk fatfs clust file ≡ filled disk fatfs cs holds lay clust file =
          fill_buf_lem disk fatfs cs holds lay (file.cur_pos / cb) clust file at_q
            (λ valid. v.buffer clust valid at_c) in
        let within : ltb file.size_bytes file.cur_pos ≡ false = ground arith in
        let (some_bytes, le, in_clust) = round-bounds in
        rw
          (
            full,
            within,
            round_len-part n (filled disk fatfs cs holds lay clust file),
            lay.mask,
            bit_and-mask fatfs.clust_shift file.cur_pos,
            copy-part disk fatfs cs holds lay n clust file at_c pos v (part n file) some_bytes le
                in_clust,
          )
          refl

    read_round-Progress :
        Progress cb cs holds n file (read_round disk fatfs n (file.cur_pos / cb) clust file)
    read_round-Progress =
        let (some_bytes, le, in_clust) = round-bounds in
        rw filled_round (
          next_round-Progress disk fatfs cs holds lay n clust
            (filled disk fatfs cs holds lay clust file) at_c pos
            (filled-IsOpen disk fatfs cs holds lay n clust file at_c pos v) (part n file) some_bytes
            le in_clust)

  after_round :
      (n : ℕ) (file : File) (r : Round) (rest : ℕ → (idx clust : ℕ) → File → Copied)
      → 0 < n
      → ((m idx clust : ℕ) (file' : File)
          → m < n
          → idx ≡ file'.cur_pos / cb
          → file'.cur_clust ≡ some clust
          → file'.cur_pos ≤ file'.size_bytes
          → IsOpen cb cs holds file'
          → Reads cb cs holds m file' (rest m idx clust file'))
      → file.cur_pos ≤ file.size_bytes
      → Progress cb cs holds n file r
      → Reads cb cs holds n file (elim r [
        | last bytes file' ↦ got bytes file'
        | negative ↦ bad_copy
        | again bytes len idx clust file' ↦ more bytes (rest (n - len) idx clust file')
      ])
  after_round n file (last l file') rest wanted ih pos reads = reads
  after_round n file negative rest wanted ih pos reads = reads
  after_round n file (again l len idx clust file') rest wanted ih pos
        (some_bytes, le, bytes, at_len, size, at_idx, at_c, opened) =
      let here : file'.cur_pos ≤ file'.size_bytes = ground (arith, at_len, size, le) in
      let tail = ih (n - len) idx clust file' (ground arith) at_idx at_c here opened in
      rw bytes (
        more-Reads disk fatfs cs holds lay n len file file' (rest (n - len) idx clust file') le
          at_len size tail)

  -- Enough fuel is one round more than the bytes wanted.
  read_loop-Reads :
      (fuel n clust : ℕ) (file : File)
      → n < fuel
      → file.cur_clust ≡ some clust
      → file.cur_pos ≤ file.size_bytes
      → IsOpen cb cs holds file
      → Reads cb cs holds n file (read_loop fuel disk fatfs n (file.cur_pos / cb) clust file)
  unfolding read_loop
  read_loop-Reads zero n clust file h at_c pos v = absurd (omega arith)
  read_loop-Reads (suc fuel) zero clust file h at_c pos v =
      let none_left : 0 ≡ min 0 (file.size_bytes - file.cur_pos) = omega arith in
      (ap (slice cb cs holds file.cur_pos) none_left, omega arith, refl, v)
  read_loop-Reads (suc fuel) (suc n) clust file h at_c pos v =
      after_round (suc n) file (read_round disk fatfs (suc n) (file.cur_pos / cb) clust file)
        (λ m idx clust file'. read_loop fuel disk fatfs m idx clust file') (omega arith)
        (λ m idx clust' file' less at_idx at_c' pos' v'.
          rw at_idx (read_loop-Reads fuel m clust' file' (omega (arith, less)) at_c' pos' v'))
        pos (read_round-Progress (suc n) clust file at_c pos (omega arith) v)

  abbrev from_clust : ℕ → File → Option ℕ → Copied
  from_clust sz file none = got [] file
  from_clust sz file (some clust) = read_loop (sz + 1) disk fatfs sz (file.cur_pos / cb) clust file

  from_clust_lem :
      (sz : ℕ) (file : File) → read disk fatfs sz file ≡ from_clust sz file file.cur_clust
  unfolding read
  from_clust_lem sz file = refl

  pub read-none :
      (sz : ℕ) (file : File) → file.cur_clust ≡ none → read disk fatfs sz file ≡ got [] file
  read-none sz file at_end = from_clust_lem sz file ∙ ap (from_clust sz file) at_end

  read-some :
      (sz clust : ℕ) (file : File)
      → file.cur_clust ≡ some clust
      → read disk fatfs sz file ≡ read_loop (sz + 1) disk fatfs sz (file.cur_pos / cb) clust file
  read-some sz clust file at_c = from_clust_lem sz file ∙ ap (from_clust sz file) at_c

  -- `read` of an open file, not behind its end, ends with the bytes wanted as far as the file goes, moves by
  -- their number and leaves the file open.
  pub read-Reads :
      (sz : ℕ) (file : File)
      → file.cur_pos ≤ file.size_bytes
      → IsOpen cb cs holds file
      → Reads cb cs holds sz file (read disk fatfs sz file)
  read-Reads sz file pos v = elim (Option-cases file.cur_clust) [
    | inl at_end ↦
        let here : file.size_bytes ≤ file.cur_pos = subst (AtClust cb cs file) at_end v.at_clust in
        let none_left : 0 ≡ min sz (file.size_bytes - file.cur_pos) = ground (arith, here) in
        rw (read-none sz file at_end)
          (ap (slice cb cs holds file.cur_pos) none_left, omega (arith, none_left), refl, v)
    | inr (clust, at_c) ↦
        rw (read-some sz clust file at_c)
          (read_loop-Reads (sz + 1) sz clust file (omega arith) at_c pos v)
  ]
