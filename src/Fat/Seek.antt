-- ===== src/Fat/Seek.antt =====
-- `seek` of fsfat.c, on a file whose chain of clusters is long enough, and `read` behind it.
use native.Mathlib.Nat.{div-add-mod, lt_of_mul-lt-mul_left}
use pcboot.Prelude.{
  ℕ, ◌+◌, ◌-◌, ◌/◌, ◌^◌, ◌≤◌, ◌<◌, ◌≡◌, ◌⊎◌, refl, sym, subst, ap, ◌∙◌, Bool, true, false, List, [],
  Option, none, some, ltb, ◌==◌, arith, length, get_elem?, min, Bool-cases, inl, inr,
}
use pcboot.Fat.{
  Bytes, FatFs, Disk, File, Copied, got, bad_copy, out_of_fuel, read, find_cluster, seek_pos,
  seek_forward, seek,
}
use pcboot.Fs.{Whence}
use pcboot.Fat.Chain.{Layout, slice, find_cluster-get_elem?, get_elem?-lt}
use pcboot.Fat.Advance.{AtClust, IsOpen, Reads}
use pcboot.Fat.Read.{read-Reads, read-none}

module _ (disk : Disk) (fatfs : FatFs) (cs : List ℕ) (holds : ℕ → Bytes)
    (lay : Layout disk fatfs cs holds) where
  abbrev cb : ℕ
  cb = 2 ^ fatfs.clust_shift

  -- The file at `pos`, the cluster being found with the chain.
  found :
      (file : File) (pos : ℕ) (o : Option ℕ) (c : ℕ)
      → o ≡ some c
      → get_elem? cs (pos / cb) ≡ some c
      → IsOpen cb cs holds file
      → IsOpen cb cs holds (record file { cur_clust = o; buf_valid = false; cur_pos = pos })
  found file pos o c e at_c v = record {
    first = v.first;
    enough = v.enough;
    at_clust = subst (AtClust cb cs (record file { cur_pos = pos })) (sym e) at_c;
    buffer = λ c' valid. cc valid;
  }

  same_cluster :
      (file : File) (pos c : ℕ)
      → file.cur_clust ≡ some c
      → pos / cb ≡ file.cur_pos / cb
      → IsOpen cb cs holds file
      → IsOpen cb cs holds (record file { cur_pos = pos })
  same_cluster file pos c at_c same v =
      let here : get_elem? cs (file.cur_pos / cb) ≡ some c =
        subst (AtClust cb cs file) at_c v.at_clust in
      record {
        first = v.first;
        enough = v.enough;
        at_clust =
            subst (AtClust cb cs (record file { cur_pos = pos })) (sym at_c)
              (ap (get_elem? cs) same ∙ here);
        buffer = v.buffer;
      }

  -- What `seek` promises of its result: the file is open at `pos`.
  abbrev pub OpenAt : File → ℕ → Option File → Type 0
  OpenAt file pos none = ⊥
  OpenAt file pos (some file') =
      (file'.cur_pos ≡ pos) × (file'.size_bytes ≡ file.size_bytes) × IsOpen cb cs holds file'

  forward-OpenAt :
      (file : File) (pos c : ℕ) (o : Option ℕ)
      → o ≡ some c
      → file.cur_clust ≡ some c
      → file.cur_pos / cb ≤ pos / cb
      → pos / cb < length cs
      → IsOpen cb cs holds file
      → OpenAt file pos (seek_forward fatfs (pos / cb - file.cur_pos / cb) pos o file)
  unfolding seek_forward
  forward-OpenAt file pos c none e at_c le far v = cc e
  forward-OpenAt file pos c (some d) e at_c le far v =
      let here : get_elem? cs (file.cur_pos / cb) ≡ some d =
        subst (AtClust cb cs file) at_c v.at_clust ∙ sym e in
      let (c', there) = get_elem?-lt cs (pos / cb) far in
      let split : file.cur_pos / cb + (pos / cb - file.cur_pos / cb) ≡ pos / cb =
        omega (arith, le) in
      let walk =
        find_cluster-get_elem? disk fatfs cs holds lay (pos / cb - file.cur_pos / cb)
          (file.cur_pos / cb) d c' here (ap (get_elem? cs) split ∙ there) in
      (
        refl,
        refl,
        found file pos (find_cluster fatfs (pos / cb - file.cur_pos / cb) d) c' walk there v,
      )

  -- `seek` to a position in the clusters of an open file leaves it open there: backwards to an earlier
  -- cluster in any case, elsewhere if the file has a cluster, so is not at its end.
  pub seek-OpenAt :
      (file : File) (back : Bool) (offs : ℕ) (whence : Whence)
      → seek_pos back offs whence file / cb < length cs
      → (seek_pos back offs whence file / cb < file.cur_pos / cb)
        ⊎ ((c : ℕ) × (file.cur_clust ≡ some c))
      → IsOpen cb cs holds file
      → OpenAt file (seek_pos back offs whence file) (seek fatfs back offs whence file)
  unfolding seek
  seek-OpenAt file back offs whence far (inl earlier) v =
      let pos = seek_pos back offs whence file in
      let (c', there) = get_elem?-lt cs (pos / cb) far in
      let other : (pos / cb == file.cur_pos / cb) ≡ false = ground (arith, earlier) in
      let before : ltb (pos / cb) (file.cur_pos / cb) ≡ true = ground (arith, earlier) in
      let walk =
        find_cluster-get_elem? disk fatfs cs holds lay (pos / cb) 0 file.first_clust c' v.first
          (ap (get_elem? cs) (omega arith) ∙ there) in
      rw (other, before)
        (
          refl,
          refl,
          found file pos (find_cluster fatfs (pos / cb) file.first_clust) c' walk there v,
        )
  seek-OpenAt file back offs whence far (inr (c, at_c)) v =
      let pos = seek_pos back offs whence file in
      elim (Bool-cases (pos / cb == file.cur_pos / cb)) [
        | inl same ↦ rw same (refl, refl, same_cluster file pos c at_c (ground arith) v)
        | inr other ↦ elim (Bool-cases (ltb (pos / cb) (file.cur_pos / cb))) [
          | inl before ↦
              let (c', there) = get_elem?-lt cs (pos / cb) far in
              let walk =
                find_cluster-get_elem? disk fatfs cs holds lay (pos / cb) 0 file.first_clust c'
                  v.first (ap (get_elem? cs) (omega arith) ∙ there) in
              rw (other, before)
                (
                  refl,
                  refl,
                  found file pos (find_cluster fatfs (pos / cb) file.first_clust) c' walk there v,
                )
          | inr behind ↦
              rw (other, behind)
                (forward-OpenAt file pos c file.cur_clust at_c at_c (ground (arith, behind)) far v)
        ]
      ]

  opened :
      (file : File) (pos : ℕ) (o : Option File)
      → OpenAt file pos o
      → (file' : File) × (o ≡ some file')
        × (file'.cur_pos ≡ pos)
        × (file'.size_bytes ≡ file.size_bytes)
        × IsOpen cb cs holds file'
  opened file pos none v = absurd v
  opened file pos (some file') (at_pos, size, v) = (file', refl, at_pos, size, v)

  read_bytes :
      (n : ℕ) (file : File) (r : Copied)
      → Reads cb cs holds n file r
      → (l : List ℕ) × (file' : File) × (r ≡ got l file')
        × (l ≡ slice cb cs holds file.cur_pos (min n (file.size_bytes - file.cur_pos)))
  read_bytes n file (got l file') (bytes, at_pos, size, v) = (l, file', refl, bytes)
  read_bytes n file bad_copy r = absurd r
  read_bytes n file out_of_fuel r = absurd r

  -- `seek` to a position of an open file and `read` of `sz` bytes give the bytes that stand there, as far as the
  -- file goes: behind an earlier cluster in any case, elsewhere if the file has a cluster.
  pub read-seek :
      (file : File) (back : Bool) (offs : ℕ) (whence : Whence) (sz : ℕ)
      → seek_pos back offs whence file < file.size_bytes
      → (seek_pos back offs whence file / cb < file.cur_pos / cb)
        ⊎ ((c : ℕ) × (file.cur_clust ≡ some c))
      → IsOpen cb cs holds file
      → (file' : File) × (seek fatfs back offs whence file ≡ some file')
        × (l : List ℕ) × (file'' : File) × (read disk fatfs sz file' ≡ got l file'')
        × (l
            ≡ slice cb cs holds
                (seek_pos back offs whence file)
                (min sz (file.size_bytes - seek_pos back offs whence file)))
  read-seek file back offs whence sz inside reached v =
      let pos = seek_pos back offs whence file in
      let far : pos / cb < length cs =
        lt_of_mul-lt-mul_left cb (omega (arith, div-add-mod pos cb, v.enough, inside)) in
      let (file', sought, at_pos, size, v') =
        opened file pos (seek fatfs back offs whence file)
          (seek-OpenAt file back offs whence far reached v) in
      let (l, file'', got_it, bytes) =
        read_bytes sz file' (read disk fatfs sz file')
          (read-Reads disk fatfs cs holds lay sz file' (omega (arith, at_pos, size, inside)) v') in
      let same : min sz (file'.size_bytes - file'.cur_pos) ≡ min sz (file.size_bytes - pos) =
        omega (arith, at_pos, size) in
      (
        file',
        sought,
        l,
        file'',
        got_it,
        bytes
            ∙ ap (λ p. slice cb cs holds p (min sz (file'.size_bytes - file'.cur_pos))) at_pos
            ∙ ap (slice cb cs holds pos) same,
      )

  -- A file that was read to its end has no cluster. `seek` to a position of the same cluster index keeps it so,
  -- and `read` then gives nothing, wherever the position is.
  pub seek-stuck :
      (file : File) (back : Bool) (offs : ℕ) (whence : Whence) (sz : ℕ)
      → file.cur_clust ≡ none
      → seek_pos back offs whence file / cb ≡ file.cur_pos / cb
      → (seek fatfs back offs whence file
          ≡ some (record file { cur_pos = seek_pos back offs whence file }))
        × (read disk fatfs sz (record file { cur_pos = seek_pos back offs whence file })
            ≡ got [] (record file { cur_pos = seek_pos back offs whence file }))
  unfolding seek
  seek-stuck file back offs whence sz at_end same =
      let pos = seek_pos back offs whence file in
      let e : (pos / cb == file.cur_pos / cb) ≡ true = ground (arith, same) in
      (rw e refl, read-none disk fatfs cs holds lay sz (record file { cur_pos = pos }) at_end)
