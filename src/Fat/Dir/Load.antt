-- ===== src/Fat/Dir/Load.antt =====
-- `load_dir` of fsfat.c, along a chain of clusters and in a table without an end.
use native.Mathlib.Nat.{mul-suc}
use pcboot.Prelude.{
  ℕ, zero, suc, ◌+◌, ◌-◌, ◌*◌, ◌/◌, ◌%◌, ◌^◌, ◌≤◌, ◌<◌, ◌≡◌, refl, sym, subst, ap, ◌∙◌, Bool, false,
  List, none, some, ltb, ◌==◌, bit_and, arith, length, get_elem?, get_or, Bool-cases, inl, inr,
}
use native.Mathlib.Decide.{dec_lt}
use pcboot.Prelude.Arith.{mod_unique, div_unique}
use pcboot.Prelude.Bits.{pow_pos}
use pcboot.Fat.{Bytes, FatFs, Disk, read_cluster, next_cluster}
use pcboot.Fat.Chain.{Layout, byte, get_elem?-lt, get_elem?-length, get_or-get_elem?}
use pcboot.Fat.Dir.{
  Loaded, loaded, failed, no_memory, out_of_fuel, join, parse_dir_entries, load_loop, load_dir,
  dir_addr, attr_dir,
}

-- What `load_dir` promises: the bytes of the whole chain, with their number of entries; or there is no memory for
-- the bytes of some clusters of it.
abbrev pub Holds : (gives : ℕ → Bool) (cb : ℕ) (cs : List ℕ) (holds : ℕ → Bytes) → Loaded → Type 0
Holds gives cb cs holds (loaded dir) =
    (dir.max_nent ≡ cb * length cs / 32)
    × ((i : ℕ) → i < cb * length cs → dir.ent i ≡ byte cb cs holds i)
Holds gives cb cs holds no_memory = (k : ℕ) × (0 < k) × (k ≤ length cs) × (gives (cb * k) ≡ false)
Holds gives cb cs holds failed = ⊥
Holds gives cb cs holds out_of_fuel = ⊥

-- The last cluster of the chain has none behind it.
abbrev pub IsEnded : FatFs → List ℕ → Type 0
IsEnded fatfs cs =
    (q c : ℕ) → get_elem? cs q ≡ some c → suc q ≡ length cs → next_cluster fatfs c ≡ none

module _ (disk : Disk) (fatfs : FatFs) (cs : List ℕ) (holds : ℕ → Bytes)
    (lay : Layout disk fatfs cs holds) where
  abbrev cb : ℕ
  cb = 2 ^ fatfs.clust_shift

  -- One more cluster behind `q` of them
  join-byte :
      (q c : ℕ) (buf : Bytes)
      → get_elem? cs q ≡ some c
      → ((i : ℕ) → i < cb * q → buf i ≡ byte cb cs holds i)
      → (i : ℕ) → i < cb * suc q
      → join (cb * q) buf (holds c) i ≡ byte cb cs holds i
  join-byte q c buf at_c before i h = elim (Bool-cases (ltb i (cb * q))) [
    | inl old ↦ rw old (before i (ground (arith, old)))
    | inr new ↦
        let e : i ≡ cb * q + (i - cb * q) = ground (arith, new) in
        let inside : i - cb * q < cb =
          omega (arith, h, mul-suc cb q, e, pow_pos fatfs.clust_shift) in
        let here : get_or cs (i / cb) 0 ≡ c =
          ap (λ k. get_or cs k 0) (div_unique cb q (i - cb * q) i e inside)
          ∙ get_or-get_elem? cs q c 0 at_c in
        let offs : i % cb ≡ i - cb * q = mod_unique cb q (i - cb * q) i e inside in
        rw (new, here, offs) refl
  ]

  load_loop-Holds :
      (fuel q c : ℕ) (buf : Bytes)
      → IsEnded fatfs cs
      → length cs ≤ q + fuel
      → get_elem? cs q ≡ some c
      → ((i : ℕ) → i < cb * q → buf i ≡ byte cb cs holds i)
      → Holds disk.realloc_gives cb cs holds (load_loop fuel disk fatfs c (cb * q) buf)
  unfolding load_loop parse_dir_entries
  load_loop-Holds zero q c buf ended h at_c before =
      absurd (omega (arith, h, get_elem?-length cs q c at_c))
  load_loop-Holds (suc fuel) q c buf ended h at_c before =
      let here = get_elem?-length cs q c at_c in
      let more = join-byte q c buf at_c before in
      let size : cb * q + fatfs.cluster_size * 512 ≡ cb * suc q =
        omega (arith, mul-suc cb q, lay.shift) in
      elim (Bool-cases (disk.realloc_gives (cb * suc q))) [
        | inr refused ↦
            rw (load_loop, size, refused) (suc q, omega arith, omega (arith, here), refused)
        | inl yes_gives ↦ elim (Bool-cases (suc q == length cs)) [
          | inl last ↦
              let e : suc q ≡ length cs = ground (arith, last) in
              rw (load_loop, size, yes_gives, lay.readable q c at_c, ended q c at_c e, size, e)
                (refl, λ i less. more i (subst (λ k. i < cb * k) (sym e) less))
          | inr inner ↦
              let (c', at_c') = get_elem?-lt cs (suc q) (ground (arith, inner, here)) in
              rw
                (
                  load_loop,
                  size,
                  yes_gives,
                  lay.readable q c at_c,
                  lay.follows q c c' at_c at_c',
                  size,
                )
                (load_loop-Holds fuel (suc q) c' (join (cb * q) buf (holds c)) ended
                  (omega (arith, h)) at_c' more)
        ]
      ]

  -- `load_dir` of a directory whose chain ends gives all bytes of the chain, with as much fuel as the chain is
  -- long; or it panics, since realloc does not give a buffer for the first clusters of the chain, or all.
  pub load_dir-Holds :
      (fuel attr low high : ℕ)
      → IsEnded fatfs cs
      → length cs ≤ fuel
      → (bit_and attr attr_dir == 0) ≡ false
      → get_elem? cs 0 ≡ some (dir_addr fatfs.kind low high)
      → Holds disk.realloc_gives cb cs holds (load_dir fuel disk fatfs attr low high)
  unfolding load_dir
  load_dir-Holds fuel attr low high ended h is_dir at_c =
      let none_read : cb * 0 ≡ 0 = omega arith in
      let from_start : Holds disk.realloc_gives cb cs holds
          (load_loop fuel disk fatfs (dir_addr fatfs.kind low high) (cb * 0) (λ i. 0)) =
        load_loop-Holds fuel 0 (dir_addr fatfs.kind low high) (λ i. 0) ended (omega (arith, h)) at_c
          (λ i less. absurd (omega (arith, less, none_read))) in
      rw is_dir (
        subst
          (λ k.
            Holds disk.realloc_gives cb cs holds
              (load_loop fuel disk fatfs (dir_addr fatfs.kind low high) k (λ i. 0)))
          none_read from_start)

-- Clusters that the table leads around in, and a limit of the buffers that realloc gives
module _ (disk : Disk) (fatfs : FatFs) (In : ℕ → Type 0)
    (reads : (c : ℕ) → In c → (clust : Bytes) × (read_cluster disk fatfs c ≡ some clust))
    (cycles : (c : ℕ) → In c → (c' : ℕ) × (next_cluster fatfs c ≡ some c') × In c')
    (some_size : 0 < fatfs.cluster_size) (limit : ℕ)
    (limited : (bufsz : ℕ) → limit < bufsz → disk.realloc_gives bufsz ≡ false) where
  load_loop-no_memory :
      (fuel c bufsz : ℕ) (buf : Bytes)
      → In c
      → bufsz ≤ limit
      → limit < bufsz + fuel
      → load_loop fuel disk fatfs c bufsz buf ≡ no_memory
  unfolding load_loop
  load_loop-no_memory zero c bufsz buf h small enough = absurd (omega (arith, small, enough))
  load_loop-no_memory (suc fuel) c bufsz buf h small enough =
      let (clust, e) = reads c h in
      let (c', e', h') = cycles c h in
      let bufsz' = bufsz + fatfs.cluster_size * 512 in
      elim (Bool-cases (disk.realloc_gives bufsz')) [
        | inr refused ↦ rw (load_loop, refused) refl
        | inl given ↦ elim (dec_lt limit bufsz') [
          | yes past ↦ cc (limited bufsz' past, given)
          | no inside ↦
              rw (load_loop, given, e, e')
                (load_loop-no_memory fuel c' bufsz' (join bufsz buf clust) h'
                  (omega (arith, inside)) (omega (arith, enough, some_size)))
        ]
      ]

  -- Where the chain of a directory comes to readable clusters that the table leads around in, and realloc gives no
  -- buffer above a limit, `load_dir` ends in the panic of the loop, with fuel above the limit.
  pub load_dir-no_memory :
      (fuel attr low high : ℕ)
      → (bit_and attr attr_dir == 0) ≡ false
      → limit < fuel
      → In (dir_addr fatfs.kind low high)
      → load_dir fuel disk fatfs attr low high ≡ no_memory
  unfolding load_dir
  load_dir-no_memory fuel attr low high is_dir enough h = rw is_dir (
      load_loop-no_memory fuel (dir_addr fatfs.kind low high) 0 (λ i. 0) h (omega arith)
        (omega (arith, enough)))
