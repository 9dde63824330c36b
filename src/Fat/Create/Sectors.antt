-- ===== src/Fat/Create/Sectors.antt =====
-- The loops of `fsfat_create` that read the table and the root directory of a volume in ranges of sectors.
use pcboot.Prelude.{
  ℕ, zero, suc, ◌+◌, ◌-◌, ◌*◌, ◌≤◌, ◌<◌, ◌≡◌, refl, ap, ◌∙◌, min, true, false, ◌&&◌, Option, some,
  ltb, leb, if◌then◌else◌, arith, Bool-cases, inl, inr,
}
use pcboot.Fat.{Bytes, Disk, read_sectors}
use pcboot.Fat.Create.{load_sectors}

-- Every range of at most `max_once` sectors can be read, and `image` are the bytes of the device.
abbrev pub Image : Disk → Option ℕ → (max_once : ℕ) → (image : Bytes) → Type 0
Image disk dev max_once image =
    (s n : ℕ)
    → 0 < n
    → n ≤ max_once
    → (sect : Bytes) × (read_sectors disk dev s n ≡ some sect)
      × ((i : ℕ) → i < n * 512 → sect i ≡ image (s * 512 + i))

module _ (disk : Disk) (dev : Option ℕ) (max_once : ℕ) (image : Bytes) (at_least_one : 0 < max_once)
    (reads : Image disk dev max_once image) where
  -- Sectors read in ranges are those of the device, with as much fuel as there are sectors.
  pub load_sectors-Image :
      (fuel sidx size num_read : ℕ) (m : Bytes)
      → size ≤ num_read + fuel
      → ((i : ℕ) → i < num_read * 512 → m i ≡ image (sidx * 512 + i))
      → (m' : Bytes) × (load_sectors fuel disk dev max_once sidx size num_read m ≡ some m')
        × ((i : ℕ) → i < size * 512 → m' i ≡ image (sidx * 512 + i))
  unfolding load_sectors
  load_sectors-Image zero sidx size num_read m h before =
      let all : ltb num_read size ≡ false = ground (arith, h) in
      (m, rw all refl, λ i less. before i (omega (arith, h, less)))
  load_sectors-Image (suc fuel) sidx size num_read m h before =
      elim (Bool-cases (ltb num_read size)) [
        | inr all ↦ (m, rw (load_sectors, all) refl, λ i less. before i (ground (arith, all, less)))
        | inl more ↦
            let count = min (size - num_read) max_once in
            let (sect, e, bytes) =
              reads (sidx + num_read) count (ground (arith, more)) (omega arith) in
            let m' : Bytes = λ i.
              if leb (num_read * 512) i && ltb i ((num_read + count) * 512)
              then sect (i - num_read * 512)
              else m i in
            let (m'', e', bytes') =
              load_sectors-Image fuel sidx size (num_read + count) m' (ground (arith, h, more))
                (λ i less. elim (Bool-cases (leb (num_read * 512) i)) [
                  | inl new ↦
                      let in_range : ltb i ((num_read + count) * 512) ≡ true =
                        ground (arith, less) in
                      let at : (sidx + num_read) * 512 + (i - num_read * 512) ≡ sidx * 512 + i =
                        ground (arith, new) in
                      rw (new, in_range)
                        (bytes (i - num_read * 512) (ground (arith, less, new)) ∙ ap image at)
                  | inr old ↦ rw old (before i (ground (arith, old)))
                ]) in
            (m'', rw (load_sectors, more, e) e', bytes')
      ]
