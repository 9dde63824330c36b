-- ===== src/Fat/Create/Geometry.antt =====
-- The sizes that `fsfat_create` computes for the clusters of a volume.
use native.Mathlib.Nat.{pow-suc}
use pcboot.Prelude.{
  ℕ, zero, suc, ◌+◌, ◌-◌, ◌*◌, ◌^◌, ◌≤◌, ◌<◌, ◌≡◌, refl, sym, ap, ◌∙◌, true, false, ltb, arith,
  Bool-cases, inl, inr,
}
use pcboot.Prelude.Bits.{pow_mono}
use pcboot.Fat.{Bytes}
use pcboot.Fat.Create.{find_shift, geometry}

find_shift-pow :
    (fuel shift k : ℕ) → shift ≤ k → k < shift + fuel → find_shift fuel shift (2 ^ k) ≡ k
unfolding find_shift
find_shift-pow zero shift k h h' = absurd (omega (arith, h, h'))
find_shift-pow (suc fuel) shift k h h' = elim (Bool-cases (ltb shift k)) [
  | inl below ↦
      let go : ltb (2 ^ shift) (2 ^ k) ≡ true =
        ground (arith, pow_mono shift k (ground (arith, below))) in
      rw (find_shift, go)
        (find_shift-pow fuel (shift + 1) k (ground (arith, below)) (omega (arith, h')))
  | inr found ↦
      let e : shift ≡ k = ground (arith, found, h) in
      let stop : ltb (2 ^ shift) (2 ^ k) ≡ false = ground (arith, ap (λ s. 2 ^ s) e) in
      rw (find_shift, stop) e
]

below_fuel : (k : ℕ) → k ≤ 7 → k + 9 < 0 + 32
below_fuel k h = omega (arith, h)

sector_bytes : (k : ℕ) → 2 ^ k * 512 ≡ 2 ^ (k + 9)
sector_bytes zero = refl
sector_bytes (suc k) =
    let e : suc k + 9 ≡ suc (k + 9) = omega arith in
    omega (arith, sector_bytes k, pow-suc 2 k, pow-suc 2 (k + 9), ap (λ n. 2 ^ n) e)

-- Where a cluster has a power of two of sectors, up to 128, the mask and the shift are those of its bytes.
pub geometry-shift :
    (b : Bytes) (dev start k : ℕ) (fat : Bytes)
    → b 13 ≡ 2 ^ k
    → k ≤ 7
    → let fatfs = geometry b dev start fat in
      (fatfs.clust_shift ≡ k + 9)
      × (fatfs.cluster_size * 512 ≡ 2 ^ fatfs.clust_shift)
      × (fatfs.clust_mask ≡ 2 ^ fatfs.clust_shift - 1)
unfolding geometry
geometry-shift b dev start k fat e h =
    let bytes : b 13 * 512 ≡ 2 ^ (k + 9) = ap (λ x. x * 512) e ∙ sector_bytes k in
    let shift : find_shift 32 0 (b 13 * 512) ≡ k + 9 =
      ap (find_shift 32 0) bytes ∙ find_shift-pow 32 0 (k + 9) (omega arith) (below_fuel k h) in
    let e' : b 13 * 512 ≡ 2 ^ find_shift 32 0 (b 13 * 512) = bytes ∙ ap (λ s. 2 ^ s) (sym shift) in
    (shift, e', ap (λ x. x - 1) e')
