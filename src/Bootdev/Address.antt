-- ===== src/Bootdev/Address.antt =====
-- The addresses of sectors by cylinder, head and sector in bootdev.c.
use native.Mathlib.Nat.{div-add-mod, mod-lt, mul_comm}
use pcboot.Prelude.{
  ℕ, ◌+◌, ◌-◌, ◌*◌, ◌/◌, ◌%◌, ◌^◌, ◌≤◌, ◌<◌, ◌≡◌, ap, ◌∙◌, false, Option, none, some, leb, bit_and,
  bit_or, arith,
}
use pcboot.Prelude.Bits.{bit_and_step, bit_and-mask}
use pcboot.Bootdev.{Chs, Drive, calc_chs, chs_ecx}

-- The place that a sector of the drive has
abbrev pub IsPlace : Drive → (lba : ℕ) → Option Chs → Type 0
IsPlace d lba none = ⊥
IsPlace d lba (some c) =
    (c.head < d.num_heads)
    × (1 ≤ c.tsect)
    × (c.tsect ≤ d.num_track_sect)
    × ((c.cyl * d.num_heads + c.head) * d.num_track_sect + (c.tsect - 1) ≡ lba)

-- `calc_chs` gives the cylinder, head and sector whose number, counted along the tracks, the heads and the
-- cylinders, is the address.
pub calc_chs-IsPlace :
    (d : Drive) (lba : ℕ)
    → 0 < d.num_heads
    → 0 < d.num_track_sect
    → lba < 2 ^ 32
    → IsPlace d lba (calc_chs d lba)
unfolding calc_chs
calc_chs-IsPlace d lba heads sects h =
    let fits : leb (2 ^ 32) lba ≡ false = ground (arith, h) in
    let trk = lba / d.num_track_sect in
    let track : trk / d.num_heads * d.num_heads + trk % d.num_heads ≡ trk =
      ap (λ k. k + trk % d.num_heads) (mul_comm (trk / d.num_heads) d.num_heads)
      ∙ div-add-mod trk d.num_heads in
    let sector : trk * d.num_track_sect + lba % d.num_track_sect ≡ lba =
      ap (λ k. k + lba % d.num_track_sect) (mul_comm trk d.num_track_sect)
      ∙ div-add-mod lba d.num_track_sect in
    let whole : (trk / d.num_heads * d.num_heads + trk % d.num_heads) * d.num_track_sect
          + lba % d.num_track_sect
        ≡ lba =
      ap (λ k. k * d.num_track_sect + lba % d.num_track_sect) track ∙ sector in
    let back : lba % d.num_track_sect + 1 - 1 ≡ lba % d.num_track_sect = omega arith in
    rw fits (
      mod-lt trk heads,
      omega arith,
      omega (arith, mod-lt lba sects),
      ap (λ k. (trk / d.num_heads * d.num_heads + trk % d.num_heads) * d.num_track_sect + k) back
          ∙ whole,
    )

half : (x m : ℕ) → bit_and x (m * 2) ≡ bit_and (x / 2) m * 2
half x m =
    let e : m * 2 / 2 ≡ m = omega arith in
    omega (arith, bit_and_step x (m * 2), ap (bit_and (x / 2)) e)

low_byte : (c : ℕ) → bit_and (c * 2 ^ 8) 0xff00 ≡ c % 256 * 256
low_byte c =
    let x = c * 2 ^ 8 in
    let e : x / 2 / 2 / 2 / 2 / 2 / 2 / 2 / 2 ≡ c = omega arith in
    omega (
      arith,
      half x 0x7f80,
      half (x / 2) 0x3fc0,
      half (x / 2 / 2) 0x1fe0,
      half (x / 2 / 2 / 2) 0xff0,
      half (x / 2 / 2 / 2 / 2) 0x7f8,
      half (x / 2 / 2 / 2 / 2 / 2) 0x3fc,
      half (x / 2 / 2 / 2 / 2 / 2 / 2) 0x1fe,
      half (x / 2 / 2 / 2 / 2 / 2 / 2 / 2) 0xff,
      ap (λ k. bit_and k 0xff) e,
      bit_and-mask 8 c,
    )

no_high_bits : (y : ℕ) → y < 64 → bit_and y 0xc0 ≡ 0
no_high_bits y h =
    let e : y / 2 / 2 / 2 / 2 / 2 / 2 ≡ 0 = omega (arith, h) in
    omega (
      arith,
      half y 0x60,
      half (y / 2) 0x30,
      half (y / 2 / 2) 0x18,
      half (y / 2 / 2 / 2) 0xc,
      half (y / 2 / 2 / 2 / 2) 0x6,
      half (y / 2 / 2 / 2 / 2 / 2) 0x3,
      ap (λ k. bit_and k 3) e,
    )

-- The register of a call holds the cylinder by its low byte only: cylinders that are 256 apart are read from
-- the same place.
pub chs_ecx-wraps : (cyl tsect : ℕ) → cyl < 2 ^ 16 → chs_ecx cyl tsect ≡ chs_ecx (cyl % 256) tsect
unfolding chs_ecx
chs_ecx-wraps cyl tsect h =
    let low : bit_and (cyl * 2 ^ 8) 0xff00 ≡ bit_and (cyl % 256 * 2 ^ 8) 0xff00 =
      omega (arith, low_byte cyl, low_byte (cyl % 256)) in
    let high : bit_and (cyl / 2 ^ 10) 0xc0 ≡ bit_and (cyl % 256 / 2 ^ 10) 0xc0 = omega (
      arith,
      no_high_bits (cyl / 2 ^ 10) (omega (arith, h)),
      no_high_bits (cyl % 256 / 2 ^ 10) (omega arith),
    ) in
    ap (λ k. bit_or (bit_or k (bit_and (cyl / 2 ^ 10) 0xc0)) tsect) low
    ∙ ap (λ k. bit_or (bit_or (bit_and (cyl % 256 * 2 ^ 8) 0xff00) k) tsect) high
