-- ===== src/Fat/Table.antt =====
-- `read_fat` of fsfat.c: where the table of 12-bit entries is read.
use pcboot.Prelude.{
  ℕ, ◌+◌, ◌*◌, ◌/◌, ◌^◌, ◌≤◌, ◌≡◌, ◌≢◌, sym, ap, ◌∙◌, if◌then◌else◌, ◌==◌, bit_and, arith,
}
use pcboot.Fat.{Bytes, FatFs, fat12, read_fat, read_entry, le16}

-- The entry of the cluster `addr` stands in the bytes `addr * 3 / 2` and the next one. `read_fat` does not
-- look at them, from the first data cluster on: the same value is read whatever stands there.
pub read_fat-misses :
    (fatfs : FatFs) (other : Bytes) (addr : ℕ)
    → fatfs.kind ≡ fat12
    → 2 ≤ addr
    → ((a : ℕ) → a ≢ addr * 3 / 2 → a ≢ addr * 3 / 2 + 1 → fatfs.fat a ≡ other a)
    → read_fat fatfs addr ≡ read_fat (record fatfs { fat = other }) addr
unfolding read_fat read_entry
read_fat-misses fatfs other addr kind h same =
    let idx = addr + addr / 2 in
    let low : fatfs.fat (2 * idx) ≡ other (2 * idx) = same (2 * idx) (omega arith) (omega arith) in
    let high : fatfs.fat (2 * idx + 1) ≡ other (2 * idx + 1) =
      same (2 * idx + 1) (omega arith) (omega arith) in
    let word : le16 fatfs.fat (2 * idx) ≡ le16 other (2 * idx) = omega (arith, low, high) in
    let twelve : read_entry fat12 fatfs.fat addr ≡ read_entry fat12 other addr =
      ap (λ res. if bit_and idx 1 == 0 then bit_and res 0xfff else res / 2 ^ 4) word in
    ap (λ k. read_entry k fatfs.fat addr) kind
    ∙ twelve
    ∙ ap (λ k. read_entry k other addr) (sym kind)
