-- ===== src/Mem/Bitmap.antt =====
-- The bitmap of mem.c as a set of free pages.
use pcboot.Prelude.{
  ℕ, zero, suc, ◌+◌, ◌-◌, ◌*◌, ◌/◌, ◌%◌, ◌^◌, ◌<◌, ◌≡◌, ap, Bool, true, false, ◌&&◌, ltb, leb, ◌==◌,
  if◌then◌else◌, arith, bit_and, bit_or, Bool-cases, inl, inr,
}
use pcboot.Prelude.Bits.{
  bit, bit-le-one, bit-bit_or, bit-bit_and, bit-pow_self, bit-pow_ne, bit-not, bit_and-pow,
  bit_and-mask, bit-ones, pow_pos, pow_mono,
}
use pcboot.Mem.{Bitmap, Use, free, used, is_free, store, mark_page, mark_pages}

bm_bit-mod : (pg : ℕ) → bit_and pg 0x1f ≡ pg % 32
bm_bit-mod pg = bit_and-mask 5 pg

pow_test : (w j : ℕ) → (bit_and w (2 ^ j) == 0) ≡ (bit w j == 0)
pow_test w j = elim (Bool-cases (bit w j == 0)) [
  | inl z ↦
      let v : bit w j ≡ 0 = ground arith in ground (arith, bit_and-pow w j, ap (λ k. k * 2 ^ j) v)
  | inr nz ↦
      let v : bit w j ≡ 1 = ground (arith, bit-le-one w j) in
      ground (arith, bit_and-pow w j, ap (λ k. k * 2 ^ j) v, pow_pos j)
]

pub is_free-bit :
    (bitmap : Bitmap) (pg : ℕ) → is_free bitmap pg ≡ (bit (bitmap (pg / 32)) (pg % 32) == 0)
unfolding is_free
is_free-bit bitmap pg = rw (bm_bit-mod pg) (pow_test (bitmap (pg / 32)) (pg % 32))

bit-set : (w j i : ℕ) → (bit (bit_or w (2 ^ j)) i == 0) ≡ (if i == j then false else (bit w i == 0))
bit-set w j i = ground (arith, bit-bit_or w (2 ^ j) i, bit-pow_self j, bit-pow_ne j i)

bit-clear :
    (w j i : ℕ)
    → j < 32
    → i < 32
    → (bit (bit_and w (2 ^ 32 - 1 - 2 ^ j)) i == 0) ≡ (if i == j then true else (bit w i == 0))
bit-clear w j i h k = ground (
  arith,
  bit-bit_and w (2 ^ 32 - 1 - 2 ^ j) i,
  bit-not 32 (2 ^ j) i (pow_mono j 32 h) k,
  bit-pow_self j,
  bit-pow_ne j i,
  bit-le-one w i,
)

-- Marking a page changes whether that page is free, and no other.
pub is_free-mark_page :
    (pg q : ℕ) (u : Use) (bitmap : Bitmap)
    → is_free (mark_page pg u bitmap) q
      ≡ (if q == pg then (elim u [ free ↦ true | used ↦ false ]) else is_free bitmap q)
unfolding mark_page store
is_free-mark_page pg q used bitmap = ground (
  arith,
  is_free-bit (mark_page pg used bitmap) q,
  is_free-bit bitmap q,
  bm_bit-mod pg,
  bit-set (bitmap (pg / 32)) (pg % 32) (q % 32),
)
is_free-mark_page pg q free bitmap = ground (
  arith,
  is_free-bit (mark_page pg free bitmap) q,
  is_free-bit bitmap q,
  bm_bit-mod pg,
  bit-clear (bitmap (pg / 32)) (pg % 32) (q % 32),
)

-- `q` is one of the `n` pages from `pg` on.
abbrev pub in_range : ℕ → ℕ → ℕ → Bool
in_range pg n q = leb pg q && ltb q (pg + n)

pub is_free-mark_pages :
    (n pg q : ℕ) (u : Use) (bitmap : Bitmap)
    → is_free (mark_pages n pg u bitmap) q
      ≡ (if in_range pg n q then (elim u [ free ↦ true | used ↦ false ]) else is_free bitmap q)
unfolding mark_pages
is_free-mark_pages zero pg q u bitmap = ground arith
is_free-mark_pages (suc n) pg q u bitmap = ground (
  arith,
  is_free-mark_pages n (pg + 1) q u (mark_page pg u bitmap),
  is_free-mark_page pg q u bitmap,
)

-- A word of ones has no free page.
pub full_word : (bitmap : Bitmap) (q : ℕ) → bitmap (q / 32) ≡ 0xffffffff → is_free bitmap q ≡ false
full_word bitmap q e =
    ground (arith, is_free-bit bitmap q, ap (λ w. bit w (q % 32)) e, bit-ones 32 (q % 32))
