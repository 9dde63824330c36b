-- ===== src/Malloc/Give.antt =====
-- `malloc` of malloc.c: the block that it gives, from the pool and from fresh pages.
use pcboot.Prelude.{
  ℕ, ◌+◌, ◌-◌, ◌*◌, ◌^◌, ◌≤◌, ◌≡◌, refl, true, ◌⊎◌, inl, inr, List, [], ◌∷◌, Option, none, some,
  ltb, arith,
}
use pcboot.Mem.{Mem}
use pcboot.Malloc.{Store, Heap, put, desc_size, used_desc, desc_ptr, fresh_block}
use pcboot.Malloc.Chain.{Agree, Apart, Agree-trans, Apart-part, Apart-Agree}
use pcboot.Malloc.TakeBlock.{Took}
use pcboot.Malloc.Valid.{InUse, IsValid, Moves, Agree-moves, InUse-moves, put_lem}
use pcboot.Malloc.Fresh.{Fresh}
use pcboot.Malloc.Safe.{here, free_lem}

-- `p` is a block of `total` bytes in `h'`, which is right; the blocks `us` that were in use before
-- are kept.
pub record Given (h : Heap) (us : List ℕ) (total p : ℕ) (h' : Heap) : Type 0 where
  pub block : ℕ
  pub at_block : p ≡ desc_ptr block
  pub valid : IsValid h' (block ∷ us)
  pub size : (h'.desc block).size ≡ total
  pub kept : Agree h.desc h'.desc us

module _ (h : Heap) (us : List ℕ) (v : IsValid h us) (total b : ℕ) (p' : List ℕ) (d' : Store)
    (big : desc_size ≤ total) (t : Took total h.desc d' 0 b h.pool p') where
  moves : Moves h.desc d' b 0 h.pool p'
  moves c k away pos out = let (away', same, clear) = t.apart c k away pos in (away', same)

  away : (vs : List ℕ) → InUse h.desc h.pool vs → Apart h.desc b total vs
  away [] u = tt
  away (u ∷ vs) (used, size, apart, others, more) =
      let (_, _, clear) = t.apart u (h.desc u).size apart (omega arith) in
      (ground arith, away vs more)

  near : Apart h.desc b 0 us
  near = Apart-part h.desc b total b 0 us (omega arith) (omega arith) (away us v.in_use)

  same : Agree h.desc d' us
  same = Agree-moves h.desc d' b 0 h.pool p' moves us near v.in_use

  rest_IsValid : IsValid (record h { desc = d'; pool = p' }) us
  rest_IsValid = record {
    chain = t.chain;
    in_use = InUse-moves h.desc d' b 0 h.pool p' moves us near v.in_use;
    pages = λ q clear.
        let (a, a') = v.pages q clear in
        (
          (t.apart (q * 4096) 4096 a (omega arith)).0,
          Apart-Agree h.desc d' (q * 4096) 4096 us same a',
        );
    mem_valid = v.mem_valid;
  }

  pub take-Given :
      Given h us total (desc_ptr b) (record h { desc = put d' b (used_desc total); pool = p' })
  take-Given =
      let (valid, _, kept) =
        put_lem (record h { desc = d'; pool = p' }) us b total rest_IsValid big t.alone
          (Apart-Agree h.desc d' b total us same (away us v.in_use))
          (λ q clear. (t.apart (q * 4096) 4096 ((v.pages q clear).0) (omega arith)).2) in
      record {
        block = b;
        at_block = refl;
        valid = valid;
        size = ground arith;
        kept = Agree-trans h.desc d' (put d' b (used_desc total)) us same kept;
      }

-- The rest of fresh pages has room for a descriptor, or there is none.
abbrev pub NoSliver : ℕ → Type 0
NoSliver rest_sz = (rest_sz ≡ 0) ⊎ (desc_size ≤ rest_sz)

abbrev pub Gives : Heap → List ℕ → ℕ → Option (ℕ × Heap) → Type 0
Gives h us total none = ⊥
Gives h us total (some (p, h')) = Given h us total p h'

module _ (h : Heap) (us : List ℕ) (total n pg : ℕ) (m' : Mem) (big : desc_size ≤ total)
    (enough : total ≤ n * 4096) (f : Fresh h us n pg m') where
  abbrev b : ℕ
  b = pg * 2 ^ 12

  abbrev h₀ : Heap
  h₀ = record h { mem = m' }

  abbrev d₁ : Store
  d₁ = put h.desc b (used_desc total)

  first : IsValid (record h₀ { desc = d₁ }) (b ∷ us) × Agree h.desc d₁ h.pool × Agree h.desc d₁ us
  first =
      put_lem h₀ us b total f.valid big
        (Apart-part h.desc b (n * 4096) b total h.pool (omega arith) (omega arith) f.from_pool)
        (Apart-part h.desc b (n * 4096) b total us (omega arith) (omega arith) f.from_used)
        λ q clear. ground (arith, f.held q clear)

  module _ (room : desc_size ≤ n * 4096 - total) where
    abbrev rest : ℕ
    rest = b + total

    abbrev rest_sz : ℕ
    rest_sz = n * 4096 - total

    second :
        let d₂ = put d₁ rest (used_desc rest_sz) in
        IsValid (record h₀ { desc = d₂ }) (rest ∷ b ∷ us)
        × Agree d₁ d₂ h.pool
        × Agree d₁ d₂ (b ∷ us)
    second =
        let (valid, pool_kept, kept) = first in
        put_lem (record h₀ { desc = d₁ }) (b ∷ us) rest rest_sz valid room
          (Apart-Agree h.desc d₁ rest rest_sz h.pool pool_kept (
            Apart-part h.desc b (n * 4096) rest rest_sz h.pool (omega arith) (omega arith)
              f.from_pool))
          (
            ground arith,
            Apart-Agree h.desc d₁ rest rest_sz us kept (
                Apart-part h.desc b (n * 4096) rest rest_sz us (omega arith) (omega arith)
                  f.from_used),
          )
          λ q clear. ground (arith, f.held q clear)

  pub fresh_block-Gives : NoSliver (n * 4096 - total) → Gives h us total (fresh_block total pg n h₀)
  unfolding fresh_block
  fresh_block-Gives (inl none_left) =
      let (valid, _, kept) = first in
      rw none_left
        (record { block = b; at_block = refl; valid = valid; size = ground arith; kept = kept })
  fresh_block-Gives (inr room) =
      let (_, _, kept) = first in
      let (valid₂, _, kept₂) = second room in
      let d₂ = put d₁ (b + total) (used_desc (n * 4096 - total)) in
      let (h₃, e, valid₃, _, kept₃, _) =
        free_lem (record h₀ { desc = d₂ }) (b ∷ us) ((b + total) ∷ b ∷ us) (b + total) valid₂
          here in
      let some_left : ltb 0 (n * 4096 - total) ≡ true = ground arith in
      rw (some_left, e)
        (record {
          block = b;
          at_block = refl;
          valid = valid₃;
          size = ground (arith, kept₂.0, kept₃.0);
          kept =
              Agree-trans h.desc d₁ h₃.desc us kept (Agree-trans d₁ d₂ h₃.desc us kept₂.1 kept₃.1);
        })
