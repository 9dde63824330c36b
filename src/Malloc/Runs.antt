-- ===== src/Malloc/Runs.antt =====
-- Any sequence of `malloc` and `free` of malloc.c.
use mathlib.Core.Path.{subst}
use mathlib.Core.Option.{some-injective}
use pcboot.Prelude.{
  ℕ, suc, ◌+◌, ◌-◌, ◌*◌, ◌^◌, ◌<◌, ◌≡◌, sym, ◌∙◌, inl, inr, List, ◌∷◌, some, arith,
}
use pcboot.Malloc.{Heap, desc_ptr, ptr_desc, total_size, bytes_to_pages, malloc, free}
use pcboot.Malloc.Valid.{IsValid}
use pcboot.Malloc.Safe.{Pick, free_lem}
use pcboot.Malloc.Give.{Given, NoSliver}
use pcboot.Malloc.Answer.{malloc_lem}

abbrev pub Asks : ℕ → Type 0
Asks sz = (sz + 0x2000 < 2 ^ 32) × NoSliver (bytes_to_pages (total_size sz) * 4096 - total_size sz)

-- A heap, and the blocks that are in use.
abbrev pub World : Type 0
World = Heap × List ℕ

pub data Step : World → World → Type 0 where
  gives :
      {h h' : Heap} {us : List ℕ} {p : ℕ} (sz : ℕ)
      → Asks sz
      → malloc sz h ≡ some (suc p, h')
      → Step (h, us) (h', ptr_desc (suc p) ∷ us)
  refuses :
      {h h' : Heap} {us : List ℕ} (sz : ℕ)
      → Asks sz
      → malloc sz h ≡ some (0, h')
      → Step (h, us) (h', us)
  frees :
      {h h' : Heap} {us us' : List ℕ} {b : ℕ}
      → Pick b us us'
      → free (desc_ptr b) h ≡ some h'
      → Step (h, us') (h', us)

pub data Runs : World → World → Type 0 where
  start : {w : World} → Runs w w
  next : {w w' w'' : World} → Runs w w' → Step w' w'' → Runs w w''

Given-at :
    (h h' : Heap) (us : List ℕ) (total p : ℕ) → Given h us total p h' → IsValid h' (ptr_desc p ∷ us)
Given-at h h' us total p g =
    let e : g.block ≡ ptr_desc p = omega (arith, g.at_block) in rw e at g.valid

Step-IsValid :
    {h h' : Heap} {us us' : List ℕ} → Step (h, us) (h', us') → IsValid h us → IsValid h' us'
Step-IsValid {h} {h'} {us} (gives {p} sz (fits, sliver) e) v =
    elim (rw e at (malloc_lem sz h us v fits sliver).1) [
      | inl g ↦ Given-at h h' us (total_size sz) (suc p) g
      | inr (null, _, _) ↦ absurd (omega arith)
    ]
Step-IsValid {h} {h'} {us} (refuses sz (fits, sliver) e) v =
    elim (rw e at (malloc_lem sz h us v fits sliver).1) [
      | inl g ↦ absurd (omega (arith, g.at_block))
      | inr (null, _, valid) ↦ valid
    ]
Step-IsValid {h} {us = us'} {us' = us} (frees {b} p e) v =
    let (h'', e', valid, _, _, _) = free_lem h us us' b v p in
    subst (λ x. IsValid x us) (some-injective _ _ (sym e' ∙ e)) valid

-- Whatever is taken, by sizes that leave no rest below 12 bytes of fresh pages, and freed, by the
-- pointers of blocks in use, a right heap stays right: the free blocks follow one another in the order
-- of their addresses, they and the blocks in use are disjoint and hold their descriptors, and no
-- page of theirs is free.
pub Runs-IsValid :
    {h h' : Heap} {us us' : List ℕ} → Runs (h, us) (h', us') → IsValid h us → IsValid h' us'
Runs-IsValid start v = v
Runs-IsValid (next r s) v = Step-IsValid s (Runs-IsValid r v)
