-- ===== src/Malloc/Resize.antt =====
-- `realloc` of malloc.c.
use pcboot.Prelude.{
  ℕ, ◌+◌, ◌-◌, ◌*◌, ◌^◌, ◌≤◌, ◌<◌, ◌≡◌, refl, ap, ◌∙◌, true, false, ◌⊎◌, inl, inr, List, ◌∷◌,
  Option, none, some, leb, ◌==◌, if◌then◌else◌, arith,
}
use pcboot.Malloc.{
  Store, Heap, desc_size, desc_ptr, ptr_desc, total_size, bytes_to_pages, malloc, realloc, free,
}
use pcboot.Malloc.Chain.{Agree, Agree-trans, bytes}
use pcboot.Malloc.Valid.{IsValid}
use pcboot.Malloc.Safe.{Pick, here, there, free_lem}
use pcboot.Malloc.Give.{Given, NoSliver}
use pcboot.Malloc.Answer.{Answer, malloc_lem}

-- A block that `malloc` gave, of `total` bytes with its descriptor, is given back unchanged by a
-- `realloc` to more than `total - 12` and at most `total` bytes, and it ends before that many bytes
-- from its pointer do.
pub realloc-Given :
    (h h' : Heap) (us : List ℕ) (total p size : ℕ)
    → (g : Given h us total p h') → size ≤ total
    → total < size + desc_size
    → (realloc p size h' ≡ some (p, 0, h')) × (g.block + (h'.desc g.block).size < p + size)
unfolding realloc
realloc-Given h h' us total p size g le gt =
    let e : ptr_desc p ≡ g.block = omega (arith, g.at_block) in
    let not_null : (p == 0) ≡ false = ground (arith, g.at_block) in
    let fits : leb size total ≡ true = ground arith in
    (rw (not_null, e, g.size, fits) refl, omega (arith, g.at_block, g.size))

Agree-Pick : (d d' : Store) (b : ℕ) {us us' : List ℕ} → Pick b us us' → Agree d d' us' → d' b ≡ d b
Agree-Pick d d' b here same = same.0
Agree-Pick d d' b (there p) same = Agree-Pick d d' b p same.1

Agree-Pick_rest :
    (d d' : Store) (b : ℕ) {us us' : List ℕ} → Pick b us us' → Agree d d' us' → Agree d d' us
Agree-Pick_rest d d' b here same = same.1
Agree-Pick_rest d d' b (there p) same = (same.0, Agree-Pick_rest d d' b p same.1)

-- The block `b` is gone, and a block with room for what was copied is there instead: behind the `malloc` of
-- that, which leaves `between`, the bytes of the old block have come into the pool.
pub record Moved (h : Heap) (us : List ℕ) (b size p copied : ℕ) (h' : Heap) : Type 0 where
  pub between : Heap
  pub by_malloc : malloc size h ≡ some (p, between)
  pub freed : bytes h'.desc h'.pool ≡ bytes between.desc between.pool + (h.desc b).size
  pub others : Agree h.desc h'.desc us
  pub block : ℕ
  pub at_block : p ≡ desc_ptr block
  pub valid : IsValid h' (block ∷ us)
  pub room : size + desc_size ≤ (h'.desc block).size
  pub all : copied ≡ (h.desc b).size
  pub inside : desc_ptr block + copied < block + (h'.desc block).size

abbrev pub Grown : Heap → List ℕ → List ℕ → (b size : ℕ) → Option (ℕ × ℕ × Heap) → Type 0
Grown h us us' b size none = ⊥
Grown h us us' b size (some (p, copied, h')) =
    Moved h us b size p copied h' ⊎ ((p ≡ 0) × (copied ≡ 0) × IsValid h' us')

module _ (h : Heap) (us us' : List ℕ) (b size total : ℕ) (p : Pick b us us')
    (grows : (h.desc b).size < size) (room : size + desc_size ≤ total) where
  after_malloc :
      (o : Option (ℕ × Heap))
      → malloc size h ≡ o
      → Answer h us' total o
      → Grown h us us' b size (elim o [
        | none ↦ none
        | some (newp, h') ↦
            let copied : Option (ℕ × ℕ × Heap) = elim (free (desc_ptr b) h') [
              | none ↦ none
              | some h'' ↦ some (newp, (h'.desc (ptr_desc (desc_ptr b))).size, h'')
            ] in
            if newp == 0 then some (0, 0, h') else copied
      ])
  after_malloc none e a = a
  after_malloc (some (newp, h')) by_malloc (inr (null, refused, valid)) =
      let e : (newp == 0) ≡ true = ground arith in rw e (inr (refl, refl, valid))
  after_malloc (some (newp, h')) by_malloc (inl g) =
      let (h'', e, valid, more, kept, _) =
        free_lem h' (g.block ∷ us) (g.block ∷ us') b g.valid (there p) in
      let not_null : (newp == 0) ≡ false = ground (arith, g.at_block) in
      let at_b : ptr_desc (desc_ptr b) ≡ b = omega arith in
      let same : h'.desc b ≡ h.desc b = Agree-Pick h.desc h'.desc b p g.kept in
      rw (not_null, e, at_b)
        (inl (record {
          between = h';
          by_malloc = by_malloc;
          freed = more ∙ ap (λ x. bytes h'.desc h'.pool + x.size) same;
          others =
              Agree-trans h.desc h'.desc h''.desc us (Agree-Pick_rest h.desc h'.desc b p g.kept)
                kept.1;
          block = g.block;
          at_block = g.at_block;
          valid = valid;
          room = ground (arith, kept.0, g.size);
          all = ap (λ x. x.size) same;
          inside = ground (arith, kept.0, g.size, same);
        }))

-- `realloc` to more bytes than the whole block never panics, for a size that `malloc` takes. It
-- gives NULL, and the heap stays right with the old block, or it gives a block with room for the new
-- size: then the old block is freed, so that the pool has all its bytes more than behind the `malloc` of
-- the new one, as many bytes as it had are copied, which end inside the new block, and the heap stays
-- right, with the other blocks as they are.
pub realloc_lem :
    (h : Heap) (us us' : List ℕ) (b size : ℕ)
    → IsValid h us'
    → Pick b us us'
    → (h.desc b).size < size
    → size + 0x2000 < 2 ^ 32
    → NoSliver (bytes_to_pages (total_size size) * 4096 - total_size size)
    → Grown h us us' b size (realloc (desc_ptr b) size h)
unfolding realloc
realloc_lem h us us' b size v p grows fits sliver =
    let (room, answer) = malloc_lem size h us' v fits sliver in
    let not_null : (desc_ptr b == 0) ≡ false = ground arith in
    let at_b : ptr_desc (desc_ptr b) ≡ b = omega arith in
    let too_small : leb size (h.desc (ptr_desc (desc_ptr b))).size ≡ false = ground (arith, at_b) in
    rw (not_null, too_small)
      (after_malloc h us us' b size (total_size size) p grows room (malloc size h) refl answer)
