-- ===== src/Malloc/Safe.antt =====
-- `free` of malloc.c and the part of `malloc` that takes a block from the pool: the heap stays right.
use pcboot.Prelude.{ℕ, ◌+◌, ◌*◌, ◌≤◌, ◌≡◌, refl, ap, false, ◌⊎◌, List, ◌∷◌, some, ◌==◌, arith}
use pcboot.Malloc.{Store, Heap, magic_free, put, desc_ptr, ptr_desc, add_free, free}
use pcboot.Malloc.Chain.{bytes, Agree, Apart, Apart-Agree, Agree-Apart, Chain-Agree, bytes-Agree}
use pcboot.Malloc.FreeList.{Inserted, add_free-Inserted}
use pcboot.Malloc.Valid.{InUse, IsValid, Moves, Agree-moves, InUse-moves}

-- `us` with the block `b` put in somewhere is `us'`.
pub data Pick (b : ℕ) : List ℕ → List ℕ → Type 0 where
  here : {us : List ℕ} → Pick b us (b ∷ us)
  there : {u : ℕ} {us us' : List ℕ} → Pick b us us' → Pick b (u ∷ us) (u ∷ us')

Apart-Pick :
    (d : Store) (c n b : ℕ) {us us' : List ℕ}
    → Pick b us us'
    → Apart d c n us'
    → ((b + (d b).size ≤ c) ⊎ (c + n ≤ b)) × Apart d c n us
Apart-Pick d c n b here away = away
Apart-Pick d c n b (there p) (first, away) =
    let (at_b, more) = Apart-Pick d c n b p away in (at_b, (first, more))

-- A block in use is right, and so are the others without it.
InUse-Pick :
    (d : Store) (pool : List ℕ) (b : ℕ) {us us' : List ℕ}
    → Pick b us us'
    → InUse d pool us'
    → InUse d pool (b ∷ us)
InUse-Pick d pool b here u = u
InUse-Pick d pool b (there {u} p) (used, big, apart, others, more) =
    let (used', big', apart', others', more') = InUse-Pick d pool b p more in
    let (at_b, away) = Apart-Pick d u (d u).size b p others in
    (used', big', apart', (ground arith, others'), (used, big, apart, away, more'))

module _ (h : Heap) (us us' : List ℕ) (b : ℕ) (v : IsValid h us') (p : Pick b us us') where
  abbrev marked : Store
  marked = put h.desc b (record (h.desc b) { magic = magic_free })

  abbrev added : List ℕ × Store
  added = add_free b h.pool marked

  at_b : marked b ≡ record (h.desc b) { magic = magic_free }
  at_b = ground arith

  same : Agree h.desc marked h.pool
  same =
      let (used, big, apart, others, more) = InUse-Pick h.desc h.pool b p v.in_use in
      Agree-Apart h.desc 0 b (h.desc b).size _ h.pool (omega arith) v.chain apart

  Inserted-added : Inserted marked added.1 b 0 h.pool added.0
  Inserted-added =
      let (used, big, apart, others, more) = InUse-Pick h.desc h.pool b p v.in_use in
      add_free-Inserted marked b (rw at_b refl) (rw at_b big) 0 h.pool
        (Chain-Agree h.desc marked 0 h.pool same v.chain) (omega arith)
        (rw at_b (Apart-Agree h.desc marked b (h.desc b).size h.pool same apart))

  -- Whatever does not meet the block and the pool is kept.
  moves : Moves h.desc added.1 b (h.desc b).size h.pool added.0
  moves c k away pos out =
      let (used, big, _, _, _) = InUse-Pick h.desc h.pool b p v.in_use in
      let (away', kept) =
        Inserted-added.apart c k (Apart-Agree h.desc marked c k h.pool same away) pos
          (rw at_b out) in
      (away', ground (arith, kept))

  -- `free` of a block in use does not panic. The heap stays right without the block, its bytes are
  -- in the pool, and the other blocks in use keep their descriptors.
  pub free_lem :
      (h' : Heap) × (free (desc_ptr b) h ≡ some h')
      × IsValid h' us
      × (bytes h'.desc h'.pool ≡ bytes h.desc h.pool + (h.desc b).size)
      × Agree h.desc h'.desc us
      × (h'.mem ≡ h.mem)
  unfolding free
  free_lem =
      let (used, big, apart, others, more) = InUse-Pick h.desc h.pool b p v.in_use in
      let e : ptr_desc (desc_ptr b) ≡ b = omega arith in
      let not_null : (desc_ptr b == 0) ≡ false = ground arith in
      (
        record h { desc = added.1; pool = added.0 },
        rw (e, used, not_null) refl,
        record {
          chain = Inserted-added.chain;
          in_use = InUse-moves h.desc added.1 b (h.desc b).size h.pool added.0 moves us others more;
          pages = λ q clear.
              let (a, a') = v.pages q clear in
              let (at_b', a'') = Apart-Pick h.desc (q * 4096) 4096 b p a' in
              (
                (moves (q * 4096) 4096 a (omega arith) at_b').0,
                Apart-Agree h.desc added.1 (q * 4096) 4096 us
                    (Agree-moves h.desc added.1 b (h.desc b).size h.pool added.0 moves us others
                      more)
                    a'',
              );
          mem_valid = v.mem_valid;
        },
        omega (
          arith,
          Inserted-added.total,
          bytes-Agree h.desc marked h.pool same,
          ap (λ x. x.size) at_b,
        ),
        Agree-moves h.desc added.1 b (h.desc b).size h.pool added.0 moves us others more,
        refl,
      )
