-- ===== src/Malloc/Valid.antt =====
-- What holds of the heap of malloc.c between two calls, and how a change of one block keeps it.
use pcboot.Prelude.{ℕ, ◌+◌, ◌*◌, ◌≤◌, ◌<◌, ◌≡◌, refl, true, ◌⊎◌, List, [], ◌∷◌, arith}
use pcboot.Mem.{Mem, is_free}
use pcboot.Mem.Valid
use pcboot.Malloc.{Store, Heap, magic_used, put, desc_size, used_desc}
use pcboot.Malloc.Chain.{Chain, Agree, Apart, Apart-Agree, Agree-Apart, Chain-Agree}

-- The blocks of the list are used, and meet neither one another nor the pool.
abbrev pub InUse : Store → List ℕ → List ℕ → Type 0
InUse d pool [] = Unit
InUse d pool (u ∷ us) =
    ((d u).magic ≡ magic_used)
    × (desc_size ≤ (d u).size)
    × Apart d u (d u).size pool
    × Apart d u (d u).size us
    × InUse d pool us

-- The `n` bytes from `b` on are in no page that is free.
abbrev pub Held : Mem → ℕ → ℕ → Type 0
Held m b n = (q : ℕ) → is_free m.bitmap q ≡ true → (b + n ≤ q * 4096) ⊎ (q * 4096 + 4096 ≤ b)

abbrev pub PageApart : Heap → List ℕ → ℕ → Type 0
PageApart h us q = Apart h.desc (q * 4096) 4096 h.pool × Apart h.desc (q * 4096) 4096 us

-- `us` are the blocks that have been given out and not been freed.
pub record IsValid (h : Heap) (us : List ℕ) : Type 0 where
  pub chain : Chain h.desc 0 h.pool
  pub in_use : InUse h.desc h.pool us
  -- The pages that can be given out next meet no block.
  pub pages : (q : ℕ) → is_free h.mem.bitmap q ≡ true → PageApart h us q
  pub mem_valid : Valid.IsValid h.mem

-- Bytes that are apart from the pool in `d` are so in `d'`, unless they meet the block `b`.
abbrev pub Moves : (d d' : Store) (b n : ℕ) (p p' : List ℕ) → Type 0
Moves d d' b n p p' =
    (c k : ℕ) → Apart d c k p → 0 < k → (b + n ≤ c) ⊎ (c + k ≤ b) → Apart d' c k p' × (d' c ≡ d c)

module _ (d d' : Store) (b n : ℕ) (p p' : List ℕ) (moves : Moves d d' b n p p') where
  pub Agree-moves : (us : List ℕ) → Apart d b n us → InUse d p us → Agree d d' us
  Agree-moves [] away u = tt
  Agree-moves (u ∷ us) (here, away) (_, big, apart, _, more) =
      ((moves u (d u).size apart (omega arith) (ground arith)).1, Agree-moves us away more)

  pub InUse-moves : (us : List ℕ) → Apart d b n us → InUse d p us → InUse d' p' us
  InUse-moves [] away u = tt
  InUse-moves (u ∷ us) (here, away) (used, big, apart, others, more) =
      let (apart', same) = moves u (d u).size apart (omega arith) (ground arith) in
      rw same (
        used,
        big,
        apart',
        Apart-Agree d d' u (d u).size us (Agree-moves us away more) others,
        InUse-moves us away more,
      )

-- A block that meets nothing is put to use: the heap stays right, and the other blocks are kept.
pub put_lem :
    (h : Heap) (us : List ℕ) (b n : ℕ)
    → IsValid h us
    → desc_size ≤ n
    → Apart h.desc b n h.pool
    → Apart h.desc b n us
    → Held h.mem b n
    → let d' = put h.desc b (used_desc n) in
      IsValid (record h { desc = d' }) (b ∷ us) × Agree h.desc d' h.pool × Agree h.desc d' us
put_lem h us b n v big from_pool from_used held =
    let d : Store = h.desc in
    let d' : Store = put d b (used_desc n) in
    let at_b : d' b ≡ used_desc n = ground arith in
    let same : Agree d d' h.pool =
      Agree-Apart d 0 b n (used_desc n) h.pool (omega arith) v.chain from_pool in
    let moves : Moves d d' b n h.pool h.pool =
      λ c k away pos out. (Apart-Agree d d' c k h.pool same away, ground arith) in
    let same' : Agree d d' us = Agree-moves d d' b n h.pool h.pool moves us from_used v.in_use in
    (
      record {
        chain = Chain-Agree d d' 0 h.pool same v.chain;
        in_use = rw at_b (
          refl,
          big,
          Apart-Agree d d' b n h.pool same from_pool,
          Apart-Agree d d' b n us same' from_used,
          InUse-moves d d' b n h.pool h.pool moves us from_used v.in_use,
        );
        pages = λ q free.
            let (a, a') = v.pages q free in
            (
              Apart-Agree d d' (q * 4096) 4096 h.pool same a,
              (rw at_b (held q free), Apart-Agree d d' (q * 4096) 4096 us same' a'),
            );
        mem_valid = v.mem_valid;
      },
      same,
      same',
    )
