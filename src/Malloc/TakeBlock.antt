-- ===== src/Malloc/TakeBlock.antt =====
-- The walk of `malloc` of malloc.c along the pool.
use pcboot.Prelude.{
  ℕ, ◌+◌, ◌-◌, ◌^◌, ◌≤◌, ◌<◌, ◌≡◌, refl, ◌&&◌, ◌⊎◌, inl, inr, List, [], ◌∷◌, Option, none, some,
  ltb, leb, arith, Bool-cases,
}
use pcboot.Malloc.{Store, put, min_block_size, add32, take_block, desc_size}
use pcboot.Malloc.Chain.{
  Chain, bytes, Agree, Apart, Chain-Agree, bytes-Agree, Apart-Agree, Chain-le, Agree-below,
  Apart-before,
}

-- The pool `p'` in `d'` is `p` in `d` less the block `b`, of `total` bytes, and at most 23 more.
pub record Took (total : ℕ) (d d' : Store) (lo b : ℕ) (p p' : List ℕ) : Type 0 where
  pub chain : Chain d' lo p'
  pub above : lo ≤ b
  pub alone : Apart d' b total p'
  pub enough : bytes d' p' + total ≤ bytes d p
  pub waste : bytes d p < bytes d' p' + total + min_block_size
  -- Bytes that were apart from the pool are apart from the block too, with their descriptors.
  pub apart :
      (c n : ℕ)
      → Apart d c n p
      → 0 < n
      → Apart d' c n p' × (d' c ≡ d c) × ((b + total ≤ c) ⊎ (c + n ≤ b))

abbrev pub AllSmall : ℕ → Store → List ℕ → Type 0
AllSmall total d [] = Unit
AllSmall total d (a ∷ r) = ((d a).size < total) × AllSmall total d r

abbrev pub Taken : ℕ → Store → ℕ → List ℕ → Option (ℕ × List ℕ × Store) → Type 0
Taken total d lo p none = AllSmall total d p
Taken total d lo p (some (b, p', d')) = Took total d d' lo b p p'

module _ (total : ℕ) (pos : desc_size ≤ total) (fits : total + min_block_size < 2 ^ 32) (d : Store)
    (mem : ℕ) (rest : List ℕ) (lo : ℕ) (c : Chain d lo (mem ∷ rest)) where
  whole :
      total ≤ (d mem).size
      → (d mem).size < total + min_block_size
      → Took total d d lo mem (mem ∷ rest) rest
  whole h h' =
      let (le, fr, pos', c') = c in
      record {
        chain = Chain-le d lo (mem + (d mem).size) rest (omega arith) c';
        above = le;
        alone = Apart-before d (mem + (d mem).size) mem total rest (omega arith) c';
        enough = omega arith;
        waste = omega arith;
        apart = λ b n away pos''. (away.1, refl, ground arith);
      }

  split :
      total < (d mem).size
      → let d' : Store = put d mem (record (d mem) { size = (d mem).size - total }) in
        total + min_block_size ≤ (d mem).size
        → Took total d d' lo (mem + (d mem).size - total) (mem ∷ rest) (mem ∷ rest)
  split h h' =
      let (le, fr, pos', c') = c in
      let d' : Store = put d mem (record (d mem) { size = (d mem).size - total }) in
      let at_mem : d' mem ≡ record (d mem) { size = (d mem).size - total } = ground arith in
      let same : Agree d d' rest = Agree-below d (mem + (d mem).size) mem _ rest (omega arith) c' in
      let after : Chain d' (mem + (d mem).size) rest =
        Chain-Agree d d' (mem + (d mem).size) rest same c' in
      record {
        chain = (
          le,
          ground (arith, at_mem),
          ground (arith, at_mem),
          Chain-le d' (mem + (d' mem).size) (mem + (d mem).size) rest (ground (arith, at_mem))
              after,
        );
        above = omega arith;
        alone = (
          ground (arith, at_mem),
          Apart-before d' (mem + (d mem).size) (mem + (d mem).size - total) total rest (omega arith)
              after,
        );
        enough = ground (arith, at_mem, bytes-Agree d d' rest same);
        waste = ground (arith, at_mem, bytes-Agree d d' rest same);
        apart = λ b n away pos''. (
          (ground (arith, at_mem), Apart-Agree d d' b n rest same away.1),
          ground arith,
          ground arith,
        );
      }

  further :
      (o : Option (ℕ × List ℕ × Store))
      → (d mem).size < total
      → Taken total d (mem + (d mem).size) rest o
      → Taken total d lo
          (mem ∷ rest)
          (elim o [ none ↦ none | some (b, rest', d') ↦ some (b, mem ∷ rest', d') ])
  further none h t = (h, t)
  further (some (b, rest', d')) h t =
      let (le, fr, pos', c') = c in
      let (away, same, _) =
        t.apart mem (d mem).size
          (Apart-before d (mem + (d mem).size) mem (d mem).size rest (omega arith) c')
          (omega arith) in
      record {
        chain = rw same (le, fr, pos', t.chain);
        above = ground (arith, t.above);
        alone = rw same (ground (arith, t.above), t.alone);
        enough = ground (arith, same, t.enough);
        waste = ground (arith, same, t.waste);
        apart = λ c n away' pos''.
            let (rest_away, kept, clear) = t.apart c n away'.1 pos'' in
            ((rw same (away'.0), rest_away), kept, clear);
      }

-- On a sorted pool of disjoint free blocks, the walk finds nothing only if each block is smaller than
-- `total`. Otherwise it gives `total` bytes that meet no block of the pool that is left, nor any bytes
-- that the pool did not meet before. The pool stays sorted, and loses at most 23 bytes more.
pub take_block-Taken :
    (total : ℕ)
    → desc_size ≤ total
    → total + min_block_size < 2 ^ 32
    → (d : Store) (lo : ℕ) (p : List ℕ) → Chain d lo p
    → Taken total d lo p (take_block total p d)
unfolding take_block
take_block-Taken total pos fits d lo [] c = tt
take_block-Taken total pos fits d lo (mem ∷ rest) c =
    elim (Bool-cases (leb total (d mem).size && ltb (d mem).size (add32 total min_block_size))) [
      | inl exact ↦ rw exact (whole total pos fits d mem rest lo c (ground arith) (ground arith))
      | inr unmet ↦ elim (Bool-cases (ltb total (d mem).size)) [
        | inl larger ↦
            rw (unmet, larger) (split total pos fits d mem rest lo c (ground arith) (ground arith))
        | inr small ↦
            rw (unmet, small)
              (further total pos fits d mem rest lo c (take_block total rest d) (ground arith)
                (take_block-Taken total pos fits d (mem + (d mem).size) rest c.3))
      ]
    ]
