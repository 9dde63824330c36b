-- ===== src/Malloc/FreeList.antt =====
-- `free` of malloc.c: the block goes to its place in the pool, and meets its neighbours there.
use pcboot.Prelude.{
  ℕ, ◌+◌, ◌≤◌, ◌<◌, ◌≡◌, refl, ap, ◌⊎◌, inl, inr, List, [], ◌∷◌, ltb, ◌==◌, arith, Bool-cases,
}
use pcboot.Malloc.{Store, magic_free, put, insert_free, add_free, desc_size}
use pcboot.Malloc.Chain.{
  Chain, bytes, Agree, Apart, Chain-Agree, bytes-Agree, Apart-Agree, Chain-le, Agree-below,
  Agree-trans, Apart-before,
}

-- The pool `p'` in `d'` is `p` in `d` with the block `mem` added, its chain from `lo` on.
pub record Inserted (d d' : Store) (mem lo : ℕ) (p p' : List ℕ) : Type 0 where
  pub chain : Chain d' lo p'
  pub total : bytes d' p' ≡ bytes d p + (d mem).size
  -- Other bytes that are in use stay apart, with their descriptors.
  pub apart :
      (b n : ℕ)
      → Apart d b n p
      → 0 < n
      → (mem + (d mem).size ≤ b) ⊎ (b + n ≤ mem)
      → Apart d' b n p' × (d' b ≡ d b)

module _ (d : Store) (mem prev lo : ℕ) (is_free : (d mem).magic ≡ magic_free)
    (pos : desc_size ≤ (d mem).size) where
  -- `prev` is the last block of the pool.
  at_end :
      Chain d lo (prev ∷ [])
      → prev + (d prev).size ≤ mem
      → let r = insert_free mem prev [] d in Inserted d r.1 mem lo (prev ∷ []) (prev ∷ r.0)
  unfolding insert_free
  at_end (le, fr, pos', c) h = elim (Bool-cases (prev + (d prev).size == mem)) [
    | inl meets ↦ rw meets (record {
      chain = ground arith;
      total = ground arith;
      apart = λ b n ap pos'' out. ground arith;
    })
    | inr gap ↦ rw gap (record {
      chain = (le, fr, pos', (h, is_free, pos, tt));
      total = omega arith;
      apart = λ b n ap pos'' out. ((ap.0, (out, tt)), refl);
    })
  ]

  module _ (cur : ℕ) (r : List ℕ) where
    -- The memory where the block is merged with the one that follows it.
    abbrev merged : Store
    merged =
        put (put d mem (record (d mem) { size = (d mem).size + (d cur).size })) cur
          (record (d cur) { magic = 0 })

    -- In front of `cur`, from `at` on.
    in_front :
        (at : ℕ)
        → at ≤ mem
        → Chain d at (cur ∷ r)
        → mem + (d mem).size < cur
        → Inserted d d mem at (cur ∷ r) (mem ∷ cur ∷ r)
    in_front at h (le, fr, pos', c) lt = record {
      chain = (h, is_free, pos, (omega arith, fr, pos', c));
      total = omega arith;
      apart = λ b n ap pos'' out. ((out, ap), refl);
    }

    merge :
        (at : ℕ)
        → at ≤ mem
        → Chain d at (cur ∷ r)
        → cur ≡ mem + (d mem).size
        → Inserted d merged mem at (cur ∷ r) (mem ∷ r)
    merge at h (le, fr, pos', c) e =
        let first : Store = put d mem (record (d mem) { size = (d mem).size + (d cur).size }) in
        let same : Agree d first r = Agree-below d (cur + (d cur).size) mem _ r (omega arith) c in
        let same' : Agree d merged r = Agree-trans d first merged r same (
          Agree-below first (cur + (d cur).size) cur _ r (omega arith)
            (Chain-Agree d first (cur + (d cur).size) r same c)) in
        let at_mem : merged mem ≡ record (d mem) { size = (d mem).size + (d cur).size } =
          ground arith in
        record {
          chain = (
            h,
            ground (arith, at_mem),
            ground (arith, at_mem),
            Chain-le merged (mem + (merged mem).size) (cur + (d cur).size) r
                (ground (arith, at_mem)) (Chain-Agree d merged (cur + (d cur).size) r same' c),
          );
          total = ground (arith, at_mem, bytes-Agree d merged r same');
          apart = λ b n ap pos'' out.
              ((ground (arith, at_mem), Apart-Agree d merged b n r same' ap.1), ground arith);
        }

    -- One step of the walk, with what the rest of the walk does.
    three_ways :
        (at prev' : ℕ)
        → at ≤ mem
        → Chain d at (cur ∷ r)
        → Apart d mem (d mem).size (cur ∷ r)
        → (cur + (d cur).size ≤ mem
            → let further = insert_free mem cur r d in
              Inserted d further.1 mem at (cur ∷ r) (cur ∷ further.0))
        → let whole = insert_free mem prev' (cur ∷ r) d in
          Inserted d whole.1 mem at (cur ∷ r) whole.0
    unfolding insert_free
    three_ways at prev' h c meets_none ih = elim (Bool-cases (cur == mem + (d mem).size)) [
      | inl meets ↦ rw meets (merge at h c (ground arith))
      | inr unmet ↦ elim (Bool-cases (ltb (mem + (d mem).size) cur)) [
        | inl before ↦ rw (unmet, before) (in_front at h c (ground arith))
        | inr behind ↦ rw (unmet, behind) (ih (ground arith))
      ]
    ]

  cons_prev :
      (d' : Store) (p p' : List ℕ)
      → Chain d lo (prev ∷ p)
      → prev + (d prev).size ≤ mem
      → Inserted d d' mem (prev + (d prev).size) p p'
      → Inserted d d' mem lo (prev ∷ p) (prev ∷ p')
  cons_prev d' p p' (le, fr, pos', c) h i =
      let (_, same) =
        i.apart prev (d prev).size
          (Apart-before d (prev + (d prev).size) prev (d prev).size p (omega arith) c) (omega arith)
          (inr h) in
      record {
        chain = rw same (le, fr, pos', i.chain);
        total = ground (arith, i.total);
        apart = λ b n ap pos'' out.
            let (rest, kept) = i.apart b n ap.1 pos'' out in ((rw same (ap.0), rest), kept);
      }

module _ (d : Store) (mem : ℕ) (is_free : (d mem).magic ≡ magic_free)
    (pos : desc_size ≤ (d mem).size) where
  insert_free-Inserted :
      (prev lo : ℕ) (p : List ℕ)
      → Chain d lo (prev ∷ p)
      → prev + (d prev).size ≤ mem
      → Apart d mem (d mem).size p
      → let r = insert_free mem prev p d in Inserted d r.1 mem lo (prev ∷ p) (prev ∷ r.0)
  insert_free-Inserted prev lo [] c h ap = at_end d mem prev lo is_free pos c h
  insert_free-Inserted prev lo (cur ∷ r) c h ap = cons_prev d mem prev lo is_free pos _ _ _ c h (
      three_ways d mem prev lo is_free pos cur r (prev + (d prev).size) prev h c.3 ap
        λ further. insert_free-Inserted cur (prev + (d prev).size) r c.3 further ap.1)

  -- The whole walk, in a memory in which the block is marked.
  pub add_free-Inserted :
      (lo : ℕ) (p : List ℕ)
      → Chain d lo p
      → lo ≤ mem
      → Apart d mem (d mem).size p
      → Inserted d (add_free mem p d).1 mem lo p (add_free mem p d).0
  unfolding add_free
  add_free-Inserted lo [] c h ap = record {
    chain = (h, is_free, pos, tt);
    total = omega arith;
    apart = λ b n ap' pos' out. ((out, tt), refl);
  }
  add_free-Inserted lo (cur ∷ r) c h ap =
      three_ways d mem 0 lo is_free pos cur r lo 0 h c ap
        λ further. insert_free-Inserted cur lo r c further ap.1
