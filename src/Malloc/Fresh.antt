-- ===== src/Malloc/Fresh.antt =====
-- The pages that `malloc` of malloc.c takes when no block of the pool has room.
use pcboot.Prelude.{ℕ, zero, suc, ◌+◌, ◌*◌, ◌≤◌, ◌<◌, ◌≡◌, List, [], ◌∷◌, arith}
use pcboot.Mem.{Mem, heap, page, alloc_ppages}
use pcboot.Mem.Range.{Took}
use pcboot.Mem.Alloc.{alloc_ppages-Ensures}
use pcboot.Malloc.{Store, Heap, desc_size}
use pcboot.Malloc.Chain.{Chain, Apart}
use pcboot.Malloc.Valid.{InUse, Held, IsValid}

abbrev AllBig : Store → List ℕ → Type 0
AllBig d [] = Unit
AllBig d (a ∷ r) = (desc_size ≤ (d a).size) × AllBig d r

Chain-AllBig : (d : Store) (lo : ℕ) (p : List ℕ) → Chain d lo p → AllBig d p
Chain-AllBig d lo [] c = tt
Chain-AllBig d lo (a ∷ r) (le, fr, big, c) = (big, Chain-AllBig d (a + (d a).size) r c)

InUse-AllBig : (d : Store) (p us : List ℕ) → InUse d p us → AllBig d us
InUse-AllBig d p [] u = tt
InUse-AllBig d p (a ∷ us) (used, big, apart, others, more) = (big, InUse-AllBig d p us more)

Apart-join :
    (d : Store) (b n k : ℕ) (p : List ℕ)
    → AllBig d p
    → Apart d b n p
    → Apart d (b + n) k p
    → Apart d b (n + k) p
Apart-join d b n k [] big lo hi = tt
Apart-join d b n k (a ∷ r) (size, big) (here, lo) (here', hi) =
    (ground arith, Apart-join d b n k r big lo hi)

-- A range of pages meets what one of its pages meets.
Apart-pages :
    (d : Store) (p : List ℕ)
    → AllBig d p
    → (n pg : ℕ) → 0 < n
    → ((q : ℕ) → pg ≤ q → q < pg + n → Apart d (q * 4096) 4096 p)
    → Apart d (pg * 4096) (n * 4096) p
Apart-pages d p big zero pg pos each = elim pos [ ]
Apart-pages d p big (suc zero) pg pos each = each pg (omega arith) (omega arith)
Apart-pages d p big (suc (suc n)) pg pos each =
    let e : pg * 4096 + 4096 ≡ (pg + 1) * 4096 = omega arith in
    let rest : Apart d ((pg + 1) * 4096) (suc n * 4096) p =
      Apart-pages d p big (suc n) (pg + 1) (omega arith)
        (λ q lo hi. each q (omega arith) (omega arith)) in
    let whole : 4096 + suc n * 4096 ≡ suc (suc n) * 4096 = omega arith in
    rw whole at (
      Apart-join d (pg * 4096) 4096 (suc n * 4096) p big (each pg (omega arith) (omega arith))
        (rw e rest))

pub record Fresh (h : Heap) (us : List ℕ) (n pg : ℕ) (m' : Mem) : Type 0 where
  pub valid : IsValid (record h { mem = m' }) us
  pub from_pool : Apart h.desc (pg * 4096) (n * 4096) h.pool
  pub from_used : Apart h.desc (pg * 4096) (n * 4096) us
  pub held : Held m' (pg * 4096) (n * 4096)

pub alloc_ppages-Fresh :
    (h : Heap) (us : List ℕ) (n pg : ℕ) (m' : Mem)
    → 0 < n
    → IsValid h us
    → alloc_ppages n heap h.mem ≡ (page pg, m')
    → Fresh h us n pg m'
alloc_ppages-Fresh h us n pg m' pos v e =
    let (found, on, valid) = alloc_ppages-Ensures n heap h.mem pos v.mem_valid in
    let took : Took n pg h.mem m' = (rw e at found).0 in
    record {
      valid = record {
        chain = v.chain;
        in_use = v.in_use;
        pages = λ q clear. v.pages q (ground (arith, took.now q));
        mem_valid = rw e at valid;
      };
      from_pool =
          Apart-pages h.desc h.pool (Chain-AllBig h.desc 0 h.pool v.chain) n pg pos
            λ q lo hi. (v.pages q (took.were_free q lo hi)).0;
      from_used =
          Apart-pages h.desc us (InUse-AllBig h.desc h.pool us v.in_use) n pg pos
            λ q lo hi. (v.pages q (took.were_free q lo hi)).1;
      held = λ q clear. ground (arith, took.now q);
    }
