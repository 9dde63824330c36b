-- ===== src/Malloc/Chain.antt =====
-- The pool of malloc.c as a chain of disjoint free blocks.
use pcboot.Prelude.{ℕ, ◌+◌, ◌≤◌, ◌<◌, ◌≡◌, refl, ap, ◌∙◌, ◌⊎◌, inr, List, [], ◌∷◌, arith}
use pcboot.Malloc.{Store, Desc, magic_free, put, desc_size}

-- From `lo` on, in the order of their addresses, the blocks follow one another and are free.
abbrev pub Chain : Store → ℕ → List ℕ → Type 0
Chain d lo [] = Unit
Chain d lo (a ∷ r) =
    (lo ≤ a) × ((d a).magic ≡ magic_free) × (desc_size ≤ (d a).size) × Chain d (a + (d a).size) r

abbrev pub bytes : Store → List ℕ → ℕ
bytes d [] = 0
bytes d (a ∷ r) = (d a).size + bytes d r

-- The two memories have the same descriptors on the pool.
abbrev pub Agree : Store → Store → List ℕ → Type 0
Agree d d' [] = Unit
Agree d d' (a ∷ r) = (d' a ≡ d a) × Agree d d' r

-- The `n` bytes from `b` on meet no block of the pool.
abbrev pub Apart : Store → ℕ → ℕ → List ℕ → Type 0
Apart d b n [] = Unit
Apart d b n (a ∷ r) = ((a + (d a).size ≤ b) ⊎ (b + n ≤ a)) × Apart d b n r

pub Chain-Agree : (d d' : Store) (lo : ℕ) (p : List ℕ) → Agree d d' p → Chain d lo p → Chain d' lo p
Chain-Agree d d' lo [] e c = tt
Chain-Agree d d' lo (a ∷ r) (e, es) (le, fr, pos, c) =
    rw e (le, fr, pos, Chain-Agree d d' (a + (d a).size) r es c)

pub bytes-Agree : (d d' : Store) (p : List ℕ) → Agree d d' p → bytes d' p ≡ bytes d p
bytes-Agree d d' [] e = refl
bytes-Agree d d' (a ∷ r) (e, es) = rw (e, bytes-Agree d d' r es)

pub Apart-Agree :
    (d d' : Store) (b n : ℕ) (p : List ℕ) → Agree d d' p → Apart d b n p → Apart d' b n p
Apart-Agree d d' b n [] e c = tt
Apart-Agree d d' b n (a ∷ r) (e, es) (here, c) = rw e (here, Apart-Agree d d' b n r es c)

pub Chain-le : (d : Store) (lo hi : ℕ) (p : List ℕ) → lo ≤ hi → Chain d hi p → Chain d lo p
Chain-le d lo hi [] h c = tt
Chain-le d lo hi (a ∷ r) h (le, fr, pos, c) = (omega arith, fr, pos, c)

-- A change before the chain, or inside bytes that it does not meet, is not seen on it.
pub Agree-below :
    (d : Store) (lo x : ℕ) (v : Desc) (p : List ℕ) → x < lo → Chain d lo p → Agree d (put d x v) p
Agree-below d lo x v [] h c = tt
Agree-below d lo x v (a ∷ r) h (le, fr, pos, c) =
    (ground arith, Agree-below d (a + (d a).size) x v r (omega arith) c)

pub Agree-Apart :
    (d : Store) (lo b n : ℕ) (v : Desc) (p : List ℕ)
    → 0 < n
    → Chain d lo p
    → Apart d b n p
    → Agree d (put d b v) p
Agree-Apart d lo b n v [] h c ap = tt
Agree-Apart d lo b n v (a ∷ r) h (le, fr, pos, c) (here, ap) =
    (ground arith, Agree-Apart d (a + (d a).size) b n v r h c ap)

pub Agree-trans : (d d' d'' : Store) (p : List ℕ) → Agree d d' p → Agree d' d'' p → Agree d d'' p
Agree-trans d d' d'' [] e f = tt
Agree-trans d d' d'' (a ∷ r) (e, es) (f, fs) = (f ∙ e, Agree-trans d d' d'' r es fs)

-- Bytes before a chain meet none of its blocks.
pub Apart-before : (d : Store) (lo b n : ℕ) (p : List ℕ) → b + n ≤ lo → Chain d lo p → Apart d b n p
Apart-before d lo b n [] h c = tt
Apart-before d lo b n (a ∷ r) h (le, fr, pos, c) =
    (inr (omega arith), Apart-before d (a + (d a).size) b n r (omega arith) c)

-- Fewer bytes meet fewer blocks.
pub Apart-part :
    (d : Store) (b n b' n' : ℕ) (p : List ℕ)
    → b ≤ b'
    → b' + n' ≤ b + n
    → Apart d b n p
    → Apart d b' n' p
Apart-part d b n b' n' [] lo hi c = tt
Apart-part d b n b' n' (a ∷ r) lo hi (here, c) = (ground arith, Apart-part d b n b' n' r lo hi c)
