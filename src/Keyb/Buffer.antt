-- ===== src/Keyb/Buffer.antt =====
-- Reading keys in keyb.c.
use pcboot.Prelude.{
  ℕ, ◌+◌, ◌≡◌, refl, sym, ap, ◌∙◌, List, ◌∷◌, Option, none, some, ◌==◌, if◌then◌else◌, arith,
  length, get_or, Bool-cases, inl, inr,
}
use pcboot.Ring.{Ring, pop, putback}
use pcboot.Ring.Contents.{IsValid, contents, tail, queue_putback}
use pcboot.Ring.Queue.{Popped, putback-Refines, pop-Popped}
use pcboot.Keyb.{Keyb, buf_mask, kb_getkey, kb_putback}

-- What is left of the keys `l` in the buffer once a key was put back and read.
abbrev pub left_of : List ℕ → List ℕ
left_of l = if length l + 1 == 64 then tail l else l

queue_putback-left_of : (key : ℕ) (l : List ℕ) → queue_putback 64 key l ≡ key ∷ left_of l
queue_putback-left_of key l = elim (Bool-cases (length l + 1 == 64)) [
  | inl full ↦ rw full refl
  | inr room ↦ rw room refl
]

abbrev with_keys : Keyb → Option (ℕ × Ring) → Option (ℕ × Keyb)
with_keys k none = none
with_keys k (some (x, keys)) = some (x, record k { keys = keys })

abbrev Reads : ℕ → List ℕ → Keyb → Option (ℕ × Ring) → Type 0
Reads key l k o =
    (k' : Keyb) × (with_keys k o ≡ some (key, k'))
    × (contents 64 k'.keys ≡ l)
    × IsValid 64 k'.keys
    × (k'.keystate ≡ k.keystate)

Popped-Reads :
    (key : ℕ) (l : List ℕ) (k : Keyb) (r : Ring) (o : Option (ℕ × Ring))
    → Popped 64 r o
    → contents 64 r ≡ key ∷ l
    → Reads key l k o
Popped-Reads key l k r none empty e =
    let e' : 0 ≡ length (key ∷ l) = ap length (sym empty ∙ e) in absurd (omega (arith, e'))
Popped-Reads key l k r (some (x, keys)) (e', v) e =
    let whole : x ∷ contents 64 keys ≡ key ∷ l = sym e' ∙ e in
    let first : x ≡ key = ap (λ m. get_or m 0 0) whole in
    (
      record k { keys = keys },
      ap (λ x. some (x, record k { keys = keys })) first,
      ap tail whole,
      v,
      refl,
    )

getkey_lem : (k : Keyb) → kb_getkey k ≡ with_keys k (pop buf_mask k.keys)
unfolding kb_getkey
getkey_lem k = go (pop buf_mask k.keys)
  where
    go :
        (o : Option (ℕ × Ring))
        → (elim o [ none ↦ none | some (key, keys) ↦ some (key, record k { keys = keys }) ])
          ≡ with_keys k o
    go none = refl
    go (some (x, keys)) = refl

-- A key that is put back is the next one that is read. The keys that were in the buffer follow, but
-- for the oldest one if the buffer was full.
pub kb_getkey-kb_putback :
    (key : ℕ) (k : Keyb)
    → IsValid 64 k.keys
    → (k' : Keyb) × (kb_getkey (kb_putback key k) ≡ some (key, k'))
      × (contents 64 k'.keys ≡ left_of (contents 64 k.keys))
      × IsValid 64 k'.keys
      × (k'.keystate ≡ k.keystate)
unfolding kb_getkey kb_putback
kb_getkey-kb_putback key k v =
    let (e, v') = putback-Refines 6 k.keys v (omega arith) key in
    let r = putback buf_mask key k.keys in
    let (k', same, left, valid, kept) =
      Popped-Reads key (left_of (contents 64 k.keys)) (record k { keys = r }) r (pop buf_mask r)
        (pop-Popped 6 r v' (omega arith)) (e ∙ queue_putback-left_of key (contents 64 k.keys)) in
    (k', getkey_lem (kb_putback key k) ∙ same, left, valid, kept)
