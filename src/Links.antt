-- ===== src/Links.antt =====
-- Lists that are linked by pointers, as in src/mtab.c and in src/fsmem.c: `next` is the field of that name by the
-- address of a node, a null pointer is `none`, and a walk runs on fuel.
pub mod Chain
use pcboot.Prelude.{ℕ, zero, suc, Bool, Option, none, some, ◌==◌, if◌then◌else◌}

abbrev pub Next : Type 0
Next = ℕ → Option ℕ

abbrev pub set_next : Next → ℕ → Option ℕ → Next
set_next next a v b = if b == a then v else next b

-- The pointer that `prev` has: `none` is the dummy node in front of the list.
abbrev pub follow : Next → (head prev : Option ℕ) → Option ℕ
follow next head none = head
follow next head (some p) = next p

-- What the loop that takes a node out of a list leaves: no end within the fuel, no such node, or the node with the
-- one in front, and the pointers.
pub data Unlinked : Type 0 where
  endless : Unlinked
  missing : Unlinked
  unlinked : (node : ℕ) (prev : Option ℕ) (next : Next) (head : Option ℕ) → Unlinked

pub bypass : Next → (head prev : Option ℕ) (node : ℕ) → Unlinked
bypass next head none node = unlinked node none next (next node)
bypass next head (some p) node = unlinked node (some p) (set_next next p (next node)) head

pub unlink : (fuel : ℕ) (test : ℕ → Bool) → Next → (head prev : Option ℕ) → Unlinked
unlink zero test next head prev = endless
unlink (suc fuel) test next head prev = elim (follow next head prev) [
  | none ↦ missing
  | some m ↦
      let rest = unlink fuel test next head (some m) in
      if test m then bypass next head prev m else rest
]
