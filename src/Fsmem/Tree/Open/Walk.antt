-- ===== src/Fsmem/Tree/Open/Walk.antt =====
-- `open` of fsmem.c along directories that exist.
use pcboot.Prelude.{
  ℕ, zero, suc, ◌<◌, ◌≡◌, ap, ◌∙◌, List, [], ◌∷◌, Option, none, some, arith, length,
}
use pcboot.Fs.{fsnode_dir, fs_path_next}
use pcboot.Fs.Path.{AreNames, spelled, next-spelled, spelled-some}
use pcboot.Fsmem.Tree.{Nodes, found, find_entry}
use pcboot.Fsmem.Tree.Open.{finish, stop_at, open_loop}

-- The names lead from the node to the target, through directories that are no mount points.
abbrev pub Leads : (size : ℕ) → Nodes → (node : ℕ) (ns : List (List ℕ × ℕ)) (target : ℕ) → Type 0
Leads size t node [] target = node ≡ target
Leads size t node (n ∷ ns) target =
    (t.kind node ≡ fsnode_dir)
    × (t.mount node ≡ none)
    × ((child : ℕ) × (find_entry size t node n.0 ≡ found (some child))
        × Leads size t child ns target)

pub one_part :
    (fuel size : ℕ) (t : Nodes) (node : ℕ) (s : List ℕ) (flags : ℕ) (new : Option ℕ)
    (part : List ℕ × List ℕ) (child : ℕ)
    → 0 < length s
    → t.kind node ≡ fsnode_dir
    → t.mount node ≡ none
    → fs_path_next s 121 ≡ part
    → find_entry size t node part.0 ≡ found (some child)
    → open_loop (suc fuel) size t node s flags new ≡ open_loop fuel size t child part.1 flags new
unfolding open_loop stop_at
one_part fuel size t node [] flags new part child h dir unmounted e at_child =
    absurd (omega (arith, h))
one_part fuel size t node (c ∷ s) flags new part child h dir unmounted e at_child =
    let at_child' : find_entry size t node (fs_path_next (c ∷ s) 121).0 ≡ found (some child) =
      ap (λ r. find_entry size t node r.0) e ∙ at_child in
    rw (open_loop, dir, unmounted, at_child')
      (ap (λ r. open_loop fuel size t child r.1 flags new) e)

-- `open` of a path whose names lead to a node ends as at that node, however many separators the path has.
pub open_loop-Leads :
    (fuel size : ℕ) (t : Nodes) (node : ℕ) (ns : List (List ℕ × ℕ)) (target flags : ℕ)
    (new : Option ℕ)
    → length ns < fuel
    → AreNames 121 ns
    → Leads size t node ns target
    → open_loop fuel size t node (spelled ns) flags new ≡ finish (t.mount target) target flags t
unfolding open_loop
open_loop-Leads zero size t node ns target flags new h v leads = absurd (omega (arith, h))
open_loop-Leads (suc fuel) size t node [] target flags new h v leads =
    ap (λ k. finish (t.mount k) k flags t) leads
open_loop-Leads (suc fuel) size t node (n ∷ ns) target flags new h v
      (dir, unmounted, (child, at_child, leads)) =
    one_part fuel size t node (spelled (n ∷ ns)) flags new (n.0, spelled ns) child
      (spelled-some 121 n ns v) dir unmounted (next-spelled 121 n ns v) at_child
    ∙ open_loop-Leads fuel size t child ns target flags new (omega (arith, h)) v.3 leads
