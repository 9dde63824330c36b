-- ===== src/Fsmem/Tree/Tests.antt =====
-- The root 1 with the directory 2, named a, and the file 3, named b, in it; the directory 5, named d, is in 2; the
-- node 4 is new.
use pcboot.Prelude.{ℕ, ◌≡◌, refl, false, [], ◌∷◌, none, some, ◌==◌, if◌then◌else◌, arith, inl}
use pcboot.Prelude.Int.{◌-ℤ◌}
use pcboot.Strings.{strcmp, strcasecmp}
use pcboot.Fs.{fsnode_file, fsnode_dir}
use pcboot.Fs.Path.{AreNames}
use pcboot.Fsmem.Tree.{Nodes, enoent, remove, find_entry, find_loop, found}
use pcboot.Fsmem.Tree.Children.{IsDir}
use pcboot.Fsmem.Tree.Remove.{RemovedFrom, remove-RemovedFrom}
use pcboot.Fsmem.Tree.Open.{open_loop, open_path, finish, failed}
use pcboot.Fsmem.Tree.Open.Walk.{open_loop-Leads}
use pcboot.Fsmem.Tree.Open.Absent.{EndsAs, open_path-EndsAs}

abbrev tree : Nodes
tree = record {
  kind = λ n. if n == 3 then fsnode_file else fsnode_dir;
  name =
      λ n. if n == 2 then 97 ∷ [] else if n == 3 then 98 ∷ [] else if n == 5 then 100 ∷ [] else [];
  parent = λ n. if n == 1 then none else if n == 5 then some 2 else some 1;
  next = λ n. if n == 2 then some 3 else none;
  clist = λ n. if n == 1 then some 2 else if n == 2 then some 5 else none;
  ctail = λ n. if n == 1 then some 3 else if n == 2 then some 5 else none;
  mount = λ n. none;
}

root-IsDir : IsDir tree 1 (2 ∷ 3 ∷ [])
root-IsDir = ((refl, (refl, refl)), ((λ e. absurd (omega (arith, e)), tt), (tt, tt)), refl)

-- The last child is removed.
remove-RemovedFrom_example : RemovedFrom 3 1 (2 ∷ 3 ∷ []) (remove 3 3 tree)
remove-RemovedFrom_example =
    remove-RemovedFrom 3 3 1 (2 ∷ 3 ∷ []) tree (omega arith) refl (inl refl) root-IsDir

at_child : (child : ℕ) × (find_entry 3 tree 1 (97 ∷ []) ≡ found (some child)) × (child ≡ 2)
unfolding find_entry find_loop strcmp strcasecmp ◌-ℤ◌
at_child = (2, refl, refl)

-- The path a//
open_loop-Leads_example : open_loop 2 3 tree 1 (97 ∷ 47 ∷ 47 ∷ []) 0 none ≡ finish none 2 0 tree
open_loop-Leads_example =
    open_loop-Leads 2 3 tree 1 ((97 ∷ [], 2) ∷ []) 2 0 none (omega arith)
      (omega arith, omega arith, (λ e. absurd (omega (arith, e)), tt), tt) (refl, refl, at_child)

-- The path /a//c
spelled-AreNames : AreNames 121 ((97 ∷ [], 1) ∷ (99 ∷ [], 0) ∷ [])
spelled-AreNames = (
  omega arith,
  omega arith,
  (λ e. absurd (omega (arith, e)), tt),
  (omega arith, omega arith, (λ e. absurd (omega (arith, e)), tt), tt),
)

a-IsDir : IsDir tree 2 (5 ∷ [])
a-IsDir = ((refl, refl), (tt, tt), refl)

open_path-EndsAs_example :
    EndsAs false 3 4 2
      (99 ∷ [])
      (5 ∷ [])
      (open_path 3 3 tree 1 none (47 ∷ 97 ∷ 47 ∷ 47 ∷ 99 ∷ []) 1 (some 4))
unfolding strcmp strcasecmp ◌-ℤ◌
open_path-EndsAs_example =
    open_path-EndsAs 3 3 tree 1 none ((97 ∷ [], 1) ∷ []) (99 ∷ [], 0) 4 2 1 (5 ∷ []) (omega arith)
      (omega arith) spelled-AreNames (refl, refl, at_child) refl refl
      (λ e. absurd (omega (arith, e))) (λ e. absurd (omega (arith, e)), tt) refl refl (refl, tt)
      a-IsDir

-- The same without FSO_CREATE
not_created : open_path 3 3 tree 1 none (47 ∷ 97 ∷ 47 ∷ 47 ∷ 99 ∷ []) 0 (some 4) ≡ failed enoent
unfolding strcmp strcasecmp ◌-ℤ◌
not_created =
    open_path-EndsAs 3 3 tree 1 none ((97 ∷ [], 1) ∷ []) (99 ∷ [], 0) 4 2 0 (5 ∷ []) (omega arith)
      (omega arith) spelled-AreNames (refl, refl, at_child) refl refl
      (λ e. absurd (omega (arith, e))) (λ e. absurd (omega (arith, e)), tt) refl refl (refl, tt)
      a-IsDir
