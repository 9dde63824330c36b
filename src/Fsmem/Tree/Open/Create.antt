-- ===== src/Fsmem/Tree/Open/Create.antt =====
-- What `open` of fsmem.c creates is found under its name.
use pcboot.Prelude.{
  ℕ, zero, suc, ◌<◌, ◌≡◌, ◌≢◌, refl, sym, subst, ap, ◌∙◌, true, false, List, [], ◌∷◌, ◌++◌, Option,
  none, some, arith, length, ◌==◌, if◌then◌else◌, map,
}
use pcboot.Strings.{strcmp, strcasecmp, is_zero, tolower}
use pcboot.Strings.Compare.{strcmp_self, strcasecmp-strcmp}
use pcboot.Links.{set_next}
use pcboot.Links.Chain.{Linked, IsFresh, Linked-fresh, set_next_same, set_next_other}
use pcboot.Fs.{Kind, dot, dot_dot}
use pcboot.Fsmem.Tree.{
  Nodes, set_name, found, find_loop, find_entry, add_child, link_child, alloc_node,
}
use pcboot.Fsmem.Tree.Children.{IsDir, TailOf}
use pcboot.Fsmem.Tree.Add.{AddedTo, add_child-AddedTo}
use pcboot.Fsmem.Tree.Open.{
  Opened, opened, crossing, failed, refused, null_write, unfinished, new_child, kind_of, named,
  create,
}

-- None of the nodes has the name.
abbrev pub NoneNamed : (ℕ → List ℕ) → List ℕ → List ℕ → Type 0
NoneNamed names name [] = Unit
NoneNamed names name (a ∷ l) =
    (is_zero (strcasecmp (names a) name) ≡ false) × NoneNamed names name l

find_last :
    (size : ℕ) (t : Nodes) (name : List ℕ) (o : Option ℕ) (l : List ℕ) (n : ℕ)
    → length l < size
    → Linked t.next o (l ++ n ∷ [])
    → NoneNamed t.name name l
    → is_zero (strcasecmp (t.name n) name) ≡ true
    → find_loop size t name o ≡ found (some n)
unfolding find_loop
find_last zero t name o l n h linked others hit = absurd (omega (arith, h))
find_last (suc size) t name o [] n h (at_o, rest) others hit =
    ap (find_loop (suc size) t name) at_o
    ∙ ap (λ b. if b then found (some n) else find_loop size t name (t.next n)) hit
find_last (suc size) t name o (a ∷ l) n h (at_o, rest) (miss, others) hit =
    ap (find_loop (suc size) t name) at_o
    ∙ ap (λ b. if b then found (some a) else find_loop size t name (t.next a)) miss
    ∙ find_last size t name (t.next a) l n (omega (arith, h)) rest others hit

same_name : (name : List ℕ) → is_zero (strcasecmp name name) ≡ true
same_name name = ap is_zero (strcasecmp-strcmp name name ∙ strcmp_self (map tolower name))

-- A new node with a name leaves the names of the others.
set_name_same : (f : ℕ → List ℕ) (n : ℕ) (v : List ℕ) → set_name f n v n ≡ v
set_name_same f n v = let e : (n == n) ≡ true = ground arith in rw e refl

set_name_other : (f : ℕ → List ℕ) (n a : ℕ) (v : List ℕ) → n ≢ a → set_name f n v a ≡ f a
set_name_other f n a v ne = let e : (a == n) ≡ false = ground (arith, ne) in rw e refl

NoneNamed-named :
    (f : ℕ → List ℕ) (name : List ℕ) (n : ℕ) (l : List ℕ)
    → IsFresh n l
    → NoneNamed f name l
    → NoneNamed (set_name (set_name f n []) n name) name l
NoneNamed-named f name n [] fresh h = tt
NoneNamed-named f name n (a ∷ l) (ne, fresh) (miss, h) =
    let e : set_name (set_name f n []) n name a ≡ f a =
      set_name_other (set_name f n []) n a name ne ∙ set_name_other f n a [] ne in
    (ap (λ s. is_zero (strcasecmp s name)) e ∙ miss, NoneNamed-named f name n l fresh h)

abbrev SameNames : Nodes → Option Nodes → Type 0
SameNames t none = Unit
SameNames t (some t') = t'.name ≡ t.name

link_child-SameNames :
    (dir n : ℕ) (o tail : Option ℕ) (t : Nodes) → SameNames t (link_child dir n o tail t)
unfolding link_child
link_child-SameNames dir n none tail t = refl
link_child-SameNames dir n (some first) none t = tt
link_child-SameNames dir n (some first) (some last) t = refl

-- What `create` promises: the node is the last child, and is found under the name.
abbrev pub CreatedAs : (size n dir : ℕ) (name l : List ℕ) → Opened → Type 0
CreatedAs size n dir name l (opened n' t) =
    (n' ≡ n) × IsDir t dir (l ++ n ∷ []) × (find_entry size t dir name ≡ found (some n))
CreatedAs size n dir name l (crossing fs path) = ⊥
CreatedAs size n dir name l (failed e) = ⊥
CreatedAs size n dir name l refused = ⊥
CreatedAs size n dir name l null_write = ⊥
CreatedAs size n dir name l unfinished = ⊥

new_child-CreatedAs :
    (size n dir : ℕ) (name l : List ℕ) (t : Nodes) (o : Option Nodes)
    → length l < size
    → is_zero (strcmp name dot) ≡ false
    → is_zero (strcmp name dot_dot) ≡ false
    → NoneNamed t.name name l
    → t.name n ≡ name
    → SameNames t o
    → AddedTo n dir l o
    → CreatedAs size n dir name l (new_child n o)
unfolding new_child find_entry
new_child-CreatedAs size n dir name l t none h d dd others at_n same added = absurd added
new_child-CreatedAs size n dir name l t (some t') h d dd others at_n same (v, at_dir) =
    let hit : is_zero (strcasecmp (t'.name n) name) ≡ true =
      ap (λ f. is_zero (strcasecmp (f n) name)) same
      ∙ ap (λ s. is_zero (strcasecmp s name)) at_n
      ∙ same_name name in
    let others' : NoneNamed t'.name name l = subst (λ f. NoneNamed f name l) (sym same) others in
    (refl, v, rw (d, dd) (find_last size t' name (t'.clist dir) l n h v.0 others' hit))

named-IsDir :
    (n dir : ℕ) (k : Kind) (name l : List ℕ) (t : Nodes)
    → n ≢ dir
    → IsFresh n l
    → IsDir t dir l
    → IsDir (named n k name t) dir l
unfolding named alloc_node
named-IsDir n dir k name l t ne fresh (linked, d, tail) =
    let at_clist : set_next t.clist n none dir ≡ t.clist dir =
      set_next_other t.clist n dir none (λ e. ne (sym e)) in
    let at_ctail : set_next t.ctail n none dir ≡ t.ctail dir =
      set_next_other t.ctail n dir none (λ e. ne (sym e)) in
    (
      subst (λ o. Linked (set_next t.next n none) o l) (sym at_clist)
          (Linked-fresh t.next (t.clist dir) l n none fresh linked),
      d,
      subst (λ o. TailOf o l) (sym at_ctail) tail,
    )

-- The part of `open` that makes a child: it has the name, if the directory has none of that name in capital or small
-- letters, and a later `find_entry` gives it.
pub create-CreatedAs :
    (size n dir flags : ℕ) (name l : List ℕ) (t : Nodes)
    → length l < size
    → n ≢ dir
    → IsFresh n l
    → is_zero (strcmp name dot) ≡ false
    → is_zero (strcmp name dot_dot) ≡ false
    → NoneNamed t.name name l
    → IsDir t dir l
    → CreatedAs size n dir name l (create dir name flags (some n) t)
unfolding create add_child named alloc_node
create-CreatedAs size n dir flags name l t h ne fresh d dd others v =
    let t' : Nodes = named n (kind_of flags) name t in
    new_child-CreatedAs size n dir name l t' (add_child dir n t') h d dd
      (NoneNamed-named t.name name n l fresh others) (set_name_same (set_name t.name n []) n name)
      (link_child-SameNames dir n (t'.clist dir) (t'.ctail dir) t')
      (add_child-AddedTo n dir l t' fresh (set_next_same t.next n none)
        (named-IsDir n dir (kind_of flags) name l t ne fresh v))
