-- ===== src/Fsmem/Tree/Remove.antt =====
-- `remove` of fsmem.c: a child is taken out of its directory.
use mathlib.Core.Option.{some-injective}
use pcboot.Prelude.{
  ℕ, ◌<◌, ◌≡◌, ◌≢◌, ◌⊎◌, refl, sym, subst, ap, ◌∙◌, true, false, List, Option, none, some, ◌==◌,
  arith, length, Bool-cases, inl, inr,
}
use pcboot.Links.{Next, set_next, Unlinked, endless, missing, unlinked, unlink}
use pcboot.Links.Chain.{
  Linked, AreDistinct, any, erase_first, pred_of, Erased, unlink-Erased, set_next_same,
}
use pcboot.Fs.{Kind, fsnode_file, fsnode_dir}
use pcboot.Fsmem.Tree.{
  Nodes, tail_after, after_unlink, Removal, refused, absent, gave_up, removed, remove_from,
  remove_kind, remove,
}
use pcboot.Fsmem.Tree.Children.{TailOf, IsDir, is, tail_back, tail_stays, AreDistinct-erased}

-- What `remove` promises for a node among the children of `par`
abbrev pub RemovedFrom : (n par : ℕ) → List ℕ → Removal → Type 0
RemovedFrom n par l (refused e) = ⊥
RemovedFrom n par l absent = any (is n) l ≡ false
RemovedFrom n par l gave_up = ⊥
RemovedFrom n par l (removed t) = (any (is n) l ≡ true) × IsDir t par (erase_first (is n) l)

tail_after-TailOf :
    (par n : ℕ) (prev : Option ℕ) (ctail : Next) (o : Option ℕ) (l : List ℕ)
    → ctail par ≡ o
    → AreDistinct l
    → TailOf o l
    → any (is n) l ≡ true
    → prev ≡ pred_of (is n) none l
    → TailOf (tail_after par n prev ctail o par) (erase_first (is n) l)
unfolding tail_after
tail_after-TailOf par n prev ctail none l e d t found at_prev =
    rw e (tail_stays n none l (λ e. cc e) t)
tail_after-TailOf par n prev ctail (some a) l e d t found at_prev = elim (Bool-cases (a == n)) [
  | inl hit ↦
      let same : a ≡ n = ground (arith, hit) in
      let back : TailOf (pred_of (is n) none l) (erase_first (is n) l) =
        tail_back n none l d (subst (λ k. TailOf (some k) l) same t) found in
      rw (hit, set_next_same ctail par prev, at_prev) back
  | inr miss ↦
      let other : some a ≢ some n = λ e. absurd (ground (arith, miss, some-injective _ _ e)) in
      rw (miss, e) (tail_stays n (some a) l other t)
]

after_unlink-RemovedFrom :
    (par n : ℕ) (t : Nodes) (l : List ℕ) (u : Unlinked)
    → IsDir t par l
    → Erased (is n) l u
    → RemovedFrom n par l (after_unlink par t u)
unfolding after_unlink
after_unlink-RemovedFrom par n t l endless v e = absurd e
after_unlink-RemovedFrom par n t l missing v e = e
after_unlink-RemovedFrom par n t l (unlinked m prev next head) (linked, d, tail)
      (found, hit, linked', at_prev) =
    let same : m ≡ n = ground (arith, hit) in
    let at_head : set_next t.clist par head par ≡ head = set_next_same t.clist par head in
    let tail' : TailOf (tail_after par n prev t.ctail (t.ctail par) par) (erase_first (is n) l) =
      tail_after-TailOf par n prev t.ctail (t.ctail par) l refl d tail found at_prev in
    (
      found,
      (
        subst (λ o. Linked next o (erase_first (is n) l)) (sym at_head) linked',
        AreDistinct-erased n l d,
        subst (λ k. TailOf (tail_after par k prev t.ctail (t.ctail par) par) (erase_first (is n) l))
            (sym same) tail',
      ),
    )

no_children :
    (fuel n : ℕ) (k : Kind) (t : Nodes)
    → remove_kind fuel n k none t ≡ remove_from fuel n (t.parent n) t
unfolding remove_kind
no_children fuel n fsnode_file t = refl
no_children fuel n fsnode_dir t = refl

a_file :
    (fuel n : ℕ) (clist : Option ℕ) (t : Nodes)
    → remove_kind fuel n fsnode_file clist t ≡ remove_from fuel n (t.parent n) t
unfolding remove_kind
a_file fuel n clist t = refl

-- `remove` takes a file, or a directory without children, out of its directory, in which the other children stay in
-- their order with the right last one; it gives -1 if the node is not among them.
pub remove-RemovedFrom :
    (fuel n par : ℕ) (l : List ℕ) (t : Nodes)
    → length l < fuel
    → t.parent n ≡ some par
    → (t.kind n ≡ fsnode_file) ⊎ (t.clist n ≡ none)
    → IsDir t par l
    → RemovedFrom n par l (remove fuel n t)
unfolding remove remove_from
remove-RemovedFrom fuel n par l t h at_par removable v =
    let from : remove_kind fuel n (t.kind n) (t.clist n) t ≡ remove_from fuel n (t.parent n) t =
      elim removable [
        | inl file ↦ ap (λ k. remove_kind fuel n k (t.clist n) t) file ∙ a_file fuel n (t.clist n) t
        | inr empty ↦
            ap (λ c. remove_kind fuel n (t.kind n) c t) empty ∙ no_children fuel n (t.kind n) t
      ] in
    subst (RemovedFrom n par l) (sym (from ∙ ap (λ p. remove_from fuel n p t) at_par)) (
      after_unlink-RemovedFrom par n t l (unlink fuel (λ m. m == n) t.next (t.clist par) none) v
        (unlink-Erased (λ m. m == n) t.next (t.clist par) fuel l h v.1 v.0))
