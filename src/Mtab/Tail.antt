-- ===== src/Mtab/Tail.antt =====
-- Adding to the table of mounts and removing from it, and the pointer to the last node.
use pcboot.Prelude.{
  ℕ, ◌<◌, ◌≡◌, ◌≢◌, refl, sym, subst, ◌∙◌, Bool, true, false, List, [], ◌∷◌, ◌++◌, Option, none,
  some, if◌then◌else◌, length,
}
use mathlib.Core.Option.{some-injective}
use pcboot.Links.{set_next, Unlinked, endless, missing, unlinked, unlink}
use pcboot.Links.Chain.{
  Linked, IsFresh, AreDistinct, any, erase_first, Erased, Linked-fresh, appended, unlink-Erased,
  no_head, erase_last, any_last, append_assoc, IsFresh-last, set_next_same,
}
use pcboot.Mtab.{Mtab, succeed, link, mtab_add, is_mount_of, after_unlink, mtab_remove_node}

-- What an addition gives: a table with these nodes, the last of which is the tail.
abbrev pub Added : List ℕ → ℕ → Option (Bool × Mtab) → Type 0
Added l m none = ⊥
Added l m (some r) =
    (r.0 ≡ true) × Linked r.1.next r.1.mnt_list (l ++ m ∷ []) × (r.1.mnt_tail ≡ some m)

link-Added :
    (m last : ℕ) (l : List ℕ) (o tail : Option ℕ) (t : Mtab)
    → t.mnt_list ≡ o
    → tail ≡ some last
    → AreDistinct (l ++ last ∷ [])
    → last ≢ m
    → t.next m ≡ none
    → Linked t.next o (l ++ last ∷ [])
    → Added (l ++ last ∷ []) m (succeed (link m o tail t))
unfolding succeed link
link-Added m last l none tail t e e' d ne at_m linked = absurd (no_head t.next l last linked)
link-Added m last l (some h) none t e e' d ne at_m linked = cc e'
link-Added m last l (some h) (some last') t e e' d ne at_m linked =
    let same : last' ≡ last = some-injective _ _ e' in
    let longer : Linked (set_next t.next last (some m)) (some h) (l ++ last ∷ m ∷ []) =
      appended t.next (some h) l last m d linked ne at_m in
    let longer' : Linked (set_next t.next last' (some m)) t.mnt_list ((l ++ last ∷ []) ++ m ∷ []) =
      subst (λ k. Linked (set_next t.next k (some m)) t.mnt_list ((l ++ last ∷ []) ++ m ∷ []))
        (sym same)
        (subst (λ o. Linked (set_next t.next last (some m)) o ((l ++ last ∷ []) ++ m ∷ [])) (sym e)
          (subst (Linked (set_next t.next last (some m)) (some h)) (sym (append_assoc l [] last m))
            longer)) in
    (refl, longer', refl)

-- `mtab_add` puts a new node behind the last one.
pub mtab_add-Added :
    (m node fs last : ℕ) (l : List ℕ) (t : Mtab)
    → AreDistinct (l ++ last ∷ [])
    → IsFresh m (l ++ last ∷ [])
    → Linked t.next t.mnt_list (l ++ last ∷ [])
    → t.mnt_tail ≡ some last
    → Added (l ++ last ∷ []) m (mtab_add (some m) node fs t)
unfolding mtab_add
mtab_add-Added m node fs last l t d fresh linked tail =
    link-Added m last l t.mnt_list t.mnt_tail _ refl tail d
      (λ e. IsFresh-last m last l [] fresh (sym e)) (set_next_same t.next m none)
      (Linked-fresh t.next t.mnt_list (l ++ last ∷ []) m none fresh linked)

-- What a removal gives: nothing if no node is the mount of `node`, else a table without the first such node.
abbrev pub Removed : ℕ → Mtab → List ℕ → Option (Bool × Mtab) → Type 0
Removed node t l none = ⊥
Removed node t l (some r) =
    (r.0 ≡ any (is_mount_of t node) l)
    × Linked r.1.next r.1.mnt_list (if r.0 then erase_first (is_mount_of t node) l else l)

after_unlink-Removed :
    (node : ℕ) (t : Mtab) (l : List ℕ) (u : Unlinked)
    → Linked t.next t.mnt_list l
    → Erased (is_mount_of t node) l u
    → Removed node t l (after_unlink t u)
unfolding after_unlink
after_unlink-Removed node t l endless linked e = absurd e
after_unlink-Removed node t l missing linked e = (sym e, linked)
after_unlink-Removed node t l (unlinked m prev next head) linked (found, hit, linked', at_prev) =
    (sym found, linked')

-- `mtab_remove_node` takes the first mount of the node away, and tells whether there was one.
pub mtab_remove_node-Removed :
    (fuel node : ℕ) (l : List ℕ) (t : Mtab)
    → length l < fuel
    → AreDistinct l
    → Linked t.next t.mnt_list l
    → Removed node t l (mtab_remove_node fuel node t)
unfolding mtab_remove_node
mtab_remove_node-Removed fuel node l t h d linked =
    after_unlink-Removed node t l (unlink fuel (is_mount_of t node) t.next t.mnt_list none) linked
      (unlink-Erased (is_mount_of t node) t.next t.mnt_list fuel l h d linked)

-- A removal and then an addition
abbrev pub remove_then_add : (fuel node m node' fs : ℕ) → Mtab → Option (Bool × Mtab)
remove_then_add fuel node m node' fs t = elim (mtab_remove_node fuel node t) [
  | none ↦ none
  | some r ↦ mtab_add (some m) node' fs r.1
]

abbrev pub Lost : List ℕ → Option (Bool × Mtab) → Type 0
Lost l none = ⊥
Lost l (some r) = (r.0 ≡ true) × Linked r.1.next r.1.mnt_list l

stale_tail :
    (m q : ℕ) (l : List ℕ) (o : Option ℕ) (p : ℕ) (tail : Option ℕ) (t : Mtab)
    → t.mnt_list ≡ o
    → tail ≡ some q
    → IsFresh q (l ++ p ∷ [])
    → Linked t.next o (l ++ p ∷ [])
    → Lost (l ++ p ∷ []) (succeed (link m o tail t))
unfolding succeed link
stale_tail m q l none p tail t e e' f linked = absurd (no_head t.next l p linked)
stale_tail m q l (some h) p none t e e' f linked = cc e'
stale_tail m q l (some h) p (some q') t e e' f linked =
    let same : q ≡ q' = sym (some-injective _ _ e') in
    (
      refl,
      subst (λ o. Linked (set_next t.next q' (some m)) o (l ++ p ∷ [])) (sym e)
          (Linked-fresh t.next (some h) (l ++ p ∷ []) q' (some m)
            (subst (λ k. IsFresh k (l ++ p ∷ [])) same f) linked),
    )

loses :
    (m node' fs q p : ℕ) (l : List ℕ) (t : Mtab) (test : ℕ → Bool) (u : Unlinked)
    → any test (l ++ p ∷ []) ≡ false
    → test q ≡ true
    → IsFresh q (l ++ p ∷ [])
    → IsFresh m (l ++ p ∷ [])
    → t.mnt_tail ≡ some q
    → Erased test ((l ++ p ∷ []) ++ q ∷ []) u
    → Lost
        (l ++ p ∷ [])
        (elim (after_unlink t u) [ none ↦ none | some r ↦ mtab_add (some m) node' fs r.1 ])
unfolding after_unlink mtab_add
loses m node' fs q p l t test endless others hit f f' tail e = absurd e
loses m node' fs q p l t test missing others hit f f' tail e =
    cc (sym e ∙ any_last test (l ++ p ∷ []) q hit)
loses m node' fs q p l t test (unlinked n prev next head) others hit f f' tail
      (found, hit', linked, at_prev) =
    stale_tail m q l head p t.mnt_tail _ refl tail f (
      Linked-fresh next head (l ++ p ∷ []) m none f'
        (subst (Linked next head) (erase_last test (l ++ p ∷ []) q others hit) linked))

-- `mtab_remove_node` leaves the tail at the node that it takes. If that was the last of several nodes, the next
-- `mtab_add` succeeds, but links the new node behind the one that is gone: the table does not have it.
pub mtab_remove_node-loses :
    (fuel node m node' fs q p : ℕ) (l : List ℕ) (t : Mtab)
    → length ((l ++ p ∷ []) ++ q ∷ []) < fuel
    → AreDistinct ((l ++ p ∷ []) ++ q ∷ [])
    → Linked t.next t.mnt_list ((l ++ p ∷ []) ++ q ∷ [])
    → t.mnt_tail ≡ some q
    → any (is_mount_of t node) (l ++ p ∷ []) ≡ false
    → is_mount_of t node q ≡ true
    → IsFresh q (l ++ p ∷ [])
    → IsFresh m (l ++ p ∷ [])
    → Lost (l ++ p ∷ []) (remove_then_add fuel node m node' fs t)
unfolding mtab_remove_node
mtab_remove_node-loses fuel node m node' fs q p l t h d linked tail others hit f f' =
    loses m node' fs q p l t (is_mount_of t node)
      (unlink fuel (is_mount_of t node) t.next t.mnt_list none) others hit f f' tail
      (unlink-Erased (is_mount_of t node) t.next t.mnt_list fuel ((l ++ p ∷ []) ++ q ∷ []) h d
        linked)
