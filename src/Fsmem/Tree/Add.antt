-- ===== src/Fsmem/Tree/Add.antt =====
-- `add_child` of fsmem.c: a new node is the last child of its directory.
use pcboot.Prelude.{
  ℕ, ◌≡◌, ◌≢◌, ◌⊎◌, refl, sym, subst, ap, List, [], ◌∷◌, ◌++◌, Option, none, some, inl, inr,
}
use pcboot.Links.{set_next}
use pcboot.Links.Chain.{
  Linked, IsFresh, AreDistinct, appended, Linked-empty, append_assoc, IsFresh-last, set_next_same,
}
use pcboot.Fsmem.Tree.{Nodes, link_child, add_child}
use pcboot.Fsmem.Tree.Children.{TailOf, IsDir, TailOf-last, TailOf-append}

abbrev pub AddedTo : (n dir : ℕ) → List ℕ → Option Nodes → Type 0
AddedTo n dir l none = ⊥
AddedTo n dir l (some t) = IsDir t dir (l ++ n ∷ []) × (t.parent n ≡ some dir)

IsFresh-append : (a : ℕ) (l : List ℕ) (n : ℕ) → IsFresh a l → a ≢ n → IsFresh a (l ++ n ∷ [])
IsFresh-append a [] n f ne = (ne, tt)
IsFresh-append a (b ∷ l) n (ne', f) ne = (ne', IsFresh-append a l n f ne)

AreDistinct-append : (l : List ℕ) (n : ℕ) → IsFresh n l → AreDistinct l → AreDistinct (l ++ n ∷ [])
AreDistinct-append [] n f d = (tt, tt)
AreDistinct-append (a ∷ l) n (ne, f) (g, d) =
    (IsFresh-append a l n g (λ e. ne (sym e)), AreDistinct-append l n f d)

last_of : (l : List ℕ) → (l ≡ []) ⊎ ((l' : List ℕ) × (t : ℕ) × (l ≡ l' ++ t ∷ []))
last_of [] = inl refl
last_of (a ∷ l) = elim (last_of l) [
  | inl e ↦ inr ([], a, ap (λ s. a ∷ s) e)
  | inr (l', t, e) ↦ inr (a ∷ l', t, ap (λ s. a ∷ s) e)
]

link_child-AddedTo :
    (n dir : ℕ) (l : List ℕ) (o tail : Option ℕ) (t : Nodes)
    → t.clist dir ≡ o
    → Linked t.next o l
    → AreDistinct l
    → TailOf tail l
    → IsFresh n l
    → t.next n ≡ none
    → AddedTo n dir l (link_child dir n o tail t)
unfolding link_child
link_child-AddedTo n dir l none tail t e linked d last f at_n =
    let empty : l ≡ [] = Linked-empty t.next l linked in
    let only : Linked t.next (set_next t.clist dir (some n) dir) (n ∷ []) =
      (set_next_same t.clist dir (some n), at_n) in
    (
      subst
          (λ l.
            IsDir
              (record t {
                clist = set_next t.clist dir (some n);
                ctail = set_next t.ctail dir (some n);
                parent = set_next t.parent n (some dir);
              })
              dir (l ++ n ∷ []))
          (sym empty) (only, (tt, tt), set_next_same t.ctail dir (some n)),
      set_next_same t.parent n (some dir),
    )
link_child-AddedTo n dir l (some first) tail t e linked d last f at_n = elim (last_of l) [
  | inl empty ↦ cc (subst (Linked t.next (some first)) empty linked)
  | inr (l', a, whole) ↦
      let at_a : tail ≡ some a = TailOf-last tail l' a (subst (TailOf tail) whole last) in
      subst (λ o. AddedTo n dir l (link_child dir n (some first) o t)) (sym at_a)
        (
          (
            subst (λ o. Linked (set_next t.next a (some n)) o (l ++ n ∷ [])) (sym e)
                (subst (λ l. Linked (set_next t.next a (some n)) (some first) (l ++ n ∷ []))
                  (sym whole)
                  (subst (Linked (set_next t.next a (some n)) (some first))
                    (sym (append_assoc l' [] a n))
                    (appended t.next (some first) l' a n (subst AreDistinct whole d)
                      (subst (Linked t.next (some first)) whole linked)
                      (λ e. IsFresh-last n a l' [] (subst (IsFresh n) whole f) (sym e)) at_n))),
            AreDistinct-append l n f d,
            TailOf-append (set_next t.ctail dir (some n) dir) l n
                (set_next_same t.ctail dir (some n)),
          ),
          set_next_same t.parent n (some dir),
        )
]

-- `add_child` puts a new node behind the children of the directory, and makes it its parent.
pub add_child-AddedTo :
    (n dir : ℕ) (l : List ℕ) (t : Nodes)
    → IsFresh n l
    → t.next n ≡ none
    → IsDir t dir l
    → AddedTo n dir l (add_child dir n t)
unfolding add_child
add_child-AddedTo n dir l t f at_n (linked, d, last) =
    link_child-AddedTo n dir l (t.clist dir) (t.ctail dir) t refl linked d last f at_n
