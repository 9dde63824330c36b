-- ===== src/Fsmem/Tree/Open/Absent.antt =====
-- `open` of fsmem.c for an absolute path whose last name no child of its directory has.
use pcboot.Prelude.{
  ℕ, zero, suc, ◌<◌, ◌≡◌, ◌≢◌, refl, sym, subst, ap, ◌∙◌, Bool, true, false, List, [], ◌∷◌, ◌++◌,
  Option, none, some, arith, length, if◌then◌else◌, ◌==◌, bit_and,
}
use pcboot.Strings.{strcmp, is_zero}
use pcboot.Links.Chain.{Linked, IsFresh}
use pcboot.Fs.{fsnode_dir, sep, dot, dot_dot, fs_path_next}
use pcboot.Fs.Path.{AreNames, spelled, next-spelled, spelled-some, skip-spelled}
use pcboot.Fsmem.Tree.{Nodes, enoent, found, find_loop, find_entry}
use pcboot.Fsmem.Tree.Children.{IsDir}
use pcboot.Fsmem.Tree.Open.{
  Opened, failed, create, no_entry, stop_at, open_loop, open_path, fso_create,
}
use pcboot.Fsmem.Tree.Open.Walk.{Leads, one_part}
use pcboot.Fsmem.Tree.Open.Create.{NoneNamed, CreatedAs, create-CreatedAs}

find_none :
    (size : ℕ) (t : Nodes) (name : List ℕ) (o : Option ℕ) (l : List ℕ)
    → length l < size
    → Linked t.next o l
    → NoneNamed t.name name l
    → find_loop size t name o ≡ found none
unfolding find_loop
find_none zero t name o l h linked others = absurd (omega (arith, h))
find_none (suc size) t name o [] h at_o others = ap (find_loop (suc size) t name) at_o
find_none (suc size) t name o (a ∷ l) h (at_o, rest) (miss, others) =
    ap (find_loop (suc size) t name) at_o
    ∙ ap (λ b. if b then found (some a) else find_loop size t name (t.next a)) miss
    ∙ find_none size t name (t.next a) l (omega (arith, h)) rest others

find_entry-none :
    (size dir : ℕ) (name l : List ℕ) (t : Nodes)
    → length l < size
    → is_zero (strcmp name dot) ≡ false
    → is_zero (strcmp name dot_dot) ≡ false
    → NoneNamed t.name name l
    → IsDir t dir l
    → find_entry size t dir name ≡ found none
unfolding find_entry
find_entry-none size dir name l t h d dd others v =
    rw (d, dd) (find_none size t name (t.clist dir) l h v.0 others)

module _ (size : ℕ) (t : Nodes) (flags : ℕ) (new : Option ℕ) where
  last_part :
      (fuel dir : ℕ) (s name : List ℕ)
      → 0 < length s
      → t.kind dir ≡ fsnode_dir
      → t.mount dir ≡ none
      → fs_path_next s 121 ≡ (name, [])
      → find_entry size t dir name ≡ found none
      → open_loop (suc fuel) size t dir s flags new ≡ no_entry dir name [] flags new t
  unfolding open_loop stop_at
  last_part fuel dir [] name h is_dir unmounted e absent = absurd (omega (arith, h))
  last_part fuel dir (c ∷ s) name h is_dir unmounted e absent =
      let absent' : find_entry size t dir (fs_path_next (c ∷ s) 121).0 ≡ found none =
        ap (λ r. find_entry size t dir r.0) e ∙ absent in
      rw (open_loop, is_dir, unmounted, absent') (ap (λ r. no_entry dir r.0 r.1 flags new t) e)

  -- The walk over the names in front of the last one
  walk-last :
      (fuel node : ℕ) (ns : List (List ℕ × ℕ)) (last : List ℕ × ℕ) (dir : ℕ)
      → length ns < fuel
      → AreNames 121 (ns ++ last ∷ [])
      → Leads size t node ns dir
      → t.kind dir ≡ fsnode_dir
      → t.mount dir ≡ none
      → find_entry size t dir last.0 ≡ found none
      → open_loop fuel size t node (spelled (ns ++ last ∷ [])) flags new
        ≡ no_entry dir last.0 [] flags new t
  walk-last zero node ns last dir h v leads is_dir unmounted absent = absurd (omega (arith, h))
  walk-last (suc fuel) node [] last dir h v leads is_dir unmounted absent =
      ap (λ k. open_loop (suc fuel) size t k (spelled (last ∷ [])) flags new) leads
      ∙ last_part fuel dir (spelled (last ∷ [])) last.0 (spelled-some 121 last [] v) is_dir
          unmounted (next-spelled 121 last [] v) absent
  walk-last (suc fuel) node (n ∷ ns) last dir h v (here, free, (child, at_child, leads)) is_dir
        unmounted absent =
      one_part fuel size t node (spelled (n ∷ ns ++ last ∷ [])) flags new
        (n.0, spelled (ns ++ last ∷ [])) child (spelled-some 121 n (ns ++ last ∷ []) v) here free
        (next-spelled 121 n (ns ++ last ∷ []) v) at_child
      ∙ walk-last fuel child ns last dir (omega (arith, h)) v.3 leads is_dir unmounted absent

-- What `open` promises by the flag FSO_CREATE: without it there is no such file, and with it the file is made.
abbrev pub EndsAs : (no_create : Bool) (size n dir : ℕ) (name l : List ℕ) → Opened → Type 0
EndsAs true size n dir name l r = r ≡ failed enoent
EndsAs false size n dir name l r = CreatedAs size n dir name l r

no_entry-EndsAs :
    (no_create : Bool) (size n dir flags : ℕ) (name l : List ℕ) (t : Nodes)
    → (bit_and flags fso_create == 0) ≡ no_create
    → CreatedAs size n dir name l (create dir name flags (some n) t)
    → EndsAs no_create size n dir name l (no_entry dir name [] flags (some n) t)
unfolding no_entry
no_entry-EndsAs true size n dir flags name l t e made = rw e refl
no_entry-EndsAs false size n dir flags name l t e made = rw e made

open_path-slash :
    (fuel size : ℕ) (t : Nodes) (rootdir : ℕ) (cwd : Option ℕ) (ns : List (List ℕ × ℕ)) (flags : ℕ)
    (new : Option ℕ)
    → AreNames 121 ns
    → open_path fuel size t rootdir cwd (sep ∷ spelled ns) flags new
      ≡ open_loop fuel size t rootdir (spelled ns) flags new
unfolding open_path
open_path-slash fuel size t rootdir cwd ns flags new v =
    ap (λ s. open_loop fuel size t rootdir s flags new) (skip-spelled 121 ns v)

-- `open` of an absolute path whose names lead to a directory, through directories that are no mount points, but for
-- the last one, which is no "." or ".." and which no child of the directory has, in capital or small letters: with
-- FSO_CREATE, and memory for a node, that is made the last child, and a later `find_entry` of the name gives it;
-- without FSO_CREATE the result is ENOENT.
pub open_path-EndsAs :
    (fuel size : ℕ) (t : Nodes) (rootdir : ℕ) (cwd : Option ℕ) (ns : List (List ℕ × ℕ))
    (last : List ℕ × ℕ) (n dir flags : ℕ) (l : List ℕ)
    → length ns < fuel
    → length l < size
    → AreNames 121 (ns ++ last ∷ [])
    → Leads size t rootdir ns dir
    → t.kind dir ≡ fsnode_dir
    → t.mount dir ≡ none
    → n ≢ dir
    → IsFresh n l
    → is_zero (strcmp last.0 dot) ≡ false
    → is_zero (strcmp last.0 dot_dot) ≡ false
    → NoneNamed t.name last.0 l
    → IsDir t dir l
    → EndsAs
        (bit_and flags fso_create == 0)
        size
        n
        dir
        last.0
        l
        (open_path fuel size t rootdir cwd (sep ∷ spelled (ns ++ last ∷ [])) flags (some n))
open_path-EndsAs fuel size t rootdir cwd ns last n dir flags l h few names leads is_dir unmounted ne
      fresh d dd others v =
    let made = create-CreatedAs size n dir flags last.0 l t few ne fresh d dd others v in
    let absent = find_entry-none size dir last.0 l t few d dd others v in
    let path =
      open_path-slash fuel size t rootdir cwd (ns ++ last ∷ []) flags (some n) names
      ∙ walk-last size t flags (some n) fuel rootdir ns last dir h names leads is_dir unmounted
          absent in
    subst (EndsAs (bit_and flags fso_create == 0) size n dir last.0 l) (sym path)
      (no_entry-EndsAs (bit_and flags fso_create == 0) size n dir flags last.0 l t refl made)
