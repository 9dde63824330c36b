-- ===== src/Fsmem/Tree/Open.antt =====
-- src/fsmem.c: `open`, which walks a path through the directories, and may create its last part. The address of a new
-- node is an argument, with nothing if there is no memory; `size` is the fuel for the walk over a directory.
pub mod Walk
pub mod Create
pub mod Absent
use pcboot.Prelude.{
  ℕ, zero, suc, Bool, true, false, not, ◌||◌, List, [], ◌∷◌, Option, none, some, ◌==◌,
  if◌then◌else◌, length, bit_and,
}
use pcboot.Fs.{Kind, fsnode_file, fsnode_dir, sep, fs_path_skipsep, fs_path_next}
use pcboot.Strings.{first}
use pcboot.Fsmem.Tree.{
  Nodes, set_name, alloc_node, Found, too_long, found, find_entry, add_child, Errno, enoent,
  enotdir, eexist, enomem, max_name,
}

abbrev pub fso_create : ℕ
fso_create = 1

abbrev pub fso_dir : ℕ
fso_dir = 2

abbrev pub fso_excl : ℕ
fso_excl = 4

-- A node with the tree, the rest of the path for the file system that is mounted there, an error, no result without an
-- error, a write through a null pointer, or no end within the fuel.
pub data Opened : Type 0 where
  opened : (n : ℕ) → Nodes → Opened
  crossing : (fs : ℕ) (path : List ℕ) → Opened
  failed : Errno → Opened
  refused : Opened
  null_write : Opened
  unfinished : Opened

pub new_child : (n : ℕ) → Option Nodes → Opened
new_child n none = null_write
new_child n (some t) = opened n t

abbrev pub kind_of : ℕ → Kind
kind_of flags = if bit_and flags fso_dir == 0 then fsnode_file else fsnode_dir

pub named : ℕ → Kind → (name : List ℕ) → Nodes → Nodes
named n kind name t = let t' = alloc_node n kind t in record t' { name = set_name t'.name n name }

pub create : (dir : ℕ) (name : List ℕ) (flags : ℕ) → (new : Option ℕ) → Nodes → Opened
create dir name flags none t = failed enomem
create dir name flags (some n) t = new_child n (add_child dir n (named n (kind_of flags) name t))

-- The end of the path, with the mount of the node
pub finish : (mount : Option ℕ) → (node flags : ℕ) → Nodes → Opened
finish (some fs) node flags t = crossing fs (sep ∷ [])
finish none node flags t = if bit_and flags fso_excl == 0 then opened node t else failed eexist

-- A node without a child of that name
pub no_entry : (dir : ℕ) (name rest : List ℕ) (flags : ℕ) → (new : Option ℕ) → Nodes → Opened
no_entry dir name rest flags new t =
    if not (length rest == 0) || bit_and flags fso_create == 0
    then failed enoent
    else create dir name flags new t

-- Before a part of the path: what ends the walk here, if the node is no directory or a mount point.
pub stop_at : Kind → (mount : Option ℕ) → (path : List ℕ) → Option Opened
stop_at fsnode_file mount path = some (failed enotdir)
stop_at fsnode_dir (some fs) path = some (crossing fs (sep ∷ path))
stop_at fsnode_dir none path = none

pub open_loop :
    (fuel size : ℕ) → Nodes → (node : ℕ) (path : List ℕ) (flags : ℕ) → (new : Option ℕ) → Opened
open_loop zero size t node path flags new = unfinished
open_loop (suc fuel) size t node [] flags new = finish (t.mount node) node flags t
open_loop (suc fuel) size t node (c ∷ path) flags new =
    elim (stop_at (t.kind node) (t.mount node) (c ∷ path)) [
      | some r ↦ r
      | none ↦
          let part = fs_path_next (c ∷ path) (suc max_name) in
          elim (find_entry size t node part.0) [
            | too_long ↦ unfinished
            | found o ↦ elim o [
              | none ↦ no_entry node part.0 part.1 flags new t
              | some n ↦ open_loop fuel size t n part.1 flags new
            ]
          ]
    ]

-- `cwd` is the working directory, if that is in a file system of this kind.
pub open_path :
    (fuel size : ℕ)
    → Nodes
    → (rootdir : ℕ) (cwd : Option ℕ) → (path : List ℕ) (flags : ℕ) → (new : Option ℕ) → Opened
open_path fuel size t rootdir cwd path flags new =
    let relative : Opened = elim cwd [
      | none ↦ refused
      | some node ↦ open_loop fuel size t node path flags new
    ] in
    if first path == sep
    then open_loop fuel size t rootdir (fs_path_skipsep path) flags new
    else relative
