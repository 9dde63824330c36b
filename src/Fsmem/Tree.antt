-- ===== src/Fsmem/Tree.antt =====
-- src/fsmem.c: the tree of directories. Nodes are known by their addresses, and their fields are functions of these.
-- What `alloc_node` gives is an argument, memory that is freed keeps its contents, and walks run on fuel. A mount point
-- is a directory with a file system in `mount`, which stands for the field `fsnode`.
pub mod Children
pub mod Remove
pub mod Add
pub mod Open
mod Tests
use pcboot.Prelude.{
  ℕ, zero, suc, ◌+◌, Bool, true, false, not, ◌&&◌, ◌||◌, List, [], ◌∷◌, Option, none, some, ◌==◌,
  if◌then◌else◌, length, take, bit_and,
}
use pcboot.Strings.{strcmp, strcasecmp, is_zero}
use pcboot.Fs.{
  Kind, fsnode_file, fsnode_dir, Dirent, dot, dot_dot, sep, fs_path_skipsep, fs_path_next,
}
use pcboot.Links.{Next, set_next, Unlinked, endless, missing, unlinked, unlink}

abbrev pub max_name : ℕ
max_name = 120

-- `struct memfs_node` by its fields; the files are in the parent module.
pub record Nodes : Type 0 where
  pub kind : ℕ → Kind
  pub name : ℕ → List ℕ
  pub parent : ℕ → Option ℕ
  pub next : Next
  pub clist : Next
  pub ctail : Next
  pub mount : Next

abbrev pub set_kind : (ℕ → Kind) → ℕ → Kind → ℕ → Kind
set_kind f a v b = if b == a then v else f b

abbrev pub set_name : (ℕ → List ℕ) → ℕ → List ℕ → ℕ → List ℕ
set_name f a v b = if b == a then v else f b

-- `calloc` clears the node.
pub alloc_node : ℕ → Kind → Nodes → Nodes
alloc_node n kind t = record {
  kind = set_kind t.kind n kind;
  name = set_name t.name n [];
  parent = set_next t.parent n none;
  next = set_next t.next n none;
  clist = set_next t.clist n none;
  ctail = set_next t.ctail n none;
  mount = set_next t.mount n none;
}

-- The end of a walk, or none within the fuel
pub data Found : Type 0 where
  too_long : Found
  found : Option ℕ → Found

pub find_loop : (fuel : ℕ) → Nodes → (name : List ℕ) → Option ℕ → Found
find_loop zero t name o = too_long
find_loop (suc fuel) t name none = found none
find_loop (suc fuel) t name (some n) =
    let rest = find_loop fuel t name (t.next n) in
    if is_zero (strcasecmp (t.name n) name) then found (some n) else rest

pub find_entry : (fuel : ℕ) → Nodes → (dir : ℕ) (name : List ℕ) → Found
find_entry fuel t dir name =
    if is_zero (strcmp name dot)
    then found (some dir)
    else if is_zero (strcmp name dot_dot)
    then found (t.parent dir)
    else find_loop fuel t name (t.clist dir)

-- The child behind the last one, or as the list. `none` is a write through a null pointer.
pub link_child : (dir n : ℕ) → (clist ctail : Option ℕ) → Nodes → Option Nodes
link_child dir n none tail t = some (record t {
  clist = set_next t.clist dir (some n);
  ctail = set_next t.ctail dir (some n);
  parent = set_next t.parent n (some dir);
})
link_child dir n (some first) none t = none
link_child dir n (some first) (some last) t = some (record t {
  next = set_next t.next last (some n);
  ctail = set_next t.ctail dir (some n);
  parent = set_next t.parent n (some dir);
})

pub add_child : (dir n : ℕ) → Nodes → Option Nodes
add_child dir n t = link_child dir n (t.clist dir) (t.ctail dir) t

pub rename : (n : ℕ) → (name : List ℕ) → Nodes → Nodes
rename n name t = record t { name = set_name t.name n (take max_name name) }

-- `struct odir`: a directory with the next entry to give
pub record OpenDir : Type 0 where
  pub dir : ℕ
  pub cur : Option ℕ

pub rewinddir : Nodes → OpenDir → OpenDir
rewinddir t od = record od { cur = t.clist od.dir }

-- The entry, without the size, which is that of a file.
pub readdir_at : Nodes → OpenDir → Option ℕ → Option (List ℕ × Kind) × OpenDir
readdir_at t od none = (none, od)
readdir_at t od (some n) = (some (t.name n, t.kind n), record od { cur = t.next n })

pub readdir : Nodes → OpenDir → Option (List ℕ × Kind) × OpenDir
readdir t od = readdir_at t od od.cur

-- The errors that `remove` and `open` set
pub data Errno : Type 0 where
  enoent enotdir eexist ebusy enomem : Errno

pub data Removal : Type 0 where
  refused : Errno → Removal
  absent : Removal
  gave_up : Removal
  removed : Nodes → Removal

-- The tail goes back to the node in front, if the last child is taken. In front of the first child that is the dummy
-- node on the stack, for which it becomes null here: then no child is left, and `add_child` does not look at it.
pub tail_after : (par n : ℕ) → (prev : Option ℕ) → Next → Option ℕ → Next
tail_after par n prev ctail none = ctail
tail_after par n prev ctail (some t) = if t == n then set_next ctail par prev else ctail

pub after_unlink : (par : ℕ) → Nodes → Unlinked → Removal
after_unlink par t endless = gave_up
after_unlink par t missing = absent
after_unlink par t (unlinked n prev next head) = removed (record t {
  next = next;
  clist = set_next t.clist par head;
  ctail = tail_after par n prev t.ctail (t.ctail par);
})

pub remove_from : (fuel n : ℕ) → (parent : Option ℕ) → Nodes → Removal
remove_from fuel n none t = refused ebusy
remove_from fuel n (some par) t =
    after_unlink par t (unlink fuel (λ m. m == n) t.next (t.clist par) none)

pub remove_kind : (fuel n : ℕ) → Kind → (clist : Option ℕ) → Nodes → Removal
remove_kind fuel n fsnode_dir (some first) t = refused eexist
remove_kind fuel n fsnode_dir none t = remove_from fuel n (t.parent n) t
remove_kind fuel n fsnode_file clist t = remove_from fuel n (t.parent n) t

pub remove : (fuel n : ℕ) → Nodes → Removal
remove fuel n t = remove_kind fuel n (t.kind n) (t.clist n) t
