-- ===== src/Fs.antt =====
-- src/fs.c: the calls of the file systems, the working directory, and the parts of a path. A string is
-- the list of its bytes before the terminator. The operations of a file system are an argument, as the
-- source calls them by `struct fs_operations`; a file system is a number, and `S` is what they keep.
pub mod Path
pub mod Chdir
mod Tests
use pcboot.Prelude.{
  ℕ, zero, suc, ◌+◌, ◌-◌, Bool, true, false, not, ◌&&◌, ◌||◌, List, [], ◌∷◌, ◌++◌, Option, none,
  some, ltb, leb, ◌==◌, if◌then◌else◌, length, take,
}
use pcboot.Prelude.Int.{ℤ, pos, negsuc}
use pcboot.Strings.{strcmp, first, is_zero}

-- '/'
abbrev pub sep : ℕ
sep = 47

pub fs_path_skipsep : List ℕ → List ℕ
fs_path_skipsep [] = []
fs_path_skipsep (c ∷ s) = let rest = fs_path_skipsep s in if c == sep then rest else c ∷ s

-- What stands before the next separator, and what starts with it
pub name_part : List ℕ → List ℕ
name_part [] = []
name_part (c ∷ s) = let rest = name_part s in if c == sep then [] else c ∷ rest

pub rest_part : List ℕ → List ℕ
rest_part [] = []
rest_part (c ∷ s) = let rest = rest_part s in if c == sep then c ∷ s else rest

-- The name that `namebuf` gets, and the rest of the path.
pub fs_path_next : (s : List ℕ) (bufsz : ℕ) → List ℕ × List ℕ
fs_path_next s bufsz =
    let start = fs_path_skipsep s in
    let name = name_part start in
    let len = if leb bufsz (length name) then bufsz - 1 else length name in
    (take len name, fs_path_skipsep (rest_part start))

pub data Kind : Type 0 where
  fsnode_file fsnode_dir : Kind

-- `struct fs_node`, with a number for `data`
pub record FsNode : Type 0 where
  pub fs : ℕ
  pub kind : Kind
  pub data_index : ℕ

pub data Whence : Type 0 where
  seek_set seek_cur seek_end : Whence

-- An element of a directory, as `readdir` gives it
pub record Dirent : Type 0 where
  pub name : List ℕ
  pub kind : Kind
  pub size : ℕ

pub record FsOperations (S : Type 0) : Type 0 where
  pub open_path : S → (fs : ℕ) (path : List ℕ) (flags : ℕ) → Option FsNode × S
  pub close : S → FsNode → S
  pub fsize : S → FsNode → ℤ
  pub seek : S → FsNode → ℤ → Whence → ℤ × S
  pub tell : S → FsNode → ℤ
  pub read : S → FsNode → (sz : ℕ) → Option (List ℕ) × S
  pub write : S → FsNode → (buf : List ℕ) → ℤ × S
  pub rewinddir : S → FsNode → ℤ × S
  pub readdir : S → FsNode → Option Dirent × S
  pub rename : S → FsNode → (name : List ℕ) → ℤ × S
  pub remove : S → FsNode → ℤ × S

-- What this file keeps: `rootfs`, `cwdnode`, and `cwdpath` up to its end
pub record Front (S : Type 0) : Type 0 where
  pub rootfs : ℕ
  pub cwdnode : Option FsNode
  pub cwdpath : List ℕ
  pub state : S

module _ {S : Type 0} (fsop : ℕ → FsOperations S) where
  pub with_state : Front S → {R : Type 0} → R × S → R × Front S
  with_state f (r, s) = (r, record f { state = s })

  -- The file system that a path starts in, if there is one.
  pub fs_of : Front S → (path : List ℕ) → Option ℕ
  fs_of f [] = none
  fs_of f (c ∷ path) =
      let cwd : Option ℕ = elim (f.cwdnode) [ none ↦ none | some n ↦ some n.fs ] in
      if c == sep then some f.rootfs else cwd

  pub open_in : Option ℕ → Front S → (path : List ℕ) (flags : ℕ) → Option FsNode × Front S
  open_in none f path flags = (none, f)
  open_in (some fs) f path flags = with_state f ((fsop fs).open_path f.state fs path flags)

  pub fs_open : Front S → (path : List ℕ) (flags : ℕ) → Option FsNode × Front S
  fs_open f path flags = open_in (fs_of f path) f path flags

  pub fs_close : Front S → Option FsNode → Front S
  fs_close f none = f
  fs_close f (some node) = record f { state = (fsop node.fs).close f.state node }

  pub fs_rename : Front S → FsNode → (name : List ℕ) → ℤ × Front S
  fs_rename f node name = with_state f ((fsop node.fs).rename f.state node name)

  pub fs_remove : Front S → FsNode → ℤ × Front S
  fs_remove f node = with_state f ((fsop node.fs).remove f.state node)

  pub fs_filesize : Front S → FsNode → ℤ
  fs_filesize f node = elim (node.kind) [
    | fsnode_file ↦ (fsop node.fs).fsize f.state node
    | fsnode_dir ↦ negsuc 0
  ]

  pub fs_seek : Front S → FsNode → (offs : ℤ) → Whence → ℤ × Front S
  fs_seek f node offs whence = elim (node.kind) [
    | fsnode_file ↦ with_state f ((fsop node.fs).seek f.state node offs whence)
    | fsnode_dir ↦ (negsuc 0, f)
  ]

  pub fs_tell : Front S → FsNode → ℤ
  fs_tell f node = elim (node.kind) [
    | fsnode_file ↦ (fsop node.fs).tell f.state node
    | fsnode_dir ↦ negsuc 0
  ]

  -- `none` for -1
  pub fs_read : Front S → FsNode → (sz : ℕ) → Option (List ℕ) × Front S
  fs_read f node sz = elim (node.kind) [
    | fsnode_file ↦ with_state f ((fsop node.fs).read f.state node sz)
    | fsnode_dir ↦ (none, f)
  ]

  pub fs_write : Front S → FsNode → (buf : List ℕ) → ℤ × Front S
  fs_write f node buf = elim (node.kind) [
    | fsnode_file ↦ with_state f ((fsop node.fs).write f.state node buf)
    | fsnode_dir ↦ (negsuc 0, f)
  ]

  pub fs_rewinddir : Front S → FsNode → ℤ × Front S
  fs_rewinddir f node = elim (node.kind) [
    | fsnode_file ↦ (negsuc 0, f)
    | fsnode_dir ↦ with_state f ((fsop node.fs).rewinddir f.state node)
  ]

  pub fs_readdir : Front S → FsNode → Option Dirent × Front S
  fs_readdir f node = elim (node.kind) [
    | fsnode_file ↦ (none, f)
    | fsnode_dir ↦ with_state f ((fsop node.fs).readdir f.state node)
  ]

-- What stands in front of the last separator
pub before_last : List ℕ → Option (List ℕ)
before_last [] = none
before_last (c ∷ s) = elim (before_last s) [
  | some t ↦ some (c ∷ t)
  | none ↦ if c == sep then some [] else none
]

-- The path of the directory above: up to the last separator, but one character at least.
pub at_least_one : List ℕ → Option (List ℕ) → List ℕ
at_least_one s none = take 1 s
at_least_one s (some []) = take 1 s
at_least_one s (some (c ∷ t)) = c ∷ t

pub up_path : List ℕ → List ℕ
up_path s = at_least_one s (before_last s)

-- The path behind a change to `path`
pub joined : (cwdpath path : List ℕ) → List ℕ
joined cwdpath path =
    if first path == sep
    then path
    else if ltb 1 (length cwdpath)
    then cwdpath ++ sep ∷ path
    else cwdpath ++ path

abbrev pub dot : List ℕ
dot = 46 ∷ []

abbrev pub dot_dot : List ℕ
dot_dot = 46 ∷ 46 ∷ []

-- `sizeof cwdpath`
abbrev pub cwdpath_size : ℕ
cwdpath_size = 1024

module _ {S : Type 0} (fsop : ℕ → FsOperations S) where
  pub enter : Front S → FsNode → (cwdpath : List ℕ) → ℤ × Front S
  enter f node cwdpath =
      (pos 0, record (fs_close fsop f f.cwdnode) { cwdpath = cwdpath; cwdnode = some node })

  -- The end of `fs_chdir`, with the node that was opened and its type. `none` is a panic.
  pub enter_up : (uppath : List ℕ) → FsNode → Kind → Front S → ℤ × Front S
  enter_up uppath node fsnode_file f = (negsuc 0, fs_close fsop f (some node))
  enter_up uppath node fsnode_dir f = enter f node uppath

  pub go_up : (uppath : List ℕ) → Option FsNode → Front S → ℤ × Front S
  go_up uppath none f = (negsuc 0, f)
  go_up uppath (some node) f = enter_up uppath node node.kind f

  pub enter_down : (path : List ℕ) → FsNode → Kind → Front S → Option (ℤ × Front S)
  enter_down path node fsnode_file f = some (negsuc 0, fs_close fsop f (some node))
  enter_down path node fsnode_dir f =
      if ltb cwdpath_size (length f.cwdpath + length path)
      then none
      else some (enter f node (joined f.cwdpath path))

  pub go_down : (path : List ℕ) → Option FsNode → Front S → Option (ℤ × Front S)
  go_down path none f = some (negsuc 0, f)
  go_down path (some node) f = enter_down path node node.kind f

  pub fs_chdir : Front S → (path : List ℕ) → Option (ℤ × Front S)
  fs_chdir f path =
      let up = up_path f.cwdpath in
      let upwards = fs_open fsop f up 0 in
      let downwards = fs_open fsop f path 0 in
      if length path == 0
      then some (negsuc 0, f)
      else if is_zero (strcmp path dot)
      then some (pos 0, f)
      else if is_zero (strcmp path dot_dot)
      then if leb (length f.cwdpath) 1
        then some (negsuc 0, f)
        else some (go_up up upwards.0 upwards.1)
      else go_down path downwards.0 downwards.1
