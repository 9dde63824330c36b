-- ===== src/Mtab.antt =====
-- src/mtab.c: the table of mounts, a linked list with a pointer to its last node. What `malloc` gives for a new
-- node is an argument, and memory that is freed keeps its contents.
pub mod Tail
mod Tests
use pcboot.Prelude.{ℕ, suc, ◌+◌, Bool, true, false, Option, none, some, ◌==◌, if◌then◌else◌}
use pcboot.Links.{Next, set_next, Unlinked, endless, missing, unlinked, unlink}

-- `struct mount` by its fields, and the variables of src/mtab.h
pub record Mtab : Type 0 where
  pub mpt : ℕ → ℕ
  pub mounted : ℕ → ℕ
  pub next : Next
  pub mnt_list : Option ℕ
  pub mnt_tail : Option ℕ
  pub mnt_count : ℕ

abbrev pub set_field : (ℕ → ℕ) → ℕ → ℕ → ℕ → ℕ
set_field f a v b = if b == a then v else f b

-- The new node `m` behind the last one, or as the list. `none` is a write through a null pointer.
pub link : ℕ → (mnt_list mnt_tail : Option ℕ) → Mtab → Option Mtab
link m none tail t =
    some (record t { mnt_list = some m; mnt_tail = some m; mnt_count = t.mnt_count + 1 })
link m (some l) none t = none
link m (some l) (some last) t = some (record t {
  next = set_next t.next last (some m);
  mnt_tail = some m;
  mnt_count = t.mnt_count + 1;
})

pub succeed : Option Mtab → Option (Bool × Mtab)
succeed none = none
succeed (some t) = some (true, t)

-- `false` for -1
pub mtab_add : Option ℕ → (node fs : ℕ) → Mtab → Option (Bool × Mtab)
mtab_add none node fs t = some (false, t)
mtab_add (some m) node fs t =
    let fresh : Mtab = record t {
      mpt = set_field t.mpt m node;
      mounted = set_field t.mounted m fs;
      next = set_next t.next m none;
    } in
    succeed (link m t.mnt_list t.mnt_tail fresh)

abbrev pub is_mount_of : Mtab → ℕ → ℕ → Bool
is_mount_of t node m = t.mpt m == node

pub after_unlink : Mtab → Unlinked → Option (Bool × Mtab)
after_unlink t endless = none
after_unlink t missing = some (false, t)
after_unlink t (unlinked m prev next head) = some (true, record t { next = next; mnt_list = head })

-- `none` is a walk that does not end within the fuel.
pub mtab_remove_node : (fuel : ℕ) → (node : ℕ) → Mtab → Option (Bool × Mtab)
mtab_remove_node fuel node t =
    after_unlink t (unlink fuel (is_mount_of t node) t.next t.mnt_list none)
