-- ===== src/Mtab/Tests.antt =====
-- A table of two mounts, of the nodes 100 and 200, in the nodes 1 and 2
use pcboot.Prelude.{◌*◌, refl, [], ◌∷◌, none, some, ◌==◌, if◌then◌else◌, arith}
use pcboot.Mtab.{Mtab, mtab_add, mtab_remove_node}
use pcboot.Mtab.Tail.{
  Added, Removed, Lost, remove_then_add, mtab_add-Added, mtab_remove_node-Removed,
  mtab_remove_node-loses,
}

abbrev table : Mtab
table = record {
  mpt = λ a. a * 100;
  mounted = λ a. a;
  next = λ a. if a == 1 then some 2 else none;
  mnt_list = some 1;
  mnt_tail = some 2;
  mnt_count = 2;
}

mtab_add-Added_run : Added (1 ∷ 2 ∷ []) 3 (mtab_add (some 3) 300 7 table)
mtab_add-Added_run =
    mtab_add-Added 3 300 7 2 (1 ∷ []) table ((λ e. absurd (omega (arith, e)), tt), (tt, tt))
      (λ e. absurd (omega (arith, e)), (λ e. absurd (omega (arith, e)), tt)) (refl, (refl, refl))
      refl

mtab_remove_node-Removed_run : Removed 100 table (1 ∷ 2 ∷ []) (mtab_remove_node 3 100 table)
mtab_remove_node-Removed_run =
    mtab_remove_node-Removed 3 100 (1 ∷ 2 ∷ []) table (omega arith)
      ((λ e. absurd (omega (arith, e)), tt), (tt, tt)) (refl, (refl, refl))

-- The mount of 200 is removed, and that of 300 lost.
mtab_remove_node-loses_example : Lost (1 ∷ []) (remove_then_add 3 200 3 300 7 table)
mtab_remove_node-loses_example =
    mtab_remove_node-loses 3 200 3 300 7 2 1 [] table (omega arith)
      ((λ e. absurd (omega (arith, e)), tt), (tt, tt)) (refl, (refl, refl)) refl refl refl
      (λ e. absurd (omega (arith, e)), tt) (λ e. absurd (omega (arith, e)), tt)
