-- ===== src/Fsmem/Tests.antt =====
-- A file of three bytes in a memory of four, with a realloc that always gives memory.
use mathlib.Core.Option.{some-injective}
use pcboot.Prelude.{ℕ, ◌≡◌, refl, sym, ap, List, [], ◌∷◌, some, arith, get_or}
use pcboot.Fsmem.{MemFile, given, read, write, new_max_size, store_bytes, grown}
use pcboot.Fsmem.Content.{Realloc, Keeps, Written, write-Written}
use pcboot.Fsmem.Shared.{read-write}

abbrev realloc : Realloc
realloc m old_size size = some m

realloc-Keeps : Keeps realloc
realloc-Keeps m m' old_size size e h i less = sym (ap (λ f. f i) (some-injective _ _ e))

abbrev file : MemFile
file = record { data_bytes = λ a. get_or (10 ∷ 20 ∷ 30 ∷ []) a 0; size = 3; max_size = 4 }

abbrev buf : List ℕ
buf = 1 ∷ 2 ∷ 3 ∷ 4 ∷ []

grows : write realloc file 2 buf ≡ some (record (store_bytes file 2 buf).0 { max_size = 8 }, 6)
unfolding write new_max_size store_bytes grown
grows = refl

write-Written_example : Written file 2 buf (write realloc file 2 buf)
write-Written_example =
    write-Written realloc file 2 buf realloc-Keeps (λ m old_size size. (m, refl)) (omega arith)
      (omega arith)

read-write_example :
    (r : MemFile × ℕ) × (write realloc file 2 buf ≡ some r) × (read r.0 2 4 ≡ given buf r.1)
read-write_example =
    read-write realloc file 2 buf realloc-Keeps (λ m old_size size. (m, refl)) (omega arith)
      (omega arith)
