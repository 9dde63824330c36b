-- ===== src/Part/Tests.antt =====
-- A boot record with two partitions: an active one of 100 sectors behind 63, and another of 50.
use pcboot.Prelude.{◌+◌, ◌≡◌, refl, [], ◌∷◌, none, some, ◌==◌, if◌then◌else◌, arith}
use pcboot.Fat.{Bytes}
use pcboot.Part.{partitions, endless, read_loop, read_partitions}
use pcboot.Part.Scan.{walk, read_partitions-primary, read_loop_endless}

abbrev sector : Bytes
sector a =
    if a == 510
    then 0x55
    else if a == 511
    then 0xaa
    else if a == 0x1be
    then 0x80
    else if a == 0x1be + 4
    then 0x83
    else if a == 0x1be + 8
    then 63
    else if a == 0x1be + 12
    then 100
    else if a == 0x1be + 20
    then 0x82
    else if a == 0x1be + 24
    then 200
    else if a == 0x1be + 28
    then 50
    else 0

-- The table has room for one.
read_partitions-primary_example :
    read_partitions 1 (λ sidx. some sector) 0x80 none 1
    ≡ partitions 2 (
        record { start_sect = 63; size_sect = 100; attributes = 0x683 }
        ∷ record { start_sect = 200; size_sect = 50; attributes = 0x482 }
        ∷ [])
read_partitions-primary_example =
    read_partitions-primary 0 (λ sidx. some sector) 0x80 1 sector refl refl
      (refl, (refl, (refl, (refl, tt)))) (omega arith)

read_loop_endless_example :
    read_loop 1000 (λ sidx. some sector) none 1 (walk 500 500 0 []) ≡ endless
read_loop_endless_example =
    read_loop_endless (λ sidx. some sector) sector 500 refl refl refl refl (refl, (refl, tt)) refl
      1000 1 500 0 []
