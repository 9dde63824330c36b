-- ===== src/Bootdev/Tests.antt =====
-- A floppy disk of 80 cylinders, two heads and 18 sectors to a track.
use pcboot.Prelude.{◌≡◌, refl, true, false, some, arith}
use pcboot.Bootdev.{Drive, calc_chs, chs_ecx}
use pcboot.Bootdev.Address.{IsPlace, calc_chs-IsPlace, chs_ecx-wraps}

abbrev floppy : Drive
floppy = record {
  have_bios_ext = false;
  bdev_is_floppy = true;
  num_cyl = 80;
  num_heads = 2;
  num_track_sect = 18;
}

calc_chs-IsPlace_example : IsPlace floppy 1000 (calc_chs floppy 1000)
calc_chs-IsPlace_example = calc_chs-IsPlace floppy 1000 (omega arith) (omega arith) (omega arith)

place : calc_chs floppy 1000 ≡ some (record { cyl = 27; head = 1; tsect = 11 })
unfolding calc_chs
place = refl

chs_ecx-wraps_run : chs_ecx 300 5 ≡ chs_ecx 44 5
chs_ecx-wraps_run = chs_ecx-wraps 300 5 (omega arith)
