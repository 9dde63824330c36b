-- ===== src/Bootdev.antt =====
-- src/bootdev.c: the reads of sectors by the BIOS, by logical addresses or by cylinder, head and sector. The calls of
-- int 13h are parameters: what they give on success, or none. `try` numbers the calls, since a call may fail and succeed
-- when it is repeated. Writes are the same calls with the other function, and are left out, as is the packet of the
-- logical addresses.
pub mod Address
mod Tests
use pcboot.Prelude.{
  ℕ, zero, suc, ◌+◌, ◌-◌, ◌*◌, ◌/◌, ◌%◌, ◌^◌, Bool, true, false, Option, none, some, ltb, leb, ◌==◌,
  if◌then◌else◌, bit_and, bit_or,
}
use pcboot.Fat.{Bytes}
use pcboot.Timer.{Timer, set_alarm, cancel_alarm}

pub record Chs : Type 0 where
  pub cyl : ℕ
  pub head : ℕ
  pub tsect : ℕ

-- `have_bios_ext`, `bdev_is_floppy`, and the parameters of the drive
pub record Drive : Type 0 where
  pub have_bios_ext : Bool
  pub bdev_is_floppy : Bool
  pub num_cyl : ℕ
  pub num_heads : ℕ
  pub num_track_sect : ℕ

-- `none` is a panic.
pub calc_chs : Drive → (lba : ℕ) → Option Chs
calc_chs d lba =
    let trk = lba / d.num_track_sect in
    let chs : Chs = record {
      cyl = trk / d.num_heads;
      head = trk % d.num_heads;
      tsect = lba % d.num_track_sect + 1;
    } in
    if leb (2 ^ 32) lba then none else some chs

-- The register ecx of a call, with the cylinder and the sector
pub chs_ecx : (cyl tsect : ℕ) → ℕ
chs_ecx cyl tsect =
    bit_or (bit_or (bit_and (cyl * 2 ^ 8) 0xff00) (bit_and (cyl / 2 ^ 10) 0xc0)) tsect

-- The parameters that a drive gives in its registers
pub get_drive_chs : (ecx edx : ℕ) → Chs
get_drive_chs ecx edx = record {
  cyl = bit_or (bit_and (ecx / 2 ^ 8) 0xff) (bit_and (ecx * 2 ^ 2) 0x300) + 1;
  head = edx / 2 ^ 8 + 1;
  tsect = bit_and ecx 0x3f;
}

-- The registers, of function 8, of a drive that answers, if the extensions are missing. `none` is a panic.
pub bdev_init :
    (boot_drive_number : ℕ) → (have_ext : Bool) → (params : Option (ℕ × ℕ)) → Option Drive
bdev_init boot_drive_number true params = some (record {
  have_bios_ext = true;
  bdev_is_floppy = bit_and boot_drive_number 0x80 == 0;
  num_cyl = 0;
  num_heads = 0;
  num_track_sect = 0;
})
bdev_init boot_drive_number false none = none
bdev_init boot_drive_number false (some r) =
    let chs = get_drive_chs r.0 r.1 in
    some (record {
      have_bios_ext = false;
      bdev_is_floppy = bit_and boot_drive_number 0x80 == 0;
      num_cyl = chs.cyl;
      num_heads = chs.head;
      num_track_sect = chs.tsect;
    })

abbrev pub floppy_motor_off_timeout : ℕ
floppy_motor_off_timeout = 4000

-- The alarm that turns the motors off starts anew; `allocated` and `none` are those of `set_alarm`, and
-- `floppy_motors_off` stands for the function.
pub keep_motor : Drive → (allocated : Bool) → (floppy_motors_off : ℕ) → Timer → Option Timer
keep_motor d allocated floppy_motors_off t =
    let again =
      set_alarm allocated floppy_motor_off_timeout floppy_motors_off
        (cancel_alarm floppy_motors_off t) in
    if d.bdev_is_floppy then again else some t

-- int 13h by logical address, and by cylinder, head and sector
pub record Bios : Type 0 where
  pub rw_lba : (lba nsect : ℕ) → Option Bytes
  pub rw_chs : (try : ℕ) → Chs → (nsect : ℕ) → Option Bytes

abbrev pub nretries : ℕ
nretries = 3

-- The loop of `bdev_read_sect`, which resets the drive behind a failure.
pub retry : (left try : ℕ) → Bios → Chs → (nsect : ℕ) → Option Bytes
retry zero try bios chs nsect = none
retry (suc left) try bios chs nsect = elim (bios.rw_chs try chs nsect) [
  | none ↦ retry left (try + 1) bios chs nsect
  | some bytes ↦ some bytes
]

-- What a read gives: a panic of `calc_chs`, or the bytes or nothing.
pub data Sectors : Type 0 where
  panicked : Sectors
  sectors : Option Bytes → Sectors

pub by_chs : (left : ℕ) → Bios → (nsect : ℕ) → Option Chs → Sectors
by_chs left bios nsect none = panicked
by_chs left bios nsect (some chs) = sectors (retry left 0 bios chs nsect)

-- `bdev_read_range`, and `bdev_read_sect` for one sector. A call gives all sectors or none, so that the loop of
-- `bdev_read_range` never goes on behind a part of them.
pub bdev_read_range : Drive → Bios → (lba nsect : ℕ) → Sectors
bdev_read_range d bios lba nsect =
    if d.have_bios_ext
    then sectors (bios.rw_lba lba nsect)
    else by_chs nretries bios nsect (calc_chs d lba)
