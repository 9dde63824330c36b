-- ===== src/Ring.antt =====
-- The ring buffers of src/keyb.c and src/serial.c: they have 2 ^ w places, of which one stays empty,
-- and `mask` is 2 ^ w - 1.
pub mod Contents
pub mod Queue
mod Tests
use pcboot.Prelude.{ℕ, ◌+◌, ◌-◌, Option, none, some, ltb, ◌==◌, if◌then◌else◌, bit_and}

pub record Ring : Type 0 where
  pub buffer : ℕ → ℕ
  pub ridx : ℕ
  pub widx : ℕ

-- `ADVANCE` and `BNEXT`
unfoldable pub advance : (mask x : ℕ) → ℕ
advance mask x = bit_and (x + 1) mask

-- A write that meets the read end discards the oldest entry.
pub push : (mask key : ℕ) → Ring → Ring
unfolding advance
push mask key r =
    let widx = advance mask r.widx in
    record {
      buffer = λ i. if i == r.widx then key else r.buffer i;
      ridx = if widx == r.ridx then advance mask r.ridx else r.ridx;
      widx = widx;
    }

-- `none` is -1.
unfoldable pub pop : (mask : ℕ) → Ring → Option (ℕ × Ring)
unfolding advance
pop mask r =
    if r.ridx == r.widx
    then none
    else some (r.buffer r.ridx, record r { ridx = advance mask r.ridx })

-- `--buf_ridx < 0` is a read end at 0.
pub putback : (mask key : ℕ) → Ring → Ring
unfolding advance
putback mask key r =
    let back = if ltb r.ridx 1 then mask else r.ridx - 1 in
    let ridx = if back == r.widx then advance mask back else back in
    record r { buffer = λ i. if i == ridx then key else r.buffer i; ridx = ridx }
