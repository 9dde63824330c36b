-- ===== src/Serial.antt =====
-- src/serial.c: the ports, with the ring of the bytes that each has received. What the UART gives is an
-- argument of `recv_intr`, and what it is told, the result of `ser_open` and `ser_close`. A `char`
-- is its byte here; the source extends its sign, so that 0xff reads as -1.
pub mod Read
mod Tests
use pcboot.Prelude.{
  ℕ, zero, suc, ◌+◌, ◌-◌, ◌*◌, ◌/◌, ◌%◌, ◌^◌, Bool, true, false, not, ◌&&◌, List, [], ◌∷◌, Option,
  none, some, ltb, ◌==◌, if◌then◌else◌, bit_and, bit_or,
}
use pcboot.Ring.{Ring, push, pop}

pub record Port : Type 0 where
  pub base : ℕ
  pub intr : ℕ
  pub blocking : Bool
  pub inbuf : Ring

-- `BNEXT` is `advance` with this mask.
abbrev pub inbuf_mask : ℕ
inbuf_mask = 0xff

pub record Serial : Type 0 where
  pub ports : ℕ → Port
  pub num_open : ℕ

abbrev pub uart_base : ℕ → ℕ
uart_base pidx = if pidx == 0 then 0x3f8 else 0x2f8

abbrev pub uart_irq : ℕ → ℕ
uart_irq pidx = if pidx == 0 then 4 else 3

abbrev pub set_port : ℕ → Port → Serial → Serial
set_port pidx p s = record s { ports = λ i. if i == pidx then p else s.ports i }

-- The bytes that are written, each with its port, for a rate that is not 0 and a mode with the bit
-- `SER_8N2`.
pub open_writes : (base baud mode : ℕ) → List (ℕ × ℕ)
open_writes base baud mode =
    let div = 115200 / baud % 2 ^ 16 in
    let fmt = if bit_and mode 1 == 0 then 3 else bit_or 3 4 in
    (0x80, base + 3)
    ∷ (bit_and div 0xff, base + 0)
    ∷ (bit_and (div / 2 ^ 8) 0xff, base + 1)
    ∷ (fmt, base + 3)
    ∷ (bit_or (bit_or 1 4) 2, base + 2)
    ∷ (bit_or (bit_or 1 2) 8, base + 4)
    ∷ (1, base + 1)
    ∷ []

-- `none` is -1: there is no such port, or it is open.
pub ser_open : (pidx baud mode : ℕ) → Serial → Option (List (ℕ × ℕ) × Serial)
ser_open pidx baud mode s =
    let base = uart_base pidx in
    let p : Port = record {
      base = base;
      intr = uart_irq pidx;
      blocking = true;
      inbuf = record { buffer = λ i. 0; ridx = 0; widx = 0 };
    } in
    if ltb 1 pidx
    then none
    else if (s.ports pidx).base == 0
    then some (open_writes base baud mode, record (set_port pidx p s) { num_open = s.num_open + 1 })
    else none

-- The last port that is closed is told to send no more interrupts. Some port is open before.
pub ser_close : ℕ → Serial → List (ℕ × ℕ) × Serial
ser_close fd s =
    let base = (s.ports fd).base in
    let last = s.num_open == 1 in
    (
      (if last then (0, base + 1) ∷ (0, base + 4) ∷ [] else []),
      record (set_port fd (record (s.ports fd) { base = 0 }) s) { num_open = s.num_open - 1 },
    )

pub ser_block : ℕ → Serial → Serial
ser_block fd s = set_port fd (record (s.ports fd) { blocking = true }) s

pub ser_nonblock : ℕ → Serial → Serial
ser_nonblock fd s = set_port fd (record (s.ports fd) { blocking = false }) s

pub ser_pending : Port → Bool
ser_pending p = not (p.inbuf.ridx == p.inbuf.widx)

-- A read of a byte waits, gives -1, or gives a byte.
pub data Got : Type 0 where
  waits no_byte : Got
  byte : ℕ → Got

pub ser_getc : Port → Got × Port
ser_getc p = elim (pop inbuf_mask p.inbuf) [
  | none ↦ ((if p.blocking then waits else no_byte), p)
  | some (c, inbuf) ↦ ((if c == 0xff then no_byte else byte c), record p { inbuf = inbuf })
]

-- The bytes read, whether the call returns, and the port. It does not return while it waits.
pub ser_read : (count : ℕ) → Port → List ℕ × Bool × Port
ser_read zero p = ([], true, p)
ser_read (suc n) p =
    let (got, p') = ser_getc p in
    let rest = ser_read n p' in
    elim got [
      | waits ↦ ([], false, p')
      | no_byte ↦ ([], true, p')
      | byte c ↦ (c ∷ rest.0, rest.1, rest.2)
    ]

-- What the line status of a port says, with the byte that is then read.
pub data Line : Type 0 where
  received : ℕ → Line
  line_error : Line

-- The loops of `recv_intr` for one port, while data is ready. `none` is a panic.
pub receive : List Line → Port → Option Port
receive [] p = some p
receive (line_error ∷ ls) p = none
receive (received c ∷ ls) p = receive ls (record p { inbuf = push inbuf_mask c p.inbuf })

-- The two ports, in order.
pub recv_intr : (first second : List Line) → Serial → Option Serial
recv_intr first second s = elim (receive first (s.ports 0)) [
  | none ↦ none
  | some p ↦ elim (receive second ((set_port 0 p s).ports 1)) [
    | none ↦ none
    | some p' ↦ some (set_port 1 p' (set_port 0 p s))
  ]
]
