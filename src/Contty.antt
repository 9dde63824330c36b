-- ===== src/Contty.antt =====
-- src/contty.c: the text console, with CON_TEXTMODE and CON_SERIAL as config.h defines them. The text
-- memory is read by cells of two bytes. A register of the CRTC holds what was written to it last.
mod Bounds
mod Calls
mod Terminal
mod Scroll
mod Screen
mod Tests
use pcboot.Prelude.{
  ℕ, zero, suc, ◌+◌, ◌-◌, ◌*◌, ◌/◌, ◌%◌, Bool, true, false, not, ◌&&◌, List, [], ◌∷◌, ◌++◌, ltb,
  leb, ◌==◌, if◌then◌else◌, bit_and, bit_or,
}

abbrev pub virt_rows : ℕ
virt_rows = 200

abbrev pub ncols : ℕ
ncols = 80

abbrev pub nrows : ℕ
nrows = 25

-- The registers of the CRTC
abbrev pub curstart : ℕ
curstart = 0x0a

abbrev pub curend : ℕ
curend = 0x0b

abbrev pub start_h : ℕ
start_h = 0x0c

abbrev pub start_l : ℕ
start_l = 0x0d

abbrev pub curloc_h : ℕ
curloc_h = 0x0e

abbrev pub curloc_l : ℕ
curloc_l = 0x0f

pub vmem_char : (c attr : ℕ) → ℕ
vmem_char c attr = bit_or (bit_and c 0xff) (attr * 256 % 65536)

-- `sent` is what ser_putchar was given.
pub record Con : Type 0 where
  pub cell : ℕ → ℕ
  pub cursor_x : ℕ
  pub cursor_y : ℕ
  pub txattr : ℕ
  pub start_line : ℕ
  pub cy0 : ℕ
  pub cy1 : ℕ
  pub curvis : Bool
  pub scr_on : Bool
  pub crtc : ℕ → ℕ
  pub sent : List ℕ

pub crtc_read : (reg : ℕ) → Con → ℕ
crtc_read reg con = con.crtc reg

pub crtc_write : (reg val : ℕ) → Con → Con
crtc_write reg val con = record con { crtc = λ r. if r == reg then val % 256 else con.crtc r }

pub crtc_cursor : (x y : ℕ) → Con → Con
crtc_cursor x y con =
    let addr = (y + con.start_line) * ncols + x in
    crtc_write curloc_h (addr / 256) (crtc_write curloc_l addr con)

pub crtc_setstart : (y : ℕ) → Con → Con
crtc_setstart y con =
    let addr = y * ncols in crtc_write start_h (addr / 256) (crtc_write start_l addr con)

-- memset16 of `n` cells from the cell `at`, and memcpy of `n` cells to the first one
pub fill_cells : (at val n : ℕ) → Con → Con
fill_cells at val n con = record con {
  cell = λ i. if leb at i && ltb i (at + n) then val else con.cell i;
}

pub copy_up : (src n : ℕ) → Con → Con
copy_up src n con = record con { cell = λ i. if ltb i n then con.cell (src + i) else con.cell i }

-- `TEXT_ADDR + start_line * NCOLS` counts bytes, so that it is half as many cells.
pub wrap_start : Con → Con
wrap_start con =
    if ltb (virt_rows - nrows) con.start_line
    then record (copy_up (con.start_line * ncols / 2) ((nrows - 1) * ncols) con) { start_line = 0 }
    else con

pub scroll : Con → Con
scroll con =
    let moved = wrap_start (record con { start_line = con.start_line + 1 }) in
    let new_line = moved.start_line + nrows - 1 in
    crtc_setstart moved.start_line
      (fill_cells (new_line * ncols) (vmem_char 32 moved.txattr) ncols moved)

pub linefeed : Con → Con
linefeed con =
    let down = record con { cursor_y = con.cursor_y + 1 } in
    let scrolled = scroll down in
    if leb nrows down.cursor_y then record scrolled { cursor_y = scrolled.cursor_y - 1 } else down

pub con_show_cursor : (show : Bool) → Con → Con
con_show_cursor show con =
    let val = bit_and con.cy0 0x1f in
    record (crtc_write curstart (if show then val else bit_or val 0x20) con) { curvis = show }

pub con_cursor : (x y : ℕ) → Con → Con
con_cursor x y con = crtc_cursor x y (record con { cursor_x = x; cursor_y = y })

-- The shape is CON_CURSOR_LINE, which is 0, or CON_CURSOR_BLOCK.
pub con_curattr : (shape blink : ℕ) → Con → Con
con_curattr shape blink con =
    let shaped = record con { cy0 = if shape == 0 then 0xd else 0; cy1 = 0xe } in
    let start = if con.curvis then bit_or shaped.cy0 0x20 else shaped.cy0 in
    crtc_write curend shaped.cy0 (crtc_write curstart start shaped)

pub con_fgcolor : (c : ℕ) → Con → Con
con_fgcolor c con = record con { txattr = bit_or (bit_and con.txattr 0xf0) c % 256 }

pub con_bgcolor : (c : ℕ) → Con → Con
con_bgcolor c con = record con { txattr = bit_or (bit_and con.txattr 0x0f) (c * 16) % 256 }

pub con_setattr : (attr : ℕ) → Con → Con
con_setattr attr con = record con { txattr = attr }

pub con_getattr : Con → ℕ
con_getattr con = con.txattr

pub con_scr_enable : Con → Con
con_scr_enable con = record con { scr_on = true }

pub con_scr_disable : Con → Con
con_scr_disable con = record con { scr_on = false }

pub con_clear : Con → Con
con_clear con =
    let blank = fill_cells 0 (vmem_char 32 con.txattr) (ncols * nrows) con in
    let top = crtc_setstart 0 (record blank { start_line = 0 }) in
    crtc_cursor 0 0 (record top { cursor_x = 0; cursor_y = 0 })

-- The opening of the serial port is left out.
pub con_init : Con → Con
con_init con =
    let start = crtc_read curstart con in
    let got = record con {
      curvis = not (bit_and start 0x20 == 0);
      cy0 = bit_and start 0x1f;
      cy1 = bit_and (crtc_read curend con) 0x1f;
    } in
    let shown = crtc_setstart 0 (con_show_cursor true got) in
    record (crtc_cursor shown.cursor_x shown.cursor_y shown) { scr_on = true }

pub con_putchar_scr : (x y c : ℕ) → Con → Con
con_putchar_scr x y c con =
    let at = (y + con.start_line) * ncols + x in
    record con { cell = λ i. if i == at then vmem_char c con.txattr else con.cell i }

pub place : Con → Con
place con = crtc_cursor con.cursor_x con.cursor_y con

-- The end of a line that the cursor has left
pub wrap_line : Con → Con
wrap_line con = if leb ncols con.cursor_x then record (linefeed con) { cursor_x = 0 } else con

pub put_return : Con → Con
put_return con = place (record con { cursor_x = 0 })

pub put_tab : Con → Con
put_tab con = place (wrap_line (record con { cursor_x = bit_and con.cursor_x 0x7 + 8 }))

pub put_back : Con → Con
put_back con =
    let left = record con { cursor_x = con.cursor_x - 1 } in
    place (con_putchar_scr left.cursor_x left.cursor_y 32 left)

pub put_plain : (c : ℕ) → Con → Con
put_plain c con =
    let put = con_putchar_scr con.cursor_x con.cursor_y c con in
    place (wrap_line (record put { cursor_x = put.cursor_x + 1 }))

pub put_screen : (c : ℕ) → Con → Con
put_screen c con =
    if c == b'\n'
    then put_return (linefeed con)
    else if c == b'\r'
    then put_return con
    else if c == b'\t'
    then put_tab con
    else if c == 8
    then put_back con
    else put_plain c con

pub con_putchar : (c : ℕ) → Con → Con
con_putchar c con =
    let shown = if con.scr_on then put_screen c con else con in
    record shown { sent = shown.sent ++ c ∷ [] }

-- The loop of `con_printf` over what vsnprintf gives for the text, with the number of characters put.
pub con_printf : (x y : ℕ) (text : List ℕ) → Con → ℕ × Con
con_printf x y [] con = (0, con)
con_printf x y (c ∷ text) con =
    let rest = con_printf (x + 1) y text (con_putchar_scr x y c con) in
    if ltb x 80 then (rest.0 + 1, rest.1) else (0, con)
