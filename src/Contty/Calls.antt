-- ===== src/Contty/Calls.antt =====
-- src/contty.c: no sequence of calls leaves the bounds.
use pcboot.Prelude.{
  ℕ, ◌+◌, ◌<◌, ◌≡◌, refl, ◌∙◌, Bool, List, [], ◌∷◌, ltb, arith, Bool-cases, inl, inr,
}
use pcboot.Contty.{
  Con, crtc_write, crtc_cursor, crtc_setstart, fill_cells, con_putchar_scr, crtc_read, con_putchar,
  con_clear, con_cursor, con_show_cursor, con_curattr, con_fgcolor, con_bgcolor, con_setattr,
  con_scr_enable, con_scr_disable, con_init, con_printf,
}
use pcboot.Contty.Bounds.{IsValid, Stays, con_putchar-Stays, con_putchar_scr-Keeps}

con_clear-Stays : (con : Con) → Stays con (con_clear con)
unfolding con_clear crtc_cursor crtc_setstart crtc_write fill_cells
con_clear-Stays con = (ground arith, λ i h. ground arith)

pub con_init-IsValid :
    (con : Con)
    → con.cursor_x < 80
    → con.cursor_y < 25
    → con.start_line ≡ 0
    → IsValid (con_init con)
unfolding con_init con_show_cursor crtc_read crtc_cursor crtc_setstart crtc_write
con_init-IsValid con x y s = ground arith

con_printf-Stays :
    (x y : ℕ) (text : List ℕ) (con : Con)
    → y < 25
    → IsValid con
    → Stays con (con_printf x y text con).1
unfolding con_printf
con_printf-Stays x y [] con h v = (v, λ i h. refl)
con_printf-Stays x y (c ∷ text) con h v = elim (Bool-cases (ltb x 80)) [
  | inl on ↦
      let put = con_putchar_scr x y c con in
      let w : IsValid put = unfold con_putchar_scr in ground arith in
      let (v', k) = con_printf-Stays (x + 1) y text put h w in
      rw on
        (v', λ i hi. k i hi ∙ con_putchar_scr-Keeps x y c con (ground (arith, on)) h v.start i hi)
  | inr off ↦ rw off (v, λ i h. refl)
]

-- The calls of the console that its clients make, but con_init
pub data Call : Type 0 where
  putchar : (c : ℕ) → Call
  put_at : (x y c : ℕ) → Call
  cursor : (x y : ℕ) → Call
  show_cursor : (show : Bool) → Call
  curattr : (shape blink : ℕ) → Call
  fgcolor bgcolor attribute : ℕ → Call
  clear enable disable : Call
  print : (x y : ℕ) (text : List ℕ) → Call

pub call : Call → Con → Con
call (putchar c) con = con_putchar c con
call (put_at x y c) con = con_putchar_scr x y c con
call (cursor x y) con = con_cursor x y con
call (show_cursor show) con = con_show_cursor show con
call (curattr shape blink) con = con_curattr shape blink con
call (fgcolor c) con = con_fgcolor c con
call (bgcolor c) con = con_bgcolor c con
call (attribute c) con = con_setattr c con
call clear con = con_clear con
call enable con = con_scr_enable con
call disable con = con_scr_disable con
call (print x y text) con = (con_printf x y text con).1

pub calls : List Call → Con → Con
calls [] con = con
calls (c ∷ cs) con = calls cs (call c con)

-- Places that a call names are on the screen.
abbrev pub IsOnScreen : Call → Type 0
IsOnScreen (put_at x y c) = (x < 80) × (y < 25)
IsOnScreen (cursor x y) = (x < 80) × (y < 25)
IsOnScreen (print x y text) = y < 25
IsOnScreen other = Unit {0}

abbrev pub AllOnScreen : List Call → Type 0
AllOnScreen [] = Unit {0}
AllOnScreen (c ∷ cs) = IsOnScreen c × AllOnScreen cs

call-Stays : (c : Call) (con : Con) → IsOnScreen c → IsValid con → Stays con (call c con)
unfolding call
call-Stays (putchar c) con h v = con_putchar-Stays c con v
call-Stays (put_at x y c) con (hx, hy) v =
    (unfold con_putchar_scr in ground arith, con_putchar_scr-Keeps x y c con hx hy v.start)
call-Stays (cursor x y) con (hx, hy) v =
    unfold con_cursor crtc_cursor crtc_write in (ground arith, λ i h. refl)
call-Stays (show_cursor show) con h v =
    unfold con_show_cursor crtc_write in (ground arith, λ i h. refl)
call-Stays (curattr shape blink) con h v =
    unfold con_curattr crtc_write in (ground arith, λ i h. refl)
call-Stays (fgcolor c) con h v = unfold con_fgcolor in (ground arith, λ i h. refl)
call-Stays (bgcolor c) con h v = unfold con_bgcolor in (ground arith, λ i h. refl)
call-Stays (attribute c) con h v = unfold con_setattr in (ground arith, λ i h. refl)
call-Stays clear con h v = con_clear-Stays con
call-Stays enable con h v = unfold con_scr_enable in (ground arith, λ i h. refl)
call-Stays disable con h v = unfold con_scr_disable in (ground arith, λ i h. refl)
call-Stays (print x y text) con h v = con_printf-Stays x y text con h v

-- Calls whose places are on the screen, from a state in which the cursor is on the screen and the CRTC
-- shows it, leave the cursor there and shown, and write nothing behind the 200 lines.
pub calls-Stays :
    (cs : List Call) (con : Con) → AllOnScreen cs → IsValid con → Stays con (calls cs con)
unfolding calls
calls-Stays [] con h v = (v, λ i h. refl)
calls-Stays (c ∷ cs) con (h, hs) v =
    let (v1, k1) = call-Stays c con h v in
    let (v2, k2) = calls-Stays cs (call c con) hs v1 in (v2, λ i h. k2 i h ∙ k1 i h)
