-- ===== src/Contty/Bounds.antt =====
-- src/contty.c: the cursor, the first line shown and the text memory stay in their bounds, and the
-- registers of the CRTC show where they are.
use pcboot.Prelude.{
  ℕ, ◌+◌, ◌-◌, ◌*◌, ◌≤◌, ◌<◌, ◌≡◌, refl, ◌∙◌, Bool, true, false, List, [], ◌∷◌, ◌++◌, leb, ◌==◌,
  if◌then◌else◌, arith, bit_and, Bool-cases, inl, inr,
}
use pcboot.Contty.{
  Con, crtc_write, crtc_cursor, crtc_setstart, fill_cells, copy_up, wrap_start, scroll, linefeed,
  con_putchar_scr, place, wrap_line, put_return, put_tab, put_back, put_plain, put_screen,
  con_putchar,
}

-- The first line shown, and what the CRTC knows of it
pub record IsAligned (con : Con) : Type 0 where
  pub row : con.cursor_y < 25
  pub start : con.start_line ≤ 175
  pub start_shown : con.crtc 0x0c * 256 + con.crtc 0x0d ≡ con.start_line * 80

pub record IsValid (con : Con) : Type 0 where
  pub column : con.cursor_x < 80
  pub row : con.cursor_y < 25
  pub start : con.start_line ≤ 175
  pub start_shown : con.crtc 0x0c * 256 + con.crtc 0x0d ≡ con.start_line * 80
  pub cursor_shown :
      con.crtc 0x0e * 256 + con.crtc 0x0f ≡ (con.cursor_y + con.start_line) * 80 + con.cursor_x

-- Behind the 200 lines of the text memory, nothing is written.
abbrev pub Keeps : Con → Con → Type 0
Keeps con con' = (i : ℕ) → 16000 ≤ i → con'.cell i ≡ con.cell i

pub aligned : {con : Con} → IsValid con → IsAligned con
aligned v = record { row = v.row; start = v.start; start_shown = v.start_shown }

pub place-IsValid : (con : Con) → IsAligned con → con.cursor_x < 80 → IsValid (place con)
unfolding place crtc_cursor crtc_write
place-IsValid con a x = ground arith

scroll-IsAligned :
    (con : Con)
    → con.cursor_y ≤ 25
    → con.start_line ≤ 175
    → IsAligned (record (scroll con) { cursor_y = (scroll con).cursor_y - 1 })
unfolding scroll wrap_start copy_up fill_cells crtc_setstart crtc_write
scroll-IsAligned con y s = ground arith

pub linefeed-IsAligned : (con : Con) → IsAligned con → IsAligned (linefeed con)
unfolding linefeed
linefeed-IsAligned con a =
    let down = record con { cursor_y = con.cursor_y + 1 } in
    elim (Bool-cases (leb 25 (con.cursor_y + 1))) [
      | inl bottom ↦ rw bottom (scroll-IsAligned down (omega (arith, a.row)) a.start)
      | inr above ↦ rw above (ground arith)
    ]

scroll-Keeps : (con : Con) → con.start_line ≤ 175 → Keeps con (scroll con)
unfolding scroll wrap_start copy_up fill_cells crtc_setstart crtc_write
scroll-Keeps con s i h = ground arith

linefeed-Keeps : (con : Con) → con.start_line ≤ 175 → Keeps con (linefeed con)
unfolding linefeed
linefeed-Keeps con s i h =
    let down = record con { cursor_y = con.cursor_y + 1 } in ground (arith, scroll-Keeps down s i h)

wrap_line-IsAligned : (con : Con) → IsAligned con → IsAligned (wrap_line con)
unfolding wrap_line
wrap_line-IsAligned con a = ground (arith, linefeed-IsAligned con a)

wrap_line-column : (con : Con) → (wrap_line con).cursor_x < 80
unfolding wrap_line
wrap_line-column con = ground arith

wrap_line-Keeps : (con : Con) → con.start_line ≤ 175 → Keeps con (wrap_line con)
unfolding wrap_line
wrap_line-Keeps con s i h = ground (arith, linefeed-Keeps con s i h)

place-Keeps : (con : Con) → Keeps con (place con)
unfolding place crtc_cursor crtc_write
place-Keeps con i h = refl

pub con_putchar_scr-Keeps :
    (x y c : ℕ) (con : Con)
    → x < 80
    → y < 25
    → con.start_line ≤ 175
    → Keeps con (con_putchar_scr x y c con)
unfolding con_putchar_scr
con_putchar_scr-Keeps x y c con hx hy s i h = ground arith

-- What a call does to the bounds
abbrev pub Stays : Con → Con → Type 0
Stays con con' = IsValid con' × Keeps con con'

-- The same behind the cursor's move to the next column.
wrapped :
    (con before : Con) → IsAligned con → Keeps before con → Stays before (place (wrap_line con))
wrapped con before a k = (
  place-IsValid (wrap_line con) (wrap_line-IsAligned con a) (wrap_line-column con),
  λ i h. place-Keeps (wrap_line con) i h ∙ wrap_line-Keeps con a.start i h ∙ k i h,
)

returned : (con before : Con) → IsAligned con → Keeps before con → Stays before (put_return con)
unfolding put_return
returned con before a k =
    let left = record con { cursor_x = 0 } in
    let same : IsAligned left = record {
      row = a.row;
      start = a.start;
      start_shown = a.start_shown;
    } in
    (place-IsValid left same (omega arith), λ i h. place-Keeps left i h ∙ k i h)

put_tab-Stays : (con : Con) → IsValid con → Stays con (put_tab con)
unfolding put_tab
put_tab-Stays con v =
    wrapped (record con { cursor_x = bit_and con.cursor_x 0x7 + 8 }) con
      (record { row = v.row; start = v.start; start_shown = v.start_shown }) (λ i h. refl)

put_back-Stays : (con : Con) → IsValid con → Stays con (put_back con)
unfolding put_back
put_back-Stays con v =
    let left = record con { cursor_x = con.cursor_x - 1 } in
    let put = con_putchar_scr left.cursor_x left.cursor_y 32 left in
    let column : con.cursor_x - 1 < 80 = omega (arith, v.column) in
    (
      place-IsValid put
          (unfold con_putchar_scr in
            record { row = v.row; start = v.start; start_shown = v.start_shown })
          (unfold con_putchar_scr in column),
      λ i h. place-Keeps put i h ∙ con_putchar_scr-Keeps _ _ 32 left column v.row v.start i h,
    )

put_plain-Stays : (c : ℕ) (con : Con) → IsValid con → Stays con (put_plain c con)
unfolding put_plain
put_plain-Stays c con v =
    let put = con_putchar_scr con.cursor_x con.cursor_y c con in
    wrapped (record put { cursor_x = put.cursor_x + 1 }) con
      (unfold con_putchar_scr in
        record { row = v.row; start = v.start; start_shown = v.start_shown })
      (con_putchar_scr-Keeps _ _ c con v.column v.row v.start)

put_screen-Stays : (c : ℕ) (con : Con) → IsValid con → Stays con (put_screen c con)
unfolding put_screen
put_screen-Stays c con v =
    let fed =
      returned (linefeed con) con (linefeed-IsAligned con (aligned v))
        (linefeed-Keeps con v.start) in
    let back = returned con con (aligned v) (λ i h. refl) in
    let tab = put_tab-Stays con v in
    let left = put_back-Stays con v in
    let plain = put_plain-Stays c con v in
    elim (Bool-cases (c == 10)) [
      | inl e ↦ rw e fed
      | inr n ↦ rw n (elim (Bool-cases (c == 13)) [
        | inl e ↦ rw e back
        | inr n ↦ rw n (elim (Bool-cases (c == 9)) [
          | inl e ↦ rw e tab
          | inr n ↦ rw n (elim (Bool-cases (c == 8)) [ inl e ↦ rw e left | inr n ↦ rw n plain ])
        ])
      ])
    ]

shown-Stays :
    (on : Bool) (c : ℕ) (con : Con) → IsValid con → Stays con (if on then put_screen c con else con)
shown-Stays true c con v = put_screen-Stays c con v
shown-Stays false c con v = (v, λ i h. refl)

sent-Stays :
    (con before : Con) (sent : List ℕ)
    → Stays before con
    → Stays before (record con { sent = sent })
sent-Stays con before sent (v, k) = (
  record {
    column = v.column;
    row = v.row;
    start = v.start;
    start_shown = v.start_shown;
    cursor_shown = v.cursor_shown;
  },
  k,
)

pub con_putchar-Stays : (c : ℕ) (con : Con) → IsValid con → Stays con (con_putchar c con)
unfolding con_putchar
con_putchar-Stays c con v =
    let shown = if con.scr_on then put_screen c con else con in
    sent-Stays shown con (shown.sent ++ c ∷ []) (shown-Stays con.scr_on c con v)
