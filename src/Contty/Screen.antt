-- ===== src/Contty/Screen.antt =====
-- src/contty.c: as long as the text memory has lines left, the lines that the CRTC shows are those of a
-- terminal. Behind that the screen is another.
use pcboot.Prelude.{
  ℕ, ◌+◌, ◌-◌, ◌%◌, ◌≤◌, ◌<◌, ◌≡◌, ◌≢◌, refl, sym, ap, ◌∙◌, true, false, List, [], ◌∷◌, leb, ◌==◌,
  arith, Bool-cases, inl, inr, length, bit_and,
}
use pcboot.Contty.{
  Con, vmem_char, crtc_write, crtc_cursor, linefeed, con_putchar_scr, place, wrap_line, put_return,
  put_tab, put_back, put_plain, put_screen, con_putchar,
}
use pcboot.Prelude.Bits.{bit_and-mask}
use pcboot.Contty.Bounds.{IsValid, con_putchar-Stays}
use pcboot.Contty.Terminal.{Terminal, put, feed, next_line, type_char, type_text, put_text, Shows}
use pcboot.Contty.Scroll.{Goes, linefeed-Goes}

place-Goes : (con before : Con) (t : Terminal) → Goes before con t → Goes before (place con) t
unfolding place crtc_cursor crtc_write
place-Goes con before t g = record {
  shows = record {
    column = g.shows.column;
    row = g.shows.row;
    colour = g.shows.colour;
    cells = g.shows.cells;
  };
  screen = g.screen;
  lines = g.lines;
}

-- The cursor in another column
moved :
    (con : Con) (t : Terminal) (x : ℕ)
    → Shows con t
    → Shows (record con { cursor_x = x }) (record t { x = x })
moved con t x w = record { column = refl; row = w.row; colour = w.colour; cells = w.cells }

moved-Goes :
    (con before : Con) (t : Terminal) (x : ℕ)
    → Goes before con t
    → Goes before (record con { cursor_x = x }) (record t { x = x })
moved-Goes con before t x g = record {
  shows = moved con t x g.shows;
  screen = g.screen;
  lines = g.lines;
}

wrap_line-Goes :
    (con before : Con) (t : Terminal)
    → con.cursor_y < 25
    → con.start_line < 175
    → before.start_line ≡ con.start_line
    → before.scr_on ≡ con.scr_on
    → Shows con t
    → Goes before (wrap_line con) (next_line t)
unfolding wrap_line next_line
wrap_line-Goes con before t y s es eo w =
    let fed = linefeed-Goes con t y s w in
    let start : Goes before (linefeed con) (feed t) = record {
      shows = fed.shows;
      screen = fed.screen ∙ sym eo;
      lines = omega (arith, fed.lines, es);
    } in
    elim (Bool-cases (leb 80 t.x)) [
      | inl over ↦
          let over' : leb 80 con.cursor_x ≡ true = ap (leb 80) w.column ∙ over in
          simp (over, over') (moved-Goes (linefeed con) before (feed t) 0 start)
      | inr within ↦
          let within' : leb 80 con.cursor_x ≡ false = ap (leb 80) w.column ∙ within in
          simp (within, within') (record { shows = w; screen = sym eo; lines = omega (arith, es) })
    ]

con_putchar_scr-Shows :
    (c : ℕ) (con : Con) (t : Terminal)
    → con.cursor_x < 80
    → Shows con t
    → Shows (con_putchar_scr con.cursor_x con.cursor_y c con) (put c t)
unfolding con_putchar_scr put
con_putchar_scr-Shows c con t hx w = record {
  column = w.column;
  row = w.row;
  colour = w.colour;
  cells = λ r q hr hq.
      ground (arith, w.cells r q hr hq, w.row, w.column, hx, ap (vmem_char c) w.colour);
}

put_back-Goes :
    (con : Con) (t : Terminal)
    → con.cursor_x < 80
    → Shows con t
    → Goes con (put_back con) (put 32 (record t { x = t.x - 1 }))
unfolding put_back
put_back-Goes con t hx w =
    let left = record con { cursor_x = con.cursor_x - 1 } in
    let left' = record t { x = t.x - 1 } in
    let at_left : Shows left left' = record {
      column = omega (arith, w.column);
      row = w.row;
      colour = w.colour;
      cells = w.cells;
    } in
    place-Goes (con_putchar_scr left.cursor_x left.cursor_y 32 left) con (put 32 left') (record {
      shows = con_putchar_scr-Shows 32 left left' (omega (arith, hx)) at_left;
      screen = unfold con_putchar_scr in refl;
      lines = unfold con_putchar_scr in omega arith;
    })

put_plain-Goes :
    (c : ℕ) (con : Con) (t : Terminal)
    → con.cursor_x < 80
    → con.cursor_y < 25
    → con.start_line < 175
    → Shows con t
    → Goes con (put_plain c con) (next_line (record (put c t) { x = t.x + 1 }))
unfolding put_plain put
put_plain-Goes c con t hx y s w =
    let here = con_putchar_scr con.cursor_x con.cursor_y c con in
    let next = record here { cursor_x = here.cursor_x + 1 } in
    let next' = record (put c t) { x = t.x + 1 } in
    let written = con_putchar_scr-Shows c con t hx w in
    let at_next : Shows next next' = record {
      column = ap (λ (n : ℕ). n + 1) written.column;
      row = written.row;
      colour = written.colour;
      cells = written.cells;
    } in
    place-Goes (wrap_line next) con (next_line next') (
      wrap_line-Goes next con next' (unfold con_putchar_scr in y) (unfold con_putchar_scr in s)
        (unfold con_putchar_scr in refl) (unfold con_putchar_scr in refl) at_next)

put_screen-Goes :
    (c : ℕ) (con : Con) (t : Terminal)
    → c ≢ b'\t'
    → IsValid con
    → con.start_line < 175
    → Shows con t
    → Goes con (put_screen c con) (type_char c t)
unfolding put_screen type_char put_return
put_screen-Goes c con t tab v s w =
    let fed = linefeed-Goes con t v.row s w in
    let newline = place-Goes _ con _ (moved-Goes (linefeed con) con (feed t) 0 fed) in
    let here : Goes con con t = record { shows = w; screen = refl; lines = omega arith } in
    let back = place-Goes _ con _ (moved-Goes con con t 0 here) in
    let left = put_back-Goes con t v.column w in
    let plain = put_plain-Goes c con t v.column v.row s w in
    let other : (c == 9) ≡ false = ground (arith, tab) in
    elim (Bool-cases (c == 10)) [
      | inl e ↦ rw e newline
      | inr n ↦ rw n (elim (Bool-cases (c == 13)) [
        | inl e ↦ rw e back
        | inr n ↦
            rw (n, other) (elim (Bool-cases (c == 8)) [ inl e ↦ rw e left | inr n ↦ rw n plain ])
      ])
    ]

con_putchar-Goes :
    (c : ℕ) (con : Con) (t : Terminal)
    → c ≢ b'\t'
    → con.scr_on ≡ true
    → IsValid con
    → con.start_line < 175
    → Shows con t
    → Goes con (con_putchar c con) (type_char c t)
unfolding con_putchar
con_putchar-Goes c con t tab on v s w =
    let g = put_screen-Goes c con t tab v s w in
    simp on (record {
      shows = record {
        column = g.shows.column;
        row = g.shows.row;
        colour = g.shows.colour;
        cells = g.shows.cells;
      };
      screen = g.screen;
      lines = g.lines;
    })

abbrev pub HasNoTab : List ℕ → Type 0
HasNoTab [] = Unit {0}
HasNoTab (c ∷ text) = (c ≢ b'\t') × HasNoTab text

-- A text without tabs, for whose characters the text memory has as many lines left, and which is put
-- while the screen is on, shows what the terminal shows for it.
pub put_text-Shows :
    (text : List ℕ) (con : Con) (t : Terminal)
    → HasNoTab text
    → con.scr_on ≡ true
    → IsValid con
    → con.start_line + length text ≤ 175
    → Shows con t
    → Shows (put_text text con) (type_text text t)
unfolding put_text type_text
put_text-Shows [] con t tabs on v s w = w
put_text-Shows (c ∷ text) con t (tab, tabs) on v s w =
    let g = con_putchar-Goes c con t tab on v (omega (arith, s)) w in
    put_text-Shows text (con_putchar c con) (type_char c t) tabs (g.screen ∙ on)
      (con_putchar-Stays c con v).0 (omega (arith, g.lines, s)) g.shows

-- A tab behind the second stop moves the cursor backwards, to the second stop or less.
pub put_tab-back : (con : Con) → 16 ≤ con.cursor_x → (put_tab con).cursor_x < con.cursor_x
unfolding put_tab place crtc_cursor crtc_write wrap_line
put_tab-back con h =
    let low : bit_and con.cursor_x 7 ≡ con.cursor_x % 8 = bit_and-mask 3 con.cursor_x in
    ground (arith, low)
