-- ===== src/Contty/Scroll.antt =====
-- src/contty.c: a line that is fed, as long as the text memory has lines left, and behind that.
use pcboot.Prelude.{
  ℕ, ◌+◌, ◌-◌, ◌*◌, ◌≤◌, ◌<◌, ◌≡◌, refl, ap, ◌∙◌, true, false, ltb, leb, ◌==◌, if◌then◌else◌, arith,
  Bool-cases, inl, inr,
}
use native.Mathlib.Decide.{dec_lt}
use pcboot.Contty.{
  Con, vmem_char, crtc_write, crtc_setstart, fill_cells, copy_up, wrap_start, scroll, linefeed,
}
use pcboot.Contty.Terminal.{Terminal, feed, Shows}

-- The lines that are left in the text memory
pub record Scrolled (con after : Con) : Type 0 where
  column : after.cursor_x ≡ con.cursor_x
  row : after.cursor_y ≡ con.cursor_y
  colour : after.txattr ≡ con.txattr
  screen : after.scr_on ≡ con.scr_on
  start : after.start_line ≡ con.start_line + 1
  blank :
      (i : ℕ)
      → (con.start_line + 25) * 80 ≤ i
      → i < (con.start_line + 26) * 80
      → after.cell i ≡ vmem_char 32 con.txattr
  kept : (i : ℕ) → i < (con.start_line + 25) * 80 → after.cell i ≡ con.cell i

scroll-Scrolled : (con : Con) → con.start_line < 175 → Scrolled con (scroll con)
unfolding scroll wrap_start fill_cells crtc_setstart crtc_write
scroll-Scrolled con s =
    let left : ltb 175 (con.start_line + 1) ≡ false = ground arith in
    rw left (record {
      column = refl;
      row = refl;
      colour = refl;
      screen = refl;
      start = refl;
      blank = λ i lo hi. ground arith;
      kept = λ i hi. ground arith;
    })

rolled :
    (con after : Con) (t : Terminal) (r q : ℕ)
    → Scrolled con after
    → Shows con t
    → r < 25
    → q < 80
    → after.cell ((r + after.start_line) * 80 + q)
      ≡ (if r == 24 then vmem_char 32 t.attr else t.shown (r + 1) q)
rolled con after t r q d w hr hq = elim (Bool-cases (r == 24)) [
  | inl last ↦
      let bottom : r ≡ 24 = ground (arith, last) in
      rw last (
        d.blank ((r + after.start_line) * 80 + q) (omega (arith, d.start, bottom))
          (omega (arith, d.start, bottom))
        ∙ ap (vmem_char 32) w.colour)
  | inr above ↦
      let upper : r < 24 = ground (arith, above, hr) in
      rw above (
        d.kept ((r + after.start_line) * 80 + q) (omega (arith, d.start, upper))
        ∙ ap con.cell (omega (arith, d.start))
        ∙ w.cells (r + 1) q (omega (arith, upper)) hq)
]

feed_bottom :
    (t : Terminal)
    → t.y ≡ 24
    → feed t
      ≡ record t { shown = λ r q. if r == 24 then vmem_char 32 t.attr else t.shown (r + 1) q }
unfolding feed
feed_bottom t e = let last : (t.y == 24) ≡ true = ground (arith, e) in simp last

feed_above : (t : Terminal) → t.y < 24 → feed t ≡ record t { y = t.y + 1 }
unfolding feed
feed_above t h = let above : (t.y == 24) ≡ false = ground (arith, h) in simp above

pub linefeed_bottom :
    (con : Con)
    → con.cursor_y ≡ 24
    → linefeed con ≡ (
        let after = scroll (record con { cursor_y = con.cursor_y + 1 }) in
        record after { cursor_y = after.cursor_y - 1 })
unfolding linefeed
linefeed_bottom con e = let last : leb 25 (con.cursor_y + 1) ≡ true = ground (arith, e) in simp last

linefeed_above :
    (con : Con) → con.cursor_y < 24 → linefeed con ≡ record con { cursor_y = con.cursor_y + 1 }
unfolding linefeed
linefeed_above con h =
    let above : leb 25 (con.cursor_y + 1) ≡ false = ground (arith, h) in simp above

-- What a character does: the terminal is shown, and at most one line is used up.
pub record Goes (con after : Con) (t : Terminal) : Type 0 where
  pub shows : Shows after t
  pub screen : after.scr_on ≡ con.scr_on
  pub lines : after.start_line ≤ con.start_line + 1

pub linefeed-Goes :
    (con : Con) (t : Terminal)
    → con.cursor_y < 25
    → con.start_line < 175
    → Shows con t
    → Goes con (linefeed con) (feed t)
linefeed-Goes con t y s w = elim (dec_lt con.cursor_y 24) [
  | yes above ↦
      rw (linefeed_above con above, feed_above t (omega (arith, w.row, above)))
        (record {
          shows = record {
            column = w.column;
            row = omega (arith, w.row);
            colour = w.colour;
            cells = w.cells;
          };
          screen = refl;
          lines = omega arith;
        })
  | no below ↦
      let last : con.cursor_y ≡ 24 = omega (arith, y, below) in
      let down = record con { cursor_y = con.cursor_y + 1 } in
      let d = scroll-Scrolled down s in
      let e : Scrolled con (record (scroll down) { cursor_y = (scroll down).cursor_y - 1 }) =
        record {
          column = d.column;
          row = omega (arith, d.row);
          colour = d.colour;
          screen = d.screen;
          start = d.start;
          blank = d.blank;
          kept = d.kept;
        } in
      rw (linefeed_bottom con last, feed_bottom t (omega (arith, w.row, last)))
        (record {
          shows = record {
            column = e.column ∙ w.column;
            row = e.row ∙ w.row;
            colour = e.colour ∙ w.colour;
            cells = λ r q hr hq. rolled con _ t r q e w hr hq;
          };
          screen = e.screen;
          lines = omega (arith, e.start);
        })
]

scroll-wraps :
    (con : Con)
    → con.start_line ≡ 175
    → ((scroll con).start_line ≡ 0)
      × ((i : ℕ) → i < 1920 → (scroll con).cell i ≡ con.cell (7040 + i))
unfolding scroll wrap_start fill_cells copy_up crtc_setstart crtc_write
scroll-wraps con e = (ground arith, λ i h. ground arith)

-- A line that is fed in the last row, with the last lines of the text memory shown, makes the first 24
-- rows of the screen those of the lines from 88 on.
pub linefeed-wraps :
    (con : Con) (r q : ℕ)
    → con.cursor_y ≡ 24
    → con.start_line ≡ 175
    → r < 24
    → q < 80
    → (linefeed con).cell ((r + (linefeed con).start_line) * 80 + q) ≡ con.cell ((r + 88) * 80 + q)
linefeed-wraps con r q last e hr hq =
    let down = record con { cursor_y = con.cursor_y + 1 } in
    let (start, cells) = scroll-wraps down e in
    let place : (r + (scroll down).start_line) * 80 + q ≡ r * 80 + q = omega (arith, start) in
    rw (linefeed_bottom con last) (
      ap (scroll down).cell place
      ∙ cells (r * 80 + q) (omega (arith, hr, hq))
      ∙ ap con.cell (omega arith))
