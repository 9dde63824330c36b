-- ===== src/Contty/Tests.antt =====
-- A screen whose cells hold their own numbers, with the cursor in its last line
use pcboot.Prelude.{
  ℕ, ◌+◌, ◌*◌, ◌/◌, ◌%◌, ◌≤◌, ◌<◌, ◌≡◌, refl, true, [], ◌∷◌, ◌==◌, if◌then◌else◌, arith,
}
use pcboot.Contty.{
  Con, con_putchar, put_screen, linefeed, scroll, wrap_start, fill_cells, copy_up, crtc_setstart,
  crtc_cursor, crtc_write, put_return, put_tab, place, wrap_line, con_putchar_scr, put_plain,
}
use pcboot.Contty.Bounds.{IsValid, Stays}
use pcboot.Contty.Calls.{putchar, cursor, print, clear, calls, calls-Stays}
use pcboot.Contty.Terminal.{Terminal, type_text, put_text, Shows}
use pcboot.Contty.Scroll.{linefeed-wraps}
use pcboot.Contty.Screen.{put_text-Shows, put_tab-back}

abbrev screen_from : (start x : ℕ) → Con
screen_from start x = record {
  cell = λ i. i;
  cursor_x = x;
  cursor_y = 24;
  txattr = 7;
  start_line = start;
  cy0 = 13;
  cy1 = 14;
  curvis = true;
  scr_on = true;
  crtc = λ r.
      if r == 12
      then start * 80 / 256
      else if r == 13
      then start * 80 % 256
      else if r == 14
      then ((24 + start) * 80 + x) / 256
      else ((24 + start) * 80 + x) % 256;
  sent = [];
}

abbrev terminal : Terminal
terminal = record { shown = λ r q. (r + 170) * 80 + q; x = 79; y = 24; attr = 7 }

screen-IsValid : (start x : ℕ) → start ≤ 175 → x < 80 → IsValid (screen_from start x)
screen-IsValid start x s h = ground arith

calls-Stays_example : Stays (screen_from 175 3) (
    calls
      (putchar 10 ∷ cursor 79 24 ∷ print 70 3 (1 ∷ 2 ∷ []) ∷ putchar 98 ∷ clear ∷ [])
      (screen_from 175 3))
calls-Stays_example =
    calls-Stays (putchar 10 ∷ cursor 79 24 ∷ print 70 3 (1 ∷ 2 ∷ []) ∷ putchar 98 ∷ clear ∷ [])
      (screen_from 175 3) (omega arith) (screen-IsValid 175 3 (omega arith) (omega arith))

-- A character in the last column, which feeds a line, a new line, and one step back
put_text-Shows_example :
    Shows
      (put_text (97 ∷ 10 ∷ 98 ∷ 8 ∷ []) (screen_from 170 79))
      (type_text (97 ∷ 10 ∷ 98 ∷ 8 ∷ []) terminal)
put_text-Shows_example =
    put_text-Shows (97 ∷ 10 ∷ 98 ∷ 8 ∷ []) (screen_from 170 79) terminal (omega arith) refl
      (screen-IsValid 170 79 (omega arith) (omega arith)) (omega arith)
      (record { column = refl; row = refl; colour = refl; cells = λ r q hr hq. refl })

two_lines : (put_text (97 ∷ 10 ∷ 98 ∷ []) (screen_from 170 79)).start_line ≡ 172
unfolding con_putchar put_screen linefeed scroll wrap_start fill_cells copy_up crtc_setstart
    crtc_cursor crtc_write place wrap_line put_plain put_return con_putchar_scr put_text
two_lines = refl

-- The first cell shown is that of line 88.
linefeed-wraps_example :
    (linefeed (screen_from 175 0)).cell ((0 + (linefeed (screen_from 175 0)).start_line) * 80 + 5)
    ≡ 7045
linefeed-wraps_example =
    linefeed-wraps (screen_from 175 0) 0 5 refl refl (omega arith) (omega arith)

put_tab-back_run : (put_tab (screen_from 0 20)).cursor_x < 20
put_tab-back_run = put_tab-back (screen_from 0 20) (omega arith)
