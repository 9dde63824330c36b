-- ===== src/Contty/Terminal.antt =====
-- What src/contty.c is to show: a terminal, which forgets its first line where a line is fed at its end.
use pcboot.Prelude.{ℕ, ◌+◌, ◌-◌, ◌*◌, ◌/◌, ◌<◌, ◌≡◌, ◌&&◌, List, [], ◌∷◌, leb, ◌==◌, if◌then◌else◌}
use pcboot.Contty.{Con, vmem_char, con_putchar}

-- A terminal: what stands in each row and column, the cursor, and the colours
pub record Terminal : Type 0 where
  pub shown : (row column : ℕ) → ℕ
  pub x : ℕ
  pub y : ℕ
  pub attr : ℕ

unfoldable pub put : (c : ℕ) → Terminal → Terminal
put c t = record t {
  shown = λ r q. if r == t.y && q == t.x then vmem_char c t.attr else t.shown r q;
}

unfoldable pub feed : Terminal → Terminal
feed t =
    let rolled = λ (r q : ℕ). if r == 24 then vmem_char 32 t.attr else t.shown (r + 1) q in
    if t.y == 24 then record t { shown = rolled } else record t { y = t.y + 1 }

unfoldable pub next_line : Terminal → Terminal
next_line t = if leb 80 t.x then record (feed t) { x = 0 } else t

unfoldable pub type_char : (c : ℕ) → Terminal → Terminal
type_char c t =
    if c == b'\n'
    then record (feed t) { x = 0 }
    else if c == b'\r'
    then record t { x = 0 }
    else if c == b'\t'
    then next_line (record t { x = (t.x / 8 + 1) * 8 })
    else if c == 8
    then put 32 (record t { x = t.x - 1 })
    else next_line (record (put c t) { x = t.x + 1 })

unfoldable pub type_text : List ℕ → Terminal → Terminal
type_text [] t = t
type_text (c ∷ text) t = type_text text (type_char c t)

unfoldable pub put_text : List ℕ → Con → Con
put_text [] con = con
put_text (c ∷ text) con = put_text text (con_putchar c con)

-- What the screen shows is what the terminal does.
pub record Shows (con : Con) (t : Terminal) : Type 0 where
  pub column : con.cursor_x ≡ t.x
  pub row : con.cursor_y ≡ t.y
  pub colour : con.txattr ≡ t.attr
  pub cells : (r q : ℕ) → r < 25 → q < 80 → con.cell ((r + con.start_line) * 80 + q) ≡ t.shown r q
