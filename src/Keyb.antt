-- ===== src/Keyb.antt =====
-- src/keyb.c, src/keyb.h and src/kbscan.h: the keys that the interrupt reports, and the buffer of key
-- presses. The ports of the controller are not modelled: a code is an argument of `kbintr`.
pub mod Decode
pub mod Repeat
pub mod Buffer
mod Tests
use pcboot.Prelude.{
  ℕ, ◌+◌, ◌-◌, ◌^◌, ◌%◌, Bool, true, false, not, ◌&&◌, ◌||◌, List, [], ◌∷◌, Option, none, some, ltb,
  ◌==◌, if◌then◌else◌, get_or, bit_and,
}
use pcboot.Ring.{Ring, push, pop, putback}

abbrev pub kb_esc : ℕ
kb_esc = 27

abbrev pub kb_insert : ℕ
kb_insert = 128

abbrev pub kb_del : ℕ
kb_del = 129

abbrev pub kb_home : ℕ
kb_home = 130

abbrev pub kb_end : ℕ
kb_end = 131

abbrev pub kb_pgup : ℕ
kb_pgup = 132

abbrev pub kb_pgdn : ℕ
kb_pgdn = 133

abbrev pub kb_left : ℕ
kb_left = 134

abbrev pub kb_right : ℕ
kb_right = 135

abbrev pub kb_up : ℕ
kb_up = 136

abbrev pub kb_down : ℕ
kb_down = 137

abbrev pub kb_num_dot : ℕ
kb_num_dot = 138

abbrev pub kb_num_plus : ℕ
kb_num_plus = 140

abbrev pub kb_num_minus : ℕ
kb_num_minus = 141

abbrev pub kb_num_mul : ℕ
kb_num_mul = 142

abbrev pub kb_num_0 : ℕ
kb_num_0 = 144

abbrev pub kb_num_1 : ℕ
kb_num_1 = 145

abbrev pub kb_num_2 : ℕ
kb_num_2 = 146

abbrev pub kb_num_3 : ℕ
kb_num_3 = 147

abbrev pub kb_num_4 : ℕ
kb_num_4 = 148

abbrev pub kb_num_5 : ℕ
kb_num_5 = 149

abbrev pub kb_num_6 : ℕ
kb_num_6 = 150

abbrev pub kb_num_7 : ℕ
kb_num_7 = 151

abbrev pub kb_num_8 : ℕ
kb_num_8 = 152

abbrev pub kb_num_9 : ℕ
kb_num_9 = 153

abbrev pub kb_lalt : ℕ
kb_lalt = 154

abbrev pub kb_ralt : ℕ
kb_ralt = 155

abbrev pub kb_lctrl : ℕ
kb_lctrl = 156

abbrev pub kb_rctrl : ℕ
kb_rctrl = 157

abbrev pub kb_lshift : ℕ
kb_lshift = 158

abbrev pub kb_rshift : ℕ
kb_rshift = 159

abbrev pub kb_f1 : ℕ
kb_f1 = 160

abbrev pub kb_f2 : ℕ
kb_f2 = 161

abbrev pub kb_f3 : ℕ
kb_f3 = 162

abbrev pub kb_f4 : ℕ
kb_f4 = 163

abbrev pub kb_f5 : ℕ
kb_f5 = 164

abbrev pub kb_f6 : ℕ
kb_f6 = 165

abbrev pub kb_f7 : ℕ
kb_f7 = 166

abbrev pub kb_f8 : ℕ
kb_f8 = 167

abbrev pub kb_f9 : ℕ
kb_f9 = 168

abbrev pub kb_f10 : ℕ
kb_f10 = 169

abbrev pub kb_f11 : ℕ
kb_f11 = 170

abbrev pub kb_f12 : ℕ
kb_f12 = 171

abbrev pub kb_capslk : ℕ
kb_capslk = 172

abbrev pub kb_numlk : ℕ
kb_numlk = 173

abbrev pub kb_scrlk : ℕ
kb_scrlk = 174

abbrev pub kb_sysrq : ℕ
kb_sysrq = 175

abbrev pub scantbl_set1 : List ℕ
scantbl_set1 =
    0 ∷ kb_esc ∷ 49 ∷ 50 ∷ 51 ∷ 52 ∷ 53 ∷ 54 ∷ 55 ∷ 56 ∷ 57 ∷ 48 ∷ 45 ∷ 61 ∷ 8 ∷ 9 ∷ 113 ∷ 119 ∷ 101
    ∷ 114 ∷ 116 ∷ 121 ∷ 117 ∷ 105 ∷ 111 ∷ 112 ∷ 91 ∷ 93 ∷ 10 ∷ kb_lctrl ∷ 97 ∷ 115 ∷ 100 ∷ 102 ∷ 103
    ∷ 104 ∷ 106 ∷ 107 ∷ 108 ∷ 59 ∷ 39 ∷ 96 ∷ kb_lshift ∷ 92 ∷ 122 ∷ 120 ∷ 99 ∷ 118 ∷ 98 ∷ 110 ∷ 109
    ∷ 44 ∷ 46 ∷ 47 ∷ kb_rshift ∷ kb_num_mul ∷ kb_lalt ∷ 32 ∷ kb_capslk ∷ kb_f1 ∷ kb_f2 ∷ kb_f3
    ∷ kb_f4 ∷ kb_f5 ∷ kb_f6 ∷ kb_f7 ∷ kb_f8 ∷ kb_f9 ∷ kb_f10 ∷ kb_numlk ∷ kb_scrlk ∷ kb_num_7
    ∷ kb_num_8 ∷ kb_num_9 ∷ kb_num_minus ∷ kb_num_4 ∷ kb_num_5 ∷ kb_num_6 ∷ kb_num_plus ∷ kb_num_1
    ∷ kb_num_2 ∷ kb_num_3 ∷ kb_num_0 ∷ kb_num_dot ∷ kb_sysrq ∷ 0 ∷ 0 ∷ kb_f11 ∷ kb_f12 ∷ 0 ∷ 0 ∷ 0
    ∷ 0 ∷ 0 ∷ 0 ∷ 0 ∷ 0 ∷ 0 ∷ 0 ∷ 0 ∷ 0 ∷ 0 ∷ 0 ∷ 0 ∷ 0 ∷ 0 ∷ 0 ∷ 0 ∷ 0 ∷ 0 ∷ 0 ∷ 0 ∷ 0 ∷ 0 ∷ 0 ∷ 0
    ∷ 0 ∷ 0 ∷ 0 ∷ 0 ∷ 0 ∷ 0 ∷ 0 ∷ 0 ∷ 0 ∷ 0 ∷ 0 ∷ 0 ∷ []

abbrev pub scantbl_set1_ext : List ℕ
scantbl_set1_ext =
    0 ∷ 0 ∷ 0 ∷ 0 ∷ 0 ∷ 0 ∷ 0 ∷ 0 ∷ 0 ∷ 0 ∷ 0 ∷ 0 ∷ 0 ∷ 0 ∷ 0 ∷ 0 ∷ 0 ∷ 0 ∷ 0 ∷ 0 ∷ 0 ∷ 0 ∷ 0 ∷ 0
    ∷ 0 ∷ 0 ∷ 0 ∷ 0 ∷ 13 ∷ kb_rctrl ∷ 0 ∷ 0 ∷ 0 ∷ 0 ∷ 0 ∷ 0 ∷ 0 ∷ 0 ∷ 0 ∷ 0 ∷ 0 ∷ 0 ∷ 0 ∷ 0 ∷ 0 ∷ 0
    ∷ 0 ∷ 0 ∷ 0 ∷ 0 ∷ 0 ∷ 0 ∷ 0 ∷ kb_num_minus ∷ 0 ∷ kb_sysrq ∷ kb_ralt ∷ 0 ∷ 0 ∷ 0 ∷ 0 ∷ 0 ∷ 0 ∷ 0
    ∷ 0 ∷ 0 ∷ 0 ∷ 0 ∷ 0 ∷ 0 ∷ 0 ∷ kb_home ∷ kb_up ∷ kb_pgup ∷ 0 ∷ kb_left ∷ 0 ∷ kb_right ∷ 0
    ∷ kb_end ∷ kb_down ∷ kb_pgdn ∷ kb_insert ∷ kb_del ∷ 0 ∷ 0 ∷ 0 ∷ 0 ∷ 0 ∷ 0 ∷ 0 ∷ 0 ∷ 0 ∷ 0 ∷ 0
    ∷ 0 ∷ 0 ∷ 0 ∷ 0 ∷ 0 ∷ 0 ∷ 0 ∷ 0 ∷ 0 ∷ 0 ∷ 0 ∷ 0 ∷ 0 ∷ 0 ∷ 0 ∷ 0 ∷ 0 ∷ 0 ∷ 0 ∷ 0 ∷ 0 ∷ 0 ∷ 0 ∷ 0
    ∷ 0 ∷ 0 ∷ 0 ∷ 0 ∷ 0 ∷ 0 ∷ 0 ∷ 0 ∷ 0 ∷ []

-- `ext` is the static variable of `kbintr`.
pub record Keyb : Type 0 where
  pub keys : Ring
  pub num_pressed : ℕ
  pub keystate : ℕ → ℕ
  pub ext : Bool

-- `BUFSZ - 1`
abbrev pub buf_mask : ℕ
buf_mask = 63

-- What `kb_init` sets.
pub kb_init : Keyb → Keyb
kb_init k = record k {
  keys = record (k.keys) { ridx = 0; widx = 0 };
  num_pressed = 0;
  keystate = λ key. 0;
}

-- The argument of `kb_isdown`: -1, -2, -3, or a key.
pub data Query : Type 0 where
  kb_any kb_alt kb_ctrl : Query
  the_key : ℕ → Query

pub kb_isdown : Query → Keyb → ℕ
kb_isdown kb_any k = k.num_pressed
kb_isdown kb_alt k = k.keystate kb_lalt + k.keystate kb_ralt
kb_isdown kb_ctrl k = k.keystate kb_lctrl + k.keystate kb_rctrl
kb_isdown (the_key key) k = k.keystate key

pub kb_getkey : Keyb → Option (ℕ × Keyb)
kb_getkey k = elim (pop buf_mask k.keys) [
  | none ↦ none
  | some (key, keys) ↦ some (key, record k { keys = keys })
]

pub kb_putback : ℕ → Keyb → Keyb
kb_putback key k = record k { keys = putback buf_mask key k.keys }

-- The key of a code without its bit 7, by the table that `ext` selects.
pub key_of : (ext : Bool) → ℕ → ℕ
key_of ext code = get_or (if ext then scantbl_set1_ext else scantbl_set1) code 0

abbrev nonzero : ℕ → Bool
nonzero x = not (x == 0)

-- The test for a reboot.
pub reboots : ℕ → Keyb → Bool
reboots key k =
    key == kb_del
    && (nonzero (k.keystate kb_lalt) || nonzero (k.keystate kb_ralt))
    && (nonzero (k.keystate kb_lctrl) || nonzero (k.keystate kb_rctrl))

-- `none` is a reboot. `num_pressed` wraps at 32 bits.
pub kbintr : ℕ → Keyb → Option Keyb
kbintr code k =
    let released = not (bit_and code 0x80 == 0) in
    let key = key_of k.ext (if released then bit_and code 0x7f else code) in
    let up = record k {
      num_pressed = if ltb 0 k.num_pressed then k.num_pressed - 1 else k.num_pressed;
      ext = false;
      keystate = λ x. if x == key then 0 else k.keystate x;
    } in
    let down = record k {
      num_pressed = (k.num_pressed + 1) % 2 ^ 32;
      ext = false;
      keys = push buf_mask key k.keys;
      keystate = λ x. if x == key then 1 else k.keystate x;
    } in
    if code == 0xe0
    then some (record k { ext = true })
    else if released
    then some up
    else if reboots key k
    then none
    else some down
