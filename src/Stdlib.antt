-- ===== src/Stdlib.antt =====
-- src/libc/stdlib.c: numbers in text. A string is the list of its bytes before the terminator. `long`
-- and `int` have 32 bits, and are given by their bit patterns.
mod Text
mod Round
pub mod Sort
mod Tests
use pcboot.Prelude.{
  ℕ, zero, suc, ◌+◌, ◌-◌, ◌*◌, ◌/◌, ◌%◌, ◌^◌, Bool, true, false, ◌&&◌, ◌||◌, List, [], ◌∷◌, ◌++◌,
  Option, none, some, ltb, leb, ◌==◌, if◌then◌else◌, length,
}
use mathlib.Core.List.{reverse}
use pcboot.Strings.{isspace, tolower, first}

-- `-a` of 32 bits
abbrev pub negate : ℕ → ℕ
negate a = (2 ^ 32 - a) % 2 ^ 32

abbrev pub isdigit : ℕ → Bool
isdigit c = leb b'0' c && leb c b'9'

pub skip_space : List ℕ → List ℕ
skip_space [] = []
skip_space (c ∷ s) = let rest = skip_space s in if isspace c then rest else c ∷ s

-- `str[1]`
abbrev pub second : List ℕ → ℕ
second [] = 0
second (c ∷ s) = first s

pub base_of : (str : List ℕ) (base : ℕ) → ℕ
base_of str base =
    if base == 0
    then if first str == b'0'
      then if second str == b'x' || second str == b'X' then 16 else 8
      else 10
    else base

-- Whether there is a minus, and what follows the sign
pub take_sign : List ℕ → Bool × List ℕ
take_sign [] = (false, [])
take_sign (c ∷ s) =
    if c == b'+' then (false, s) else if c == b'-' then (true, s) else (false, c ∷ s)

-- The value of a digit, if it is one
pub digit_val : (c base : ℕ) → Option ℕ
digit_val c base =
    let low = tolower c in
    if isdigit low
    then if leb base (c - b'0') then none else some (c - b'0')
    else if leb b'a' low && leb low b'f'
    then if leb base (10 + low - b'a') then none else some (10 + low - b'a')
    else none

-- `acc`, `valid` and `str` behind the loop
pub record Parsed : Type 0 where
  pub acc : ℕ
  pub valid : Bool
  pub str : List ℕ

pub after_digit : Option ℕ → Parsed → (ℕ → Parsed) → Parsed
after_digit none stop go = stop
after_digit (some val) stop go = go val

pub read_digits : (base acc : ℕ) (valid : Bool) → List ℕ → Parsed
read_digits base acc valid [] = record { acc = acc; valid = valid; str = [] }
read_digits base acc valid (c ∷ s) =
    after_digit (digit_val c base) (record { acc = acc; valid = valid; str = c ∷ s })
      (λ val. read_digits base ((acc * base + val) % 2 ^ 32) true s)

-- The number, and what `endp` gets
pub strtol : (str : List ℕ) (base : ℕ) → ℕ × List ℕ
strtol str base =
    let start = skip_space str in
    let signed = take_sign start in
    let p = read_digits (base_of start base) 0 false signed.1 in
    (if signed.0 then negate p.acc else p.acc, if p.valid then p.str else str)

pub atoi : List ℕ → ℕ
atoi str = (strtol str 10).0

pub atol : List ℕ → ℕ
atol str = (strtol str 10).0

-- The digit is `-d` if `below`: the least int is its own negative.
pub digit_char : (below : Bool) (d : ℕ) → ℕ
digit_char true d = b'0' - d
digit_char false d = if ltb d 10 then d + b'0' else d - 10 + b'a'

-- The loop of `itoa` and `utoa`, on fuel: the characters that it writes to `rbuf`
pub write_digits : (fuel : ℕ) (below : Bool) (base val : ℕ) → List ℕ
write_digits zero below base val = []
write_digits (suc fuel) below base val =
    let rest = write_digits fuel below base (val / base) in
    if val == 0 then [] else digit_char below (val % base) ∷ rest

-- Each round divides by 2 or more.
abbrev pub rounds : ℕ
rounds = 32

pub rbuf_size : ℕ
rbuf_size = 16

pub digits_of : (below : Bool) (val base : ℕ) → List ℕ
digits_of below val base = if val == 0 then b'0' ∷ [] else write_digits rounds below base val

-- `buf` from `rbuf`, and none if the characters do not fit into that.
pub copy_back : (rbuf : List ℕ) → Option (List ℕ)
copy_back rbuf = if ltb rbuf_size (length rbuf) then none else some (reverse rbuf)

pub itoa : (val base : ℕ) → Option (List ℕ)
itoa val base =
    let neg = leb (2 ^ 31) val in
    let size = if neg then negate val else val in
    let rbuf = digits_of (leb (2 ^ 31) size) size base in
    copy_back (if neg then rbuf ++ b'-' ∷ [] else rbuf)

pub utoa : (val base : ℕ) → Option (List ℕ)
utoa val base = copy_back (digits_of false val base)
