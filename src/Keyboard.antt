-- ===== src/Keyboard.antt =====
-- src/chr/keybd.c, with the tables of src/inc/keybd.h: from scan codes to chars typed on terminal 0.
-- The status and the scan code are what the two ports answer. A scan code is a byte.
pub mod Held
pub mod Control
mod Tests
use fleurix.Base.{
  ℕ, ◌+◌, ◌%◌, ◌^◌, Bool, true, false, ◌&&◌, ◌||◌, not, Option, none, some, List, [], ◌∷◌, leb,
  ◌==◌, if◌then◌else◌, bit_and, bit_or, get_or,
}
use fleurix.Base.Bits.{has_bit, all_but}
use fleurix.Base.Word.{ℤ, pos, minus_one}
use fleurix.Kernel.{Kernel}
use fleurix.Tty.{Tty, tty_input, cintr, ceof}

-- The bits of SHIFT, CTRL, ALT and E0ESC in `mode`.
abbrev pub shift_bit : ℕ
shift_bit = 0

abbrev pub ctrl_bit : ℕ
ctrl_bit = 1

abbrev pub alt_bit : ℕ
alt_bit = 2

abbrev pub e0_bit : ℕ
e0_bit = 3

-- `keybd_map` and `shift_map` up to 0x57, and what both have behind that.
low_map : List ℕ
low_map =
    0 ∷ 0x1B ∷ b'1' ∷ b'2' ∷ b'3' ∷ b'4' ∷ b'5' ∷ b'6' ∷ b'7' ∷ b'8' ∷ b'9' ∷ b'0' ∷ b'-' ∷ b'=' ∷ 8
    ∷ 9 ∷ b'q' ∷ b'w' ∷ b'e' ∷ b'r' ∷ b't' ∷ b'y' ∷ b'u' ∷ b'i' ∷ b'o' ∷ b'p' ∷ b'[' ∷ b']' ∷ 10 ∷ 0
    ∷ b'a' ∷ b's' ∷ b'd' ∷ b'f' ∷ b'g' ∷ b'h' ∷ b'j' ∷ b'k' ∷ b'l' ∷ b';' ∷ 39 ∷ b'`' ∷ 0 ∷ 92
    ∷ b'z' ∷ b'x' ∷ b'c' ∷ b'v' ∷ b'b' ∷ b'n' ∷ b'm' ∷ b',' ∷ b'.' ∷ b'/' ∷ 0 ∷ b'*' ∷ 0 ∷ b' ' ∷ 0
    ∷ 0 ∷ 0 ∷ 0 ∷ 0 ∷ 0 ∷ 0 ∷ 0 ∷ 0 ∷ 0 ∷ 0 ∷ 0 ∷ 0 ∷ b'7' ∷ b'8' ∷ b'9' ∷ b'-' ∷ b'4' ∷ b'5' ∷ b'6'
    ∷ b'+' ∷ b'1' ∷ b'2' ∷ b'3' ∷ b'0' ∷ b'.' ∷ 0 ∷ 0 ∷ 0 ∷ 0 ∷ []

low_shift : List ℕ
low_shift =
    0 ∷ 27 ∷ b'!' ∷ b'@' ∷ b'#' ∷ b'$' ∷ b'%' ∷ b'^' ∷ b'&' ∷ b'*' ∷ b'(' ∷ b')' ∷ b'_' ∷ b'+' ∷ 8
    ∷ 9 ∷ b'Q' ∷ b'W' ∷ b'E' ∷ b'R' ∷ b'T' ∷ b'Y' ∷ b'U' ∷ b'I' ∷ b'O' ∷ b'P' ∷ b'{' ∷ b'}' ∷ 10 ∷ 0
    ∷ b'A' ∷ b'S' ∷ b'D' ∷ b'F' ∷ b'G' ∷ b'H' ∷ b'J' ∷ b'K' ∷ b'L' ∷ b':' ∷ 34 ∷ b'~' ∷ 0 ∷ b'|'
    ∷ b'Z' ∷ b'X' ∷ b'C' ∷ b'V' ∷ b'B' ∷ b'N' ∷ b'M' ∷ b'<' ∷ b'>' ∷ b'?' ∷ 0 ∷ b'*' ∷ 0 ∷ b' ' ∷ 0
    ∷ 0 ∷ 0 ∷ 0 ∷ 0 ∷ 0 ∷ 0 ∷ 0 ∷ 0 ∷ 0 ∷ 0 ∷ 0 ∷ 0 ∷ b'7' ∷ b'8' ∷ b'9' ∷ b'-' ∷ b'4' ∷ b'5' ∷ b'6'
    ∷ b'+' ∷ b'1' ∷ b'2' ∷ b'3' ∷ b'0' ∷ b'.' ∷ 0 ∷ 0 ∷ 0 ∷ 0 ∷ []

-- The entries that are given by their index.
abbrev high_keys : List (ℕ × ℕ)
high_keys =
    (0x9C, 10)
    ∷ (0xB5, b'/')
    ∷ (0xC8, 0xE2)
    ∷ (0xD0, 0xE3)
    ∷ (0xC9, 0xE6)
    ∷ (0xD1, 0xE7)
    ∷ (0xCB, 0xE4)
    ∷ (0xCD, 0xE5)
    ∷ (0x97, 0xE0)
    ∷ (0xCF, 0xE1)
    ∷ (0xD2, 0xE8)
    ∷ (0xD3, 0xE9)
    ∷ []

high_key : List (ℕ × ℕ) → ℕ → ℕ
high_key [] i = 0
high_key ((j, key) ∷ rest) i = if i == j then key else high_key rest i

unfoldable pub keybd_map : ℕ → ℕ
unfolding low_map high_key
keybd_map i = get_or low_map i (high_key high_keys i)

unfoldable pub shift_map : ℕ → ℕ
unfolding low_shift high_key
shift_map i = get_or low_shift i (high_key high_keys i)

-- The bit of the key that `shift` reports, after E0 or not; `none` is its 0.
unfoldable pub shift : Bool → ℕ → Option ℕ
shift true ch = if ch == 0x1D then some ctrl_bit else if ch == 0x38 then some alt_bit else none
shift false ch =
    if ch == 0x2A || ch == 0x36
    then some shift_bit
    else if ch == 0x1D
    then some ctrl_bit
    else if ch == 0x38
    then some alt_bit
    else none

-- A `switch` whose cases assign a char and have no `break`.
unfoldable pub assign_all : List (ℕ × ℕ) → ℕ → ℕ
assign_all [] ch = ch
assign_all ((label, value) ∷ rest) ch = assign_all rest value

unfoldable pub switch_on : List (ℕ × ℕ) → ℕ → ℕ
unfolding assign_all
switch_on [] ch = ch
switch_on ((label, value) ∷ rest) ch =
    if ch == label then assign_all rest value else switch_on rest ch

-- CINTR, CEOF, CKILL, CSTART, CSTOP, CSUSP and CQUIT for their keys.
abbrev pub control_keys : List (ℕ × ℕ)
control_keys =
    (b'c', cintr) ∷ (b'd', ceof) ∷ (b'x', 21) ∷ (b'q', 17) ∷ (b's', 19) ∷ (b'z', 26) ∷ (92, 28) ∷ []

-- The char of a key.
unfoldable pub char_of : ℕ → ℕ → ℕ
unfolding keybd_map shift_map switch_on
char_of mode key =
    let ch = if has_bit mode shift_bit then shift_map key else keybd_map key in
    if has_bit mode ctrl_bit then switch_on control_keys ch else ch

abbrev pub press : ℕ → ℕ → ℕ
press mode b = bit_or mode (2 ^ b)

abbrev pub lift : ℕ → ℕ → ℕ
lift mode b = bit_and mode (all_but 32 b)

-- A key that is none of SHIFT, CTRL and ALT.
unfoldable pub on_key : ℕ → Kernel → Tty → ℕ → ℕ → Bool → ℕ × (Kernel × Tty × List ℕ) × ℤ
unfolding char_of
on_key chan k tp mode key released =
    let ch = char_of mode key in
    if not released && not (ch == 0)
    then (mode, tty_input chan k tp ch, pos 0)
    else (lift mode e0_bit, (k, tp, []), pos 0)

-- A scan code, by what `shift` says of it.
unfoldable pub by_shift : ℕ → Kernel → Tty → ℕ → ℕ → Option ℕ → ℕ × (Kernel × Tty × List ℕ) × ℤ
unfolding on_key
by_shift chan k tp mode sc (some b) =
    ((if leb 128 sc then lift mode b else press mode b), (k, tp, []), pos 0)
by_shift chan k tp mode sc none = on_key chan k tp mode (sc % 128) (leb 128 sc)

-- A scan code, when E0ESC is as it is to be for it.
unfoldable pub on_code : ℕ → Kernel → Tty → ℕ → ℕ → ℕ × (Kernel × Tty × List ℕ) × ℤ
unfolding shift by_shift
on_code chan k tp mode sc = by_shift chan k tp mode sc (shift (has_bit mode e0_bit) (sc % 128))

-- `do_keybd_intr`: the new mode, what `tty_input` makes of the kernel and the terminal with what it
-- shows, and the result.
unfoldable pub do_keybd_intr : ℕ → Kernel → Tty → ℕ → ℕ → ℕ → ℕ × (Kernel × Tty × List ℕ) × ℤ
unfolding on_code
do_keybd_intr chan k tp mode status sc =
    if bit_and status 1 == 0
    then (mode, (k, tp, []), minus_one)
    else if sc % 128 == 0x3A
    then (mode, (k, tp, []), pos 0)
    else on_code chan k tp (if sc == 0xE0 then press mode e0_bit else mode) sc
