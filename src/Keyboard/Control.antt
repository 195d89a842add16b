-- ===== src/Keyboard/Control.antt =====
-- The keys with CTRL held, in do_keybd_intr of src/chr/keybd.c.
use fleurix.Base.{
  ℕ, ◌%◌, ◌<◌, ◌≡◌, ◌≢◌, refl, ap, ◌∙◌, Bool, true, false, ◌||◌, none, leb, ◌==◌, if◌then◌else◌,
  arith,
}
use fleurix.Base.Bits.{has_bit}
use fleurix.Base.Word.{pos}
use fleurix.Kernel.{Kernel}
use fleurix.Tty.{Tty, tty_input}
use fleurix.Keyboard.{
  shift_bit, ctrl_bit, e0_bit, keybd_map, shift, switch_on, assign_all, control_keys, char_of,
  on_key, by_shift, on_code, do_keybd_intr,
}

-- The keys of the seven control chars: c d x q s z and the backslash.
abbrev is_control : ℕ → Bool
is_control ch =
    ch == b'c'
    || (ch == b'd' || (ch == b'x' || (ch == b'q' || (ch == b's' || (ch == b'z' || ch == 92)))))

-- Every case runs on into the last.
switch_on-control : (ch : ℕ) → switch_on control_keys ch ≡ (if is_control ch then 28 else ch)
unfolding switch_on assign_all
switch_on-control ch = ground arith

-- A key with a char is none of those that only change the mode.
shift-none : (key : ℕ) → keybd_map key ≢ 0 → (shift false key ≡ none) × ((key == 0x3A) ≡ false)
unfolding shift
shift-none key some_char =
    let is_zero : (c : ℕ) → keybd_map c ≡ 0 → key ≢ c = λ c z e. some_char (ap keybd_map e ∙ z) in
    let a = is_zero 0x2A (unfold keybd_map in refl) in
    let b = is_zero 0x36 (unfold keybd_map in refl) in
    let c = is_zero 0x1D (unfold keybd_map in refl) in
    let d = is_zero 0x38 (unfold keybd_map in refl) in
    let e = is_zero 0x3A (unfold keybd_map in refl) in
    (ground (arith, a, b, c, d), ground (arith, e))

char_of-control :
    (mode key : ℕ)
    → has_bit mode ctrl_bit ≡ true
    → has_bit mode shift_bit ≡ false
    → char_of mode key ≡ (if is_control (keybd_map key) then 28 else keybd_map key)
unfolding char_of
char_of-control mode key ctrl no_shift = rw (ctrl, no_shift) (switch_on-control (keybd_map key))

control_char : (c : ℕ) → c ≢ 0 → ((if is_control c then 28 else c) == 0) ≡ false
control_char c h = ground arith

on_key-control :
    (chan : ℕ) (k : Kernel) (tp : Tty) (mode key : ℕ)
    → has_bit mode ctrl_bit ≡ true
    → has_bit mode shift_bit ≡ false
    → keybd_map key ≢ 0
    → on_key chan k tp mode key false ≡ (
      mode,
      tty_input chan k tp (if is_control (keybd_map key) then 28 else keybd_map key),
      pos 0,
    )
unfolding on_key
on_key-control chan k tp mode key ctrl no_shift some_char =
    rw (char_of-control mode key ctrl no_shift, control_char (keybd_map key) some_char) refl

on_code-control :
    (chan : ℕ) (k : Kernel) (tp : Tty) (mode sc : ℕ)
    → has_bit mode ctrl_bit ≡ true
    → has_bit mode shift_bit ≡ false
    → has_bit mode e0_bit ≡ false
    → sc % 128 ≡ sc
    → leb 128 sc ≡ false
    → keybd_map sc ≢ 0
    → on_code chan k tp mode sc
      ≡ (mode, tty_input chan k tp (if is_control (keybd_map sc) then 28 else keybd_map sc), pos 0)
unfolding on_code
on_code-control chan k tp mode sc ctrl no_shift no_e0 key pressed some_char =
    let plain = (shift-none sc some_char).0 in
    let typed = on_key-control chan k tp mode sc ctrl no_shift some_char in
    rw (on_code, no_e0, key, plain, by_shift) (rw (key, pressed) typed)

-- With CTRL held, and neither SHIFT nor E0ESC, pressing a key that has a char passes `tty_input` 28 for
-- each of the keys c, d, x, q, s, z and the backslash, and for any other key its char; so no key types
-- CEOF.
pub do_keybd_intr-control :
    (chan : ℕ) (k : Kernel) (tp : Tty) (mode sc : ℕ)
    → has_bit mode ctrl_bit ≡ true
    → has_bit mode shift_bit ≡ false
    → has_bit mode e0_bit ≡ false
    → sc < 128
    → keybd_map sc ≢ 0
    → do_keybd_intr chan k tp mode 1 sc
      ≡ (mode, tty_input chan k tp (if is_control (keybd_map sc) then 28 else keybd_map sc), pos 0)
unfolding do_keybd_intr
do_keybd_intr-control chan k tp mode sc ctrl no_shift no_e0 small some_char =
    let key : sc % 128 ≡ sc = omega arith in
    let pressed : leb 128 sc ≡ false = ground (arith, small) in
    let no_prefix : (sc == 0xE0) ≡ false = ground (arith, small) in
    let no_caps : (sc % 128 == 0x3A) ≡ false =
      ap (λ (n : ℕ). n == 0x3A) key ∙ (shift-none sc some_char).1 in
    rw (no_caps, no_prefix)
      (on_code-control chan k tp mode sc ctrl no_shift no_e0 key pressed some_char)
