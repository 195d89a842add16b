-- ===== src/Keyboard/Tests.antt =====
-- CTRL is pressed and held, then d; and a sequence with the E0 prefix.
use fleurix.Base.{ℕ, ◌≡◌, ◌<◌, refl, false, List, [], ◌∷◌, arith}
use fleurix.Base.Bits.{has_bit}
use fleurix.Base.Word.{pos}
use fleurix.Samples.{idle_kernel}
use fleurix.Tty.{Qbuf, Tty, tty_input}
use fleurix.Keyboard.{e0_bit, keybd_map, do_keybd_intr}
use fleurix.Keyboard.Control.{do_keybd_intr-control}
use fleurix.Keyboard.Held.{modes, last_pressed, modes-last_pressed}

abbrev queue : Qbuf
queue = record { start = 0; end = 0; count = 0; char = λ _. 0 }

abbrev terminal : Tty
terminal = record { flag = 0; pgrp = 1; col = 0; rawq = queue; canq = queue; outq = queue }

ctrl_down : (do_keybd_intr 77 idle_kernel terminal 0 1 0x1D).0 ≡ 2
unfolding do_keybd_intr
ctrl_down = refl

d_key : keybd_map 0x20 ≡ 100
unfolding keybd_map
d_key = refl

do_keybd_intr-control_example :
    do_keybd_intr 77 idle_kernel terminal 2 1 0x20
    ≡ (2, tty_input 77 idle_kernel terminal 28, pos 0)
unfolding keybd_map
do_keybd_intr-control_example =
    do_keybd_intr-control 77 idle_kernel terminal 2 0x20 refl refl refl (omega arith) (omega arith)

-- The right CTRL key is pressed, then SHIFT is pressed and released.
abbrev codes : List ℕ
codes = 0xE0 ∷ 0x1D ∷ 0x2A ∷ 0xAA ∷ []

modes-last_pressed_example :
    (has_bit (modes 77 idle_kernel terminal 0 codes) e0_bit ≡ false)
    × ((j : ℕ)
        → j < 3
        → has_bit (modes 77 idle_kernel terminal 0 codes) j ≡ last_pressed j (has_bit 0 j) codes)
modes-last_pressed_example =
    modes-last_pressed 77 idle_kernel terminal 0 codes refl
      (omega arith, (omega arith, (omega arith, (omega arith, tt))))
