-- ===== src/Tty/Tests.antt =====
-- A terminal on which a line is typed.
use fleurix.Base.{true, [], ◌∷◌}
use fleurix.Tty.{tty_open, tty_read_sleeps, tty_write, tty_init}
use fleurix.Base.{◌≡◌, refl, ◌==◌, if◌then◌else◌, arith}
use fleurix.Base.Word.{pos, minus_one}
use fleurix.Samples.{idle_kernel}
use fleurix.Tty.{Qbuf, Tty, tty_canon, tty_input}
use fleurix.Tty.Queue.{IsValid, contents, push}
use fleurix.Tty.Line.{Holds, by_mode, tty_canon-Holds}
use fleurix.Tty.Input.{Typed, tty_input-Typed}

-- Two chars, one of them behind the end of the buffer.
abbrev wrapped : Qbuf
wrapped = record { start = 1023; end = 1; count = 2; char = λ i. if i == 0 then 98 else 97 }

abbrev none_yet : Qbuf
none_yet = record { start = 5; end = 5; count = 0; char = λ _. 0 }

abbrev sample_tty : Tty
sample_tty = record { flag = 2; pgrp = 1; col = 0; rawq = none_yet; canq = wrapped; outq = wrapped }

wrapped-IsValid : IsValid wrapped
wrapped-IsValid = record { start_in = omega arith; fits = omega arith; end_at = refl }

none_yet-IsValid : IsValid none_yet
none_yet-IsValid = record { start_in = omega arith; fits = omega arith; end_at = refl }

tty_canon-Holds_example :
    Holds
      (tty_canon sample_tty).rawq
      (tty_canon sample_tty).canq
      (by_mode sample_tty (contents none_yet) (contents wrapped))
tty_canon-Holds_example = tty_canon-Holds sample_tty none_yet-IsValid wrapped-IsValid

tty_input-Typed_example :
    Typed sample_tty
      (tty_input 77 idle_kernel sample_tty 99).1
      99
      (by_mode sample_tty (push (contents none_yet) 99) (contents wrapped))
tty_input-Typed_example =
    tty_input-Typed 77 idle_kernel sample_tty 99 none_yet-IsValid wrapped-IsValid

no_terminal : (tty_open idle_kernel (λ _. sample_tty) 9).2 ≡ minus_one
unfolding tty_open
no_terminal = refl

waits : tty_read_sleeps sample_tty 3 ≡ true
unfolding tty_read_sleeps
waits = refl

writes : (tty_write idle_kernel (λ _. tty_init sample_tty) 0 (104 ∷ 105 ∷ [])).3 ≡ pos 0
unfolding tty_write tty_init
writes = refl
