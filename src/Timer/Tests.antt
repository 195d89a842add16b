-- ===== src/Timer/Tests.antt =====
-- The clock on dates and on a run of interrupts.
use fleurix.Timer.{cmos_time, cmos_read}
use fleurix.Base.{◌+◌, ◌≡◌, refl, not, ◌&&◌, ◌==◌, if◌then◌else◌, arith}
use fleurix.Base.Word.{pos}
use fleurix.Timer.{day, time_of}
use fleurix.Timer.Date.{time_of_lem, unix_time, is_leap}

-- 3 February 2011, 04:05:06.
time_of_lem_example :
    time_of (λ _. 0) (pos 41) (pos 2) (pos 3) (pos 4) (pos 5) (pos 6)
      + (if 1 == 1 && not (is_leap 41) then day else 0)
    ≡ unix_time 41 1 2 4 5 6
time_of_lem_example =
    time_of_lem (λ _. 0) 41 1 2 4 5 6 (omega arith) (omega arith) (omega arith) (omega arith)
      (omega arith) (omega arith)

-- 1 January 1970 and one second, as the clock holds it in decimal digits.
starts :
    cmos_time
      (λ _. 0)
      (λ r.
        if r == 0x32
        then 0x19
        else if r == 9
        then 0x70
        else if r == 8
        then 1
        else if r == 7
        then 1
        else if r == 0
        then 1
        else 0)
    ≡ 1
unfolding cmos_time cmos_read time_of
starts = refl
