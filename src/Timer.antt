-- ===== src/Timer.antt =====
-- src/kern/timer.c with inc/cmos.h: the clock interrupt, and the time read from the CMOS clock.
-- The registers of the clock are a function of the port: what `inb` reads is the machine's.
pub mod Ticks
pub mod Date
mod Tests
use fleurix.Base.{
  ℕ, zero, suc, ◌+◌, ◌-◌, ◌*◌, ◌/◌, ◌%◌, ◌^◌, Bool, true, false, ◌&&◌, not, List, [], ◌∷◌, get_or,
  length, ltb, leb, ◌==◌, if◌then◌else◌,
}
use fleurix.Base.Word.{ℤ, pos, negsuc, ◌+ℤ◌, lebℤ, ltbℤ, div_trunc, sub_ℕ, u32}
use fleurix.Kernel.{Proc, Kernel, me, set_me}
use fleurix.Sched.{to_char, sched_cpu}
use fleurix.Files.{to_u32}

-- HZ, and the seconds of a minute, an hour, a day and a year.
abbrev pub hz : ℕ
hz = 100

abbrev pub minute : ℕ
minute = 60

abbrev pub hour : ℕ
hour = 3600

abbrev pub day : ℕ
day = 86400

abbrev pub year : ℕ
year = 31536000

-- The two counters of the file.
pub record Clock : Type 0 where
  pub tick : ℕ
  pub timestamp : ℕ

-- The charge for the tick, which stops at 127.
abbrev pub charge : Kernel → Kernel
charge k =
    let c = (me k).cpu in
    if lebℤ (c +ℤ pos 1) (pos 127) then set_me k (record (me k) { cpu = c +ℤ pos 1 }) else k

pub do_timer : Clock × Kernel → Clock × Kernel
do_timer (c, k) =
    let t = u32 (c.tick + 1) in
    if t % hz == 0
    then (record { tick = t; timestamp = u32 (c.timestamp + 1) }, sched_cpu (charge k))
    else (record { tick = t; timestamp = c.timestamp }, charge k)

-- BCD_TO_BIN.
abbrev pub bcd_to_bin : ℕ → ℕ
bcd_to_bin val = val % 16 + val / 16 * 10

-- `cmos_read`; the port is 7 bits, and the value a signed char.
pub cmos_read : (ℕ → ℕ) → ℕ → ℤ
unfolding to_char
cmos_read inb port = to_char (pos (bcd_to_bin (inb (port % 128) % 256)))

abbrev pub monthtab : List ℕ
monthtab =
    0
    ∷ day * 31
    ∷ day * 60
    ∷ day * 91
    ∷ day * 121
    ∷ day * 152
    ∷ day * 182
    ∷ day * 213
    ∷ day * 244
    ∷ day * 274
    ∷ day * 305
    ∷ day * 335
    ∷ []

-- `monthtab[i]`; `beyond` is the memory outside the table.
abbrev pub month_start : (ℕ → ℕ) → ℕ → ℕ
month_start beyond i = if ltb i 12 then get_or monthtab i 0 else beyond i

-- The arithmetic of `cmos_time`, on `int`s that wrap to an `uint`. The remainder of C is nonzero
-- where that of the wrapped number is.
pub time_of : (ℕ → ℕ) → ℤ → ℤ → ℤ → ℤ → ℤ → ℤ → ℕ
time_of beyond y month mday h m s =
    let leaps = to_u32 (div_trunc (y +ℤ pos 1) 4) in
    let r = u32 (year * to_u32 y + day * leaps + month_start beyond (to_u32 (month +ℤ negsuc 0))) in
    let adjust = ltbℤ (pos 1) month && not (to_u32 (y +ℤ pos 2) % 4 == 0) in
    let r' = if adjust then u32 (r + 2 ^ 32 - day) else r in
    u32 (r' + day * to_u32 (mday +ℤ negsuc 0) + hour * to_u32 h + minute * to_u32 m + to_u32 s)

-- The ports are those of inc/cmos.h.
pub cmos_time : (ℕ → ℕ) → (ℕ → ℕ) → ℕ
unfolding cmos_read time_of
cmos_time beyond inb =
    let full : ℤ = pos (100 * to_u32 (cmos_read inb 0x32)) +ℤ cmos_read inb 9 in
    time_of beyond (full +ℤ negsuc 1969) (cmos_read inb 8) (cmos_read inb 7) (cmos_read inb 4)
      (cmos_read inb 2) (cmos_read inb 0)
