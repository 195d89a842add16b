-- ===== src/Timer/Date.antt =====
-- The seconds of a date, as `cmos_time` of src/kern/timer.c counts them.
use fleurix.Base.{
  ℕ, zero, suc, ◌+◌, ◌-◌, ◌*◌, ◌/◌, ◌%◌, ◌^◌, ◌<◌, ◌≤◌, ◌≡◌, Bool, true, false, ◌&&◌, not, ◌==◌,
  ltb, if◌then◌else◌, arith,
}
use fleurix.Base.Word.{pos, negsuc, ◌+ℤ◌, div_trunc, ltbℤ, u32}
use fleurix.Files.{to_u32}
use fleurix.Timer.{month_start, time_of, day, hour, minute, year}

-- A leap year, from 1901 to 2099, as years since 1970, and the days of the months before one.
abbrev pub is_leap : ℕ → Bool
is_leap y = (y + 1970) % 4 == 0

abbrev pub days_of : ℕ → ℕ → ℕ
days_of y zero = 0
days_of y (suc m) =
    let n = m + 1 in
    days_of y m
    + (if n == 2
        then (if is_leap y then 29 else 28)
        else if n == 4
        then 30
        else if n == 6
        then 30
        else if n == 9
        then 30
        else if n == 11
        then 30
        else 31)

-- The days of the years from 1970.
abbrev pub days_before : ℕ → ℕ
days_before zero = 0
days_before (suc y) = days_before y + (if is_leap y then 366 else 365)

pub unix_time : ℕ → ℕ → ℕ → ℕ → ℕ → ℕ → ℕ
unix_time y month mday h m s =
    day * (days_before y + days_of y month + mday) + hour * h + minute * m + s

days_before_lem : (y : ℕ) → days_before y ≡ 365 * y + (y + 1) / 4
days_before_lem zero = omega arith
days_before_lem (suc y) = ground (arith, days_before_lem y)

-- The table counts the 29 days of a leap year's February.
table :
    (beyond : ℕ → ℕ) (y m : ℕ)
    → m < 12
    → month_start beyond m ≡ day * days_of y m + (if ltb 1 m && not (is_leap y) then day else 0)
table beyond y zero lt = ground arith
table beyond y (suc zero) lt = ground arith
table beyond y (suc (suc zero)) lt = ground arith
table beyond y (suc (suc (suc zero))) lt = ground arith
table beyond y (suc (suc (suc (suc zero)))) lt = ground arith
table beyond y (suc (suc (suc (suc (suc zero))))) lt = ground arith
table beyond y (suc (suc (suc (suc (suc (suc zero)))))) lt = ground arith
table beyond y (suc (suc (suc (suc (suc (suc (suc zero))))))) lt = ground arith
table beyond y (suc (suc (suc (suc (suc (suc (suc (suc zero)))))))) lt = ground arith
table beyond y (suc (suc (suc (suc (suc (suc (suc (suc (suc zero))))))))) lt = ground arith
table beyond y (suc (suc (suc (suc (suc (suc (suc (suc (suc (suc zero)))))))))) lt = ground arith
table beyond y (suc (suc (suc (suc (suc (suc (suc (suc (suc (suc (suc zero))))))))))) lt =
    ground arith
table beyond y (suc (suc (suc (suc (suc (suc (suc (suc (suc (suc (suc (suc m)))))))))))) lt =
    absurd (omega arith)

table_bounds :
    (beyond : ℕ → ℕ) (m : ℕ)
    → m < 12
    → (month_start beyond m ≤ day * 366) × ((if ltb 0 m then day else 0) ≤ month_start beyond m)
table_bounds beyond zero lt = (omega arith, omega arith)
table_bounds beyond (suc zero) lt = (omega arith, omega arith)
table_bounds beyond (suc (suc zero)) lt = (omega arith, omega arith)
table_bounds beyond (suc (suc (suc zero))) lt = (omega arith, omega arith)
table_bounds beyond (suc (suc (suc (suc zero)))) lt = (omega arith, omega arith)
table_bounds beyond (suc (suc (suc (suc (suc zero))))) lt = (omega arith, omega arith)
table_bounds beyond (suc (suc (suc (suc (suc (suc zero)))))) lt = (omega arith, omega arith)
table_bounds beyond (suc (suc (suc (suc (suc (suc (suc zero))))))) lt = (omega arith, omega arith)
table_bounds beyond (suc (suc (suc (suc (suc (suc (suc (suc zero)))))))) lt =
    (omega arith, omega arith)
table_bounds beyond (suc (suc (suc (suc (suc (suc (suc (suc (suc zero))))))))) lt =
    (omega arith, omega arith)
table_bounds beyond (suc (suc (suc (suc (suc (suc (suc (suc (suc (suc zero)))))))))) lt =
    (omega arith, omega arith)
table_bounds beyond (suc (suc (suc (suc (suc (suc (suc (suc (suc (suc (suc zero))))))))))) lt =
    (omega arith, omega arith)
table_bounds beyond (suc (suc (suc (suc (suc (suc (suc (suc (suc (suc (suc (suc m)))))))))))) lt =
    absurd (omega arith)

-- The sum of the parts wraps nowhere.
sum_of_parts :
    (y l start d h mi s : ℕ) (adjust : Bool)
    → y < 130
    → l < 34
    → start ≤ day * 366
    → (if adjust then day else 0) ≤ start
    → d < 31
    → h < 24
    → mi < 60
    → s < 60
    → let r = u32 (year * y + day * l + start) in
      u32 ((if adjust then u32 (r + 2 ^ 32 - day) else r) + day * d + hour * h + minute * mi + s)
        + (if adjust then day else 0)
      ≡ year * y + day * l + start + day * d + hour * h + minute * mi + s
sum_of_parts y l start d h mi s true a b c e f g i j = omega arith
sum_of_parts y l start d h mi s false a b c e f g i j = omega arith

time_of-parts :
    (beyond : ℕ → ℕ) (y m d h mi s : ℕ)
    → y < 130
    → m < 12
    → d < 31
    → h < 24
    → mi < 60
    → s < 60
    → time_of beyond (pos y) (pos (m + 1)) (pos (d + 1)) (pos h) (pos mi) (pos s)
        + (if ltb 0 m && not (is_leap y) then day else 0)
      ≡ year * y + day * ((y + 1) / 4) + month_start beyond m + day * d + hour * h + minute * mi + s
unfolding time_of
time_of-parts beyond y m d h mi s a b c e f g =
    let adjust = ltb 0 m && not (is_leap y) in
    let bounds = table_bounds beyond m b in
    let low : (if adjust then day else 0) ≤ month_start beyond m = ground (arith, bounds) in
    let parts =
      sum_of_parts y ((y + 1) / 4) (month_start beyond m) d h mi s adjust a (omega arith) bounds.0
        low c e f g in
    let month_index : to_u32 (pos (m + 1) +ℤ negsuc 0) ≡ m = ground arith in
    let leaps : to_u32 (div_trunc (pos y +ℤ pos 1) 4) ≡ (y + 1) / 4 = ground arith in
    let day_index : to_u32 (pos (d + 1) +ℤ negsuc 0) ≡ d = ground arith in
    let adjusts : (ltbℤ (pos 1) (pos (m + 1)) && not (to_u32 (pos y +ℤ pos 2) % 4 == 0)) ≡ adjust =
      ground arith in
    let years : u32 y ≡ y = omega arith in
    let hours : u32 h ≡ h = omega arith in
    let minutes : u32 mi ≡ mi = omega arith in
    let seconds : u32 s ≡ s = omega arith in
    rw (month_index, leaps, day_index, adjusts, years, hours, minutes, seconds) parts

-- `cmos_time` on a date of the years from 1970 to 2099 gives its seconds since 1970, but for the
-- February of a year that is no leap year, where it gives a day less.
pub time_of_lem :
    (beyond : ℕ → ℕ) (y m d h mi s : ℕ)
    → y < 130
    → m < 12
    → d < 31
    → h < 24
    → mi < 60
    → s < 60
    → time_of beyond (pos y) (pos (m + 1)) (pos (d + 1)) (pos h) (pos mi) (pos s)
        + (if m == 1 && not (is_leap y) then day else 0)
      ≡ unix_time y m d h mi s
unfolding unix_time
time_of_lem beyond y m d h mi s a b c e f g =
    let t = table beyond y m b in
    let p = time_of-parts beyond y m d h mi s a b c e f g in
    let n = days_before_lem y in ground (arith, t, p, n)
