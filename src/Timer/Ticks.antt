-- ===== src/Timer/Ticks.antt =====
-- The clock of src/kern/timer.c counts the seconds.
use fleurix.Base.{
  ℕ, zero, suc, ◌+◌, ◌/◌, ◌%◌, ◌^◌, ◌<◌, ◌≡◌, refl, ◌==◌, if◌then◌else◌, arith, Bool-cases, inl,
  inr,
}
use fleurix.Base.Word.{u32}
use fleurix.Kernel.{Kernel}
use fleurix.Timer.{Clock, do_timer, hz}

-- `n` clock interrupts.
abbrev pub ticks : ℕ → Clock × Kernel → Clock × Kernel
ticks zero s = s
ticks (suc n) s = do_timer (ticks n s)

do_timer-clock :
    (c : Clock) (k : Kernel)
    → ((do_timer (c, k)).0.tick ≡ u32 (c.tick + 1))
      × ((do_timer (c, k)).0.timestamp
          ≡ (if u32 (c.tick + 1) % hz == 0 then u32 (c.timestamp + 1) else c.timestamp))
unfolding do_timer
do_timer-clock c k = elim (Bool-cases (u32 (c.tick + 1) % hz == 0)) [
  | inl second ↦ rw second (refl, refl)
  | inr other ↦ rw other (refl, refl)
]

-- From a clock at tick 0, after `n` interrupts the time has gone on by one second for each HZ of
-- them, while neither counter has wrapped.
pub ticks_lem :
    (n : ℕ) (c : Clock) (k : Kernel)
    → c.tick ≡ 0
    → n < 2 ^ 32
    → c.timestamp + n / hz < 2 ^ 32
    → ((ticks n (c, k)).0.tick ≡ n) × ((ticks n (c, k)).0.timestamp ≡ c.timestamp + n / hz)
ticks_lem zero c k z a b = (z, omega arith)
ticks_lem (suc n) c k z a b =
    let i = ticks_lem n c k z (omega arith) (omega arith) in
    let d = do_timer-clock (ticks n (c, k)).0 (ticks n (c, k)).1 in
    (omega (arith, d.0, i.0, a), ground (arith, d.1, i.0, i.1, a, b))
