-- ===== src/Mount/Lookup.antt =====
-- The lookup in the mount table, and its lock.
use fleurix.Base.{
  ℕ, ◌<◌, ◌≡◌, ◌≢◌, refl, true, false, ◌==◌, arith, Bool-cases, Option-cases, inl, inr, bit_or,
}
use fleurix.Base.Bits.{has_bit, has_bit-eq, bit-set}
use fleurix.Base.Loops.{find_first, find_first-some, find_first-none}
use fleurix.Base.Result.{Result, ok, panic}
use fleurix.Kernel.{Kernel, nmount}
use fleurix.Mount.{getsp, Found, gives, waits, set_super, s_lock, s_wanted}

-- What a pass of `getsp` does.
pub data Gets (k : Kernel) (dev : ℕ) : Result (Kernel × Found) → Type 0 where
  unmounted : ((m : ℕ) → m < nmount → (k.mnt m).dev ≢ dev) → Gets k dev panic
  locked :
      (k' : Kernel) (m : ℕ)
      → m < nmount
      → (k.mnt m).dev ≡ dev
      → has_bit (k.mnt m).flag s_lock ≡ true
      → has_bit (k'.mnt m).flag s_wanted ≡ true
      → ((j : ℕ) → j ≢ m → k'.mnt j ≡ k.mnt j)
      → Gets k dev (ok (k', waits m))
  gets :
      (m : ℕ)
      → m < nmount
      → (k.mnt m).dev ≡ dev
      → has_bit (k.mnt m).flag s_lock ≡ false
      → Gets k dev (ok (k, gives m))

-- A pass of `getsp` panics exactly for a device that is not mounted, asks to be woken and sleeps
-- on a super block that is locked, and otherwise gives one that is not, changing nothing.
pub getsp-Gets : (k : Kernel) (dev : ℕ) → Gets k dev (getsp k dev)
getsp-Gets k dev = elim (Option-cases (find_first nmount 0 (λ m. dev == (k.mnt m).dev))) [
  | inl none_ ↦
      let run : getsp k dev ≡ panic = unfold getsp in rw (none_, getsp) refl in
      rw run (
        unmounted (λ m lt e. absurd (
          ground (
            arith,
            e,
            find_first-none nmount 0 (λ j. dev == (k.mnt j).dev) none_ m (omega arith) lt,
          ))))
  | inr (m, hit) ↦
      let f = find_first-some nmount 0 (λ j. dev == (k.mnt j).dev) m hit in
      let same : (k.mnt m).dev ≡ dev = ground (arith, f.2) in
      elim (Bool-cases (has_bit (k.mnt m).flag s_lock)) [
        | inl busy ↦
            let k' = set_super k m (record (k.mnt m) { flag = bit_or (k.mnt m).flag 2 }) in
            let run : getsp k dev ≡ ok (k', waits m) =
              unfold getsp in rw (hit, getsp) (rw busy refl) in
            rw run (
              locked k' m f.1 same busy
                (ground (arith, has_bit-eq (bit_or (k.mnt m).flag 2) 1, bit-set 1 1 (k.mnt m).flag))
                (λ j ne. ground (arith, ne)))
        | inr free ↦
            let run : getsp k dev ≡ ok (k, gives m) =
              unfold getsp in rw (hit, getsp) (rw free refl) in
            rw run (gets m f.1 same free)
      ]
]
