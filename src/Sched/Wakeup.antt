-- ===== src/Sched/Wakeup.antt =====
-- `wakeup` makes runnable exactly the processes that sleep on the channel.
use fleurix.Base.{ℕ, ◌<◌, ◌≡◌, refl, ◌∙◌, Bool, ◌&&◌, ◌==◌, if◌then◌else◌, arith}
use fleurix.Base.Loops.{for_range, for_range_each, for_range_inv}
use fleurix.Kernel.{Proc, Kernel, nproc, srun}
use fleurix.Sched.{wake_slot, wakeup}

-- What `wakeup` leaves in a slot.
abbrev pub woken : ℕ → Bool → Proc → Proc
woken chan there p = if there && p.chan == chan then record p { chan = 0; stat = srun } else p

abbrev slot : Kernel → ℕ → Bool × Proc
slot k j = (k.present j, k.proc j)

wake_slot_each :
    (chan i : ℕ) (k : Kernel) (j : ℕ)
    → slot (wake_slot chan i k) j
      ≡ (if i == j then (k.present i, woken chan (k.present i) (k.proc i)) else slot k j)
unfolding wake_slot
wake_slot_each chan i k j = ground arith

-- Every slot after a wakeup, and the parts that it leaves alone.
pub wakeup_lem :
    (chan : ℕ) (k : Kernel)
    → ((j : ℕ)
        → j < nproc
        → ((wakeup chan k).proc j ≡ woken chan (k.present j) (k.proc j))
          × ((wakeup chan k).present j ≡ k.present j))
      × ((wakeup chan k).cu ≡ k.cu)
      × ((wakeup chan k).file ≡ k.file)
      × ((wakeup chan k).inode ≡ k.inode)
unfolding wakeup
wakeup_lem chan k = (
  λ j lt. ground (
    arith,
    for_range_each slot (wake_slot chan) (λ i s. (s.0, woken chan s.0 s.1)) (wake_slot_each chan)
        nproc 0 k j,
  ),
  kept (λ s. s.cu) (λ i s. unfold wake_slot in ground arith),
  kept (λ s. s.file) (λ i s. unfold wake_slot in ground arith),
  kept (λ s. s.inode) (λ i s. unfold wake_slot in ground arith),
)
  where
    kept :
        {A : Type 0} (read : Kernel → A)
        → ((i : ℕ) (s : Kernel) → read (wake_slot chan i s) ≡ read s)
        → read (for_range nproc 0 (wake_slot chan) k) ≡ read k
    kept read same =
        for_range_inv (λ _ s. read s ≡ read k) (wake_slot chan) nproc 0 nproc refl
          (λ i s a b h. same i s ∙ h) k refl

-- After `wakeup chan` a process that slept on `chan` is runnable and sleeps on nothing, and
-- any other entry of the process table is as it was; so are the current process and the files.
pub wakeup-woken :
    (chan : ℕ) (k : Kernel) (j : ℕ)
    → j < nproc
    → ((wakeup chan k).proc j ≡ woken chan (k.present j) (k.proc j))
      × ((wakeup chan k).present j ≡ k.present j)
      × ((wakeup chan k).cu ≡ k.cu)
      × ((wakeup chan k).file ≡ k.file)
      × ((wakeup chan k).inode ≡ k.inode)
wakeup-woken chan k j lt = let w = wakeup_lem chan k in ((w.0 j lt).0, (w.0 j lt).1, w.1, w.2, w.3)
