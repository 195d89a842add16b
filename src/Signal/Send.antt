-- ===== src/Signal/Send.antt =====
-- Who may send which signal, and what it leaves in the process that gets it.
use fleurix.Base.{
  ℕ, ◌-◌, ◌<◌, ◌≤◌, ◌≡◌, ◌≢◌, ◌⊎◌, inl, inr, Bool, true, false, ◌&&◌, ◌||◌, not, ◌==◌, arith,
  Bool-cases, Option-cases,
}
use fleurix.Base.Bits.{bit, bit-set, has_bit, has_bit-set}
use fleurix.Base.Word.{ℤ, pos, minus_one}
use fleurix.Base.Loops.{find_first, find_first-some}
use fleurix.Kernel.{Proc, Kernel, nsig, swait, srun, me, syserr, suser}
use fleurix.Kernel.Errno.{eperm, einval}
use fleurix.Signal.{
  sigsend, post, handler_of, sig_ign, sigkill, sig_bit, add_sig, issig, is_pending, found_sig,
}

-- The kernel, the process itself or the super user may signal a process.
abbrev pub may_signal : Kernel → ℕ → Bool → Bool
may_signal k pid priv = priv || (me k).euid == (k.proc pid).euid || suser k

-- The process ignores the signal, which SIGKILL does not allow.
abbrev pub ignores : Proc → ℕ → Bool
ignores p n = handler_of p n == sig_ign && not (n == sigkill)

-- What the process that gets signal `n` is left with: the signal is pending beside those that
-- were, and a process in an interruptible sleep is runnable.
pub record Posted (p p' : Proc) (n : ℕ) : Type 0 where
  pub pending : bit (n - 1) p'.sig ≡ 1
  pub others : (j : ℕ) → j ≢ n - 1 → bit j p'.sig ≡ bit j p.sig
  pub woken : p.stat ≡ swait → (p'.stat ≡ srun) × (p'.chan ≡ 0)
  pub asleep : p.stat ≢ swait → (p'.stat ≡ p.stat) × (p'.chan ≡ p.chan)

-- Every outcome of `sigsend` with a signal number from 1 to 31.
pub data Sends (k : Kernel) (pid n : ℕ) (priv : Bool) : Kernel × ℤ → Type 0 where
  no_such : (pid ≡ 0) ⊎ (k.present pid ≡ false) → Sends k pid n priv (syserr k einval, minus_one)
  refused : may_signal k pid priv ≡ false → Sends k pid n priv (syserr k eperm, minus_one)
  dropped : ignores (k.proc pid) n ≡ true → Sends k pid n priv (k, minus_one)
  sent :
      (k' : Kernel)
      → k.present pid ≡ true
      → may_signal k pid priv ≡ true
      → ignores (k.proc pid) n ≡ false
      → Posted (k.proc pid) (k'.proc pid) n
      → ((j : ℕ) → j ≢ pid → k'.proc j ≡ k.proc j)
      → Sends k pid n priv (k', pos 0)

sig_bit-pred : (n : ℕ) → 1 ≤ n → n < nsig → sig_bit n ≡ n - 1
sig_bit-pred n a b = omega arith

post-Posted :
    (k : Kernel) (pid n : ℕ) → 1 ≤ n → n < nsig → Posted (k.proc pid) ((post k pid n).proc pid) n
unfolding post
post-Posted k pid n a b = record {
  pending = ground (arith, bit-set (n - 1) (sig_bit n) (k.proc pid).sig, sig_bit-pred n a b);
  others = λ j ne. ground (arith, bit-set j (sig_bit n) (k.proc pid).sig, sig_bit-pred n a b);
  woken = λ e. ground arith;
  asleep = λ e. ground arith;
}

post_other : (k : Kernel) (pid n j : ℕ) → j ≢ pid → (post k pid n).proc j ≡ k.proc j
unfolding post
post_other k pid n j ne = ground arith

-- `sigsend` of a signal from 1 to 31 fails for a process that is not there or a sender without the
-- right, drops what the process ignores, and otherwise makes the signal pending beside the others,
-- waking an interruptible sleeper, and changes no other process.
pub sigsend-Sends :
    (k : Kernel) (pid n : ℕ) (priv : Bool)
    → 1 ≤ n
    → n < nsig
    → Sends k pid n priv (sigsend k pid (pos n) priv)
sigsend-Sends k pid n priv a b = elim (Bool-cases (pid == 0 || not (k.present pid))) [
  | inl gone ↦
      let e : sigsend k pid (pos n) priv ≡ (syserr k einval, minus_one) =
        unfold sigsend in ground arith in
      rw e (no_such (ground arith))
  | inr there ↦ elim (Bool-cases (may_signal k pid priv)) [
    | inr refused_ ↦
        let e : sigsend k pid (pos n) priv ≡ (syserr k eperm, minus_one) =
          unfold sigsend in ground arith in
        rw e (refused refused_)
    | inl allowed ↦ elim (Bool-cases (ignores (k.proc pid) n)) [
      | inl drop ↦
          let e : sigsend k pid (pos n) priv ≡ (k, minus_one) = unfold sigsend in ground arith in
          rw e (dropped drop)
      | inr keep ↦
          let e : sigsend k pid (pos n) priv ≡ (post k pid n, pos 0) =
            unfold sigsend in ground arith in
          rw e (
            sent (post k pid n) (ground arith) allowed keep (post-Posted k pid n a b)
              (post_other k pid n))
    ]
  ]
]

found_zero : (k : Kernel) → (found_sig k 0).1 ≡ 0
unfolding found_sig
found_zero k = ground arith

-- With bit 31 pending `issig` stops at the first round of its loop, and reports no signal.
deaf : (k : Kernel) → has_bit (me k).sig 31 ≡ true → (issig k).1 ≡ 0
unfolding issig
deaf k h = elim (Option-cases (find_first 32 0 (is_pending (me k)))) [
  | inl e ↦ ground (arith, e)
  | inr (n, e) ↦
      let hit = find_first-some 32 0 (is_pending (me k)) n e in
      let first : n ≡ 0 = ground (arith, hit.2, hit.3 0, h) in
      ground (arith, e, first, found_zero k)
]

null_signal_lem :
    (k : Kernel) (pid : ℕ)
    → pid ≢ 0
    → k.present pid ≡ true
    → may_signal k pid false ≡ true
    → ignores (k.proc pid) 0 ≡ false
    → sigsend k pid (pos 0) false ≡ (post k pid 0, pos 0)
unfolding sigsend
null_signal_lem k pid ne there allowed keep = ground arith

posted_sig : (k : Kernel) (pid n : ℕ) → ((post k pid n).proc pid).sig ≡ add_sig (k.proc pid).sig n
unfolding post
posted_sig k pid n = ground arith

post_null : (k : Kernel) (pid : ℕ) → has_bit ((post k pid 0).proc pid).sig 31 ≡ true
post_null k pid = rw (posted_sig k pid 0) (has_bit-set (k.proc pid).sig 31 31)

-- Signal 0 to a process that does not ignore it, by a sender with the right to, makes bit 31
-- pending there. In any state in which that bit is pending for the current process, `issig` reports
-- no signal, SIGKILL included.
pub null_signal_deafens :
    (k later : Kernel) (pid : ℕ)
    → pid ≢ 0
    → k.present pid ≡ true
    → may_signal k pid false ≡ true
    → ignores (k.proc pid) 0 ≡ false
    → has_bit (me later).sig 31 ≡ true
    → (has_bit ((sigsend k pid (pos 0) false).0.proc pid).sig 31 ≡ true) × ((issig later).1 ≡ 0)
null_signal_deafens k later pid ne there allowed keep pending =
    (rw (null_signal_lem k pid ne there allowed keep) (post_null k pid), deaf later pending)
