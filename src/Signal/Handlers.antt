-- ===== src/Signal/Handlers.antt =====
-- Handlers: their installation, and their entry by `psig`.
use fleurix.Base.{
  ℕ, ◌-◌, ◌<◌, ◌≤◌, ◌≡◌, ◌≢◌, ap, ◌∙◌, false, ◌||◌, not, ◌==◌, if◌then◌else◌, arith, ltb,
}
use fleurix.Base.Bits.{bit, bit-clear}
use fleurix.Base.Word.{pos}
use fleurix.Kernel.{Kernel, nsig, me, set_me}
use fleurix.Signal.{
  sig_dfl, sigkill, sigchld, sigcont, sig_bit, sig_index, del_sig, handler_of, psig, ignored,
  enters, exits, enter_handler, do_signal, bad_sig, with_action, oneshot_nomask,
}

module _ (k : Kernel) (n : ℕ) (current : (me k).cursig ≡ n) (a : 1 ≤ n) (b : n ≤ nsig) where
  in_range : (n == 0 || ltb nsig n) ≡ false
  in_range = ground arith

  -- The state before the action.
  taken : Kernel
  taken = set_me k (record (me k) { sig = del_sig (me k).sig n; cursig = 0 })

  psig_cases : psig k ≡ (
      if not (handler_of (me k) n == sig_dfl)
      then (enter_handler taken n, enters (handler_of (me k) n) (me k).sigmask)
      else if n == sigchld || n == sigcont
      then (taken, ignored)
      else (taken, exits))
  unfolding psig taken
  psig_cases = rw (current, in_range)

  enter_sig :
      ((me (enter_handler taken n)).sig ≡ del_sig (me k).sig n)
      × ((me (enter_handler taken n)).cursig ≡ 0)
  unfolding enter_handler taken
  enter_sig = ground arith

  taken_sig : ((me taken).sig ≡ del_sig (me k).sig n) × ((me taken).cursig ≡ 0)
  unfolding taken
  taken_sig = ground arith

  psig_sig : ((me (psig k).0).sig ≡ del_sig (me k).sig n) × ((me (psig k).0).cursig ≡ 0)
  psig_sig = ground (arith, psig_cases, enter_sig, taken_sig)

  psig_action : (psig k).1 ≡ (
      if not (handler_of (me k) n == sig_dfl)
      then enters (handler_of (me k) n) (me k).sigmask
      else if n == sigchld || n == sigcont
      then ignored
      else exits)
  psig_action = ground (arith, psig_cases)

-- `psig` with a current signal from 1 to 32 makes it neither pending nor current, keeps the other
-- signals as they are, and has the process enter its handler where it has one; with the default
-- action, SIGCHLD and SIGCONT are ignored and any other signal ends the process.
pub psig_lem :
    (k : Kernel) (n : ℕ)
    → (me k).cursig ≡ n
    → 1 ≤ n
    → n ≤ nsig
    → (bit (n - 1) (me (psig k).0).sig ≡ 0)
      × ((j : ℕ) → j < 32 → j ≢ n - 1 → bit j (me (psig k).0).sig ≡ bit j (me k).sig)
      × ((me (psig k).0).cursig ≡ 0)
      × ((psig k).1 ≡ (
          if not (handler_of (me k) n == sig_dfl)
          then enters (handler_of (me k) n) (me k).sigmask
          else if n == sigchld || n == sigcont
          then ignored
          else exits))
psig_lem k n e a b =
    let s = psig_sig k n e a b in
    let at : sig_bit n ≡ n - 1 = omega arith in
    (
      ground (arith, s.0, at, bit-clear 32 (n - 1) (sig_bit n) (me k).sig),
      λ j lt ne. ground (arith, s.0, at, bit-clear 32 j (sig_bit n) (me k).sig),
      s.1,
      psig_action k n e a b,
    )

-- The state that a successful `signal` leaves.
abbrev installed : Kernel → ℕ → ℕ → Kernel
installed k n f =
    set_me k
      (record (with_action (me k) n (record { handler = f; mask = 0; flags = oneshot_nomask })) {
        sigmask = 0;
      })

do_signal-installed :
    (k : Kernel) (n f : ℕ)
    → 1 ≤ n
    → n ≤ nsig
    → n ≢ sigkill
    → do_signal k (pos n) f ≡ (installed k n f, pos 0)
unfolding do_signal
do_signal-installed k n f a b ne = let fine : bad_sig (pos n) ≡ false = ground arith in rw fine

-- Entering a handler of the flags that `signal` sets blocks nothing and restores the default.
enter_once :
    (k : Kernel) (n : ℕ)
    → ((me k).sigact (sig_index n)).flags ≡ oneshot_nomask
    → ((me (enter_handler k n)).sigmask ≡ (me k).sigmask)
      × (handler_of (me (enter_handler k n)) n ≡ sig_dfl)
unfolding enter_handler
enter_once k n e = ground (arith, e)

-- A handler that `signal` installs is entered for the next such signal, with no signal blocked,
-- and the default action is back after that. `k'` is a state of the same process in which the
-- signal is current and the handlers and the blocked signals are as `signal` left them.
pub one_shot :
    (k k' : Kernel) (n f : ℕ)
    → 1 ≤ n
    → n ≤ nsig
    → n ≢ sigkill
    → f ≢ sig_dfl
    → (me k').cursig ≡ n
    → (me k').sigact ≡ (me (do_signal k (pos n) f).0).sigact
    → (me k').sigmask ≡ (me (do_signal k (pos n) f).0).sigmask
    → ((psig k').1 ≡ enters f 0)
      × (handler_of (me (psig k').0) n ≡ sig_dfl)
      × ((me (psig k').0).sigmask ≡ 0)
one_shot k k' n f a b ne h cur acts mask =
    let action : (me k').sigact (sig_index n)
        ≡ record { handler = f; mask = 0; flags = oneshot_nomask } =
      rw (acts, do_signal-installed k n f a b ne) (ground arith) in
    let open_mask : (me k').sigmask ≡ 0 =
      rw (mask, do_signal-installed k n f a b ne) (ground arith) in
    let runs : psig k' ≡ (enter_handler (taken k' n cur a b) n, enters f 0) =
      psig_cases k' n cur a b ∙ ground (arith, action, open_mask) in
    let once = enter_once (taken k' n cur a b) n (unfold taken in ground (arith, action)) in
    (
      ap (λ r. r.1) runs,
      ap (λ r. handler_of (me r.0) n) runs ∙ once.1,
      ap (λ r. (me r.0).sigmask) runs ∙ once.0 ∙ unfold taken in ground (arith, open_mask),
    )
