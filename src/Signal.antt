-- ===== src/Signal.antt =====
-- src/kern/signal.c: sending signals, and what a process does with one.
-- `1 << (n - 1)` and `p_sigact[n - 1]` are also reached with `n = 0`. The shift of the processor
-- takes the count modulo 32, so that is bit 31; the index wraps, so that is an entry outside the
-- array, of which nothing is known.
pub mod Send
pub mod Pending
pub mod Handlers
mod Tests
use fleurix.Base.{
  ℕ, ◌+◌, ◌-◌, ◌%◌, ◌^◌, Bool, true, false, ◌&&◌, ◌||◌, not, Option, none, some, ltb, leb, ◌==◌,
  if◌then◌else◌, bit_and, bit_or, is_none,
}
use fleurix.Base.Bits.{has_bit, all_but}
use fleurix.Base.Word.{ℤ, pos, negsuc, minus_one, pos_part, neg_part}
use fleurix.Base.Loops.{for_range, find_first, update}
use fleurix.Kernel.{
  Sigaction, Proc, Kernel, nproc, nsig, swait, me, set_proc, set_me, syserr, suser,
}
use fleurix.Kernel.Errno.{eperm, einval, efault}
use fleurix.Sched.{setrun}

abbrev pub sigkill : ℕ
sigkill = 9

abbrev pub sigchld : ℕ
sigchld = 17

abbrev pub sigcont : ℕ
sigcont = 18

-- SIG_DFL and SIG_IGN, as addresses.
abbrev pub sig_dfl : ℕ
sig_dfl = 0

abbrev pub sig_ign : ℕ
sig_ign = 1

-- The bit and the index of signal `n`.
abbrev pub sig_bit : ℕ → ℕ
sig_bit n = (n + 31) % 32

abbrev pub sig_index : ℕ → ℕ
sig_index n = (n + 2 ^ 32 - 1) % 2 ^ 32

abbrev pub add_sig : ℕ → ℕ → ℕ
add_sig s n = bit_or s (2 ^ sig_bit n)

abbrev pub del_sig : ℕ → ℕ → ℕ
del_sig s n = bit_and s (all_but 32 (sig_bit n))

abbrev pub handler_of : Proc → ℕ → ℕ
handler_of p n = (p.sigact (sig_index n)).handler

-- `p->p_sig |= 1 << (n - 1)`, and the wakeup of a process in an interruptible sleep.
post : Kernel → ℕ → ℕ → Kernel
unfolding setrun
post k pid n =
    let k' = set_proc k pid (record (k.proc pid) { sig = add_sig (k.proc pid).sig n }) in
    if (k'.proc pid).stat == swait then setrun pid k' else k'

abbrev pub is_negative : ℤ → Bool
is_negative (pos _) = false
is_negative (negsuc _) = true

-- The signal number is an `int`; `priv` is the kernel's own right to send.
pub sigsend : Kernel → ℕ → ℤ → Bool → Kernel × ℤ
unfolding post
sigsend k pid n priv =
    if pid == 0 || not (k.present pid) || is_negative n || leb nsig (pos_part n)
    then (syserr k einval, minus_one)
    else if not (priv || (me k).euid == (k.proc pid).euid || suser k)
    then (syserr k eperm, minus_one)
    else if handler_of (k.proc pid) (pos_part n) == sig_ign && not (pos_part n == sigkill)
    then (k, minus_one)
    else (post k pid (pos_part n), pos 0)

send_to_slot : ℕ → ℤ → Bool → ℕ → Kernel → Kernel
unfolding sigsend
send_to_slot pgrp n priv nr k =
    if k.present nr && (k.proc nr).pgrp == pgrp then (sigsend k (k.proc nr).pid n priv).0 else k

-- To every process of a group; it always returns 0.
pub sigsend_g : Kernel → ℕ → ℤ → Bool → Kernel × ℤ
unfolding send_to_slot
sigsend_g k pgrp n priv = (for_range nproc 0 (send_to_slot pgrp n priv) k, pos 0)

-- The round of the loop over every process; `ret` keeps the last result.
kill_slot : ℤ → ℕ → Kernel × ℤ → Kernel × ℤ
kill_slot sig nr (k, ret) = if k.present nr then sigsend k nr sig false else (k, ret)

-- `stale` is what the uninitialised local variable `ret` holds.
pub do_kill : Kernel → ℤ → ℤ → ℤ → Kernel × ℤ
unfolding kill_slot
do_kill k stale (pos pid) sig =
    if pid == 0 then sigsend_g k (me k).pid sig false else sigsend k pid sig false
do_kill k stale (negsuc m) sig =
    if m == 0
    then for_range (nproc - 1) 1 (kill_slot sig) (k, stale)
    else sigsend_g k (m + 1) sig false

-- The range test of `do_sigaction` and `do_signal`.
abbrev pub bad_sig : ℤ → Bool
bad_sig (pos n) = ltb n 1 || ltb nsig n || n == sigkill
bad_sig (negsuc _) = true

abbrev pub with_action : Proc → ℕ → Sigaction → Proc
with_action p n a = record p { sigact = update p.sigact (sig_index n) a }

-- `sa` and `old_sa` are user pointers: `none` is NULL, and otherwise the Boolean is whether
-- `vm_verify` accepts the pointer. The last part of the result is what goes to `*old_sa`.
pub do_sigaction :
    Kernel → ℤ → Option (Bool × Sigaction) → Option Bool → Kernel × ℤ × Option Sigaction
do_sigaction k sig none old = (syserr k einval, minus_one, none)
do_sigaction k sig (some (readable, sa)) old =
    let n = pos_part sig in
    let now : Sigaction = (me k).sigact (sig_index n) in
    let stored : Option Sigaction = elim old [ none ↦ none | some _ ↦ some now ] in
    let unwritable : Bool = elim old [ none ↦ false | some w ↦ not w ] in
    if bad_sig sig
    then (syserr k einval, minus_one, none)
    else if unwritable
    then (syserr k efault, minus_one, none)
    else if not readable
    then (syserr k efault, minus_one, stored)
    else (set_me k (with_action (me k) n (record sa { mask = add_sig sa.mask n })), pos 0, stored)

-- SA_ONESHOT and SA_NOMASK are bits 31 and 30.
abbrev pub oneshot_nomask : ℕ
oneshot_nomask = 0xC0000000

pub do_signal : Kernel → ℤ → ℕ → Kernel × ℤ
do_signal k sig ufunc =
    let n = pos_part sig in
    let sa : Sigaction = record { handler = ufunc; mask = 0; flags = oneshot_nomask } in
    if bad_sig sig
    then (syserr k einval, minus_one)
    else (set_me k (record (with_action (me k) n sa) { sigmask = 0 }), pos 0)

-- The test of the loop of `issig`, and what it does at the first `n` that passes.
abbrev pub is_pending : Proc → ℕ → Bool
is_pending p n = has_bit p.sig (sig_bit n) && not (p.pid == 0)

found_sig : Kernel → ℕ → Kernel × ℕ
found_sig k n =
    let p = me k in
    if handler_of p n == sig_ign && not (n == sigkill)
    then (set_me k (record p { sig = del_sig p.sig n }), 0)
    else if has_bit p.sigmask (sig_bit n) && not (n == sigkill)
    then (k, 0)
    else (set_me k (record p { cursig = n }), n)

pub issig : Kernel → Kernel × ℕ
unfolding found_sig
issig k =
    if (me k).sig == 0
    then (k, 0)
    else elim (find_first 32 0 (is_pending (me k))) [ none ↦ (k, 0) | some n ↦ found_sig k n ]

-- What `psig` goes on with: nothing, a user handler entered with the old mask saved on the user
-- stack, or do_exit(1).
pub data Delivery : Type 0 where
  ignored : Delivery
  enters : ℕ → ℕ → Delivery
  exits : Delivery

-- The state that a user handler is entered in.
enter_handler : Kernel → ℕ → Kernel
enter_handler k n =
    let p = me k in
    let sa = p.sigact (sig_index n) in
    let mask' = if has_bit sa.flags 30 then p.sigmask else bit_or p.sigmask sa.mask in
    let sa' : Sigaction = if has_bit sa.flags 31 then record sa { handler = sig_dfl } else sa in
    set_me k (record (with_action p n sa') { sigmask = mask' })

pub psig : Kernel → Kernel × Delivery
unfolding enter_handler
psig k =
    let n = (me k).cursig in
    let k' = set_me k (record (me k) { sig = del_sig (me k).sig n; cursig = 0 }) in
    let h = handler_of (me k) n in
    if n == 0 || ltb nsig n
    then (k, ignored)
    else if not (h == sig_dfl)
    then (enter_handler k' n, enters h (me k).sigmask)
    else if n == sigchld || n == sigcont
    then (k', ignored)
    else (k', exits)
