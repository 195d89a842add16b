-- ===== src/Signal/Tests.antt =====
-- Signals between three processes of one user.
use fleurix.Base.{some, none}
use fleurix.Base.Loops.{for_range}
use fleurix.Base.Word.{minus_one}
use fleurix.Signal.{sigsend_g, do_kill, do_sigaction, send_to_slot, kill_slot, post}
use fleurix.Base.{◌≡◌, refl, true, false, arith}
use fleurix.Base.Bits.{has_bit}
use fleurix.Base.Word.{pos}
use fleurix.Kernel.{Kernel, me, set_me}
use fleurix.Samples.{idle_kernel, process}
use fleurix.Signal.{sigsend, issig, psig, do_signal, handler_of, sig_dfl, enters}
use fleurix.Signal.Send.{null_signal_deafens}
use fleurix.Signal.Pending.{Finds, issig-Finds}
use fleurix.Signal.Handlers.{one_shot}

-- Bit 31 and SIGKILL are pending for the running process.
abbrev deafened : Kernel
deafened = set_me idle_kernel (record (process 1 7) { sig = 0x80000100 })

null_signal_deafens_example :
    (has_bit ((sigsend idle_kernel 2 (pos 0) false).0.proc 2).sig 31 ≡ true)
    × ((issig deafened).1 ≡ 0)
null_signal_deafens_example =
    null_signal_deafens idle_kernel deafened 2 (omega arith) refl refl refl refl

issig-Finds_example : Finds deafened (issig deafened)
issig-Finds_example = issig-Finds deafened

-- SIGTERM is current and pending.
abbrev dying : Kernel
dying = set_me idle_kernel (record (process 1 7) { sig = 0x4000; cursig = 15 })

-- SIGTERM is current after `signal(15, 0x8000)`.
abbrev handled : Kernel
handled =
    set_me (do_signal dying (pos 15) 0x8000).0
      (record (me (do_signal dying (pos 15) 0x8000).0) { cursig = 15 })

one_shot_example :
    ((psig handled).1 ≡ enters 0x8000 0)
    × (handler_of (me (psig handled).0) 15 ≡ sig_dfl)
    × ((me (psig handled).0).sigmask ≡ 0)
one_shot_example =
    one_shot dying handled 15 0x8000 (omega arith) (omega arith) (omega arith) (omega arith)
      (ground arith) (ground arith) (ground arith)

-- A signal to the group 1 of all three processes is pending for process 2.
group_gets : ((sigsend_g idle_kernel 1 (pos 15) true).0.proc 2).sig ≡ 0x4000
unfolding sigsend_g send_to_slot for_range sigsend post
group_gets = refl

all_get : ((do_kill idle_kernel (pos 0) minus_one (pos 15)).0.proc 2).sig ≡ 0x4000
unfolding do_kill kill_slot for_range sigsend post
all_get = refl

no_action :
    (do_sigaction idle_kernel
      (pos 9)
      (some (true, record { handler = 5; mask = 0; flags = 0 }))
      none).1
    ≡ minus_one
unfolding do_sigaction
no_action = refl
