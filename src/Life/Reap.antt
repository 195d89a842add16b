-- ===== src/Life/Reap.antt =====
-- The slot of a process: taken by fork, and given back by wait.
use fleurix.Base.{
  ℕ, ◌-◌, ◌<◌, ◌≡◌, ◌≢◌, refl, sym, ap, ◌∙◌, Bool, true, false, not, if◌then◌else◌, arith,
  Option-cases, ◌⊎◌, inl, inr, zero, suc, Bool-cases,
}
use fleurix.Base.Word.{ℤ, pos, negsuc, minus_one}
use fleurix.Base.Loops.{find_first, find_first-some, find_first-none, update}
use fleurix.Kernel.{Proc, Kernel, me, nproc}
use fleurix.Life.{find_pid, do_waitpid, is_awaited, is_reapable, Wait, reaped, no_child, sleeps}

-- The child that `pid` asks for: one of the caller's group, one with that number, any, or, below -1,
-- one whose group is the number of the caller.
pub data Asked (k : Kernel) (p : Proc) : ℤ → Type 0 where
  of_group : p.pgrp ≡ (me k).pgrp → Asked k p (pos 0)
  of_number : {n : ℕ} → 0 < n → p.pid ≡ n → Asked k p (pos n)
  any : Asked k p minus_one
  of_caller : {n : ℕ} → 0 < n → p.pgrp ≡ (me k).pid → Asked k p (negsuc n)

-- Slot `nr` holds a child of the caller that has exited, SZOMB, and that is asked for.
pub record Answers (k : Kernel) (pid : ℤ) (nr : ℕ) : Type 0 where
  pub present : k.present nr ≡ true
  pub not_me : nr ≢ k.cu
  pub child : (k.proc nr).ppid ≡ (me k).pid
  pub exited : (k.proc nr).stat ≡ 4
  pub asked : Asked k (k.proc nr) pid

-- What a pass of `do_waitpid` does with a pointer that may be written: it gives back the slot of
-- the first child that is asked for and has exited, or there is none.
pub data Waits (k : Kernel) (pid : ℤ) (nohang : Bool) : Kernel × Wait → Type 0 where
  child :
      (nr : ℕ)
      → 0 < nr
      → nr < nproc
      → Answers k pid nr
      → ((j : ℕ) → 0 < j → j < nr → Answers k pid j → ⊥)
      → Waits k pid nohang (
        record k { present = update k.present (k.proc nr).pid false },
        reaped (k.proc nr).pid (k.proc nr).ret,
      )
  nobody :
      ((j : ℕ) → 0 < j → j < nproc → Answers k pid j → ⊥)
      → Waits k pid nohang (k, if nohang then no_child else sleeps)

is_awaited-Asked :
    (k : Kernel) (pid : ℤ) (nr : ℕ)
    → is_awaited k pid nr ≡ true
    → ((k.proc nr).ppid ≡ (me k).pid) × Asked k (k.proc nr) pid
unfolding is_awaited
is_awaited-Asked k (pos zero) nr e = (ground (arith, e), of_group (ground (arith, e)))
is_awaited-Asked k (pos (suc n)) nr e =
    (ground (arith, e), of_number (omega arith) (ground (arith, e)))
is_awaited-Asked k (negsuc zero) nr e = (ground (arith, e), any)
is_awaited-Asked k (negsuc (suc m)) nr e =
    (ground (arith, e), of_caller (omega arith) (ground (arith, e)))

Asked-is_awaited :
    (k : Kernel) (pid : ℤ) (nr : ℕ)
    → (k.proc nr).ppid ≡ (me k).pid
    → Asked k (k.proc nr) pid
    → is_awaited k pid nr ≡ true
unfolding is_awaited
Asked-is_awaited k _ nr c (of_group g) = ground (arith, c, g)
Asked-is_awaited k _ nr c (of_number pos_n e) = ground (arith, c, pos_n, e)
Asked-is_awaited k _ nr c any = ground (arith, c)
Asked-is_awaited k _ nr c (of_caller pos_n g) = ground (arith, c, pos_n, g)

is_reapable-Answers :
    (k : Kernel) (pid : ℤ) (nr : ℕ) → is_reapable k pid nr ≡ true → Answers k pid nr
unfolding is_reapable
is_reapable-Answers k pid nr e =
    let a = is_awaited-Asked k pid nr (ground (arith, e)) in
    record {
      present = ground (arith, e);
      not_me = ground (arith, e);
      child = a.0;
      exited = ground (arith, e);
      asked = a.1;
    }

not_reapable : (k : Kernel) (pid : ℤ) (nr : ℕ) → is_reapable k pid nr ≡ false → Answers k pid nr → ⊥
unfolding is_reapable
not_reapable k pid nr e a =
    let awaited = Asked-is_awaited k pid nr a.child a.asked in
    ground (arith, e, awaited, a.present, a.not_me, a.exited)

-- A pass of `do_waitpid` with a pointer that may be written gives back the slot of the lowest child
-- of the caller that has exited and is asked for, and reports its number and its result; without
-- such a child it changes nothing, and returns 0 or sleeps as the option says. Asked for is a child
-- of the caller's group with 0, the child of that number above 0, any child with -1, and below -1 one
-- whose group is the number of the caller, whatever the argument.
pub do_waitpid-Waits :
    (k : Kernel) (pid : ℤ) (nohang : Bool) → Waits k pid nohang (do_waitpid k pid true nohang)
unfolding do_waitpid
do_waitpid-Waits k pid nohang = elim (Option-cases (find_first (nproc - 1) 1 (is_reapable k pid))) [
  | inl none_ ↦
      let nobody_ = λ (j : ℕ) (a : 0 < j) (b : j < nproc).
        not_reapable k pid j
          (find_first-none (nproc - 1) 1 (is_reapable k pid) none_ j a (omega arith)) in
      elim (Bool-cases nohang) [
        | inl stay ↦ rw (none_, stay) (nobody nobody_)
        | inr sleep ↦ rw (none_, sleep) (nobody nobody_)
      ]
  | inr (nr, hit) ↦
      let f = find_first-some (nproc - 1) 1 (is_reapable k pid) nr hit in
      rw hit (
        child nr f.0 (omega (arith, f.1)) (is_reapable-Answers k pid nr f.2)
          (λ j a b. not_reapable k pid j (f.3 j a b)))
]

-- With process 0 in its slot, `find_pid` returns the lowest free slot, and 0 exactly when every slot is
-- in use.
pub find_pid_lem :
    (k : Kernel)
    → k.present 0 ≡ true
    → ((find_pid k ≢ 0)
        × (find_pid k < nproc)
        × (k.present (find_pid k) ≡ false)
        × ((j : ℕ) → j < find_pid k → k.present j ≡ true))
      ⊎ ((find_pid k ≡ 0) × ((j : ℕ) → j < nproc → k.present j ≡ true))
unfolding find_pid
find_pid_lem k zero_ = elim (Option-cases (find_first nproc 0 (λ i. not (k.present i)))) [
  | inl none_ ↦ inr (
    rw (none_, find_pid) refl,
    λ j lt.
        ground (arith, find_first-none nproc 0 (λ i. not (k.present i)) none_ j (omega arith) lt),
  )
  | inr (nr, hit) ↦
      let f = find_first-some nproc 0 (λ i. not (k.present i)) nr hit in
      let free : k.present nr ≡ false = ground (arith, f.2) in
      rw (hit, find_pid)
        (inl (
          λ e. absurd (cc (sym zero_ ∙ ap k.present (sym e) ∙ free)),
          f.1,
          free,
          λ j lt. ground (arith, f.3 j (omega arith) lt),
        ))
]
