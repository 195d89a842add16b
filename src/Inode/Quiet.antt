-- ===== src/Inode/Quiet.antt =====
-- Releasing an inode leaves the descriptors and the open files alone.
use fleurix.Base.{
  ℕ, ◌-◌, ◌<◌, ◌≡◌, refl, sym, ap, ◌∙◌, subst, Option, none, some, ◌==◌, arith, Bool-cases, inl,
  inr,
}
use fleurix.Base.Bits.{has_bit}
use fleurix.Base.Result.{Result, ok, panic, ok-injective, >>=-eq-ok}
use fleurix.Kernel.{Proc, Kernel, nproc, set_inode}
use fleurix.Sched.{wakeup}
use fleurix.Sched.Wakeup.{wakeup_lem}
use fleurix.Inode.{Store, iput, unlk_ino, let_go, i_wanted, drop_inode}
use fleurix.Inode.Release.{iput-last, iput-more}

-- What releasing an inode leaves of the processes and of the files.
pub record Quiet (k k' : Kernel) : Type 0 where
  pub files : k'.file ≡ k.file
  pub present : (i : ℕ) → i < nproc → k'.present i ≡ k.present i
  pub ofiles : (i : ℕ) → i < nproc → (k'.proc i).ofile ≡ (k.proc i).ofile
  pub current : k'.cu ≡ k.cu

wakeup-Quiet : (chan : ℕ) (k : Kernel) → Quiet k (wakeup chan k)
wakeup-Quiet chan k =
    let w = wakeup_lem chan k in
    record {
      files = w.2;
      present = λ i lt. (w.0 i lt).1;
      ofiles = λ i lt. ap (λ (p : Proc). p.ofile) (w.0 i lt).0 ∙ ground arith;
      current = w.1;
    }

unlk-Quiet : (chan : ℕ → ℕ) (k : Kernel) (i : ℕ) → Quiet k (unlk_ino chan k i)
unfolding unlk_ino
unlk-Quiet chan k i = elim (Bool-cases (has_bit (k.inode i).flag i_wanted)) [
  | inl wanted ↦
      let w = wakeup-Quiet (chan i) k in
      rw wanted
        (record { files = w.files; present = w.present; ofiles = w.ofiles; current = w.current })
  | inr alone ↦
      rw alone
        (record { files = refl; present = λ i lt. refl; ofiles = λ i lt. refl; current = refl })
]

-- `iput` touches only inodes and the sleep of processes.
pub iput-Quiet :
    (d : Store) (chan : ℕ → ℕ) (s s' : d.State) (k k' : Kernel) (o : Option ℕ)
    → iput d chan s k o ≡ ok (s', k')
    → Quiet k k'
iput-Quiet d chan s s' k k' none e =
    let h : ◌≡◌ {A = Result (d.State × Kernel)} panic (ok (s', k')) = unfold iput in e in
    absurd (cc)
iput-Quiet d chan s s' k k' (some i) e = elim (Bool-cases ((k.inode i).count - 1 == 0)) [
  | inl last ↦
      let b =
        >>=-eq-ok (drop_inode d s (let_go (k.inode i))) _ (sym (iput-last d chan s k i last) ∙ e) in
      let q = unlk-Quiet chan (set_inode (set_inode k i (let_go (k.inode i))) i b.0.1) i in
      subst (Quiet k) (ap (λ (o : d.State × Kernel). o.1) (ok-injective b.2))
        (record { files = q.files; present = q.present; ofiles = q.ofiles; current = q.current })
  | inr more ↦
      let q = unlk-Quiet chan (set_inode k i (let_go (k.inode i))) i in
      subst (Quiet k)
        (ap (λ (o : d.State × Kernel). o.1) (ok-injective (sym (iput-more d chan s k i more) ∙ e)))
        (record { files = q.files; present = q.present; ofiles = q.ofiles; current = q.current })
]
