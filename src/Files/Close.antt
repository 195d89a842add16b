-- ===== src/Files/Close.antt =====
-- Closing a descriptor keeps the counts of the open files exact.
use fleurix.Base.{
  ℕ, ◌+◌, ◌<◌, ◌≡◌, ◌≢◌, refl, sym, subst, ap, ◌∙◌, true, false, Option, none, some, arith, ltb,
}
use native.Mathlib.Decide.{ℕ_discrete}
use fleurix.Base.Word.{ℤ, pos}
use fleurix.Base.Result.{ok, ◌>>=◌, ok-injective, >>=-eq-ok}
use fleurix.Kernel.{File, Kernel, nproc, nofile, nfile, me, set_file}
use fleurix.Inode.{Store, iput}
use fleurix.Inode.Quiet.{Quiet, iput-Quiet}
use fleurix.Files.{set_fd, do_close, close_file, drop_file, to_u32}
use fleurix.Files.Refs.{refs, refs-set_fd, refs-same, refers, Counted}

-- Dropping one count of a structure that has some.
drop_file-count : (fp : File) → 0 < fp.count → fp.count < 128 → (drop_file fp).count + 1 ≡ fp.count
unfolding drop_file
drop_file-count fp a b = ground arith

-- The last of the state's changes.
abbrev closed : Kernel → ℕ → Kernel
closed mid f = set_file mid f (drop_file (mid.file f))

-- The end of a close, from the state that the release of the inode left.
dropped :
    (k mid : Kernel) (fd f : ℕ)
    → Quiet (set_fd k fd none) mid
    → fd < nofile
    → f < nfile
    → (me k).ofile fd ≡ some f
    → k.cu < nproc
    → k.present k.cu ≡ true
    → (k.file f).count < 128
    → Counted k
    → Counted (closed mid f) × ((me (closed mid f)).ofile fd ≡ none)
dropped k mid fd f q lt f_lt open_ cu there small c = (counts, gone)
  where
    own : mid.file f ≡ k.file f
    own = ap (λ (t : ℕ → File). t f) q.files

    moved : (g : ℕ) → refs mid g + refers g (some f) ≡ refs k g
    moved g =
        let a = refs-set_fd k g fd none lt cu there in
        let b = refs-same (set_fd k fd none) mid g (λ i l. (q.present i l, q.ofiles i l)) in
        let had : refers g ((me k).ofile fd) ≡ refers g (some f) = ap (refers g) open_ in
        omega (arith, a, b, had)

    kept : (g : ℕ) → refs (closed mid f) g ≡ refs mid g
    kept g = refs-same mid (closed mid f) g (λ i l. (refl, refl))

    -- The file itself loses one count and one reference.
    counts_here : ((closed mid f).file f).count ≡ refs (closed mid f) f
    counts_here =
        let one : refers f (some f) ≡ 1 = ground arith in
        let at : ((closed mid f).file f).count ≡ (drop_file (mid.file f)).count = ground arith in
        let same : (mid.file f).count ≡ (k.file f).count = ap (λ (x : File). x.count) own in
        let less = drop_file-count (mid.file f) in
        let m = moved f in
        let e = c f f_lt in
        at
        ∙ omega (
          arith,
          m,
          e,
          one,
          same,
          less (omega (arith, m, e, one, same)) (omega (arith, same, small)),
        )
        ∙ sym (kept f)

    counts_other :
        (g : ℕ) → g < nfile → g ≢ f → ((closed mid f).file g).count ≡ refs (closed mid f) g
    counts_other g g_lt ne =
        let none_ : refers g (some f) ≡ 0 = ground arith in
        let other : (mid.file g).count ≡ (k.file g).count =
          ap (λ (t : ℕ → File). (t g).count) q.files in
        let at : ((closed mid f).file g).count ≡ (mid.file g).count = ground arith in
        let m = moved g in let e = c g g_lt in at ∙ omega (arith, m, e, other, none_) ∙ sym (kept g)

    counts : Counted (closed mid f)
    counts g g_lt = elim (ℕ_discrete g f) [
      | yes e ↦
          subst (λ (x : ℕ). ((closed mid f).file x).count ≡ refs (closed mid f) x) (sym e)
            counts_here
      | no ne ↦ counts_other g g_lt ne
    ]

    gone : (mid.proc mid.cu).ofile fd ≡ none
    gone =
        let at : (mid.proc mid.cu).ofile ≡ ((set_fd k fd none).proc mid.cu).ofile =
          q.ofiles mid.cu (rw q.current cu) in
        ap (λ (t : ℕ → Option ℕ). t fd) at
        ∙ ap (λ (i : ℕ). ((set_fd k fd none).proc i).ofile fd) q.current
        ∙ ground arith

module _ (d : Store) (chan : ℕ → ℕ) where
  pub closes :
      (s : d.State) (k : Kernel) (fd f : ℕ)
      → fd < nofile
      → f < nfile
      → (me k).ofile fd ≡ some f
      → do_close d chan s k (pos fd) ≡ (close_file d chan s k fd f >>= λ o. ok (o.0, o.1, pos 0))
  unfolding do_close
  closes s k fd f lt f_lt open_ =
      let same : to_u32 (pos fd) ≡ fd = omega arith in
      let fits : ltb nofile fd ≡ false = ground arith in
      let inside : ltb nfile f ≡ false = ground arith in
      rw (same, fits)
        (rw open_ (
          rw inside (ap (λ (x : ℕ). close_file d chan s k x f >>= λ o. ok (o.0, o.1, pos 0)) same)))

  pub unfolded_close :
      (s : d.State) (k : Kernel) (fd f : ℕ)
      → close_file d chan s k fd f ≡ (
          iput d chan s (set_fd k fd none) (k.file f).ino >>= λ o.
          ok (o.0, set_file o.1 f (drop_file (o.1.file f))))
  unfolding close_file
  unfolded_close s k fd f = refl

  close_file-Counted :
      (s s' : d.State) (k k' : Kernel) (fd f : ℕ)
      → close_file d chan s k fd f ≡ ok (s', k')
      → fd < nofile
      → f < nfile
      → (me k).ofile fd ≡ some f
      → k.cu < nproc
      → k.present k.cu ≡ true
      → (k.file f).count < 128
      → Counted k
      → Counted k' × ((me k').ofile fd ≡ none)
  close_file-Counted s s' k k' fd f e lt f_lt open_ cu there small c =
      let b =
        >>=-eq-ok (iput d chan s (set_fd k fd none) (k.file f).ino) _
          (sym (unfolded_close s k fd f) ∙ e) in
      let q = iput-Quiet d chan s b.0.0 (set_fd k fd none) b.0.1 (k.file f).ino b.1 in
      let ends : set_file b.0.1 f (drop_file (b.0.1.file f)) ≡ k' =
        ap (λ (o : d.State × Kernel). o.1) (ok-injective b.2) in
      subst (λ (o : Kernel). Counted o × ((me o).ofile fd ≡ none)) ends
        (dropped k b.0.1 fd f q lt f_lt open_ cu there small c)

  -- `do_close` of an open descriptor that does not stop the machine, with exact counts of the open
  -- files and that of the file below 128, returns 0 and frees the descriptor, and the counts are
  -- exact again.
  pub do_close-Counted :
      (s s' : d.State) (k k' : Kernel) (fd f : ℕ) (r : ℤ)
      → do_close d chan s k (pos fd) ≡ ok (s', k', r)
      → fd < nofile
      → f < nfile
      → (me k).ofile fd ≡ some f
      → k.cu < nproc
      → k.present k.cu ≡ true
      → (k.file f).count < 128
      → Counted k
      → (r ≡ pos 0) × Counted k' × ((me k').ofile fd ≡ none)
  do_close-Counted s s' k k' fd f r e lt f_lt open_ cu there small c =
      let b = >>=-eq-ok (close_file d chan s k fd f) _ (sym (closes s k fd f lt f_lt open_) ∙ e) in
      let all = ok-injective b.2 in
      let good = close_file-Counted s b.0.0 k b.0.1 fd f b.1 lt f_lt open_ cu there small c in
      (
        sym (ap (λ (o : d.State × Kernel × ℤ). o.2) all),
        subst (λ (o : d.State × Kernel × ℤ). Counted o.1) all good.0,
        subst (λ (o : d.State × Kernel × ℤ). (me o.1).ofile fd ≡ none) all good.1,
      )
