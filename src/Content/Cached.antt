-- ===== src/Content/Cached.antt =====
-- The cache of inodes of src/fs/inode.c over the disk of this component: iload, iupdate, itrunc and
-- ifree behind `Store` are those of Content.antt, Content/Trunc.antt and Alloc.antt. The blocks are one
-- file system with the super block `sp`; `d_close` of a device stays a parameter.
mod Tests
use fleurix.Base.{
  ℕ, zero, suc, ◌≡◌, ◌≢◌, refl, sym, ap, ◌∙◌, Bool, true, false, inl, inr, Bool-cases, ◌==◌, some,
  subst, if◌then◌else◌,
}
use fleurix.Base.Bits.{bit}
use fleurix.Base.Result.{Result, ok, panic, ◌>>=◌, ok-injective, >>=-eq-ok}
use fleurix.Kernel.{Inode, Super, Kernel}
use fleurix.Inode.{Store, Pass, iget_pass, iput, i_lock, i_wanted}
use fleurix.Inode.Cache.{Loads, IsUnique, pass-IsUnique}
use fleurix.Inode.Release.{Truncates, Released, iput-Released}
use fleurix.Alloc.{Disk, Outcome, returns, sleeps, panics, ifree}
use fleurix.Content.{
  Fs, Ends, Action, done, asleep, panic as stop, wild, return, Gives, iload, iupdate, iblk,
  inode_of, inode_off,
}
use fleurix.Content.Trunc.{itrunc}
use fleurix.Content.Trunc.Counts.{Counts, itrunc-Counts}

-- A value, or none: a wait for a held block and a wild store are ends here, as a panic is.
abbrev pub run : {A : Type 0} → Ends A → Result (Fs × A)
run (done t a) = ok (t, a)
run (asleep b) = panic
run stop = panic
run wild = panic

abbrev pub disk_of : Outcome (Unit {0}) → Result Disk
disk_of (returns d _) = ok d
disk_of (sleeps b) = panic
disk_of panics = panic

module _ (sp : Super) (failed : ℕ → Bool) (close : Disk → ℕ → ℕ → Disk) where
  abbrev pub disk_store : Store
  disk_store = record {
    State = Disk;
    iload = λ d ip. run (iload sp failed (record { disk = d; ip = ip })) >>= λ o. ok o.0.ip;
    iupdate = λ d ip. run (iupdate sp failed (record { disk = d; ip = ip })) >>= λ o. ok o.0.disk;
    itrunc = λ d ip.
        run (itrunc sp failed (record { disk = d; ip = ip })) >>= λ o. ok (o.0.disk, o.0.ip);
    ifree = λ d dev num. disk_of (ifree sp num d);
    close = close;
  }

  iload-loads :
      (d : Disk) (ip ip' : Inode)
      → disk_store.iload d ip ≡ ok ip'
      → ip' ≡ inode_of ip (d.block (iblk sp ip.num)) (inode_off ip.num)
  unfolding iload
  iload-loads d ip ip' e = elim (Bool-cases (d.held (iblk sp ip.num))) [
    | inl busy ↦ let r : disk_store.iload d ip ≡ panic = rw busy refl in absurd (cc (r, e))
    | inr free ↦ elim (Bool-cases (failed (iblk sp ip.num))) [
      | inl bad ↦ let r : disk_store.iload d ip ≡ panic = rw (free, bad) refl in absurd (cc (r, e))
      | inr fine ↦
          let r : disk_store.iload d ip
              ≡ ok (inode_of ip (d.block (iblk sp ip.num)) (inode_off ip.num)) =
            rw (free, fine) refl in
          ok-injective (sym e ∙ r)
    ]
  ]

  disk_store-Loads : Loads disk_store
  unfolding inode_of
  disk_store-Loads = record {
    in_core = λ d ip ip' e. let same = iload-loads d ip ip' e in rw same (refl, refl, refl, refl);
  }

  run-Gives :
      {A : Type 0} (P : Fs → A → Type 0) (r : Ends A) (out : Fs × A)
      → run r ≡ ok out
      → Gives P r
      → P out.0 out.1
  run-Gives {A} P (done t a) out e p = subst (λ (o : Fs × A). P o.0 o.1) (ok-injective e) p
  run-Gives {A} P (asleep b) out e p = absurd (cc e)
  run-Gives {A} P stop out e p = absurd (cc e)
  run-Gives {A} P wild out e p = absurd (cc e)

  disk_store-Truncates : Truncates disk_store
  disk_store-Truncates d ip out e =
      let s : Fs = record { disk = d; ip = ip } in
      let b = >>=-eq-ok (run (itrunc sp failed s)) _ e in
      sym (ap (λ (o : Disk × Inode). o.1.count) (ok-injective b.2))
      ∙ run-Gives (λ t _. t.ip.count ≡ ip.count) (itrunc sp failed s) b.0 b.1
          (itrunc-Counts sp failed s)

  -- One pass of `iget` that does not stop the machine or wait for a block, over the disk of one file
  -- system, keeps the cache free of duplicates: no two slots hold the same inode of the same device.
  pub iget_pass-IsUnique :
      (d : Disk) (k : Kernel) (dev num : ℕ) (out : Kernel × Pass)
      → IsUnique k.inode
      → iget_pass disk_store d k dev num ≡ ok out
      → IsUnique out.0.inode
  iget_pass-IsUnique = pass-IsUnique disk_store disk_store-Loads

  -- `iput` of a slot that does not stop the machine or wait for a block, over the disk of one file
  -- system, drops one reference and keeps the identity of the inode, or, at the last one, leaves the
  -- slot without a number and without references, free for `iget`; either way it leaves the slot
  -- unlocked with nobody marked as waiting for it, and changes no other slot.
  pub iput_lem :
      (chan : ℕ → ℕ) (d d' : Disk) (k k' : Kernel) (i : ℕ)
      → iput disk_store chan d k (some i) ≡ ok (d', k')
      → Released k i k'
        × ((bit i_lock (k'.inode i).flag ≡ 0)
            × (bit i_wanted (k'.inode i).flag ≡ 0)
            × ((j : ℕ) → j ≢ i → k'.inode j ≡ k.inode j))
  iput_lem = iput-Released disk_store disk_store-Truncates
