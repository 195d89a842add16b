-- ===== src/Inode/Release.antt =====
-- Releasing an inode.
use fleurix.Base.{
  ℕ, ◌+◌, ◌-◌, ◌<◌, ◌≤◌, ◌≡◌, ◌≢◌, refl, sym, ap, ◌∙◌, inl, inr, true, false, ◌==◌, if◌then◌else◌,
  bit_and, arith, Bool-cases, some,
}
use fleurix.Base.Bits.{bit, bit-clear, has_bit, all_but}
use fleurix.Base.Loops.{update}
use fleurix.Base.Result.{Result, ok, ◌>>=◌, ok-injective, >>=-eq-ok}
use fleurix.Kernel.{Inode, Kernel, set_inode}
use fleurix.Sched.Wakeup.{wakeup_lem}
use fleurix.Inode.{
  Store, drop_inode, forget, close_special, iput, unlk_ino, unlocked, let_go, i_lock, i_wanted,
}

unlk_inodes :
    (chan : ℕ → ℕ) (k : Kernel) (i : ℕ)
    → (unlk_ino chan k i).inode ≡ update k.inode i (unlocked (k.inode i))
unfolding unlk_ino unlocked
unlk_inodes chan k i = elim (Bool-cases (has_bit (k.inode i).flag i_wanted)) [
  | inl wanted ↦ rw (wanted, (wakeup_lem (chan i) k).3)
  | inr alone ↦ rw alone
]

unlocked-flags :
    (ip : Inode) → (bit i_lock (unlocked ip).flag ≡ 0) × (bit i_wanted (unlocked ip).flag ≡ 0)
unfolding unlocked
unlocked-flags ip = (
  ground (
    arith,
    bit-clear 32 0 1 (bit_and ip.flag (all_but 32 0)) (omega arith) (omega arith),
    bit-clear 32 0 0 ip.flag (omega arith) (omega arith),
  ),
  ground (arith, bit-clear 32 1 1 (bit_and ip.flag (all_but 32 0)) (omega arith) (omega arith)),
)

-- Truncating a file leaves the count of its inode alone.
abbrev pub Truncates : Store → Type 0
Truncates d =
    (s : d.State) (ip : Inode) (out : d.State × Inode)
    → d.itrunc s ip ≡ ok out
    → out.1.count ≡ ip.count

forget-eq :
    (d : Store) (s : d.State) (ip : Inode)
    → forget d s ip ≡ (d.itrunc s ip >>= λ o. d.ifree o.0 o.1.dev o.1.num >>= λ s2. ok (s2, o.1))
unfolding forget
forget-eq d s ip = refl

forget-count :
    (d : Store)
    → Truncates d
    → (s : d.State) (ip : Inode) (out : d.State × Inode)
    → (if ip.nlink == 0 then forget d s ip else ok (s, ip)) ≡ ok out
    → out.1.count ≡ ip.count
forget-count d keep s ip out e = elim (Bool-cases (ip.nlink == 0)) [
  | inr linked ↦
      let r : ◌≡◌ {A = Result (d.State × Inode)} (ok (s, ip)) (ok out) = sym (rw linked refl) ∙ e in
      sym (ap (λ (o : d.State × Inode). o.1.count) (ok-injective r))
  | inl gone ↦
      let r : forget d s ip ≡ ok out = sym (rw gone refl) ∙ e in
      let b = >>=-eq-ok (d.itrunc s ip) _ (sym (forget-eq d s ip) ∙ r) in
      let c = >>=-eq-ok (d.ifree b.0.0 b.0.1.dev b.0.1.num) _ b.2 in
      sym (ap (λ (o : d.State × Inode). o.1.count) (ok-injective c.2)) ∙ keep s ip b.0 b.1
]

drop_inode-num :
    (d : Store)
    → Truncates d
    → (s : d.State) (ip : Inode) (out : d.State × Inode) → drop_inode d s ip ≡ ok out
    → (out.1.num ≡ 0) × (out.1.flag ≡ 0) × (out.1.count ≡ ip.count)
unfolding drop_inode
drop_inode-num d keep s ip out e =
    let b = >>=-eq-ok (if ip.nlink == 0 then forget d s ip else ok (s, ip)) _ e in
    let c = >>=-eq-ok (d.iupdate (close_special d b.0.0 b.0.1) b.0.1) _ b.2 in
    let r = ok-injective c.2 in
    (
      sym (ap (λ (o : d.State × Inode). o.1.num) r),
      sym (ap (λ (o : d.State × Inode). o.1.flag) r),
      sym (ap (λ (o : d.State × Inode). o.1.count) r) ∙ forget-count d keep s ip b.0 b.1,
    )

pub iput-last :
    (d : Store) (chan : ℕ → ℕ) (s : d.State) (k : Kernel) (i : ℕ)
    → ((k.inode i).count - 1 == 0) ≡ true
    → iput d chan s k (some i) ≡ (
        drop_inode d s (let_go (k.inode i)) >>= λ o.
        ok (o.0, unlk_ino chan (set_inode (set_inode k i (let_go (k.inode i))) i o.1) i))
unfolding iput
iput-last d chan s k i e = rw e

pub iput-more :
    (d : Store) (chan : ℕ → ℕ) (s : d.State) (k : Kernel) (i : ℕ)
    → ((k.inode i).count - 1 == 0) ≡ false
    → iput d chan s k (some i) ≡ ok (s, unlk_ino chan (set_inode k i (let_go (k.inode i))) i)
unfolding iput
iput-more d chan s k i e = rw e

-- What `unlk_ino` at the end leaves.
settled :
    (chan : ℕ → ℕ) (k mid k' : Kernel) (i : ℕ)
    → ((j : ℕ) → j ≢ i → mid.inode j ≡ k.inode j)
    → k' ≡ unlk_ino chan mid i
    → (((k'.inode i).count ≡ (mid.inode i).count)
        × ((k'.inode i).dev ≡ (mid.inode i).dev)
        × ((k'.inode i).num ≡ (mid.inode i).num))
      × ((bit i_lock (k'.inode i).flag ≡ 0)
          × (bit i_wanted (k'.inode i).flag ≡ 0)
          × ((j : ℕ) → j ≢ i → k'.inode j ≡ k.inode j))
settled chan k mid k' i same e =
    let t : k'.inode ≡ update mid.inode i (unlocked (mid.inode i)) =
      ap (λ (o : Kernel). o.inode) e ∙ unlk_inodes chan mid i in
    let at : k'.inode i ≡ unlocked (mid.inode i) = ap (λ (f : ℕ → Inode). f i) t ∙ ground arith in
    let off = unlocked-flags (mid.inode i) in
    (
      unfold unlocked in ground (arith, at),
      (rw at off.0, rw at off.1, λ j ne. ap (λ (f : ℕ → Inode). f j) t ∙ ground (arith, same j)),
    )

-- What a release that does not stop the machine leaves of the inode: one reference less and its
-- identity, or, at the last one, a slot of no inode and no reference; unlocked either way.
pub data Released (k : Kernel) (i : ℕ) (k' : Kernel) : Type 0 where
  kept :
      1 < (k.inode i).count
      → ((k'.inode i).count + 1 ≡ (k.inode i).count)
        × ((k'.inode i).dev ≡ (k.inode i).dev)
        × ((k'.inode i).num ≡ (k.inode i).num)
      → Released k i k'
  emptied : (k.inode i).count ≤ 1 → (k'.inode i).num ≡ 0 → (k'.inode i).count ≡ 0 → Released k i k'

-- Every end of `iput` that does not stop the machine, over a disk that keeps the counts.
pub iput-Released :
    (d : Store)
    → Truncates d
    → (chan : ℕ → ℕ) (s s' : d.State) (k k' : Kernel) (i : ℕ)
    → iput d chan s k (some i) ≡ ok (s', k')
    → Released k i k'
      × ((bit i_lock (k'.inode i).flag ≡ 0)
          × (bit i_wanted (k'.inode i).flag ≡ 0)
          × ((j : ℕ) → j ≢ i → k'.inode j ≡ k.inode j))
iput-Released d keep chan s s' k k' i e = elim (Bool-cases ((k.inode i).count - 1 == 0)) [
  | inl last ↦
      let b =
        >>=-eq-ok (drop_inode d s (let_go (k.inode i))) _ (sym (iput-last d chan s k i last) ∙ e) in
      let num = drop_inode-num d keep s (let_go (k.inode i)) b.0 b.1 in
      let set2 : Kernel = set_inode (set_inode k i (let_go (k.inode i))) i b.0.1 in
      let f =
        settled chan k set2 k' i (λ j ne. ground arith)
          (sym (ap (λ (o : d.State × Kernel). o.1) (ok-injective b.2))) in
      (emptied (ground arith) (ground (arith, f.0, num)) (ground (arith, f.0, num, last)), f.1)
  | inr more ↦
      let set1 : Kernel = set_inode k i (let_go (k.inode i)) in
      let f =
        settled chan k set1 k' i (λ j ne. ground arith)
          (sym (
            ap (λ (o : d.State × Kernel). o.1)
              (ok-injective (sym (iput-more d chan s k i more) ∙ e)))) in
      (kept (ground arith) (ground (arith, f.0, more)), f.1)
]
