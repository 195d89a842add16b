-- ===== src/Inode/Cache.antt =====
-- The cache never holds one inode of the disk twice, and `iget` hands out only locked inodes.
use fleurix.Base.{
  ℕ, ◌+◌, ◌<◌, ◌≡◌, ◌≢◌, refl, sym, ◌∙◌, subst, inl, inr, ◌⊎◌, true, false, ◌&&◌, ◌==◌, arith,
  Bool-cases, none, some, Option-cases,
}
use fleurix.Base.Bits.{bit-set, has_bit, has_bit-eq}
use fleurix.Base.Word.{u16}
use fleurix.Base.Loops.{find_first, find_first-some, find_first-none, update}
use fleurix.Base.Result.{ok, ◌>>=◌, ok-injective, >>=-eq-ok}
use fleurix.Kernel.{Inode, Kernel, ninode, nmount, rootino, set_inode}
use fleurix.Inode.{
  Store, Pass, got, waits, again, overflow, holds, is_mount_of, take_cached, hit, miss, iget_pass,
  claimed, add_flag, i_lock, i_wanted, i_mount,
}

-- Two slots never hold the same inode of the same device.
abbrev pub IsUnique : (ℕ → Inode) → Type 0
IsUnique t =
    (i j : ℕ)
    → i < ninode
    → j < ninode
    → (t i).num ≢ 0
    → (t i).dev ≡ (t j).dev
    → (t i).num ≡ (t j).num
    → i ≡ j

-- The disk fills an inode's own fields, and leaves those that lie in core alone.
pub record Loads (d : Store) : Type 0 where
  pub in_core :
      (s : d.State) (ip ip' : Inode)
      → d.iload s ip ≡ ok ip'
      → (ip'.dev ≡ ip.dev) × (ip'.num ≡ ip.num) × (ip'.flag ≡ ip.flag) × (ip'.count ≡ ip.count)

-- A write to a slot that keeps the identity of the inode there.
pub IsUnique-same :
    (t : ℕ → Inode) (i : ℕ) (v : Inode)
    → v.dev ≡ (t i).dev
    → v.num ≡ (t i).num
    → IsUnique t
    → IsUnique (update t i v)
IsUnique-same t i v ed en u a b la lb nz dd nn =
    u a b la lb (ground arith) (ground arith) (ground arith)

-- A slot may be emptied.
pub IsUnique-clear :
    (t : ℕ → Inode) (i : ℕ) (v : Inode) → v.num ≡ 0 → IsUnique t → IsUnique (update t i v)
IsUnique-clear t i v e u a b la lb nz dd nn = ground (arith, u a b la lb)

-- A slot may take an inode that no slot holds.
IsUnique-fresh :
    (t : ℕ → Inode) (i : ℕ) (v : Inode)
    → ((j : ℕ) → j < ninode → ((t j).dev == v.dev && (t j).num == v.num) ≡ false)
    → IsUnique t
    → IsUnique (update t i v)
IsUnique-fresh t i v h u a b la lb nz dd nn = ground (arith, u a b la lb, h a la, h b lb)

-- Slot `i` holds inode `num` of device `dev`.
abbrev pub Here : Kernel → ℕ → ℕ → ℕ → Type 0
Here k dev num i = ((k.inode i).dev ≡ dev) × ((k.inode i).num ≡ num)

-- No file system is mounted on the inode in slot `i`.
abbrev pub Plain : Kernel → ℕ → Type 0
Plain k i =
    has_bit (k.inode i).flag i_mount ≡ true → (m : ℕ) → m < nmount → is_mount_of k i m ≡ false

-- What one pass of `iget` for inode `num` of device `dev` did.
pub data Passed (k : Kernel) (dev num : ℕ) : Kernel × Pass → Type 0 where
  takes :
      (k' : Kernel) (i : ℕ)
      → i < ninode
      → (Here k dev num i × (has_bit (k.inode i).flag i_lock ≡ false) × Plain k i)
        ⊎ (((k.inode i).count ≡ 0) × ((j : ℕ) → j < ninode → Here k dev num j → ⊥))
      → ((k'.inode i).dev ≡ dev) × ((k'.inode i).num ≡ num)
      → has_bit (k'.inode i).flag i_lock ≡ true
      → (k'.inode i).count ≡ u16 ((k.inode i).count + 1)
      → ((j : ℕ) → j ≢ i → k'.inode j ≡ k.inode j)
      → Passed k dev num (k', got i)
  sleeps :
      (k' : Kernel) (i : ℕ)
      → i < ninode
      → Here k dev num i
      → has_bit (k.inode i).flag i_lock ≡ true
      → has_bit (k'.inode i).flag i_wanted ≡ true
      → ((j : ℕ) → j ≢ i → k'.inode j ≡ k.inode j)
      → Passed k dev num (k', waits i)
  redirects :
      (i m : ℕ)
      → i < ninode
      → Here k dev num i
      → has_bit (k.inode i).flag i_lock ≡ false
      → has_bit (k.inode i).flag i_mount ≡ true
      → m < nmount
      → is_mount_of k i m ≡ true
      → Passed k dev num (k, again (k.mnt m).dev rootino)
  full :
      ((i : ℕ) → i < ninode → (k.inode i).count ≢ 0)
      → ((j : ℕ) → j < ninode → Here k dev num j → ⊥)
      → Passed k dev num (k, overflow)

has_bit-add : (f b : ℕ) → has_bit (add_flag f b) b ≡ true
has_bit-add f b = ground (arith, has_bit-eq (add_flag f b) b, bit-set b b f)

take_cached-Passed :
    (k : Kernel) (dev num i : ℕ)
    → i < ninode
    → holds k dev num i ≡ true
    → has_bit (k.inode i).flag i_lock ≡ false
    → Plain k i
    → Passed k dev num (take_cached k i)
unfolding take_cached
take_cached-Passed k dev num i lt h free plain =
    takes (set_inode k i _) i lt (inl ((ground arith, ground arith), free, plain))
      (ground arith, ground arith) (ground (arith, has_bit-add (k.inode i).flag i_lock))
      (ground arith) (λ j ne. ground arith)

hit-Passed :
    (k : Kernel) (dev num i : ℕ)
    → i < ninode
    → holds k dev num i ≡ true
    → Passed k dev num (hit k i)
hit-Passed k dev num i lt h = elim (Bool-cases (has_bit (k.inode i).flag i_lock)) [
  | inl locked ↦
      let e : hit k i ≡ (
        set_inode k i (record (k.inode i) { flag = add_flag (k.inode i).flag i_wanted }),
        waits i,
      ) =
        unfold hit in rw locked in
      rw e (
        sleeps _ i lt (ground (arith, h), ground (arith, h)) locked
          (ground (arith, has_bit-add (k.inode i).flag i_wanted)) (λ j ne. ground arith))
  | inr free ↦ elim (Bool-cases (has_bit (k.inode i).flag i_mount)) [
    | inr plain ↦
        let e : hit k i ≡ take_cached k i = unfold hit in rw (free, plain) in
        rw e (take_cached-Passed k dev num i lt h free (λ on. absurd (cc (on, plain))))
    | inl mounted ↦ elim (Option-cases (find_first nmount 0 (is_mount_of k i))) [
      | inl none_ ↦
          let e : hit k i ≡ take_cached k i = unfold hit in rw (free, mounted, none_) in
          rw e (
            take_cached-Passed k dev num i lt h free
              (λ on m l. find_first-none nmount 0 (is_mount_of k i) none_ m (omega arith) l))
      | inr (m, found) ↦
          let e : hit k i ≡ (k, again (k.mnt m).dev rootino) =
            unfold hit in rw (free, mounted, found) in
          let f = find_first-some nmount 0 (is_mount_of k i) m found in
          rw e (redirects i m lt (ground (arith, h), ground (arith, h)) free mounted f.1 f.2)
    ]
  ]
]

hit-IsUnique : (k : Kernel) (i : ℕ) → IsUnique k.inode → IsUnique (hit k i).0.inode
hit-IsUnique k i u = elim (Bool-cases (has_bit (k.inode i).flag i_lock)) [
  | inl locked ↦ unfold hit in rw locked (IsUnique-same k.inode i _ refl refl u)
  | inr free ↦ elim (Bool-cases (has_bit (k.inode i).flag i_mount)) [
    | inr plain ↦ unfold hit take_cached in rw (free, plain) (IsUnique-same k.inode i _ refl refl u)
    | inl mounted ↦ elim (Option-cases (find_first nmount 0 (is_mount_of k i))) [
      | inl none_ ↦
          unfold hit take_cached in
          rw (free, mounted, none_) (IsUnique-same k.inode i _ refl refl u)
      | inr (m, found) ↦ unfold hit in rw (free, mounted, found) u
    ]
  ]
]

module _ (d : Store) where
  miss-full :
      (s : d.State) (k : Kernel) (dev num : ℕ)
      → find_first ninode 0 (λ i. (k.inode i).count == 0) ≡ none
      → miss d s k dev num ≡ ok (k, overflow)
  unfolding miss
  miss-full s k dev num e = rw (e, miss)

  miss-free :
      (s : d.State) (k : Kernel) (dev num i : ℕ)
      → find_first ninode 0 (λ i. (k.inode i).count == 0) ≡ some i
      → miss d s k dev num
        ≡ (d.iload s (claimed (k.inode i) dev num) >>= λ ip. ok (set_inode k i ip, got i))
  unfolding miss
  miss-free s k dev num i e = rw (e, miss)

  pass-hit :
      (s : d.State) (k : Kernel) (dev num i : ℕ)
      → find_first ninode 0 (holds k dev num) ≡ some i
      → iget_pass d s k dev num ≡ ok (hit k i)
  unfolding iget_pass
  pass-hit s k dev num i e = rw (e, iget_pass)

  pass-miss :
      (s : d.State) (k : Kernel) (dev num : ℕ)
      → find_first ninode 0 (holds k dev num) ≡ none
      → iget_pass d s k dev num ≡ miss d s k dev num
  unfolding iget_pass
  pass-miss s k dev num e = rw (e, iget_pass)

  -- An inode in no slot is loaded into the first slot without references.
  pub pass-load :
      (s : d.State) (k : Kernel) (dev num i : ℕ)
      → find_first ninode 0 (holds k dev num) ≡ none
      → find_first ninode 0 (λ j. (k.inode j).count == 0) ≡ some i
      → iget_pass d s k dev num
        ≡ (d.iload s (claimed (k.inode i) dev num) >>= λ ip. ok (set_inode k i ip, got i))
  pass-load s k dev num i out free = pass-miss s k dev num out ∙ miss-free s k dev num i free

module _ (d : Store) (loads : Loads d) where
  -- What a claimed and loaded slot holds.
  loaded :
      (s : d.State) (k : Kernel) (dev num i : ℕ) (ip : Inode)
      → d.iload s (claimed (k.inode i) dev num) ≡ ok ip
      → (ip.dev ≡ dev)
        × (ip.num ≡ num)
        × (has_bit ip.flag i_lock ≡ true)
        × (ip.count ≡ u16 ((k.inode i).count + 1))
  loaded s k dev num i ip e =
      let l = loads.in_core s (claimed (k.inode i) dev num) ip e in (l.0, l.1, rw l.2 refl, l.3)

  miss-Passed :
      (s : d.State) (k : Kernel) (dev num : ℕ) (out : Kernel × Pass)
      → ((j : ℕ) → j < ninode → Here k dev num j → ⊥)
      → miss d s k dev num ≡ ok out
      → Passed k dev num out
  miss-Passed s k dev num out absent e =
      elim (Option-cases (find_first ninode 0 (λ i. (k.inode i).count == 0))) [
        | inl none_ ↦
            let r : (k, overflow) ≡ out = ok-injective (sym (miss-full d s k dev num none_) ∙ e) in
            subst (Passed k dev num) r (
              full
                (λ i lt. ground (
                  arith,
                  find_first-none ninode 0 (λ j. (k.inode j).count == 0) none_ i (omega arith) lt,
                ))
                absent)
        | inr (i, found) ↦
            let f = find_first-some ninode 0 (λ j. (k.inode j).count == 0) i found in
            let b =
              >>=-eq-ok (d.iload s (claimed (k.inode i) dev num)) _
                (sym (miss-free d s k dev num i found) ∙ e) in
            let l = loaded s k dev num i b.0 b.1 in
            subst (Passed k dev num) (ok-injective b.2) (
              takes (set_inode k i b.0) i f.1 (inr (ground (arith, f.2), absent))
                (ground (arith, l), ground (arith, l)) (ground (arith, l)) (ground (arith, l))
                (λ j ne. ground arith))
      ]

  -- Every end of a pass of `iget` that does not stop the machine.
  pub pass-Passed :
      (s : d.State) (k : Kernel) (dev num : ℕ) (out : Kernel × Pass)
      → iget_pass d s k dev num ≡ ok out
      → Passed k dev num out
  pass-Passed s k dev num out e = elim (Option-cases (find_first ninode 0 (holds k dev num))) [
    | inl none_ ↦
        miss-Passed s k dev num out
          (λ j lt here.
            ground
              (arith, here, find_first-none ninode 0 (holds k dev num) none_ j (omega arith) lt))
          (sym (pass-miss d s k dev num none_) ∙ e)
    | inr (i, found) ↦
        let f = find_first-some ninode 0 (holds k dev num) i found in
        subst (Passed k dev num) (ok-injective (sym (pass-hit d s k dev num i found) ∙ e))
          (hit-Passed k dev num i f.1 f.2)
  ]

  miss-IsUnique :
      (s : d.State) (k : Kernel) (dev num : ℕ) (out : Kernel × Pass)
      → IsUnique k.inode
      → find_first ninode 0 (holds k dev num) ≡ none
      → miss d s k dev num ≡ ok out
      → IsUnique out.0.inode
  miss-IsUnique s k dev num out u absent e =
      elim (Option-cases (find_first ninode 0 (λ i. (k.inode i).count == 0))) [
        | inl none_ ↦
            let r : (k, overflow) ≡ out = ok-injective (sym (miss-full d s k dev num none_) ∙ e) in
            subst (λ (o : Kernel × Pass). IsUnique o.0.inode) r u
        | inr (i, found) ↦
            let b =
              >>=-eq-ok (d.iload s (claimed (k.inode i) dev num)) _
                (sym (miss-free d s k dev num i found) ∙ e) in
            let l = loaded s k dev num i b.0 b.1 in
            subst (λ (o : Kernel × Pass). IsUnique o.0.inode) (ok-injective b.2)
              (IsUnique-fresh k.inode i b.0
                (λ j lt.
                  rw (l.0, l.1)
                    (find_first-none ninode 0 (holds k dev num) absent j (omega arith) lt))
                u)
      ]

  -- Such a pass keeps the cache free of duplicates.
  pub pass-IsUnique :
      (s : d.State) (k : Kernel) (dev num : ℕ) (out : Kernel × Pass)
      → IsUnique k.inode
      → iget_pass d s k dev num ≡ ok out
      → IsUnique out.0.inode
  pass-IsUnique s k dev num out u e = elim (Option-cases (find_first ninode 0 (holds k dev num))) [
    | inl none_ ↦ miss-IsUnique s k dev num out u none_ (sym (pass-miss d s k dev num none_) ∙ e)
    | inr (i, found) ↦
        subst (λ (o : Kernel × Pass). IsUnique o.0.inode)
          (ok-injective (sym (pass-hit d s k dev num i found) ∙ e)) (hit-IsUnique k i u)
  ]
