-- ===== src/Content/Inodes.antt =====
-- iload and iupdate of src/fs/inode.c: an inode and its 32 bytes on the disk.
use fleurix.Base.{
  ℕ, ◌+◌, ◌-◌, ◌*◌, ◌/◌, ◌%◌, ◌^◌, ◌≤◌, ◌<◌, ◌≡◌, ◌≢◌, ◌⊎◌, refl, sym, ap, ◌∙◌, Bool, true, false,
  ◌&&◌, ltb, leb, ◌==◌, if◌then◌else◌, inl, inr, Bool-cases, arith,
}
use mathlib.Core.Path.{fun_ext}
use fleurix.Base.Word.{u32}
use fleurix.Base.Loops.{update}
use fleurix.Kernel.{Inode, Super}
use fleurix.Alloc.{Disk}
use fleurix.Content.{
  Fs, done, half_at, word_at, byte, splice, inode_byte, inode_of, iblk, inode_off, cleaned, iload,
  iupdate,
}

-- The fields are within their types.
pub record Fits (ip : Inode) : Type 0 where
  pub mode : ip.mode < 2 ^ 16
  pub uid : ip.uid < 2 ^ 16
  pub size : ip.size < 2 ^ 32
  pub mtime : ip.mtime < 2 ^ 32
  pub gid : ip.gid < 2 ^ 8
  pub nlink : ip.nlink < 2 ^ 8
  pub zones : (k : ℕ) → k < 9 → ip.zone k < 2 ^ 16

-- `old` with the fields of `ip` that the disk keeps.
abbrev pub kept_part : Inode → Inode → Inode
kept_part ip old = record old {
  mode = ip.mode;
  uid = ip.uid;
  size = ip.size;
  mtime = ip.mtime;
  gid = ip.gid;
  nlink = ip.nlink;
  zone = λ k. if ltb k 9 then ip.zone k else old.zone k;
}

module _ (bytes : ℕ → ℕ) (at n : ℕ) (new : ℕ → ℕ) where
  splice-in : (k : ℕ) → k < n → splice bytes at n new (at + k) ≡ new k
  splice-in k h =
      let hit : (leb at (at + k) && ltb (at + k) (at + n)) ≡ true = ground (arith, h) in
      rw hit (ap new (omega arith))

  half_at-splice :
      (i k : ℕ) → i ≡ at + k → k + 1 < n → half_at (splice bytes at n new) i ≡ half_at new k
  half_at-splice i k e h =
      let next : i + 1 ≡ at + (k + 1) = omega arith in
      let low = ap (splice bytes at n new) e ∙ splice-in k (omega arith) in
      let high = ap (splice bytes at n new) next ∙ splice-in (k + 1) h in omega (arith, low, high)

  word_at-splice :
      (i k : ℕ) → i ≡ at + k → k + 3 < n → word_at (splice bytes at n new) i ≡ word_at new k
  word_at-splice i k e h = omega (
    arith,
    half_at-splice i k e (omega arith),
    half_at-splice (i + 2) (k + 2) (omega arith) (omega arith),
  )

-- The bytes of the fields.
zone_bytes :
    (ip : Inode) (k : ℕ)
    → ip.zone k < 2 ^ 16
    → k < 9
    → half_at (inode_byte ip) (14 + 2 * k) ≡ ip.zone k
unfolding inode_byte
zone_bytes ip k small h =
    let low : inode_byte ip (14 + 2 * k) ≡ ip.zone k % 256 =
      let which : (14 + 2 * k - 14) / 2 ≡ k = omega arith in
      let side : (14 + 2 * k - 14) % 2 ≡ 0 = omega arith in
      late (14 + 2 * k) (omega arith) ∙ rw (which, side) refl in
    let high : inode_byte ip (14 + 2 * k + 1) ≡ ip.zone k / 256 % 256 =
      let which : (14 + 2 * k + 1 - 14) / 2 ≡ k = omega arith in
      let side : (14 + 2 * k + 1 - 14) % 2 ≡ 1 = omega arith in
      late (14 + 2 * k + 1) (omega arith) ∙ rw (which, side) refl in
    omega (arith, low, high, small)
  where
    late : (j : ℕ) → 14 ≤ j → inode_byte ip j ≡ byte ((j - 14) % 2) (ip.zone ((j - 14) / 2))
    late j h = ground (arith, h)

-- What was written is read back.
inode_of-splice :
    (ip old : Inode) (bytes : ℕ → ℕ) (at : ℕ)
    → Fits ip
    → inode_of old (splice bytes at 32 (inode_byte ip)) at ≡ kept_part ip old
unfolding inode_of inode_byte
inode_of-splice ip old bytes at f =
    let new = inode_byte ip in
    let data' = splice bytes at 32 new in
    let mode : half_at data' at ≡ ip.mode =
      half_at-splice bytes at 32 new at 0 (omega arith) (omega arith) ∙ omega (arith, f.mode) in
    let uid : half_at data' (at + 2) ≡ ip.uid =
      half_at-splice bytes at 32 new (at + 2) 2 refl (omega arith) ∙ omega (arith, f.uid) in
    let size : word_at data' (at + 4) ≡ ip.size =
      word_at-splice bytes at 32 new (at + 4) 4 refl (omega arith) ∙ omega (arith, f.size) in
    let mtime : word_at data' (at + 8) ≡ ip.mtime =
      word_at-splice bytes at 32 new (at + 8) 8 refl (omega arith) ∙ omega (arith, f.mtime) in
    let gid : data' (at + 12) ≡ ip.gid =
      splice-in bytes at 32 new 12 (omega arith) ∙ omega (arith, f.gid) in
    let nlink : data' (at + 13) ≡ ip.nlink =
      splice-in bytes at 32 new 13 (omega arith) ∙ omega (arith, f.nlink) in
    let zone : (k : ℕ)
        → (if ltb k 9 then half_at data' (at + 14 + 2 * k) else old.zone k)
          ≡ (if ltb k 9 then ip.zone k else old.zone k) =
      λ k. elim (Bool-cases (ltb k 9)) [
        | inl first ↦
            let lt : k < 9 = ground arith in
            rw first (
              half_at-splice bytes at 32 new (at + 14 + 2 * k) (14 + 2 * k) (omega arith)
                (omega arith)
              ∙ zone_bytes ip k (f.zones k lt) lt)
        | inr later ↦ rw later refl
      ] in
    λ i. record old {
      mode = mode i;
      uid = uid i;
      size = size i;
      mtime = mtime i;
      gid = gid i;
      nlink = nlink i;
      zone = fun_ext zone i;
    }

-- An inode is read from 32 bytes.
inode_of_congr :
    (old : Inode) (f g : ℕ → ℕ) (at : ℕ)
    → ((j : ℕ) → j < 32 → f (at + j) ≡ g (at + j))
    → inode_of old f at ≡ inode_of old g at
unfolding inode_of
inode_of_congr old f g at h =
    let one : (i j : ℕ) → i ≡ at + j → j < 32 → f i ≡ g i =
      λ i j e lt. ap f e ∙ h j lt ∙ ap g (sym e) in
    let two : (i j : ℕ) → i ≡ at + j → j + 1 < 32 → half_at f i ≡ half_at g i =
      λ i j e lt. omega (arith, one i j e (omega arith), one (i + 1) (j + 1) (omega arith) lt) in
    let four : (i j : ℕ) → i ≡ at + j → j + 3 < 32 → word_at f i ≡ word_at g i = λ i j e lt.
      omega (arith, two i j e (omega arith), two (i + 2) (j + 2) (omega arith) (omega arith)) in
    let zone : (k : ℕ)
        → (if ltb k 9 then half_at f (at + 14 + 2 * k) else old.zone k)
          ≡ (if ltb k 9 then half_at g (at + 14 + 2 * k) else old.zone k) =
      λ k. elim (Bool-cases (ltb k 9)) [
        | inl first ↦
            let lt : k < 9 = ground arith in
            rw first (two (at + 14 + 2 * k) (14 + 2 * k) (omega arith) (omega arith))
        | inr later ↦ rw later refl
      ] in
    λ i. record old {
      mode = two at 0 (omega arith) (omega arith) i;
      uid = two (at + 2) 2 refl (omega arith) i;
      size = four (at + 4) 4 refl (omega arith) i;
      mtime = four (at + 8) 8 refl (omega arith) i;
      gid = one (at + 12) 12 refl (omega arith) i;
      nlink = one (at + 13) 13 refl (omega arith) i;
      zone = fun_ext zone i;
    }

-- The places of two inodes of one block do not overlap.
slots_apart :
    (m n : ℕ)
    → 0 < m
    → 0 < n
    → m < 2 ^ 32
    → n < 2 ^ 32
    → m ≢ n
    → u32 (m + 2 ^ 32 - 1) / 32 ≡ u32 (n + 2 ^ 32 - 1) / 32
    → (inode_off m + 32 ≤ inode_off n) ⊎ (inode_off n + 32 ≤ inode_off m)
slots_apart m n hm hn wm wn ne e = elim (Bool-cases (ltb (inode_off m) (inode_off n))) [
  | inl less ↦ inl (ground (arith, less))
  | inr more ↦ inr (ground (arith, more, ne, e))
]

splice_out :
    (bytes : ℕ → ℕ) (at n : ℕ) (new : ℕ → ℕ) (i : ℕ)
    → (i < at) ⊎ (at + n ≤ i)
    → splice bytes at n new i ≡ bytes i
splice_out bytes at n new i (inl before) = ground arith
splice_out bytes at n new i (inr behind) = ground arith

iload-loads :
    (sp : Super) (failed : ℕ → Bool) (d : Disk) (old : Inode)
    → d.held (iblk sp old.num) ≡ false
    → failed (iblk sp old.num) ≡ false
    → iload sp failed (record { disk = d; ip = old })
      ≡ done
          (record { disk = d; ip = inode_of old (d.block (iblk sp old.num)) (inode_off old.num) })
          tt
unfolding iload
iload-loads sp failed d old free fine = rw (free, fine) refl

-- What stands at another number, when an inode was written into its block.
other_loads :
    (sp : Super) (block : ℕ → ℕ → ℕ) (ip old : Inode)
    → 0 < ip.num
    → ip.num < 2 ^ 32
    → 0 < old.num
    → old.num < 2 ^ 32
    → old.num ≢ ip.num
    → let b = iblk sp ip.num in
      let new = splice (block b) (inode_off ip.num) 32 (inode_byte ip) in
      inode_of old (update block b new (iblk sp old.num)) (inode_off old.num)
      ≡ inode_of old (block (iblk sp old.num)) (inode_off old.num)
other_loads sp block ip old some_ip small some_old narrow ne =
    let b = iblk sp ip.num in
    let at = inode_off old.num in
    elim (Bool-cases (b == iblk sp old.num)) [
      | inl shared ↦
          let e : b ≡ iblk sp old.num = ground (arith, shared) in
          let row : u32 (old.num + 2 ^ 32 - 1) / 32 ≡ u32 (ip.num + 2 ^ 32 - 1) / 32 =
            omega (arith, e) in
          rw shared (
            inode_of_congr old (splice (block b) (inode_off ip.num) 32 (inode_byte ip)) (block b) at
              (λ j lt.
                splice_out (block b) (inode_off ip.num) 32 (inode_byte ip) (at + j)
                  (place (slots_apart old.num ip.num some_old some_ip narrow small ne row) j lt))
            ∙ ap (λ (c : ℕ). inode_of old (block c) at) e)
      | inr other ↦ rw other refl
    ]
  where
    place :
        (inode_off old.num + 32 ≤ inode_off ip.num) ⊎ (inode_off ip.num + 32 ≤ inode_off old.num)
        → (j : ℕ) → j < 32
        → (inode_off old.num + j < inode_off ip.num)
          ⊎ (inode_off ip.num + 32 ≤ inode_off old.num + j)
    place (inl before) j lt = inl (omega arith)
    place (inr behind) j lt = inr (omega arith)

-- `iupdate` of an inode whose fields are within their types, while no block at all is held and every
-- block can be read without an error, ends, and only clears I_DIRTY in core. From then on `iload` of the number of that
-- inode restores its fields, whatever stood in core, and `iload` of any other number of the file
-- system loads what it loaded before.
pub iload-iupdate :
    (sp : Super) (failed : ℕ → Bool) (s : Fs)
    → Fits s.ip
    → 0 < s.ip.num
    → s.ip.num < 2 ^ 32
    → ((b : ℕ) → s.disk.held b ≡ false)
    → ((b : ℕ) → failed b ≡ false)
    → (d : Disk) × (iupdate sp failed s ≡ done (record { disk = d; ip = cleaned s.ip }) tt)
      × ((old : Inode)
          → old.num ≡ s.ip.num
          → iload sp failed (record { disk = d; ip = old })
            ≡ done (record { disk = d; ip = kept_part s.ip old }) tt)
      × ((old : Inode)
          → 0 < old.num
          → old.num < 2 ^ 32
          → old.num ≢ s.ip.num
          → (ip : Inode) × (iload sp failed (record { disk = s.disk; ip = old })
              ≡ done (record { disk = s.disk; ip = ip }) tt)
            × (iload sp failed (record { disk = d; ip = old })
                ≡ done (record { disk = d; ip = ip }) tt))
unfolding iupdate
iload-iupdate sp failed s f some_num small free fine =
    let b = iblk sp s.ip.num in
    let at = inode_off s.ip.num in
    let new = splice (s.disk.block b) at 32 (inode_byte s.ip) in
    let d : Disk = record {
      block = update s.disk.block b new;
      held = update s.disk.held b false;
    } in
    let still : (c : ℕ) → d.held c ≡ false = λ c. ground (arith, free c) in
    let back = λ (old : Inode).
      iload-loads sp failed d old (still (iblk sp old.num)) (fine (iblk sp old.num)) in
    let self : (b == b) ≡ true = ground arith in
    let wrote : d.block b ≡ new = rw self refl in
    (
      d,
      rw (free b, fine b) refl,
      λ old e.
          back old
          ∙ ap (λ ip. done (record { disk = d; ip = ip }) tt)
              (ap (λ (n : ℕ). inode_of old (d.block (iblk sp n)) (inode_off n)) e
                ∙ ap (λ (c : ℕ → ℕ). inode_of old c at) wrote
                ∙ inode_of-splice s.ip old (s.disk.block b) at f),
      λ old pos lt ne. (
        inode_of old (s.disk.block (iblk sp old.num)) (inode_off old.num),
        iload-loads sp failed s.disk old (free (iblk sp old.num)) (fine (iblk sp old.num)),
        back old
            ∙ ap (λ ip. done (record { disk = d; ip = ip }) tt)
                (other_loads sp s.disk.block s.ip old some_num small pos lt ne),
      ),
    )
