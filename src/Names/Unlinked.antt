-- ===== src/Names/Unlinked.antt =====
-- unlink_entry of src/fs/namei.c: the name is not found any more.
use fleurix.Base.{
  ℕ, zero, suc, ◌+◌, ◌-◌, ◌*◌, ◌/◌, ◌^◌, ◌≤◌, ◌<◌, ◌≡◌, ◌≢◌, refl, sym, ap, subst, ◌∙◌, ◌⊎◌, Bool,
  true, false, ◌&&◌, Option, none, some, List, ltb, leb, ◌==◌, if◌then◌else◌, min, bit_and, inl,
  inr, Bool-cases, arith,
}
use fleurix.Kernel.{Inode, Super}
use fleurix.Inode.{s_ifmt}
use fleurix.Mount.{s_ifdir}
use fleurix.Alloc.{Disk, blk}
use fleurix.Content.{Fs, done, >>=-done, return}
use fleurix.Content.Blocks.Lookup.{IsReadable, zone_of, release-hold}
use fleurix.Content.Transfer.Sound.{IsSound, put, zone_of-put, put-IsSound}
use fleurix.Names.{
  namelen, dirent_size, per_block, core, d_ino, d_name, string_at, is_entry, take_ino, search_from,
  find_entry, unlink_entry,
}
use fleurix.Names.Entries.{
  named, find_pair, First, found, missing, find_pair-First, find_pair-congr, used, search_from-used,
  number, at, find_entry-number,
}

-- A string is read from its chars.
string_at_congr :
    (f g : ℕ → ℕ) (i n : ℕ)
    → ((k : ℕ) → i ≤ k → k < i + n → f k ≡ g k)
    → string_at f i n ≡ string_at g i n
unfolding string_at
string_at_congr f g i zero h = refl
string_at_congr f g i (suc n) h =
    let rest = string_at_congr f g (i + 1) n (λ k from to. h k (omega arith) (omega arith)) in
    rw (h i (omega arith) (omega arith), rest) refl

-- A char of the block `z` of which the number of entry `j` was cleared, and one of another block.
cleared_char :
    (behind : ℕ → ℕ → ℕ) (d : Disk) (z j b i : ℕ)
    → (b ≡ z → (i < dirent_size * j) ⊎ (dirent_size * j + 2 ≤ i))
    → core behind (put d z (dirent_size * j) 2 (λ _. 0)) b i ≡ core behind d b i
cleared_char behind d z j b i out = elim (Bool-cases (z == b)) [
  | inr other ↦ rw other refl
  | inl same ↦
      let e : z ≡ b = ground (arith, same) in
      let miss : (leb (dirent_size * j) i && ltb i (dirent_size * j + 2)) ≡ false =
        elim (out (sym e)) [
          | inl before ↦ ground (arith, before)
          | inr after_ ↦ ground (arith, after_)
        ] in
      rw (same, miss) (ap (λ (x : ℕ). if ltb i blk then d.block x i else behind b (i - blk)) e)
]

-- The 32 entries of a block do not read what is behind it.
is_entry_inside :
    (f g : ℕ → ℕ → ℕ) (name : List ℕ) (len : ℕ) (d : Disk) (b k : ℕ)
    → k < blk / dirent_size
    → is_entry name len (core f d b) k ≡ is_entry name len (core g d b) k
unfolding is_entry
is_entry_inside f g name len d b k lt =
    let same : d_name (core f d b) k ≡ d_name (core g d b) k =
      string_at_congr (core f d b) (core g d b) (dirent_size * k + 2) (namelen + 1)
        λ i from to. let low : ltb i blk ≡ true = ground (arith, to, lt) in rw low refl in
    rw same refl

-- The number of an entry is no part of a name.
is_entry_kept :
    (behind : ℕ → ℕ → ℕ) (name : List ℕ) (len : ℕ) (d : Disk) (z j b k : ℕ)
    → is_entry name len (core behind (put d z (dirent_size * j) 2 (λ _. 0)) b) k
      ≡ is_entry name len (core behind d b) k
unfolding is_entry
is_entry_kept behind name len d z j b k =
    let same : d_name (core behind (put d z (dirent_size * j) 2 (λ _. 0)) b) k
        ≡ d_name (core behind d b) k =
      string_at_congr (core behind (put d z (dirent_size * j) 2 (λ _. 0)) b) (core behind d b)
        (dirent_size * k + 2) (namelen + 1)
        λ i from to. cleared_char behind d z j b i (λ _. apart k j i from to) in
    rw same refl
  where
    apart :
        (k j i : ℕ)
        → dirent_size * k + 2 ≤ i
        → i < dirent_size * k + 2 + (namelen + 1)
        → (i < dirent_size * j) ⊎ (dirent_size * j + 2 ≤ i)
    apart k j i from to = ground (arith, from, to)

d_ino_kept :
    (behind : ℕ → ℕ → ℕ) (d : Disk) (z j b k : ℕ)
    → (b ≡ z → j ≢ k)
    → d_ino (core behind (put d z (dirent_size * j) 2 (λ _. 0)) b) k ≡ d_ino (core behind d b) k
d_ino_kept behind d z j b k ne =
    let low = cleared_char behind d z j b (dirent_size * k) (λ e. ground (arith, ne e)) in
    let high = cleared_char behind d z j b (dirent_size * k + 1) (λ e. ground (arith, ne e)) in
    ap
      (λ (x : ℕ).
        x + 256 * core behind (put d z (dirent_size * j) 2 (λ _. 0)) b (dirent_size * k + 1))
      low
    ∙ ap (λ (x : ℕ). core behind d b (dirent_size * k) + 256 * x) high

d_ino_cleared :
    (behind : ℕ → ℕ → ℕ) (d : Disk) (z j : ℕ)
    → j < blk / dirent_size
    → d_ino (core behind (put d z (dirent_size * j) 2 (λ _. 0)) z) j ≡ 0
d_ino_cleared behind d z j lt = ground (arith, lt)

module _ (d : Disk) (ip : Inode) (v : IsSound d ip) (i j : ℕ) (small : i < 2 ^ 16)
    (mapped : zone_of d ip i ≢ 0) where
  abbrev cleared : Disk
  cleared = put d (zone_of d ip i) (dirent_size * j) 2 (λ _. 0)

  zone_at : (a : ℕ) → zone_of cleared ip a ≡ zone_of d ip a
  zone_at a = zone_of-put d ip v i small mapped (dirent_size * j) 2 (λ _. 0) a

  -- No entry changes its name.
  named_kept :
      (behind : ℕ → ℕ → ℕ) (name : List ℕ) (len a k : ℕ)
      → named behind cleared ip name len a k ≡ named behind d ip name len a k
  named_kept behind name len a k =
      ap (λ (z : ℕ). is_entry name (min len namelen) (core behind cleared z) k) (zone_at a)
      ∙ is_entry_kept behind name (min len namelen) d (zone_of d ip i) j (zone_of d ip a) k

  -- No entry changes its number, but the one that was cleared.
  number_kept :
      (behind : ℕ → ℕ → ℕ) (a k : ℕ)
      → a < 2 ^ 16
      → (a ≡ i → j ≢ k)
      → number behind cleared ip (some (a, k)) ≡ number behind d ip (some (a, k))
  number_kept behind a k lt ne =
      ap (λ (z : ℕ). d_ino (core behind cleared z) k) (zone_at a)
      ∙ d_ino_kept behind d (zone_of d ip i) j (zone_of d ip a) k
          (λ e. ne (sym (v.distinct i a small lt (sym e) mapped)))

  number_gone :
      (behind : ℕ → ℕ → ℕ) → j < blk / dirent_size → number behind cleared ip (some (i, j)) ≡ 0
  number_gone behind lt =
      ap (λ (z : ℕ). d_ino (core behind cleared z) j) (zone_at i)
      ∙ d_ino_cleared behind d (zone_of d ip i) j lt

-- What `unlink_entry` does with the entry that it found.
taken :
    (behind : ℕ → ℕ → ℕ) (s : Fs) (i j : ℕ)
    → j < blk / dirent_size
    → IsReadable s.disk s.ip
    → used s (take_ino behind) (some (i, j))
      ≡ done
          (at s (put s.disk (zone_of s.disk s.ip i) (dirent_size * j) 2 (λ _. 0)))
          (number behind s.disk s.ip (some (i, j)))
unfolding take_ino
taken behind s i j lt r =
    let z = zone_of s.disk s.ip i in
    let inside : ltb j (blk / dirent_size) ≡ true = ground (arith, lt) in
    let block' = (put s.disk z (dirent_size * j) 2 (λ _. 0)).block in
    rw inside (
      ap
        (λ (d : Disk).
          done (at s (record d { block = block' })) (number behind s.disk s.ip (some (i, j))))
        (release-hold s.disk z (r.free z)))

-- The directory after the entry at `o` was unlinked, if there is one, as it is read with any bytes
-- behind its blocks.
pub record Unlinked (ip : Inode) (d : Disk) (o : Option (ℕ × ℕ)) (d' : Disk) : Type 0 where
  pub sound : IsSound d' ip
  pub names :
      (behind : ℕ → ℕ → ℕ) (name : List ℕ) (len a k : ℕ)
      → named behind d' ip name len a k ≡ named behind d ip name len a k
  pub gone : (behind : ℕ → ℕ → ℕ) → number behind d' ip o ≡ 0
  pub others :
      (behind : ℕ → ℕ → ℕ) (a k : ℕ)
      → a < 2 ^ 16
      → some (a, k) ≢ o
      → number behind d' ip (some (a, k)) ≡ number behind d ip (some (a, k))

-- The bytes behind the blocks of the directory do not spell the name.
abbrev pub NotBehind : (ℕ → ℕ → ℕ) → Fs → List ℕ → ℕ → Type 0
NotBehind behind s name len =
    (i : ℕ)
    → i < s.ip.size / blk + 1
    → named behind s.disk s.ip name len i (blk / dirent_size) ≡ false

-- The search comes to the entry that was cleared.
not_found :
    (sp : Super) (failed : ℕ → Bool) (behind later : ℕ → ℕ → ℕ) (name : List ℕ) (len : ℕ) (s : Fs)
    (d : Disk)
    → bit_and s.ip.mode s_ifmt ≡ s_ifdir
    → s.ip.size ≤ 2 ^ 26 - 1
    → NotBehind behind s name len
    → NotBehind later s name len
    → Unlinked s.ip s.disk (find_pair (named behind s.disk s.ip name len) (s.ip.size / blk + 1) 0) d
    → find_entry sp failed later name len (at s d) ≡ done (at s d) (some 0)
not_found sp failed behind later name len s d directory small out out' u =
    let n = s.ip.size / blk + 1 in
    find_entry-number sp failed later name len (at s d) directory u.sound.readable small
    ∙ ap (λ (o : Option (ℕ × ℕ)). done (at s d) (some (number later d s.ip o)))
        (find_pair-congr (named later d s.ip name len) (named behind s.disk s.ip name len) n 0
          (λ a k from to lt. u.names later name len a k ∙ same a k (omega (arith, to)) lt))
    ∙ ap (λ (r : ℕ). done (at s d) (some r)) (u.gone later)
  where
    -- The 32 entries of a block do not read what is behind it.
    inside :
        (a k : ℕ)
        → k < blk / dirent_size
        → named later s.disk s.ip name len a k ≡ named behind s.disk s.ip name len a k
    inside a k lt =
        is_entry_inside later behind name (min len namelen) s.disk (zone_of s.disk s.ip a) k lt

    same :
        (a k : ℕ)
        → a < s.ip.size / blk + 1
        → k < per_block
        → named later s.disk s.ip name len a k ≡ named behind s.disk s.ip name len a k
    same a k to lt = elim (Bool-cases (ltb k (blk / dirent_size))) [
      | inl low ↦ inside a k (ground (arith, low))
      | inr last ↦
          let e : k ≡ blk / dirent_size = ground (arith, last, lt) in
          subst
            (λ (x : ℕ).
              named later s.disk s.ip name len a x ≡ named behind s.disk s.ip name len a x)
            (sym e) (out' a to ∙ sym (out a to))
    ]

unlinks :
    (behind : ℕ → ℕ → ℕ) (s : Fs) (name : List ℕ) (len n : ℕ) (o : Option (ℕ × ℕ))
    → IsSound s.disk s.ip
    → n ≤ s.ip.size / blk + 1
    → n ≤ 2 ^ 16
    → ((i : ℕ) → i < n → zone_of s.disk s.ip i ≢ 0)
    → NotBehind behind s name len
    → First (named behind s.disk s.ip name len) n 0 o
    → (d : Disk) × (used s (take_ino behind) o ≡ done (at s d) (number behind s.disk s.ip o))
      × Unlinked s.ip s.disk o d
unlinks behind s name len n none v le small mapped out (missing all) = (
  s.disk,
  refl,
  record {
    sound = v;
    names = λ behind name len a k. refl;
    gone = λ behind. refl;
    others = λ behind a k lt ne. refl;
  },
)
unlinks behind s name len n (some (i, j)) v le small mapped out
      (found a b lo hi lt hit below before) =
    let narrow : i < 2 ^ 16 = omega (arith, hi, small) in
    let there = mapped i (omega (arith, hi)) in
    let z = zone_of s.disk s.ip i in
    let inside : j < blk / dirent_size = elim (Bool-cases (ltb j (blk / dirent_size))) [
      | inl low ↦ ground (arith, low)
      | inr last ↦
          let e : j ≡ blk / dirent_size = ground (arith, last, lt) in
          let miss : named behind s.disk s.ip name len i j ≡ false =
            subst (λ (x : ℕ). named behind s.disk s.ip name len i x ≡ false) (sym e)
              (out i (omega (arith, hi, le))) in
          absurd (cc (hit, miss))
    ] in
    (
      put s.disk z (dirent_size * j) 2 (λ _. 0),
      taken behind s i j inside v.readable,
      record {
        sound = put-IsSound s.disk s.ip v i narrow there (dirent_size * j) 2 (λ _. 0);
        names = named_kept s.disk s.ip v i j narrow there;
        gone = λ behind. number_gone s.disk s.ip v i j narrow there behind inside;
        others = λ behind a k lt ne.
            number_kept s.disk s.ip v i j narrow there behind a k lt
              (λ e f. ne (λ t. some (e t, sym f t)));
      },
    )

-- In a directory whose blocks do not overlap and have a zone each, up to the one at the offset of the
-- size, when the bytes behind those blocks in core do not spell the name as a 33rd entry: the call
-- clears the number of the first entry of the name, which it returns, or returns 0 and changes nothing
-- if there is none. Every entry keeps its name, and its number but for that one; and `find_entry` of
-- the name returns 0 from then on, whatever other bytes are behind the blocks by then that do not spell
-- the name either.
pub unlink_entry-Unlinked :
    (sp : Super) (failed : ℕ → Bool) (behind later : ℕ → ℕ → ℕ) (name : List ℕ) (len : ℕ) (s : Fs)
    → bit_and s.ip.mode s_ifmt ≡ s_ifdir
    → IsSound s.disk s.ip
    → s.ip.size ≤ 2 ^ 26 - 1
    → ((i : ℕ) → i < s.ip.size / blk + 1 → zone_of s.disk s.ip i ≢ 0)
    → NotBehind behind s name len
    → NotBehind later s name len
    → (o : Option (ℕ × ℕ)) × (d : Disk) × First
        (named behind s.disk s.ip name len)
        (s.ip.size / blk + 1)
        0
        o
      × (unlink_entry sp failed behind name len s
          ≡ done (at s d) (some (number behind s.disk s.ip o)))
      × Unlinked s.ip s.disk o d
      × (find_entry sp failed later name len (at s d) ≡ done (at s d) (some 0))
unfolding unlink_entry
unlink_entry-Unlinked sp failed behind later name len s directory v small mapped out out' =
    let test = named behind s.disk s.ip name len in
    let n = s.ip.size / blk + 1 in
    let o = find_pair test n 0 in
    let kind : (bit_and s.ip.mode s_ifmt == s_ifdir) ≡ true = ground (arith, directory) in
    let loop =
      search_from-used sp failed behind name len (take_ino behind) s v.readable small n 0
        (omega arith) in
    let u =
      unlinks behind s name len n o v (omega arith) (omega arith) mapped out
        (find_pair-First test n 0) in
    (
      o,
      u.0,
      find_pair-First test n 0,
      rw kind (
          >>=-done (search_from sp failed behind name (min len namelen) (take_ino behind) n 0)
            (λ ino. return (some ino)) s (at s u.0) (number behind s.disk s.ip o) (loop ∙ u.1)),
      u.2,
      not_found sp failed behind later name len s u.0 directory small out out' u.2,
    )
