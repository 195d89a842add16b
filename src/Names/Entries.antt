-- ===== src/Names/Entries.antt =====
-- find_entry of src/fs/namei.c: the first entry of a name.
use fleurix.Base.{
  ℕ, zero, suc, ◌+◌, ◌-◌, ◌/◌, ◌^◌, ◌≤◌, ◌<◌, ◌≡◌, ◌⊎◌, refl, sym, ap, ◌∙◌, Bool, true, false,
  Option, none, some, List, ◌==◌, min, bit_and, inl, inr, Option-cases, arith,
}
use fleurix.Base.Loops.{find_first, find_first-some, find_first-none}
use fleurix.Kernel.{Inode, Super}
use fleurix.Inode.{s_ifmt}
use fleurix.Mount.{s_ifdir}
use fleurix.Alloc.{Disk, blk, hold}
use fleurix.Content.{
  Fs, Ends, Action, done, ◌>>=◌, ◌>>◌, >>=-done, return, bread, bread-free, brelse,
}
use fleurix.Content.Blocks.{bmap}
use fleurix.Content.Blocks.Lookup.{IsReadable, zone_of, release-hold, bmap-settled}
use fleurix.Names.{namelen, per_block, core, d_ino, is_entry, ino_at, look, search_from, find_entry}

-- Entry `j` of block `i` of the directory has the name.
abbrev pub named : (ℕ → ℕ → ℕ) → Disk → Inode → List ℕ → ℕ → ℕ → ℕ → Bool
named behind d ip name len i j = is_entry name (min len namelen) (core behind d (zone_of d ip i)) j

-- The first block from `i` on, of `n`, with an entry that passes the test, and the first of those.
unfoldable pub find_pair : (ℕ → ℕ → Bool) → ℕ → ℕ → Option (ℕ × ℕ)
find_pair test zero i = none
find_pair test (suc n) i = elim (find_first per_block 0 (test i)) [
  | some j ↦ some (i, j)
  | none ↦ find_pair test n (i + 1)
]

-- It is the first one in the order of the blocks and of the entries in them.
pub data First (test : ℕ → ℕ → Bool) (n i : ℕ) : Option (ℕ × ℕ) → Type 0 where
  found :
      (a j : ℕ)
      → i ≤ a
      → a < i + n
      → j < per_block
      → test a j ≡ true
      → ((k : ℕ) → k < j → test a k ≡ false)
      → ((b k : ℕ) → i ≤ b → b < a → k < per_block → test b k ≡ false)
      → First test n i (some (a, j))
  missing : ((b k : ℕ) → i ≤ b → b < i + n → k < per_block → test b k ≡ false) → First test n i none

split : (i b : ℕ) → i ≤ b → (i ≡ b) ⊎ (i + 1 ≤ b)
split i b h = ground (arith, h)

later-First :
    (test : ℕ → ℕ → Bool) (n i : ℕ) (o : Option (ℕ × ℕ))
    → ((k : ℕ) → k < per_block → test i k ≡ false)
    → First test n (i + 1) o
    → First test (suc n) i o
later-First test n i o here (found a j lo hi lt hit below before) =
    found a j (omega arith) (omega arith) lt hit below λ b k from to inside. elim (split i b from) [
      | inl same ↦ ap (λ (x : ℕ). test x k) (sym same) ∙ here k inside
      | inr more ↦ before b k more to inside
    ]
later-First test n i o here (missing all) = missing λ b k from to inside. elim (split i b from) [
  | inl same ↦ ap (λ (x : ℕ). test x k) (sym same) ∙ here k inside
  | inr more ↦ all b k more (omega (arith, to)) inside
]

pub find_pair-First : (test : ℕ → ℕ → Bool) (n i : ℕ) → First test n i (find_pair test n i)
unfolding find_pair
find_pair-First test zero i = missing (λ b k from to inside. absurd (omega (arith, from, to)))
find_pair-First test (suc n) i = elim (Option-cases (find_first per_block 0 (test i))) [
  | inl out ↦
      rw (find_pair, out)
        (later-First test n i (find_pair test n (i + 1))
          (λ k lt. find_first-none per_block 0 (test i) out k (omega arith) (omega (arith, lt)))
          (find_pair-First test n (i + 1)))
  | inr (j, hit) ↦
      let s = find_first-some per_block 0 (test i) j hit in
      rw (find_pair, hit)
        (found i j (omega arith) (omega arith) (omega (arith, s.1)) s.2
          (λ k lt. s.3 k (omega arith) lt) (λ b k from to inside. absurd (omega (arith, from, to))))
]

find_first-congr :
    (test test' : ℕ → Bool) (n i : ℕ)
    → ((k : ℕ) → i ≤ k → k < i + n → test k ≡ test' k)
    → find_first n i test ≡ find_first n i test'
unfolding find_first
find_first-congr test test' zero i same = refl
find_first-congr test test' (suc n) i same =
    ap (λ (o : Option ℕ). elim (test i) [ true ↦ some i | false ↦ o ])
      (find_first-congr test test' n (i + 1) (λ k a b. same k (omega arith) (omega arith)))
    ∙ ap (λ (b : Bool). elim b [ true ↦ some i | false ↦ find_first n (i + 1) test' ])
        (same i (omega arith) (omega arith))

pub find_pair-congr :
    (test test' : ℕ → ℕ → Bool) (n i : ℕ)
    → ((a k : ℕ) → i ≤ a → a < i + n → k < per_block → test a k ≡ test' a k)
    → find_pair test n i ≡ find_pair test' n i
unfolding find_pair
find_pair-congr test test' zero i same = refl
find_pair-congr test test' (suc n) i same =
    ap
      (λ (o : Option (ℕ × ℕ)). elim (find_first per_block 0 (test i)) [
        | some j ↦ some (i, j)
        | none ↦ o
      ])
      (find_pair-congr test test' n (i + 1) (λ a k x y z. same a k (omega arith) (omega arith) z))
    ∙ ap (λ (o : Option ℕ). elim o [ some j ↦ some (i, j) | none ↦ find_pair test' n (i + 1) ])
        (find_first-congr (test i) (test' i) per_block 0
          (λ k a b. same i k (omega arith) (omega arith) (omega (arith, b))))

abbrev pub at : Fs → Disk → Fs
at s d = record s { disk = d }

-- What the search comes to, from the place that is found.
abbrev pub used : Fs → (ℕ → ℕ → Action ℕ) → Option (ℕ × ℕ) → Ends ℕ
used s use_it none = done s 0
used s use_it (some (i, j)) =
    let z = zone_of s.disk s.ip i in
    let run : Action ℕ = use_it z j >>= λ ino. brelse z >> return ino in run (at s (hold s.disk z))

module _ (sp : Super) (failed : ℕ → Bool) (behind : ℕ → ℕ → ℕ) (name : List ℕ) (len : ℕ)
    (use_it : ℕ → ℕ → Action ℕ) (s : Fs) (r : IsReadable s.disk s.ip)
    (small : s.ip.size ≤ 2 ^ 26 - 1) where
  pub search_from-used :
      (n i : ℕ)
      → i + n ≤ s.ip.size / blk + 1
      → search_from sp failed behind name (min len namelen) use_it n i s
        ≡ used s use_it (find_pair (named behind s.disk s.ip name len) n i)
  unfolding search_from look find_pair
  search_from-used zero i h = refl
  search_from-used (suc n) i h =
      let z = zone_of s.disk s.ip i in
      let t = at s (hold s.disk z) in
      let next : Action ℕ = search_from sp failed behind name (min len namelen) use_it n (i + 1) in
      let body = look sp failed behind name (min len namelen) use_it in
      let found = bmap-settled sp failed false s r i (omega arith) (ground arith) (ground arith) in
      >>=-done (bmap sp failed i false) (λ bn. bread bn >> body bn next) s s z found
      ∙ >>=-done (bread z) (λ _. body z next) s t tt (bread-free z s (r.free z))
      ∙ elim (Option-cases (find_first per_block 0 (named behind s.disk s.ip name len i))) [
        | inl out ↦
            rw (out, look, find_pair)
              (ap (λ (d : Disk). next (at s d)) (release-hold s.disk z (r.free z))
                ∙ search_from-used n (i + 1) (omega arith))
        | inr (j, hit) ↦ rw (hit, look, find_pair) refl
      ]

-- The number in the entry that was found.
abbrev pub number : (ℕ → ℕ → ℕ) → Disk → Inode → Option (ℕ × ℕ) → ℕ
number behind d ip none = 0
number behind d ip (some (i, j)) = d_ino (core behind d (zone_of d ip i)) j

read_number :
    (behind : ℕ → ℕ → ℕ) (s : Fs) (o : Option (ℕ × ℕ))
    → IsReadable s.disk s.ip
    → used s (ino_at behind) o ≡ done s (number behind s.disk s.ip o)
read_number behind s none r = refl
read_number behind s (some (i, j)) r =
    let z = zone_of s.disk s.ip i in
    ap (λ (d : Disk). done (at s d) (number behind s.disk s.ip (some (i, j))))
      (release-hold s.disk z (r.free z))

pub find_entry-number :
    (sp : Super) (failed : ℕ → Bool) (behind : ℕ → ℕ → ℕ) (name : List ℕ) (len : ℕ) (s : Fs)
    → bit_and s.ip.mode s_ifmt ≡ s_ifdir
    → IsReadable s.disk s.ip
    → s.ip.size ≤ 2 ^ 26 - 1
    → find_entry sp failed behind name len s
      ≡ done s (
          some (
            number behind s.disk s.ip
              (find_pair (named behind s.disk s.ip name len) (s.ip.size / blk + 1) 0)))
unfolding find_entry
find_entry-number sp failed behind name len s directory r small =
    let n = s.ip.size / blk + 1 in
    let o = find_pair (named behind s.disk s.ip name len) n 0 in
    let kind : (bit_and s.ip.mode s_ifmt == s_ifdir) ≡ true = ground (arith, directory) in
    let loop =
      search_from-used sp failed behind name len (ino_at behind) s r small n 0 (omega arith) in
    rw kind (
      >>=-done (search_from sp failed behind name (min len namelen) (ino_at behind) n 0)
        (λ ino. return (some ino)) s s (number behind s.disk s.ip o)
        (loop ∙ read_number behind s o r))

-- In a directory whose blocks can be read, `find_entry` changes nothing, and returns the number in the
-- first entry of the name, in the order of the blocks up to the one at the offset of the size, and of
-- 33 entries in each, the last of which lies
-- behind the block in core, whatever that number is; without such an entry it returns 0.
pub find_entry-First :
    (sp : Super) (failed : ℕ → Bool) (behind : ℕ → ℕ → ℕ) (name : List ℕ) (len : ℕ) (s : Fs)
    → bit_and s.ip.mode s_ifmt ≡ s_ifdir
    → IsReadable s.disk s.ip
    → s.ip.size ≤ 2 ^ 26 - 1
    → (o : Option (ℕ × ℕ)) × First (named behind s.disk s.ip name len) (s.ip.size / blk + 1) 0 o
      × (find_entry sp failed behind name len s ≡ done s (some (number behind s.disk s.ip o)))
find_entry-First sp failed behind name len s directory r small =
    let test = named behind s.disk s.ip name len in
    let n = s.ip.size / blk + 1 in
    (
      find_pair test n 0,
      find_pair-First test n 0,
      find_entry-number sp failed behind name len s directory r small,
    )
