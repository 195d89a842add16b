-- ===== src/Content.antt =====
-- src/fs/bmap.c and src/fs/rdwri.c: the blocks of a file and its content, with iload and iupdate of
-- src/fs/inode.c.
-- The file is one locked inode `ip`. The blocks are those of Alloc.antt: what the buffer cache holds
-- of them, so that `bwrite`, which sends a block to the drive, changes none and is not written out.
-- `failed b` is B_ERROR after block `b` was read.
pub mod Inodes
pub mod Blocks
pub mod Transfer
pub mod Trunc
pub mod Cached
mod Tests
use fleurix.Base.{
  ℕ, zero, suc, ◌+◌, ◌-◌, ◌*◌, ◌/◌, ◌%◌, ◌^◌, ◌≡◌, refl, ap, Bool, true, false, ◌&&◌, ◌||◌, not,
  Option, none, some, List, [], ◌∷◌, ◌++◌, ltb, leb, ◌==◌, if◌then◌else◌, min, bit_and, bit_or,
}
use fleurix.Base.Bits.{has_bit, all_but}
use fleurix.Base.Word.{u16, u32}
use fleurix.Base.Loops.{update}
use fleurix.Kernel.{Inode, Super}
use fleurix.Inode.{s_ifmt}
use fleurix.Alloc.{
  Disk, Outcome, returns, sleeps, panics, blk, hold, write_back, balloc, bfree, bzero,
}

-- NINDBLK, and MAX_FILESIZ.
abbrev pub nindblk : ℕ
nindblk = 512

abbrev pub max_filesiz : ℕ
max_filesiz = (7 + nindblk + nindblk * nindblk) * blk

-- The bit of I_DIRTY.
abbrev pub i_dirty : ℕ
i_dirty = 2

-- The blocks, and the inode.
pub record Fs : Type 0 where
  pub disk : Disk
  pub ip : Inode

-- How an operation ends: with a value, asleep on a block that is held, in a panic, or in a store
-- through a pointer that was never set, whose buffer is released, or that leads out of the buffer.
pub data Ends {ℓ} (A : Type ℓ) : Type ℓ where
  done : Fs → A → Ends A
  asleep : ℕ → Ends A
  panic : Ends A
  wild : Ends A

abbrev pub Action : Type 0 → Type 0
Action A = Fs → Ends A

abbrev pub after : {A B : Type 0} → Ends A → (A → Action B) → Ends B
after (done t a) next = next a t
after (asleep b) next = asleep b
after panic next = panic
after wild next = wild

infixl 5 ◌>>=◌ ◌>>◌
abbrev pub ◌>>=◌ : {A B : Type 0} → Action A → (A → Action B) → Action B
◌>>=◌ first next s = after (first s) next

abbrev pub ◌>>◌ : {A B : Type 0} → Action A → Action B → Action B
first >> second_level = first >>= λ _. second_level

abbrev pub return : {A : Type 0} → A → Action A
return a s = done s a

-- The rest of a sequence whose first action ends with a value.
pub >>=-done :
    {A B : Type 0} (first : Action A) (next : A → Action B) (s t : Fs) (a : A)
    → first s ≡ done t a
    → (first >>= next) s ≡ next a t
>>=-done first next s t a e = ap (λ x. after x next) e

-- It makes no wild store, and if it ends with a value, then with one that satisfies `P`.
abbrev pub Gives : {A : Type 0} → (Fs → A → Type 0) → Ends A → Type 0
Gives P (done t a) = P t a
Gives P (asleep b) = Unit
Gives P panic = Unit
Gives P wild = ⊥

pub Gives-after :
    {A B : Type 0} (P : Fs → A → Type 0) (Q : Fs → B → Type 0) (m : Ends A) (next : A → Action B)
    → Gives P m
    → ((t : Fs) (a : A) → P t a → Gives Q (next a t))
    → Gives Q (after m next)
Gives-after P Q (done t a) next p keep = keep t a p
Gives-after P Q (asleep b) next p keep = tt
Gives-after P Q panic next p keep = tt
Gives-after P Q wild next p keep = p

pub Gives-imp :
    {A : Type 0} (P Q : Fs → A → Type 0) (m : Ends A)
    → Gives P m
    → ((t : Fs) (a : A) → P t a → Q t a)
    → Gives Q m
Gives-imp P Q (done t a) p keep = keep t a p
Gives-imp P Q (asleep b) p keep = tt
Gives-imp P Q panic p keep = tt
Gives-imp P Q wild p keep = p

-- An operation of Alloc.antt.
abbrev pub on_disk : {A : Type 0} → (Disk → Outcome A) → Action A
on_disk op s = elim (op s.disk) [
  | returns d a ↦ done (record s { disk = d }) a
  | sleeps b ↦ asleep b
  | panics ↦ panic
]

pub on_disk-Gives :
    {A : Type 0} (op : Disk → Outcome A) (s : Fs) → Gives (λ t a. t.ip ≡ s.ip) (on_disk op s)
on_disk-Gives {A} op s = by_end (op s.disk)
  where
    by_end :
        (o : Outcome A)
        → Gives {A = A}
            (λ t a. t.ip ≡ s.ip)
            (elim o [
              | returns d a ↦ done (record s { disk = d }) a
              | sleeps b ↦ asleep b
              | panics ↦ panic
            ])
    by_end (returns d a) = refl
    by_end (sleeps b) = tt
    by_end panics = tt

-- `bread` and `brelse`.
abbrev pub bread : ℕ → Action (Unit {0})
bread b s = if s.disk.held b then asleep b else done (record s { disk = hold s.disk b }) tt

pub bread-free :
    (b : ℕ) (s : Fs)
    → s.disk.held b ≡ false
    → bread b s ≡ done (record s { disk = hold s.disk b }) tt
bread-free b s h = rw h refl

abbrev pub release : Disk → ℕ → Disk
release d b = record d { held = update d.held b false }

abbrev pub brelse : ℕ → Action (Unit {0})
brelse b s = done (record s { disk = release s.disk b }) tt

-- A number of two bytes, the low one first, and one of four.
abbrev pub half_at : (ℕ → ℕ) → ℕ → ℕ
half_at bytes i = bytes i + 256 * bytes (i + 1)

abbrev pub word_at : (ℕ → ℕ) → ℕ → ℕ
word_at bytes i = half_at bytes i + 65536 * half_at bytes (i + 2)

-- Byte `k` of a number.
abbrev pub byte : ℕ → ℕ → ℕ
byte zero x = x % 256
byte (suc k) x = byte k (x / 256)

-- `memcpy` of `n` bytes to offset `at`.
abbrev pub splice : (ℕ → ℕ) → ℕ → ℕ → (ℕ → ℕ) → ℕ → ℕ
splice bytes at n new i = if leb at i && ltb i (at + n) then new (i - at) else bytes i

-- The bytes of `struct d_inode`, with which `struct inode` begins.
pub inode_byte : Inode → ℕ → ℕ
inode_byte ip j =
    if ltb j 2
    then byte j ip.mode
    else if ltb j 4
    then byte (j - 2) ip.uid
    else if ltb j 8
    then byte (j - 4) ip.size
    else if ltb j 12
    then byte (j - 8) ip.mtime
    else if j == 12
    then byte 0 ip.gid
    else if j == 13
    then byte 0 ip.nlink
    else byte ((j - 14) % 2) (ip.zone ((j - 14) / 2))

pub inode_of : Inode → (ℕ → ℕ) → ℕ → Inode
inode_of ip bytes at = record ip {
  mode = half_at bytes at;
  uid = half_at bytes (at + 2);
  size = word_at bytes (at + 4);
  mtime = word_at bytes (at + 8);
  gid = bytes (at + 12);
  nlink = bytes (at + 13);
  zone = λ k. if ltb k 9 then half_at bytes (at + 14 + 2 * k) else ip.zone k;
}

-- IBLK, and the place of the inode in its block.
abbrev pub iblk : Super → ℕ → ℕ
iblk sp ino = 2 + sp.nimap_blk + sp.nzmap_blk + u32 (ino + 2 ^ 32 - 1) / 32

abbrev pub inode_off : ℕ → ℕ
inode_off ino = u32 (ino + 2 ^ 32 - 1) % 32 * 32

abbrev pub cleaned : Inode → Inode
cleaned ip = record ip { flag = bit_and ip.flag (all_but 32 i_dirty) }

abbrev pub dirtied : Inode → Inode
dirtied ip = record ip { flag = bit_or ip.flag (2 ^ i_dirty) }

module _ (sp : Super) (failed : ℕ → Bool) where
  pub iload : Action (Unit {0})
  unfolding inode_of
  iload s =
      let b = iblk sp s.ip.num in
      if s.disk.held b
      then asleep b
      else if failed b
      then panic
      else done (record s { ip = inode_of s.ip (s.disk.block b) (inode_off s.ip.num) }) tt

  pub iupdate : Action (Unit {0})
  unfolding inode_byte
  iupdate s =
      let b = iblk sp s.ip.num in
      if s.disk.held b
      then asleep b
      else if failed b
      then panic
      else done
          (record {
            disk =
                write_back s.disk b
                  (splice (s.disk.block b) (inode_off s.ip.num) 32 (inode_byte s.ip));
            ip = cleaned s.ip;
          })
          tt
