-- ===== src/Content/Cached/Tests.antt =====
-- An inode that is loaded into the cache, and one whose last reference goes.
use fleurix.Base.{ℕ, ◌≡◌, ◌≢◌, refl, false, some, arith}
use fleurix.Base.Bits.{bit}
use fleurix.Base.Loops.{find_first}
use fleurix.Base.Result.{ok}
use fleurix.Kernel.{Inode, Kernel, set_inode}
use fleurix.Samples.{open_kernel, sample_super}
use fleurix.Alloc.{Disk, write_back}
use fleurix.Inode.{Store, got, claimed, let_go, unlk_ino, i_lock, i_wanted, iget_pass, iput}
use fleurix.Inode.Cache.{IsUnique, pass-load}
use fleurix.Inode.Release.{Released}
use fleurix.Content.{iload, iupdate, inode_of, inode_off, iblk, inode_byte, splice}
use fleurix.Content.Cached.{disk_store, iget_pass-IsUnique, iput_lem}

abbrev blocks : Disk
blocks = record { block = λ b i. i; held = λ _. false }

abbrev store : Store
store = disk_store sample_super (λ _. false) (λ d kind dev. d)

-- Inode 9 of device 1 comes into slot 0, which was free.
abbrev loaded : Inode
loaded =
    inode_of (claimed (open_kernel.inode 0) 1 9) (blocks.block (iblk sample_super 9)) (inode_off 9)

misses : iget_pass store blocks open_kernel 1 9 ≡ ok (set_inode open_kernel 0 loaded, got 0)
unfolding find_first iload
misses = pass-load store blocks open_kernel 1 9 0 refl refl

only_one : IsUnique open_kernel.inode
only_one i j a b ne dd nn = ground arith

iget_pass-IsUnique_example : IsUnique (set_inode open_kernel 0 loaded).inode
iget_pass-IsUnique_example =
    iget_pass-IsUnique sample_super (λ _. false) (λ d kind dev. d) blocks open_kernel 1 9
      (set_inode open_kernel 0 loaded, got 0) only_one misses

-- Slot 5 with one reference to inode 4, and after it went.
abbrev last_one : Kernel
last_one = set_inode open_kernel 5 (record (open_kernel.inode 5) { count = 1; nlink = 1; mode = 0 })

abbrev released : Kernel
released =
    unlk_ino (λ i. i)
      (set_inode (set_inode last_one 5 (let_go (last_one.inode 5))) 5
        (record (let_go (last_one.inode 5)) { flag = 0; num = 0 }))
      5

abbrev after_update : Disk
after_update =
    let b = iblk sample_super 4 in
    let bytes = inode_byte (let_go (last_one.inode 5)) in
    write_back blocks b (splice (blocks.block b) (inode_off 4) 32 bytes)

puts : iput store (λ i. i) blocks last_one (some 5) ≡ ok (after_update, released)
unfolding iput iupdate
puts = refl

iput_lem_example :
    Released last_one 5 released
    × ((bit i_lock (released.inode 5).flag ≡ 0)
        × (bit i_wanted (released.inode 5).flag ≡ 0)
        × ((j : ℕ) → j ≢ 5 → released.inode j ≡ last_one.inode j))
iput_lem_example =
    iput_lem sample_super (λ _. false) (λ d kind dev. d) (λ i. i) blocks after_update last_one
      released 5 puts
