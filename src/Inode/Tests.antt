-- ===== src/Inode/Tests.antt =====
-- The cache of inodes over a disk that holds nothing.
use fleurix.Base.{◌≡◌, refl, none, some}
use fleurix.Base.Result.{ok}
use fleurix.Samples.{open_kernel}
use fleurix.Inode.{Store, lock_ino}

-- Each operation succeeds, and a truncated file is empty.
abbrev pub bare_store : Store
bare_store = record {
  State = Unit;
  iload = λ s ip. ok ip;
  iupdate = λ s ip. ok tt;
  itrunc = λ s ip. ok (tt, record ip { size = 0 });
  ifree = λ s dev num. ok tt;
  close = λ s kind dev. s;
}

-- A lock on a locked inode waits.
locks : (elim (lock_ino open_kernel 5) [ none ↦ none | some k ↦ lock_ino k 5 ]) ≡ none
unfolding lock_ino
locks = refl
