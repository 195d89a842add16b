-- ===== src/Mount/Tests.antt =====
-- A mount table of one device.
use fleurix.Base.{◌≡◌, refl, none}
use fleurix.Base.Loops.{find_first}
use fleurix.Base.Result.{ok, panic}
use fleurix.Base.Word.{minus_one}
use fleurix.Samples.{idle_kernel, open_kernel}
use fleurix.Inode.Tests.{bare_store}
use fleurix.Mount.{SuperStore, do_mount, umount_at}

abbrev bare_supers : SuperStore
bare_supers = record { disk = bare_store; spload = λ s sp. ok sp; spupdate = λ s sp. s }

-- Every slot holds device 1, so that device 2 finds none.
no_slot : do_mount bare_supers (λ i. i) (λ i. i) tt idle_kernel 2 none ≡ ok (idle_kernel, none)
unfolding do_mount find_first
no_slot = refl

-- A device with an inode in use stays mounted.
busy :
    (elim (umount_at bare_supers (λ i. i) (λ i. i) tt open_kernel 1 0) [
      | ok (s, k, r) ↦ r
      | panic ↦ minus_one
    ])
    ≡ minus_one
unfolding umount_at find_first
busy = refl
