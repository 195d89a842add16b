-- ===== src/Vm.antt =====
-- The areas of an address space: src/mm/vm.c and src/inc/vm.h. The page directory and the pages are
-- left out.
mod Tests
use fleurix.Base.{
  ℕ, ◌+◌, ◌-◌, ◌^◌, Bool, true, false, ◌&&◌, ◌||◌, not, Option, none, some, ltb, leb, ◌==◌,
  if◌then◌else◌,
}
use fleurix.Base.Word.{u32, u16}
use fleurix.Base.Loops.{find_first, for_range, update}
use fleurix.Base.Result.{Result, ok, panic, ◌>>=◌, ◌>>◌}
use fleurix.Kernel.{Inode, Kernel, set_inode}
use fleurix.Inode.{Store, iput}

-- `struct vma`.
pub record Vma : Type 0 where
  pub flag : ℕ
  pub base : ℕ
  pub size : ℕ
  pub ino : Option ℕ
  pub ioff : ℕ

-- `struct vm`, less the page directory: the areas are text, data, bss, heap and stack, from 0 on.
pub record Vm : Type 0 where
  pub entry : ℕ
  pub area : ℕ → Vma

-- NVMA and VM_STACK, and PAGE.
abbrev pub nvma : ℕ
nvma = 5

abbrev pub vm_stack : ℕ
vm_stack = 0x80000000

abbrev pub page : ℕ
page = 0x1000

abbrev pub covers : ℕ → Vma → Bool
covers addr v = leb v.base addr && ltb addr (u32 (v.base + v.size))

-- The index of the area, or `none` for NULL.
unfoldable pub find_vma : Vm → ℕ → Option ℕ
find_vma vm addr = find_first nvma 0 (λ i. covers addr (vm.area i))

-- The inode of an area without one stays.
pub vma_init : Kernel × Vm → ℕ → ℕ → ℕ → ℕ → Option ℕ → ℕ → Kernel × Vm
vma_init (k, vm) i base size flag none ioff = (
  k,
  record vm {
    area =
        update vm.area i
          (record (vm.area i) { flag = flag; base = base; size = size; ioff = ioff });
  },
)
vma_init (k, vm) i base size flag (some ip) ioff = (
  set_inode k ip (record (k.inode ip) { count = u16 ((k.inode ip).count + 1) }),
  record vm {
    area =
        update vm.area i
          (record { flag = flag; base = base; size = size; ino = some ip; ioff = ioff });
  },
)

-- The fields of `struct ahead` that are used; the struct has 32 bytes.
pub record Ahead : Type 0 where
  pub tsize : ℕ
  pub dsize : ℕ
  pub bsize : ℕ
  pub entry : ℕ

-- VMA_RDONLY, VMA_STACK, VMA_ZERO, VMA_MMAP and VMA_PRIVATE are the bits 0 to 4.
pub vm_renew : Kernel → Vm → Ahead → Option ℕ → Kernel × Vm
unfolding vma_init
vm_renew k vm ah ip =
    let text = u32 (ah.entry + 2 ^ 32 - 32) in
    let data' = u32 (text + ah.tsize) in
    let bss = u32 (data' + ah.dsize) in
    let heap = u32 (bss + ah.bsize) in
    let r0 = vma_init (k, record vm { entry = ah.entry }) 0 text ah.tsize 0x19 ip 0 in
    let r1 = vma_init r0 1 data' ah.dsize 0x18 ip (u32 (data' + 2 ^ 32 - text)) in
    let r2 = vma_init r1 2 bss ah.bsize 0x14 none 0 in
    let r3 = vma_init r2 3 heap page 0x14 none 0 in vma_init r3 4 vm_stack page 0x16 none 0

-- The round of `vm_clear` for one area.
pub clear_area :
    (d : Store) → (ℕ → ℕ) → ℕ → Result (d.State × Kernel × Vm) → Result (d.State × Kernel × Vm)
clear_area d chan i r = do
  (s, k, vm) ← r
  let v = vm.area i
  let vm' : Vm = record vm {
    area = update vm.area i (record v { flag = 0; base = 0; size = 0; ino = none });
  }
  (if v.flag == 0 then ok (s, k, vm) else elim v.ino [
    | none ↦ ok (s, k, vm')
    | some ip ↦ do (s', k') ← iput d chan s k (some ip); ok (s', k', vm')
  ])

pub vm_clear : (d : Store) → (ℕ → ℕ) → d.State → Kernel → Vm → Result (d.State × Kernel × Vm)
unfolding clear_area
vm_clear d chan s k vm = for_range nvma 0 (clear_area d chan) (ok (s, k, vm))
