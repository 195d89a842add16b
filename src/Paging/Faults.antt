-- ===== src/Paging/Faults.antt =====
-- src/mm/pgfault.c, with vm_clone and vm_verify of src/mm/vm.c: what a fault does to the address space
-- of the current process.
pub mod Cow
pub mod Zero
mod Tests
use fleurix.Base.{
  ℕ, zero, suc, ◌+◌, ◌-◌, ◌*◌, ◌/◌, ◌%◌, ◌^◌, Bool, true, false, not, ◌&&◌, Option, none, some, leb,
  ltb, ◌==◌, if◌then◌else◌, bit_and, bit_or,
}
use fleurix.Base.Bits.{has_bit}
use fleurix.Base.Word.{ℤ, pos, u32, u16}
use fleurix.Base.Loops.{for_range, update}
use fleurix.Base.Result.{Result, ok, panic, ◌>>=◌, ◌>>◌}
use fleurix.Kernel.{Kernel, Inode, me, set_inode}
use fleurix.Signal.{sigsend}
use fleurix.Inode.{lock_ino, unlk_ino}
use fleurix.Vm.{Vma, Vm, nvma, find_vma}
use fleurix.Pm.{pgfind}
use fleurix.Paging.{
  Memory, kmem_end, page, is_present, flag_of, off_of, with_off, with_flag, protected, writable,
  pte_w, pg_addr, set_word, num_of, take_page, find_pte, made_pte, pgattach, pgd_init, pt_copy,
}

-- The memory, the tables of the kernel, and the address space of the current process with the frame of
-- its page directory.
pub record Space : Type 0 where
  pub memory : Memory
  pub kernel : Kernel
  pub vm : Vm
  pub pgd : ℕ

-- The area of `find_vma`; `low` is what stands at the address 0, which is read through NULL.
abbrev pub area_at : Vma → Vm → Option ℕ → Vma
area_at low vm none = low
area_at low vm (some i) = vm.area i

-- The signal 11, SIGSEGV, to the current process.
pub segv : Space → Space
segv s = record s { kernel = (sigsend s.kernel (me s.kernel).pid (pos 11) true).0 }

-- The write goes to a copy of the page `p` at the entry `i` of table `t`.
split_page : Memory → ℕ → ℕ → ℕ → Result Memory
split_page m t i p = do
  let pg = m.frames.coremap p
  let old = off_of (m.word t i)
  let m1 : Memory = record m {
    frames = record m.frames {
      coremap = update m.frames.coremap p (record pg { count = pg.count - 1 });
    };
  }
  (q, m2) ← take_page m1
  let new = num_of m2 q
  let m3 : Memory = record m2 { word = update m2.word new (m2.word old) }
  ok (set_word m3 t i (writable (with_off (m3.word t i) new)))

-- The entry of a page with `n` references, which is written to.
write_page : Memory → ℕ → ℕ → ℕ → Result Memory
unfolding split_page
write_page m t i p =
    let n = (m.frames.coremap p).count in
    if ltb 1 n
    then split_page m t i p
    else if n == 1
    then ok (set_word m t i (writable (m.word t i)))
    else ok m

pub do_wp_page : Vma → Space → ℕ → Result Space
unfolding segv write_page
do_wp_page low s vaddr =
    let v = area_at low s.vm (find_vma s.vm vaddr) in
    if has_bit v.flag 0
    then ok (segv s)
    else if has_bit v.flag 4
    then (do
      (m, t, i) ← made_pte s.memory s.pgd vaddr
      p ← pgfind (off_of (m.word t i))
      m1 ← write_page m t i p
      ok (record s { memory = m1 }))
    else ok s

-- How the handler of a missing page ends: done, or asleep on the lock of an inode.
pub data Reply : Type 0 where
  done : Reply
  sleeps : ℕ → Reply

-- A new page at the address, with the flags of user memory.
new_page : Space → ℕ → Result (Space × ℕ × ℕ)
new_page s vaddr = do
  (p, m) ← take_page s.memory
  (m1, t, i) ← pgattach m s.pgd (pg_addr vaddr) p 7
  ok (record s { memory = m1 }, t, i)

-- The area of the stack, which is the last one, grows down by a page.
grow_stack : Vm → Vm
grow_stack vm =
    let v = vm.area 4 in
    record vm {
      area =
          update vm.area 4
            (record v { base = u32 (v.base + 2 ^ 32 - page); size = u32 (v.size + page) });
    }

-- What the file system puts into the words of a page: `readi` of the inode at an offset.
module _ (chan : ℕ → ℕ) (readi : Kernel → ℕ → ℕ → (ℕ → ℕ) → Kernel × (ℕ → ℕ)) where
  -- The page at the address holds the words that `readi` gave; an area of VMA_MMAP has an inode.
  fill_page : Space → Vma → ℕ → ℕ → ℕ → ℕ → Result (Space × Reply)
  fill_page s v vaddr t i ip = elim (lock_ino s.kernel ip) [
    | none ↦ ok (s, sleeps ip)
    | some k ↦
        let frame = off_of (s.memory.word t i) in
        let off = u32 (pg_addr vaddr + 2 ^ 32 - v.base + v.ioff) in
        let (k1, words) = readi k ip off (s.memory.word frame) in
        let k2 = unlk_ino chan k1 ip in
        let m1 : Memory = record s.memory { word = update s.memory.word frame words } in
        let w = m1.word t i in
        let m2 = if has_bit v.flag 0 then m1 else set_word m1 t i (protected w) in
        ok (record s { memory = m2; kernel = k2 }, done)
  ]

  map_file : Space → Vma → ℕ → Result (Space × Reply)
  unfolding new_page fill_page
  map_file s v vaddr = do
    (s1, t, i) ← new_page s vaddr
    (elim v.ino [ none ↦ panic | some ip ↦ fill_page s1 v vaddr t i ip ])

  zero_page : Space → ℕ → Result (Space × Reply)
  unfolding new_page
  zero_page s vaddr = do
    (s1, t, i) ← new_page s vaddr
    let frame = off_of (s1.memory.word t i)
    ok (
      record s1 { memory = record s1.memory { word = update s1.memory.word frame (λ _. 0) } },
      done,
    )

  pub do_no_page : Space → ℕ → Result (Space × Reply)
  unfolding new_page grow_stack map_file zero_page segv
  do_no_page s vaddr =
      if leb (u32 ((s.vm.area 4).base + 2 ^ 32 - vaddr)) page
      then (do (s1, t, i) ← new_page (record s { vm = grow_stack s.vm }) vaddr; ok (s1, done))
      else elim (find_vma s.vm vaddr) [
        | none ↦ ok (segv s, done)
        | some a ↦
            let v = s.vm.area a in
            if has_bit v.flag 2
            then zero_page s vaddr
            else if has_bit v.flag 3
            then map_file s v vaddr
            else panic
      ]

  -- The error code of the fault: PFE_P, PFE_W and PFE_U are its bits 0, 1 and 2.
  pub do_pgfault : Vma → Space → ℕ → ℕ → Result (Space × Reply)
  unfolding do_no_page do_wp_page segv
  do_pgfault low s addr err =
      if not (has_bit err 0)
      then do_no_page s addr
      else if has_bit err 1
      then (do s1 ← do_wp_page low s addr; ok (s1, done))
      else ok (if has_bit err 2 then segv s else s, done)
