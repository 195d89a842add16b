-- ===== src/Paging.antt =====
-- Page tables and page faults: src/mm/pte.c, src/mm/pgfault.c, pgattach of src/mm/pm.c, vm_clone and
-- vm_verify of src/mm/vm.c, with inc/mmu.h.
-- The memory of the frames is words of 32 bits: the word `i` of frame `f`, which is an entry when the
-- frame holds a table. A flush of the TLB leaves no trace: the tables are what the processor reads.
pub mod Flags
pub mod Walk
pub mod Share
pub mod Clone
mod Tests
pub mod Faults
use fleurix.Base.{
  ℕ, zero, suc, ◌+◌, ◌-◌, ◌*◌, ◌/◌, ◌%◌, ◌^◌, Bool, true, false, not, ◌&&◌, Option, none, some, leb,
  ltb, ◌==◌, if◌then◌else◌, bit_and, bit_or,
}
use fleurix.Base.Bits.{has_bit, all_but}
use fleurix.Base.Word.{u32, u16}
use fleurix.Base.Loops.{for_range, update}
use fleurix.Base.Result.{Result, ok, panic, ◌>>=◌, ◌>>◌, panic_if}
use fleurix.Pm.{Frames, pgfind, pgalloc, pgfree, pgref}

-- The map of the frames, and the words in them.
pub record Memory : Type 0 where
  pub frames : Frames
  pub word : ℕ → ℕ → ℕ

-- KMEM_END, PAGE, and PMEM/(PAGE*1024), which is PDX(KMEM_END) too.
abbrev pub kmem_end : ℕ
kmem_end = 0x8000000

abbrev pub page : ℕ
page = 0x1000

abbrev pub user_pdx : ℕ
user_pdx = 32

-- The bits of PTE_P and PTE_W, and the flags PTE_P | PTE_W | PTE_U.
abbrev pub pte_p : ℕ
pte_p = 0

abbrev pub pte_w : ℕ
pte_w = 1

abbrev pub user_flags : ℕ
user_flags = 7

-- The fields of `struct pde` and `struct pte`.
abbrev pub flag_of : ℕ → ℕ
flag_of w = w % 512

abbrev pub off_of : ℕ → ℕ
off_of w = w / 4096 % 2 ^ 20

abbrev pub with_flag : ℕ → ℕ → ℕ
with_flag w f = w / 512 * 512 + f % 512

abbrev pub with_off : ℕ → ℕ → ℕ
with_off w off = w % 4096 + off % 2 ^ 20 * 4096

abbrev pub is_present : ℕ → Bool
is_present w = has_bit (flag_of w) pte_p

-- `flag & ~PTE_W` and `flag | PTE_W`.
abbrev pub protected : ℕ → ℕ
protected w = with_flag w (bit_and (flag_of w) (all_but 9 pte_w))

abbrev pub writable : ℕ → ℕ
writable w = with_flag w (bit_or (flag_of w) (2 ^ pte_w))

-- PDX, PTX, PPN and PG_ADDR.
abbrev pub pdx : ℕ → ℕ
pdx vaddr = vaddr / 2 ^ 22 % 1024

abbrev pub ptx : ℕ → ℕ
ptx vaddr = vaddr / 2 ^ 12 % 1024

abbrev pub pg_addr : ℕ → ℕ
pg_addr vaddr = vaddr / 2 ^ 12 * 2 ^ 12

abbrev pub set_word : Memory → ℕ → ℕ → ℕ → Memory
set_word m frame i w = record m { word = update m.word frame (update (m.word frame) i w) }

-- `pg_num` of the page, as a frame number.
abbrev pub num_of : Memory → ℕ → ℕ
num_of m p = (m.frames.coremap p).num

-- A page of pgalloc.
pub take_page : Memory → Result (ℕ × Memory)
take_page m = do (p, frames) ← pgalloc m.frames; ok (p, record m { frames = frames })

-- The directory entry gets a new table of zeros.
pub add_table : Memory → ℕ → ℕ → Result Memory
unfolding take_page
add_table m pgd i = do
  (p, m1) ← take_page m
  let w = with_off (with_flag (m1.word pgd i) user_flags) (num_of m1 p)
  let m2 = set_word m1 pgd i w
  ok (record m2 { word = update m2.word (off_of w) (λ _. 0) })

-- The frame of the table and the index of the entry; `none` is NULL.
pub find_pte : Memory → ℕ → ℕ → Bool → Result (Memory × Option (ℕ × ℕ))
unfolding add_table
find_pte m pgd vaddr creat = do
  panic_if (ltb vaddr kmem_end)
  (if is_present (m.word pgd (pdx vaddr))
      then ok (m, some (off_of (m.word pgd (pdx vaddr)), ptx vaddr))
      else if creat
      then (do
        m1 ← add_table m pgd (pdx vaddr)
        ok (m1, some (off_of (m1.word pgd (pdx vaddr)), ptx vaddr)))
      else ok (m, none))

-- The entry that is asked for with `creat` on.
pub made_pte : Memory → ℕ → ℕ → Result (Memory × ℕ × ℕ)
unfolding find_pte
made_pte m pgd vaddr = do
  (m1, at) ← find_pte m pgd vaddr true
  (elim at [ none ↦ panic | some (t, i) ↦ ok (m1, t, i) ])

-- The memory, and the place of the entry.
pub pgattach : Memory → ℕ → ℕ → ℕ → ℕ → Result (Memory × ℕ × ℕ)
unfolding made_pte
pgattach m pgd vaddr pp flag = do
  (m1, t, i) ← made_pte m pgd vaddr
  ok (set_word m1 t i (with_flag (with_off (m1.word t i) (num_of m1 pp)) flag), t, i)

-- The rounds of `pgd_init`, and PTE_PS | PTE_P | PTE_W.
map_big : ℕ → ℕ → Memory → Memory
map_big pgd pn m = set_word m pgd pn (with_flag (with_off (m.word pgd pn) (pn * 1024)) 0x83)

unmap : ℕ → ℕ → Memory → Memory
unmap pgd pn m = set_word m pgd pn (with_flag (with_off (m.word pgd pn) 0) 4)

pub pgd_init : Memory → ℕ → Memory
unfolding map_big unmap
pgd_init m pgd =
    for_range (1024 - user_pdx) user_pdx (unmap pgd) (for_range user_pdx 0 (map_big pgd) m)

-- The round of the inner loop of `pt_copy`.
pub share_entry : ℕ → ℕ → ℕ → Result Memory → Result Memory
share_entry old new pn r = do
  m ← r
  let w = m.word old pn
  let m1 = set_word m new pn (with_flag (with_off (m.word new pn) (off_of w)) (flag_of w))
  let m2 = set_word m1 new pn (protected (m1.word new pn))
  let m3 = set_word m2 old pn (protected (m2.word old pn))
  (if is_present w
      then (do p ← pgfind (off_of w); ok (record m3 { frames = pgref m3.frames p }))
      else ok m1)

-- The inner loop of `pt_copy`.
pub share_table : ℕ → ℕ → Memory → Result Memory
unfolding share_entry
share_table old new m = for_range 1024 0 (share_entry old new) (ok m)

-- A page for the copy of the table, from kmalloc(PAGE).
copy_table : ℕ → ℕ → ℕ → Memory → Result Memory
unfolding share_table take_page
copy_table npgd pdn old m = do
  (p, m1) ← take_page m
  let new = num_of m1 p
  let m2 = set_word m1 npgd pdn (with_off (m1.word npgd pdn) new)
  share_table old new m2

copy_dir : ℕ → ℕ → ℕ → Result Memory → Result Memory
unfolding copy_table
copy_dir npgd opgd pdn r = do
  m ← r
  let w = m.word opgd pdn
  let m1 = set_word m npgd pdn (with_flag (m.word npgd pdn) (flag_of w))
  (if is_present w then copy_table npgd pdn (off_of w) m1 else ok m1)

pub pt_copy : Memory → ℕ → ℕ → Result Memory
unfolding copy_dir
pt_copy m npgd opgd = for_range (1024 - user_pdx) user_pdx (copy_dir npgd opgd) (ok m)

-- pgfree of the page of a frame number.
drop_page : ℕ → Memory → Result Memory
drop_page off m = do
  p ← pgfind off
  (n, frames) ← pgfree m.frames p
  ok (record m { frames = frames })

free_entry : ℕ → ℕ → Result Memory → Result Memory
unfolding drop_page
free_entry table pn r = do
  m ← r
  (if is_present (m.word table pn) then drop_page (off_of (m.word table pn)) m else ok m)

free_dir : ℕ → ℕ → Result Memory → Result Memory
unfolding free_entry
free_dir pgd pdn r = do
  m ← r
  let w = m.word pgd pdn
  (if is_present w
      then (do m1 ← for_range 1024 0 (free_entry (off_of w)) (ok m); drop_page (off_of w) m1)
      else ok m)

pub pt_free : Memory → ℕ → Result Memory
unfolding free_dir
pt_free m pgd = for_range (1024 - user_pdx) user_pdx (free_dir pgd) (ok m)
