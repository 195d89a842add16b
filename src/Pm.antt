-- ===== src/Pm.antt =====
-- src/mm/pm.c, with inc/page.h: the map of the page frames and the list of the free ones.
-- A `struct page *` is the index of the frame in `coremap`; `coremap` itself is a function of
-- the index. cli() and sti() bracket code that runs alone on the one processor.
pub mod Chain
pub mod Alloc
pub mod Init
mod Tests
use fleurix.Base.{
  ℕ, ◌+◌, ◌-◌, ◌*◌, ◌/◌, Bool, true, false, ◌||◌, not, Option, none, some, leb, ltb, ◌==◌,
  if◌then◌else◌,
}
use fleurix.Base.Bits.{has_bit}
use fleurix.Base.Word.{u8}
use fleurix.Base.Loops.{for_range, update}
use fleurix.Base.Result.{Result, ok, panic, ◌>>=◌, ◌>>◌, panic_if}

abbrev pub page_size : ℕ
page_size = 0x1000

-- NPAGE, the frames of 128 MB.
abbrev pub npage : ℕ
npage = 0x8000000 / page_size

-- The bit of PG_RSVD, 0x2, in `pg_flag`.
abbrev pub pg_rsvd : ℕ
pg_rsvd = 0x2

-- `struct page`.
pub record Page : Type 0 where
  pub flag : ℕ
  pub count : ℕ
  pub num : ℕ
  pub next : Option ℕ

-- `coremap` and `pgfreelist.pg_next`.
pub record Frames : Type 0 where
  pub coremap : ℕ → Page
  pub free : Option ℕ

pub pgfind : ℕ → Result ℕ
pgfind pn = if leb npage pn then panic else ok pn

-- The head `p` of the free list leaves it, with one reference.
pub take_head : Frames → ℕ → Frames
take_head m p = record {
  coremap = update m.coremap p (record (m.coremap p) { count = 1 });
  free = (m.coremap p).next;
}

-- The frame that is taken, and the map after that.
pub pgalloc : Frames → Result (ℕ × Frames)
unfolding take_head
pgalloc m = elim m.free [ none ↦ panic | some p ↦ ok (p, take_head m p) ]

-- At zero the frame goes to the head of the free list.
give_back : Frames → ℕ → Frames
give_back m p = record {
  coremap = update m.coremap p (record (m.coremap p) { count = 0; next = m.free });
  free = some p;
}

-- `pp->pg_count--`, after the test that it is not zero.
drop_ref : Frames → ℕ → Frames
unfolding give_back
drop_ref m p =
    let c = (m.coremap p).count - 1 in
    if c == 0
    then give_back m p
    else record m { coremap = update m.coremap p (record (m.coremap p) { count = c }) }

-- The number of the frame, and the map.
pub pgfree : Frames → ℕ → Result (ℕ × Frames)
unfolding drop_ref
pgfree m p = do panic_if ((m.coremap p).count == 0); ok ((m.coremap p).num, drop_ref m p)

-- `pg->pg_count++` of pt_copy, on an unsigned char.
pub pgref : Frames → ℕ → Frames
pgref m p = record m {
  coremap = update m.coremap p (record (m.coremap p) { count = u8 ((m.coremap p).count + 1) });
}

-- The body of the first two loops of `pm_init`.
reserve : ℕ → Frames → Frames
reserve pn m = record m {
  coremap = update m.coremap pn (record (m.coremap pn) { num = pn; flag = pg_rsvd; count = 100 });
}

-- The state of the third loop: `ph` is `none` while it points at `pgfreelist`.
record Linking : Type 0 where
  frames : Frames
  ph : Option ℕ

-- `ph->pg_next = pp`.
set_next : Frames → Option ℕ → ℕ → Frames
set_next m none p = record m { free = some p }
set_next m (some h) p = record m {
  coremap = update m.coremap h (record (m.coremap h) { next = some p });
}

-- The test of the third loop.
taken : Page → Bool
taken p = has_bit p.flag 1 || ltb 0 p.count

-- The round for a frame that is free: its entry is set, and linked behind `ph`.
append_frame : ℕ → Linking → Linking
unfolding set_next
append_frame pn l =
    let fresh : Page = record { flag = 0; count = 0; num = pn; next = none } in
    let m : Frames = record l.frames { coremap = update l.frames.coremap pn fresh } in
    record { frames = set_next m l.ph pn; ph = some pn }

link : ℕ → Linking → Linking
unfolding taken append_frame
link pn l = if taken (l.frames.coremap pn) then l else append_frame pn l

-- `coremap` and `pgfreelist` as the kernel image has them: all zero.
zeroed : Frames
zeroed = record { coremap = λ _. record { flag = 0; count = 0; num = 0; next = none }; free = none }

-- The frames of the proc0 stack, and those from 640 KB up to the end of the image. `kend` is
-- PPN(&__kend__), from the linker.
reserved : ℕ → Frames
unfolding reserve zeroed
reserved kend =
    let low = for_range 1 0 reserve zeroed in
    let from : ℕ = 640 * 1024 / page_size in for_range (kend + 1 - from) from reserve low

pub pm_init : ℕ → Frames
unfolding reserved link
pm_init kend = (for_range npage 0 link (record { frames = reserved kend; ph = none })).frames
