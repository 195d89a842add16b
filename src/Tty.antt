-- ===== src/Tty.antt =====
-- src/chr/tty.c: the cyclic queues, the line discipline and the terminal device.
-- A char is held as its byte, so that a char below zero is a byte from 128. `putch`, which puts a
-- char on the screen, is outside: the chars that go to it are a list.
pub mod Queue
pub mod Drain
pub mod Line
pub mod Input
mod Tests
use fleurix.Base.{
  ℕ, zero, suc, ◌+◌, ◌-◌, ◌*◌, ◌%◌, ◌^◌, Bool, true, false, ◌&&◌, ◌||◌, not, Option, none, some,
  List, [], ◌∷◌, ◌++◌, ltb, leb, ◌==◌, if◌then◌else◌,
}
use fleurix.Base.Bits.{has_bit}
use fleurix.Base.Word.{ℤ, pos, minus_one, u32}
use fleurix.Base.Loops.{update}
use fleurix.Kernel.{Kernel, me, syserr}
use fleurix.Kernel.Errno.{enodev}
use fleurix.Sched.{wakeup}
use fleurix.Signal.{sigsend_g}

-- QBUFSIZ.
abbrev pub qbufsiz : ℕ
qbufsiz = 1024

-- NTTY.
abbrev pub ntty : ℕ
ntty = 8

-- `struct qbuf`.
pub record Qbuf : Type 0 where
  pub start : ℕ
  pub end : ℕ
  pub count : ℕ
  pub char : ℕ → ℕ

-- `struct tty`, less the device number and the row, which nothing reads.
pub record Tty : Type 0 where
  pub flag : ℕ
  pub pgrp : ℕ
  pub col : ℕ
  pub rawq : Qbuf
  pub canq : Qbuf
  pub outq : Qbuf

-- The char -1, which `getq` and `eraseq` return on an empty queue.
abbrev pub no_char : ℕ
no_char = 255

pub putq : Qbuf → ℕ → Qbuf × ℤ
putq q ch = if q.count == qbufsiz then (q, minus_one) else (
  record {
    start = q.start;
    end = u32 (q.end + 1) % qbufsiz;
    count = u32 (q.count + 1);
    char = update q.char q.end ch;
  },
  pos 0,
)

pub getq : Qbuf → Qbuf × ℕ
getq q = if q.count == 0 then (q, no_char) else (
  record { start = u32 (q.start + 1) % qbufsiz; end = q.end; count = q.count - 1; char = q.char },
  q.char q.start,
)

pub eraseq : Qbuf → Qbuf × ℕ
eraseq q = if q.count == 0 then (q, no_char) else (
  record {
    start = q.start;
    end = u32 (u32 (q.end + 2 ^ 32 - 1) + qbufsiz) % qbufsiz;
    count = q.count - 1;
    char = q.char;
  },
  0,
)

-- A char below zero.
abbrev pub is_negative_char : ℕ → Bool
is_negative_char ch = leb 128 ch

-- CERASE, CINTR, CEOF, tab and newline.
abbrev pub cerase : ℕ
cerase = 8

abbrev pub cintr : ℕ
cintr = 28

abbrev pub ceof : ℕ
ceof = 4

abbrev pub tab : ℕ
tab = 9

abbrev pub newline : ℕ
newline = 10

abbrev pub space : ℕ
space = 32

-- `n` spaces go to a queue.
pub put_spaces : ℕ → Qbuf → Qbuf
unfolding putq
put_spaces zero q = q
put_spaces (suc n) q = put_spaces n (putq q space).0

-- The loop of the raw mode, with the number of chars in the raw queue as its fuel: each round takes
-- one.
pub canon_raw : ℕ → Qbuf → Qbuf → Qbuf × Qbuf
unfolding getq putq
canon_raw zero raw can = (raw, can)
canon_raw (suc n) raw can =
    let (raw', ch) = getq raw in
    let rest = canon_raw n raw' (putq can ch).0 in if is_negative_char ch then (raw', can) else rest

-- What a char that is not a tab does to the canonical queue.
pub canon_char : ℕ → Qbuf → Qbuf
unfolding putq eraseq
canon_char ch can = if ch == cerase then (eraseq can).0 else (putq can ch).0

-- The loop of the canonical mode; a tab ends it.
pub canon_line : ℕ → ℕ → Qbuf → Qbuf → Qbuf × Qbuf
unfolding getq put_spaces canon_char
canon_line zero col raw can = (raw, can)
canon_line (suc n) col raw can =
    let (raw', ch) = getq raw in
    let rest = canon_line n col raw' (canon_char ch can) in
    if is_negative_char ch
    then (raw', can)
    else if ch == tab
    then (raw', put_spaces (4 - col % 4) can)
    else rest

pub tty_canon : Tty → Tty
unfolding canon_raw canon_line
tty_canon tp =
    let n = tp.rawq.count in
    let (raw', can') =
      if has_bit tp.flag 0
      then canon_raw n tp.rawq tp.canq
      else canon_line n tp.col tp.rawq tp.canq in
    record tp { rawq = raw'; canq = can' }

pub tty_output : Tty → ℕ → Tty
unfolding put_spaces putq
tty_output tp ch = record tp {
  outq = if ch == tab then put_spaces (4 - tp.col % 4) tp.outq else (putq tp.outq ch).0;
}

-- The loop of `tty_start`: the queue left, and the chars put.
pub drain : ℕ → Qbuf → Qbuf × List ℕ
unfolding getq
drain zero q = (q, [])
drain (suc n) q =
    let (q', ch) = getq q in
    let (q'', shown) = drain n q' in if is_negative_char ch then (q', []) else (q'', ch ∷ shown)

pub tty_start : Tty → Tty × List ℕ
unfolding drain
tty_start tp = let (q, shown) = drain tp.outq.count tp.outq in (record tp { outq = q }, shown)

-- The echo of a char. An erase with nothing to erase ends the whole of `tty_input`.
pub tty_echo : Tty → ℕ → Tty × List ℕ
unfolding tty_output tty_start
tty_echo tp ch = if has_bit tp.flag 1 then tty_start (tty_output tp ch) else (tp, [])

abbrev pub ends_line : ℕ → Bool
ends_line ch = ch == ceof || ch == newline

-- `tty_input`; `chan` is the address of the terminal.
pub tty_input : ℕ → Kernel → Tty → ℕ → Kernel × Tty × List ℕ
unfolding putq tty_canon tty_echo eraseq
tty_input chan k tp ch =
    let empty = tp.canq.count == 0 in
    let tp1 = tty_canon (record tp { rawq = (putq tp.rawq ch).0 }) in
    if has_bit tp1.flag 1 && ch == cerase && empty
    then (k, tp1, [])
    else let (tp2, shown) = tty_echo tp1 ch in
      let k' : Kernel =
        if not (has_bit tp2.flag 0) && cintr == ch
        then (sigsend_g k tp2.pgrp (pos 2) false).0
        else k in
      if ends_line ch
      then (wakeup chan k', record tp2 { canq = (eraseq tp2.canq).0 }, shown)
      else (k', tp2, shown)

-- The queue with its count, and nothing else, reset.
abbrev pub recount : Qbuf → Qbuf
recount q = record { start = q.start; end = q.end; count = 0; char = q.char }

-- MINOR.
abbrev pub minor : ℕ → ℕ
minor dev = dev % 256

-- The open terminals are a table by their minor number.
pub tty_open : Kernel → (ℕ → Tty) → ℕ → Kernel × (ℕ → Tty) × ℤ
tty_open k ttys dev =
    let tp = ttys (minor dev) in
    if leb ntty (minor dev) then (syserr k enodev, ttys, minus_one) else (
      k,
      update ttys (minor dev) (record {
        flag = 2;
        pgrp = (me k).pgrp;
        col = tp.col;
        rawq = recount tp.rawq;
        canq = recount tp.canq;
        outq = recount tp.outq;
      }),
      pos 0,
    )

-- `tty_read` sleeps once while the line is shorter than what is asked for.
pub tty_read_sleeps : Tty → ℕ → Bool
tty_read_sleeps tp cnt = ltb tp.canq.count cnt

-- The loop of `tty_read`: the queue left, the chars stored, and `i`.
pub read_loop : ℕ → Qbuf → Qbuf × List ℕ × ℕ
unfolding getq
read_loop zero q = (q, [], 0)
read_loop (suc n) q =
    let (q', ch) = getq q in
    let (q'', got, i) = read_loop n q' in
    if is_negative_char ch then (q', [], 0) else (q'', ch ∷ got, i + 1)

-- `tty_read` from where it is awake.
pub tty_read : Kernel → (ℕ → Tty) → ℕ → ℕ → Kernel × (ℕ → Tty) × List ℕ × ℤ
unfolding read_loop
tty_read k ttys dev cnt =
    let tp = ttys (minor dev) in
    let (q, got, i) = read_loop cnt tp.canq in
    if leb ntty (minor dev)
    then (syserr k enodev, ttys, [], minus_one)
    else (k, update ttys (minor dev) (record tp { canq = q }), got, pos (i + 1))

-- The loop of `tty_write`.
pub output_all : List ℕ → Tty → Tty
unfolding tty_output
output_all [] tp = tp
output_all (ch ∷ cs) tp = output_all cs (tty_output tp ch)

pub tty_write : Kernel → (ℕ → Tty) → ℕ → List ℕ → Kernel × (ℕ → Tty) × List ℕ × ℤ
unfolding output_all tty_start
tty_write k ttys dev buf =
    let (tp, shown) = tty_start (output_all buf (ttys (minor dev))) in
    if leb ntty (minor dev)
    then (syserr k enodev, ttys, [], minus_one)
    else (k, update ttys (minor dev) tp, shown, pos 0)

-- `tty_init` sets up the first terminal.
pub tty_init : Tty → Tty
tty_init tp = record {
  flag = 2;
  pgrp = tp.pgrp;
  col = tp.col;
  rawq = recount tp.rawq;
  canq = recount tp.canq;
  outq = recount tp.outq;
}
