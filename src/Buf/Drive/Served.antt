-- ===== src/Buf/Drive/Served.antt =====
-- The interrupts of the drive serve its requests one by one.
use fleurix.Base.{
  ℕ, ◌≡◌, ◌≢◌, refl, sym, ap, subst, ◌∙◌, true, false, ◌&&◌, List, [], ◌∷◌, ltb, ◌==◌,
  if◌then◌else◌, arith, inl, inr, Bool-cases,
}
use fleurix.Base.Bits.{has_bit}
use fleurix.Buf.{Cache, hdtab, b_read, b_done, hd_cmd, start_on, hd_start, finished, do_hd_intr}
use fleurix.Buf.Drive.{started_io, hd_start_lem}
use fleurix.Buf.Valid.{IsValid}
use fleurix.Pm.Chain.{mem}
use fleurix.Buf.Drive.Finished.{done_flag_lem, finished_node, finished_state, finished-IsValid}

start_on-same :
    (c d : Cache) (y : ℕ)
    → (c.node y).flag ≡ (d.node y).flag
    → (c.node y).blkno ≡ (d.node y).blkno
    → ((i : ℕ) → (c.node y).content i ≡ (d.node y).content i)
    → c.io ≡ d.io
    → (start_on y c).io ≡ (start_on y d).io
unfolding start_on hd_cmd
start_on-same c d y f b w io =
    let same : (c.node y).content ≡ (d.node y).content = λ i j. w j i in
    elim (Bool-cases (has_bit (d.node y).flag b_read)) [
      | inl r ↦ rw (f, r, b, io) refl
      | inr n ↦ rw (f, n, b, io, same) refl
    ]

started_io-same :
    (chan words : ℕ → ℕ) (x : ℕ) (c : Cache) (rest : List ℕ)
    → mem x rest ≡ false
    → started_io (finished chan words x c) rest ≡ started_io c rest
started_io-same chan words x c [] out = (finished_state chan words x c).1
started_io-same chan words x c (y ∷ ys) out =
    let n = finished_node chan words x c y in
    start_on-same (finished chan words x c) c y (ground (arith, n.0)) n.1
      (λ i. ground (arith, n.2 i)) (finished_state chan words x c).1

do_hd_intr-hd_start :
    (chan words : ℕ → ℕ) (c : Cache) (x : ℕ)
    → (c.node hdtab).av_prev ≡ x
    → (c.active == 0) ≡ false
    → do_hd_intr chan words c ≡ hd_start (finished chan words x c)
unfolding do_hd_intr
do_hd_intr-hd_start chan words c x e works =
    rw works (ap (λ bp. hd_start (finished chan words bp c)) e)

-- What an interrupt makes of the oldest request `x`, with `rest` behind it.
pub record Serves (words : ℕ → ℕ) (c : Cache) (x : ℕ) (free rest cached : List ℕ) (c' : Cache)
    : Type 0 where
  pub valid : IsValid c' free rest cached
  pub done : has_bit (c'.node x).flag b_done ≡ true
  pub read :
      (i : ℕ)
      → (c'.node x).content i
        ≡ (if has_bit (c.node x).flag b_read && ltb i 256 then words i else (c.node x).content i)
  pub others : (j : ℕ) → j ≢ x → (c'.node j).flag ≡ (c.node j).flag
  pub commands : c'.io ≡ started_io c rest

-- An interrupt of the drive ends the oldest request: its buffer is done, with the words of the drive
-- when it was read, and out of the queue; no other buffer changes its flags, the cache stays valid,
-- and the drive gets the commands for the next request, if there is one.
pub do_hd_intr-Serves :
    (chan words : ℕ → ℕ) (c : Cache) (x : ℕ) (free rest cached : List ℕ)
    → IsValid c free (x ∷ rest) cached
    → Serves words c x free rest cached (do_hd_intr chan words c)
do_hd_intr-Serves chan words c x free rest cached v =
    let c1 = finished chan words x c in
    let n = finished_node chan words x c in
    let flags = done_flag_lem (c.node x).flag in
    let start =
      hd_start_lem c1 free rest cached (finished-IsValid chan words x c free rest cached v)
        (finished_state chan words x c).0 in
    subst (Serves words c x free rest cached)
      (sym (do_hd_intr-hd_start chan words c x v.queue_ring.path.0 (ground (arith, v.works))))
      (record {
        valid = start.0;
        done = ground (arith, start.1, (n x).0, flags);
        read = λ i. ground (arith, start.1, (n x).2 i);
        others = λ j ne. ground (arith, start.1, (n j).0);
        commands = start.3 ∙ started_io-same chan words x c rest v.queue_ring.distinct.0;
      })
