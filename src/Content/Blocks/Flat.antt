-- ===== src/Content/Blocks/Flat.antt =====
-- The zones of a file as one list, and bmap of src/fs/bmap.c as its index.
use fleurix.Base.{
  ℕ, zero, suc, ◌+◌, ◌-◌, ◌*◌, ◌/◌, ◌%◌, ◌^◌, ◌≤◌, ◌<◌, ◌≡◌, sym, ap, ◌∙◌, Bool, false, List, ◌++◌,
  ltb, if◌then◌else◌, inl, inr, Bool-cases, arith, length, get_or, tabulate, length-tabulate,
  get_or-tabulate, get_or-append_lt, get_or-append_ge,
}
use mathlib.Core.List.{flat_map}
use fleurix.Kernel.{Inode, Super}
use fleurix.Alloc.{Disk, blk}
use fleurix.Content.{Fs, done, nindblk}
use fleurix.Content.Blocks.{bmap}
use fleurix.Content.Blocks.Lookup.{IsReadable, table_entry, zone_of, bmap-settled}

-- The zones in the table in block `b`.
table_list : Disk → ℕ → List ℕ
table_list d b = tabulate (table_entry d b) 0 nindblk

-- The zones of the blocks of a file, in order: seven of the inode, those of the table in zone 7, and
-- those of each table of which zone 8 has the table.
pub zone_list : Disk → Inode → List ℕ
unfolding table_list
zone_list d ip =
    tabulate ip.zone 0 7
    ++ (table_list d (ip.zone 7) ++ flat_map (table_list d) (table_list d (ip.zone 8)))

module _ {ℓ} {A : Type ℓ} (g : ℕ → List A) (m : ℕ) (some_room : 0 < m)
    (each : (z : ℕ) → length (g z) ≡ m) (a : A) where
  -- The index into rows of one length.
  get_or-flat_map :
      (f : ℕ → ℕ) (n i q r : ℕ)
      → q < n
      → r < m
      → get_or (flat_map g (tabulate f i n)) (q * m + r) a ≡ get_or (g (f (i + q))) r a
  unfolding tabulate flat_map
  get_or-flat_map f zero i q r h k = absurd (omega arith)
  get_or-flat_map f (suc n) i zero r h k =
      let start : i + 0 ≡ i = omega arith in
      let index : 0 * m + r ≡ r = grind arith in
      rw (start, index)
        (get_or-append_lt (g (f i)) (flat_map g (tabulate f (i + 1) n)) r a
          (omega (arith, each (f i))))
  get_or-flat_map f (suc n) i (suc q) r h k =
      let index : suc q * m + r ≡ m + (q * m + r) = grind arith in
      let next : i + suc q ≡ i + 1 + q = omega arith in
      let back : m + (q * m + r) - length (g (f i)) ≡ q * m + r = omega (arith, each (f i)) in
      rw (index, next)
        (get_or-append_ge (g (f i)) (flat_map g (tabulate f (i + 1) n)) (m + (q * m + r)) a
            (omega (arith, each (f i)))
          ∙ ap (λ (j : ℕ). get_or (flat_map g (tabulate f (i + 1) n)) j a) back
          ∙ get_or-flat_map f n (i + 1) q r (omega arith) k)

length-table_list : (d : Disk) (b : ℕ) → length (table_list d b) ≡ nindblk
unfolding table_list
length-table_list d b = length-tabulate (table_entry d b) 0 nindblk

entries : (d : Disk) (b k : ℕ) → k < nindblk → get_or (table_list d b) k 0 ≡ table_entry d b k
unfolding table_list
entries d b k lt =
    get_or-tabulate (table_entry d b) 0 nindblk k 0 lt ∙ ap (table_entry d b) (omega arith)

tables :
    (d : Disk) (ip : Inode) (k : ℕ)
    → k < nindblk * nindblk
    → get_or (flat_map (table_list d) (table_list d (ip.zone 8))) k 0
      ≡ table_entry d (table_entry d (ip.zone 8) (k / nindblk)) (k % nindblk)
unfolding table_list
tables d ip k lt =
    let split : k ≡ k / nindblk * nindblk + k % nindblk = omega arith in
    let row : 0 + k / nindblk ≡ k / nindblk = omega arith in
    ap (λ (j : ℕ). get_or (flat_map (table_list d) (table_list d (ip.zone 8))) j 0) split
    ∙ get_or-flat_map (table_list d) nindblk (omega arith) (length-table_list d) 0
        (table_entry d (ip.zone 8)) nindblk 0 (k / nindblk) (k % nindblk) (omega arith)
        (omega arith)
    ∙ entries d (table_entry d (ip.zone 8) (0 + k / nindblk)) (k % nindblk) (omega arith)
    ∙ ap (λ (j : ℕ). table_entry d (table_entry d (ip.zone 8) j) (k % nindblk)) row

behind :
    (d : Disk) (ip : Inode) (k : ℕ)
    → k < nindblk + nindblk * nindblk
    → get_or (table_list d (ip.zone 7) ++ flat_map (table_list d) (table_list d (ip.zone 8))) k 0
      ≡ (if ltb k nindblk
          then table_entry d (ip.zone 7) k
          else table_entry d
              (table_entry d (ip.zone 8) ((k - nindblk) / nindblk))
              ((k - nindblk) % nindblk))
behind d ip k lt = elim (Bool-cases (ltb k nindblk)) [
  | inl one ↦ rw one (
      get_or-append_lt (table_list d (ip.zone 7))
        (flat_map (table_list d) (table_list d (ip.zone 8))) k 0
        (ground (arith, length-table_list d (ip.zone 7)))
      ∙ entries d (ip.zone 7) k (ground arith))
  | inr two ↦ rw two (
      get_or-append_ge (table_list d (ip.zone 7))
        (flat_map (table_list d) (table_list d (ip.zone 8))) k 0
        (ground (arith, length-table_list d (ip.zone 7)))
      ∙ ap (λ (j : ℕ). get_or (flat_map (table_list d) (table_list d (ip.zone 8))) (k - j) 0)
          (length-table_list d (ip.zone 7))
      ∙ tables d ip (k - nindblk) (ground arith))
]

-- The levels of `zone_of` are pieces of the list.
zone_list-zone_of :
    (d : Disk) (ip : Inode) (n : ℕ)
    → n < 7 + nindblk + nindblk * nindblk
    → get_or (zone_list d ip) n 0 ≡ zone_of d ip n
unfolding zone_list
zone_list-zone_of d ip n h =
    let heads = tabulate ip.zone 0 7 in
    let ones = table_list d (ip.zone 7) in
    let twos = flat_map (table_list d) (table_list d (ip.zone 8)) in
    let seven : length heads ≡ 7 = length-tabulate ip.zone 0 7 in
    elim (Bool-cases (ltb n 7)) [
      | inl first ↦ rw first (
          get_or-append_lt heads (ones ++ twos) n 0 (ground (arith, seven))
          ∙ get_or-tabulate ip.zone 0 7 n 0 (ground arith)
          ∙ ap ip.zone (omega arith))
      | inr later ↦ rw later (
          get_or-append_ge heads (ones ++ twos) n 0 (ground (arith, seven))
          ∙ ap (λ (j : ℕ). get_or (ones ++ twos) (n - j) 0) seven
          ∙ behind d ip (n - 7) (ground arith))
    ]

-- Without `creat`, on a file whose tables can be read, `bmap` of a block that is not behind the end
-- of the file and below 65536 changes nothing and returns the zone at that index in the list of
-- the zones of the file, 0 for a block that has none.
pub bmap-zone_list :
    (sp : Super) (failed : ℕ → Bool) (s : Fs) (nr : ℕ)
    → IsReadable s.disk s.ip
    → nr < 2 ^ 16
    → nr ≤ s.ip.size / blk
    → bmap sp failed nr false s ≡ done s (get_or (zone_list s.disk s.ip) nr 0)
bmap-zone_list sp failed s nr r small inside =
    bmap-settled sp failed false s r nr small (ground arith) (ground arith)
    ∙ ap (done s) (sym (zone_list-zone_of s.disk s.ip nr (omega arith)))
