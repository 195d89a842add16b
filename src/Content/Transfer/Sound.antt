-- ===== src/Content/Transfer/Sound.antt =====
-- The blocks of a file do not overlap, and stay so when one of them is written.
use fleurix.Base.{
  ℕ, ◌+◌, ◌-◌, ◌/◌, ◌%◌, ◌^◌, ◌<◌, ◌≡◌, ◌≢◌, refl, sym, ap, ◌∙◌, true, false, ◌&&◌, ltb, leb, ◌==◌,
  if◌then◌else◌, inl, inr, Bool-cases, arith,
}
use fleurix.Base.Loops.{update}
use fleurix.Kernel.{Inode}
use fleurix.Alloc.{Disk, blk}
use fleurix.Content.{nindblk, splice}
use fleurix.Content.Blocks.{zmap_entry}
use fleurix.Content.Blocks.Lookup.{IsReadable, table_entry, zone_of}
use fleurix.Content.Transfer.Read.{file_byte}

-- The tables can be read, no two blocks of the file have one zone, and no zone of a block is a table.
pub record IsSound (d : Disk) (ip : Inode) : Type 0 where
  pub readable : IsReadable d ip
  pub distinct :
      (j k : ℕ)
      → j < 2 ^ 16
      → k < 2 ^ 16
      → zone_of d ip j ≡ zone_of d ip k
      → zone_of d ip j ≢ 0
      → j ≡ k
  pub not_one : (k : ℕ) → k < 2 ^ 16 → zone_of d ip k ≢ 0 → zone_of d ip k ≢ ip.zone 7
  pub not_two : (k : ℕ) → k < 2 ^ 16 → zone_of d ip k ≢ 0 → zone_of d ip k ≢ ip.zone 8
  pub not_inner :
      (k i : ℕ) → k < 2 ^ 16 → zone_of d ip k ≢ 0 → zone_of d ip k ≢ table_entry d (ip.zone 8) i

-- `m` bytes of block `z`, from `at` on, are written.
abbrev pub put : Disk → ℕ → ℕ → ℕ → (ℕ → ℕ) → Disk
put d z at m data' = record d { block = update d.block z (splice (d.block z) at m data') }

pub block-put_ne :
    (d : Disk) (z at m : ℕ) (data' : ℕ → ℕ) (b : ℕ)
    → z ≢ b
    → (put d z at m data').block b ≡ d.block b
block-put_ne d z at m data' b ne =
    let other : (z == b) ≡ false = ground (arith, ne) in rw other refl

table_entry-put :
    (d : Disk) (z at m : ℕ) (data' : ℕ → ℕ) (b i : ℕ)
    → z ≢ b
    → table_entry (put d z at m data') b i ≡ table_entry d b i
table_entry-put d z at m data' b i ne =
    ap (λ (c : ℕ → ℕ). if b == 0 then 0 else zmap_entry c i) (block-put_ne d z at m data' b ne)

module _ (d : Disk) (ip : Inode) (v : IsSound d ip) (j : ℕ) (small : j < 2 ^ 16)
    (mapped : zone_of d ip j ≢ 0) (at m : ℕ) (data' : ℕ → ℕ) where
  -- The tables stand elsewhere, so the zones are as before.
  pub zone_of-put : (k : ℕ) → zone_of (put d (zone_of d ip j) at m data') ip k ≡ zone_of d ip k
  zone_of-put k =
      let z = zone_of d ip j in
      let d' = put d z at m data' in
      let q = (k - 7 - nindblk) / nindblk in
      let one = table_entry-put d z at m data' (ip.zone 7) (k - 7) (v.not_one j small mapped) in
      let two = table_entry-put d z at m data' (ip.zone 8) q (v.not_two j small mapped) in
      let inner =
        table_entry-put d z at m data' (table_entry d (ip.zone 8) q) ((k - 7 - nindblk) % nindblk)
          (v.not_inner j q small mapped) in
      ap
        (λ (x : ℕ).
          if ltb k 7
          then ip.zone k
          else if ltb (k - 7) nindblk
          then x
          else table_entry d' (table_entry d' (ip.zone 8) q) ((k - 7 - nindblk) % nindblk))
        one
      ∙ ap
          (λ (x : ℕ).
            if ltb k 7
            then ip.zone k
            else if ltb (k - 7) nindblk
            then table_entry d (ip.zone 7) (k - 7)
            else x)
          (ap (λ (x : ℕ). table_entry d' x ((k - 7 - nindblk) % nindblk)) two ∙ inner)

  -- The bytes of the file: those that were written, and the old ones.
  pub file_byte-put :
      (i : ℕ)
      → i / blk < 2 ^ 16
      → file_byte (put d (zone_of d ip j) at m data') ip i ≡ (
          if i / blk == j && (leb at (i % blk) && ltb (i % blk) (at + m))
          then data' (i % blk - at)
          else file_byte d ip i)
  file_byte-put i inside =
      let z = zone_of d ip j in
      let d' = put d z at m data' in
      ap (λ (x : ℕ). d'.block x (i % blk)) (zone_of-put (i / blk))
      ∙ elim (Bool-cases (i / blk == j)) [
        | inl same ↦
            let e : i / blk ≡ j = ground (arith, same) in
            let self : (z == zone_of d ip (i / blk)) ≡ true =
              ap (λ (x : ℕ). z == zone_of d ip x) e ∙ ground arith in
            rw (self, same)
              (ap (λ (x : ℕ). splice (d.block (zone_of d ip x)) at m data' (i % blk)) (sym e))
        | inr other ↦
            let ne : zone_of d ip j ≢ zone_of d ip (i / blk) =
              λ e. apart_from (i / blk) inside other e in
            rw other (ap (λ (c : ℕ → ℕ). c (i % blk)) (block-put_ne d z at m data' _ ne))
      ]
    where
      apart_from : (k : ℕ) → k < 2 ^ 16 → (k == j) ≡ false → zone_of d ip j ≡ zone_of d ip k → ⊥
      apart_from k lt other e =
          let same = v.distinct j k small lt e mapped in absurd (ground (arith, same, other))

  pub put-IsSound : IsSound (put d (zone_of d ip j) at m data') ip
  put-IsSound =
      let z = zone_of d ip j in
      let d' = put d z at m data' in
      let back =
        λ (k : ℕ) (ne : zone_of d' ip k ≢ 0) (e : zone_of d ip k ≡ 0). ne (zone_of-put k ∙ e) in
      record {
        readable = record {
          free = v.readable.free;
          apart = λ i some_table e. v.readable.apart i some_table (
              sym (
                ap (λ (c : ℕ → ℕ). zmap_entry c i)
                  (block-put_ne d z at m data' (ip.zone 8) (v.not_two j small mapped)))
              ∙ e);
        };
        distinct = λ a b la lb e ne.
            v.distinct a b la lb (sym (zone_of-put a) ∙ e ∙ zone_of-put b) (back a ne);
        not_one = λ k lt ne e. v.not_one k lt (back k ne) (sym (zone_of-put k) ∙ e);
        not_two = λ k lt ne e. v.not_two k lt (back k ne) (sym (zone_of-put k) ∙ e);
        not_inner = λ k i lt ne e. v.not_inner k i lt (back k ne) (
            sym (zone_of-put k)
            ∙ e
            ∙ table_entry-put d z at m data' (ip.zone 8) i (v.not_two j small mapped));
      }
