-- ===== src/Buf/Calls/Recycle.antt =====
-- A buffer that is taken for a block moves to the front of the list of the device.
use fleurix.Base.{
  ℕ, ◌<◌, ◌≡◌, ◌≢◌, refl, ◌∙◌, true, false, List, [], ◌∷◌, ◌==◌, arith, inl, inr, Bool-cases,
}
use fleurix.Base.Word.{u16}
use fleurix.Buf.{Cache, nbuf, free_head, hdtab}
use fleurix.Buf.Calls.{b_unlink, b_prepend, name_block}
use fleurix.Buf.Rings.{
  Ring, Unlinked, Prepended, erase, unlink-Ring, prepend-Ring, frame-Ring, mem-erase, mem-erase_out,
  mem-erase_self, Links-before, Links-after,
}
use fleurix.Buf.Valid.{IsValid, busy, names, next_of, prev_of}
use fleurix.Pm.Chain.{mem}

erase_absent : (x : ℕ) (xs : List ℕ) → mem x xs ≡ false → erase x xs ≡ xs
erase_absent x [] m = refl
erase_absent x (y ∷ ys) m = ground (arith, erase_absent x ys)

b_unlink-Unlinked :
    (c : Cache) (x : ℕ)
    → Unlinked (next_of c) (prev_of c) (next_of (b_unlink c x)) (prev_of (b_unlink c x)) x
unfolding b_unlink
b_unlink-Unlinked c x = record { forth = λ j. ground arith; back = λ j. ground arith }

b_prepend-Prepended :
    (c : Cache) (x h : ℕ)
    → x ≢ h
    → Prepended (next_of c) (prev_of c) (next_of (b_prepend c x h)) (prev_of (b_prepend c x h)) h x
unfolding b_prepend
b_prepend-Prepended c x h ne = record { forth = λ j. ground arith; back = λ j. ground arith }

first_member : (nx pv : ℕ → ℕ) (h : ℕ) (xs : List ℕ) → Ring nx pv h xs → mem (nx h) (h ∷ xs) ≡ true
first_member nx pv h [] r = ground (arith, r.path)
first_member nx pv h (x ∷ xs) r = ground (arith, r.path)

-- The two moves leave the rest of every buffer.
abbrev pub rest_of : Cache → ℕ → ℕ × ℕ × ℕ × ℕ × ℕ
rest_of c j = let b = c.node j in (b.flag, b.av_next, b.av_prev, b.dev, b.blkno)

rest-b_unlink : (c : Cache) (x j : ℕ) → rest_of (b_unlink c x) j ≡ rest_of c j
unfolding b_unlink
rest-b_unlink c x j = ground arith

rest-b_prepend : (c : Cache) (x h j : ℕ) → rest_of (b_prepend c x h) j ≡ rest_of c j
unfolding b_prepend
rest-b_prepend c x h j = ground arith

abbrev pub moved : Cache → ℕ → Cache
moved c x = b_prepend (b_unlink c x) x hdtab

module _ {c : Cache} {x : ℕ} {free queue cached : List ℕ} (v : IsValid c free queue cached)
    (lt : x < nbuf) where
  -- After the first move the buffer is in no list of a device.
  b_unlink-Ring : Ring (next_of (b_unlink c x)) (prev_of (b_unlink c x)) hdtab (erase x cached)
  b_unlink-Ring = elim (Bool-cases (mem x cached)) [
    | inl there ↦ unlink-Ring u hdtab cached there v.device_ring
    | inr absent ↦ rw (erase_absent x cached absent) (
        frame-Ring hdtab cached (λ j m. ground (arith, v.loose x lt absent, u.forth j, u.back j))
          v.device_ring)
  ]
    where
      u : Unlinked (next_of c) (prev_of c) (next_of (b_unlink c x)) (prev_of (b_unlink c x)) x
      u = b_unlink-Unlinked c x

  p :
      Prepended
        (next_of (b_unlink c x))
        (prev_of (b_unlink c x))
        (next_of (moved c x))
        (prev_of (moved c x))
        hdtab
        x
  p = b_prepend-Prepended (b_unlink c x) x hdtab (λ e. ground arith)

  moved-Ring : Ring (next_of (moved c x)) (prev_of (moved c x)) hdtab (x ∷ erase x cached)
  moved-Ring =
      prepend-Ring p (erase x cached) (λ e. ground arith)
        (mem-erase_self x cached v.device_ring.distinct) b_unlink-Ring

  -- The neighbours of the buffer are in the list with it, or are the buffer.
  near :
      (j : ℕ)
      → j < nbuf
      → j ≢ x
      → mem j cached ≡ false
      → ((prev_of c x == j) ≡ false) × ((next_of c x == j) ≡ false)
  near j l ne out = elim (Bool-cases (mem x cached)) [
    | inl there ↦
        let before =
          Links-before (next_of c) (prev_of c) hdtab cached hdtab x there v.device_ring.path in
        let after =
          Links-after (next_of c) (prev_of c) hdtab cached hdtab x there v.device_ring.path in
        (ground (arith, before), ground (arith, after))
    | inr absent ↦ let e = v.loose x lt absent in (ground (arith, e), ground (arith, e))
  ]

  moved-loose :
      (j : ℕ)
      → j < nbuf
      → mem j (x ∷ erase x cached) ≡ false
      → (next_of (moved c x) j ≡ j) × (prev_of (moved c x) j ≡ j)
  moved-loose j l out =
      let u = b_unlink-Unlinked c x in
      let ne : j ≢ x = λ e. ground arith in
      let outside : mem j cached ≡ false = ground (arith, mem-erase j x cached) in
      let far = near j l ne outside in
      let first =
        first_member (next_of (b_unlink c x)) (prev_of (b_unlink c x)) hdtab (erase x cached)
          b_unlink-Ring in
      let still = v.loose j l outside in
      (
        ground (arith, p.forth j, u.forth j, far, still),
        ground (arith, p.back j, u.back j, far, still, first),
      )

  pub rest-moved : (j : ℕ) → rest_of (moved c x) j ≡ rest_of c j
  rest-moved j = rest-b_prepend (b_unlink c x) x hdtab j ∙ rest-b_unlink c x j

  -- The buffer is the one of the block now, when the block had none.
  pub moved-IsValid :
      (dev blkno : ℕ)
      → busy c x ≡ true
      → ((j : ℕ) → mem j cached ≡ true → names c j (u16 dev) blkno ≡ false)
      → IsValid (name_block (moved c x) x dev blkno) free queue (x ∷ erase x cached)
  unfolding name_block
  moved-IsValid dev blkno b none_yet = record {
    free_ring = frame-Ring free_head free (λ j m. ground (arith, rest-moved j)) v.free_ring;
    queue_ring = frame-Ring hdtab queue (λ j m. ground (arith, rest-moved j)) v.queue_ring;
    device_ring = frame-Ring hdtab (x ∷ erase x cached) (λ j m. ground arith) moved-Ring;
    loose = λ j l m. ground (arith, moved-loose j l m);
    free_idle = λ j l. ground (arith, v.free_idle j l, rest-moved j);
    free_below = v.free_below;
    queue_busy = λ j m. ground (arith, v.queue_busy j m, rest-moved j);
    cached_below = λ j m. ground (arith, v.cached_below j, mem-erase_out j x cached, lt);
    one_block = λ i j m n. ground (
      arith,
      v.one_block i j,
      rest-moved i,
      rest-moved j,
      mem-erase_out i x cached,
      mem-erase_out j x cached,
      none_yet i,
      none_yet j,
    );
    devices = unfold b_prepend b_unlink in v.devices;
    works = unfold b_prepend b_unlink in v.works;
  }
