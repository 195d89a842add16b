-- ===== src/Pm/Init.antt =====
-- `pm_init` links exactly the frames that it does not reserve, and leaves a valid map.
use fleurix.Base.{
  ℕ, ◌+◌, ◌-◌, ◌<◌, ◌≡◌, refl, sym, ◌≢◌, ◌↔◌, Bool, true, false, ◌||◌, ◌&&◌, Option, none, some,
  List, [], ◌∷◌, ◌++◌, leb, ltb, ◌==◌, if◌then◌else◌, arith, Bool-cases, inl, inr,
}
use fleurix.Base.Bits.{has_bit}
use fleurix.Base.Loops.{update, for_range, for_range_each, for_range_inv}
use fleurix.Pm.{
  Page, Frames, Linking, npage, reserve, reserved, zeroed, set_next, taken, append_frame, link,
  pm_init,
}
use fleurix.Pm.Chain.{mem, Distinct, Chain, Chain-update, mem-append, Distinct-snoc}
use fleurix.Pm.Alloc.{IsValid}

-- The frames that the kernel keeps: the first, and 640 KB up to the end of its image.
abbrev pub is_reserved : ℕ → ℕ → Bool
is_reserved kend p = p == 0 || (leb 160 p && leb p kend)

abbrev page_at_boot : ℕ → ℕ → Page
page_at_boot kend p =
    if is_reserved kend p
    then record { flag = 2; count = 100; num = p; next = none }
    else record { flag = 0; count = 0; num = 0; next = none }

reserve_each :
    (k : ℕ) (m : Frames) (j : ℕ)
    → (reserve k m).coremap j
      ≡ (if k == j then record (m.coremap k) { num = k; flag = 2; count = 100 } else m.coremap j)
unfolding reserve
reserve_each k m j = refl

reserved-boot : (kend p : ℕ) → (reserved kend).coremap p ≡ page_at_boot kend p
unfolding reserved zeroed
reserved-boot kend p = ground (
  arith,
  for_range_each (λ (m : Frames). m.coremap) reserve
      (λ k q. record q { num = k; flag = 2; count = 100 }) reserve_each (kend + 1 - 160) 160
      (for_range 1 0 reserve zeroed) p,
  for_range_each (λ (m : Frames). m.coremap) reserve
      (λ k q. record q { num = k; flag = 2; count = 100 }) reserve_each 1 0 zeroed p,
)

reserved-free : (kend : ℕ) → (reserved kend).free ≡ none
unfolding reserved zeroed
reserved-free kend =
    for_range_inv (λ _ (m : Frames). m.free ≡ none) reserve (kend + 1 - 160) 160
      (160 + (kend + 1 - 160)) refl (λ k m a b h. unfold reserve in h)
      (for_range 1 0 reserve zeroed)
      (for_range_inv (λ _ (m : Frames). m.free ≡ none) reserve 1 0 1 refl
        (λ k m a b h. unfold reserve in h) zeroed refl)

abbrev last? : List ℕ → Option ℕ
last? [] = none
last? (x ∷ []) = some x
last? (x ∷ y ∷ ys) = last? (y ∷ ys)

last?-mem : (xs : List ℕ) (q : ℕ) → last? xs ≡ some q → mem q xs ≡ true
last?-mem [] q e = absurd (grind arith)
last?-mem (x ∷ []) q e = ground arith
last?-mem (x ∷ y ∷ ys) q e = ground (arith, last?-mem (y ∷ ys) q e)

last?-snoc : (xs : List ℕ) (p : ℕ) → last? (xs ++ p ∷ []) ≡ some p
last?-snoc [] p = refl
last?-snoc (x ∷ []) p = refl
last?-snoc (x ∷ y ∷ ys) p = last?-snoc (y ∷ ys) p

-- Setting the link of the last frame appends one frame to the chain.
Chain-snoc :
    (c : ℕ → Page) (head : Option ℕ) (xs : List ℕ) (q p : ℕ)
    → last? xs ≡ some q
    → Distinct xs
    → mem p xs ≡ false
    → (c p).next ≡ none
    → Chain c head xs
    → Chain (update c q (record (c q) { next = some p })) head (xs ++ p ∷ [])
Chain-snoc c head [] q p l d f n ch = absurd (grind arith)
Chain-snoc c head (x ∷ []) q p l d f n ch = ground arith
Chain-snoc c head (x ∷ y ∷ ys) q p l d f n ch =
    let c' : ℕ → Page = update c q (record (c q) { next = some p }) in
    let same : (c' x).next ≡ (c x).next = ground (arith, last?-mem (y ∷ ys) q l) in
    (ch.0, rw same (Chain-snoc c (c x).next (y ∷ ys) q p l d.1 (ground arith) n ch.1))

-- After the rounds below `k` the list holds the unreserved frames below `k`.
record Linked (kend k : ℕ) (l : Linking) (xs : List ℕ) : Type 0 where
  chain : Chain l.frames.coremap l.frames.free xs
  end : l.ph ≡ last? xs
  distinct : Distinct xs
  exact : (p : ℕ) → mem p xs ≡ (ltb p k && (if is_reserved kend p then false else true))
  fresh : (p : ℕ) → mem p xs ≡ true → (l.frames.coremap p).count ≡ 0
  named : (p : ℕ) → mem p xs ≡ true → (l.frames.coremap p).num ≡ p
  rest : (p : ℕ) → mem p xs ≡ false → l.frames.coremap p ≡ page_at_boot kend p

last?-none : (xs : List ℕ) → last? xs ≡ none → xs ≡ []
last?-none [] e = refl
last?-none (x ∷ []) e = absurd (grind arith)
last?-none (x ∷ y ∷ ys) e = absurd (grind (arith, last?-none (y ∷ ys)))

-- The chain that the round for a free frame leaves.
append_frame-Chain :
    (k : ℕ) (frames : Frames) (xs : List ℕ) (ph : Option ℕ)
    → Chain frames.coremap frames.free xs
    → Distinct xs
    → mem k xs ≡ false
    → ph ≡ last? xs
    → let l = append_frame k (record { frames = frames; ph = ph }) in
      Chain l.frames.coremap l.frames.free (xs ++ k ∷ [])
unfolding append_frame set_next
append_frame-Chain k frames xs none ch d f e =
    let nil : xs ≡ [] = last?-none xs (sym e) in rw nil (refl, ground arith)
append_frame-Chain k frames xs (some q) ch d f e =
    let fresh : Page = record { flag = 0; count = 0; num = k; next = none } in
    let c : ℕ → Page = update frames.coremap k fresh in
    Chain-snoc c frames.free xs q k (sym e) d f (ground arith)
      (Chain-update frames.coremap frames.free xs k fresh f ch)

append_frame-other :
    (k p : ℕ) (frames : Frames) (xs : List ℕ) (ph : Option ℕ)
    → ph ≡ last? xs
    → k ≢ p
    → let l = append_frame k (record { frames = frames; ph = ph }) in
      ((l.frames.coremap p).count ≡ (frames.coremap p).count)
      × ((l.frames.coremap p).num ≡ (frames.coremap p).num)
      × (mem p xs ≡ false → l.frames.coremap p ≡ frames.coremap p)
unfolding append_frame set_next
append_frame-other k p frames xs none e ne = ground arith
append_frame-other k p frames xs (some q) e ne = ground (arith, last?-mem xs q (sym e))

append_frame_self :
    (k : ℕ) (frames : Frames) (ph : Option ℕ)
    → let l = append_frame k (record { frames = frames; ph = ph }) in
      ((l.frames.coremap k).count ≡ 0) × ((l.frames.coremap k).num ≡ k)
unfolding append_frame set_next
append_frame_self k frames none = ground arith
append_frame_self k frames (some q) = ground arith

append_frame-Linked :
    (kend k : ℕ) (l : Linking) (xs : List ℕ)
    → Linked kend k l xs
    → is_reserved kend k ≡ false
    → Linked kend (k + 1) (append_frame k l) (xs ++ k ∷ [])
append_frame-Linked kend k l xs v usable =
    let f : mem k xs ≡ false = ground (arith, v.exact k) in
    record {
      chain = append_frame-Chain k l.frames xs l.ph v.chain v.distinct f v.end;
      end = unfold append_frame in sym (last?-snoc xs k);
      distinct = Distinct-snoc xs k f v.distinct;
      exact = λ p. ground (arith, v.exact p, mem-append p xs (k ∷ []));
      fresh = λ p h. ground (
        arith,
        mem-append p xs (k ∷ []),
        v.fresh p,
        append_frame_self k l.frames l.ph,
        append_frame-other k p l.frames xs l.ph v.end,
      );
      named = λ p h. ground (
        arith,
        mem-append p xs (k ∷ []),
        v.named p,
        append_frame_self k l.frames l.ph,
        append_frame-other k p l.frames xs l.ph v.end,
      );
      rest = λ p h. ground (
        arith,
        mem-append p xs (k ∷ []),
        v.rest p,
        append_frame-other k p l.frames xs l.ph v.end,
      );
    }

link-Linked :
    (kend k : ℕ) (l : Linking) (xs : List ℕ)
    → Linked kend k l xs
    → (ys : List ℕ) × Linked kend (k + 1) (link k l) ys
link-Linked kend k l xs v = elim (Bool-cases (is_reserved kend k)) [
  | inl kept ↦
      let stays : link k l ≡ l =
        unfold link taken in ground (arith, v.exact k, v.rest k, has_rsvd) in
      (xs, rw stays (skip kept))
  | inr usable ↦
      let moves : link k l ≡ append_frame k l =
        unfold link taken in ground (arith, v.exact k, v.rest k, has_none) in
      (xs ++ k ∷ [], rw moves (append_frame-Linked kend k l xs v usable))
]
  where
    has_rsvd : has_bit 2 1 ≡ true
    has_rsvd = refl

    has_none : has_bit 0 1 ≡ false
    has_none = refl

    skip : is_reserved kend k ≡ true → Linked kend (k + 1) l xs
    skip kept = record {
      chain = v.chain;
      end = v.end;
      distinct = v.distinct;
      exact = λ p. ground (arith, v.exact p);
      fresh = v.fresh;
      named = v.named;
      rest = v.rest;
    }

boot-Linked : (kend : ℕ) → Linked kend 0 (record { frames = reserved kend; ph = none }) []
boot-Linked kend = record {
  chain = reserved-free kend;
  end = refl;
  distinct = tt;
  exact = λ p. ground arith;
  fresh = λ p h. absurd (grind arith);
  named = λ p h. absurd (grind arith);
  rest = λ p h. reserved-boot kend p;
}

all-Linked :
    (kend : ℕ)
    → (xs : List ℕ) × Linked kend npage
        (for_range npage 0 link (record { frames = reserved kend; ph = none }))
        xs
all-Linked kend =
    for_range_inv (λ k l. (xs : List ℕ) × Linked kend k l xs) link npage 0 npage refl
      (λ k l a b v. link-Linked kend k l v.0 v.1) _ ([], boot-Linked kend)

-- After `pm_init` the map is valid: its free list holds, each once, exactly the frames that are
-- not reserved, and every one of them has no reference.
pub pm_init-IsValid :
    (kend : ℕ)
    → (free : List ℕ) × IsValid (pm_init kend) free
      × ((p : ℕ) → p < npage → (mem p free ≡ true) ↔ (is_reserved kend p ≡ false))
unfolding pm_init
pm_init-IsValid kend =
    let v = (all-Linked kend).1 in
    (
      (all-Linked kend).0,
      record {
        chain = v.chain;
        distinct = v.distinct;
        listed = λ p h. ground (arith, v.exact p, v.fresh p);
        unlisted = λ p lt h. ground (arith, v.exact p, v.rest p);
        numbered = λ p lt. ground (arith, v.exact p, v.rest p, v.named p);
      },
      λ p lt. ground (arith, v.exact p),
    )
