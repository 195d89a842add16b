-- ===== src/Sched/Choice.antt =====
-- Which process `swtch` runs.
use fleurix.Base.{
  ℕ, ◌+◌, ◌<◌, ◌≤◌, ◌≡◌, refl, sym, ap, ◌∙◌, subst, ◌⊎◌, ◌≢◌, inl, inr, Bool, true, false, ◌&&◌,
  none, some, arith, Bool-cases,
}
use fleurix.Base.Word.{ℤ, pos, negsuc, ◌≤ℤ◌, lebℤ}
use native.Mathlib.Decide.{ℕ_discrete}
use fleurix.Base.Loops.{for_range_inv}
use fleurix.Kernel.{Kernel, nproc}
use fleurix.Sched.{Best, is_ready, to_char, pick_slot, best_slot, chosen, swtch, swtch_to}

abbrev pub IsChar : ℤ → Type 0
IsChar z = (negsuc 127 ≤ℤ z) × (z ≤ℤ pos 127)

to_char-id : (z : ℤ) → IsChar z → to_char z ≡ z
unfolding to_char
to_char-id (pos n) h = ground arith
to_char-id (negsuc n) h = ground arith

-- `r` is a ready slot below `n` of the least priority number, the last one among equals.
pub record IsBest (k : Kernel) (n r : ℕ) : Type 0 where
  pub below : r < n
  pub ready : is_ready k r ≡ true
  pub least : (j : ℕ) → j < n → is_ready k j ≡ true → (k.proc r).pri ≤ℤ (k.proc j).pri
  pub last : (j : ℕ) → j < n → is_ready k j ≡ true → (k.proc j).pri ≡ (k.proc r).pri → j ≤ r

-- What the loop knows after the rounds below `n`.
abbrev Sofar : Kernel → ℕ → Best → Type 0
Sofar k n b =
    ((b.slot ≡ none) × (b.least ≡ pos 127) × ((j : ℕ) → j < n → is_ready k j ≡ false))
    ⊎ ((r : ℕ) × (b.slot ≡ some r) × (b.least ≡ (k.proc r).pri) × IsBest k n r)

-- An order of ℤ in the form of the test.
lebℤ-le : (a b : ℤ) → lebℤ a b ≡ true → a ≤ℤ b
lebℤ-le a b h = ground arith

lebℤ-gt : (a b : ℤ) → lebℤ a b ≡ false → (b ≤ℤ a) × (b ≢ a)
lebℤ-gt a b h = ground arith

≤ℤ_trans : (a b c : ℤ) → a ≤ℤ b → b ≤ℤ c → a ≤ℤ c
≤ℤ_trans a b c h g = omega arith

-- `j` does not take the place of `r`.
abbrev Loses : Kernel → ℕ → ℕ → Type 0
Loses k r j =
    is_ready k j ≡ true → ((k.proc r).pri ≤ℤ (k.proc j).pri) × ((k.proc r).pri ≢ (k.proc j).pri)

IsBest-skip : (k : Kernel) (n r : ℕ) → IsBest k n r → Loses k r n → IsBest k (n + 1) r
IsBest-skip k n r v h = record {
  below = omega (arith, v.below);
  ready = v.ready;
  least = λ j lt e. elim (ℕ_discrete j n) [
    | yes same ↦ (subst (Loses k r) (sym same) h e).0
    | no ne ↦ v.least j (omega arith) e
  ];
  last = λ j lt e q. elim (ℕ_discrete j n) [
    | yes same ↦ absurd ((subst (Loses k r) (sym same) h e).1 (sym q))
    | no ne ↦ v.last j (omega arith) e q
  ];
}

-- A ready slot at or under the least number of the slots before is the best.
IsBest-take :
    (k : Kernel) (n : ℕ)
    → is_ready k n ≡ true
    → ((j : ℕ) → j < n → is_ready k j ≡ true → (k.proc n).pri ≤ℤ (k.proc j).pri)
    → IsBest k (n + 1) n
IsBest-take k n ready h = record {
  below = omega arith;
  ready = ready;
  least = λ j lt e. elim (ℕ_discrete j n) [
    | yes same ↦ subst (λ x. (k.proc n).pri ≤ℤ (k.proc x).pri) (sym same) (omega arith)
    | no ne ↦ h j (omega arith) e
  ];
  last = λ j lt e q. omega arith;
}

abbrev takes : Kernel → ℕ → Best
takes k n = record { least = (k.proc n).pri; slot = some n }

-- What the test says when it fails.
bounded :
    (ready : Bool) (z least : ℤ)
    → IsChar z
    → least ≡ pos 127
    → (ready && lebℤ z least) ≡ false
    → ready ≡ false
bounded false z least c l f = refl
bounded true z least c l f =
    let g : lebℤ z (pos 127) ≡ false = subst (λ x. lebℤ z x ≡ false) l f in absurd (ground arith)

worse :
    (ready : Bool) (z least m : ℤ)
    → ready ≡ true
    → least ≡ m
    → (ready && lebℤ z least) ≡ false
    → lebℤ z m ≡ false
worse false z least m r l f = absurd (cc)
worse true z least m r l f = subst (λ x. lebℤ z x ≡ false) l f

module _ (k : Kernel) (chars : (j : ℕ) → j < nproc → IsChar (k.proc j).pri) where
  pick-takes :
      (n : ℕ) (b : Best)
      → n < nproc
      → is_ready k n ≡ true
      → lebℤ (k.proc n).pri b.least ≡ true
      → pick_slot k n b ≡ takes k n
  unfolding pick_slot
  pick-takes n b lt ready le = rw (ready, le, to_char-id (k.proc n).pri (chars n lt))

  pick-skips :
      (n : ℕ) (b : Best)
      → (is_ready k n && lebℤ (k.proc n).pri b.least) ≡ false
      → pick_slot k n b ≡ b
  unfolding pick_slot
  pick-skips n b h = rw h

  pick_slot-Sofar : (n : ℕ) (b : Best) → n < nproc → Sofar k n b → Sofar k (n + 1) (pick_slot k n b)
  pick_slot-Sofar n b lt h = elim (Bool-cases (is_ready k n && lebℤ (k.proc n).pri b.least)) [
    | inl wins ↦ won (ground (arith, wins)) (ground (arith, wins)) h
    | inr loses ↦ rw (pick-skips n b loses) (lost loses h)
  ]
    where
      won :
          is_ready k n ≡ true
          → lebℤ (k.proc n).pri b.least ≡ true
          → Sofar k n b
          → Sofar k (n + 1) (pick_slot k n b)
      won ready le (inl (e, l, none_ready)) =
          rw (pick-takes n b lt ready le) (
            inr (n, refl, refl, IsBest-take k n ready (λ j lt' e'. absurd (cc (none_ready j lt')))))
      won ready le (inr (r, e, l, best)) = rw (pick-takes n b lt ready le) (
          inr (
            n,
            refl,
            refl,
            IsBest-take k n ready (λ j lt' e'.
                ≤ℤ_trans (k.proc n).pri (k.proc r).pri (k.proc j).pri
                  (lebℤ-le (k.proc n).pri (k.proc r).pri (rw l at le)) (best.least j lt' e')),
          ))

      lost : (is_ready k n && lebℤ (k.proc n).pri b.least) ≡ false → Sofar k n b → Sofar k (n + 1) b
      lost f (inl (e, l, none_ready)) = inl (e, l, not_one)
        where
          not_one : (j : ℕ) → j < n + 1 → is_ready k j ≡ false
          not_one j lt' = elim (ℕ_discrete j n) [
            | yes same ↦
                subst (λ x. is_ready k x ≡ false) (sym same)
                  (bounded (is_ready k n) (k.proc n).pri b.least (chars n lt) l f)
            | no ne ↦ none_ready j (omega arith)
          ]
      lost f (inr (r, e, l, best)) = inr (
        r,
        e,
        l,
        IsBest-skip k n r best (λ ready.
            lebℤ-gt (k.proc n).pri (k.proc r).pri
              (worse (is_ready k n) (k.proc n).pri b.least (k.proc r).pri ready l f)),
      )

  best_slot-Sofar : Sofar k nproc (best_slot k)
  unfolding best_slot
  best_slot-Sofar =
      for_range_inv (λ n b. Sofar k n b) (pick_slot k) nproc 0 nproc refl
        (λ n b a lt h. pick_slot-Sofar n b lt h) (record { least = pos 127; slot = none })
        (inl (refl, refl, λ j lt. absurd (omega arith)))

-- `swtch` clears the flag for rescheduling and makes current the ready process of the least
-- priority number, the one in the highest slot among equals; with no process ready, the first.
-- Nothing else changes. The priorities are those that a `char` holds.
pub swtch_picks :
    (k : Kernel)
    → ((j : ℕ) → j < nproc → IsChar (k.proc j).pri)
    → (IsBest k nproc (swtch k).cu
        ⊎ (((j : ℕ) → j < nproc → is_ready k j ≡ false) × ((swtch k).cu ≡ 0)))
      × (swtch k ≡ record k { cu = (swtch k).cu; runrun = 0 })
swtch_picks k chars = (cases (best_slot-Sofar k' chars), only_cu)
  where
    k' : Kernel
    k' = record k { runrun = 0 }

    now_chosen : (swtch k).cu ≡ chosen (best_slot k').slot
    now_chosen = unfold swtch in ground arith

    only_cu : swtch k ≡ record k { cu = (swtch k).cu; runrun = 0 }
    only_cu = unfold swtch swtch_to in ground arith

    carry : (r : ℕ) → IsBest k' nproc r → IsBest k nproc r
    carry r v = record { below = v.below; ready = v.ready; least = v.least; last = v.last }

    cases :
        Sofar k' nproc (best_slot k')
        → IsBest k nproc (swtch k).cu
          ⊎ (((j : ℕ) → j < nproc → is_ready k j ≡ false) × ((swtch k).cu ≡ 0))
    cases (inl (e, l, h)) = inr (h, now_chosen ∙ unfold chosen in ap chosen e)
    cases (inr (r, e, l, best)) =
        let is_r : (swtch k).cu ≡ r = now_chosen ∙ unfold chosen in ap chosen e in
        inl (rw is_r (carry r best))
