-- ===== src/Signal/Pending.antt =====
-- Which signal a process takes, and what taking it leaves.
use fleurix.Base.{
  ℕ, ◌^◌, ◌<◌, ◌≡◌, ◌≢◌, ◌⊎◌, inl, inr, true, false, ◌&&◌, not, ◌==◌, arith, Bool-cases, some,
  Option-cases,
}
use fleurix.Base.Bits.{has_bit, zero-bit_and}
use fleurix.Base.Loops.{find_first, find_first-some, find_first-none}
use fleurix.Kernel.{Proc, Kernel, me, set_me}
use fleurix.Signal.{sig_ign, sigkill, sig_bit, del_sig, handler_of, issig, is_pending, found_sig}

-- The first signal that the loop of `issig` meets.
pub record IsFirst (p : Proc) (n : ℕ) : Type 0 where
  pub small : n < 32
  pub pending : is_pending p n ≡ true
  pub least : (j : ℕ) → j < n → is_pending p j ≡ false

-- What `issig` does: it looks at the first pending signal alone, drops it if it is ignored, reports
-- nothing if it is blocked and not ignored, and otherwise reports it and makes it the current signal.
pub data Finds (k : Kernel) : Kernel × ℕ → Type 0 where
  nothing : ((n : ℕ) → n < 32 → is_pending (me k) n ≡ false) → Finds k (k, 0)
  drops :
      (n : ℕ)
      → IsFirst (me k) n
      → handler_of (me k) n ≡ sig_ign
      → n ≢ sigkill
      → Finds k (set_me k (record (me k) { sig = del_sig (me k).sig n }), 0)
  blocked :
      (n : ℕ)
      → IsFirst (me k) n
      → handler_of (me k) n ≢ sig_ign
      → has_bit (me k).sigmask (sig_bit n) ≡ true
      → n ≢ sigkill
      → Finds k (k, 0)
  reports :
      (n : ℕ)
      → IsFirst (me k) n
      → (n ≡ sigkill)
        ⊎ ((handler_of (me k) n ≢ sig_ign) × (has_bit (me k).sigmask (sig_bit n) ≡ false))
      → Finds k (set_me k (record (me k) { cursig = n }), n)

found-Finds : (k : Kernel) (n : ℕ) → IsFirst (me k) n → Finds k (found_sig k n)
found-Finds k n v = elim (Bool-cases (handler_of (me k) n == sig_ign && not (n == sigkill))) [
  | inl ign ↦
      let e : found_sig k n ≡ (set_me k (record (me k) { sig = del_sig (me k).sig n }), 0) =
        unfold found_sig in rw ign in
      rw e (drops n v (ground (arith, ign)) (ground (arith, ign)))
  | inr heard ↦ elim (Bool-cases (has_bit (me k).sigmask (sig_bit n) && not (n == sigkill))) [
    | inl masked ↦
        let e : found_sig k n ≡ (k, 0) = unfold found_sig in rw (heard, masked) in
        rw e (
          blocked n v (ground (arith, masked, heard)) (ground (arith, masked))
            (ground (arith, masked)))
    | inr open_ ↦
        let e : found_sig k n ≡ (set_me k (record (me k) { cursig = n }), n) =
          unfold found_sig in rw (heard, open_) in
        rw e (reports n v (which heard open_))
  ]
]
  where
    which :
        (handler_of (me k) n == sig_ign && not (n == sigkill)) ≡ false
        → (has_bit (me k).sigmask (sig_bit n) && not (n == sigkill)) ≡ false
        → (n ≡ sigkill)
          ⊎ ((handler_of (me k) n ≢ sig_ign) × (has_bit (me k).sigmask (sig_bit n) ≡ false))
    which a b = elim (Bool-cases (n == sigkill)) [
      | inl kill ↦ inl (ground (arith, kill))
      | inr other ↦ inr (ground (arith, other, a), ground (arith, other, b))
    ]

-- `issig` looks at the lowest pending number alone: it drops that signal if it is ignored, blocked
-- or not, reports nothing if it is blocked and not ignored, and otherwise reports it and makes it current; SIGKILL is never dropped
-- or blocked, and with nothing pending nothing is reported.
pub issig-Finds : (k : Kernel) → Finds k (issig k)
issig-Finds k = elim (Bool-cases ((me k).sig == 0)) [
  | inl idle ↦
      let e : issig k ≡ (k, 0) = unfold issig in rw idle in
      rw e (nothing (λ n lt. none_pending (ground (arith, idle)) n))
  | inr busy ↦ elim (Option-cases (find_first 32 0 (is_pending (me k)))) [
    | inl miss ↦
        let e : issig k ≡ (k, 0) = unfold issig in rw (busy, miss) in
        rw e (nothing (λ n lt. find_first-none 32 0 (is_pending (me k)) miss n (omega arith) lt))
    | inr (n, hit) ↦
        let e : issig k ≡ found_sig k n = unfold issig in rw (busy, hit) in
        rw e (found-Finds k n (first n hit))
  ]
]
  where
    none_pending : (me k).sig ≡ 0 → (n : ℕ) → is_pending (me k) n ≡ false
    none_pending e n = ground (arith, e, zero-bit_and (2 ^ sig_bit n))

    first : (n : ℕ) → find_first 32 0 (is_pending (me k)) ≡ some n → IsFirst (me k) n
    first n hit =
        let f = find_first-some 32 0 (is_pending (me k)) n hit in
        record { small = f.1; pending = f.2; least = λ j lt. f.3 j (omega arith) lt }
