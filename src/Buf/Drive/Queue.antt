-- ===== src/Buf/Drive/Queue.antt =====
-- A request of the drive is done after as many interrupts as there are requests up to it.
use fleurix.Base.{ℕ, suc, ◌≡◌, true, List, [], ◌∷◌, ◌++◌, length, arith}
use fleurix.Base.Bits.{has_bit}
use fleurix.Buf.{Cache, b_done, do_hd_intr}
use fleurix.Buf.Drive.Served.{do_hd_intr-Serves}
use fleurix.Buf.Valid.{IsValid}

-- One interrupt after the other, each with the words that the drive has then.
unfoldable pub interrupts : (ℕ → ℕ) → List (ℕ → ℕ) → Cache → Cache
interrupts chan [] c = c
interrupts chan (words ∷ later) c = interrupts chan later (do_hd_intr chan words c)

-- Every request is served, in the order of the queue: after one interrupt for each request before it
-- and one for itself, the buffer is done, the cache is valid, and the requests behind it are left.
pub interrupts-serve :
    (chan : ℕ → ℕ) (arriving : List (ℕ → ℕ)) (c : Cache) (before : List ℕ) (x : ℕ)
    (after free cached : List ℕ)
    → IsValid c free (before ++ x ∷ after) cached
    → length arriving ≡ suc (length before)
    → IsValid (interrupts chan arriving c) free after cached
      × (has_bit ((interrupts chan arriving c).node x).flag b_done ≡ true)
unfolding interrupts
interrupts-serve chan [] c before x after free cached v e = absurd (omega arith)
interrupts-serve chan (w ∷ []) c [] x after free cached v e =
    let s = do_hd_intr-Serves chan w c x free after cached v in (s.valid, s.done)
interrupts-serve chan (w ∷ w' ∷ ws) c [] x after free cached v e = absurd (omega arith)
interrupts-serve chan (w ∷ ws) c (y ∷ ys) x after free cached v e =
    let s = do_hd_intr-Serves chan w c y free (ys ++ x ∷ after) cached v in
    interrupts-serve chan ws (do_hd_intr chan w c) ys x after free cached s.valid (omega arith)
