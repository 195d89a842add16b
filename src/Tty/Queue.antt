-- ===== src/Tty/Queue.antt =====
-- The cyclic queue of src/chr/tty.c is a bounded sequence of chars.
use fleurix.Base.{
  ℕ, zero, suc, ◌+◌, ◌-◌, ◌%◌, ◌<◌, ◌≤◌, ◌≡◌, ◌≢◌, refl, sym, ap, ◌∙◌, true, false, List, [], ◌∷◌,
  ◌++◌, length, ◌==◌, if◌then◌else◌, arith, Bool-cases, inl, inr,
}
use fleurix.Base.Word.{pos, minus_one, u32}
use fleurix.Base.Loops.{update}
use fleurix.Tty.{Qbuf, qbufsiz, no_char, putq, getq, eraseq}

-- The chars of the `n` places from `s` on, around the end of the buffer.
abbrev slots : (ℕ → ℕ) → ℕ → ℕ → List ℕ
slots t s zero = []
slots t s (suc n) = t (s % qbufsiz) ∷ slots t (s + 1) n

-- What a queue holds, the oldest first.
pub contents : Qbuf → List ℕ
contents q = slots q.char q.start q.count

-- The indices are inside the buffer, and the end is the start plus the count.
pub record IsValid (q : Qbuf) : Type 0 where
  pub start_in : q.start < qbufsiz
  pub fits : q.count ≤ qbufsiz
  pub end_at : q.end ≡ (q.start + q.count) % qbufsiz

-- The sequence that a queue stands for: append to it unless it is full, and drop its last char.
abbrev pub push : List ℕ → ℕ → List ℕ
push xs c = if length xs == qbufsiz then xs else xs ++ c ∷ []

abbrev pub drop_last : List ℕ → List ℕ
drop_last [] = []
drop_last (x ∷ []) = []
drop_last (x ∷ y ∷ ys) = x ∷ drop_last (y ∷ ys)

length-slots : (t : ℕ → ℕ) (s n : ℕ) → length (slots t s n) ≡ n
length-slots t s zero = refl
length-slots t s (suc n) = ap suc (length-slots t (s + 1) n)

pub length-contents : (q : Qbuf) → length (contents q) ≡ q.count
unfolding contents
length-contents q = length-slots q.char q.start q.count

slots-mod : (t : ℕ → ℕ) (s r n : ℕ) → s % qbufsiz ≡ r % qbufsiz → slots t s n ≡ slots t r n
slots-mod t s r zero e = refl
slots-mod t s r (suc n) e = grind (arith, slots-mod t (s + 1) (r + 1) n (omega (arith, e)), e)

slots-snoc : (t : ℕ → ℕ) (s n : ℕ) → slots t s (suc n) ≡ slots t s n ++ t ((s + n) % qbufsiz) ∷ []
slots-snoc t s zero = ap (λ (i : ℕ). t (i % qbufsiz) ∷ []) (omega arith)
slots-snoc t s (suc n) =
    let at : t ((s + 1 + n) % qbufsiz) ≡ t ((s + suc n) % qbufsiz) =
      ap (λ (i : ℕ). t (i % qbufsiz)) (omega arith) in
    ap (◌∷◌ (t (s % qbufsiz)))
      (slots-snoc t (s + 1) n ∙ ap (λ (c : ℕ). slots t (s + 1) n ++ c ∷ []) at)

slots-update :
    (t : ℕ → ℕ) (s n e c : ℕ)
    → ((i : ℕ) → i < n → (s + i) % qbufsiz ≢ e)
    → slots (update t e c) s n ≡ slots t s n
slots-update t s zero e c off = refl
slots-update t s (suc n) e c off =
    let here : (s % qbufsiz) ≢ e = λ q. off 0 (omega arith) (omega (arith, q)) in
    let later =
      slots-update t (s + 1) n e c (λ i lt q. off (i + 1) (omega arith) (omega (arith, q))) in
    grind (arith, here, later)

drop_last-snoc : (xs : List ℕ) (c : ℕ) → drop_last (xs ++ c ∷ []) ≡ xs
drop_last-snoc [] c = refl
drop_last-snoc (x ∷ []) c = refl
drop_last-snoc (x ∷ y ∷ ys) c = ap (◌∷◌ x) (drop_last-snoc (y ∷ ys) c)

-- `putq` on a valid queue: a full one stays as it is and the result is -1, and any other holds the
-- char at its end; the queue stays valid.
pub putq_lem :
    (q : Qbuf) (c : ℕ)
    → IsValid q
    → IsValid (putq q c).0
      × (contents (putq q c).0 ≡ push (contents q) c)
      × ((putq q c).1 ≡ (if q.count == qbufsiz then minus_one else pos 0))
unfolding putq contents
putq_lem q c v = elim (Bool-cases (q.count == qbufsiz)) [
  | inl full ↦
      (rw full v, rw full (rw (length-slots q.char q.start q.count) (rw full refl)), rw full refl)
  | inr room ↦
      let less : q.count < qbufsiz = ground (arith, v.fits) in
      let at = v.end_at in
      (
        rw room (record {
          start_in = v.start_in;
          fits = omega (arith, less);
          end_at = omega (arith, less, at);
        }),
        rw room (rw (length-slots q.char q.start q.count) (rw room (grown q c v less))),
        rw room refl,
      )
]
  where
    grown :
        (q : Qbuf) (c : ℕ)
        → IsValid q
        → q.count < qbufsiz
        → slots (update q.char q.end c) q.start (u32 (q.count + 1))
          ≡ slots q.char q.start q.count ++ c ∷ []
    grown q c v less =
        let up : u32 (q.count + 1) ≡ suc q.count = omega (arith, less) in
        let t = update q.char q.end c in
        let at : t ((q.start + q.count) % qbufsiz) ≡ c = grind (arith, v.end_at) in
        let kept =
          slots-update q.char q.start q.count q.end c
            (λ i lt e. absurd (omega (arith, e, v.end_at, lt, less, v.start_in))) in
        ap (slots t q.start) up
        ∙ slots-snoc t q.start q.count
        ∙ ap (λ (x : ℕ). slots t q.start q.count ++ x ∷ []) at
        ∙ ap (λ (xs : List ℕ). xs ++ c ∷ []) kept

-- What `getq` gives back: nothing changed and -1, or the oldest char and the queue of the rest.
pub data Gets (q : Qbuf) : Qbuf × ℕ → Type 0 where
  empty : contents q ≡ [] → Gets q (q, no_char)
  takes : (q' : Qbuf) (c : ℕ) → contents q ≡ c ∷ contents q' → IsValid q' → Gets q (q', c)

-- `getq` on a valid queue that is empty leaves it and gives -1, and on any other gives its oldest
-- char and leaves the rest; the queue stays valid.
pub getq-Gets : (q : Qbuf) → IsValid q → Gets q (getq q)
unfolding getq contents
getq-Gets q v = by_count q.count refl
  where
    by_count : (n : ℕ) → q.count ≡ n → Gets q (getq q)
    by_count zero e =
        let run : getq q ≡ (q, no_char) = ground (arith, e) in
        rw run (empty (ap (slots q.char q.start) e))
    by_count (suc n) e =
        let q' : Qbuf = record {
          start = u32 (q.start + 1) % qbufsiz;
          end = q.end;
          count = q.count - 1;
          char = q.char;
        } in
        let here : q.start % qbufsiz ≡ q.start = omega (arith, v.start_in) in
        let less : q.count - 1 ≡ n = omega (arith, e) in
        let rest : slots q.char (q.start + 1) n
            ≡ slots q.char (u32 (q.start + 1) % qbufsiz) (q.count - 1) =
          slots-mod q.char (q.start + 1) (u32 (q.start + 1) % qbufsiz) n (omega (arith, v.start_in))
          ∙ ap (slots q.char (u32 (q.start + 1) % qbufsiz)) (sym less) in
        let all : contents q ≡ q.char q.start ∷ contents q' =
          ap (slots q.char q.start) e
          ∙ ap (λ (i : ℕ). q.char i ∷ slots q.char (q.start + 1) n) here
          ∙ ap (◌∷◌ (q.char q.start)) rest in
        let good : IsValid q' = record {
          start_in = omega arith;
          fits = omega (arith, v.fits);
          end_at = omega (arith, e, v.end_at, v.start_in, v.fits);
        } in
        let run : getq q ≡ (q', q.char q.start) = ground (arith, e) in
        rw run (takes q' (q.char q.start) all good)

-- `eraseq` on a valid queue drops its newest char, if it holds any; the queue stays valid, and the
-- result tells the two cases apart.
pub eraseq_lem :
    (q : Qbuf)
    → IsValid q
    → IsValid (eraseq q).0
      × (contents (eraseq q).0 ≡ drop_last (contents q))
      × ((eraseq q).1 ≡ (if q.count == 0 then no_char else 0))
unfolding eraseq contents
eraseq_lem q v = by_count q.count refl
  where
    by_count :
        (n : ℕ)
        → q.count ≡ n
        → IsValid (eraseq q).0
          × (contents (eraseq q).0 ≡ drop_last (contents q))
          × ((eraseq q).1 ≡ (if q.count == 0 then no_char else 0))
    by_count zero e =
        let none_ : (q.count == 0) ≡ true = ground (arith, e) in
        rw none_ (
          v,
          ap (slots q.char q.start) e ∙ ap (λ (m : ℕ). drop_last (slots q.char q.start m)) (sym e),
          refl,
        )
    by_count (suc n) e =
        let less : q.count - 1 ≡ n = omega (arith, e) in
        let all : slots q.char q.start (q.count - 1) ≡ drop_last (slots q.char q.start q.count) =
          ap (slots q.char q.start) less
          ∙ sym (drop_last-snoc (slots q.char q.start n) (q.char ((q.start + n) % qbufsiz)))
          ∙ ap drop_last (sym (slots-snoc q.char q.start n))
          ∙ ap (λ (m : ℕ). drop_last (slots q.char q.start m)) (sym e) in
        let some_ : (q.count == 0) ≡ false = ground (arith, e) in
        rw some_ (
          record {
            start_in = v.start_in;
            fits = omega (arith, v.fits);
            end_at = omega (arith, e, v.end_at, v.start_in, v.fits);
          },
          all,
          refl,
        )
