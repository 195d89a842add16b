-- ===== src/Keyboard/Held.antt =====
-- Which of SHIFT, CTRL and ALT are held, by do_keybd_intr of src/chr/keybd.c.
use fleurix.Base.{
  ℕ, ◌%◌, ◌<◌, ◌≡◌, ◌≢◌, ◌⊎◌, refl, sym, ap, subst, ◌∙◌, Bool, true, false, ◌&&◌, ◌||◌, not, none,
  some, List, [], ◌∷◌, leb, ltb, ◌==◌, if◌then◌else◌, inl, inr, Bool-cases, Option-cases, arith,
}
use fleurix.Base.Bits.{has_bit, has_bit-set, has_bit-clear}
use fleurix.Kernel.{Kernel}
use fleurix.Tty.{Tty}
use fleurix.Keyboard.{e0_bit, shift, char_of, press, lift, on_key, by_shift, on_code, do_keybd_intr}

-- The keys SHIFT (two of them), CTRL and ALT, by their bits.
abbrev is_key : ℕ → ℕ → Bool
is_key j key =
    if j == 0
    then key == 0x2A || key == 0x36
    else if j == 1
    then key == 0x1D
    else j == 2 && key == 0x38

-- What a scan code says of modifier `j`.
abbrev step : ℕ → Bool → ℕ → Bool
step j held sc = if is_key j (sc % 128) then ltb sc 128 else held

shift-is_key : (key j : ℕ) → j < 3 → (shift false key ≡ some j) ⊎ (is_key j key ≡ false)
unfolding shift
shift-is_key key j h = elim (Bool-cases (is_key j key)) [
  | inl yes_key ↦ inl (ground (arith, yes_key))
  | inr no_key ↦ inr no_key
]

shift-some :
    (key b : ℕ)
    → shift false key ≡ some b
    → (b < 3) × (is_key b key ≡ true) × ((j : ℕ) → j ≢ b → is_key j key ≡ false)
unfolding shift
shift-some key b e = (ground (arith, e), ground (arith, e), λ j ne. ground (arith, e, ne))

shift_out : (key : ℕ) → shift false key ≡ none → (j : ℕ) → is_key j key ≡ false
unfolding shift
shift_out key e j = ground (arith, e)

-- A mode in which E0ESC is off and the modifiers are as in `m`, but for what a scan code says.
Stepped : ℕ → ℕ → ℕ → Type 0
Stepped sc m m' =
    (has_bit m' e0_bit ≡ false) × ((j : ℕ) → j < 3 → has_bit m' j ≡ step j (has_bit m j) sc)

unchanged :
    (sc m : ℕ) → has_bit m e0_bit ≡ false → ((j : ℕ) → is_key j (sc % 128) ≡ false) → Stepped sc m m
unfolding Stepped
unchanged sc m e out = (e, λ j h. let miss = out j in rw miss refl)

unescaped :
    (sc m m1 : ℕ)
    → ((j : ℕ) → j < 3 → has_bit m1 j ≡ has_bit m j)
    → ((j : ℕ) → is_key j (sc % 128) ≡ false)
    → Stepped sc m (lift m1 e0_bit)
unfolding Stepped
unescaped sc m m1 same out = (
  has_bit-clear 32 m1 e0_bit e0_bit (omega arith) (omega arith),
  λ j h.
      let other : (j == e0_bit) ≡ false = ground (arith, h) in
      has_bit-clear 32 m1 e0_bit j (omega arith) (omega arith) ∙ rw (other, out j) (same j h),
)

module _ (chan : ℕ) (k : Kernel) (tp : Tty) where
  on_key-Stepped :
      (sc m key : ℕ) (released : Bool)
      → has_bit m e0_bit ≡ false
      → ((j : ℕ) → is_key j (sc % 128) ≡ false)
      → Stepped sc m (on_key chan k tp m key released).0
  unfolding on_key
  on_key-Stepped sc m key released e out =
      elim (Bool-cases (not released && not (char_of m key == 0))) [
        | inl typed ↦ rw typed (unchanged sc m e out)
        | inr idle ↦ rw idle (unescaped sc m m (λ j h. refl) out)
      ]

  -- SHIFT, CTRL or ALT.
  modifier-Stepped :
      (sc m b : ℕ)
      → has_bit m e0_bit ≡ false
      → sc < 256
      → shift false (sc % 128) ≡ some b
      → Stepped sc m (if leb 128 sc then lift m b else press m b)
  unfolding Stepped
  modifier-Stepped sc m b e small s =
      let of_b = shift-some (sc % 128) b s in
      elim (Bool-cases (leb 128 sc)) [
        | inl up ↦ rw up (
          has_bit-clear 32 m b e0_bit (omega (arith, of_b.0)) (omega arith)
              ∙ (let other : (e0_bit == b) ≡ false = ground (arith, of_b.0) in rw other e),
          λ j h.
              has_bit-clear 32 m b j (omega (arith, of_b.0)) (omega arith)
              ∙ ended j false (let up' : ltb sc 128 ≡ false = ground (arith, up) in up'),
        )
        | inr down ↦ rw down (
          has_bit-set m b e0_bit
              ∙ (let other : (e0_bit == b) ≡ false = ground (arith, of_b.0) in rw other e),
          λ j h.
              has_bit-set m b j
              ∙ ended j true (let down' : ltb sc 128 ≡ true = ground (arith, down) in down'),
        )
      ]
    where
      ended :
          (j : ℕ) (v : Bool)
          → ltb sc 128 ≡ v
          → (if j == b then v else has_bit m j) ≡ step j (has_bit m j) sc
      ended j v e = elim (Bool-cases (j == b)) [
        | inl same ↦
            let i : j ≡ b = ground (arith, same) in
            let hit : is_key j (sc % 128) ≡ true =
              ap (λ (n : ℕ). is_key n (sc % 128)) i ∙ (shift-some (sc % 128) b s).1 in
            rw (same, hit) (sym e)
        | inr other ↦
            let miss = (shift-some (sc % 128) b s).2 j (ground (arith, other)) in
            rw (other, miss) refl
      ]

  on_code-Stepped :
      (sc m : ℕ) → has_bit m e0_bit ≡ false → sc < 256 → Stepped sc m (on_code chan k tp m sc).0
  unfolding on_code
  on_code-Stepped sc m e small = elim (Option-cases (shift false (sc % 128))) [
    | inl other ↦
        rw (on_code, e, other, by_shift)
          (on_key-Stepped sc m (sc % 128) (leb 128 sc) e (shift_out (sc % 128) other))
    | inr (b, modifier) ↦
        rw (on_code, e, modifier, by_shift) (modifier-Stepped sc m b e small modifier)
  ]

  -- The prefix is taken for a key that is released, which turns E0ESC off again.
  prefix-Stepped : (m : ℕ) → Stepped 0xE0 m (on_code chan k tp (press m e0_bit) 0xE0).0
  unfolding on_code shift on_key
  prefix-Stepped m =
      let on = has_bit-set m e0_bit e0_bit in
      rw (on_code, on, by_shift)
        (unescaped 0xE0 m (press m e0_bit)
          (λ j h.
            let other : (j == e0_bit) ≡ false = ground (arith, h) in
            has_bit-set m e0_bit j ∙ rw other refl)
          (λ j. ground arith))

  -- One scan code.
  do_keybd_intr-Stepped :
      (sc m : ℕ)
      → has_bit m e0_bit ≡ false
      → sc < 256
      → Stepped sc m (do_keybd_intr chan k tp m 1 sc).0
  unfolding do_keybd_intr
  do_keybd_intr-Stepped sc m e small = elim (Bool-cases (sc % 128 == 0x3A)) [
    | inl caps ↦
        let key : sc % 128 ≡ 0x3A = ground (arith, caps) in
        rw caps (unchanged sc m e (λ j. ground (arith, key)))
    | inr other ↦ rw other (elim (Bool-cases (sc == 0xE0)) [
      | inl prefix ↦
          let same : sc ≡ 0xE0 = ground (arith, prefix) in
          rw prefix (
            subst (λ (c : ℕ). Stepped c m (on_code chan k tp (press m e0_bit) c).0) (sym same)
              (prefix-Stepped m))
      | inr plain ↦ rw plain (on_code-Stepped sc m e small)
    ])
  ]

-- The mode after a sequence of interrupts that find a scan code each. What `tty_input` does to the
-- kernel and the terminal is passed on.
abbrev pub modes : ℕ → Kernel → Tty → ℕ → List ℕ → ℕ
modes chan k tp mode [] = mode
modes chan k tp mode (sc ∷ codes) =
    let r = do_keybd_intr chan k tp mode 1 sc in modes chan r.1.0 r.1.1 r.0 codes

-- The keys of modifier `j` were last pressed, and not released.
abbrev pub last_pressed : ℕ → Bool → List ℕ → Bool
last_pressed j held [] = held
last_pressed j held (sc ∷ codes) = last_pressed j (step j held sc) codes

abbrev AreBytes : List ℕ → Type 0
AreBytes [] = Unit
AreBytes (sc ∷ codes) = (sc < 256) × AreBytes codes

-- From a mode without E0ESC, after any sequence of scan codes E0ESC is off, and SHIFT, CTRL and ALT
-- are each on exactly when the last scan code of one of its keys was a press, or none came and it was
-- on before; left and right keys, with the prefix E0 or not, are one.
pub modes-last_pressed :
    (chan : ℕ) (k : Kernel) (tp : Tty) (mode : ℕ) (codes : List ℕ)
    → has_bit mode e0_bit ≡ false
    → AreBytes codes
    → (has_bit (modes chan k tp mode codes) e0_bit ≡ false)
      × ((j : ℕ)
          → j < 3
          → has_bit (modes chan k tp mode codes) j ≡ last_pressed j (has_bit mode j) codes)
unfolding Stepped
modes-last_pressed chan k tp mode [] e bytes = (e, λ j h. refl)
modes-last_pressed chan k tp mode (sc ∷ codes) e bytes =
    let r = do_keybd_intr chan k tp mode 1 sc in
    let first = do_keybd_intr-Stepped chan k tp sc mode e bytes.0 in
    let later = modes-last_pressed chan r.1.0 r.1.1 r.0 codes first.0 bytes.1 in
    (later.0, λ j h. later.1 j h ∙ ap (λ (held : Bool). last_pressed j held codes) (first.1 j h))
