-- ===== src/Buf/Rings.antt =====
-- A doubly linked list that runs in a circle through its head, against a list of numbers.
use fleurix.Base.{
  ℕ, ◌≡◌, ◌≢◌, refl, true, false, List, [], ◌∷◌, ◌++◌, ◌==◌, if◌then◌else◌, arith, inl, inr,
  Bool-cases,
}
use fleurix.Pm.Chain.{mem, Distinct, mem-append, Distinct-snoc}

-- From `a` the links lead through `xs` to `b`, forwards and backwards.
abbrev pub Links : (ℕ → ℕ) → (ℕ → ℕ) → ℕ → List ℕ → ℕ → Type 0
Links nx pv a [] b = (nx a ≡ b) × (pv b ≡ a)
Links nx pv a (x ∷ xs) b = (nx a ≡ x) × (pv x ≡ a) × Links nx pv x xs b

pub record Ring (nx pv : ℕ → ℕ) (h : ℕ) (xs : List ℕ) : Type 0 where
  pub path : Links nx pv h xs h
  pub distinct : Distinct xs
  pub apart : mem h xs ≡ false

-- The list without the first `x`.
abbrev pub erase : ℕ → List ℕ → List ℕ
erase x [] = []
erase x (y ∷ ys) = if y == x then ys else y ∷ erase x ys

module _ (nx pv nx' pv' : ℕ → ℕ) where
  -- A path stays where its links stay.
  pub Links-frame :
      (a : ℕ) (xs : List ℕ) (b : ℕ)
      → ((j : ℕ) → mem j (a ∷ xs) ≡ true → nx' j ≡ nx j)
      → ((j : ℕ) → mem j (b ∷ xs) ≡ true → pv' j ≡ pv j)
      → Links nx pv a xs b
      → Links nx' pv' a xs b
  Links-frame a [] b n p h = (ground (arith, n a), ground (arith, p b))
  Links-frame a (x ∷ xs) b n p h = (
    ground (arith, n a),
    ground (arith, p x),
    Links-frame x xs b (λ j m. n j (ground arith)) (λ j m. p j (ground arith)) h.2,
  )

  -- A path whose first link leads from `c` now.
  Links-from :
      (a c : ℕ) (xs : List ℕ) (b : ℕ)
      → mem b xs ≡ false
      → Distinct xs
      → nx' c ≡ nx a
      → pv' (nx a) ≡ c
      → ((j : ℕ) → mem j xs ≡ true → nx' j ≡ nx j)
      → ((j : ℕ) → j ≢ nx a → mem j (b ∷ xs) ≡ true → pv' j ≡ pv j)
      → Links nx pv a xs b
      → Links nx' pv' c xs b
  Links-from a c [] b out d e f n p h = (ground arith, ground arith)
  Links-from a c (x ∷ xs) b out d e f n p h = (
    ground arith,
    ground arith,
    Links-frame x xs b n (λ j m. p j (λ same. ground arith) (ground arith)) h.2,
  )

module _ (nx pv : ℕ → ℕ) where
  -- What stands before and after a member of a path.
  pub Links-before :
      (a : ℕ) (xs : List ℕ) (b x : ℕ)
      → mem x xs ≡ true
      → Links nx pv a xs b
      → mem (pv x) (a ∷ xs) ≡ true
  Links-before a [] b x m h = absurd (ground arith)
  Links-before a (y ∷ ys) b x m h = ground (arith, Links-before y ys b x)

  pub Links-after :
      (a : ℕ) (xs : List ℕ) (b x : ℕ)
      → mem x xs ≡ true
      → Links nx pv a xs b
      → mem (nx x) (b ∷ xs) ≡ true
  Links-after a [] b x m h = absurd (ground arith)
  Links-after a (y ∷ []) b x m h = ground arith
  Links-after a (y ∷ z ∷ ys) b x m h = ground (arith, Links-after y (z ∷ ys) b x)

-- The last member of a path, or its start.
pub Links-last :
    (nx pv : ℕ → ℕ) (a : ℕ) (xs : List ℕ) (b : ℕ) → Links nx pv a xs b → mem (pv b) (a ∷ xs) ≡ true
Links-last nx pv a [] b p = ground arith
Links-last nx pv a (y ∷ ys) b p = ground (arith, Links-last nx pv y ys b p.2)

pub erase_head : (i : ℕ) (xs : List ℕ) → erase i (i ∷ xs) ≡ xs
erase_head i xs = ground arith

pub mem-erase : (a x : ℕ) (xs : List ℕ) → mem a xs ≡ true → a ≢ x → mem a (erase x xs) ≡ true
mem-erase a x [] m ne = m
mem-erase a x (y ∷ ys) m ne = ground (arith, mem-erase a x ys)

pub mem-erase_out : (a x : ℕ) (xs : List ℕ) → mem a xs ≡ false → mem a (erase x xs) ≡ false
mem-erase_out a x [] m = m
mem-erase_out a x (y ∷ ys) m = ground (arith, mem-erase_out a x ys)

pub erase-Distinct : (x : ℕ) (xs : List ℕ) → Distinct xs → Distinct (erase x xs)
erase-Distinct x [] d = d
erase-Distinct x (y ∷ ys) d = elim (Bool-cases (y == x)) [
  | inl hit ↦ rw hit d.1
  | inr miss ↦ rw miss (mem-erase_out y x ys d.0, erase-Distinct x ys d.1)
]

pub mem-erase_self : (x : ℕ) (xs : List ℕ) → Distinct xs → mem x (erase x xs) ≡ false
mem-erase_self x [] d = refl
mem-erase_self x (y ∷ ys) d = ground (arith, mem-erase_self x ys)

-- The links that the two stores of an unlinking leave.
pub record Unlinked (nx pv nx' pv' : ℕ → ℕ) (x : ℕ) : Type 0 where
  pub forth : (j : ℕ) → nx' j ≡ (if pv x == j then nx x else nx j)
  pub back : (j : ℕ) → pv' j ≡ (if nx x == j then pv x else pv j)

module _ {nx pv nx' pv' : ℕ → ℕ} {x : ℕ} (u : Unlinked nx pv nx' pv' x) where
  open u use {forth, back}

  Links-unlink :
      (a : ℕ) (xs : List ℕ) (b : ℕ)
      → mem x xs ≡ true
      → Distinct (a ∷ xs)
      → mem b xs ≡ false
      → Links nx pv a xs b
      → Links nx' pv' a (erase x xs) b
  Links-unlink a [] b m d out h = absurd (ground arith)
  Links-unlink a (y ∷ ys) b m d out h = elim (Bool-cases (y == x)) [
    | inl hit ↦
        let same : y ≡ x = ground arith in
        rw hit (
          Links-from nx pv nx' pv' y a ys b (ground arith) d.1.1 (ground (arith, forth a))
            (ground (arith, back (nx y))) (λ j i. ground (arith, forth j))
            (λ j ne i. ground (arith, back j)) h.2)
    | inr miss ↦
        let inside : mem x ys ≡ true = ground arith in
        let before = Links-before nx pv y ys b x inside h.2 in
        let after = Links-after nx pv y ys b x inside h.2 in
        rw miss (
          ground (arith, forth a, before),
          ground (arith, back y, after),
          Links-unlink y ys b inside d.1 (ground arith) h.2,
        )
  ]

  -- Unlinking a member takes it out of the list and no other.
  pub unlink-Ring :
      (h : ℕ) (xs : List ℕ) → mem x xs ≡ true → Ring nx pv h xs → Ring nx' pv' h (erase x xs)
  unlink-Ring h xs m r = record {
    path = Links-unlink h xs h m (r.apart, r.distinct) r.apart r.path;
    distinct = erase-Distinct x xs r.distinct;
    apart = mem-erase_out h x xs r.apart;
  }

-- The links that the four stores of an insertion before `h` leave.
pub record Appended (nx pv nx' pv' : ℕ → ℕ) (h x : ℕ) : Type 0 where
  pub forth : (j : ℕ) → nx' j ≡ (if pv h == j then x else if x == j then h else nx j)
  pub back : (j : ℕ) → pv' j ≡ (if h == j then x else if x == j then pv h else pv j)

module _ {nx pv nx' pv' : ℕ → ℕ} {h x : ℕ} (u : Appended nx pv nx' pv' h x) where
  open u use {forth, back}

  Links-append :
      (a : ℕ) (xs : List ℕ)
      → x ≢ h
      → x ≢ a
      → mem x xs ≡ false
      → Distinct (a ∷ xs)
      → mem h xs ≡ false
      → Links nx pv a xs h
      → Links nx' pv' a (xs ++ x ∷ []) h
  Links-append a [] ne ne' out d m p = (
    ground (arith, forth a),
    ground (arith, back x),
    (ground (arith, forth x), ground (arith, back h)),
  )
  Links-append a (y ∷ ys) ne ne' out d m p =
      let last = Links-last nx pv y ys h p.2 in
      (
        ground (arith, forth a),
        ground (arith, back y),
        Links-append y ys ne (ground arith) (ground arith) d.1 (ground arith) p.2,
      )

  -- An insertion before the head puts the new member at the end.
  pub append-Ring :
      (xs : List ℕ) → x ≢ h → mem x xs ≡ false → Ring nx pv h xs → Ring nx' pv' h (xs ++ x ∷ [])
  append-Ring xs ne out r = record {
    path = Links-append h xs ne ne out (r.apart, r.distinct) r.apart r.path;
    distinct = Distinct-snoc xs x out r.distinct;
    apart = ground (arith, mem-append h xs (x ∷ []));
  }

-- The links that the four stores of an insertion behind `h` leave.
pub record Prepended (nx pv nx' pv' : ℕ → ℕ) (h x : ℕ) : Type 0 where
  pub forth : (j : ℕ) → nx' j ≡ (if h == j then x else if x == j then nx h else nx j)
  pub back : (j : ℕ) → pv' j ≡ (if nx h == j then x else if x == j then h else pv j)

-- An insertion behind the head puts the new member at the front.
pub prepend-Ring :
    {nx pv nx' pv' : ℕ → ℕ} {h x : ℕ} (u : Prepended nx pv nx' pv' h x) (xs : List ℕ)
    → x ≢ h
    → mem x xs ≡ false
    → Ring nx pv h xs
    → Ring nx' pv' h (x ∷ xs)
prepend-Ring {nx} {pv} {nx'} {pv'} {h} {x} u xs ne out r =
    let first = Links-after nx pv h xs h in
    record {
      path = (
        ground (arith, forth h),
        ground (arith, back x, first_out xs r.path),
        Links-from nx pv nx' pv' h x xs h r.apart r.distinct (ground (arith, forth x))
            (ground (arith, back (nx h))) (λ j m. ground (arith, forth j, r.apart))
            (λ j ne' m. ground (arith, back j)) r.path,
      );
      distinct = (out, r.distinct);
      apart = ground (arith, r.apart);
    }
  where
    open u use {forth, back}

    first_out : (xs : List ℕ) → Links nx pv h xs h → mem x xs ≡ false → (nx h == x) ≡ false
    first_out [] p out = ground arith
    first_out (y ∷ ys) p out = ground arith

-- A ring stays when the links of its own members and of its head stay.
pub frame-Ring :
    {nx pv nx' pv' : ℕ → ℕ} (h : ℕ) (xs : List ℕ)
    → ((j : ℕ) → mem j (h ∷ xs) ≡ true → (nx' j ≡ nx j) × (pv' j ≡ pv j))
    → Ring nx pv h xs
    → Ring nx' pv' h xs
frame-Ring {nx} {pv} {nx'} {pv'} h xs same r = record {
  path = Links-frame nx pv nx' pv' h xs h (λ j m. (same j m).0) (λ j m. (same j m).1) r.path;
  distinct = r.distinct;
  apart = r.apart;
}
