-- ===== src/Scan/Decimal.antt =====
-- Decimal numbers as the files of ossim_source_code/input hold them, and how `%u` reads them.
use co2018_assignment.Base.{
  ℕ, zero, suc, ◌+◌, ◌*◌, ◌/◌, ◌%◌, ◌^◌, ◌<◌, ◌≡◌, Bool, true, false, Option, some, List, [], ◌∷◌,
  length, ltb, ◌==◌, if◌then◌else◌, ◌>>=◌, arith, refl, ◌∙◌, sym, ap,
}
use co2018_assignment.Base.Int.{pos}
use native.Mathlib.Decide.{dec_lt}
use co2018_assignment.Base.{lt→leb, lt→ltb, le→ltb}
use co2018_assignment.Scan.{
  Bytes, is_space, is_digit, skip_space, read_digits, scan_one, signed, stored, scan_all, scan_line,
  next_one, store_u, store_lu, store_d,
}

-- The digits of `n` before the bytes `ys`; twenty digits are enough for 64 bits.
unfoldable pub digits_onto : ℕ → ℕ → Bytes → Bytes
digits_onto zero n ys = (b'0' + n) ∷ ys
digits_onto (suc f) n ys =
    let more = digits_onto f (n / 10) ((b'0' + n % 10) ∷ ys) in
    if ltb n 10 then (b'0' + n) ∷ ys else more

unfoldable pub decimal : ℕ → Bytes → Bytes
decimal n ys = digits_onto 19 n ys

abbrev Fits : ℕ → ℕ → Type 0
Fits zero n = n < 10
Fits (suc f) n = Fits f (n / 10)

digit-is_digit : (d : ℕ) → d < 10 → is_digit (b'0' + d) ≡ true
digit-is_digit d h = ground arith

eq_test : (m n : ℕ) → m ≡ n → (m == n) ≡ true
eq_test m n e = ground arith

pub if_true {ℓ} : {A : Type ℓ} {b : Bool} (x y : A) → b ≡ true → (if b then x else y) ≡ x
if_true x y e = rw e refl

pub if_false {ℓ} : {A : Type ℓ} {b : Bool} (x y : A) → b ≡ false → (if b then x else y) ≡ y
if_false x y e = rw e refl

read_digit :
    (n d m : ℕ) (ys : Bytes)
    → d < 10
    → n * 10 + d ≡ m
    → read_digits n ((b'0' + d) ∷ ys) ≡ read_digits m ys
unfolding read_digits
read_digit n d m ys h e =
    if_true _ _ (digit-is_digit d h) ∙ ap (λ k. read_digits k ys) (omega (arith, e))

read_digits-digits_onto :
    (f n : ℕ) (ys : Bytes) → Fits f n → read_digits 0 (digits_onto f n ys) ≡ read_digits n ys
unfolding digits_onto
read_digits-digits_onto zero n ys h = read_digit 0 n n ys h (omega arith)
read_digits-digits_onto (suc f) n ys h = elim (dec_lt n 10) [
  | yes l ↦ ap (read_digits 0) (if_true _ _ (lt→ltb n 10 l)) ∙ read_digit 0 n n ys l (omega arith)
  | no g ↦
      ap (read_digits 0) (if_false _ _ (le→ltb n 10 (omega (arith, g))))
      ∙ (read_digits-digits_onto f (n / 10) ((b'0' + n % 10) ∷ ys) h
          ∙ read_digit (n / 10) (n % 10) n ys (omega arith) (omega arith))
]

-- A number starts with a digit.
digits_onto-head :
    (f n : ℕ) (ys : Bytes)
    → Fits f n
    → (d : ℕ) × (s : Bytes) × (d < 10) × (digits_onto f n ys ≡ (b'0' + d) ∷ s)
unfolding digits_onto
digits_onto-head zero n ys h = (n, ys, h, refl)
digits_onto-head (suc f) n ys h = elim (dec_lt n 10) [
  | yes l ↦ (n, ys, l, if_true _ _ (lt→ltb n 10 l))
  | no g ↦
      let rest = digits_onto-head f (n / 10) ((b'0' + n % 10) ∷ ys) h in
      (rest.0, rest.1, rest.2, if_false _ _ (le→ltb n 10 (omega (arith, g))) ∙ rest.3)
]

-- The byte behind a number.
abbrev pub Ends : Bytes → Type 0
Ends [] = Unit
Ends (c ∷ s) = is_digit c ≡ false

read_digits-Ends : (n : ℕ) (ys : Bytes) → Ends ys → read_digits n ys ≡ (n, ys)
unfolding read_digits
read_digits-Ends n [] h = refl
read_digits-Ends n (c ∷ s) h = if_false _ _ h

Fits-word : (n : ℕ) → n < 2 ^ 64 → Fits 19 n
Fits-word n h = omega arith

module _ {A : Type 0} (store : Bool → ℕ → Option A) where
  signed-digit :
      (d : ℕ) (s : Bytes)
      → d < 10
      → signed store ((b'0' + d) ∷ s) ≡ stored store false (read_digits 0 ((b'0' + d) ∷ s))
  unfolding scan_one
  signed-digit d s h =
      if_false _ _ not_minus ∙ (if_false _ _ not_plus ∙ if_true _ _ (digit-is_digit d h))
    where
      not_minus : (b'0' + d == b'-') ≡ false
      not_minus = ground arith

      not_plus : (b'0' + d == b'+') ≡ false
      not_plus = ground arith

skip_space-digit : (d : ℕ) (s : Bytes) → d < 10 → skip_space ((b'0' + d) ∷ s) ≡ (b'0' + d) ∷ s
unfolding skip_space
skip_space-digit d s h = if_false _ _ not_space
  where
    not_space : is_space (b'0' + d) ≡ false
    not_space = ground arith

pub skip_space-decimal :
    (n : ℕ) (ys : Bytes) → n < 2 ^ 64 → skip_space (decimal n ys) ≡ decimal n ys
unfolding decimal skip_space
skip_space-decimal n ys h =
    let (d, s, d_lt, eq) = digits_onto-head 19 n ys (Fits-word n h) in
    ap skip_space eq ∙ (skip_space-digit d s d_lt ∙ sym eq)

module _ {A : Type 0} (store : Bool → ℕ → Option A) where
  -- A number that the variable can hold is read back, whatever white space is before it.
  pub scan_one-decimal :
      (n : ℕ) (a : A) (xs ys : Bytes)
      → n < 2 ^ 64
      → store false n ≡ some a
      → Ends ys
      → skip_space xs ≡ decimal n ys
      → scan_one store xs ≡ some (some a, ys)
  unfolding scan_one decimal
  scan_one-decimal n a xs ys h keeps e at =
      let (d, s, d_lt, eq) = digits_onto-head 19 n ys (Fits-word n h) in
      ap (signed store) (at ∙ eq)
      ∙ (signed-digit store d s d_lt
          ∙ (ap (stored store false) (
                ap (read_digits 0) (sym eq)
                ∙ (read_digits-digits_onto 19 n ys (Fits-word n h) ∙ read_digits-Ends n ys e))
              ∙ ap (λ o. o >>= (λ b. some (some b, ys))) keeps))

  pub scan_all-cons :
      (k : ℕ) (a : A) (xs ys zs : Bytes) (rest : List A)
      → scan_one store xs ≡ some (some a, ys)
      → scan_all store k ys ≡ some (rest, zs)
      → scan_all store (suc k) xs ≡ some (a ∷ rest, zs)
  unfolding scan_all
  scan_all-cons k a xs ys zs rest e h =
      ap (λ o. o >>= next_one store (scan_all store k)) e
      ∙ ap (λ o. o >>= (λ p. some (a ∷ p.0, p.1))) h

  -- The end of the line is skipped with what follows it.
  pub scan_line-all :
      (k : ℕ) (xs ys : Bytes) (found : List A)
      → scan_all store k xs ≡ some (found, b'\n' ∷ ys)
      → length found ≡ k
      → scan_line store k xs ≡ some (found, skip_space ys)
  unfolding scan_line skip_space
  scan_line-all k xs ys found e all =
      ap (λ o. o >>= (λ p. some (p.0, if length p.0 == k then skip_space p.1 else p.1))) e
      ∙ ap (λ b. some (found, if b then skip_space ys else b'\n' ∷ ys))
          (eq_test (length found) k all)

pub store_u-keeps : (n : ℕ) → n < 2 ^ 32 → store_u false n ≡ some n
store_u-keeps n h = if_false _ _ (lt→leb (2 ^ 32) n h)

pub store_lu-keeps : (n : ℕ) → n < 2 ^ 64 → store_lu false n ≡ some n
store_lu-keeps n h = if_false _ _ (lt→leb (2 ^ 64) n h)

pub store_d-keeps : (n : ℕ) → n < 2 ^ 31 → store_d false n ≡ some (pos n)
store_d-keeps n h = if_false _ _ (lt→leb (2 ^ 31) n h)
