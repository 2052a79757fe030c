-- ===== src/Base/Bits.antt =====
-- `&` and `|` at variables. A word is cut at any bit, `hi * 2 ^ k + lo`, and both operations act on
-- the two pieces; from that come masks, cleared fields and inserted fields.
use Prim.Native.Nat.{
  ℕ, zero, suc, ◌+◌, ◌-◌, ◌*◌, ◌/◌, ◌%◌, ◌^◌, ◌≤◌, ◌<◌, min, max, bit_and, bit_or, digits,
  bit_and-bitwise, bit_or-bitwise,
}
use mathlib.Core.Path.{◌≡◌, refl, ap, ap₂, ◌∙◌}
use native.Mathlib.Nat.{pow-suc, one-le-pow, div-add-mod}
use native.Mathlib.Omega.{arith}

-- More fuel than digits does not matter.
fuel_irrelevant :
    (z : ℕ → ℕ) (f : ℕ → ℕ → ℕ) (n m a b : ℕ) → a ≤ n → a ≤ m → digits z f n a b ≡ digits z f m a b
fuel_irrelevant z f zero zero a b p q = refl
fuel_irrelevant z f zero (suc m) zero b p q = refl
fuel_irrelevant z f zero (suc m) (suc a) b p q = absurd (omega arith)
fuel_irrelevant z f (suc n) zero zero b p q = refl
fuel_irrelevant z f (suc n) zero (suc a) b p q = absurd (omega arith)
fuel_irrelevant z f (suc n) (suc m) zero b p q = refl
fuel_irrelevant z f (suc n) (suc m) (suc a) b p q = omega (
  arith,
  ap (λ (t : ℕ). t * 2 + f (suc a % 2) (b % 2))
      (fuel_irrelevant z f n m (suc a / 2) (b / 2) (omega arith) (omega arith)),
)

and_lowest : (a b : ℕ) → bit_and a b ≡ bit_and (a / 2) (b / 2) * 2 + min (a % 2) (b % 2)
and_lowest zero b = omega (arith, bit_and-bitwise 0 b, bit_and-bitwise 0 (b / 2))
and_lowest (suc a) b = omega (
  arith,
  bit_and-bitwise (suc a) b,
  bit_and-bitwise (suc a / 2) (b / 2),
  fuel_irrelevant (λ c. 0) min a (suc a / 2) (suc a / 2) (b / 2) (omega arith) (omega arith),
)

or_lowest : (a b : ℕ) → bit_or a b ≡ bit_or (a / 2) (b / 2) * 2 + max (a % 2) (b % 2)
or_lowest zero b = omega (arith, bit_or-bitwise 0 b, bit_or-bitwise 0 (b / 2))
or_lowest (suc a) b = omega (
  arith,
  bit_or-bitwise (suc a) b,
  bit_or-bitwise (suc a / 2) (b / 2),
  fuel_irrelevant (λ c. c) max a (suc a / 2) (suc a / 2) (b / 2) (omega arith) (omega arith),
)

and-zero_upto : (n a : ℕ) → a ≤ n → bit_and a 0 ≡ 0
and-zero_upto n zero h = refl
and-zero_upto zero (suc a) h = absurd (omega arith)
and-zero_upto (suc n) (suc a) h =
    omega (arith, and_lowest (suc a) 0, and-zero_upto n (suc a / 2) (omega arith))

or-zero_upto : (n a : ℕ) → a ≤ n → bit_or a 0 ≡ a
or-zero_upto n zero h = refl
or-zero_upto zero (suc a) h = absurd (omega arith)
or-zero_upto (suc n) (suc a) h =
    omega (arith, or_lowest (suc a) 0, or-zero_upto n (suc a / 2) (omega arith))

pub and-zero : (a : ℕ) → bit_and a 0 ≡ 0
and-zero a = and-zero_upto a a (omega arith)

pub or-zero : (a : ℕ) → bit_or a 0 ≡ a
or-zero a = or-zero_upto a a (omega arith)

pub zero-or : (a : ℕ) → bit_or 0 a ≡ a
zero-or a = bit_or-bitwise 0 a

pub zero-and : (a : ℕ) → bit_and 0 a ≡ 0
zero-and a = bit_and-bitwise 0 a

double-pow : (q k : ℕ) → q * 2 ^ suc k ≡ 2 * (q * 2 ^ k)
double-pow q k = omega (arith, ap (λ (t : ℕ). q * t) (pow-suc 2 k))

-- Both words cut at bit `k`.
pub and_cut :
    (k q r m s : ℕ)
    → r < 2 ^ k
    → s < 2 ^ k
    → bit_and (q * 2 ^ k + r) (m * 2 ^ k + s) ≡ bit_and q m * 2 ^ k + bit_and r s
and_cut zero q r m s hr hs = ground (arith, zero-and 0)
and_cut (suc k) q r m s hr hs = ground (
  arith,
  and_lowest (q * 2 ^ suc k + r) (m * 2 ^ suc k + s),
  and_lowest r s,
  double-pow q k,
  double-pow m k,
  double-pow (bit_and q m) k,
  pow-suc 2 k,
  and_cut k q (r / 2) m (s / 2) (omega (arith, pow-suc 2 k)) (omega (arith, pow-suc 2 k)),
)

pub or_cut :
    (k q r m s : ℕ)
    → r < 2 ^ k
    → s < 2 ^ k
    → bit_or (q * 2 ^ k + r) (m * 2 ^ k + s) ≡ bit_or q m * 2 ^ k + bit_or r s
or_cut zero q r m s hr hs = ground (arith, zero-or 0)
or_cut (suc k) q r m s hr hs = ground (
  arith,
  or_lowest (q * 2 ^ suc k + r) (m * 2 ^ suc k + s),
  or_lowest r s,
  double-pow q k,
  double-pow m k,
  double-pow (bit_or q m) k,
  pow-suc 2 k,
  or_cut k q (r / 2) m (s / 2) (omega (arith, pow-suc 2 k)) (omega (arith, pow-suc 2 k)),
)

and_ones_upto : (k r : ℕ) → r < 2 ^ k → bit_and r (2 ^ k - 1) ≡ r
and_ones_upto zero r h = omega (arith, and-zero r)
and_ones_upto (suc k) r h =
    and_lowest r (2 ^ suc k - 1)
    ∙ ap₂ (λ (x y : ℕ). bit_and (r / 2) x * 2 + min (r % 2) y) high low
    ∙ omega (arith, pow-suc 2 k, and_ones_upto k (r / 2) (omega (arith, pow-suc 2 k)))
  where
    high : (2 ^ suc k - 1) / 2 ≡ 2 ^ k - 1
    high = omega (arith, pow-suc 2 k, one-le-pow k 2)

    low : (2 ^ suc k - 1) % 2 ≡ 1
    low = omega (arith, pow-suc 2 k, one-le-pow k 2)

-- A mask of the `k` low bits keeps the remainder.
pub and_ones : (k a : ℕ) → bit_and a (2 ^ k - 1) ≡ a % 2 ^ k
and_ones k a =
    ap₂ bit_and (omega (arith, div-add-mod a (2 ^ k))) (omega arith)
    ∙ and_cut k (a / 2 ^ k) (a % 2 ^ k) 0 (2 ^ k - 1) (omega (arith, one-le-pow k 2))
        (omega (arith, one-le-pow k 2))
    ∙ omega (
      arith,
      ap (λ (t : ℕ). t * 2 ^ k) (and-zero (a / 2 ^ k)),
      and_ones_upto k (a % 2 ^ k) (omega (arith, one-le-pow k 2)),
    )

pub or_one : (q : ℕ) → bit_or q 1 ≡ q / 2 * 2 + 1
or_one q = omega (arith, or_lowest q 1, or-zero (q / 2))

-- Setting bit `k`.
pub set_bit :
    (k q r : ℕ) → r < 2 ^ k → bit_or (q * 2 ^ k + r) (1 * 2 ^ k + 0) ≡ (q / 2 * 2 + 1) * 2 ^ k + r
set_bit k q r h =
    or_cut k q r 1 0 h (omega (arith, one-le-pow k 2))
    ∙ ap₂ (λ (x y : ℕ). x * 2 ^ k + y) (or_one q) (or-zero r)

-- Cutting out a field of `n` bits that stands `l` bits up, below `t` other bits.
pub clear_field :
    (t n l q f r : ℕ)
    → q < 2 ^ t
    → f < 2 ^ n
    → r < 2 ^ l
    → bit_and ((q * 2 ^ n + f) * 2 ^ l + r) (((2 ^ t - 1) * 2 ^ n + 0) * 2 ^ l + (2 ^ l - 1))
      ≡ (q * 2 ^ n + 0) * 2 ^ l + r
clear_field t n l q f r hq hf hr =
    and_cut l (q * 2 ^ n + f) r ((2 ^ t - 1) * 2 ^ n + 0) (2 ^ l - 1) hr
      (omega (arith, one-le-pow l 2))
    ∙ ap₂ (λ (x y : ℕ). x * 2 ^ l + y)
        (and_cut n q f (2 ^ t - 1) 0 hf (omega (arith, one-le-pow n 2))
          ∙ ap₂ (λ (x y : ℕ). x * 2 ^ n + y) (and_ones_upto t q hq) (and-zero f))
        (and_ones_upto l r hr)

-- The low `n` bits of `u`, moved up by `l`.
pub keep_field :
    (n l u : ℕ) → bit_and (u * 2 ^ l + 0) ((2 ^ n - 1) * 2 ^ l + 0) ≡ u % 2 ^ n * 2 ^ l + 0
keep_field n l u =
    and_cut l u 0 (2 ^ n - 1) 0 (omega (arith, one-le-pow l 2)) (omega (arith, one-le-pow l 2))
    ∙ ap₂ (λ (x y : ℕ). x * 2 ^ l + y) (and_ones n u) (and-zero 0)

-- Filling a cleared field.
pub fill_field :
    (n l q w r : ℕ)
    → w < 2 ^ n
    → r < 2 ^ l
    → bit_or ((q * 2 ^ n + 0) * 2 ^ l + r) ((0 * 2 ^ n + w) * 2 ^ l + 0)
      ≡ (q * 2 ^ n + w) * 2 ^ l + r
fill_field n l q w r hw hr =
    or_cut l (q * 2 ^ n + 0) r (0 * 2 ^ n + w) 0 hr (omega (arith, one-le-pow l 2))
    ∙ ap₂ (λ (x y : ℕ). x * 2 ^ l + y)
        (or_cut n q 0 0 w (omega (arith, one-le-pow n 2)) hw
          ∙ ap₂ (λ (x y : ℕ). x * 2 ^ n + y) (or-zero q) (zero-or w))
        (or-zero r)

-- Reading the `n` bits that stand `l` bits up.
pub read_field :
    (n l q r : ℕ)
    → r < 2 ^ l
    → bit_and (q * 2 ^ l + r) ((2 ^ n - 1) * 2 ^ l + 0) ≡ q % 2 ^ n * 2 ^ l + 0
read_field n l q r h =
    and_cut l q r (2 ^ n - 1) 0 h (omega (arith, one-le-pow l 2))
    ∙ ap₂ (λ (x y : ℕ). x * 2 ^ l + y) (and_ones n q) (and-zero r)
