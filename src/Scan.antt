-- ===== src/Scan.antt =====
-- What `fscanf` reads for the formats of ossim_source_code/src/loader.c and ossim_source_code/src/os.c,
-- which are made of `%u`, `%lu`, `%d`, `%s` and white space. A text is the list of its bytes. A number that the
-- variable cannot hold is `none`, which C leaves undefined.
pub mod Decimal
use co2018_assignment.Base.Int.{ℤ, pos, negsuc}
use Prim.Native.Char.{code}
use Prim.Native.String.{String}
use co2018_assignment.Base.{
  ℕ, zero, suc, ◌+◌, ◌-◌, ◌*◌, ◌%◌, ◌^◌, Bool, true, false, ◌&&◌, ◌||◌, Option, none, some, List,
  [], ◌∷◌, length, leb, ◌==◌, if◌then◌else◌, ◌>>=◌,
}

abbrev pub Bytes : Type 0
Bytes = List ℕ

abbrev pub codes : String → Bytes
codes String.[] = []
codes (String.◌∷◌ c s) = code c ∷ codes s

abbrev pub is_space : ℕ → Bool
is_space c = c == 32 || (leb 9 c && leb c 13)

abbrev pub is_digit : ℕ → Bool
is_digit c = leb b'0' c && leb c b'9'

unfoldable pub skip_space : Bytes → Bytes
skip_space [] = []
skip_space (c ∷ s) = let rest = skip_space s in if is_space c then rest else c ∷ s

unfoldable pub read_digits : ℕ → Bytes → ℕ × Bytes
read_digits n [] = (n, [])
read_digits n (c ∷ s) =
    let rest = read_digits (n * 10 + (c - b'0')) s in if is_digit c then rest else (n, c ∷ s)

-- What a number becomes in the variable: `%u`, `%lu` and `%d`. A minus sign is allowed in all.
abbrev pub unsigned : ℕ → Bool → ℕ → Option ℕ
unsigned w negative n =
    if leb (2 ^ w) n then none else some (if negative then (2 ^ w - n) % 2 ^ w else n)

abbrev pub store_u : Bool → ℕ → Option ℕ
store_u = unsigned 32

abbrev pub store_lu : Bool → ℕ → Option ℕ
store_lu = unsigned 64

abbrev pub store_d : Bool → ℕ → Option ℤ
store_d false n = if leb (2 ^ 31) n then none else some (pos n)
store_d true zero = some (pos 0)
store_d true (suc n) = if leb (2 ^ 31) n then none else some (negsuc n)

module _ {A : Type 0} (store : Bool → ℕ → Option A) where
  stored : Bool → ℕ × Bytes → Option (Option A × Bytes)
  stored negative (n, rest) = do a ← store negative n; some (some a, rest)

  -- After the sign, if there is one; without a digit nothing is stored, and the sign is gone.
  digits_of : Bool → Bytes → Option (Option A × Bytes)
  unfolding stored
  digits_of negative [] = some (none, [])
  digits_of negative (c ∷ s) =
      if is_digit c then stored negative (read_digits 0 (c ∷ s)) else some (none, c ∷ s)

  signed : Bytes → Option (Option A × Bytes)
  unfolding digits_of
  signed [] = some (none, [])
  signed (c ∷ s) =
      if c == b'-'
      then digits_of true s
      else if c == b'+'
      then digits_of false s
      else digits_of false (c ∷ s)

  -- One number: its value, where one is stored, and what is left.
  unfoldable pub scan_one : Bytes → Option (Option A × Bytes)
  unfolding signed
  scan_one s = signed (skip_space s)

  next_one : (Bytes → Option (List A × Bytes)) → Option A × Bytes → Option (List A × Bytes)
  next_one again (none, rest) = some ([], rest)
  next_one again (some n, rest) = do (ns, rest') ← again rest; some (n ∷ ns, rest')

  -- `k` numbers with white space between them: the values up to the first that is missing.
  unfoldable pub scan_all : ℕ → Bytes → Option (List A × Bytes)
  unfolding next_one
  scan_all zero s = some ([], s)
  scan_all (suc k) s = do first ← scan_one s; next_one (scan_all k) first

  -- The same with `\n` behind it, which skips any white space.
  unfoldable pub scan_line : ℕ → Bytes → Option (List A × Bytes)
  scan_line k s = do
    (ns, rest) ← scan_all k s
    some (ns, if length ns == k then skip_space rest else rest)

unfoldable pub read_word : Bytes → Bytes × Bytes
read_word [] = ([], [])
read_word (c ∷ s) =
    let rest = read_word s in if is_space c then ([], c ∷ s) else (c ∷ rest.0, rest.1)

unfoldable pub word_of : Bytes → Option Bytes × Bytes
word_of [] = (none, [])
word_of (c ∷ s) = let word = read_word (c ∷ s) in (some word.0, word.1)

-- `%s`: the word, where there is one.
unfoldable pub scan_s : Bytes → Option Bytes × Bytes
unfolding word_of
scan_s s = word_of (skip_space s)
