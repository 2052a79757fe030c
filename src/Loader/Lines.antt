-- ===== src/Loader/Lines.antt =====
-- What the fscanf of ossim_source_code/src/loader.c finds in a line that was printed.
use co2018_assignment.Base.{ℕ, ◌^◌, ◌<◌, ◌≡◌, some, List, [], ◌∷◌, length, All, refl, arith}
use co2018_assignment.Scan.{Bytes, skip_space, scan_all, scan_line, store_u}
use co2018_assignment.Scan.Decimal.{
  Ends, scan_one-decimal, scan_all-cons, scan_line-all, store_u-keeps, skip_space-decimal,
}
use co2018_assignment.Loader.Print.{numbers}

abbrev pub IsWord : ℕ → Type 0
IsWord n = n < 2 ^ 32

-- What a line ends with is no digit.
pub numbers-Ends : (ns : List ℕ) (ys : Bytes) → Ends (numbers ns ys)
numbers-Ends [] ys = refl
numbers-Ends (n ∷ ns) ys = refl

pub scan_all-numbers :
    (ns : List ℕ) (ys : Bytes)
    → All IsWord ns
    → scan_all store_u (length ns) (numbers ns ys) ≡ some (ns, b'\n' ∷ ys)
unfolding scan_all skip_space
scan_all-numbers [] ys h = refl
scan_all-numbers (n ∷ ns) ys h =
    scan_all-cons store_u (length ns) n _ _ _ ns
      (scan_one-decimal store_u n n _ _ (omega arith) (store_u-keeps n h.0) (numbers-Ends ns ys)
        (skip_space-decimal n (numbers ns ys) (omega arith)))
      (scan_all-numbers ns ys h.1)

pub scan_line-numbers :
    (ns : List ℕ) (ys : Bytes)
    → All IsWord ns
    → scan_line store_u (length ns) (numbers ns ys) ≡ some (ns, skip_space ys)
scan_line-numbers ns ys h =
    scan_line-all store_u (length ns) _ ys ns (scan_all-numbers ns ys h) refl
