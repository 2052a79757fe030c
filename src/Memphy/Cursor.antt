-- ===== src/Memphy/Cursor.antt =====
-- Where `MEMPHY_mv_csr` leaves the cursor.
use co2018_assignment.Base.{
  ℕ, zero, suc, ◌+◌, ◌-◌, ◌%◌, ◌≤◌, ◌<◌, min, ◌≡◌, sym, ap, ◌∙◌, ltb, ◌&&◌, Bool-cases, inl, inr,
  arith, if◌then◌else◌,
}
use native.Mathlib.Nat.{mod-eq_of_lt, mod_self, zero-mod}
use native.Mathlib.Decide.{dec_lt}
use co2018_assignment.Memphy.{Memphy, mv_csr_loop, mv_csr}

abbrev at : Memphy → ℕ → Memphy
at mp c = record mp { cursor = c }

-- With fuel for the steps that are left, the loop stops at the smaller of offset and size.
mv_csr_loop_lem :
    (fuel offset numstep : ℕ) (mp : Memphy)
    → numstep ≤ min offset mp.maxsz
    → min offset mp.maxsz - numstep < fuel
    → mv_csr_loop fuel offset numstep (at mp (numstep % mp.maxsz))
      ≡ at mp (min offset mp.maxsz % mp.maxsz)
unfolding mv_csr_loop
mv_csr_loop_lem zero offset numstep mp le lt = absurd (omega arith)
mv_csr_loop_lem (suc fuel) offset numstep mp le lt =
    elim (Bool-cases (ltb numstep offset && ltb numstep mp.maxsz)) [
      | inl more ↦ rw more (
          ap (λ c. mv_csr_loop fuel offset (numstep + 1) (at mp c))
            (ap (λ (n : ℕ). (n + 1) % mp.maxsz) (mod-eq_of_lt (ground arith)))
          ∙ mv_csr_loop_lem fuel offset (numstep + 1) mp (ground arith) (ground arith))
      | inr stop ↦ rw stop (ap (λ (n : ℕ). at mp (n % mp.maxsz)) (ground arith))
    ]

stop_at : (offset size : ℕ) → min offset size % size ≡ (if ltb offset size then offset else 0)
stop_at offset size = elim (dec_lt offset size) [
  | yes below ↦ ground (arith, mod-eq_of_lt below)
  | no above ↦ ground (arith, mod_self size)
]

-- `MEMPHY_mv_csr` ends, within the fuel given, with the cursor at `offset`, or back at 0 if that is
-- not below the size; nothing else of the device changes.
pub mv_csr_lem :
    (mp : Memphy) (offset : ℕ)
    → mv_csr mp offset ≡ record mp { cursor = if ltb offset mp.maxsz then offset else 0 }
unfolding mv_csr
mv_csr_lem mp offset =
    ap (λ c. mv_csr_loop (mp.maxsz + 1) offset 0 (at mp c)) (sym (zero-mod mp.maxsz))
    ∙ mv_csr_loop_lem (mp.maxsz + 1) offset 0 mp (omega arith) (omega arith)
    ∙ ap (at mp) (stop_at offset mp.maxsz)
