-- ===== src/Os/Simulation/Brings.antt =====
-- What a round of the loader brings to the threads of ossim_source_code/src/os.c.
use co2018_assignment.Base.{
  ℕ, ◌≡◌, ◌≢◌, refl, ap, ◌∙◌, true, false, none, some, Option, [], ◌∷◌, ◌==◌, arith,
}
use co2018_assignment.Scan.Decimal.{if_true, if_false}
use co2018_assignment.Cpu.{Pcb}
use co2018_assignment.Loader.{loads}
use co2018_assignment.Os.Config.{LdProcess}
use co2018_assignment.Os.Loading.{LdArgs, Ld, admit, loaded_proc}
use co2018_assignment.Os.Simulation.{queued, admitted}

pub queued-same :
    (a : LdArgs) (ld ld' : Ld) (o : Option LdProcess) → ld'.i ≡ ld.i → queued a ld ld' o ≡ []
queued-same a ld ld' none e = refl
queued-same a ld ld' (some p) e =
    if_true _ _ (let same : (ld'.i == ld.i) ≡ true = ground arith in same)

pub queued-next :
    (a : LdArgs) (ld ld' : Ld) {o : Option LdProcess} {e : LdProcess} {p : Pcb} {pid : ℕ}
    → ld'.i ≢ ld.i
    → o ≡ some e
    → loaded_proc a ld e ld.proc ≡ loads (p, pid)
    → queued a ld ld' o ≡ admit a ld.i p ∷ []
queued-next a ld ld' {e} ne entry found =
    ap (queued a ld ld') entry
    ∙ (if_false _ _ (let differs : (ld'.i == ld.i) ≡ false = ground arith in differs)
        ∙ ap (admitted a ld.i) found)
