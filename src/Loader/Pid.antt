-- ===== src/Loader/Pid.antt =====
-- The pid that `load` of ossim_source_code/src/loader.c gives.
use co2018_assignment.Base.{ℕ, ◌+◌, ◌%◌, ◌^◌, ◌≡◌, refl, subst, Option, none, some, List}
use co2018_assignment.Scan.{Bytes, scan_all, store_u}
use co2018_assignment.Cpu.{Inst, Pcb}
use co2018_assignment.Loader.{
  Load, loads, exits, faults, ◌>>=◌, defined, Wild, header, load_text, loaded, load_body, load_file,
  load,
}

module _ (w : Wild) (avail_pid : ℕ) where
  abbrev Numbered : Load (Pcb × ℕ) → Type 0
  Numbered (loads (p, next)) = (p.pid ≡ avail_pid) × (next ≡ (avail_pid + 1) % 2 ^ 32) × (p.pc ≡ 0)
  Numbered exits = Unit
  Numbered faults = Unit

  load_body-Numbered :
      (priority : ℕ) (r : Load (List Inst))
      → Numbered (r >>= λ text. loads (loaded w avail_pid priority text))
  unfolding loaded
  load_body-Numbered priority (loads text) = (refl, refl, refl)
  load_body-Numbered priority exits = tt
  load_body-Numbered priority faults = tt

  load_file-Numbered : (o : Option Bytes) → Numbered (load_file w avail_pid o)
  unfolding load_file load_body
  load_file-Numbered none = tt
  load_file-Numbered (some s) = go (scan_all store_u 2 s)
    where
      go :
          (o : Option (List ℕ × Bytes))
          → Numbered (defined o >>= λ q. load_body w avail_pid q.1 (header q.0 w))
      go none = tt
      go (some (ns, rest)) =
          load_body-Numbered (header ns w).0 (load_text (header ns w).1 w.text 0 none rest)

  -- The process has the next free pid, and the one after it, modulo 2 ^ 32, is the next; it stands at its first instruction.
  pub load-pid :
      (file : Bytes → Option Bytes) (path : Bytes) {p : Pcb} {next : ℕ}
      → load file w avail_pid path ≡ loads (p, next)
      → (p.pid ≡ avail_pid) × (next ≡ (avail_pid + 1) % 2 ^ 32) × (p.pc ≡ 0)
  unfolding load
  load-pid file path e = subst Numbered e (load_file-Numbered (file path))
