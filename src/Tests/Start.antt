-- ===== src/Tests/Start.antt =====
-- A configuration of one process, from `main` to the queue.
use co2018_assignment.Base.{
  ℕ, suc, ◌<◌, ◌≡◌, refl, true, none, some, [], ◌∷◌, map, replicate, length, get_elem?, set, arith,
}
use co2018_assignment.Base.Int.{pos}
use co2018_assignment.Queue.Content.{offer}
use co2018_assignment.Scan.{
  codes, skip_space, read_digits, scan_one, scan_all, scan_line, read_word, word_of, scan_s,
}
use co2018_assignment.Scan.Decimal.{decimal, digits_onto}
use co2018_assignment.Memphy.{Memphy}
use co2018_assignment.Memphy.Frames.{IsPool}
use co2018_assignment.Vm.{nil}
use co2018_assignment.Cpu.{Pcb}
use co2018_assignment.Cpu.Legacy.{page_size}
use co2018_assignment.Timer.{Reach}
use co2018_assignment.Loader.{loads, load}
use co2018_assignment.Loader.Print.{print}
use co2018_assignment.Sched.{Sched, max_prio, init_scheduler}
use co2018_assignment.Sched.Init.{init_scheduler-Levels}
use co2018_assignment.Sched.Levels.{Levels}
use co2018_assignment.Os.{next_slot}
use co2018_assignment.Os.Config.Print.{print_config}
use co2018_assignment.Os.Config.RoundTrip.{as_process}
use co2018_assignment.Os.Loading.{Fresh, LdArgs, Ld, admit, loaded_proc, ld_rounds}
use co2018_assignment.Os.Loading.Start.{undisturbed, ld_rounds-start}
use co2018_assignment.Os.Boot.{Blank, Boot, boot}
use co2018_assignment.Os.Boot.Ready.{boot-print_config}
use co2018_assignment.Tests.{process, ram, swap}
use co2018_assignment.Tests.Static.{static, static-IsStatic}
use co2018_assignment.Tests.Texts.{wild, wild_pcb, program, loaded_text, entries, entries-IsEntry}

abbrev blank : Blank
blank = record { mp = ram; storage = []; links = [] }

boot-print_config_example :
    (r : Boot) × (boot
        (λ _. some (print_config 6 2 entries))
        (λ _. 0)
        blank
        (λ _. blank)
        static
        (codes "c" ∷ [])
      ≡ loads r)
    × (r.config.ld_processes ≡ map as_process entries)
    × Reach 3 r.timer
    × (length r.timer.devices ≡ 3)
    × Levels r.sched (replicate max_prio [])
    × IsPool r.mram
    × ((swap : Memphy) × (get_elem? r.mswp 0 ≡ some swap) × IsPool swap)
boot-print_config_example =
    boot-print_config (λ _. some (print_config 6 2 entries)) (λ _. 0) blank (λ _. blank) static
      (codes "c") 6 2 entries static-IsStatic (omega arith) (omega arith) (omega arith)
      (omega arith) (entries-IsEntry, tt) refl

abbrev fresh : Fresh
fresh = record {
  wild = wild;
  mallocs = record { vma0 = true; vma1 = true; pgd = true };
  list = nil;
  mm = process.mm;
}

abbrev ld_args : LdArgs
ld_args = record {
  file = λ _. some (print 1 program);
  fresh = λ _. fresh;
  ld_processes = map as_process entries;
  num_processes = pos 1;
  vmemsz = 0x300000;
  mram = ram;
  active_mswp = swap;
}

abbrev start_ld : Ld
start_ld = record { i = 0; proc = none; avail_pid = 1 }

abbrev loaded_pcb : Pcb
loaded_pcb = record wild_pcb {
  pid = 1;
  priority = 1;
  text = loaded_text;
  pc = 0;
  bp = page_size;
  prio = 3;
}

loads_first :
    loaded_proc ld_args start_ld
      (as_process (record { start_time = 2; name = codes "p1s"; prio = 3 }))
      none
    ≡ loads (loaded_pcb, 2)
unfolding loaded_proc load scan_all scan_one scan_line scan_s word_of read_word skip_space
    read_digits decimal digits_onto
loads_first = refl

abbrev idle : ℕ → Sched Pcb → Sched Pcb
idle _ s = s

ld_rounds-start_example :
    ((j : ℕ)
      → j < 2
      → ld_rounds idle ld_args (suc j) 0 start_ld (init_scheduler static)
        ≡ loads (
          next_slot,
          record { i = 0; proc = some loaded_pcb; avail_pid = 2 },
          undisturbed idle 0 (suc j) (init_scheduler static),
        ))
    × ((s' : Sched Pcb) × (ld_rounds idle ld_args 3 0 start_ld (init_scheduler static)
          ≡ loads (next_slot, record { i = 1; proc = none; avail_pid = 2 }, s'))
        × Levels s' (set (replicate max_prio []) 3 (offer [] (admit ld_args 0 loaded_pcb))))
ld_rounds-start_example =
    ld_rounds-start idle ld_args 2 0 start_ld (init_scheduler static) [] (omega arith) refl
      loads_first refl (init_scheduler-Levels static-IsStatic) refl
