-- ===== src/Os/Boot/Ready.antt =====
-- What `main` of ossim_source_code/src/os.c hands to its threads.
use co2018_assignment.Base.{
  ℕ, suc, ◌^◌, ◌<◌, ◌≡◌, Option, some, List, [], ◌∷◌, ◌++◌, length, All, map, replicate, refl, ap,
  ◌∙◌, get_elem?, lt→leb, arith,
}
use co2018_assignment.Scan.{Bytes, codes}
use co2018_assignment.Scan.Decimal.{if_false}
use co2018_assignment.Memphy.{Memphy}
use co2018_assignment.Memphy.Frames.{IsPool, init_memphy-IsPool}
use co2018_assignment.Cpu.{Pcb}
use co2018_assignment.Timer.{Reach, starts}
use co2018_assignment.Timer.Reached.{length-attached}
use co2018_assignment.Loader.{loads, ◌>>=◌}
use co2018_assignment.Sched.{Sched, max_prio}
use co2018_assignment.Sched.Init.{IsStatic, init_scheduler-Levels}
use co2018_assignment.Sched.Levels.{Levels}
use co2018_assignment.Os.Config.{read_config}
use co2018_assignment.Os.Config.Print.{Entry, IsEntry, print_config}
use co2018_assignment.Os.Config.RoundTrip.{as_process, read_config-print_config}
use co2018_assignment.Os.Boot.{Blank, Boot, boot, set_up}

-- With one argument of at most 93 bytes, static storage for the scheduler, and a configuration that
-- is printed in the file that the argument names, whose numbers and names are in the bounds that
-- `read_config` has, `main` comes to its threads: the processes are those of the configuration, in
-- order; the timer is started with a device for each CPU and one for the loader; every level of the
-- scheduler is empty; and of the memory and of the first swap device the free frames are distinct
-- and lie inside the device.
pub boot-print_config :
    (file : Bytes → Option Bytes) (wild : ℕ → ℕ) (ram : Blank) (swaps : ℕ → Blank)
    (current : Sched Pcb) (arg : Bytes) (a b : ℕ) (es : List Entry)
    → IsStatic current
    → length arg < 94
    → a < 2 ^ 31
    → b < 2 ^ 31
    → length es < 2 ^ 31
    → All IsEntry es
    → file (codes "input/" ++ arg) ≡ some (print_config a b es)
    → (r : Boot) × (boot file wild ram swaps current (arg ∷ []) ≡ loads r)
      × (r.config.ld_processes ≡ map as_process es)
      × Reach (suc b) r.timer
      × (length r.timer.devices ≡ suc b)
      × Levels r.sched (replicate max_prio [])
      × IsPool r.mram
      × ((swap : Memphy) × (get_elem? r.mswp 0 ≡ some swap) × IsPool swap)
unfolding boot
boot-print_config file wild ram swaps current arg a b es static short ha hb hc h at = (
  _,
  ap (λ l. l >>= (λ path. read_config file wild path >>= (λ c. loads (set_up ram swaps current c))))
        (if_false _ _ (lt→leb 94 (length arg) short))
      ∙ ap (λ l. l >>= (λ c. loads (set_up ram swaps current c)))
          (read_config-print_config file wild (codes "input/" ++ arg) a b es ha hb hc h at),
  refl,
  starts,
  length-attached (suc b),
  init_scheduler-Levels static,
  (init_memphy-IsPool ram.storage ram.links ram.mp 0x100000 1 (omega arith)).0,
  (
    _,
    refl,
    (init_memphy-IsPool (swaps 0).storage (swaps 0).links (swaps 0).mp 0x1000000 1 (omega arith)).0,
  ),
)
