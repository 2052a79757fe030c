-- ===== src/Tests/Regions.antt =====
-- Areas and regions of a process with 300 free bytes, and one region in use.
use co2018_assignment.Base.{ℕ, ◌<◌, ◌≡◌, refl, some, none, [], ◌∷◌, arith, done, failed}
use co2018_assignment.Base.Int.{ℤ, pos}
use co2018_assignment.Vm.{Region, RgList, nil, node, Caller}
use co2018_assignment.Vm.Area.{validate_overlap_vm_area}
use co2018_assignment.Vm.Area.Limits.{EndsWithin, validate_overlap_lem}
use co2018_assignment.Vm.Regions.{fit_loop, fit_fuel, take_space, alloc, free, get_free_vmrg_area}
use co2018_assignment.Vm.Regions.Fit.{Outcome, fit_loop_lem}
use co2018_assignment.Vm.Regions.Alloc.{Allocated, alloc_lem, free_then_alloc}
use co2018_assignment.Vm.Regions.Fresh.{fresh, first_alloc_faults}
use co2018_assignment.Tests.{process, hole, area}

abbrev holes : RgList
holes = node (hole 0 300) (node (hole 400 500) nil)

fit_loop_lem_example :
    Outcome (pos 0) 100 holes (hole 0 0) (fit_loop 500 (pos 0) 100 holes (hole 0 0))
unfolding fit_fuel
fit_loop_lem_example =
    fit_loop_lem (pos 0) 100 (omega arith) (omega arith) 500 holes (hole 0 0) (omega arith)
      (omega arith, omega arith, (omega arith, omega arith, tt))

alloc_lem_example :
    Allocated process
      (pos 0)
      (pos 0)
      100
      (pos 0)
      (record (hole 0 0) { vmaid = pos 0 })
      (alloc (hole 0 0) process (pos 0) (pos 0) (pos 100) (pos 0))
alloc_lem_example =
    alloc_lem (hole 0 0) process (pos 0) (pos 0) 100 (pos 0) (omega arith) (omega arith)

free_then_alloc_example :
    (caller' : Caller) × (free process (pos 0) ≡ some (done, caller'))
    × (free caller' (pos 0) ≡ some (failed, caller'))
    × ((uninit : Region) (rgid : ℤ) (size : ℕ) (addr : ℤ)
        → 0 < size
        → alloc uninit caller' (pos 0) rgid (pos size) addr ≡ none)
free_then_alloc_example =
    free_then_alloc process 0 (hole 300 400) (area 0 (node (hole 0 300) nil)) (area 1 nil ∷ [])
      (omega arith) refl refl (omega arith) refl

first_alloc_faults_example :
    alloc (hole 0 0) (fresh process) (pos 0) (pos 2) (pos 300) (pos 0) ≡ none
first_alloc_faults_example =
    first_alloc_faults (hole 0 0) process (pos 2) 300 (pos 0) (omega arith) (omega arith)
      (omega arith)

validate_overlap_lem_example :
    (validate_overlap_vm_area process (pos 0) (pos 0) (pos 256) ≡ done
      → EndsWithin process.vmemsz process.mm.mmap (pos 0) (pos 0) (pos 256))
    × (EndsWithin process.vmemsz process.mm.mmap (pos 0) (pos 0) (pos 256)
        → validate_overlap_vm_area process (pos 0) (pos 0) (pos 256) ≡ done)
validate_overlap_lem_example = validate_overlap_lem process (pos 0) (pos 0) (pos 256)

-- A request of 100 bytes takes all three chunks of the first region, and keeps the last.
get_free_vmrg_area_test :
    (o : Caller) × (get_free_vmrg_area process (pos 0) 100 (hole 0 0)
      ≡ some (done, hole 200 300, o))
unfolding get_free_vmrg_area fit_loop fit_fuel take_space
get_free_vmrg_area_test = (_, refl)
