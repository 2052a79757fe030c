-- ===== src/Lib.antt =====
-- The operating system simulator under ossim_source_code: threads, scheduler, memory management.
--
-- Parts, and how they interact. The simulator runs processes on several CPUs. `run` (cpu.c) executes
-- one instruction of a process; the scheduler (sched.c) holds the processes that are ready in one
-- queue (queue.c) for each priority level. An instruction that allocates, frees, reads or writes goes
-- to the virtual memory (mm-vm.c, mm.c), which keeps areas with lists of free regions, a symbol table
-- and a page directory for each process, and moves pages between two devices (mm-memphy.c), the
-- memory and the active swap device. `main` (os.c) reads a configuration and starts a thread for each
-- CPU and one that loads the processes from texts (loader.c) and queues them; all these threads go on
-- from one time slot to the next together, which the thread of the timer (timer.c) sees to.
--
-- Which file models which part, with paths below ossim_source_code:
--   Base      arrays, signed integers, bits, and calls that may fault
--   Queue     src/queue.c: `empty`, `enqueue`, `dequeue`; `Queue.Content` is the abstract queue
--   Sched     src/sched.c with MLQ_SCHED: all its functions, under their names; `Sched.Single` has
--             those of the build without it, as `get_proc_single` and so on
--   Memphy    src/mm-memphy.c: `MEMPHY_read` is `read`, and so on; `Memphy.Copy` is
--             `__swap_cp_page` of src/mm.c
--   Pte       include/bitops.h, the macros of include/mm.h, `init_pte`, `pte_set_swap` and
--             `pte_set_fpn` of src/mm.c
--   Vm        the structures of include/os-mm.h
--   Vm.Area   `init_mm` of src/mm.c, `get_vma_by_num`, `validate_overlap_vm_area`, `inc_vma_limit`
--   Vm.Regions  `get_free_vmrg_area`, `__alloc` (`alloc`), `__free` (`free`) and their callers
--   Vm.Page   `find_victim_page`, `pg_getpage`, `pg_getval`, `pg_setval`, `__read` (`read_symbol`),
--             `__write` (`write_symbol`), `pgread`, `pgwrite`, `free_pcb_memph`
--   Vm.Map    `alloc_pages_range`, `vmap_page_range`, `vm_map_ram` of src/mm.c
--   Vm.Print, Memphy.Dump, Cpu.Legacy.Dump  the printing functions of src/mm.c, `MEMPHY_dump`, and
--             `dump` of src/mem.c, by their lines
--   Cpu       `run` of src/cpu.c; `Cpu.Legacy` is the build without paging, with src/mem.c,
--             `load` of that build and, as `paging_main`, `main` of src/paging.c
--   Timer     src/timer.c: its thread and the devices as steps of one system; `Timer.Devices` has
--             `next_slot` and `detach_event`
--   Scan      what `fscanf` does for the formats that are used; `Scan.Decimal` is about numbers
--   Loader    `get_opcode` and `load` of src/loader.c; `Loader.Print` writes such texts
--   Os        the loop of `cpu_routine` of src/os.c, over an interface that the processes of cpu.c
--             and the two shared devices fill; `Os.Conserve` counts processes
--   Os.Threads  any number of CPUs and the loader, their rounds in any order
--   Os.Config   `read_config`; `Os.Config.Print` writes such texts
--   Os.Loading  `ld_routine`
--   Os.Boot   `main` up to the creation of its threads
--   Os.Simulation  all threads of the program together, from their creation in `main` to its return:
--             the CPUs and the loader with their devices, the timer's thread, and `main`
--   Tests     concrete inputs
--
-- State and errors. A function takes the structures that it changes and returns them. A call that runs
-- into undefined behaviour of C (a null or dangling pointer that is followed, an array access out of
-- range, an `int` that overflows in `__alloc`) returns `none`. The results 0 and -1 are `done` and
-- `failed`. What a variable or a block from `malloc` holds before it is set is an argument. Pointers
-- become values, except where aliasing or lifetime matters: the list of free regions has a constructor
-- for a dangling pointer. A function that holds a lock throughout is one step. In Loader and Os the
-- result type `Load` has `exits`, for `exit(1)`, beside `faults`. A text is the list of its bytes, and
-- the file system is a function from paths to texts that the theorems take as it comes.
--
-- Threads. In Timer a state has the globals of timer.c and, for each thread, where it stands, and a
-- step is one critical section of any thread. A wait on a condition is a step that is not there until
-- the condition holds, as the signal is sent under the lock that the waiter holds for its test.
-- `slots` counts the calls of `next_slot` that have returned; no code reads it. The rounds of a CPU
-- and of the loader are what these threads do between two such calls. In Os.Simulation a round with the
-- call of `next_slot` or `detach_event` at its end is one step, and the loader reads `_time` there; the
-- return of `next_slot`, each step of the timer's thread, and each step of `main` are steps of their
-- own. `log` lists the instructions that were run; no code reads it.
--
-- Integers. Numbers are natural numbers; the wrap-around of `unsigned long` and of `uint32_t` is
-- written out, and an `int` that may be negative is of the type `ℤ`. Frame numbers, page numbers and
-- device addresses are not negative, and their products are not cut to 32 bits. `BITS_PER_LONG` is 32,
-- as no build file defines CONFIG_64BIT.
--
-- Bounds and fuel. The loops with a counter recurse on the rounds that are left. `MEMPHY_mv_csr` has
-- fuel for `maxsz + 1` rounds, and the search of `get_free_vmrg_area` has `fit_fuel`, one round for
-- each byte and each region of the list; that these are enough is among the results. `decimal`
-- writes up to twenty digits, enough for 64 bits. `timer_steps` takes the number of steps. The loop of
-- `__alloc` has `size + 1` rounds: each takes 256 bytes off, or ends.
--
-- Not modelled: the layout of what is printed, and other printing; the builds
-- without MLQ_SCHED, but for its scheduler, and, in read_config, without MM_FIXED_MEMSZ; failure of `malloc`
-- where the code does not test for it; interleavings of several CPUs inside a function.
pub mod Base
pub mod Queue
pub mod Sched
pub mod Memphy
pub mod Pte
pub mod Timer
pub mod Scan
pub mod Vm
pub mod Cpu
pub mod Loader
pub mod Os
pub mod Tests
