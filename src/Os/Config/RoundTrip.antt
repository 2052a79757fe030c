-- ===== src/Os/Config/RoundTrip.antt =====
-- What `read_config` of ossim_source_code/src/os.c reads from a configuration that was printed.
use co2018_assignment.Base.{
  ℕ, ◌+◌, ◌-◌, ◌^◌, ◌<◌, ◌≡◌, false, Option, some, List, [], ◌∷◌, ◌++◌, length, All, refl, ap, ◌∙◌,
  arith, map, replicate, lt→leb,
}
use co2018_assignment.Base.Int.{pos}
use co2018_assignment.Scan.{
  Bytes, codes, is_space, skip_space, scan_one, scan_all, scan_line, scan_s, store_d, store_lu,
  read_word, word_of,
}
use co2018_assignment.Scan.Decimal.{
  decimal, Ends, scan_one-decimal, scan_all-cons, scan_line-all, skip_space-decimal, store_d-keeps,
  store_lu-keeps, if_false,
}
use co2018_assignment.Loader.{Load, loads, defined, ◌>>=◌}
use co2018_assignment.Os.Config.{
  LdProcess, Config, paging_max_mmswp, take_prio, take_name, take_start, read_process,
  read_processes, read_body, read_text, read_config,
}
use co2018_assignment.Os.Config.Print.{Entry, IsEntry, entry_line, entry_lines, print_config}

read_word-name :
    (xs ys : Bytes)
    → All (λ c. is_space c ≡ false) xs
    → read_word (xs ++ (b' ' ∷ ys)) ≡ (xs, b' ' ∷ ys)
unfolding read_word
read_word-name [] ys h = refl
read_word-name (c ∷ xs) ys h =
    if_false _ _ h.0 ∙ ap (λ p. (c ∷ p.0, p.1)) (read_word-name xs ys h.1)

scan_s-name :
    (xs ys : Bytes)
    → All (λ c. is_space c ≡ false) xs
    → (xs ≡ [] → ⊥)
    → scan_s (b' ' ∷ (xs ++ (b' ' ∷ ys))) ≡ (some xs, b' ' ∷ ys)
unfolding scan_s skip_space
scan_s-name [] ys h ne = absurd (ne refl)
scan_s-name (c ∷ xs) ys h ne =
    ap word_of (if_false _ _ h.0) ∙ ap (λ p. (some p.0, p.1)) (read_word-name (c ∷ xs) ys h)

skip_space-entry_lines :
    (es : List Entry) → All IsEntry es → skip_space (entry_lines es) ≡ entry_lines es
unfolding skip_space
skip_space-entry_lines [] h = refl
skip_space-entry_lines (e ∷ es) h = skip_space-decimal e.start_time _ h.0.start_time

abbrev pub as_process : Entry → LdProcess
as_process e = record {
  path = codes "input/proc/" ++ e.name;
  start_time = e.start_time;
  prio = e.prio;
}

read_process-entry :
    (wild : ℕ) (e : Entry) (es : List Entry) (s : Bytes)
    → IsEntry e
    → All IsEntry es
    → skip_space s ≡ entry_line e (entry_lines es)
    → read_process wild s ≡ loads (as_process e, entry_lines es)
unfolding read_process skip_space
read_process-entry wild e es s h hs at =
    ap (λ o. defined o >>= take_start wild)
      (scan_one-decimal store_lu e.start_time e.start_time s _ h.start_time
        (store_lu-keeps e.start_time h.start_time) refl at)
    ∙ (ap (take_name wild e.start_time) (scan_s-name e.name _ h.word h.some_byte)
        ∙ (ap (λ l. l >>= finish) (if_false _ _ (lt→leb 89 (length e.name) h.short))
            ∙ (ap (λ o. defined o >>= (λ last. loads (take_prio wild e.start_time path last)))
                  (scan_one-decimal store_lu e.prio e.prio _ _ h.prio (store_lu-keeps e.prio h.prio)
                    refl (skip_space-decimal e.prio _ h.prio))
                ∙ ap (λ r. loads (as_process e, r)) (skip_space-entry_lines es hs))))
  where
    path : Bytes
    path = codes "input/proc/" ++ e.name

    finish : Bytes → Load (LdProcess × Bytes)
    finish path = do
      last ← defined (scan_one store_lu (b' ' ∷ decimal e.prio (b'\n' ∷ entry_lines es)))
      loads (take_prio wild e.start_time path last)

read_processes-entries :
    (es : List Entry) (wild : ℕ → ℕ) (i : ℕ) (s : Bytes)
    → All IsEntry es
    → skip_space s ≡ entry_lines es
    → read_processes (length es) wild i s ≡ loads (map as_process es)
unfolding read_processes
read_processes-entries [] wild i s h at = refl
read_processes-entries (e ∷ es) wild i s h at =
    ap (λ l. l >>= (λ p. read_processes (length es) wild (i + 1) p.1 >>= (λ ps. loads (p.0 ∷ ps))))
      (read_process-entry (wild i) e es s h.0 h.1 at)
    ∙ ap (λ l. l >>= (λ ps. loads (as_process e ∷ ps)))
        (read_processes-entries es wild (i + 1) _ h.1 (skip_space-entry_lines es h.1))

one_int :
    (n : ℕ) (xs ys : Bytes)
    → n < 2 ^ 31
    → Ends ys
    → skip_space xs ≡ decimal n ys
    → scan_one store_d xs ≡ some (some (pos n), ys)
one_int n xs ys h e at =
    scan_one-decimal store_d n (pos n) xs ys (omega arith) (store_d-keeps n h) e at

first_line :
    (a b c : ℕ) (ys : Bytes)
    → a < 2 ^ 31
    → b < 2 ^ 31
    → c < 2 ^ 31
    → scan_line store_d 3 (decimal a (b' ' ∷ decimal b (b' ' ∷ decimal c (b'\n' ∷ ys))))
      ≡ some (pos a ∷ pos b ∷ pos c ∷ [], skip_space ys)
unfolding scan_all skip_space
first_line a b c ys ha hb hc = scan_line-all store_d 3 (decimal a at_b) ys _ three refl
  where
    at_c : Bytes
    at_c = b' ' ∷ decimal c (b'\n' ∷ ys)

    at_b : Bytes
    at_b = b' ' ∷ decimal b at_c

    three : scan_all store_d 3 (decimal a at_b) ≡ some (pos a ∷ pos b ∷ pos c ∷ [], b'\n' ∷ ys)
    three =
        scan_all-cons store_d 2 (pos a) (decimal a at_b) at_b (b'\n' ∷ ys) (pos b ∷ pos c ∷ [])
          (one_int a (decimal a at_b) at_b ha refl (skip_space-decimal a at_b (omega arith)))
          (scan_all-cons store_d 1 (pos b) at_b at_c (b'\n' ∷ ys) (pos c ∷ [])
            (one_int b at_b at_c hb refl (skip_space-decimal b at_c (omega arith)))
            (scan_all-cons store_d 0 (pos c) at_c (b'\n' ∷ ys) (b'\n' ∷ ys) []
              (one_int c at_c (b'\n' ∷ ys) hc refl
                (skip_space-decimal c (b'\n' ∷ ys) (omega arith)))
              refl))

-- A configuration of the scheduler's line and one line to a process is read as it was printed: the
-- time slot and the number of CPUs, and for each line, in order, the start time, the priority and the
-- path of the process below input/proc. The first three numbers fit in 31 bits, those of a process in
-- 64, and a name is a word of 1 to 88 bytes. The memory sizes are the fixed ones, and nothing is left
-- undefined.
pub read_config-print_config :
    (file : Bytes → Option Bytes) (wild : ℕ → ℕ) (path : Bytes) (a b : ℕ) (es : List Entry)
    → a < 2 ^ 31
    → b < 2 ^ 31
    → length es < 2 ^ 31
    → All IsEntry es
    → file path ≡ some (print_config a b es)
    → read_config file wild path
      ≡ loads (record {
        time_slot = pos a;
        num_cpus = pos b;
        num_processes = pos (length es);
        memramsz = 0x100000;
        memswpsz = 0x1000000 ∷ replicate (paging_max_mmswp - 1) 0;
        vmemsz = 0x300000;
        ld_processes = map as_process es;
      })
unfolding read_config
read_config-print_config file wild path a b es ha hb hc h at =
    ap (read_text wild) at
    ∙ (ap (λ o. defined o >>= read_body wild) (first_line a b (length es) (entry_lines es) ha hb hc)
        ∙ ap (λ l. l >>= (λ ps. loads (config ps)))
            (read_processes-entries es wild 0 _ h
              (ap skip_space (skip_space-entry_lines es h) ∙ skip_space-entry_lines es h)))
  where
    config : List LdProcess → Config
    config ps = record {
      time_slot = pos a;
      num_cpus = pos b;
      num_processes = pos (length es);
      memramsz = 0x100000;
      memswpsz = 0x1000000 ∷ replicate (paging_max_mmswp - 1) 0;
      vmemsz = 0x300000;
      ld_processes = ps;
    }
