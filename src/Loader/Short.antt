-- ===== src/Loader/Short.antt =====
-- What ossim_source_code/src/loader.c does with a text that ends before its last instruction.
use co2018_assignment.Base.{
  ℕ, zero, suc, ◌+◌, ◌%◌, ◌^◌, ◌<◌, ◌≡◌, Option, none, some, List, [], ◌∷◌, ◌++◌, length, All, refl,
  ap, ◌∙◌, arith,
}
use co2018_assignment.Scan.{Bytes, skip_space, scan_all, scan_one, scan_line, scan_s, word_of}
use co2018_assignment.Scan.Decimal.{decimal}
use co2018_assignment.Cpu.{Opcode, calc, alloc, malloc, free, read, write, Inst}
use co2018_assignment.Cpu.Legacy.{page_size}
use co2018_assignment.Loader.{
  loads, ◌>>=◌, defined, get_opcode, load_args, load_word, load_text, loaded, load_body, load_file,
  header, Wild, load,
}
use co2018_assignment.Loader.Print.{spelling, numbers, lines}
use co2018_assignment.Loader.RoundTrip.{
  IsPrintable, fetched, fetched_from, load_inst-line, scan_all-header, skip_space-lines,
}

-- Cells whose opcode is set, and nothing else.
abbrev pub repeated : ℕ → (ℕ → Inst) → ℕ → Opcode → List Inst
repeated zero wild i op = []
repeated (suc k) wild i op = record (wild i) { opcode = op } ∷ repeated k wild (i + 1) op

abbrev pub last_opcode : Opcode → List Inst → Opcode
last_opcode op [] = op
last_opcode op (ins ∷ text) = last_opcode ins.opcode text

-- At the end of the text the variable keeps its word.
load_word-end :
    (op : Opcode) (wild : Inst)
    → load_word wild (some (spelling op)) (none, [])
      ≡ loads (record wild { opcode = op }, spelling op, [])
unfolding load_word get_opcode load_args scan_line scan_all scan_one skip_space
load_word-end calc wild = refl
load_word-end alloc wild = refl
load_word-end malloc wild = refl
load_word-end free wild = refl
load_word-end read wild = refl
load_word-end write wild = refl

load_text-end :
    (k : ℕ) (op : Opcode) (wild : ℕ → Inst) (i : ℕ) (s : Bytes)
    → skip_space s ≡ []
    → load_text k wild i (some (spelling op)) s ≡ loads (repeated k wild i op)
unfolding load_text scan_s skip_space
load_text-end zero op wild i s e = refl
load_text-end (suc k) op wild i s e =
    ap (λ l. l >>= (λ p. load_text k wild (i + 1) (some p.1) p.2 >>= (λ t. loads (p.0 ∷ t))))
      (ap (λ r. load_word (wild i) (some (spelling op)) (word_of r)) e ∙ load_word-end op (wild i))
    ∙ ap (λ l. l >>= (λ t. loads (record (wild i) { opcode = op } ∷ t)))
        (load_text-end k op wild (i + 1) [] refl)

-- One instruction of the text, and the rest.
load_text-step :
    (n : ℕ) (ins : Inst) (text : List Inst) (wild : ℕ → Inst) (i : ℕ) (old : Option Bytes)
    (s : Bytes) (ts : List Inst)
    → IsPrintable ins
    → skip_space s ≡ lines (ins ∷ text)
    → ((rest : Bytes)
        → skip_space rest ≡ lines text
        → load_text n wild (i + 1) (some (spelling ins.opcode)) rest ≡ loads ts)
    → load_text (suc n) wild i old s ≡ loads (fetched (wild i) ins ∷ ts)
unfolding load_text
load_text-step n ins text wild i old s ts h e more =
    let (rest, found, eq) = load_inst-line (wild i) ins text old s h e in
    ap (λ l. l >>= (λ p. load_text n wild (i + 1) (some p.1) p.2 >>= (λ t. loads (p.0 ∷ t)))) found
    ∙ ap (λ l. l >>= (λ t. loads (fetched (wild i) ins ∷ t))) (more rest eq)

load_text-short :
    (text : List Inst) (n k : ℕ) (op : Opcode) (wild : ℕ → Inst) (i : ℕ) (s : Bytes)
    → n ≡ length text + k
    → All IsPrintable text
    → skip_space s ≡ lines text
    → load_text n wild i (some (spelling op)) s
      ≡ loads (fetched_from wild i text ++ repeated k wild (i + length text) (last_opcode op text))
load_text-short [] n k op wild i s eq h e =
    load_text-end n op wild i s e ∙ ap loads (same n k i (i + 0) (omega (arith, eq)) (omega arith))
  where
    same : (n k i j : ℕ) → n ≡ k → i ≡ j → repeated n wild i op ≡ repeated k wild j op
    same n k i j e e' = rw (e, e') refl
load_text-short (ins ∷ text) zero k op wild i s eq h e = absurd (omega (arith, eq))
load_text-short (ins ∷ text) (suc n) k op wild i s eq h e =
    load_text-step n ins text wild i _ s _ h.0 e
      (λ rest e'. load_text-short text n k ins.opcode wild (i + 1) rest (omega (arith, eq)) h.1 e')
    ∙ ap
        (λ j. loads (
          fetched (wild i) ins
          ∷ (fetched_from wild (i + 1) text ++ repeated k wild j (last_opcode ins.opcode text))))
        (let same : i + 1 + length text ≡ i + length (ins ∷ text) = omega arith in same)

load_text-first :
    (n k : ℕ) (ins : Inst) (text : List Inst) (wild : ℕ → Inst) (s : Bytes)
    → n ≡ length (ins ∷ text) + k
    → All IsPrintable (ins ∷ text)
    → skip_space s ≡ lines (ins ∷ text)
    → load_text n wild 0 none s
      ≡ loads (
          fetched_from wild 0 (ins ∷ text)
          ++ repeated k wild (length (ins ∷ text)) (last_opcode ins.opcode text))
load_text-first zero k ins text wild s eq h e = absurd (omega (arith, eq))
load_text-first (suc n) k ins text wild s eq h e =
    load_text-step n ins text wild 0 none s _ h.0 e
      (λ rest e'. load_text-short text n k ins.opcode wild 1 rest (omega (arith, eq)) h.1 e')
    ∙ ap
        (λ j. loads (
          fetched (wild 0) ins
          ∷ (fetched_from wild 1 text ++ repeated k wild j (last_opcode ins.opcode text))))
        (let same : 1 + length text ≡ length (ins ∷ text) = omega arith in same)

-- A text that announces `k` instructions more than the one or more that it has, with numbers that
-- fit in 32 bits, is loaded without a
-- complaint: the instructions that it has come first, as they were printed, and the `k` missing ones
-- all get the opcode of the last one, with the arguments that `malloc` left in their cells.
pub load-short :
    (file : Bytes → Option Bytes) (w : Wild) (avail_pid priority k : ℕ) (path : Bytes) (ins : Inst)
    (text : List Inst)
    → priority < 2 ^ 32
    → length (ins ∷ text) + k < 2 ^ 32
    → All IsPrintable (ins ∷ text)
    → file path
      ≡ some (decimal priority (numbers ((length (ins ∷ text) + k) ∷ []) (lines (ins ∷ text))))
    → load file w avail_pid path
      ≡ loads (
        record w.proc {
          pid = avail_pid;
          priority = priority;
          text =
              fetched_from w.text 0 (ins ∷ text)
              ++ repeated k w.text (length (ins ∷ text)) (last_opcode ins.opcode text);
          pc = 0;
          bp = page_size;
        },
        (avail_pid + 1) % 2 ^ 32,
      )
unfolding load skip_space
load-short file w avail_pid priority k path ins text hp hn h at =
    ap (load_file w avail_pid) at
    ∙ (ap (λ o. defined o >>= (λ p. load_body w avail_pid p.1 (header p.0 w)))
          (scan_all-header priority (length (ins ∷ text) + k) (lines (ins ∷ text)) hp hn)
        ∙ ap (λ l. l >>= (λ t. loads (loaded w avail_pid priority t)))
            (load_text-first _ k ins text w.text _ refl h (skip_space-lines (ins ∷ text))))
