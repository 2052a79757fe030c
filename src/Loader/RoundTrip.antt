-- ===== src/Loader/RoundTrip.antt =====
-- What ossim_source_code/src/loader.c reads from a text that was printed.
use co2018_assignment.Base.{
  ℕ, ◌+◌, ◌%◌, ◌^◌, ◌<◌, ◌≡◌, Option, none, some, List, [], ◌∷◌, ◌++◌, length, All, refl, ap, ◌∙◌,
  arith,
}
use co2018_assignment.Scan.{
  Bytes, skip_space, scan_one, scan_all, scan_line, scan_s, store_u, read_word, word_of,
}
use co2018_assignment.Scan.Decimal.{
  decimal, scan_one-decimal, scan_all-cons, store_u-keeps, skip_space-decimal,
}
use co2018_assignment.Cpu.{Opcode, calc, alloc, malloc, free, read, write, Inst}
use co2018_assignment.Cpu.Legacy.{page_size}
use co2018_assignment.Loader.{
  loads, ◌>>=◌, defined, assign, fetch, load_args, load_word, load_inst, load_text, loaded,
  load_body, load_file, header, Wild, load,
}
use co2018_assignment.Loader.Print.{spelling, args, numbers, line, lines, print}
use co2018_assignment.Loader.Lines.{IsWord, numbers-Ends, scan_all-numbers, scan_line-numbers}

fetch-numbers :
    (ns : List ℕ) (ins : Inst) (ys : Bytes)
    → All IsWord ns
    → fetch (length ns) ins (numbers ns ys) ≡ loads (assign ns ins, skip_space ys)
unfolding fetch
fetch-numbers ns ins ys h =
    ap (λ o. defined o >>= (λ p. loads (assign p.0 ins, p.1))) (scan_line-numbers ns ys h)

-- A number that is looked for before an opcode, or at the end, is not there, and nothing is read.
fetch-lines : (ins : Inst) (text : List Inst) → fetch 1 ins (lines text) ≡ loads (ins, lines text)
unfolding fetch scan_line scan_all scan_one skip_space
fetch-lines ins [] = refl
fetch-lines ins (next ∷ text) = go next.opcode
  where
    go :
        (op : Opcode)
        → fetch 1 ins (spelling op ++ numbers (args next op) (lines text))
          ≡ loads (ins, spelling op ++ numbers (args next op) (lines text))
    go calc = refl
    go alloc = refl
    go malloc = refl
    go free = refl
    go read = refl
    go write = refl

pub skip_space-lines : (text : List Inst) → skip_space (lines text) ≡ lines text
unfolding skip_space
skip_space-lines [] = refl
skip_space-lines (next ∷ text) = go next.opcode
  where
    go :
        (op : Opcode)
        → skip_space (spelling op ++ numbers (args next op) (lines text))
          ≡ spelling op ++ numbers (args next op) (lines text)
    go calc = refl
    go alloc = refl
    go malloc = refl
    go free = refl
    go read = refl
    go write = refl

-- Each argument fits in 32 bits.
abbrev pub IsPrintable : Inst → Type 0
IsPrintable ins = All IsWord (args ins ins.opcode)

-- A cell of the code after the instruction was read into it.
abbrev pub fetched : Inst → Inst → Inst
fetched wild ins = assign (args ins ins.opcode) (record wild { opcode = ins.opcode })

fetch-line :
    (ns : List ℕ) (ins : Inst) (text : List Inst)
    → All IsWord ns
    → fetch (length ns) ins (numbers ns (lines text)) ≡ loads (assign ns ins, lines text)
fetch-line ns ins text h =
    fetch-numbers ns ins (lines text) h ∙ ap (λ r. loads (assign ns ins, r)) (skip_space-lines text)

load_args-numbers :
    (op : Opcode) (wild ins : Inst) (text : List Inst)
    → All IsWord (args ins op)
    → (rest : Bytes) × (load_args wild (numbers (args ins op) (lines text)) op
        ≡ loads (assign (args ins op) wild, rest))
      × (skip_space rest ≡ lines text)
unfolding load_args skip_space
load_args-numbers calc wild ins text h = (_, refl, skip_space-lines text)
load_args-numbers alloc wild ins text h =
    (_, fetch-line (args ins alloc) wild text h, skip_space-lines text)
load_args-numbers malloc wild ins text h = (
  _,
  ap (λ l. l >>= (λ p. fetch 1 p.0 p.1)) (fetch-line (args ins malloc) wild text h)
      ∙ fetch-lines _ text,
  skip_space-lines text,
)
load_args-numbers free wild ins text h =
    (_, fetch-line (args ins free) wild text h, skip_space-lines text)
load_args-numbers read wild ins text h =
    (_, fetch-line (args ins read) wild text h, skip_space-lines text)
load_args-numbers write wild ins text h =
    (_, fetch-line (args ins write) wild text h, skip_space-lines text)

scan_s-line :
    (op : Opcode) (ins : Inst) (s ys : Bytes)
    → skip_space s ≡ spelling op ++ numbers (args ins op) ys
    → scan_s s ≡ (some (spelling op), numbers (args ins op) ys)
unfolding scan_s read_word
scan_s-line calc ins s ys e = ap word_of e
scan_s-line alloc ins s ys e = ap word_of e
scan_s-line malloc ins s ys e = ap word_of e
scan_s-line free ins s ys e = ap word_of e
scan_s-line read ins s ys e = ap word_of e
scan_s-line write ins s ys e = ap word_of e

-- The spelling of an opcode is known and fits in the variable.
load_word-spelling :
    (op : Opcode) (wild ins : Inst) (old : Option Bytes) (ys rest : Bytes)
    → load_args (record wild { opcode = op }) ys op ≡ loads (ins, rest)
    → load_word wild old (some (spelling op), ys) ≡ loads (ins, spelling op, rest)
unfolding load_word
load_word-spelling calc wild ins old ys rest e =
    ap (λ l. l >>= (λ p. loads (p.0, spelling calc, p.1))) e
load_word-spelling alloc wild ins old ys rest e =
    ap (λ l. l >>= (λ p. loads (p.0, spelling alloc, p.1))) e
load_word-spelling malloc wild ins old ys rest e =
    ap (λ l. l >>= (λ p. loads (p.0, spelling malloc, p.1))) e
load_word-spelling free wild ins old ys rest e =
    ap (λ l. l >>= (λ p. loads (p.0, spelling free, p.1))) e
load_word-spelling read wild ins old ys rest e =
    ap (λ l. l >>= (λ p. loads (p.0, spelling read, p.1))) e
load_word-spelling write wild ins old ys rest e =
    ap (λ l. l >>= (λ p. loads (p.0, spelling write, p.1))) e

-- One turn of the loop.
pub load_inst-line :
    (wild ins : Inst) (text : List Inst) (old : Option Bytes) (s : Bytes)
    → IsPrintable ins
    → skip_space s ≡ line ins (lines text)
    → (rest : Bytes) × (load_inst wild old s ≡ loads (fetched wild ins, spelling ins.opcode, rest))
      × (skip_space rest ≡ lines text)
unfolding load_inst
load_inst-line wild ins text old s h e =
    let (rest, found, eq) =
      load_args-numbers ins.opcode (record wild { opcode = ins.opcode }) ins text h in
    (
      rest,
      ap (load_word wild old) (scan_s-line ins.opcode ins s (lines text) e)
          ∙ load_word-spelling ins.opcode wild _ old _ rest found,
      eq,
    )

abbrev pub fetched_from : (ℕ → Inst) → ℕ → List Inst → List Inst
fetched_from wild i [] = []
fetched_from wild i (ins ∷ text) = fetched (wild i) ins ∷ fetched_from wild (i + 1) text

load_text-lines :
    (text : List Inst) (wild : ℕ → Inst) (i : ℕ) (old : Option Bytes) (s : Bytes)
    → All IsPrintable text
    → skip_space s ≡ lines text
    → load_text (length text) wild i old s ≡ loads (fetched_from wild i text)
unfolding load_text
load_text-lines [] wild i old s h e = refl
load_text-lines (ins ∷ text) wild i old s h e =
    let (rest, found, eq) = load_inst-line (wild i) ins text old s h.0 e in
    ap
      (λ l.
        l >>= (λ p. load_text (length text) wild (i + 1) (some p.1) p.2 >>= (λ t. loads (p.0 ∷ t))))
      found
    ∙ ap (λ l. l >>= (λ t. loads (fetched (wild i) ins ∷ t)))
        (load_text-lines text wild (i + 1) (some (spelling ins.opcode)) rest h.1 eq)

pub scan_all-header :
    (p n : ℕ) (ys : Bytes)
    → IsWord p
    → IsWord n
    → scan_all store_u 2 (decimal p (numbers (n ∷ []) ys)) ≡ some (p ∷ n ∷ [], b'\n' ∷ ys)
scan_all-header p n ys hp hn =
    scan_all-cons store_u 1 p _ _ _ (n ∷ [])
      (scan_one-decimal store_u p p _ _ (omega arith) (store_u-keeps p hp)
        (numbers-Ends (n ∷ []) ys) (skip_space-decimal p (numbers (n ∷ []) ys) (omega arith)))
      (scan_all-numbers (n ∷ []) ys (hn, tt))

-- A process that is printed the way the files of the repository are, with a priority, a number of
-- instructions and arguments that fit in 32 bits, is loaded as it was printed: the call does not
-- exit, the code has exactly the instructions of the text, in their order, and each argument that an
-- instruction has is stored in it, while the other cells keep what `malloc` left there. This holds
-- with `malloc` lines too, whose case goes on into that of `free` and looks for one more number. The
-- process gets the number `avail_pid`, which goes up by one.
pub load-print :
    (file : Bytes → Option Bytes) (w : Wild) (avail_pid priority : ℕ) (path : Bytes)
    (text : List Inst)
    → priority < 2 ^ 32
    → length text < 2 ^ 32
    → All IsPrintable text
    → file path ≡ some (print priority text)
    → load file w avail_pid path
      ≡ loads (
        record w.proc {
          pid = avail_pid;
          priority = priority;
          text = fetched_from w.text 0 text;
          pc = 0;
          bp = page_size;
        },
        (avail_pid + 1) % 2 ^ 32,
      )
unfolding load skip_space
load-print file w avail_pid priority path text hp hn h at =
    ap (load_file w avail_pid) at
    ∙ (ap (λ o. defined o >>= (λ p. load_body w avail_pid p.1 (header p.0 w)))
          (scan_all-header priority (length text) (lines text) hp hn)
        ∙ ap (λ l. l >>= (λ t. loads (loaded w avail_pid priority t)))
            (load_text-lines text w.text 0 none _ h (after_header text)))
  where
    after_header : (text : List Inst) → skip_space (b'\n' ∷ lines text) ≡ lines text
    after_header text = skip_space-lines text
