-- ===== src/Loader.antt =====
-- The loader of process files, src/loader.c. A file is given as its words, numbers and line ends;
-- numbers are in the range of the conversions, and a line fits into the buffer of `fgets`. What a
-- conversion that fails leaves is the old value: variables and memory that nothing has set yet are
-- arguments. A result `none` is a call of `exit`, or a word behind the end of its buffer.
pub mod RoundTrip
mod Tests
use easter_egg.Common.{ℕ, zero, suc, ◌+◌, ◌-◌, ◌*◌, Option, none, some, List, [], ◌∷◌, length, take}
use easter_egg.Common.{ltb, ◌>>=◌, if◌then◌else◌}
use easter_egg.Vm.{Mm}
use easter_egg.Process.{Inst, Opcode, Pcb}
use easter_egg.Killall.{same_text}

pub data Token : Type 0 where
  word : List ℕ → Token
  number : ℕ → Token
  line_end : Token

-- The words of the instructions, OPT_CALC and the others.
abbrev pub opt_calc : List ℕ
opt_calc = 99 ∷ 97 ∷ 108 ∷ 99 ∷ []

abbrev pub opt_alloc : List ℕ
opt_alloc = 97 ∷ 108 ∷ 108 ∷ 111 ∷ 99 ∷ []

abbrev pub opt_free : List ℕ
opt_free = 102 ∷ 114 ∷ 101 ∷ 101 ∷ []

abbrev pub opt_read : List ℕ
opt_read = 114 ∷ 101 ∷ 97 ∷ 100 ∷ []

abbrev pub opt_write : List ℕ
opt_write = 119 ∷ 114 ∷ 105 ∷ 116 ∷ 101 ∷ []

abbrev pub opt_syscall : List ℕ
opt_syscall = 115 ∷ 121 ∷ 115 ∷ 99 ∷ 97 ∷ 108 ∷ 108 ∷ []

unfoldable pub get_opcode : List ℕ → Option Opcode
get_opcode opt =
    if same_text opt opt_calc
    then some Opcode.calc
    else if same_text opt opt_alloc
    then some Opcode.alloc
    else if same_text opt opt_free
    then some Opcode.free
    else if same_text opt opt_read
    then some Opcode.read
    else if same_text opt opt_write
    then some Opcode.write
    else if same_text opt opt_syscall
    then some Opcode.syscall
    else none

-- The white space that a conversion skips.
unfoldable pub skip_lines : List Token → List Token
skip_lines [] = []
skip_lines (line_end ∷ file) = skip_lines file
skip_lines (word w ∷ file) = word w ∷ file
skip_lines (number n ∷ file) = number n ∷ file

-- `%u` or `%d` for each of the variables in a row, with their old values: the values and the rest.
unfoldable pub scan_numbers : List ℕ → List Token → List ℕ × List Token
unfolding skip_lines
scan_numbers [] file = ([], file)
scan_numbers (old ∷ olds) file = elim (skip_lines file) [
  | number n ∷ rest ↦ (let (values, left) = scan_numbers olds rest in (n ∷ values, left))
  | other ↦ (old ∷ olds, other)
]

-- `fscanf(file, "%s", opcode);` with `char opcode[10]`. A number is never the word of an
-- instruction, so it is the empty word here.
unfoldable pub scan_word : List ℕ → List Token → Option (List ℕ × List Token)
unfolding skip_lines
scan_word old file = elim (skip_lines file) [
  | word w ∷ rest ↦ (if ltb (length w) 10 then some (w, rest) else none)
  | number n ∷ rest ↦ some ([], rest)
  | other ↦ some (old, other)
]

-- The rest of a line, with its end.
unfoldable pub split_line : List Token → List Token × List Token
split_line [] = ([], [])
split_line (line_end ∷ rest) = (line_end ∷ [], rest)
split_line (word w ∷ rest) = let (line, left) = split_line rest in (word w ∷ line, left)
split_line (number n ∷ rest) = let (line, left) = split_line rest in (number n ∷ line, left)

-- `fgets(buf, sizeof(buf), file);`, which at the end of the file leaves the old content.
unfoldable pub get_line : List Token → List Token → List Token × List Token
unfolding split_line
get_line old [] = (old, [])
get_line old (t ∷ file) = split_line (t ∷ file)

-- The file and the local variables `opcode` and `buf` of `load`.
pub record Reader : Type 0 where
  pub file : List Token
  pub opcode : List ℕ
  pub buf : List Token

-- The arguments that are read, in the place of the old ones.
abbrev pub put_args : Inst → List ℕ → Inst
put_args ins [] = ins
put_args ins (a ∷ []) = record ins { arg_0 = a }
put_args ins (a ∷ b ∷ []) = record ins { arg_0 = a; arg_1 = b }
put_args ins (a ∷ b ∷ c ∷ []) = record ins { arg_0 = a; arg_1 = b; arg_2 = c }
put_args ins (a ∷ b ∷ c ∷ d ∷ rest) = record ins { arg_0 = a; arg_1 = b; arg_2 = c; arg_3 = d }

-- `fscanf` with a number of `%u`. The line end at the end of its format is left out: every later
-- read skips it.
unfoldable pub scan_args : Inst → List ℕ → Reader → Inst × Reader
scan_args ins olds r =
    let (values, left) = scan_numbers olds r.file in (put_args ins values, record r { file = left })

-- One round of the loop of `load`, with the memory of `text[i]` as it was.
unfoldable pub load_inst : Inst → Reader → Option (Inst × Reader)
load_inst raw r = do
  (opt, file) ← scan_word r.opcode r.file
  op ← get_opcode opt
  let ins = record raw { opcode = op }
  let next = record r { file = file; opcode = opt }
  some (elim op [
    | Opcode.calc ↦ (ins, next)
    | Opcode.alloc ↦ scan_args ins (raw.arg_0 ∷ raw.arg_1 ∷ []) next
    | Opcode.free ↦ scan_args ins (raw.arg_0 ∷ []) next
    | Opcode.read ↦ scan_args ins (raw.arg_0 ∷ raw.arg_1 ∷ raw.arg_2 ∷ []) next
    | Opcode.write ↦ scan_args ins (raw.arg_0 ∷ raw.arg_1 ∷ raw.arg_2 ∷ []) next
    | Opcode.syscall ↦
        (let (line, left) = get_line next.buf next.file in
          let olds = raw.arg_0 ∷ raw.arg_1 ∷ raw.arg_2 ∷ raw.arg_3 ∷ [] in
          (put_args ins (scan_numbers olds line).0, record next { file = left; buf = line }))
  ])

-- The loop from instruction `i` on.
unfoldable pub load_loop : ℕ → ℕ → (ℕ → Inst) → Reader → Option (List Inst)
load_loop zero i raw r = some []
load_loop (suc rounds) i raw r =
    load_inst (raw i) r >>= λ x. load_loop rounds (i + 1) raw x.1 >>= λ rest. some (x.0 ∷ rest)

-- What the memory that `load` allocates, and its local variables, hold before.
pub record Unset : Type 0 where
  pub priority : ℕ
  pub size : ℕ
  pub prio : ℕ
  pub text : ℕ → Inst
  pub opcode : List ℕ
  pub buf : List Token
  pub mm : Mm

-- The characters of `path` that `snprintf` keeps: `sizeof(path)` is that of a pointer.
abbrev pub path_size : ℕ
path_size = 2 * 8 + 1

-- The process, and `avail_pid` after it. The file is `none` where it cannot be opened. `priority`,
-- which nothing reads with MLQ_SCHED, is dropped.
unfoldable pub load : Unset → ℕ → List ℕ → Option (List Token) → Option (Pcb × ℕ)
load unset avail_pid path none = none
load unset avail_pid path (some file) =
    let (first, rest) = scan_numbers (unset.priority ∷ unset.size ∷ []) file in
    load_loop (second unset.size first) 0 unset.text
      (record { file = rest; opcode = unset.opcode; buf = unset.buf })
    >>= λ code. some (
      record {
        pid = avail_pid;
        pc = 0;
        code = code;
        prio = unset.prio;
        path = take (path_size - 1) path;
        mm = unset.mm;
      },
      avail_pid + 1,
    )
  where
    second : ℕ → List ℕ → ℕ
    second d [] = d
    second d (x ∷ []) = d
    second d (x ∷ y ∷ ys) = y
