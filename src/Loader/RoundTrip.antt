-- ===== src/Loader/RoundTrip.antt =====
-- Process files written and loaded again.
use easter_egg.Common.{ℕ, ◌+◌, ◌≡◌, refl, ◌∙◌, some, List, [], ◌∷◌, ◌++◌}
use easter_egg.Common.{ltb, true, length, take}
use easter_egg.Process.{Inst, Opcode}
use easter_egg.Killall.{same_text}
use easter_egg.Loader.{Token, word, number, line_end, opt_calc, opt_alloc, opt_free, opt_read}
use easter_egg.Loader.{opt_write, opt_syscall, get_opcode, skip_lines, scan_numbers, scan_word}
use easter_egg.Loader.{split_line, get_line, Reader, scan_args, load_inst, load_loop}
use easter_egg.Loader.{Unset, load}

-- An instruction as a line of a process file.
abbrev pub print_inst : Opcode → ℕ → ℕ → ℕ → ℕ → List Token
print_inst Opcode.calc a b c d = word opt_calc ∷ line_end ∷ []
print_inst Opcode.alloc a b c d = word opt_alloc ∷ number a ∷ number b ∷ line_end ∷ []
print_inst Opcode.free a b c d = word opt_free ∷ number a ∷ line_end ∷ []
print_inst Opcode.read a b c d = word opt_read ∷ number a ∷ number b ∷ number c ∷ line_end ∷ []
print_inst Opcode.write a b c d = word opt_write ∷ number a ∷ number b ∷ number c ∷ line_end ∷ []
print_inst Opcode.syscall a b c d =
    word opt_syscall ∷ number a ∷ number b ∷ number c ∷ number d ∷ line_end ∷ []

abbrev pub print_code : List Inst → List Token
print_code [] = []
print_code (ins ∷ rest) =
    print_inst ins.opcode ins.arg_0 ins.arg_1 ins.arg_2 ins.arg_3 ++ print_code rest

abbrev pub print_file : ℕ → List Inst → List Token
print_file priority code = number priority ∷ number (length code) ∷ line_end ∷ print_code code

-- What is loaded of an instruction into memory that held `raw`: the arguments that its line does not
-- have keep what they were.
abbrev pub filled : Inst → Opcode → ℕ → ℕ → ℕ → ℕ → Inst
filled raw Opcode.calc a b c d = record raw { opcode = Opcode.calc }
filled raw Opcode.alloc a b c d = record raw { opcode = Opcode.alloc; arg_0 = a; arg_1 = b }
filled raw Opcode.free a b c d = record raw { opcode = Opcode.free; arg_0 = a }
filled raw Opcode.read a b c d = record raw {
  opcode = Opcode.read;
  arg_0 = a;
  arg_1 = b;
  arg_2 = c;
}
filled raw Opcode.write a b c d = record raw {
  opcode = Opcode.write;
  arg_0 = a;
  arg_1 = b;
  arg_2 = c;
}
filled raw Opcode.syscall a b c d = record {
  opcode = Opcode.syscall;
  arg_0 = a;
  arg_1 = b;
  arg_2 = c;
  arg_3 = d;
}

abbrev pub filled_code : (ℕ → Inst) → ℕ → List Inst → List Inst
filled_code raw i [] = []
filled_code raw i (ins ∷ rest) =
    filled (raw i) ins.opcode ins.arg_0 ins.arg_1 ins.arg_2 ins.arg_3 ∷ filled_code raw (i + 1) rest

scan_word-word :
    (old w : List ℕ) (file rest : List Token)
    → skip_lines file ≡ word w ∷ rest
    → ltb (length w) 10 ≡ true
    → scan_word old file ≡ some (w, rest)
unfolding scan_word
scan_word-word old w file rest e short = rw (e, scan_word) (rw short refl)

load_inst_lem :
    (raw : Inst) (op : Opcode) (a b c d : ℕ) (r : Reader) (rest : List Token)
    → skip_lines r.file ≡ print_inst op a b c d ++ rest
    → (next : Reader) × (load_inst raw r ≡ some (filled raw op a b c d, next))
      × (skip_lines next.file ≡ skip_lines rest)
unfolding load_inst scan_word get_opcode same_text scan_args scan_numbers skip_lines get_line
    split_line
load_inst_lem raw Opcode.calc a b c d r rest e = (
  record r { file = line_end ∷ rest; opcode = opt_calc },
  rw (scan_word-word r.opcode _ r.file _ e refl, load_inst) refl,
  refl,
)
load_inst_lem raw Opcode.alloc a b c d r rest e = (
  record r { file = line_end ∷ rest; opcode = opt_alloc },
  rw (scan_word-word r.opcode _ r.file _ e refl, load_inst) refl,
  refl,
)
load_inst_lem raw Opcode.free a b c d r rest e = (
  record r { file = line_end ∷ rest; opcode = opt_free },
  rw (scan_word-word r.opcode _ r.file _ e refl, load_inst) refl,
  refl,
)
load_inst_lem raw Opcode.read a b c d r rest e = (
  record r { file = line_end ∷ rest; opcode = opt_read },
  rw (scan_word-word r.opcode _ r.file _ e refl, load_inst) refl,
  refl,
)
load_inst_lem raw Opcode.write a b c d r rest e = (
  record r { file = line_end ∷ rest; opcode = opt_write },
  rw (scan_word-word r.opcode _ r.file _ e refl, load_inst) refl,
  refl,
)
load_inst_lem raw Opcode.syscall a b c d r rest e = (
  record {
    file = rest;
    opcode = opt_syscall;
    buf = number a ∷ number b ∷ number c ∷ number d ∷ line_end ∷ [];
  },
  rw (scan_word-word r.opcode _ r.file _ e refl, load_inst) refl,
  refl,
)

-- A line of code begins with a word.
skip_lines-print_code : (code : List Inst) → skip_lines (print_code code) ≡ print_code code
unfolding skip_lines
skip_lines-print_code [] = refl
skip_lines-print_code (ins ∷ rest) = by_opcode ins.opcode
  where
    by_opcode :
        (op : Opcode)
        → skip_lines (print_inst op ins.arg_0 ins.arg_1 ins.arg_2 ins.arg_3 ++ print_code rest)
          ≡ print_inst op ins.arg_0 ins.arg_1 ins.arg_2 ins.arg_3 ++ print_code rest
    by_opcode Opcode.calc = refl
    by_opcode Opcode.alloc = refl
    by_opcode Opcode.free = refl
    by_opcode Opcode.read = refl
    by_opcode Opcode.write = refl
    by_opcode Opcode.syscall = refl

load_loop_lem :
    (code : List Inst) (i : ℕ) (raw : ℕ → Inst) (r : Reader)
    → skip_lines r.file ≡ print_code code
    → load_loop (length code) i raw r ≡ some (filled_code raw i code)
unfolding load_loop
load_loop_lem [] i raw r e = refl
load_loop_lem (ins ∷ rest) i raw r e =
    let (next, loaded, left) =
      load_inst_lem (raw i) ins.opcode ins.arg_0 ins.arg_1 ins.arg_2 ins.arg_3 r (print_code rest)
        e in
    let more = load_loop_lem rest (i + 1) raw next (left ∙ skip_lines-print_code rest) in
    rw (loaded, more) refl

-- A process file that is written as `load` expects it is loaded with every instruction and every
-- argument that its line has, whatever the memory held before; the program counter is 0, the process
-- has the next number, and of the path only the first 16 characters are kept.
pub load-print :
    (unset : Unset) (avail_pid priority : ℕ) (path : List ℕ) (code : List Inst)
    → load unset avail_pid path (some (print_file priority code))
      ≡ some (
        record {
          pid = avail_pid;
          pc = 0;
          code = filled_code unset.text 0 code;
          prio = unset.prio;
          path = take 16 path;
          mm = unset.mm;
        },
        avail_pid + 1,
      )
unfolding load scan_numbers skip_lines
load-print unset avail_pid priority path code =
    rw
      (load_loop_lem code 0 unset.text
        (record { file = line_end ∷ print_code code; opcode = unset.opcode; buf = unset.buf })
        (unfold skip_lines in skip_lines-print_code code))
      refl
