-- ===== src/Loader/Tests.antt =====
-- Files read by `load`, and the theorem about them at a concrete file.
use easter_egg.Common.{ℕ, ◌+◌, ◌≡◌, refl, none, some, [], ◌∷◌, List, take}
use easter_egg.Killall.{same_text}
use easter_egg.Process.{Inst, Opcode}
use easter_egg.Vm.{region}
use easter_egg.Loader.{Unset, load, word, number, line_end}
use easter_egg.Loader.{get_opcode, skip_lines, scan_numbers, scan_word, load_inst, load_loop}
use easter_egg.Loader.RoundTrip.{print_file, filled_code, load-print}

abbrev unset : Unset
unset = record {
  priority = 7;
  size = 7;
  prio = 7;
  text = λ i. record { opcode = Opcode.free; arg_0 = 7; arg_1 = 8; arg_2 = 9; arg_3 = i };
  opcode = [];
  buf = [];
  mm = record { pgd = λ _. 0; mmap = []; symrgtbl = λ _. region 0 0; fifo_pgn = [] };
}

abbrev code : List Inst
code =
    record { opcode = Opcode.alloc; arg_0 = 300; arg_1 = 1; arg_2 = 0; arg_3 = 0 }
    ∷ record { opcode = Opcode.syscall; arg_0 = 101; arg_1 = 1; arg_2 = 0; arg_3 = 0 }
    ∷ record { opcode = Opcode.calc; arg_0 = 0; arg_1 = 0; arg_2 = 0; arg_3 = 0 }
    ∷ []

-- The characters of `input/proc/killer0`.
abbrev path : List ℕ
path =
    105 ∷ 110 ∷ 112 ∷ 117 ∷ 116 ∷ 47 ∷ 112 ∷ 114 ∷ 111 ∷ 99 ∷ 47 ∷ 107 ∷ 105 ∷ 108 ∷ 108 ∷ 101 ∷ 114
    ∷ 48 ∷ []

unknown_word_exits :
    load unset 1 path (some (number 1 ∷ number 1 ∷ word (120 ∷ []) ∷ line_end ∷ [])) ≡ none
unfolding load scan_numbers skip_lines load_loop load_inst scan_word get_opcode same_text
unknown_word_exits = refl

load-print_example :
    load unset 4 path (some (print_file 2 code))
    ≡ some (
      record {
        pid = 4;
        pc = 0;
        code = filled_code unset.text 0 code;
        prio = 7;
        path = take 16 path;
        mm = unset.mm;
      },
      4 + 1,
    )
load-print_example = load-print unset 4 2 path code
