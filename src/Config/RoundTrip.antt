-- ===== src/Config/RoundTrip.antt =====
-- Configuration files written and read again.
use easter_egg.Common.{ℕ, ◌+◌, ◌<◌, ◌≡◌, refl, arith, some, List, [], ◌∷◌, ◌++◌}
use easter_egg.Common.{length, lt→ltb, All, map, length-append}
use easter_egg.Loader.{Token, word, number, line_end, skip_lines, scan_numbers, split_line}
use easter_egg.Config.{next_line, scan_three, is_mem_config, skip_end, proc_dir, LdProcess}
use easter_egg.Config.{scan_process, processes_loop, read_config}

-- A line for a process: its start time, the name of its file and its priority.
abbrev pub Entry : Type 0
Entry = ℕ × List ℕ × ℕ

abbrev print_processes : List Entry → List Token
print_processes [] = []
print_processes ((t, w, p) ∷ rest) = number t ∷ word w ∷ number p ∷ line_end ∷ print_processes rest

-- The file for a system with five memory sizes.
abbrev pub print_config : ℕ → ℕ → ℕ × ℕ × ℕ × ℕ × ℕ → List Entry → List Token
print_config time_slot num_cpus (a, b, c, d, e) entries =
    number time_slot
    ∷ number num_cpus
    ∷ number (length entries)
    ∷ line_end
    ∷ number a
    ∷ number b
    ∷ number c
    ∷ number d
    ∷ number e
    ∷ line_end
    ∷ print_processes entries

abbrev pub configured : Entry → LdProcess
configured (t, w, p) = record { start_time = t; path = proc_dir ++ w; prio = p }

one_process :
    (raw : LdProcess) (t : ℕ) (w : List ℕ) (p : ℕ)
    → length w < 89
    → scan_process raw (number t ∷ word w ∷ number p ∷ line_end ∷ []) ≡ some (configured (t, w, p))
unfolding scan_process
one_process raw t w p short =
    rw (lt→ltb (length (proc_dir ++ w)) 100 (omega (arith, length-append proc_dir w))) refl

processes_loop_lem :
    (entries : List Entry) (i : ℕ) (raw : ℕ → LdProcess)
    → All (λ x. length (x.1) < 89) entries
    → processes_loop (length entries) i raw (print_processes entries)
      ≡ some (map configured entries)
unfolding processes_loop next_line split_line
processes_loop_lem [] i raw short = refl
processes_loop_lem ((t, w, p) ∷ rest) i raw short =
    rw (one_process (raw i) t w p short.0, processes_loop_lem rest (i + 1) raw short.1) refl

-- A configuration file that is written with its five memory sizes and with names of fewer than 89
-- characters is read back whole, with each path in the directory of processes, whatever the arrays
-- held before.
pub read_config-print :
    (raw : ℕ → LdProcess) (time_slot num_cpus a b c d e : ℕ) (entries : List Entry)
    → All (λ x. length (x.1) < 89) entries
    → read_config raw (some (print_config time_slot num_cpus (a, b, c, d, e) entries))
      ≡ some (record {
        time_slot = time_slot;
        num_cpus = num_cpus;
        num_processes = length entries;
        sizes = a ∷ b ∷ c ∷ d ∷ e ∷ [];
        processes = map configured entries;
      })
unfolding read_config next_line split_line scan_three scan_numbers skip_lines is_mem_config skip_end
read_config-print raw time_slot num_cpus a b c d e entries short =
    rw (processes_loop_lem entries 0 raw short) refl
