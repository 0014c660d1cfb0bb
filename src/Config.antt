-- ===== src/Config.antt =====
-- The configuration file: `read_config` of src/os.c, on the words, numbers and line ends of a file. A
-- line fits into the buffer and has no white space at its end, a word has a letter, and the name of a
-- process file is a word. A result `none` is a call of `exit`, or a path behind the end of its array.
pub mod RoundTrip
mod Tests
use easter_egg.Common.{
  ℕ, zero, suc, ◌+◌, Bool, true, false, Option, none, some, List, [], ◌∷◌, ◌++◌,
}
use easter_egg.Common.{length, ltb, ◌>>=◌, if◌then◌else◌}
use easter_egg.Loader.{Token, word, number, line_end, skip_lines, scan_numbers, split_line}

-- `fgets`, which gives a null pointer at the end of the file.
unfoldable pub next_line : List Token → Option (List Token × List Token)
next_line [] = none
next_line (t ∷ file) = some (split_line (t ∷ file))

-- `sscanf` of the three parameters of the system, all of which must be there.
unfoldable pub scan_three : List Token → Option (ℕ × ℕ × ℕ)
scan_three (number a ∷ number b ∷ number c ∷ rest) = some (a, b, c)
scan_three other = none

-- The loop with `isalpha`: whether the line has no letter.
unfoldable pub is_mem_config : List Token → Bool
is_mem_config [] = true
is_mem_config (word w ∷ line) = false
is_mem_config (number n ∷ line) = is_mem_config line
is_mem_config (line_end ∷ line) = is_mem_config line

-- `fgetc(file);` behind the sizes.
unfoldable pub skip_end : List Token → List Token
skip_end (line_end ∷ file) = file
skip_end other = other

-- `"input/proc/"`
abbrev pub proc_dir : List ℕ
proc_dir = 105 ∷ 110 ∷ 112 ∷ 117 ∷ 116 ∷ 47 ∷ 112 ∷ 114 ∷ 111 ∷ 99 ∷ 47 ∷ []

-- One place of the arrays of `ld_processes`.
pub record LdProcess : Type 0 where
  pub start_time : ℕ
  pub path : List ℕ
  pub prio : ℕ

-- A line of a process, with the place as it was. A line that does not parse is passed over.
unfoldable pub scan_process : LdProcess → List Token → Option LdProcess
scan_process raw (number t ∷ word w ∷ number p ∷ rest) =
    if ltb (length (proc_dir ++ w)) 100
    then some (record { start_time = t; path = proc_dir ++ w; prio = p })
    else none
scan_process raw (number t ∷ other) = some (record raw { start_time = t; path = proc_dir })
scan_process raw other = some (record raw { path = proc_dir })

unfoldable pub processes_loop : ℕ → ℕ → (ℕ → LdProcess) → List Token → Option (List LdProcess)
processes_loop zero i raw file = some []
processes_loop (suc rounds) i raw file = do
  (line, rest) ← next_line file
  process ← scan_process (raw i) line
  others ← processes_loop rounds (i + 1) raw rest
  some (process ∷ others)

-- The static variables that it sets; `sizes` is `memramsz` and the four entries of `memswpsz`.
pub record Settings : Type 0 where
  pub time_slot : ℕ
  pub num_cpus : ℕ
  pub num_processes : ℕ
  pub sizes : List ℕ
  pub processes : List LdProcess

unfoldable pub read_config : (ℕ → LdProcess) → Option (List Token) → Option Settings
unfolding skip_lines
read_config raw none = none
read_config raw (some file) = do
  (first, rest) ← next_line file
  (time_slot, num_cpus, num_processes) ← scan_three first
  (line, _) ← next_line rest
  let unset = 0 ∷ 0 ∷ 0 ∷ 0 ∷ 0 ∷ []
  let (sizes, left) = scan_numbers unset rest
  let with_sizes = is_mem_config line
  processes ← processes_loop num_processes 0 raw (if with_sizes then skip_end left else rest)
  some (record {
    time_slot = time_slot;
    num_cpus = num_cpus;
    num_processes = num_processes;
    sizes = if with_sizes then sizes else unset;
    processes = processes;
  })
