-- ===== src/Os/Main.antt =====
-- `main` of src/os.c up to the creation of the threads, and what `ld_routine` loads: the configuration
-- file and the files of the processes, which are given by their paths. A result `none` is a call of
-- `exit`, or a path behind the end of its array.
pub mod Files
use easter_egg.Common.{
  ℕ, ◌+◌, ◌%◌, ◌^◌, Option, none, some, List, [], ◌∷◌, ◌++◌, get_elem?, length, ltb,
}
use easter_egg.Common.{if◌then◌else◌, ◌==◌, ◌>>=◌}
use easter_egg.Process.{Pcb}
use easter_egg.Loader.{Token, Unset, load}
use easter_egg.Config.{Settings, LdProcess, read_config}
use easter_egg.Os.Startup.{Config, Started, start_up}

-- `"input/"`
abbrev pub input_dir : List ℕ
input_dir = 105 ∷ 110 ∷ 112 ∷ 117 ∷ 116 ∷ 47 ∷ []

unfoldable pub size_at : List ℕ → ℕ → ℕ
size_at sizes i = elim (get_elem? sizes i) [ none ↦ 0 | some size ↦ size ]

-- What `main` reads of the settings; `raw` is what memory holds.
unfoldable pub configure : Settings → Config → Config
configure s raw = record raw {
  num_cpus = s.num_cpus;
  memramsz = size_at s.sizes 0;
  memswpsz = λ i. size_at s.sizes (i + 1);
}

-- The call with another number of arguments ends with 1 and starts nothing.
pub data Start : Type 0 where
  usage : Start
  started : Settings → Started → Start

unfoldable pub main :
    (List ℕ → Option (List Token)) → (ℕ → LdProcess) → Config → ℕ → List ℕ → Option Start
main files raw_processes raw argc arg =
    if argc == 2
    then (if ltb (length (input_dir ++ arg)) 100
        then (read_config raw_processes (files (input_dir ++ arg)) >>= λ s.
            some (started s (start_up (configure s raw))))
        else none)
    else some usage

-- `load` for place `i`, and the priority from the configuration, an `unsigned long` that goes into
-- 32 bits. The number of a process is taken
-- from a counter that starts with 1.
unfoldable pub load_next : (ℕ → Unset) → (List ℕ → Option (List Token)) → Settings → ℕ → Option Pcb
load_next unset files s i = do
  place ← get_elem? s.processes i
  (proc, next_pid) ← load (unset i) (i + 1) place.path (files place.path)
  some (record proc { prio = place.prio % 2 ^ 32 })
