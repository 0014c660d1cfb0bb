-- ===== src/Config/Tests.antt =====
-- The theorem about configuration files at a concrete file.
use easter_egg.Common.{ℕ, ◌≡◌, arith, some, [], ◌∷◌, map, List}
use easter_egg.Config.{LdProcess, read_config}
use easter_egg.Config.RoundTrip.{Entry, print_config, configured, read_config-print}

abbrev entries : List Entry
entries = (0, 112 ∷ 48 ∷ [], 130) ∷ (4, 112 ∷ 49 ∷ [], 139) ∷ []

abbrev raw : ℕ → LdProcess
raw i = record { start_time = i; path = []; prio = 7 }

read_config-print_example :
    read_config raw (some (print_config 2 4 (1048576, 16777216, 0, 0, 0) entries))
    ≡ some (record {
      time_slot = 2;
      num_cpus = 4;
      num_processes = 2;
      sizes = 1048576 ∷ 16777216 ∷ 0 ∷ 0 ∷ 0 ∷ [];
      processes = map configured entries;
    })
read_config-print_example =
    read_config-print raw 2 4 1048576 16777216 0 0 0 entries (omega arith, (omega arith, tt))
