-- ===== src/Os/Main/Files.antt =====
-- A system that is written in files and started.
use easter_egg.Common.{
  ℕ, zero, suc, ◌+◌, ◌/◌, ◌%◌, ◌^◌, ◌≤◌, ◌<◌, ◌≡◌, refl, ap, arith, Option, some,
}
use easter_egg.Common.{
  List, [], ◌∷◌, ◌++◌, get_elem?, length, map, All, lt→ltb, take, length-append,
}
use easter_egg.Memphy.Frames.{IsValid}
use easter_egg.Timer.System.{init}
use easter_egg.Process.{Inst}
use easter_egg.Loader.{Token, Unset}
use easter_egg.Loader.RoundTrip.{print_file, filled_code, load-print}
use easter_egg.Config.{Settings, LdProcess, proc_dir}
use easter_egg.Config.RoundTrip.{Entry, print_config, configured, read_config-print}
use easter_egg.Os.Startup.{Config, Started, start_up}
use easter_egg.Os.Startup.Ready.{start_up_lem}
use easter_egg.Os.Main.{input_dir, size_at, configure, main, started, load_next}

abbrev pub settings : ℕ → ℕ → ℕ × ℕ × ℕ × ℕ × ℕ → List Entry → Settings
settings time_slot num_cpus (a, b, c, d, e) entries = record {
  time_slot = time_slot;
  num_cpus = num_cpus;
  num_processes = length entries;
  sizes = a ∷ b ∷ c ∷ d ∷ e ∷ [];
  processes = map configured entries;
}

entry_at :
    (entries : List Entry) (i : ℕ) (x : Entry)
    → get_elem? entries i ≡ some x
    → get_elem? (map configured entries) i ≡ some (configured x)
entry_at [] i x e = cc
entry_at (y ∷ rest) zero x e = let same : y ≡ x = cc in ap (λ (z : Entry). some (configured z)) same
entry_at (y ∷ rest) (suc i) x e = entry_at rest i x e

-- When a configuration file is written, with a RAM and a first swap device of at least two frames each
-- and with names that fit, and `main` is called with its name: `main` gets to the creation of the
-- threads, with the settings of the file, a timer with one device more than there are CPUs, and both
-- devices with valid lists of all their whole frames. And if place `i` of the configuration names a
-- process file that is written too, `ld_routine` loads for it a process with the next number, the code
-- of that file, the priority of the place in 32 bits, and 16 characters of the path.
pub main_starts :
    (files : List ℕ → Option (List Token)) (raw_processes : ℕ → LdProcess) (raw : Config)
    (unset : ℕ → Unset) (arg : List ℕ) (time_slot num_cpus a b c d e : ℕ) (entries : List Entry)
    (i t p priority : ℕ) (w : List ℕ) (code : List Inst)
    → length arg < 94
    → All (λ x. length (x.1) < 89) entries
    → 512 ≤ a
    → 512 ≤ b
    → files (input_dir ++ arg) ≡ some (print_config time_slot num_cpus (a, b, c, d, e) entries)
    → get_elem? entries i ≡ some (t, w, p)
    → files (proc_dir ++ w) ≡ some (print_file priority code)
    → let s = settings time_slot num_cpus (a, b, c, d, e) entries in
      (st : Started) × (main files raw_processes raw 2 arg ≡ some (started s st))
      × (st.timer ≡ (init (num_cpus + 1)).timer)
      × IsValid st.machine.mram
      × (length st.machine.mram.free_fp_list ≡ a / 256)
      × IsValid st.machine.active_mswp
      × (length st.machine.active_mswp.free_fp_list ≡ b / 256)
      × (load_next unset files s i
          ≡ some (record {
            pid = i + 1;
            pc = 0;
            code = filled_code (unset i).text 0 code;
            prio = p % 2 ^ 32;
            path = take 16 (proc_dir ++ w);
            mm = (unset i).mm;
          }))
unfolding main load_next configure size_at
main_starts files raw_processes raw unset arg time_slot num_cpus a b c d e entries i t p priority w
      code short names ram swap file at written =
    let s = settings time_slot num_cpus (a, b, c, d, e) entries in
    let ready = start_up_lem (configure s raw) ram swap in
    (
      start_up (configure s raw),
      rw
          (
            lt→ltb (length (input_dir ++ arg)) 100 (omega (arith, length-append input_dir arg)),
            file,
            read_config-print raw_processes time_slot num_cpus a b c d e entries names,
          )
          refl,
      ready.0,
      ready.3,
      ready.4,
      ready.5,
      ready.6,
      rw
          (
            entry_at entries i (t, w, p) at,
            written,
            load-print (unset i) (i + 1) priority (proc_dir ++ w) code,
          )
          refl,
    )
