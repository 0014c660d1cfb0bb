-- ===== src/Os/Startup/Ready.antt =====
-- The state in which the threads start.
use mathlib.Core.Path.{fun_ext}
use easter_egg.Common.{ℕ, zero, suc, ◌+◌, ◌/◌, ◌≤◌, ◌<◌, ◌≡◌, refl, ap, ◌∙◌, arith}
use easter_egg.Common.{Option, none, some, length, update, ◌==◌, Bool-cases, inl, inr}
use easter_egg.Memphy.Frames.{IsValid, init_memphy-IsValid}
use easter_egg.Timer.{Timer, Device, attach_event, start_timer}
use easter_egg.Timer.System.{init}
use easter_egg.Os.Startup.{Config, attach_loop, swap_loop, start_up, unused_timer}
use easter_egg.Os.Threads.{begin}

-- The timer with `n` devices that have done nothing.
abbrev attached : ℕ → Timer
attached n = record unused_timer { count = n }

attach_once : (n : ℕ) → attach_event (attached n) ≡ (some n, attached (n + 1))
unfolding attach_event
attach_once n =
    ap (λ (f : ℕ → Device). (some n, record (attached (n + 1)) { devices = f }))
      (fun_ext λ j. ground arith)

attach_more :
    (rounds i : ℕ) (ids : ℕ → Option ℕ)
    → attach_loop (suc rounds) i ids (attached i)
      ≡ attach_loop rounds (i + 1) (update ids i (some i)) (attached (i + 1))
unfolding attach_loop
attach_more rounds i ids =
    ap (λ (r : Option ℕ × Timer). attach_loop rounds (i + 1) (update ids i r.0) r.1) (attach_once i)

attach_loop_lem :
    (rounds i : ℕ) (ids : ℕ → Option ℕ)
    → ((attach_loop rounds i ids (attached i)).1 ≡ attached (i + rounds))
      × ((j : ℕ) → j < i → (attach_loop rounds i ids (attached i)).0 j ≡ ids j)
      × ((j : ℕ) → i ≤ j → j < i + rounds → (attach_loop rounds i ids (attached i)).0 j ≡ some j)
attach_loop_lem zero i ids =
    unfold attach_loop in (ap attached (omega arith), λ j h. refl, λ j h k. absurd (omega arith))
attach_loop_lem (suc rounds) i ids =
    let next = update ids i (some i) in
    let (timer, below, from) = attach_loop_lem rounds (i + 1) next in
    rw (attach_more rounds i ids) (
      timer ∙ ap attached (omega arith),
      λ j h. below j (omega arith) ∙ ground arith,
      λ j h k. elim (Bool-cases (j == i)) [
        | inl same ↦ below j (ground arith) ∙ ground arith
        | inr other ↦ from j (ground arith) (omega arith)
      ],
    )

-- When `main` creates the threads, with a RAM and a first swap device of at least two frames each:
-- the timer is in the state from which Timer/System starts with one device more than there are CPUs,
-- CPU `i` has device `i` and the loader the last one; both devices have valid lists of free frames
-- with all of their whole frames; and the machine is one from which Os/Threads starts.
pub start_up_lem :
    (c : Config)
    → 512 ≤ c.memramsz
    → 512 ≤ c.memswpsz 0
    → ((start_up c).timer ≡ (init (c.num_cpus + 1)).timer)
      × ((i : ℕ) → i < c.num_cpus → (start_up c).timer_id i ≡ some i)
      × ((start_up c).ld_event ≡ some c.num_cpus)
      × IsValid (start_up c).machine.mram
      × (length (start_up c).machine.mram.free_fp_list ≡ c.memramsz / 256)
      × IsValid (start_up c).machine.active_mswp
      × (length (start_up c).machine.active_mswp.free_fp_list ≡ c.memswpsz 0 / 256)
      × ((begin (start_up c).machine).machine ≡ (start_up c).machine)
unfolding start_up swap_loop start_timer
start_up_lem c ram swap =
    let (timer, below, from) = attach_loop_lem c.num_cpus 0 (λ _. none) in
    let last : attach_event (attach_loop c.num_cpus 0 (λ _. none) unused_timer).1
        ≡ (some c.num_cpus, attached (c.num_cpus + 1)) =
      ap attach_event (timer ∙ ap attached (omega arith)) ∙ attach_once c.num_cpus in
    let first = init_memphy-IsValid c.link_ram c.raw_ram c.memramsz 1 0 ram in
    let second = init_memphy-IsValid (c.link_swap 0) (c.raw_swap 0) (c.memswpsz 0) 1 0 swap in
    (
      ap (λ (r : Option ℕ × Timer). start_timer r.1) last,
      λ i h. from i (omega arith) (omega arith),
      ap (λ (r : Option ℕ × Timer). r.0) last,
      first.0,
      first.1,
      second.0,
      second.1,
      refl,
    )
