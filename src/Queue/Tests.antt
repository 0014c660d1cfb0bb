-- ===== src/Queue/Tests.antt =====
-- Runs of the queue routines, and the theorems about them at concrete queues.
use easter_egg.Common.{ℕ, ◌+◌, ◌≡◌, refl, [], ◌∷◌}
use easter_egg.Common.{◌==◌, if◌then◌else◌}
use easter_egg.Queue.{Queue, enqueue, dequeue, highest_loop, shift_loop}
use easter_egg.Queue.Refine.{Dequeues, dequeue-Dequeues, contents}

-- Processes 7, 8, 9.
abbrev three : Queue
three = record { proc = λ i. i + 7; size = 3 }

-- Process 8 has the highest `prio`.
abbrev middle_first : ℕ → ℕ
middle_first p = if p == 8 then 5 else 2

dequeue_runs : contents (dequeue middle_first three).1 ≡ 7 ∷ 9 ∷ []
unfolding dequeue highest_loop shift_loop
dequeue_runs = refl

enqueue_runs : contents (enqueue three 4) ≡ 7 ∷ 8 ∷ 9 ∷ 4 ∷ []
unfolding enqueue
enqueue_runs = refl

dequeue-Dequeues_example : Dequeues middle_first three (dequeue middle_first three)
dequeue-Dequeues_example = dequeue-Dequeues middle_first three
