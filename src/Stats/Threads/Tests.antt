-- ===== src/Stats/Threads/Tests.antt =====
-- Two threads in `update_alloc` of mprofile/init.c, and the theorems at them.
use ossl_scripts.Base.{refl, ◌≡◌, ◌≤◌, ℕ, update}
use ossl_scripts.Stats.Threads.{idle, Reach, Shared, next, Reach-maximum, added, start, add}
use ossl_scripts.Stats.Threads.Progress.{Leaves, Reach-leaves}

abbrev quiet : Shared
quiet = record { current = 0; maximum = 0; peak = 0; pc = λ _. idle }

-- thread 1 has added 10, and thread 2 has added 20 on top of it
abbrev one_added : Shared
one_added = record quiet { current = 10; peak = 10; pc = update quiet.pc 1 (added 10) }

abbrev both_added : Shared
both_added = record one_added { current = 30; peak = 30; pc = update one_added.pc 2 (added 30) }

both_reached : Reach both_added
both_reached = next (next (start {s = quiet} refl refl (λ i. refl)) (add 1 10 refl)) (add 2 20 refl)

Reach-maximum_example :
    (both_added.maximum ≤ both_added.peak)
    × (((i : ℕ) → both_added.pc i ≡ idle) → both_added.maximum ≡ both_added.peak)
Reach-maximum_example = Reach-maximum both_reached

Reach-leaves_example : (t : Shared) × Leaves 1 4 both_added t
Reach-leaves_example = Reach-leaves 1 both_reached
