-- ===== src/Core/Pool/Tests.antt =====
-- Runs of native/src/core/thread.rs, and the theorems at concrete inputs.
use magisk_t.Prelude.{ℕ, ◌≡◌, refl, ◌⊎◌, true, some, List, [], ◌∷◌, ◌++◌}
use magisk_t.Core.Pool.{busy, Thread, Pool, default, exec_task, Step, exec, next, time_out, steps}
use magisk_t.Core.Pool.Counted.{IsCounted}
use magisk_t.Core.Pool.Counted.Steps.{steps-IsCounted}
use magisk_t.Core.Pool.Counted.Progress.{steps-progress}

-- Three tasks on core threads that run on, and a fourth that ends, whose thread waits.
abbrev long_tasks : List Step
long_tasks =
    exec 1 0
    ∷ next 0 0
    ∷ exec 2 0
    ∷ next 0 0
    ∷ exec 3 0
    ∷ next 0 0
    ∷ exec 4 0
    ∷ next 0 0
    ∷ next 0 0
    ∷ next 0 0
    ∷ []

-- Its wait times out, and before it has the lock again a fifth task is given: nobody is notified.
abbrev too_late : List Step
too_late = time_out 0 ∷ exec 5 0 ∷ next 0 0 ∷ []

abbrev running : ℕ → Thread
running f = record { is_core_pool = true; place = busy f }

-- The thread leaves, and the task stays.
abbrev stranded : Pool
stranded = record {
  idle_threads = 0;
  total_threads = 3;
  task = some 5;
  threads = running 3 ∷ running 2 ∷ running 1 ∷ [];
  blocked = [];
  resumed = [];
  given = 1 ∷ 2 ∷ 3 ∷ 4 ∷ 5 ∷ [];
  taken = 1 ∷ 2 ∷ 3 ∷ 4 ∷ [];
}

stranded_run : steps (long_tasks ++ too_late) default ≡ some stranded
unfolding steps
stranded_run = refl

-- The caller with a further task waits until one of the three ends.
stranded_full : exec_task stranded.task 6 0 stranded ≡ record stranded { blocked = 6 ∷ [] }
unfolding exec_task
stranded_full = refl

steps-IsCounted_example : IsCounted stranded
steps-IsCounted_example = steps-IsCounted (long_tasks ++ too_late) stranded stranded_run

steps-progress_example :
    (i : ℕ) × (after : Pool) × ((steps (next i 0 ∷ []) stranded ≡ some after)
      ⊎ (steps (next i 0 ∷ next 0 0 ∷ []) stranded ≡ some after))
    × (after.taken ≡ stranded.taken ++ 5 ∷ [])
steps-progress_example = steps-progress (long_tasks ++ too_late) stranded 5 stranded_run refl
