-- ===== src/Core/Pool/Counted/Given.antt =====
-- A call of `exec_task` of native/src/core/thread.rs keeps the counters.
use magisk_t.Prelude.{
  ℕ, ◌+◌, ◌≤◌, ◌≡◌, refl, ap, ◌∙◌, Bool, true, false, Option, none, some, List, [], ◌∷◌, ◌++◌,
  append-nil, arith, leb, ◌==◌, if◌then◌else◌, length,
}
use magisk_t.Core.Pool.{
  Place, entering, waiting, woken, expired, busy, Thread, Pool, with_thread, with_task, block,
  exec_task, notify_one,
}
use magisk_t.Core.Pool.Counted.{idles, expires, idle_of, core_of, sum, pending, IsCounted}
use magisk_t.Core.Pool.Counted.Notified.{Notifies, notify_one-Woken, core-looks}

not_expired : (core : Bool) → (if core then expires entering else 0) ≡ 0
not_expired true = refl
not_expired false = refl

IsCounted-with_thread :
    (f : ℕ) (pool : Pool) (resumed : List ℕ)
    → IsCounted pool
    → pool.task ≡ none
    → IsCounted (with_thread f (record pool { resumed = resumed }))
unfolding with_thread sum pending
IsCounted-with_thread f pool resumed c e =
    let all_taken : pool.given ≡ pool.taken =
      c.tasks ∙ ap (λ a. pool.taken ++ pending a) e ∙ append-nil _ in
    let new_lost = not_expired (leb (pool.total_threads + 1) 3) in
    record {
      idle = omega (arith, c.idle);
      total = omega (arith, c.total);
      core_few = λ h. ground (arith, h, c.core_few);
      core_many = λ h. ground (arith, h, c.core_few, c.core_many);
      unused = λ h. absurd (omega (arith, h));
      tasks = ap (λ l. l ++ f ∷ []) all_taken;
      core_waits = omega (arith, new_lost, c.core_waits);
      looked_at = λ g h. omega arith;
      heard = λ h. absurd (cc h);
    }

sum-idle_le : (threads : List Thread) → sum idle_of threads ≤ length threads
unfolding sum
sum-idle_le [] = omega arith
sum-idle_le (t ∷ threads) = omega (arith, one t.place, sum-idle_le threads)
  where
    one : (place : Place) → idles place ≤ 1
    one entering = omega arith
    one waiting = omega arith
    one woken = omega arith
    one expired = omega arith
    one (busy f) = omega arith

-- The threads that a notification leaves, and that the task is looked at.
IsCounted-notified :
    (f : ℕ) (pool : Pool) (resumed : List ℕ) (found : Option (List Thread))
    → IsCounted pool
    → pool.task ≡ none
    → 1 ≤ pool.idle_threads
    → Notifies pool.threads found
    → IsCounted (record pool {
      task = some f;
      threads = elim found [ none ↦ pool.threads | some now ↦ now ];
      given = pool.given ++ f ∷ [];
      resumed = resumed;
    })
unfolding pending
IsCounted-notified f pool resumed found c e some_idle w =
    let all_taken : pool.given ≡ pool.taken =
      c.tasks ∙ ap (λ a. pool.taken ++ pending a) e ∙ append-nil _ in
    let used : 1 ≤ pool.total_threads =
      omega (arith, c.idle, c.total, some_idle, sum-idle_le pool.threads) in
    go found w (ap (λ l. l ++ f ∷ []) all_taken) used
  where
    go :
        (found : Option (List Thread))
        → Notifies pool.threads found
        → pool.given ++ f ∷ [] ≡ pool.taken ++ f ∷ []
        → 1 ≤ pool.total_threads
        → IsCounted (record pool {
          task = some f;
          threads = elim found [ none ↦ pool.threads | some now ↦ now ];
          given = pool.given ++ f ∷ [];
          resumed = resumed;
        })
    go none w tasks used =
        let some_core : 1 ≤ sum core_of pool.threads =
          ground (arith, used, c.core_few, c.core_many) in
        record {
          idle = c.idle;
          total = c.total;
          core_few = c.core_few;
          core_many = c.core_many;
          unused = λ h. absurd (omega (arith, h, used));
          tasks = unfold pending in tasks;
          core_waits = c.core_waits;
          looked_at = λ g h. omega (arith, core-looks pool.threads, c.core_waits, w, some_core);
          heard = λ h. absurd (cc h);
        }
    go (some now) w tasks used = record {
      idle = omega (arith, c.idle, w.idle_same);
      total = omega (arith, c.total, w.length_same);
      core_few = λ h. omega (arith, c.core_few h, w.core_same);
      core_many = λ h. omega (arith, c.core_many h, w.core_same);
      unused = λ h. absurd (omega (arith, h, used));
      tasks = unfold pending in tasks;
      core_waits = omega (arith, c.core_waits, w.lost_same);
      looked_at = λ g h. w.looks_more;
      heard = λ h. absurd (cc h);
    }

pub IsCounted-exec_task :
    (task : Option ℕ) (f k : ℕ) (pool : Pool) (resumed : List ℕ)
    → IsCounted pool
    → pool.task ≡ task
    → IsCounted (exec_task task f k (record pool { resumed = resumed }))
unfolding exec_task block
IsCounted-exec_task (some g) f k pool resumed c e = record {
  idle = c.idle;
  total = c.total;
  core_few = c.core_few;
  core_many = c.core_many;
  unused = c.unused;
  tasks = c.tasks;
  core_waits = c.core_waits;
  looked_at = c.looked_at;
  heard = λ h. absurd (cc (h, e));
}
IsCounted-exec_task none f k pool resumed c e = if-IsCounted (pool.idle_threads == 0) refl
  where
    if-IsCounted :
        (b : Bool)
        → (pool.idle_threads == 0) ≡ b
        → IsCounted (
            if b
            then with_thread f (record pool { resumed = resumed })
            else with_task f k (record pool { resumed = resumed }))
    if-IsCounted true h = IsCounted-with_thread f pool resumed c e
    if-IsCounted false h =
        unfold with_task in
        IsCounted-notified f pool resumed (notify_one k pool.threads) c e (ground (arith, h))
          (notify_one-Woken k pool.threads)
