-- ===== src/Core/Pool/Counted/Steps.antt =====
-- Every step of native/src/core/thread.rs keeps the counters.
use magisk_t.Prelude.{ℕ, ◌≡◌, refl, subst, true, false, Option, none, some, List, [], ◌∷◌, arith}
use magisk_t.Core.Pool.{
  Thread, Pool, pick, move, default, exec_task, leave, Step, exec, resume, next, time_out, spurious,
  spurious_caller, step, steps,
}
use magisk_t.Core.Pool.Counted.{sum, pending, IsCounted, Picked, pick-Picked}
use magisk_t.Core.Pool.Counted.Moves.{IsCounted-move, IsCounted-leave}
use magisk_t.Core.Pool.Counted.Given.{IsCounted-exec_task}

-- A caller that goes on for no reason is one more that was notified.
IsCounted-spurious_caller :
    (f : ℕ) (others : List ℕ) (pool : Pool)
    → IsCounted pool
    → IsCounted (record pool { blocked = others; resumed = f ∷ pool.resumed })
IsCounted-spurious_caller f others pool c = record {
  idle = c.idle;
  total = c.total;
  core_few = c.core_few;
  core_many = c.core_many;
  unused = c.unused;
  tasks = c.tasks;
  core_waits = c.core_waits;
  looked_at = c.looked_at;
  heard = λ h e. absurd (cc e);
}

-- What a step makes of the thread that it picks.
IsCounted-picked :
    (i : ℕ) (pool after : Pool) (act : Thread → List Thread → Option Pool)
    → ((t : Thread) (others : List Thread)
        → Picked pool.threads t others
        → act t others ≡ some after
        → IsCounted after)
    → (elim (pick i pool.threads) as (λ _. Option Pool) [
      | none ↦ none
      | some (t, others) ↦ act t others
    ])
      ≡ some after
    → IsCounted after
IsCounted-picked i pool after act kept h =
    go (pick i pool.threads) (λ t others e. pick-Picked i pool.threads t others e) h
  where
    go :
        (found : Option (Thread × List Thread))
        → ((t : Thread) (others : List Thread)
            → found ≡ some (t, others)
            → Picked pool.threads t others)
        → (elim found as (λ _. Option Pool) [ none ↦ none | some (t, others) ↦ act t others ])
          ≡ some after
        → IsCounted after
    go none p e = absurd (cc e)
    go (some (t, others)) p e = kept t others (p t others refl) e

IsCounted-step :
    (s : Step) (pool after : Pool) → IsCounted pool → step s pool ≡ some after → IsCounted after
unfolding step
IsCounted-step (exec f k) pool after c h =
    subst IsCounted (cc h) (IsCounted-exec_task pool.task f k pool pool.resumed c refl)
IsCounted-step (resume i k) pool after c h = go (pick i pool.resumed) h
  where
    go :
        (found : Option (ℕ × List ℕ))
        → (elim found as (λ _. Option Pool) [
          | none ↦ none
          | some (f, others) ↦ some (exec_task pool.task f k (record pool { resumed = others }))
        ])
          ≡ some after
        → IsCounted after
    go none e = absurd (cc e)
    go (some (f, others)) e =
        subst IsCounted (cc e) (IsCounted-exec_task pool.task f k pool others c refl)
IsCounted-step (next i k) pool after c h =
    IsCounted-picked i pool after (λ t others. move k t others pool t.place)
      (λ t others p. IsCounted-move k pool after t others t.place c p refl) h
IsCounted-step (time_out i) pool after c h =
    IsCounted-picked i pool after (λ t others. leave true t others pool t.place)
      (λ t others p. IsCounted-leave true pool after t others t.place c p refl) h
IsCounted-step (spurious i) pool after c h =
    IsCounted-picked i pool after (λ t others. leave false t others pool t.place)
      (λ t others p. IsCounted-leave false pool after t others t.place c p refl) h
IsCounted-step (spurious_caller i) pool after c h = go (pick i pool.blocked) h
  where
    go :
        (found : Option (ℕ × List ℕ))
        → (elim found as (λ _. Option Pool) [
          | none ↦ none
          | some (f, others) ↦ some (record pool { blocked = others; resumed = f ∷ pool.resumed })
        ])
          ≡ some after
        → IsCounted after
    go none e = absurd (cc e)
    go (some (f, others)) e = subst IsCounted (cc e) (IsCounted-spurious_caller f others pool c)

steps-kept :
    (ss : List Step) (pool after : Pool)
    → IsCounted pool
    → steps ss pool ≡ some after
    → IsCounted after
unfolding steps
steps-kept [] pool after c h = subst IsCounted (cc h) c
steps-kept (s ∷ ss) pool after c h =
    go (step s pool) (λ between e. IsCounted-step s pool between c e)
      (λ between d k. steps-kept ss between after d k) h
  where
    go :
        (found : Option Pool)
        → ((between : Pool) → found ≡ some between → IsCounted between)
        → ((between : Pool) → IsCounted between → steps ss between ≡ some after → IsCounted after)
        → (elim found as (λ _. Option Pool) [ none ↦ none | some between ↦ steps ss between ])
          ≡ some after
        → IsCounted after
    go none one later k = absurd (cc k)
    go (some between) one later k = later between (one between refl) k

default-IsCounted : IsCounted default
unfolding sum pending
default-IsCounted = record {
  idle = refl;
  total = omega arith;
  core_few = λ h. refl;
  core_many = λ h. absurd (omega (arith, h));
  unused = λ h. refl;
  tasks = refl;
  core_waits = refl;
  looked_at = λ f h. absurd (cc h);
  heard = λ h e. refl;
}

-- After any steps of any threads, the counters are those of the threads in a wait, or behind one and
-- not yet with the lock, and of all threads, the first three threads are still there, and the tasks given are those taken, in order, and the one
-- that is pending. No wait of one of the first three timed out. A pending task has a thread that does
-- not wait and will look at it, and while callers of `exec_task` wait, a task is pending or a caller
-- was notified.
pub steps-IsCounted :
    (ss : List Step) (after : Pool) → steps ss default ≡ some after → IsCounted after
steps-IsCounted ss after h = steps-kept ss default after default-IsCounted h
