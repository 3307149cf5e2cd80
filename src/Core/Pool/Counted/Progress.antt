-- ===== src/Core/Pool/Counted/Progress.antt =====
-- A pending task of native/src/core/thread.rs is taken by a thread that needs no notification more.
use magisk_t.Prelude.{
  ℕ, suc, ◌≤◌, ◌≡◌, refl, ap, ◌∙◌, ◌⊎◌, inl, inr, Option, none, some, List, [], ◌∷◌, ◌++◌, arith,
  ◌==◌, Bool-cases,
}
use magisk_t.Core.Pool.{
  Place, entering, waiting, woken, expired, busy, Thread, Pool, default, pick, at, take_task,
  count_idle, enter, finish, Step, next, move, step, steps,
}
use magisk_t.Core.Pool.Counted.{looks, look_of, sum}
use magisk_t.Core.Pool.Counted.Steps.{steps-IsCounted}

-- A thread of the list that will look at the task.
abbrev Looker : List Thread → Type 0
Looker threads =
    (i : ℕ) × (t : Thread) × (others : List Thread) × (pick i threads ≡ some (t, others))
    × (1 ≤ looks t.place)

find-Looker : (threads : List Thread) → 1 ≤ sum look_of threads → Looker threads
unfolding sum pick
find-Looker [] h = absurd (omega (arith, h))
find-Looker (t ∷ threads) h = elim (Bool-cases (looks t.place == 0)) [
  | inr here ↦ (0, t, threads, refl, ground (arith, here))
  | inl not_here ↦
      let (i, u, others, picked, look) = find-Looker threads (ground (arith, not_here, h)) in
      (
        suc i,
        u,
        t ∷ others,
        ap
            (λ o. elim o as (λ _. Option (Thread × List Thread)) [
              | none ↦ none
              | some (found, rest) ↦ some (found, t ∷ rest)
            ])
            picked,
        look,
      )
]

then_steps :
    (s : Step) (ss : List Step) (pool between : Pool)
    → step s pool ≡ some between
    → steps (s ∷ ss) pool ≡ steps ss between
unfolding steps
then_steps s ss pool between e =
    ap (λ o. elim o as (λ _. Option Pool) [ none ↦ none | some after ↦ steps ss after ]) e

one_step :
    (s : Step) (pool after : Pool) → step s pool ≡ some after → steps (s ∷ []) pool ≡ some after
unfolding steps
one_step s pool after e = then_steps s [] pool after e

two_steps :
    (s r : Step) (pool between after : Pool)
    → step s pool ≡ some between
    → step r between ≡ some after
    → steps (s ∷ r ∷ []) pool ≡ some after
two_steps s r pool between after e h =
    then_steps s (r ∷ []) pool between e ∙ one_step r between after h

next-move :
    (i : ℕ) (pool : Pool) (t : Thread) (others : List Thread) (place : Place)
    → pick i pool.threads ≡ some (t, others)
    → t.place ≡ place
    → step (next i 0) pool ≡ move 0 t others pool place
unfolding step
next-move i pool t others place picked e =
    ap
      (λ o. elim o as (λ _. Option Pool) [
        | none ↦ none
        | some (u, rest) ↦ move 0 u rest pool u.place
      ])
      picked
    ∙ ap (move 0 t others pool) e

-- What a thread does until it has the task: it ends what it runs, and enters the loop.
abbrev Takes : Pool → ℕ → ℕ → Type 0
Takes pool f i =
    (after : Pool) × ((steps (next i 0 ∷ []) pool ≡ some after)
      ⊎ (steps (next i 0 ∷ next 0 0 ∷ []) pool ≡ some after))
    × (after.taken ≡ pool.taken ++ f ∷ [])

taken_by :
    (pool : Pool) (f i : ℕ) (t : Thread) (others : List Thread) (place : Place)
    → pool.task ≡ some f
    → pick i pool.threads ≡ some (t, others)
    → t.place ≡ place
    → 1 ≤ looks place
    → Takes pool f i
unfolding move enter take_task count_idle finish at pick
taken_by pool f i t others waiting task picked e look = absurd (omega (arith, look))
taken_by pool f i t others expired task picked e look = absurd (omega (arith, look))
taken_by pool f i t others entering task picked e look = (
  enter (some f) 0 t others pool,
  inl (
      one_step (next i 0) pool _ (
        next-move i pool t others entering picked e
        ∙ ap (λ k. some (enter k 0 t others pool)) task)),
  refl,
)
taken_by pool f i t others woken task picked e look = (
  take_task (some f) 0 t others pool,
  inl (
      one_step (next i 0) pool _ (
        next-move i pool t others woken picked e
        ∙ ap (λ k. some (take_task k 0 t others pool)) task)),
  refl,
)
taken_by pool f i t others (busy g) task picked e look =
    let between = finish t others pool in
    (
      enter (some f) 0 (at entering t) others between,
      inr (
          two_steps (next i 0) (next 0 0) pool between _
            (next-move i pool t others (busy g) picked e)
            (next-move 0 between (at entering t) others entering refl refl
              ∙ ap (λ k. some (enter k 0 (at entering t) others between)) task)),
      refl,
    )

-- Where a task is pending after any steps, some thread takes it in one step or, when it runs another
-- task, in the step that ends that task and the one after it: no wait has to end first, by a
-- notification or for no reason.
pub steps-progress :
    (ss : List Step) (pool : Pool) (f : ℕ)
    → steps ss default ≡ some pool
    → pool.task ≡ some f
    → (i : ℕ) × (after : Pool) × ((steps (next i 0 ∷ []) pool ≡ some after)
        ⊎ (steps (next i 0 ∷ next 0 0 ∷ []) pool ≡ some after))
      × (after.taken ≡ pool.taken ++ f ∷ [])
steps-progress ss pool f h task =
    let c = steps-IsCounted ss pool h in
    let (i, t, others, picked, look) = find-Looker pool.threads (c.looked_at f task) in
    let (after, run, took) = taken_by pool f i t others t.place task picked refl look in
    (i, after, run, took)
