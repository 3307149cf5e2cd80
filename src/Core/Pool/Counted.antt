-- ===== src/Core/Pool/Counted.antt =====
-- What the counters of native/src/core/thread.rs count, after any steps.
pub mod Notified
pub mod Moves
pub mod Given
pub mod Steps
pub mod Progress
use magisk_t.Prelude.{
  ℕ, zero, suc, ◌+◌, ◌-◌, ◌≤◌, ◌≡◌, refl, sym, ap, subst, ◌∙◌, Option, none, some, List, [], ◌∷◌,
  ◌++◌, arith, if◌then◌else◌, length,
}
use magisk_t.Core.Pool.{Place, entering, waiting, woken, expired, busy, Thread, Pool, pick, at}

-- One if a thread at a place is counted as idle, waits, is expired, or will look at the task.
abbrev pub idles : Place → ℕ
idles entering = 0
idles waiting = 1
idles woken = 1
idles expired = 1
idles (busy f) = 0

abbrev pub waits : Place → ℕ
waits waiting = 1
waits _ = 0

abbrev pub expires : Place → ℕ
expires expired = 1
expires _ = 0

abbrev pub looks : Place → ℕ
looks entering = 1
looks waiting = 0
looks woken = 1
looks expired = 0
looks (busy f) = 1

abbrev pub idle_of : Thread → ℕ
idle_of t = idles t.place

abbrev pub wait_of : Thread → ℕ
wait_of t = waits t.place

abbrev pub look_of : Thread → ℕ
look_of t = looks t.place

abbrev pub core_of : Thread → ℕ
core_of t = if t.is_core_pool then 1 else 0

abbrev pub lost_of : Thread → ℕ
lost_of t = if t.is_core_pool then expires t.place else 0

unfoldable pub sum : (Thread → ℕ) → List Thread → ℕ
sum f [] = 0
sum f (t ∷ threads) = f t + sum f threads

unfoldable pub pending : Option ℕ → List ℕ
pending none = []
pending (some f) = f ∷ []

-- The counters are right, the first three threads stay, and no task is lost, taken twice or taken
-- before an earlier one. No wait of a core thread timed out. A pending task has a thread that will
-- look at it, and while callers wait, a task is pending or one of them was notified.
pub record IsCounted (pool : Pool) : Type 0 where
  pub idle : pool.idle_threads ≡ sum idle_of pool.threads
  pub total : pool.total_threads ≡ length pool.threads
  pub core_few : pool.total_threads ≤ 3 → sum core_of pool.threads ≡ pool.total_threads
  pub core_many : 3 ≤ pool.total_threads → sum core_of pool.threads ≡ 3
  pub unused : pool.total_threads ≡ 0 → pool.given ≡ []
  pub tasks : pool.given ≡ pool.taken ++ pending pool.task
  pub core_waits : sum lost_of pool.threads ≡ 0
  pub looked_at : (f : ℕ) → pool.task ≡ some f → 1 ≤ sum look_of pool.threads
  pub heard : pool.task ≡ none → pool.resumed ≡ [] → pool.blocked ≡ []

pub record Picked (threads : List Thread) (t : Thread) (others : List Thread) : Type 0 where
  pub sums : (f : Thread → ℕ) → sum f threads ≡ f t + sum f others
  pub length_sum : length threads ≡ 1 + length others

pub pick-Picked :
    (i : ℕ) (threads : List Thread) (t : Thread) (others : List Thread)
    → pick i threads ≡ some (t, others)
    → Picked threads t others
unfolding pick
pick-Picked i [] t others h = absurd (cc h)
pick-Picked zero (u ∷ threads) t others h =
    let picked : Picked (u ∷ threads) u threads = record {
      sums = λ f. unfold sum in refl;
      length_sum = omega arith;
    } in
    subst {A = Thread × List Thread} (λ p. Picked (u ∷ threads) p.0 p.1) {x = (u, threads)}
      {y = (t, others)} (cc h) picked
pick-Picked (suc i) (u ∷ threads) t others h =
    go (pick i threads) (λ v rest e. pick-Picked i threads v rest e) refl h
  where
    go :
        (found : Option (Thread × List Thread))
        → ((v : Thread) (rest : List Thread)
            → pick i threads ≡ some (v, rest)
            → Picked threads v rest)
        → pick i threads ≡ found
        → (elim found as (λ _. Option (Thread × List Thread)) [
          | none ↦ none
          | some (v, rest) ↦ some (v, u ∷ rest)
        ])
          ≡ some (t, others)
        → Picked (u ∷ threads) t others
    go none ih e k = absurd (cc k)
    go (some (v, rest)) ih e k =
        let p = ih v rest e in
        let picked : Picked (u ∷ threads) v (u ∷ rest) = record {
          sums = λ f. unfold sum in omega (arith, p.sums f);
          length_sum = omega (arith, p.length_sum);
        } in
        subst {A = Thread × List Thread} (λ p. Picked (u ∷ threads) p.0 p.1) {x = (v, u ∷ rest)}
          {y = (t, others)} (cc k) picked

-- A thread that is no longer counted has left no trace in these sums.
pub sum-at :
    (f : Thread → ℕ) (place : Place) (t : Thread) (threads others : List Thread)
    → threads ≡ at place t ∷ others
    → sum f threads ≡ f (at place t) + sum f others
unfolding sum
sum-at f place t threads others e = ap (sum f) e

-- The one thread is at another place, and the counters say so.
pub replaced :
    (pool after : Pool) (t : Thread) (others : List Thread) (place : Place)
    → IsCounted pool
    → Picked pool.threads t others
    → after.threads ≡ at place t ∷ others
    → after.total_threads ≡ pool.total_threads
    → after.idle_threads ≡ idles place + sum idle_of others
    → after.given ≡ after.taken ++ pending after.task
    → lost_of (at place t) ≡ 0
    → ((f : ℕ) → after.task ≡ some f → 1 ≤ looks place + sum look_of others)
    → (after.task ≡ none → after.resumed ≡ [] → after.blocked ≡ [])
    → IsCounted after
replaced pool after t others place c p ts total idle tasks stays looked heard =
    let cores : sum core_of after.threads ≡ sum core_of pool.threads =
      sum-at core_of place t after.threads others ts ∙ unfold at in sym (p.sums core_of) in
    let looks_now : sum look_of after.threads ≡ looks place + sum look_of others =
      sum-at look_of place t after.threads others ts ∙ unfold at in refl in
    let lengths : length after.threads ≡ 1 + length others = ap length ts ∙ omega arith in
    record {
      idle = idle ∙ sym (sum-at idle_of place t after.threads others ts ∙ unfold at in refl);
      total = omega (arith, total, c.total, p.length_sum, lengths);
      core_few = λ h. ground (arith, h, total, cores, c.core_few);
      core_many = λ h. ground (arith, h, total, cores, c.core_many);
      unused = λ h. absurd (omega (arith, h, total, c.total, p.length_sum));
      tasks = tasks;
      core_waits =
          sum-at lost_of place t after.threads others ts
          ∙ omega (arith, stays, c.core_waits, p.sums lost_of);
      looked_at = λ f e. omega (arith, looked f e, looks_now);
      heard = heard;
    }
