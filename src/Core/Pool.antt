-- ===== src/Core/Pool.antt =====
-- The thread pool of native/src/core/thread.rs as steps: each is what one thread does while it holds
-- the lock. A thread that waits on a condition variable goes on when it is notified, when its wait
-- times out, or when the system wakes it for no reason, as it may. The lock is taken again later: what
-- happens in between is what the places `woken` and `expired` and the list `resumed` are for.
pub mod Counted
mod Tests
use magisk_t.Prelude.{
  ℕ, zero, suc, ◌+◌, ◌-◌, Bool, true, false, not, Option, none, some, List, [], ◌∷◌, ◌++◌, leb,
  ◌==◌, if◌then◌else◌,
}

-- Where a thread is: about to take the lock in `pool_loop`, in a wait, behind a wait that was notified
-- or one that timed out and about to take the lock again, or running a task.
pub data Place : Type 0 where
  entering : Place
  waiting : Place
  woken : Place
  expired : Place
  busy : ℕ → Place

pub record Thread : Type 0 where
  pub is_core_pool : Bool
  pub place : Place

-- The info of the pool and its threads, in any order. `blocked` are the tasks of the callers of
-- `exec_task` that wait on `task_is_none`, and `resumed` those of the callers that were notified there.
-- `given` are the tasks that became pending and `taken` those that a thread took, each in order.
pub record Pool : Type 0 where
  pub idle_threads : ℕ
  pub total_threads : ℕ
  pub task : Option ℕ
  pub threads : List Thread
  pub blocked : List ℕ
  pub resumed : List ℕ
  pub given : List ℕ
  pub taken : List ℕ

abbrev pub default : Pool
default = record {
  idle_threads = 0;
  total_threads = 0;
  task = none;
  threads = [];
  blocked = [];
  resumed = [];
  given = [];
  taken = [];
}

unfoldable pub at : Place → Thread → Thread
at place t = record { is_core_pool = t.is_core_pool; place = place }

unfoldable pub pick {ℓ} : {A : Type ℓ} → ℕ → List A → Option (A × List A)
pick i [] = none
pick zero (a ∷ others) = some (a, others)
pick (suc i) (a ∷ rest) = elim (pick i rest) [
  | none ↦ none
  | some (found, others) ↦ some (found, a ∷ others)
]

unfoldable pub wake_here : Place → Thread → List Thread → Option (List Thread)
unfolding at
wake_here waiting t threads = some (at woken t ∷ threads)
wake_here _ t threads = none

-- `task_is_some.notify_one()`: it wakes one of the threads that wait, any of them, if there is one.
unfoldable pub notify_one : ℕ → List Thread → Option (List Thread)
unfolding wake_here
notify_one k [] = none
notify_one zero (t ∷ threads) =
    let later = notify_one zero threads in
    elim (wake_here t.place t threads) [
      | some now ↦ some now
      | none ↦ elim later [ none ↦ none | some now ↦ some (t ∷ now) ]
    ]
notify_one (suc k) (t ∷ threads) =
    let later = notify_one k threads in
    elim later [ some now ↦ some (t ∷ now) | none ↦ wake_here t.place t threads ]

-- `task_is_none.notify_one()`: one of the callers that wait, any of them, if there is one.
unfoldable pub notify_caller : ℕ → List ℕ → List ℕ → List ℕ × List ℕ
notify_caller k [] resumed = ([], resumed)
notify_caller zero (f ∷ blocked) resumed = (blocked, f ∷ resumed)
notify_caller (suc k) (f ∷ []) resumed = ([], f ∷ resumed)
notify_caller (suc k) (f ∷ g ∷ blocked) resumed =
    let (others, now) = notify_caller k (g ∷ blocked) resumed in (f ∷ others, now)

unfoldable pub with_thread : ℕ → Pool → Pool
with_thread f pool = record pool {
  total_threads = pool.total_threads + 1;
  task = some f;
  threads =
      record { is_core_pool = leb (pool.total_threads + 1) 3; place = entering } ∷ pool.threads;
  given = pool.given ++ f ∷ [];
}

-- A notification when no thread waits is lost.
unfoldable pub with_task : ℕ → ℕ → Pool → Pool
unfolding notify_one
with_task f k pool = record pool {
  task = some f;
  threads = elim (notify_one k pool.threads) [ none ↦ pool.threads | some now ↦ now ];
  given = pool.given ++ f ∷ [];
}

unfoldable pub block : ℕ → Pool → Pool
block f pool = record pool { blocked = f ∷ pool.blocked }

-- `exec_task_impl` from where its caller has the lock, to where it waits or returns.
unfoldable pub exec_task : Option ℕ → ℕ → ℕ → Pool → Pool
unfolding with_thread with_task block
exec_task (some pending) f k pool = block f pool
exec_task none f k pool = if pool.idle_threads == 0 then with_thread f pool else with_task f k pool

-- `info.task.take()` by a thread that is counted as idle, to where the lock is given back.
unfoldable pub take_task : Option ℕ → ℕ → Thread → List Thread → Pool → Pool
unfolding at notify_caller
take_task none k t others pool = record pool {
  idle_threads = pool.idle_threads - 1;
  task = none;
  threads = at entering t ∷ others;
  blocked = (notify_caller k pool.blocked pool.resumed).0;
  resumed = (notify_caller k pool.blocked pool.resumed).1;
}
take_task (some f) k t others pool = record pool {
  idle_threads = pool.idle_threads - 1;
  task = none;
  threads = at (busy f) t ∷ others;
  blocked = (notify_caller k pool.blocked pool.resumed).0;
  resumed = (notify_caller k pool.blocked pool.resumed).1;
  taken = pool.taken ++ f ∷ [];
}

-- A thread takes the lock at the head of the loop, and is counted as idle.
unfoldable pub count_idle : Thread → List Thread → Pool → Pool
unfolding at
count_idle t others pool = record pool {
  idle_threads = pool.idle_threads + 1;
  threads = at waiting t ∷ others;
}

-- It waits, or takes the task at once.
unfoldable pub enter : Option ℕ → ℕ → Thread → List Thread → Pool → Pool
unfolding count_idle take_task
enter none k t others pool = count_idle t others pool
enter (some f) k t others pool = take_task (some f) k t others (count_idle t others pool)

-- A thread whose wait timed out leaves. It does not look at the task.
unfoldable pub close : List Thread → Pool → Pool
close others pool = record pool {
  idle_threads = pool.idle_threads - 1;
  total_threads = pool.total_threads - 1;
  threads = others;
}

unfoldable pub finish : Thread → List Thread → Pool → Pool
unfolding at
finish t others pool = record pool { threads = at entering t ∷ others }

-- What a thread does next with the lock; one that waits does nothing.
unfoldable pub move : ℕ → Thread → List Thread → Pool → Place → Option Pool
unfolding enter take_task close finish
move k t others pool entering = some (enter pool.task k t others pool)
move k t others pool waiting = none
move k t others pool woken = some (take_task pool.task k t others pool)
move k t others pool expired = some (close others pool)
move k t others pool (busy f) = some (finish t others pool)

-- The end of a wait. That of a thread of the core pool never times out.
unfoldable pub leave : Bool → Thread → List Thread → Pool → Place → Option Pool
unfolding at
leave timed_out t others pool waiting =
    if not timed_out
    then some (record pool { threads = at woken t ∷ others })
    else if t.is_core_pool
    then none
    else some (record pool { threads = at expired t ∷ others })
leave timed_out t others pool _ = none

-- A step of the pool: a call of `exec_task`, a caller that goes on behind its wait, the next step of a
-- thread, the time-out of a wait, and a wait of a thread or of a caller that ends for no reason. The
-- second number says whom a step notifies.
pub data Step : Type 0 where
  exec : ℕ → ℕ → Step
  resume : ℕ → ℕ → Step
  next : ℕ → ℕ → Step
  time_out : ℕ → Step
  spurious : ℕ → Step
  spurious_caller : ℕ → Step

unfoldable pub step : Step → Pool → Option Pool
unfolding exec_task pick move leave
step (exec f k) pool = some (exec_task pool.task f k pool)
step (resume i k) pool = elim (pick i pool.resumed) [
  | none ↦ none
  | some (f, others) ↦ some (exec_task pool.task f k (record pool { resumed = others }))
]
step (next i k) pool = elim (pick i pool.threads) [
  | none ↦ none
  | some (t, others) ↦ move k t others pool t.place
]
step (time_out i) pool = elim (pick i pool.threads) [
  | none ↦ none
  | some (t, others) ↦ leave true t others pool t.place
]
step (spurious i) pool = elim (pick i pool.threads) [
  | none ↦ none
  | some (t, others) ↦ leave false t others pool t.place
]
step (spurious_caller i) pool = elim (pick i pool.blocked) [
  | none ↦ none
  | some (f, others) ↦ some (record pool { blocked = others; resumed = f ∷ pool.resumed })
]

-- Steps in any order.
unfoldable pub steps : List Step → Pool → Option Pool
unfolding step
steps [] pool = some pool
steps (s ∷ ss) pool = elim (step s pool) [ none ↦ none | some after ↦ steps ss after ]
