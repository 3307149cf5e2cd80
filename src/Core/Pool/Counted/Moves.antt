-- ===== src/Core/Pool/Counted/Moves.antt =====
-- A step of one thread of native/src/core/thread.rs keeps the counters.
use magisk_t.Prelude.{
  ℕ, ◌+◌, ◌≤◌, ◌≡◌, refl, sym, ap, ap₂, subst, ◌∙◌, inl, inr, Bool, true, false, Option, none, some,
  List, [], ◌∷◌, ◌++◌, append-nil, arith, if◌then◌else◌, Bool-cases, length,
}
use magisk_t.Core.Pool.{
  Place, entering, waiting, woken, expired, busy, Thread, Pool, at, take_task, count_idle, enter,
  finish, close, move, leave,
}
use magisk_t.Core.Pool.Counted.{
  idles, expires, looks, idle_of, look_of, core_of, lost_of, sum, pending, IsCounted, Picked,
  replaced,
}
use magisk_t.Core.Pool.Counted.Notified.{notify_caller-heard}

no_core_lost : (t : Thread) (place : Place) → expires place ≡ 0 → lost_of (at place t) ≡ 0
unfolding at
no_core_lost t place e = elim (Bool-cases t.is_core_pool) [
  | inl core ↦ rw (core) e
  | inr spare ↦ rw (spare) refl
]

-- A thread that is counted as idle takes what there is.
IsCounted-take_task :
    (task : Option ℕ) (k : ℕ) (pool counted : Pool) (t : Thread) (others : List Thread)
    → IsCounted pool
    → Picked pool.threads t others
    → pool.task ≡ task
    → counted.total_threads ≡ pool.total_threads
    → counted.idle_threads ≡ 1 + sum idle_of others
    → counted.given ≡ pool.given
    → counted.taken ≡ pool.taken
    → IsCounted (take_task task k t others counted)
unfolding take_task pending
IsCounted-take_task none k pool counted t others c p e total idle given taken =
    replaced pool (take_task none k t others counted) t others entering c p refl total
      (omega (arith, idle)) (given ∙ c.tasks ∙ ap₂ (λ a b. a ++ pending b) (sym taken) e)
      (no_core_lost t entering refl) (λ f h. absurd (cc h))
      (λ _. notify_caller-heard k counted.blocked counted.resumed)
IsCounted-take_task (some f) k pool counted t others c p e total idle given taken =
    replaced pool (take_task (some f) k t others counted) t others (busy f) c p refl total
      (omega (arith, idle))
      (given ∙ c.tasks ∙ ap₂ (λ a b. a ++ pending b) (sym taken) e ∙ sym (append-nil _))
      (no_core_lost t (busy f) refl) (λ f h. absurd (cc h))
      (λ _. notify_caller-heard k counted.blocked counted.resumed)

IsCounted-enter :
    (task : Option ℕ) (k : ℕ) (pool : Pool) (t : Thread) (others : List Thread)
    → IsCounted pool
    → Picked pool.threads t others
    → pool.task ≡ task
    → t.place ≡ entering
    → IsCounted (enter task k t others pool)
unfolding enter count_idle
IsCounted-enter none k pool t others c p e place =
    let not_idle : idles t.place ≡ 0 = ap idles place in
    replaced pool (count_idle t others pool) t others waiting c p refl refl
      (omega (arith, c.idle, p.sums idle_of, not_idle)) c.tasks (no_core_lost t waiting refl)
      (λ f h. absurd (cc (h, e))) c.heard
IsCounted-enter (some f) k pool t others c p e place =
    let not_idle : idles t.place ≡ 0 = ap idles place in
    IsCounted-take_task (some f) k pool (count_idle t others pool) t others c p e refl
      (omega (arith, c.idle, p.sums idle_of, not_idle)) refl refl

sum-core_le : (threads : List Thread) → sum core_of threads ≤ length threads
unfolding sum
sum-core_le [] = omega arith
sum-core_le (t ∷ threads) = ground (arith, sum-core_le threads)

IsCounted-close :
    (pool : Pool) (t : Thread) (others : List Thread)
    → IsCounted pool
    → Picked pool.threads t others
    → t.place ≡ expired
    → IsCounted (close others pool)
unfolding close
IsCounted-close pool t others c p e =
    let it_idles : idles t.place ≡ 1 = ap idles e in
    let no_look : looks t.place ≡ 0 = ap looks e in
    let lost : lost_of t ≡ 0 = omega (arith, c.core_waits, p.sums lost_of) in
    let beyond : core_of t ≡ 0 = elim (Bool-cases t.is_core_pool) [
      | inl core ↦ absurd (not_lost core lost)
      | inr spare ↦ rw (spare) refl
    ] in
    let fewer = sum-core_le others in
    let sum_core = p.sums core_of in
    let many : 4 ≤ pool.total_threads =
      ground (arith, c.total, p.length_sum, sum_core, beyond, fewer, c.core_few) in
    let three : sum core_of others ≡ 3 = ground (arith, many, sum_core, beyond, c.core_many) in
    record {
      idle = omega (arith, c.idle, p.sums idle_of, it_idles);
      total = omega (arith, c.total, p.length_sum);
      core_few = λ h. omega (arith, h, many, three);
      core_many = λ h. three;
      unused = λ h. absurd (omega (arith, h, many));
      tasks = c.tasks;
      core_waits = omega (arith, c.core_waits, p.sums lost_of);
      looked_at = λ f h. omega (arith, c.looked_at f h, p.sums look_of, no_look);
      heard = c.heard;
    }
  where
    not_lost : t.is_core_pool ≡ true → lost_of t ≡ 0 → ⊥
    not_lost core h =
        let one : lost_of t ≡ 1 = rw (core) (ap expires e) in absurd (omega (arith, one, h))

-- The other steps of a thread change nothing but its place.
IsCounted-placed :
    (pool after : Pool) (t : Thread) (others : List Thread) (place : Place)
    → IsCounted pool
    → Picked pool.threads t others
    → record pool { threads = at place t ∷ others } ≡ after
    → idles t.place ≡ idles place
    → looks t.place ≤ looks place
    → lost_of (at place t) ≡ 0
    → IsCounted after
IsCounted-placed pool after t others place c p e idle look stays = subst IsCounted e (
    replaced pool (record pool { threads = at place t ∷ others }) t others place c p refl refl
      (omega (arith, c.idle, p.sums idle_of, idle)) c.tasks stays
      (λ f h. omega (arith, c.looked_at f h, p.sums look_of, look)) c.heard)

pub IsCounted-move :
    (k : ℕ) (pool after : Pool) (t : Thread) (others : List Thread) (place : Place)
    → IsCounted pool
    → Picked pool.threads t others
    → t.place ≡ place
    → move k t others pool place ≡ some after
    → IsCounted after
unfolding move finish
IsCounted-move k pool after t others entering c p e h =
    subst IsCounted (cc h) (IsCounted-enter pool.task k pool t others c p refl e)
IsCounted-move k pool after t others waiting c p e h = absurd (cc h)
IsCounted-move k pool after t others woken c p e h =
    let it_idles : idles t.place ≡ 1 = ap idles e in
    subst IsCounted (cc h) (
      IsCounted-take_task pool.task k pool pool t others c p refl refl
        (omega (arith, c.idle, p.sums idle_of, it_idles)) refl refl)
IsCounted-move k pool after t others expired c p e h =
    subst IsCounted (cc h) (IsCounted-close pool t others c p e)
IsCounted-move k pool after t others (busy f) c p e h =
    let look : looks t.place ≡ 1 = ap looks e in
    IsCounted-placed pool after t others entering c p (cc h) (ap idles e) (omega (arith, look))
      (no_core_lost t entering refl)

pub IsCounted-leave :
    (timed_out : Bool) (pool after : Pool) (t : Thread) (others : List Thread) (place : Place)
    → IsCounted pool
    → Picked pool.threads t others
    → t.place ≡ place
    → leave timed_out t others pool place ≡ some after
    → IsCounted after
unfolding leave
IsCounted-leave timed_out pool after t others entering c p e h = absurd (cc h)
IsCounted-leave timed_out pool after t others woken c p e h = absurd (cc h)
IsCounted-leave timed_out pool after t others expired c p e h = absurd (cc h)
IsCounted-leave timed_out pool after t others (busy f) c p e h = absurd (cc h)
IsCounted-leave false pool after t others waiting c p e h =
    let look : looks t.place ≡ 0 = ap looks e in
    IsCounted-placed pool after t others woken c p (cc h) (ap idles e) (omega (arith, look))
      (no_core_lost t woken refl)
IsCounted-leave true pool after t others waiting c p e h =
    let look : looks t.place ≡ 0 = ap looks e in
    let gone = record pool { threads = at expired t ∷ others } in
    elim (Bool-cases t.is_core_pool) [
      | inl core ↦ absurd (cc (ap (λ b. if b then none else some gone) (sym core) ∙ h))
      | inr spare ↦
          IsCounted-placed pool after t others expired c p
            (cc (ap (λ b. if b then none else some gone) (sym spare) ∙ h)) (ap idles e)
            (omega (arith, look)) (unfold at in rw (spare) refl)
    ]
