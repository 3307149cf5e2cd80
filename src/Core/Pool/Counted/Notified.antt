-- ===== src/Core/Pool/Counted/Notified.antt =====
-- Whom `notify_one` wakes in native/src/core/thread.rs.
use magisk_t.Prelude.{
  ℕ, zero, suc, ◌+◌, ◌≤◌, ◌≡◌, refl, sym, ap, ap₂, ◌∙◌, inl, inr, Bool, true, false, Option, none,
  some, List, [], ◌∷◌, arith, if◌then◌else◌, Bool-cases, length,
}
use magisk_t.Core.Pool.{
  Place, entering, waiting, woken, expired, busy, Thread, at, notify_one, wake_here, notify_caller,
}
use magisk_t.Core.Pool.Counted.{
  idles, waits, expires, looks, idle_of, wait_of, look_of, core_of, lost_of, sum,
}

-- One more thread will look at the task, and the other counts are as they were.
pub record Woken (threads now : List Thread) : Type 0 where
  pub idle_same : sum idle_of now ≡ sum idle_of threads
  pub core_same : sum core_of now ≡ sum core_of threads
  pub lost_same : sum lost_of now ≡ sum lost_of threads
  pub length_same : length now ≡ length threads
  pub looks_more : 1 ≤ sum look_of now

abbrev pub Notifies : List Thread → Option (List Thread) → Type 0
Notifies threads none = sum wait_of threads ≡ 0
Notifies threads (some now) = Woken threads now

Woken-here :
    (t : Thread) (threads : List Thread)
    → t.place ≡ waiting
    → Woken (t ∷ threads) (at woken t ∷ threads)
unfolding sum at
Woken-here t threads e =
    let it_idles : idles t.place ≡ 1 = ap idles e in
    let not_lost : lost_of t ≡ 0 = elim (Bool-cases t.is_core_pool) [
      | inl core ↦ rw (core) (ap expires e)
      | inr spare ↦ rw (spare) refl
    ] in
    let still : lost_of (at woken t) ≡ 0 =
      unfold at in
      elim (Bool-cases t.is_core_pool) [
        | inl core ↦ rw (core) refl
        | inr spare ↦ rw (spare) refl
      ] in
    record {
      idle_same = omega (arith, it_idles);
      core_same = refl;
      lost_same = unfold at in ap₂ (λ a b. a + b) (still ∙ sym not_lost) refl;
      length_same = omega arith;
      looks_more = omega arith;
    }

Woken-later :
    (t : Thread) (threads now : List Thread) → Woken threads now → Woken (t ∷ threads) (t ∷ now)
unfolding sum
Woken-later t threads now w = record {
  idle_same = omega (arith, w.idle_same);
  core_same = ap (λ n. core_of t + n) w.core_same;
  lost_same = ap (λ n. lost_of t + n) w.lost_same;
  length_same = omega (arith, w.length_same);
  looks_more = omega (arith, w.looks_more);
}

wake_here-Woken :
    (place : Place) (t : Thread) (threads : List Thread)
    → t.place ≡ place
    → sum wait_of threads ≡ 0
    → Notifies (t ∷ threads) (wake_here place t threads)
unfolding wake_here sum
wake_here-Woken waiting t threads e none_later = Woken-here t threads e
wake_here-Woken entering t threads e none_later =
    let still : waits t.place ≡ 0 = ap waits e in omega (arith, still, none_later)
wake_here-Woken woken t threads e none_later =
    let still : waits t.place ≡ 0 = ap waits e in omega (arith, still, none_later)
wake_here-Woken expired t threads e none_later =
    let still : waits t.place ≡ 0 = ap waits e in omega (arith, still, none_later)
wake_here-Woken (busy f) t threads e none_later =
    let still : waits t.place ≡ 0 = ap waits e in omega (arith, still, none_later)

pub notify_one-Woken : (k : ℕ) (threads : List Thread) → Notifies threads (notify_one k threads)
unfolding notify_one
notify_one-Woken k [] = unfold sum in refl
notify_one-Woken (suc k) (t ∷ threads) = go (notify_one k threads) (notify_one-Woken k threads)
  where
    go :
        (later : Option (List Thread))
        → Notifies threads later
        → Notifies
            (t ∷ threads)
            (elim later [ some now ↦ some (t ∷ now) | none ↦ wake_here t.place t threads ])
    go (some now) w = Woken-later t threads now w
    go none w = wake_here-Woken t.place t threads refl w
notify_one-Woken zero (t ∷ threads) =
    go t.place refl (notify_one zero threads) (notify_one-Woken zero threads)
  where
    not_here :
        waits t.place ≡ 0
        → (later : Option (List Thread)) → Notifies threads later
        → Notifies (t ∷ threads) (elim later [ none ↦ none | some now ↦ some (t ∷ now) ])
    not_here still (some now) w = Woken-later t threads now w
    not_here still none w = unfold sum in omega (arith, still, w)

    go :
        (place : Place)
        → t.place ≡ place
        → (later : Option (List Thread)) → Notifies threads later
        → Notifies (t ∷ threads) (elim (wake_here place t threads) [
          | some now ↦ some now
          | none ↦ elim later [ none ↦ none | some now ↦ some (t ∷ now) ]
        ])
    go waiting e later w = unfold wake_here in Woken-here t threads e
    go entering e later w = unfold wake_here in not_here (ap waits e) later w
    go woken e later w = unfold wake_here in not_here (ap waits e) later w
    go expired e later w = unfold wake_here in not_here (ap waits e) later w
    go (busy f) e later w = unfold wake_here in not_here (ap waits e) later w

-- A core thread waits or will look at the task, unless its wait timed out.
one_of : (t : Thread) → core_of t ≤ lost_of t + wait_of t + look_of t
one_of t = go t.is_core_pool t.place
  where
    go :
        (core : Bool) (place : Place)
        → (if core then 1 else 0) ≤ (if core then expires place else 0) + waits place + looks place
    go true entering = omega arith
    go true waiting = omega arith
    go true woken = omega arith
    go true expired = omega arith
    go true (busy f) = omega arith
    go false place = omega arith

pub core-looks :
    (threads : List Thread)
    → sum core_of threads ≤ sum lost_of threads + sum wait_of threads + sum look_of threads
unfolding sum
core-looks [] = omega arith
core-looks (t ∷ threads) = omega (arith, one_of t, core-looks threads)

-- Callers that wait are notified one at a time.
pub notify_caller-heard :
    (k : ℕ) (blocked resumed : List ℕ)
    → (notify_caller k blocked resumed).1 ≡ []
    → (notify_caller k blocked resumed).0 ≡ []
unfolding notify_caller
notify_caller-heard k [] resumed e = refl
notify_caller-heard zero (f ∷ blocked) resumed e = absurd (cc e)
notify_caller-heard (suc k) (f ∷ []) resumed e = absurd (cc e)
notify_caller-heard (suc k) (f ∷ g ∷ blocked) resumed e = absurd (notified k g blocked resumed e)
  where
    notified :
        (k g : ℕ) (blocked resumed : List ℕ) → (notify_caller k (g ∷ blocked) resumed).1 ≡ [] → ⊥
    notified zero g blocked resumed e = cc e
    notified (suc k) g [] resumed e = cc e
    notified (suc k) g (h ∷ blocked) resumed e = notified k h blocked resumed e
