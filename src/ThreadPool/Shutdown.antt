-- ===== src/ThreadPool/Shutdown.antt =====
-- The destructor of src/common/thread_pool.cpp: the threads that it joins all return.
use mq_work.Common.{
  ℕ, suc, ◌+◌, ◌*◌, ◌≤◌, ◌<◌, ◌≡◌, refl, List, [], ◌∷◌, ◌++◌, ap, sym, ◌∙◌, arith, inl, inr, ◌⊎◌,
  length, true, false, if◌then◌else◌,
}
use mathlib.Core.List.{append-nil}
use native.Mathlib.Decide.{dec_lt}
use mq_work.ThreadPool.{
  Worker, checking, asleep, running, exited, Turns, wake, Pool, Works, takes, finishes, sleeps,
  leaves, notify_one, notify_none, notify_all, wakes_up, is_due, Reaches,
}
use mq_work.ThreadPool.Workers.{
  tally, awake, sleeping, gone, any, tally-Turns, tally-wake, tally-any, awake-Turns,
}
use mq_work.ThreadPool.Invariant.{IsSound, Works-IsSound, Reaches-IsSound}

module _ {T : Type 0} where
  abbrev weight : Worker T → ℕ
  weight checking = 1
  weight asleep = 2
  weight (running t) = 2
  weight exited = 0

  -- How many steps a stopped pool has left at most.
  abbrev pub steps_left : Pool T → ℕ
  steps_left p =
      2 * length p.tasks + tally weight p.workers + p.notifies + (if p.notifies_all then 1 else 0)

  -- The threads go on by this many steps.
  pub data Runs : ℕ → Pool T → Pool T → Type 0 where
    run_nil : (p : Pool T) → Runs 0 p p
    run_cons : {n : ℕ} {p q r : Pool T} → Works p q → Runs n q r → Runs (suc n) p r

  weight-wake : (w : Worker T) → weight (wake w) ≤ weight w
  weight-wake checking = omega arith
  weight-wake asleep = omega arith
  weight-wake (running t) = omega arith
  weight-wake exited = omega arith

  length_eq : (xs ys : List T) → xs ≡ ys → length xs ≡ length ys
  length_eq xs ys e = ap length e

  -- A step of a stopped pool uses one of the steps up.
  Works-steps_left :
      {p q : Pool T} → Works p q → p.stop ≡ true → (q.stop ≡ true) × (steps_left q < steps_left p)
  Works-steps_left (takes p t ts e u) s =
      let c = (tally-Turns weight u).0 in
      let l : length p.tasks ≡ suc (length ts) = length_eq p.tasks (t ∷ ts) e in (s, omega arith)
  Works-steps_left (finishes p t u) s = let c = (tally-Turns weight u).0 in (s, omega arith)
  Works-steps_left (sleeps p f e u) s = absurd (ground arith)
  Works-steps_left (leaves p f e u) s = let c = (tally-Turns weight u).0 in (s, omega arith)
  Works-steps_left (notify_one p n e u) s = let c = (tally-Turns weight u).0 in (s, omega arith)
  Works-steps_left (notify_none p n e same) s = (s, omega arith)
  Works-steps_left (notify_all p e) s =
      let c = tally-wake weight weight-wake p.workers in (s, ground arith)
  Works-steps_left (wakes_up p u) s = let c = (tally-Turns weight u).0 in (s, omega arith)

  accepted-Works : {p q : Pool T} → Works p q → q.accepted ≡ p.accepted
  accepted-Works (takes p t ts e u) = refl
  accepted-Works (finishes p t u) = refl
  accepted-Works (sleeps p f e u) = refl
  accepted-Works (leaves p f e u) = refl
  accepted-Works (notify_one p n e u) = refl
  accepted-Works (notify_none p n e same) = refl
  accepted-Works (notify_all p e) = refl
  accepted-Works (wakes_up p u) = refl

  -- All threads have returned, and every accepted task was taken, in the order of the calls.
  abbrev pub IsFinished : Pool T → Type 0
  IsFinished p = (tally gone p.workers ≡ tally any p.workers) × (p.taken ≡ p.accepted)

  taken-accepted : (p : Pool T) → IsSound p → p.tasks ≡ [] → p.taken ≡ p.accepted
  taken-accepted p s e = sym (s.0 ∙ (ap (◌++◌ p.taken) e ∙ append-nil p.taken))

  -- Some step is due.
  abbrev CanGoOn : Pool T → Type 0
  CanGoOn p = (q : Pool T) × ((w : Works p q) × (is_due w ≡ true))

  checking-Works :
      (p : Pool T) (ts : List T)
      → p.tasks ≡ ts
      → p.stop ≡ true
      → ((b : Worker T) → (ws : List (Worker T)) × Turns checking b p.workers ws)
      → CanGoOn p
  checking-Works p [] e s f = (_, (leaves p s e (f exited).1, refl))
  checking-Works p (t ∷ ts) e s f = (_, (takes p t ts e (f (running t)).1, refl))

  -- A stopped pool is finished, or some thread can go on.
  progress : (p : Pool T) → IsSound p → p.stop ≡ true → IsFinished p ⊎ CanGoOn p
  progress p sound s =
      let c = tally-any p.workers in
      elim (dec_lt 0 (tally awake p.workers)) [
        | yes h ↦ elim (awake-Turns p.workers h) [
          | inl f ↦ inr (checking-Works p p.tasks refl s f)
          | inr (t, (ws, u)) ↦ inr (_, (finishes p t u, refl))
        ]
        | no h ↦ elim (dec_lt 0 (tally sleeping p.workers)) [
          | yes k ↦ inr (_, (notify_all p (ground arith), refl))
          | no k ↦
              let e : p.tasks ≡ [] = ground arith in inl (omega arith, taken-accepted p sound e)
        ]
      ]

  Runs-steps_left :
      {n : ℕ} {p q : Pool T}
      → Runs n p q
      → p.stop ≡ true
      → IsSound p
      → (n + steps_left q ≤ steps_left p) × (q.stop ≡ true) × IsSound q × (q.accepted ≡ p.accepted)
  Runs-steps_left (run_nil p) s k = (omega arith, s, k, refl)
  Runs-steps_left (run_cons w r) s k =
      let (s', less) = Works-steps_left w s in
      let (le, t, k', a) = Runs-steps_left r s' (Works-IsSound w k) in
      (omega arith, t, k', a ∙ accepted-Works w)

  -- Once the destructor has stopped a pool, its threads go on for a bounded number of steps, whatever
  -- order they run in. When none of them can go on and no notification is due, all have returned, and
  -- the tasks that were taken are those that push accepted, each once and in the order of the calls.
  -- A wake-up that nothing caused is not relied on.
  pub Runs-IsFinished :
      {num_threads hardware n : ℕ} {p q : Pool T}
      → Reaches num_threads hardware p
      → p.stop ≡ true
      → Runs n p q
      → (n ≤ steps_left p)
        × (((r : Pool T) (w : Works q r) → is_due w ≡ false)
            → (tally gone q.workers ≡ tally any q.workers) × (q.taken ≡ p.accepted))
  Runs-IsFinished {q = q} reached s r =
      let (le, t, k, a) = Runs-steps_left r s (Reaches-IsSound reached) in
      (
        omega arith,
        λ stuck. elim (progress q k t) [
          | inl (g, e) ↦ (g, e ∙ a)
          | inr (r, (w, due)) ↦ absurd (ground (arith, stuck r w, due))
        ],
      )
