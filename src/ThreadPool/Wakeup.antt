-- ===== src/ThreadPool/Wakeup.antt =====
-- No task of src/common/thread_pool.cpp is forgotten: the notification of push is not lost.
use mq_work.Common.{
  ℕ, zero, suc, true, ◌≤◌, ◌<◌, ◌≡◌, refl, List, [], ◌∷◌, ◌++◌, ap, sym, ◌∙◌, arith, inl, inr,
}
use native.Mathlib.Decide.{dec_lt}
use mq_work.ThreadPool.{
  Worker, checking, running, Turns, turn_here, turn_later, Pool, Works, takes, finishes, notify_one,
  is_due, Reaches,
}
use mq_work.ThreadPool.Workers.{
  tally, awake, sleeping, tally-any, awake-Turns, asleep-Turns, nobody-sleeping,
}
use mq_work.ThreadPool.Invariant.{IsSound, Reaches-IsSound}

notified : (n : ℕ) → 0 < n → (m : ℕ) × (n ≡ suc m)
notified zero h = absurd (omega arith)
notified (suc m) h = (m, refl)

module _ {T : Type 0} where
  -- So many steps that are due.
  pub data DueRuns : ℕ → Pool T → Pool T → Type 0 where
    due_nil : (p : Pool T) → DueRuns 0 p p
    due_cons :
        {n : ℕ} {p q r : Pool T}
        → (w : Works p q) → is_due w ≡ true
        → DueRuns n q r
        → DueRuns (suc n) p r

  -- The next task is taken within so many steps.
  abbrev pub TakenWithin : ℕ → Pool T → T → Type 0
  TakenWithin bound p t =
      (n : ℕ) × ((q : Pool T) × (DueRuns n p q × (n ≤ bound) × (q.taken ≡ p.taken ++ t ∷ [])))

  step_more :
      {p q : Pool T} (bound : ℕ) (t : T)
      → (w : Works p q) → is_due w ≡ true
      → q.taken ≡ p.taken
      → TakenWithin bound q t
      → TakenWithin (suc bound) p t
  step_more bound t w d e (n, (r, (run, le, taken))) =
      (suc n, (r, (due_cons w d run, omega arith, taken ∙ ap (λ (l : List T). l ++ t ∷ []) e)))

  take_now :
      (p : Pool T) (t : T) (ts : List T) {ws : List (Worker T)}
      → p.tasks ≡ t ∷ ts
      → Turns checking (running t) p.workers ws
      → TakenWithin 1 p t
  take_now p t ts e u = (1, (_, (due_cons (takes p t ts e u) refl (due_nil _), omega arith, refl)))

  turn_again :
      {a b : Worker T} (c : Worker T) {ws ws' : List (Worker T)}
      → Turns a b ws ws'
      → (ws'' : List (Worker T)) × Turns b c ws' ws''
  turn_again c (turn_here ws) = (c ∷ ws, turn_here ws)
  turn_again c (turn_later w u) = let (ws'', v) = turn_again c u in (w ∷ ws'', turn_later w v)

  awake_takes :
      (p : Pool T) (t : T) (ts : List T)
      → p.tasks ≡ t ∷ ts
      → 0 < tally awake p.workers
      → TakenWithin 2 p t
  awake_takes p t ts e h = elim (awake-Turns p.workers h) [
    | inl f ↦
        let (n, (q, (run, le, taken))) = take_now p t ts e (f (running t)).1 in
        (n, (q, (run, omega arith, taken)))
    | inr (t', (ws, u)) ↦
        step_more 1 t (finishes p t' u) refl refl
          (take_now (record p { workers = ws }) t ts e (turn_again (running t) u).1)
  ]

  asleep_takes :
      (p : Pool T) (t : T) (ts : List T)
      → p.tasks ≡ t ∷ ts
      → IsSound p
      → tally awake p.workers ≡ 0
      → TakenWithin 2 p t
  asleep_takes p t ts e (o, w, l, s, k) a = elim (asleep-Turns p.workers) [
    | inl (ws, u) ↦
        let h : 0 < p.notifies = ground arith in
        let (m, n) = notified p.notifies h in
        step_more 1 t (notify_one p m n u) refl refl
          (take_now (record p { workers = ws; notifies = m }) t ts e (turn_again (running t) u).1)
    | inr same ↦
        let z : tally sleeping p.workers ≡ 0 =
          ap (tally sleeping) (sym same) ∙ nobody-sleeping p.workers in
        let c = tally-any p.workers in absurd (ground arith)
  ]

  -- In every state of a pool in which a task waits, two steps of the threads and of the
  -- notifications that are due are enough to have the oldest one taken, without a wake-up that nothing
  -- caused.
  pub Reaches-TakenWithin :
      {num_threads hardware : ℕ} {p : Pool T} (t : T) (ts : List T)
      → Reaches num_threads hardware p
      → p.tasks ≡ t ∷ ts
      → TakenWithin 2 p t
  Reaches-TakenWithin {p = p} t ts r e = elim (dec_lt 0 (tally awake p.workers)) [
    | yes h ↦ awake_takes p t ts e h
    | no h ↦ asleep_takes p t ts e (Reaches-IsSound r) (omega arith)
  ]
