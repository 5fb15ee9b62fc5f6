-- ===== src/ThreadPool/Invariant.antt =====
-- src/common/thread_pool.cpp: what holds in every state of the pool.
use mq_work.Common.{
  ℕ, ◌+◌, ◌≤◌, ◌<◌, ◌≡◌, refl, List, [], ◌∷◌, ◌++◌, ap, sym, ◌∙◌, arith, inl, inr, ◌⊎◌, true, false,
}
use mathlib.Core.List.{append_assoc}
use mq_work.ThreadPool.{
  Worker, checking, asleep, running, exited, Turns, Pool, thread_count, thread_pool, Works, takes,
  finishes, sleeps, leaves, notify_one, notify_none, notify_all, wakes_up, Calls, push_accepts,
  push_refuses, stops, Reaches, starts, works, calls,
}
use mq_work.ThreadPool.Workers.{
  tally, awake, sleeping, gone, any, tally-Turns, nobody-sleeping, tally-any, tally-notify_all,
  tally-replicate,
}

thread_count-positive : (n h : ℕ) → 0 < thread_count n h
unfolding thread_count
thread_count-positive n h = ground arith

module _ {T : Type 0} where
  -- A task that waits has a thread that is awake or will be woken; a thread returns only from a
  -- stopped pool without tasks; and after the notification of the destructor no thread sleeps.
  abbrev pub IsSound : Pool T → Type 0
  IsSound p =
      (p.accepted ≡ p.taken ++ p.tasks)
      × ((p.tasks ≡ []) ⊎ (0 < p.notifies + tally awake p.workers))
      × ((tally gone p.workers ≡ 0) ⊎ ((p.stop ≡ true) × (p.tasks ≡ [])))
      × ((p.stop ≡ false) ⊎ ((p.notifies_all ≡ true) ⊎ (tally sleeping p.workers ≡ 0)))
      × (0 < tally any p.workers)

  -- How a turn changes the number of threads in each state.
  abbrev Counts : Worker T → Worker T → List (Worker T) → List (Worker T) → Type 0
  Counts a b ws ws' =
      ((tally awake ws' + awake a ≡ tally awake ws + awake b)
        × (awake a ≤ tally awake ws)
        × (awake b ≤ tally awake ws'))
      × (tally gone ws' + gone a ≡ tally gone ws + gone b)
      × (tally sleeping ws' + sleeping a ≡ tally sleeping ws + sleeping b)
      × (tally any ws' ≡ tally any ws)

  counts : {a b : Worker T} {ws ws' : List (Worker T)} → Turns a b ws ws' → Counts a b ws ws'
  counts u =
      let (c, _, _) = tally-Turns any u in
      (tally-Turns awake u, (tally-Turns gone u).0, (tally-Turns sleeping u).0, omega arith)

  pub Works-IsSound : {p q : Pool T} → Works p q → IsSound p → IsSound q
  Works-IsSound (takes p t ts {ws = ws} e u) (o, w, l, s, k) =
      let c : Counts checking (running t) p.workers ws = counts u in
      (
        o ∙ (ap (◌++◌ p.taken) e ∙ sym (append_assoc p.taken (t ∷ []) ts)),
        inr (omega arith),
        ground arith,
        ground arith,
        omega arith,
      )
  Works-IsSound (finishes p t {ws = ws} u) (o, w, l, s, k) =
      let c : Counts (running t) checking p.workers ws = counts u in
      (o, inr (omega arith), ground arith, ground arith, omega arith)
  Works-IsSound (sleeps p {ws = ws} f e u) (o, w, l, s, k) =
      let c : Counts checking asleep p.workers ws = counts u in
      (o, inl e, ground arith, inl f, omega arith)
  Works-IsSound (leaves p {ws = ws} f e u) (o, w, l, s, k) =
      let c : Counts checking exited p.workers ws = counts u in
      (o, inl e, inr (f, e), ground arith, omega arith)
  Works-IsSound (notify_one p n {ws = ws} e u) (o, w, l, s, k) =
      let c : Counts asleep checking p.workers ws = counts u in
      (o, inr (omega arith), ground arith, ground arith, omega arith)
  Works-IsSound (notify_none p n e same) (o, w, l, s, k) =
      let z = nobody-sleeping p.workers in
      let z' : tally sleeping p.workers ≡ 0 = ap (tally sleeping) (sym same) ∙ z in
      let c = tally-any p.workers in (o, ground arith, l, s, k)
  Works-IsSound (notify_all p e) (o, w, l, s, k) =
      let z = nobody-sleeping p.workers in
      let c = tally-notify_all p.workers in
      (o, ground arith, ground arith, inr (inr z), omega arith)
  Works-IsSound (wakes_up p {ws = ws} u) (o, w, l, s, k) =
      let c : Counts asleep checking p.workers ws = counts u in
      (o, inr (omega arith), ground arith, ground arith, omega arith)

  Calls-IsSound : {p q : Pool T} → Calls p q → IsSound p → IsSound q
  Calls-IsSound (push_accepts p t f) (o, w, l, s, k) = (
    ap (λ a. a ++ t ∷ []) o ∙ append_assoc p.taken p.tasks (t ∷ []),
    inr (omega arith),
    ground arith,
    s,
    k,
  )
  Calls-IsSound (push_refuses p t f) s = s
  Calls-IsSound (stops p f) (o, w, l, s, k) = (o, w, ground arith, inr (inl refl), k)

  -- In every state of a pool the tasks that threads took and those that wait are the accepted ones in
  -- the order of the calls, a task that waits has a thread that is awake or will be woken, a thread
  -- returns only from a stopped pool without tasks, and once the destructor has notified all threads
  -- none sleeps. The pool has a thread.
  pub Reaches-IsSound : {n h : ℕ} {p : Pool T} → Reaches n h p → IsSound p
  unfolding thread_pool
  Reaches-IsSound {n = n} {h = h} starts =
      let m = thread_count-positive n h in
      let g = (tally-replicate {T = T} gone (thread_count n h)).1 refl in
      let a = (tally-replicate {T = T} any (thread_count n h)).0 refl in
      (refl, inl refl, inl g, inl refl, omega arith)
  Reaches-IsSound (works r s) = Works-IsSound s (Reaches-IsSound r)
  Reaches-IsSound (calls r c) = Calls-IsSound c (Reaches-IsSound r)
