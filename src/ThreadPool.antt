-- ===== src/ThreadPool.antt =====
-- src/common/thread_pool.hpp and src/common/thread_pool.cpp: the threads, the queue of tasks and the
-- destructor, as steps that the mutex makes atomic. A waiting thread sleeps until the condition
-- variable wakes it.
pub mod Workers
pub mod Invariant
pub mod Shutdown
pub mod Wakeup
use mq_work.Common.{
  ℕ, suc, ◌≡◌, Bool, true, false, List, [], ◌∷◌, ◌++◌, map, eqb, if◌then◌else◌, replicate,
}

-- A thread: at the lock of its loop, waiting on the condition variable, in a task, or returned.
pub data Worker (T : Type 0) : Type 0 where
  checking : Worker T
  asleep : Worker T
  running : T → Worker T
  exited : Worker T

-- `notifies` counts the calls of notify_one still to come, and `notifies_all` says that the one of
-- notify_all is. The tasks that push has accepted, and those that threads have taken, are recorded
-- oldest first.
pub record Pool (T : Type 0) : Type 0 where
  pub workers : List (Worker T)
  pub tasks : List T
  pub stop : Bool
  pub notifies : ℕ
  pub notifies_all : Bool
  pub accepted : List T
  pub taken : List T

-- The default of the constructor: as many threads as the hardware runs, and at least one.
unfoldable pub thread_count : ℕ → ℕ → ℕ
thread_count num_threads hardware =
    if eqb num_threads 0 then (if eqb hardware 0 then 1 else hardware) else num_threads

unfoldable pub thread_pool : {T : Type 0} → ℕ → ℕ → Pool T
thread_pool num_threads hardware = record {
  workers = replicate (thread_count num_threads hardware) checking;
  tasks = [];
  stop = false;
  notifies = 0;
  notifies_all = false;
  accepted = [];
  taken = [];
}

-- One thread goes from the first state to the second.
pub data Turns {T : Type 0} (a b : Worker T) : List (Worker T) → List (Worker T) → Type 0 where
  turn_here : (ws : List (Worker T)) → Turns a b (a ∷ ws) (b ∷ ws)
  turn_later :
      (w : Worker T) {ws ws' : List (Worker T)} → Turns a b ws ws' → Turns a b (w ∷ ws) (w ∷ ws')

-- `notify_all` on one thread.
abbrev pub wake : {T : Type 0} → Worker T → Worker T
wake asleep = checking
wake w = w

module _ {T : Type 0} where
  -- What the threads do, and the notifications, which come after the lock was left.
  pub data Works : Pool T → Pool T → Type 0 where
    takes :
        (p : Pool T) (t : T) (ts : List T) {ws : List (Worker T)}
        → p.tasks ≡ t ∷ ts
        → Turns checking (running t) p.workers ws
        → Works p (record p { workers = ws; tasks = ts; taken = p.taken ++ t ∷ [] })
    finishes :
        (p : Pool T) (t : T) {ws : List (Worker T)}
        → Turns (running t) checking p.workers ws
        → Works p (record p { workers = ws })
    sleeps :
        (p : Pool T) {ws : List (Worker T)}
        → p.stop ≡ false
        → p.tasks ≡ []
        → Turns checking asleep p.workers ws
        → Works p (record p { workers = ws })
    leaves :
        (p : Pool T) {ws : List (Worker T)}
        → p.stop ≡ true
        → p.tasks ≡ []
        → Turns checking exited p.workers ws
        → Works p (record p { workers = ws })
    notify_one :
        (p : Pool T) (n : ℕ) {ws : List (Worker T)}
        → p.notifies ≡ suc n
        → Turns asleep checking p.workers ws
        → Works p (record p { workers = ws; notifies = n })
    -- No thread waits.
    notify_none :
        (p : Pool T) (n : ℕ)
        → p.notifies ≡ suc n
        → map wake p.workers ≡ p.workers
        → Works p (record p { notifies = n })
    notify_all :
        (p : Pool T)
        → p.notifies_all ≡ true
        → Works p (record p { workers = map wake p.workers; notifies_all = false })
    -- The condition variable may wake a thread that nothing notified.
    wakes_up :
        (p : Pool T) {ws : List (Worker T)}
        → Turns asleep checking p.workers ws
        → Works p (record p { workers = ws })

  -- Every step but a wake-up that nothing caused: what the threads and the notifications are bound to
  -- do, while a thread that is not notified may sleep for ever.
  abbrev pub is_due : {p q : Pool T} → Works p q → Bool
  is_due (wakes_up p u) = false
  is_due w = true

  -- The calls from outside: `push`, which does nothing once the pool is stopped, and the destructor.
  pub data Calls : Pool T → Pool T → Type 0 where
    push_accepts :
        (p : Pool T) (t : T)
        → p.stop ≡ false
        → Calls p (record p {
          tasks = p.tasks ++ t ∷ [];
          accepted = p.accepted ++ t ∷ [];
          notifies = suc p.notifies;
        })
    push_refuses : (p : Pool T) (t : T) → p.stop ≡ true → Calls p p
    stops : (p : Pool T) → p.stop ≡ false → Calls p (record p { stop = true; notifies_all = true })

  -- The states that a pool of this many threads can come to.
  pub data Reaches (num_threads hardware : ℕ) : Pool T → Type 0 where
    starts : Reaches num_threads hardware (thread_pool num_threads hardware)
    works :
        {p q : Pool T} → Reaches num_threads hardware p → Works p q → Reaches num_threads hardware q
    calls :
        {p q : Pool T} → Reaches num_threads hardware p → Calls p q → Reaches num_threads hardware q
