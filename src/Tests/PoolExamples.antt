-- ===== src/Tests/PoolExamples.antt =====
-- Applications of the theorems on src/common/thread_pool.cpp.
use mq_work.Common.{ℕ, ◌≡◌, ◌≤◌, refl, true, false, [], ◌∷◌}
use mq_work.ThreadPool.{
  checking, exited, turn_here, Pool, thread_pool, thread_count, Works, takes, finishes, leaves,
  notify_none, notify_all, is_due, push_accepts, stops, Reaches, starts, calls,
}
use mq_work.ThreadPool.Workers.{tally, gone, any}
use mq_work.ThreadPool.Invariant.{IsSound, Reaches-IsSound}
use mq_work.ThreadPool.Wakeup.{TakenWithin, Reaches-TakenWithin}
use mq_work.ThreadPool.Shutdown.{steps_left, Runs, run_nil, run_cons, Runs-IsFinished}

-- A pool of one thread, whose tasks are numbers, after a push and once the destructor has begun.
abbrev pushed : Pool ℕ
pushed = record {
  workers = checking ∷ [];
  tasks = 7 ∷ [];
  stop = false;
  notifies = 1;
  notifies_all = false;
  accepted = 7 ∷ [];
  taken = [];
}

abbrev stopped : Pool ℕ
stopped = record pushed { stop = true; notifies_all = true }

abbrev left : Pool ℕ
left = record {
  workers = exited ∷ [];
  tasks = [];
  stop = true;
  notifies = 0;
  notifies_all = false;
  accepted = 7 ∷ [];
  taken = 7 ∷ [];
}

pushed-Reaches : Reaches 0 0 pushed
unfolding thread_pool thread_count
pushed-Reaches = calls starts (push_accepts (thread_pool 0 0) 7 refl)

stopped-Reaches : Reaches 0 0 stopped
stopped-Reaches = calls pushed-Reaches (stops pushed refl)

stopped-Runs : Runs 5 stopped left
stopped-Runs = run_cons (notify_all stopped refl) (
    run_cons (notify_none _ 0 refl refl) (
      run_cons (takes _ 7 [] refl (turn_here [])) (
        run_cons (finishes _ 7 (turn_here []))
          (run_cons (leaves _ refl refl (turn_here [])) (run_nil left)))))

Reaches-IsSound_example : IsSound pushed
Reaches-IsSound_example = Reaches-IsSound pushed-Reaches

Runs-IsFinished_example :
    (5 ≤ steps_left stopped)
    × (((r : Pool ℕ) (w : Works left r) → is_due w ≡ false)
        → (tally gone left.workers ≡ tally any left.workers) × (left.taken ≡ stopped.accepted))
Runs-IsFinished_example = Runs-IsFinished stopped-Reaches refl stopped-Runs

Reaches-TakenWithin_example : TakenWithin 2 pushed 7
Reaches-TakenWithin_example = Reaches-TakenWithin 7 [] pushed-Reaches refl
