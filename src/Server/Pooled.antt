-- ===== src/Server/Pooled.antt =====
-- The server of src/server/broker_server.cpp with its thread pool of src/common/thread_pool.cpp: the
-- callbacks push the consume tasks of src/server/channel.cpp, and the threads run them.
use mq_work.Common.{
  ℕ, suc, ◌≡◌, refl, ◌∙◌, sym, Bool, true, false, List, [], ◌∷◌, ◌++◌, length, drop,
}
use mathlib.Core.List.{append_assoc, append-nil}
use mq_work.Common.Text.{Text}
use mq_work.Common.Dict.{Dict}
use mq_work.Platform.{Platform}
use mq_work.Channel.{World, consume}
use mq_work.Channel.Requests.{Request}
use mq_work.ThreadPool.{
  Pool, thread_pool, Works, takes, finishes, sleeps, leaves, notify_one, notify_none, notify_all,
  wakes_up, Calls, push_accepts, Reaches, Worker, running,
}
use mq_work.ThreadPool
use mq_work.ThreadPool.Workers.{tally}
use mq_work.Server.{Server, broker_server}
use mq_work.Server.Messages.{ServerEvent, pool_runs, step}
use mq_work.Server.Lifting.{Allows}

-- `__pool->push(task)` for each of these, on a pool that is not stopped.
unfoldable pub push_all : {T : Type 0} → List T → Pool T → Pool T
push_all [] p = p
push_all (t ∷ ts) p = push_all ts (record p {
  tasks = p.tasks ++ t ∷ [];
  accepted = p.accepted ++ t ∷ [];
  notifies = suc p.notifies;
})

-- A callback of the event loop, not a task of the pool.
abbrev pub is_callback : ServerEvent → Bool
is_callback (pool_runs q) = false
is_callback e = true

abbrev in_task : {T : Type 0} → Worker T → ℕ
in_task (running t) = 1
in_task w = 0

module _ (P : Platform) where
  -- The tasks that were pushed between these two states.
  abbrev pub new_tasks : World P → World P → List Text
  new_tasks before after = drop (length before.tasks) after.tasks

  -- A thread that comes back from a task has run it.
  unfoldable pub effect : {p q : Pool Text} → Works p q → World P → World P
  effect (takes p t ts e u) w = w
  effect (finishes p t u) w = consume P t w
  effect (sleeps p s e u) w = w
  effect (leaves p s e u) w = w
  effect (notify_one p n e u) w = w
  effect (notify_none p n e u) w = w
  effect (notify_all p e) w = w
  effect (wakes_up p u) w = w

  -- No thread is in a task.
  abbrev pub IsQuiet : Pool Text → Type 0
  IsQuiet p = tally in_task p.workers ≡ 0

  -- A thread takes a task only while no other is in one.
  abbrev pub RunsAlone : {p q : Pool Text} → Works p q → Type 0
  RunsAlone (takes p t ts e u) = IsQuiet p
  RunsAlone w = Unit

  -- What a server and its pool can come to, if every request is one of these and no task overlaps
  -- another task or a callback: a task looks at the front of its queue and removes it in two calls,
  -- and the stores hold no lock over them. The destructor stops the pool once the event loop has
  -- ended.
  pub data Serves (Ok : Request → Type 0) (disk : Dict (List ℕ)) (seq num_threads hardware : ℕ)
      : Server P → Pool Text → Type 0 where
    opens :
        Serves Ok disk seq num_threads hardware
          (broker_server P disk seq)
          (thread_pool num_threads hardware)
    loops :
        (e : ServerEvent) (now : ℕ) {s : Server P} {p : Pool Text}
        → Serves Ok disk seq num_threads hardware s p
        → p.stop ≡ false
        → is_callback e ≡ true
        → IsQuiet p
        → Allows Ok e
        → Serves Ok disk seq num_threads hardware
            (step P e now s)
            (push_all (new_tasks s.broker (step P e now s).broker) p)
    pools :
        {s : Server P} {p q : Pool Text}
        → Serves Ok disk seq num_threads hardware s p
        → (w : Works p q) → RunsAlone w
        → Serves Ok disk seq num_threads hardware (record s { broker = effect w s.broker }) q
    closes :
        {s : Server P} {p : Pool Text}
        → Serves Ok disk seq num_threads hardware s p
        → p.stop ≡ false
        → Serves Ok disk seq num_threads hardware s (record p { stop = true; notifies_all = true })

module _ {T : Type 0} where
  pub push_all_lem :
      (ts : List T) (p : Pool T)
      → ((push_all ts p).tasks ≡ p.tasks ++ ts)
        × ((push_all ts p).workers ≡ p.workers)
        × ((push_all ts p).stop ≡ p.stop)
  unfolding push_all
  push_all_lem [] p = (sym (append-nil p.tasks), refl, refl)
  push_all_lem (t ∷ ts) p =
      let (e, w, s) = push_all_lem ts (record p {
        tasks = p.tasks ++ t ∷ [];
        accepted = p.accepted ++ t ∷ [];
        notifies = suc p.notifies;
      }) in
      (e ∙ append_assoc p.tasks (t ∷ []) ts, w, s)

  pub push_all-Reaches :
      {num_threads hardware : ℕ} (ts : List T) {p : Pool T}
      → p.stop ≡ false
      → Reaches num_threads hardware p
      → Reaches num_threads hardware (push_all ts p)
  unfolding push_all
  push_all-Reaches [] s r = r
  push_all-Reaches (t ∷ ts) {p = p} s r =
      push_all-Reaches ts s (ThreadPool.calls r (push_accepts p t s))

module _ (P : Platform) where
  -- The pool behind a server is a pool, so what holds of pools holds of it.
  pub Serves-Reaches :
      {Ok : Request → Type 0} {disk : Dict (List ℕ)} {seq num_threads hardware : ℕ} {s : Server P}
      {p : Pool Text}
      → Serves P Ok disk seq num_threads hardware s p
      → Reaches num_threads hardware p
  Serves-Reaches opens = ThreadPool.starts
  Serves-Reaches (loops e now h a b i c) = push_all-Reaches _ a (Serves-Reaches h)
  Serves-Reaches (pools h w i) = ThreadPool.works (Serves-Reaches h) w
  Serves-Reaches (closes {p = p} h a) = ThreadPool.calls (Serves-Reaches h) (ThreadPool.stops p a)
