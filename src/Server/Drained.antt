-- ===== src/Server/Drained.antt =====
-- No message is left behind: the consume tasks in the pool of src/server/broker_server.cpp, against the
-- messages that wait in the queues.
use mq_work.Common.{
  ℕ, ◌+◌, ◌≤◌, ◌≡◌, refl, ap, ◌∙◌, true, List, [], ◌∷◌, arith, length, drop, map,
  drop-length-append, if◌then◌else◌,
}
use mq_work.Common.Text.{Text, ◌==◌}
use mq_work.Common.Dict.{find, Dict, DistinctKeys}
use mq_work.Platform.{Platform}
use mq_work.Host.{virtual_host, recover_queues}
use mq_work.Queue.Manager.{queue_manager}
use mq_work.Host.Delivery.{queue_contents}
use mq_work.Host.Sizes.{waiting}
use mq_work.Host.PublishedSizes.{copies, copies-append}
use mq_work.Channel.Backlog.{
  Covers, Covers-trans, Covers-same, send-Covers, close-Covers, consume-Covers, consume-waiting,
  consume-names,
}
use mq_work.Channel.Plain.{IsPlain, handle-Covers}
use mq_work.ThreadPool.{
  Worker, running, Pool, Works, takes, finishes, sleeps, leaves, notify_one, notify_none,
  notify_all, wakes_up, wake,
}
use mq_work.ThreadPool.Workers.{tally, tally-Turns}
use mq_work.ThreadPool.Shutdown.{steps_left, Runs, Runs-IsFinished}
use mq_work.Server.{Server, broker_server}
use mq_work.Server.Messages.{ServerEvent, step}
use mq_work.Server.Lifting.{Allows, step-keeps}
use mq_work.Server.Pooled.{
  Serves, opens, loops, pools, closes, effect, new_tasks, push_all, push_all_lem, Serves-Reaches,
}

-- Is this thread in a task of this queue?
abbrev pub serving : Text → Worker Text → ℕ
serving q (running t) = if t == q then 1 else 0
serving q w = 0

tally-wake_same :
    (q : Text) (ws : List (Worker Text)) → tally (serving q) (map wake ws) ≡ tally (serving q) ws
unfolding tally
tally-wake_same q [] = refl
tally-wake_same q (w ∷ ws) = ground (arith, tally-wake_same q ws)

module _ (P : Platform) where
  -- The tasks of a queue, in the pool and in the threads.
  abbrev pub in_pool : Text → Pool Text → ℕ
  in_pool q p = copies q p.tasks + tally (serving q) p.workers

  pub record IsCovered (s : Server P) (p : Pool Text) : Type 0 where
    pub names : DistinctKeys s.broker.host.queue_messages
    pub covered : (q : Text) → waiting q s.broker.host ≤ in_pool q p

  -- A callback pushes the tasks for what it adds.
  step-Covers :
      (e : ServerEvent) (now : ℕ) (s : Server P)
      → Allows IsPlain e
      → DistinctKeys s.broker.host.queue_messages
      → Covers P s.broker (step P e now s).broker
  step-Covers e now s o d =
      step-keeps P (Covers P s.broker) IsPlain
        (λ conn r w c. Covers-trans P c (send-Covers P conn r w c.names))
        (λ ch w c. Covers-trans P c (close-Covers P ch w c.names))
        (λ r ch w a c. Covers-trans P c (handle-Covers P r ch w a c.names))
        (λ q w c. Covers-trans P c (consume-Covers P q w c.names)) e now s o
        (Covers-same P s.broker s.broker d refl refl)

  loops-IsCovered :
      (e : ServerEvent) (now : ℕ) (s : Server P) (p : Pool Text)
      → Allows IsPlain e
      → IsCovered s p
      → IsCovered (step P e now s) (push_all (new_tasks P s.broker (step P e now s).broker) p)
  loops-IsCovered e now s p o i =
      let c = step-Covers e now s o i.names in
      let new : new_tasks P s.broker (step P e now s).broker ≡ c.pushed =
        ap (drop (length s.broker.tasks)) c.tasks ∙ drop-length-append s.broker.tasks c.pushed in
      let (tasks, workers, _) = push_all_lem c.pushed p in
      rw new (record {
        names = c.names;
        covered = λ q.
            ground (arith, c.more q, i.covered q, tasks, workers, copies-append q p.tasks c.pushed);
      })

  Works-IsCovered :
      (s : Server P) {p p' : Pool Text} (w : Works p p')
      → IsCovered s p
      → IsCovered (record s { broker = effect P w s.broker }) p'
  unfolding effect copies
  Works-IsCovered s (takes p t ts {ws = ws} e u) i = record {
    names = i.names;
    covered = λ q. ground (arith, i.covered q, e, (tally-Turns (serving q) u).0);
  }
  Works-IsCovered s (finishes p t u) i = record {
    names = consume-names P t s.broker i.names;
    covered = λ q.
        ground (arith, i.covered q, consume-waiting P t s.broker q, (tally-Turns (serving q) u).0);
  }
  Works-IsCovered s (sleeps p f e u) i = record {
    names = i.names;
    covered = λ q. ground (arith, i.covered q, (tally-Turns (serving q) u).0);
  }
  Works-IsCovered s (leaves p f e u) i = record {
    names = i.names;
    covered = λ q. ground (arith, i.covered q, (tally-Turns (serving q) u).0);
  }
  Works-IsCovered s (notify_one p n e u) i = record {
    names = i.names;
    covered = λ q. ground (arith, i.covered q, (tally-Turns (serving q) u).0);
  }
  Works-IsCovered s (notify_none p n e same) i = record { names = i.names; covered = i.covered }
  Works-IsCovered s (notify_all p e) i = record {
    names = i.names;
    covered = λ q. ground (arith, i.covered q, tally-wake_same q p.workers);
  }
  Works-IsCovered s (wakes_up p u) i = record {
    names = i.names;
    covered = λ q. ground (arith, i.covered q, (tally-Turns (serving q) u).0);
  }

  -- In every state of a server with its pool, no queue has more messages than there are tasks for it
  -- in the pool and in the threads, if no request declares a durable queue or rejects a message for
  -- good, and no task overlaps another task or a callback.
  pub Serves-IsCovered :
      {disk : Dict (List ℕ)} {seq num_threads hardware : ℕ} {s : Server P} {p : Pool Text}
      → Serves P IsPlain disk seq num_threads hardware s p
      → IsCovered s p
  unfolding broker_server virtual_host recover_queues queue_manager queue_contents find copies
  Serves-IsCovered opens = record { names = tt; covered = λ q. omega arith }
  Serves-IsCovered (loops e now {s = s} {p = p} h a b i c) =
      loops-IsCovered e now s p c (Serves-IsCovered h)
  Serves-IsCovered (pools {s = s} h w i) = Works-IsCovered s w (Serves-IsCovered h)
  Serves-IsCovered (closes h a) =
      let i = Serves-IsCovered h in record { names = i.names; covered = i.covered }

  -- Once the destructor has stopped the pool of a server, its threads go on for a bounded number of
  -- steps.
  pub Serves-steps_left :
      {disk : Dict (List ℕ)} {seq num_threads hardware n : ℕ} {s : Server P} {p r : Pool Text}
      → Serves P IsPlain disk seq num_threads hardware s p
      → p.stop ≡ true
      → Runs n p r
      → n ≤ steps_left p
  Serves-steps_left h e run = (Runs-IsFinished (Serves-Reaches P h) e run).0
