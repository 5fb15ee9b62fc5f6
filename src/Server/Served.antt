-- ===== src/Server/Served.antt =====
-- src/server/broker_server.cpp: the lists of consumers and the queues go together in every state
-- of the server.
use mq_work.Common.{ℕ, refl, List}
use mq_work.Common.Dict.{Dict, find}
use mq_work.Platform.{Platform}
use mq_work.Host.{virtual_host, recover_queues, all_queues}
use mq_work.Server.{broker_server, init_consumers}
use mq_work.Server.Messages.{ServerEvent, steps}
use mq_work.Channel.Served.{IsServed}
use mq_work.Channel.Events.{IsServing, consume-IsServing, close-IsServing, handle-IsServing}
use mq_work.Queue.Manager.{queue_manager}
use mq_work.Server.Lifting.{AnyRequest, AllowsAll-any, steps-keeps}

module _ (P : Platform) where
  -- Whatever connections, messages, timers and tasks a new server sees, in any order, a queue has a
  -- list of consumers exactly when the virtual host has the queue.
  pub run-IsServed :
      (disk : Dict (List ℕ)) (seq : ℕ) (es : List (ServerEvent × ℕ))
      → let w = (steps P es (broker_server P disk seq)).broker in IsServed w.host w.consumers
  unfolding broker_server virtual_host recover_queues queue_manager init_consumers all_queues find
  run-IsServed disk seq es =
      steps-keeps P (IsServing P) AnyRequest (λ conn r w s. s) (close-IsServing P)
        (λ r ch w o. handle-IsServing P r ch w) (consume-IsServing P) es (broker_server P disk seq)
        (AllowsAll-any es) (λ n. refl)
