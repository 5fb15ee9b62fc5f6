-- ===== src/Tests/PooledExamples.antt =====
-- Applications of the theorems on the server of src/server/broker_server.cpp with its thread pool.
use mq_work.Common.{ℕ, ◌≡◌, refl, true, false, none, some, [], ◌∷◌}
use mq_work.Common.Text.{Text, codes, ◌==◌}
use mq_work.Connection.{seconds}
use mq_work.Channel.Requests.{declare_queue_request, basic_publish_request}
use mq_work.Server.{Server, broker_server}
use mq_work.Server.Messages.{
  open_channel_request, channel_request, ServerEvent, connects, receives, step,
}
use mq_work.ThreadPool.{Pool, thread_pool, checking, exited, thread_count}
use mq_work.Server.Pooled.{Serves, opens, loops, new_tasks, push_all}
use mq_work.Server.Drained.{IsCovered, Serves-IsCovered}
use mq_work.ThreadPool.Workers.{tally}
use mq_work.Channel.{consume}
use mq_work.Channel.Plain.{IsPlain}
use mq_work.Tests.SamplePlatform.{sample, work, body, keyed_work}

abbrev tcp : Text
tcp = codes "tcp"

-- A server whose pool has one thread.
abbrev Reached : Server sample → Pool Text → Type 0
Reached s p = Serves sample IsPlain [] 0 1 1 s p

abbrev after : ServerEvent → Server sample → Server sample
after e s = step sample e (seconds 1) s

abbrev pushed : ServerEvent → Server sample → Pool Text → Pool Text
pushed e s p = push_all (new_tasks sample s.broker (after e s).broker) p

abbrev joining : ServerEvent
joining = connects tcp true

abbrev opening : ServerEvent
opening = receives tcp (open_channel_request (codes "1") (codes "c"))

abbrev declaring : ServerEvent
declaring =
    receives tcp
      (channel_request (declare_queue_request (codes "2") (codes "c") work false false false []))

abbrev publishing : ServerEvent
publishing =
    receives tcp
      (channel_request (basic_publish_request (codes "3") (codes "c") [] (some keyed_work) body))

abbrev s1 : Server sample
s1 = after joining (broker_server sample [] 0)

abbrev s2 : Server sample
s2 = after opening s1

abbrev s3 : Server sample
s3 = after declaring s2

abbrev s4 : Server sample
s4 = after publishing s3

-- The pool once the message was published.
abbrev loaded : Pool Text
loaded = record {
  workers = checking ∷ [];
  tasks = work ∷ [];
  stop = false;
  notifies = 1;
  notifies_all = false;
  accepted = work ∷ [];
  taken = [];
}

pushed-nothing :
    (pushed joining (broker_server sample [] 0) (thread_pool 1 1) ≡ thread_pool 1 1)
    × (pushed opening s1 (thread_pool 1 1) ≡ thread_pool 1 1)
    × (pushed declaring s2 (thread_pool 1 1) ≡ thread_pool 1 1)
unfolding mq_work.Common.Dict.find mq_work.Common.Dict.put ◌==◌ step
    mq_work.Server.Messages.on_message mq_work.Server.Messages.on_request
    mq_work.Server.on_basic_publish mq_work.Server.with_connection mq_work.Server.with_channel
    mq_work.Connection.select_channel mq_work.Connection.refresh
    mq_work.Channel.Opened.select_channel mq_work.Connection.Manager.select_connection
    mq_work.Server.on_declare_queue mq_work.Server.on_open_channel mq_work.Server.on_connection
    mq_work.Connection.Manager.new_connection mq_work.Connection.connection
    mq_work.Connection.open_channel mq_work.Channel.Opened.open_channel broker_server
    mq_work.Channel.basic_publish mq_work.Channel.declare_queue mq_work.Channel.basic_response
    mq_work.Consumers.Manager.init_queue_consumer mq_work.Consumers.queue_consumer
    mq_work.Host.declare_queue mq_work.Queue.Manager.declare_queue
    mq_work.Queue.Manager.mapper_insert mq_work.Host.ensure_store mq_work.Host.bind
    mq_work.Host.bind_args mq_work.Host.virtual_host mq_work.Host.recover_queues
    mq_work.Queue.Manager.queue_manager mq_work.Server.init_consumers mq_work.Host.all_queues
    mq_work.Host.open_store mq_work.Host.Publish.publish_to_exchange
    mq_work.Host.Publish.publish_loop mq_work.Host.Publish.should_publish
    mq_work.Host.Publish.basic_publish mq_work.Host.Publish.publish_to_store
    mq_work.Host.Publish.enqueue mq_work.Host.Publish.with_id mq_work.Host.Publish.accept_key
    mq_work.Host.select_exchange mq_work.Host.exchange_bindings mq_work.Host.generate_id
    mq_work.Queue.Manager.exists_queue mq_work.Queue.Manager.select_queue mq_work.Queue.msg_queue
    mq_work.Storage.insert mq_work.Route.match_route push_all
pushed-nothing = (refl, refl, refl)

pushed-task : pushed publishing s3 (thread_pool 1 1) ≡ loaded
unfolding mq_work.Common.Dict.find mq_work.Common.Dict.put ◌==◌ step
    mq_work.Server.Messages.on_message mq_work.Server.Messages.on_request
    mq_work.Server.on_basic_publish mq_work.Server.with_connection mq_work.Server.with_channel
    mq_work.Connection.select_channel mq_work.Connection.refresh
    mq_work.Channel.Opened.select_channel mq_work.Connection.Manager.select_connection
    mq_work.Server.on_declare_queue mq_work.Server.on_open_channel mq_work.Server.on_connection
    mq_work.Connection.Manager.new_connection mq_work.Connection.connection
    mq_work.Connection.open_channel mq_work.Channel.Opened.open_channel broker_server
    mq_work.Channel.basic_publish mq_work.Channel.declare_queue mq_work.Channel.basic_response
    mq_work.Consumers.Manager.init_queue_consumer mq_work.Consumers.queue_consumer
    mq_work.Host.declare_queue mq_work.Queue.Manager.declare_queue
    mq_work.Queue.Manager.mapper_insert mq_work.Host.ensure_store mq_work.Host.bind
    mq_work.Host.bind_args mq_work.Host.virtual_host mq_work.Host.recover_queues
    mq_work.Queue.Manager.queue_manager mq_work.Server.init_consumers mq_work.Host.all_queues
    mq_work.Host.open_store mq_work.Host.Publish.publish_to_exchange
    mq_work.Host.Publish.publish_loop mq_work.Host.Publish.should_publish
    mq_work.Host.Publish.basic_publish mq_work.Host.Publish.publish_to_store
    mq_work.Host.Publish.enqueue mq_work.Host.Publish.with_id mq_work.Host.Publish.accept_key
    mq_work.Host.select_exchange mq_work.Host.exchange_bindings mq_work.Host.generate_id
    mq_work.Queue.Manager.exists_queue mq_work.Queue.Manager.select_queue mq_work.Queue.msg_queue
    mq_work.Storage.insert mq_work.Route.match_route push_all thread_pool thread_count
pushed-task = refl

declared : Reached s3 (thread_pool 1 1)
unfolding thread_pool tally thread_count
declared =
    let r1 : Reached s1 (thread_pool 1 1) =
      rw (← pushed-nothing.0) (loops joining (seconds 1) opens refl refl refl tt) in
    let r2 : Reached s2 (thread_pool 1 1) =
      rw (← pushed-nothing.1) (loops opening (seconds 1) r1 refl refl refl tt) in
    rw (← pushed-nothing.2) (loops declaring (seconds 1) r2 refl refl refl refl)

published : Reached s4 loaded
unfolding thread_pool tally thread_count
published = rw (← pushed-task) (loops publishing (seconds 1) declared refl refl refl refl)

-- The thread has run the task.
abbrev s5 : Server sample
s5 = record s4 { broker = consume sample work s4.broker }

abbrev final : Pool Text
final = record {
  workers = exited ∷ [];
  tasks = [];
  stop = true;
  notifies = 0;
  notifies_all = false;
  accepted = work ∷ [];
  taken = work ∷ [];
}

Serves-IsCovered_example : IsCovered sample s4 loaded
Serves-IsCovered_example = Serves-IsCovered sample published
