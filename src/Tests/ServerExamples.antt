-- ===== src/Tests/ServerExamples.antt =====
-- Applications of the theorems on src/server/broker_server.cpp and src/server/connection.cpp.
use mq_work.Common.{some, ℕ, ◌≡◌, true, false, none, List, [], ◌∷◌, ◌++◌, refl}
use mq_work.Common.Text.{Text, codes, listed, ◌==◌}
use mq_work.Channel.Requests.{declare_queue_request, basic_consume_request, basic_query_request}
use mq_work.Channel.Served.{IsServed}
use mq_work.Common.Dict.{find, put}
use mq_work.Connection.{seconds, Connection}
use mq_work.Connection.Manager.{check_timeout}
use mq_work.Server.{broker_server, on_timer, on_connection}
use mq_work.Server.Messages.{
  Incoming, open_channel_request, heartbeat_request, channel_request, ServerEvent, connects,
  receives, ticks, pool_runs, on_message, steps,
}
use mq_work.Server.Served.{run-IsServed}
use mq_work.Server.Answered.{Outcome, is_handled, is_shut, noted, rid_of_message, run-Outcome}
use mq_work.Server.Lifetime.{beats, is_late, listed-run}
use mq_work.Consumers.{Consumer}
use mq_work.Channel.{Channel, ChannelRef}
use mq_work.Channel.Tagged.{is_tagged}
use mq_work.Server.Disconnect.{run-disconnects}
use mq_work.Tests.SamplePlatform.{sample, work}

abbrev tcp : Text
tcp = codes "tcp"

-- A client connects, opens a channel, declares a queue, consumes from it, and sends a heartbeat.
abbrev history : List (ServerEvent × ℕ)
history =
    (connects tcp true, seconds 1)
    ∷ (receives tcp (open_channel_request (codes "1") (codes "c1")), seconds 2)
    ∷ (
      receives tcp (
          channel_request
            (declare_queue_request (codes "2") (codes "c1") work false false false [])),
      seconds 3,
    )
    ∷ (
      receives tcp
          (channel_request (basic_consume_request (codes "3") (codes "c1") (codes "t") work true)),
      seconds 4,
    )
    ∷ (receives tcp (heartbeat_request (codes "4")), seconds 5)
    ∷ (pool_runs work, seconds 6)
    ∷ (ticks, seconds 7)
    ∷ []

run-IsServed_example :
    let w = (steps sample history (broker_server sample [] 0)).broker in IsServed w.host w.consumers
run-IsServed_example = run-IsServed sample [] 0 history

abbrev query : Incoming
query = channel_request (basic_query_request (codes "5") (codes "c1"))

run-Outcome_example :
    let s = steps sample history (broker_server sample [] 0) in
    Outcome sample tcp
      (rid_of_message query)
      (is_handled tcp query s)
      (is_shut tcp query s)
      (noted tcp (seconds 8) query s.connections)
      s
      (on_message sample tcp (seconds 8) query s)
run-Outcome_example = run-Outcome sample [] 0 history tcp (seconds 8) query

listed-run_example :
    let s = steps sample history (broker_server sample [] 0) in
    ((on_timer sample (seconds 36) s).shut
      ≡ s.shut ++ check_timeout (seconds 30) (seconds 36) s.connections)
    × (listed tcp (check_timeout (seconds 30) (seconds 36) s.connections)
        ≡ is_late (seconds 36) (beats tcp history none))
listed-run_example = listed-run sample [] 0 history (seconds 36) tcp

-- The consumer of that client, its channel and its connection.
abbrev eager : Consumer ChannelRef
eager = record {
  tag = codes "t";
  qname = work;
  auto_ack = true;
  callback = record { conn = tcp; cid = codes "c1" };
}

abbrev consuming : Channel
consuming = record { conn = tcp; cid = codes "c1"; consumer = some eager }

abbrev client : Connection
client = record { conn = tcp; channels = (codes "c1", consuming) ∷ []; last_active = seconds 5 }

client-found : find tcp (steps sample history (broker_server sample [] 0)).connections ≡ some client
unfolding find put ◌==◌ steps mq_work.Server.Messages.step on_timer on_message
    mq_work.Server.on_heartbeat mq_work.Connection.Manager.refresh_connection
    mq_work.Connection.refresh mq_work.Server.Messages.on_request mq_work.Server.on_basic_consume
    mq_work.Server.with_connection mq_work.Server.with_channel mq_work.Connection.select_channel
    mq_work.Channel.Opened.select_channel mq_work.Connection.Manager.select_connection
    mq_work.Server.on_declare_queue mq_work.Server.on_open_channel on_connection
    mq_work.Connection.Manager.new_connection mq_work.Connection.connection
    mq_work.Connection.open_channel mq_work.Channel.Opened.open_channel broker_server
    mq_work.Channel.basic_consume mq_work.Channel.declare_queue mq_work.Channel.basic_response
    mq_work.Host.exists_queue mq_work.Queue.Manager.exists_queue mq_work.Consumers.Manager.create
    mq_work.Consumers.create mq_work.Consumers.has_tag mq_work.Consumers.Manager.init_queue_consumer
    mq_work.Consumers.queue_consumer mq_work.Host.declare_queue mq_work.Queue.Manager.declare_queue
    mq_work.Queue.Manager.mapper_insert mq_work.Host.ensure_store mq_work.Host.bind
    mq_work.Host.bind_args mq_work.Host.virtual_host mq_work.Host.recover_queues
    mq_work.Queue.Manager.queue_manager mq_work.Server.init_consumers mq_work.Host.all_queues
    mq_work.Host.open_store
client-found = refl

channel-found : find (codes "c1") client.channels ≡ some consuming
unfolding find ◌==◌
channel-found = refl

run-disconnects_example :
    let s' =
      on_connection sample tcp false
        (seconds 9)
        (steps sample history (broker_server sample [] 0)) in
    (find tcp s'.connections ≡ none) × (is_tagged (codes "t") work s'.broker.consumers ≡ false)
run-disconnects_example =
    run-disconnects sample [] 0 history (seconds 9) tcp (codes "c1") client consuming eager
      client-found channel-found refl
