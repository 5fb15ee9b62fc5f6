-- ===== src/Server.antt =====
-- src/server/broker_server.hpp and src/server/broker_server.cpp: the state of the server and its
-- callbacks. The event loop calls them one after the other; `now` is the time of the call.
pub mod Messages
pub mod Handlers
pub mod Lifting
pub mod Served
pub mod Answered
pub mod Keys
pub mod Distinct
pub mod Lifetime
pub mod Disconnect
pub mod Alive
pub mod Pooled
pub mod Drained
use mq_work.Common.{ℕ, Bool, Option, none, some, List, [], ◌∷◌, ◌++◌, if◌then◌else◌}
use mq_work.Common.Text.{Text}
use mq_work.Common.Dict.{Dict, put}
use mq_work.Proto.{ExchangeType, Args, BasicProperties}
use mq_work.Queue.{DeadLetterConfig}
use mq_work.Queue.Manager.{QueueMap, get_queue_status}
use mq_work.Platform.{Platform}
use mq_work.Host.{virtual_host, all_queues}
use mq_work.Consumers.Manager.{ConsumerManager, init_queue_consumer}
use mq_work.Channel.{
  ChannelRef, Channel, Broker, World, queue_status_response, heartbeat_response, send,
}
use mq_work.Channel
use mq_work.Connection.{Connection, seconds, refresh}
use mq_work.Connection
use mq_work.Connection.Manager.{
  Connections, new_connection, delete_connection, select_connection, refresh_connection,
  check_timeout,
}

-- `shut` holds the connections that were told to shut down, oldest first.
pub record BrokerServer (E : Type 0) : Type 0 where
  pub broker : Broker E
  pub connections : Connections
  pub shut : List Text

-- The loop of the constructor over the queues of the host.
unfoldable pub init_consumers : QueueMap → ConsumerManager ChannelRef → ConsumerManager ChannelRef
init_consumers [] m = m
init_consumers ((qname, _) ∷ queues) m = init_consumers queues (init_queue_consumer qname m)

-- `conn->shutdown()`
abbrev pub shutdown : {E : Type 0} → Text → BrokerServer E → BrokerServer E
shutdown conn s = record s { shut = s.shut ++ conn ∷ [] }

module _ (P : Platform) where
  abbrev pub Server : Type 0
  Server = BrokerServer P.Exchanges

  -- The constructor, on a disk with these files.
  unfoldable pub broker_server : Dict (List ℕ) → ℕ → Server
  broker_server disk seq =
      let host = virtual_host P disk seq in
      record {
        broker = record {
          host = host;
          consumers = init_consumers (all_queues P host) [];
          sent = [];
          tasks = [];
        };
        connections = [];
        shut = [];
      }

  -- The timer of the constructor: every five seconds, with a timeout of thirty.
  unfoldable pub on_timer : ℕ → Server → Server
  on_timer now s = record s { shut = s.shut ++ check_timeout (seconds 30) now s.connections }

  unfoldable pub on_connection : Text → Bool → ℕ → Server → Server
  on_connection conn connected now s =
      let (connections, w) = delete_connection P conn s.connections s.broker in
      if connected
      then record s { connections = new_connection conn now s.connections }
      else record s { connections = connections; broker = w }

  unfoldable pub on_unknown_message : Text → Server → Server
  on_unknown_message conn s = shutdown conn s

  -- GET_CONN_CTX with the call of refresh_connection that stands below it in the file, and then what
  -- the handler does with the connection.
  unfoldable pub with_connection :
      Text → ℕ → (Connection → World P → Connection × World P) → Server → Server
  with_connection conn now f s = elim (select_connection conn s.connections) [
    | none ↦ shutdown conn s
    | some c ↦
        let (c', w) = f (refresh now c) s.broker in
        record s { connections = put conn c' s.connections; broker = w }
  ]

  -- GET_CHANNEL, and then what the handler does with the channel.
  unfoldable pub with_channel :
      Text → (Channel → World P → Channel × World P) → Connection → World P → Connection × World P
  with_channel cid f c w = elim (Connection.select_channel cid c) [
    | none ↦ (c, w)
    | some ch ↦ let (ch', w') = f ch w in (record c { channels = put cid ch' c.channels }, w')
  ]

  unfoldable pub on_open_channel : Text → ℕ → Text → Text → Server → Server
  on_open_channel conn now rid cid s =
      with_connection conn now (λ c w. Connection.open_channel P rid cid c w) s

  unfoldable pub on_close_channel : Text → ℕ → Text → Text → Server → Server
  on_close_channel conn now rid cid s =
      with_connection conn now (λ c w. Connection.close_channel P rid cid c w) s

  abbrev pub on_channel :
      Text → ℕ → Text → (Channel → World P → Channel × World P) → Server → Server
  on_channel conn now cid f s = with_connection conn now (λ c w. with_channel cid f c w) s

  unfoldable pub on_declare_exchange :
      Text → ℕ → Text → Text → Text → ExchangeType → Bool → Bool → Args → Server → Server
  on_declare_exchange conn now rid cid n t d a args s =
      on_channel conn now cid (λ ch w. (ch, Channel.declare_exchange P ch rid cid n t d a args w)) s

  unfoldable pub on_delete_exchange : Text → ℕ → Text → Text → Text → Server → Server
  on_delete_exchange conn now rid cid n s =
      on_channel conn now cid (λ ch w. (ch, Channel.delete_exchange P ch rid cid n w)) s

  unfoldable pub on_declare_queue :
      Text → ℕ → Text → Text → Text → Bool → Bool → Bool → Args → Server → Server
  on_declare_queue conn now rid cid n d x a args s =
      on_channel conn now cid (λ ch w. (ch, Channel.declare_queue P ch rid cid n d x a args w)) s

  unfoldable pub on_delete_queue : Text → ℕ → Text → Text → Text → Server → Server
  on_delete_queue conn now rid cid n s =
      on_channel conn now cid (λ ch w. (ch, Channel.delete_queue P ch rid cid n w)) s

  unfoldable pub on_bind : Text → ℕ → Text → Text → Text → Text → Text → Server → Server
  on_bind conn now rid cid ex q key s =
      on_channel conn now cid (λ ch w. (ch, Channel.bind P ch rid cid ex q key w)) s

  unfoldable pub on_unbind : Text → ℕ → Text → Text → Text → Text → Server → Server
  on_unbind conn now rid cid ex q s =
      on_channel conn now cid (λ ch w. (ch, Channel.unbind P ch rid cid ex q w)) s

  unfoldable pub on_basic_publish :
      Text → ℕ → Text → Text → Text → Option BasicProperties → Text → Server → Server
  on_basic_publish conn now rid cid ex bp body s =
      on_channel conn now cid (λ ch w. (ch, Channel.basic_publish P ch rid cid ex bp body w)) s

  unfoldable pub on_basic_ack : Text → ℕ → Text → Text → Text → Text → Server → Server
  on_basic_ack conn now rid cid q id s =
      on_channel conn now cid (λ ch w. (ch, Channel.basic_ack P ch rid cid q id w)) s

  unfoldable pub on_basic_consume : Text → ℕ → Text → Text → Text → Text → Bool → Server → Server
  on_basic_consume conn now rid cid tag q auto s =
      on_channel conn now cid (λ ch w. Channel.basic_consume P ch rid cid tag q auto w) s

  unfoldable pub on_basic_cancel : Text → ℕ → Text → Text → Text → Text → Server → Server
  on_basic_cancel conn now rid cid tag q s =
      on_channel conn now cid (λ ch w. (ch, Channel.basic_cancel P ch rid cid tag q w)) s

  unfoldable pub on_basic_query : Text → ℕ → Text → Text → Server → Server
  on_basic_query conn now rid cid s =
      on_channel conn now cid (λ ch w. (ch, Channel.basic_query P ch rid cid w)) s

  unfoldable pub on_heartbeat : Text → Text → ℕ → Server → Server
  on_heartbeat conn rid now s = record s {
    connections = refresh_connection conn now s.connections;
    broker = send conn (heartbeat_response rid) s.broker;
  }

  unfoldable pub on_declare_queue_with_dlq :
      Text
      → ℕ
      → Text
      → Text
      → Text
      → Bool
      → Bool
      → Bool
      → Args
      → Option DeadLetterConfig
      → Server
      → Server
  on_declare_queue_with_dlq conn now rid cid n d x a args dlq s =
      on_channel conn now cid
        (λ ch w. (ch, Channel.declare_queue_with_dlq P ch rid cid n d x a args dlq w)) s

  unfoldable pub on_basic_nack :
      Text → ℕ → Text → Text → Text → Text → Bool → Text → Server → Server
  on_basic_nack conn now rid cid q id requeue reason s =
      on_channel conn now cid (λ ch w. (ch, Channel.basic_nack P ch rid cid q id requeue reason w))
        s

  unfoldable pub on_queue_status_request : Text → ℕ → Text → Text → Text → Server → Server
  on_queue_status_request conn now rid cid queue_name s =
      on_channel conn now cid
        (λ ch w. (
          ch,
          send conn (queue_status_response rid cid (get_queue_status w.host.queue_mgr queue_name))
              w,
        ))
        s
