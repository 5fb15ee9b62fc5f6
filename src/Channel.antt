-- ===== src/Channel.antt =====
-- src/server/channel.hpp and channel.cpp: the handlers of a channel's requests, and the task that
-- hands messages to consumers. The callback of a consumer is `consume_cb` bound to a channel.
pub mod Delivery
pub mod Passage
pub mod Opened
pub mod Served
pub mod Requests
pub mod Events
pub mod Tagged
pub mod Backlog
pub mod Plain
pub mod Dealt
use mq_work.Common.{
  Bool, true, false, not, Option, none, some, List, [], ◌∷◌, ◌++◌, if◌then◌else◌, map,
}
use mq_work.Common.Text.{Text}
use mq_work.Proto.{ExchangeType, Args, DeliveryMode, BasicProperties, Message}
use mq_work.Queue.{DeadLetterConfig, no_dead_letter}
use mq_work.Queue.Manager.{QueueStatus}
use mq_work.Storage.{message_id_of}
use mq_work.Platform.{Platform}
use mq_work.Host
use mq_work.Host.Publish
use mq_work.Host.Consume
use mq_work.Consumers.{Consumer}
use mq_work.Consumers.Manager.{ConsumerManager, init_queue_consumer, destroy_queue_consumer, choose}
use mq_work.Consumers.Manager

-- The responses of src/common/protocol.proto that the broker sends, with the fields it sets.
pub data Reply : Type 0 where
  common_response : (rid cid : Text) (ok : Bool) → Reply
  consume_response :
      (cid consumer_tag body id : Text) (delivery_mode : DeliveryMode) (routing_key : Text) → Reply
  query_response : (rid cid body : Text) → Reply
  queue_status_response : (rid cid : Text) → QueueStatus → Reply
  heartbeat_response : (rid : Text) → Reply

-- A response, and the TCP connection that it is sent on. A text stands for a connection object.
pub record Sent : Type 0 where
  pub conn : Text
  pub reply : Reply

-- The channel that `this` points to, by its connection and its id.
pub record ChannelRef : Type 0 where
  pub conn : Text
  pub cid : Text

-- A channel: its id and connection, and its consumer if it has become one.
pub record Channel : Type 0 where
  pub conn : Text
  pub cid : Text
  pub consumer : Option (Consumer ChannelRef)

abbrev pub ref_of : Channel → ChannelRef
ref_of ch = record { conn = ch.conn; cid = ch.cid }

-- What the channels share: the host, the consumers, the responses sent so far, oldest first, and
-- the queues whose consume tasks are in the thread pool.
pub record Broker (E : Type 0) : Type 0 where
  pub host : Host.VirtualHost E
  pub consumers : ConsumerManager ChannelRef
  pub sent : List Sent
  pub tasks : List Text

abbrev pub queue_names : Host.BindingMap → List Text
queue_names [] = []
queue_names ((q, _) ∷ bindings) = q ∷ queue_names bindings

-- The configuration that `declare_queue_with_dlq` builds from the request.
abbrev pub config_of : Option DeadLetterConfig → DeadLetterConfig
config_of none = no_dead_letter
config_of (some c) = c

-- `__codec->send(conn, reply)`
abbrev pub send : {E : Type 0} → Text → Reply → Broker E → Broker E
send conn reply w =
    let sent : Sent = record { conn = conn; reply = reply } in
    record w { sent = w.sent ++ sent ∷ [] }

unfoldable pub basic_response : {E : Type 0} → Text → Bool → Text → Text → Broker E → Broker E
basic_response conn ok rid cid w = send conn (common_response rid cid ok) w

unfoldable pub consume_cb :
    {E : Type 0} → ChannelRef → Text → BasicProperties → Text → Broker E → Broker E
consume_cb this tag bp body w =
    send this.conn (consume_response this.cid tag body bp.id bp.delivery_mode bp.routing_key) w

module _ (P : Platform) where
  abbrev pub World : Type 0
  World = Broker P.Exchanges

  -- The task: take the message out, choose a consumer, call it, acknowledge.
  unfoldable pub consume : Text → World → World
  consume qname w =
      let (h, mp) = Host.Consume.basic_consume P qname w.host in
      let (cs, cp) = choose qname w.consumers in
      elim mp [
        | none ↦ record w { host = h }
        | some m ↦ elim cp [
          | none ↦ record w { host = h; consumers = cs }
          | some c ↦
              let called =
                consume_cb c.callback c.tag m.payload.properties m.payload.body
                  (record w { host = h; consumers = cs }) in
              let acked = record called {
                host = Host.Consume.basic_ack P qname (message_id_of m) h;
              } in
              if c.auto_ack then acked else called
        ]
      ]

  unfoldable pub declare_exchange :
      Channel → Text → Text → Text → ExchangeType → Bool → Bool → Args → World → World
  declare_exchange ch rid cid name type durable auto_delete args w =
      let (h, ok) = Host.declare_exchange P name type durable auto_delete args w.host in
      basic_response ch.conn ok rid cid (record w { host = h })

  unfoldable pub delete_exchange : Channel → Text → Text → Text → World → World
  delete_exchange ch rid cid name w =
      basic_response ch.conn true rid cid (record w { host = Host.delete_exchange P name w.host })

  unfoldable pub declare_queue :
      Channel → Text → Text → Text → Bool → Bool → Bool → Args → World → World
  declare_queue ch rid cid name durable exclusive auto_delete args w =
      let (h, ok) = Host.declare_queue P name durable exclusive auto_delete args w.host in
      let there = record w { host = h; consumers = init_queue_consumer name w.consumers } in
      if not ok
      then basic_response ch.conn false rid cid (record w { host = h })
      else basic_response ch.conn true rid cid there

  unfoldable pub declare_queue_with_dlq :
      Channel
      → Text
      → Text
      → Text
      → Bool
      → Bool
      → Bool
      → Args
      → Option DeadLetterConfig
      → World
      → World
  declare_queue_with_dlq ch rid cid name durable exclusive auto_delete args dlq w =
      let (h, ok) =
        Host.declare_queue_with_dlq P name durable exclusive auto_delete args (config_of dlq)
          w.host in
      let there = record w { host = h; consumers = init_queue_consumer name w.consumers } in
      if not ok
      then basic_response ch.conn false rid cid (record w { host = h })
      else basic_response ch.conn true rid cid there

  unfoldable pub delete_queue : Channel → Text → Text → Text → World → World
  delete_queue ch rid cid name w = basic_response ch.conn true rid cid (record w {
    host = Host.delete_queue P name w.host;
    consumers = destroy_queue_consumer name w.consumers;
  })

  unfoldable pub bind : Channel → Text → Text → Text → Text → Text → World → World
  bind ch rid cid exchange_name queue_name binding_key w =
      let (h, ok) = Host.bind P exchange_name queue_name binding_key w.host in
      basic_response ch.conn ok rid cid (record w { host = h })

  unfoldable pub unbind : Channel → Text → Text → Text → Text → World → World
  unbind ch rid cid exchange_name queue_name w =
      basic_response ch.conn true rid cid
        (record w { host = Host.unbind P exchange_name queue_name w.host })

  -- Every binding of the exchange gets a task, once something was delivered.
  unfoldable pub basic_publish :
      Channel → Text → Text → Text → Option BasicProperties → Text → World → World
  basic_publish ch rid cid exchange_name properties body w =
      let (h, _, published) =
        Host.Publish.publish_to_exchange P exchange_name properties body w.host in
      let pushed = queue_names (Host.exchange_bindings P exchange_name h) in
      elim (Host.select_exchange P exchange_name w.host) [
        | none ↦ basic_response ch.conn false rid cid w
        | some _ ↦
            basic_response ch.conn true rid cid
              (record w { host = h; tasks = if published then w.tasks ++ pushed else w.tasks })
      ]

  unfoldable pub basic_ack : Channel → Text → Text → Text → Text → World → World
  basic_ack ch rid cid queue_name message_id w =
      basic_response ch.conn true rid cid
        (record w { host = Host.Consume.basic_ack P queue_name message_id w.host })

  unfoldable pub basic_nack : Channel → Text → Text → Text → Text → Bool → Text → World → World
  basic_nack ch rid cid queue_name message_id requeue reason w =
      basic_response ch.conn true rid cid
        (record w { host = Host.Consume.basic_nack P queue_name message_id requeue reason w.host })

  -- The reply is `true` also when the tag is taken and no consumer is made.
  unfoldable pub basic_consume :
      Channel → Text → Text → Text → Text → Bool → World → Channel × World
  basic_consume ch rid cid consumer_tag queue_name auto_ack w =
      let (cs, c) = Manager.create consumer_tag queue_name auto_ack (ref_of ch) w.consumers in
      if not (Host.exists_queue P queue_name w.host)
      then (ch, basic_response ch.conn false rid cid w)
      else (
        record ch { consumer = c },
        basic_response ch.conn true rid cid (record w { consumers = cs }),
      )

  unfoldable pub basic_cancel : Channel → Text → Text → Text → Text → World → World
  basic_cancel ch rid cid consumer_tag queue_name w =
      basic_response ch.conn true rid cid
        (record w { consumers = Manager.remove consumer_tag queue_name w.consumers })

  unfoldable pub basic_query : Channel → Text → Text → World → World
  basic_query ch rid cid w =
      let (h, result_body) = Host.Consume.basic_query P w.host in
      send ch.conn (query_response rid ch.cid result_body) (record w { host = h })

  -- The destructor.
  unfoldable pub close : Channel → World → World
  close ch w = elim ch.consumer [
    | none ↦ w
    | some c ↦ record w { consumers = Manager.remove c.tag c.qname w.consumers }
  ]
