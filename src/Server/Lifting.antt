-- ===== src/Server/Lifting.antt =====
-- src/server/broker_server.cpp: a predicate on the broker that every handler of a channel, the task,
-- the end of a channel and every response keep, holds in every state of the server.
use mq_work.Common.{ℕ, true, false, List, [], ◌∷◌, inl, inr, Option-cases}
use mq_work.Common.Text.{Text}
use mq_work.Common.Dict.{find}
use mq_work.Platform.{Platform}
use mq_work.Channel.{
  Channel, World, close, basic_response, Reply, send, consume, common_response, heartbeat_response,
}
use mq_work.Channel.Opened.{Channels}
use mq_work.Channel.Opened
use mq_work.Channel.Requests.{handle, cid_of, Request}
use mq_work.Connection.{Connection, open_channel, close_channel, select_channel, drop_channels}
use mq_work.Connection.Manager.{delete_connection, select_connection}
use mq_work.Server.{
  Server, with_connection, with_channel, on_timer, on_connection, on_unknown_message,
  on_open_channel, on_close_channel, on_heartbeat, on_queue_status_request,
}
use mq_work.Server.Messages.{
  Incoming, open_channel_request, close_channel_request, heartbeat_request, queue_status_request,
  channel_request, unknown_message, ServerEvent, connects, receives, ticks, pool_runs, on_message,
  step, steps,
}
use mq_work.Server.Handlers.{on_request-handle}

-- Every request that the event brings is one of these.
abbrev pub Allows : (Request → Type 0) → ServerEvent → Type 0
Allows Ok (receives conn (channel_request r)) = Ok r
Allows Ok e = Unit

abbrev pub AllowsAll : (Request → Type 0) → List (ServerEvent × ℕ) → Type 0
AllowsAll Ok [] = Unit
AllowsAll Ok ((e, now) ∷ es) = Allows Ok e × AllowsAll Ok es

-- No condition on the requests.
abbrev pub AnyRequest : Request → Type 0
AnyRequest r = Unit

Allows-any : (e : ServerEvent) → Allows AnyRequest e
Allows-any (connects conn connected) = tt
Allows-any (receives conn (open_channel_request rid cid)) = tt
Allows-any (receives conn (close_channel_request rid cid)) = tt
Allows-any (receives conn (heartbeat_request rid)) = tt
Allows-any (receives conn (queue_status_request rid cid q)) = tt
Allows-any (receives conn (channel_request r)) = tt
Allows-any (receives conn unknown_message) = tt
Allows-any ticks = tt
Allows-any (pool_runs q) = tt

pub AllowsAll-any : (es : List (ServerEvent × ℕ)) → AllowsAll AnyRequest es
AllowsAll-any [] = tt
AllowsAll-any ((e, now) ∷ es) = (Allows-any e, AllowsAll-any es)

module _ (P : Platform) (I : World P → Type 0) (Ok : Request → Type 0)
    (replies : (conn : Text) (r : Reply) (w : World P) → I w → I (send conn r w))
    (closes : (ch : Channel) (w : World P) → I w → I (close P ch w))
    (handles : (r : Request) (ch : Channel) (w : World P) → Ok r → I w → I (handle P r ch w).1)
    (consumes : (q : Text) (w : World P) → I w → I (consume P q w)) where
  -- What a handler does to a connection keeps the predicate.
  abbrev Keeps : (Connection → World P → Connection × World P) → Type 0
  Keeps f = (c : Connection) (w : World P) → I w → I (f c w).1

  with_connection-keeps :
      (conn : Text) (now : ℕ) (f : Connection → World P → Connection × World P) (s : Server P)
      → Keeps f
      → I s.broker
      → I (with_connection P conn now f s).broker
  unfolding with_connection select_connection
  with_connection-keeps conn now f s keeps k = elim (Option-cases (find conn s.connections)) [
    | inl e ↦ rw (e, with_connection) k
    | inr (c, e) ↦ rw (e, with_connection) (keeps _ s.broker k)
  ]

  with_channel-Keeps :
      (cid : Text) (f : Channel → World P → Channel × World P)
      → ((ch : Channel) (w : World P) → I w → I (f ch w).1)
      → Keeps (λ c w. with_channel P cid f c w)
  unfolding with_channel select_channel Opened.select_channel
  with_channel-Keeps cid f keeps c w k = elim (Option-cases (find cid c.channels)) [
    | inl e ↦ rw (e, with_channel) k
    | inr (ch, e) ↦ rw (e, with_channel) (keeps ch w k)
  ]

  close_channel-Keeps : (rid cid : Text) → Keeps (close_channel P rid cid)
  unfolding close_channel Opened.close_channel basic_response
  close_channel-Keeps rid cid c w k = elim (Option-cases (find cid c.channels)) [
    | inl e ↦
        rw (e, Opened.close_channel, close_channel)
          (replies c.conn (common_response rid cid true) w k)
    | inr (ch, e) ↦
        rw (e, Opened.close_channel, close_channel)
          (replies c.conn (common_response rid cid true) (close P ch w) (closes ch w k))
  ]

  drop_channels-keeps : (channels : Channels) (w : World P) → I w → I (drop_channels P channels w)
  unfolding drop_channels
  drop_channels-keeps [] w k = k
  drop_channels-keeps ((cid, ch) ∷ channels) w k =
      drop_channels-keeps channels (close P ch w) (closes ch w k)

  on_message-keeps :
      (conn : Text) (now : ℕ) (m : Incoming) (s : Server P)
      → Allows Ok (receives conn m)
      → I s.broker
      → I (on_message P conn now m s).broker
  unfolding on_message on_open_channel on_close_channel on_heartbeat on_queue_status_request
      on_unknown_message open_channel basic_response
  on_message-keeps conn now (open_channel_request rid cid) s o k =
      with_connection-keeps conn now (λ c w. open_channel P rid cid c w) s
        (λ c w q. replies c.conn (common_response rid cid _) w q) k
  on_message-keeps conn now (close_channel_request rid cid) s o k =
      with_connection-keeps conn now _ s (close_channel-Keeps rid cid) k
  on_message-keeps conn now (heartbeat_request rid) s o k =
      replies conn (heartbeat_response rid) s.broker k
  on_message-keeps conn now (queue_status_request rid cid q) s o k =
      with_connection-keeps conn now _ s (with_channel-Keeps cid _ (λ ch w k. replies conn _ w k)) k
  on_message-keeps conn now (channel_request r) s o k = rw (on_request-handle P conn now r s) (
      with_connection-keeps conn now _ s
        (with_channel-Keeps (cid_of r) (handle P r) (λ ch w q. handles r ch w o q)) k)
  on_message-keeps conn now unknown_message s o k = k

  pub step-keeps :
      (e : ServerEvent) (now : ℕ) (s : Server P)
      → Allows Ok e
      → I s.broker
      → I (step P e now s).broker
  unfolding step on_connection on_timer delete_connection
  step-keeps (connects conn true) now s o k = k
  step-keeps (connects conn false) now s o k = elim (Option-cases (find conn s.connections)) [
    | inl e ↦ rw (e, delete_connection) k
    | inr (c, e) ↦ rw (e, delete_connection) (drop_channels-keeps c.channels s.broker k)
  ]
  step-keeps (receives conn m) now s o k = on_message-keeps conn now m s o k
  step-keeps ticks now s o k = k
  step-keeps (pool_runs q) now s o k = consumes q s.broker k

  pub steps-keeps :
      (es : List (ServerEvent × ℕ)) (s : Server P)
      → AllowsAll Ok es
      → I s.broker
      → I (steps P es s).broker
  unfolding steps
  steps-keeps [] s o k = k
  steps-keeps ((e, now) ∷ es) s o k = steps-keeps es _ o.1 (step-keeps e now s o.0 k)
