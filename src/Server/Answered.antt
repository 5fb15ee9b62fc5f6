-- ===== src/Server/Answered.antt =====
-- src/server/broker_server.cpp: which messages get a response, and what the server does with the
-- others.
use mq_work.Common.{
  ℕ, ◌≡◌, refl, Bool, true, false, List, [], ◌∷◌, inl, inr, Option-cases, Option, none, some, sym,
  not, is_some, if◌then◌else◌, ◌++◌,
}
use mq_work.Common.Text.{Text}
use mq_work.Common.Dict.{Dict, find, contains}
use mq_work.Platform.{Platform}
use mq_work.Channel.{Channel, World, close, basic_response}
use mq_work.Channel.Opened.{Channels}
use mq_work.Channel.Opened
use mq_work.Channel.Requests.{handle, cid_of, rid_of, Replied, handle-Replied}
use mq_work.Connection.{Connection, open_channel, close_channel, select_channel, refresh}
use mq_work.Connection.Manager.{Connections, select_connection, refresh_connection}
use mq_work.Server.{
  Server, broker_server, with_connection, with_channel, on_channel, on_unknown_message,
  on_open_channel, on_close_channel, on_heartbeat, on_queue_status_request, BrokerServer,
}
use mq_work.Server.Messages.{
  Incoming, open_channel_request, close_channel_request, heartbeat_request, queue_status_request,
  channel_request, unknown_message, ServerEvent, on_message, steps,
}
use mq_work.Server.Handlers.{on_request-handle}
use mq_work.Server.Lifetime.{is_sign}
use mq_work.Server.Keys.{IsKeyedConnection, IsKeyed, run-IsKeyed}

-- The channel that a message on this connection can use.
abbrev channel_in : Text → Option Connection → Option Channel
channel_in cid none = none
channel_in cid (some c) = find cid c.channels

-- Does the server carry the message out?
abbrev pub is_handled : {E : Type 0} → Text → Incoming → BrokerServer E → Bool
is_handled conn (open_channel_request rid cid) s = contains conn s.connections
is_handled conn (close_channel_request rid cid) s = contains conn s.connections
is_handled conn (heartbeat_request rid) s = true
is_handled conn (queue_status_request rid cid q) s =
    is_some (channel_in cid (find conn s.connections))
is_handled conn (channel_request r) s = is_some (channel_in (cid_of r) (find conn s.connections))
is_handled conn unknown_message s = false

-- Is the connection told to shut down?
abbrev pub is_shut : {E : Type 0} → Text → Incoming → BrokerServer E → Bool
is_shut conn (heartbeat_request rid) s = false
is_shut conn unknown_message s = true
is_shut conn m s = not (contains conn s.connections)

abbrev pub rid_of_message : Incoming → Text
rid_of_message (open_channel_request rid cid) = rid
rid_of_message (close_channel_request rid cid) = rid
rid_of_message (heartbeat_request rid) = rid
rid_of_message (queue_status_request rid cid q) = rid
rid_of_message (channel_request r) = rid_of r
rid_of_message unknown_message = []

-- The connections once a message was noted: every message that the dispatcher knows refreshes its
-- connection, if there is one.
abbrev pub noted : Text → ℕ → Incoming → Connections → Connections
noted conn now m conns = if is_sign m then refresh_connection conn now conns else conns

module _ (P : Platform) where
  -- One response on this connection and with this id, or nothing but that the message is noted; and
  -- whether the connection is told to shut down.
  abbrev pub Outcome : Text → Text → Bool → Bool → Connections → Server P → Server P → Type 0
  Outcome conn rid handled shut touched s s' =
      (if handled
        then Replied P conn rid s.broker s'.broker
        else ((s'.broker ≡ s.broker) × (s'.connections ≡ touched)))
      × (s'.shut ≡ (if shut then s.shut ++ conn ∷ [] else s.shut))

  -- A handler that always answers.
  abbrev AlwaysReplies : Text → Text → (Connection → World P → Connection × World P) → Type 0
  AlwaysReplies conn rid f =
      (c : Connection) (w : World P) → IsKeyedConnection conn c → Replied P conn rid w (f c w).1

  with_connection-Outcome :
      (conn rid : Text) (now : ℕ) (f : Connection → World P → Connection × World P) (s : Server P)
      → AlwaysReplies conn rid f
      → IsKeyed s.connections
      → let known = contains conn s.connections in
        Outcome conn rid known
          (not known)
          (refresh_connection conn now s.connections)
          s
          (with_connection P conn now f s)
  unfolding with_connection select_connection refresh refresh_connection
  with_connection-Outcome conn rid now f s replies k =
      elim (Option-cases (find conn s.connections)) [
        | inl e ↦ rw (e, with_connection, refresh_connection) ((refl, refl), refl)
        | inr (c, e) ↦ rw (e, with_connection) (replies (refresh now c) s.broker (k conn c e), refl)
      ]

  open_channel-AlwaysReplies :
      (conn rid cid : Text) → AlwaysReplies conn rid (open_channel P rid cid)
  unfolding open_channel basic_response
  open_channel-AlwaysReplies conn rid cid c w k = rw (sym k.0) (_, refl, refl)

  sent-close : (ch : Channel) (w : World P) → (close P ch w).sent ≡ w.sent
  unfolding close
  sent-close ch w = elim (Option-cases ch.consumer) [
    | inl e ↦ rw (e, close) refl
    | inr (c, e) ↦ rw (e, close) refl
  ]

  close_channel-AlwaysReplies :
      (conn rid cid : Text) → AlwaysReplies conn rid (close_channel P rid cid)
  unfolding close_channel Opened.close_channel basic_response
  close_channel-AlwaysReplies conn rid cid c w k = elim (Option-cases (find cid c.channels)) [
    | inl e ↦ rw (e, Opened.close_channel, close_channel, sym k.0) (_, refl, refl)
    | inr (ch, e) ↦
        rw (e, Opened.close_channel, close_channel, sent-close ch w, sym k.0) (_, refl, refl)
  ]

  on_channel-Outcome :
      (conn rid cid : Text) (now : ℕ) (f : Channel → World P → Channel × World P) (s : Server P)
      → ((ch : Channel) (w : World P) → ch.conn ≡ conn → Replied P conn rid w (f ch w).1)
      → IsKeyed s.connections
      → Outcome conn rid
          (is_some (channel_in cid (find conn s.connections)))
          (not (contains conn s.connections))
          (refresh_connection conn now s.connections)
          s
          (on_channel P conn now cid f s)
  unfolding with_connection with_channel select_connection select_channel Opened.select_channel
      refresh refresh_connection
  on_channel-Outcome conn rid cid now f s replies k =
      elim (Option-cases (find conn s.connections)) [
        | inl e ↦ rw (e, with_connection, refresh_connection) ((refl, refl), refl)
        | inr (c, e) ↦ elim (Option-cases (find cid c.channels)) [
          | inl e' ↦
              rw (e, with_connection, e', with_channel, refresh_connection) ((refl, refl), refl)
          | inr (ch, e') ↦
              rw (e, with_connection, e', with_channel)
                (replies ch s.broker ((k conn c e).1 cid ch e').0, refl)
        ]
      ]

  on_message-Outcome :
      (conn : Text) (now : ℕ) (m : Incoming) (s : Server P)
      → IsKeyed s.connections
      → Outcome conn
          (rid_of_message m)
          (is_handled conn m s)
          (is_shut conn m s)
          (noted conn now m s.connections)
          s
          (on_message P conn now m s)
  unfolding on_message on_open_channel on_close_channel on_heartbeat on_queue_status_request
      on_unknown_message
  on_message-Outcome conn now (open_channel_request rid cid) s k =
      with_connection-Outcome conn rid now _ s (open_channel-AlwaysReplies conn rid cid) k
  on_message-Outcome conn now (close_channel_request rid cid) s k =
      with_connection-Outcome conn rid now _ s (close_channel-AlwaysReplies conn rid cid) k
  on_message-Outcome conn now (heartbeat_request rid) s k = ((_, refl, refl), refl)
  on_message-Outcome conn now (queue_status_request rid cid q) s k =
      on_channel-Outcome conn rid cid now _ s (λ ch w h. (_, refl, refl)) k
  on_message-Outcome conn now (channel_request r) s k = rw (on_request-handle P conn now r s) (
      on_channel-Outcome conn (rid_of r) (cid_of r) now (handle P r) s
        (λ ch w h. rw (sym h) (handle-Replied P r ch w)) k)
  on_message-Outcome conn now unknown_message s k = ((refl, refl), refl)

  -- In every state that a new server can reach, a message that names an open connection and, if it
  -- needs one, an open channel gets exactly one response, on its connection and with its id, and so
  -- does every heartbeat. A message to an unknown channel of a known connection gets no response and
  -- only refreshes that connection. Any other message to an unknown connection, and an unknown
  -- message, gets no response either and changes nothing but that its connection is told to shut
  -- down.
  pub run-Outcome :
      (disk : Dict (List ℕ)) (seq : ℕ) (es : List (ServerEvent × ℕ)) (conn : Text) (now : ℕ)
      (m : Incoming)
      → let s = steps P es (broker_server P disk seq) in
        Outcome conn
          (rid_of_message m)
          (is_handled conn m s)
          (is_shut conn m s)
          (noted conn now m s.connections)
          s
          (on_message P conn now m s)
  run-Outcome disk seq es conn now m =
      on_message-Outcome conn now m (steps P es (broker_server P disk seq))
        (run-IsKeyed P disk seq es)
