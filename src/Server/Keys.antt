-- ===== src/Server/Keys.antt =====
-- src/server/broker_server.cpp: what the maps of connections and of channels hold stands under its
-- own key, so that a response goes to the connection that asked.
use mq_work.Common.{
  ℕ, ◌≡◌, refl, ◌∙◌, ap, true, false, List, [], ◌∷◌, inl, inr, Option-cases, Bool-cases,
}
use mq_work.Common.Text.{Text}
use mq_work.Common.Dict.{Dict, find, contains, All, All-nil, All-put, All-erase}
use mq_work.Platform.{Platform}
use mq_work.Channel.{Channel, World, ref_of}
use mq_work.Channel.Opened.{Channels}
use mq_work.Channel.Opened
use mq_work.Channel.Requests.{handle, cid_of}
use mq_work.Connection.{
  Connection, connection, refresh, open_channel, close_channel, select_channel,
}
use mq_work.Connection.Manager.{
  Connections, new_connection, delete_connection, select_connection, refresh_connection,
}
use mq_work.Server.{
  Server, broker_server, with_connection, with_channel, on_timer, on_connection, on_unknown_message,
  on_open_channel, on_close_channel, on_heartbeat, on_queue_status_request,
}
use mq_work.Server.Messages.{
  Incoming, open_channel_request, close_channel_request, heartbeat_request, queue_status_request,
  channel_request, unknown_message, ServerEvent, connects, receives, ticks, pool_runs, on_message,
  step, steps,
}
use mq_work.Server.Handlers.{on_request-handle, handle-ref}

abbrev pub IsKeyedChannel : Text → Text → Channel → Type 0
IsKeyedChannel conn cid ch = (ch.conn ≡ conn) × (ch.cid ≡ cid)

abbrev pub IsKeyedConnection : Text → Connection → Type 0
IsKeyedConnection conn c = (c.conn ≡ conn) × All (IsKeyedChannel conn) c.channels

-- Each connection, and each of its channels, has the key that it is found under.
abbrev pub IsKeyed : Connections → Type 0
IsKeyed conns = All IsKeyedConnection conns

module _ (P : Platform) where
  -- What a handler does to a connection leaves it keyed.
  abbrev KeepsKeys : Text → (Connection → World P → Connection × World P) → Type 0
  KeepsKeys conn f =
      (c : Connection) (w : World P) → IsKeyedConnection conn c → IsKeyedConnection conn (f c w).0

  with_connection-IsKeyed :
      (conn : Text) (now : ℕ) (f : Connection → World P → Connection × World P) (s : Server P)
      → KeepsKeys conn f
      → IsKeyed s.connections
      → IsKeyed (with_connection P conn now f s).connections
  unfolding with_connection select_connection refresh
  with_connection-IsKeyed conn now f s keeps k = elim (Option-cases (find conn s.connections)) [
    | inl e ↦ rw (e, with_connection) k
    | inr (c, e) ↦
        rw (e, with_connection)
          (All-put IsKeyedConnection conn _ s.connections
            (keeps (refresh now c) s.broker (k conn c e)) k)
  ]

  with_channel-KeepsKeys :
      (conn cid : Text) (f : Channel → World P → Channel × World P)
      → ((ch : Channel) (w : World P) → ref_of (f ch w).0 ≡ ref_of ch)
      → KeepsKeys conn (λ c w. with_channel P cid f c w)
  unfolding with_channel select_channel Opened.select_channel
  with_channel-KeepsKeys conn cid f same c w k = elim (Option-cases (find cid c.channels)) [
    | inl e ↦ rw (e, with_channel) k
    | inr (ch, e) ↦
        let (there, named) = k.1 cid ch e in
        rw (e, with_channel)
          (
            k.0,
            All-put (IsKeyedChannel conn) cid _ c.channels
                (ap (λ r. r.conn) (same ch w) ∙ there, ap (λ r. r.cid) (same ch w) ∙ named) k.1,
          )
  ]

  open_channel-KeepsKeys : (conn rid cid : Text) → KeepsKeys conn (open_channel P rid cid)
  unfolding open_channel Opened.open_channel
  open_channel-KeepsKeys conn rid cid c w k = elim (Bool-cases (contains cid c.channels)) [
    | inl e ↦ rw (e, Opened.open_channel, open_channel) k
    | inr e ↦
        rw (e, Opened.open_channel, open_channel)
          (k.0, All-put (IsKeyedChannel conn) cid _ c.channels (k.0, refl) k.1)
  ]

  close_channel-KeepsKeys : (conn rid cid : Text) → KeepsKeys conn (close_channel P rid cid)
  unfolding close_channel Opened.close_channel
  close_channel-KeepsKeys conn rid cid c w k = elim (Option-cases (find cid c.channels)) [
    | inl e ↦ rw (e, Opened.close_channel, close_channel) k
    | inr (ch, e) ↦
        rw (e, Opened.close_channel, close_channel)
          (k.0, All-erase (IsKeyedChannel conn) cid c.channels k.1)
  ]

  on_message-IsKeyed :
      (conn : Text) (now : ℕ) (m : Incoming) (s : Server P)
      → IsKeyed s.connections
      → IsKeyed (on_message P conn now m s).connections
  unfolding on_message on_open_channel on_close_channel on_heartbeat on_queue_status_request
      on_unknown_message refresh_connection refresh
  on_message-IsKeyed conn now (open_channel_request rid cid) s k =
      with_connection-IsKeyed conn now _ s (open_channel-KeepsKeys conn rid cid) k
  on_message-IsKeyed conn now (close_channel_request rid cid) s k =
      with_connection-IsKeyed conn now _ s (close_channel-KeepsKeys conn rid cid) k
  on_message-IsKeyed conn now (heartbeat_request rid) s k =
      elim (Option-cases (find conn s.connections)) [
        | inl e ↦ rw (e, refresh_connection) k
        | inr (c, e) ↦
            rw (e, refresh_connection)
              (All-put IsKeyedConnection conn _ s.connections (k conn c e) k)
      ]
  on_message-IsKeyed conn now (queue_status_request rid cid q) s k =
      with_connection-IsKeyed conn now _ s (with_channel-KeepsKeys conn cid _ (λ ch w. refl)) k
  on_message-IsKeyed conn now (channel_request r) s k = rw (on_request-handle P conn now r s) (
      with_connection-IsKeyed conn now _ s
        (with_channel-KeepsKeys conn (cid_of r) (handle P r) (handle-ref P r)) k)
  on_message-IsKeyed conn now unknown_message s k = k

  step-IsKeyed :
      (e : ServerEvent) (now : ℕ) (s : Server P)
      → IsKeyed s.connections
      → IsKeyed (step P e now s).connections
  unfolding step on_connection on_timer new_connection delete_connection connection
  step-IsKeyed (connects conn true) now s k = elim (Bool-cases (contains conn s.connections)) [
    | inl e ↦ rw (e, new_connection) k
    | inr e ↦
        rw (e, new_connection)
          (All-put IsKeyedConnection conn _ s.connections (refl, All-nil (IsKeyedChannel conn)) k)
  ]
  step-IsKeyed (connects conn false) now s k = elim (Option-cases (find conn s.connections)) [
    | inl e ↦ rw (e, delete_connection) k
    | inr (c, e) ↦ rw (e, delete_connection) (All-erase IsKeyedConnection conn s.connections k)
  ]
  step-IsKeyed (receives conn m) now s k = on_message-IsKeyed conn now m s k
  step-IsKeyed ticks now s k = k
  step-IsKeyed (pool_runs q) now s k = k

  steps-IsKeyed :
      (es : List (ServerEvent × ℕ)) (s : Server P)
      → IsKeyed s.connections
      → IsKeyed (steps P es s).connections
  unfolding steps
  steps-IsKeyed [] s k = k
  steps-IsKeyed ((e, now) ∷ es) s k = steps-IsKeyed es _ (step-IsKeyed e now s k)

  -- Whatever a new server sees, a connection and a channel stand under their own keys.
  pub run-IsKeyed :
      (disk : Dict (List ℕ)) (seq : ℕ) (es : List (ServerEvent × ℕ))
      → IsKeyed (steps P es (broker_server P disk seq)).connections
  unfolding broker_server
  run-IsKeyed disk seq es = steps-IsKeyed es _ (All-nil IsKeyedConnection)
