-- ===== src/Server/Distinct.antt =====
-- src/server/broker_server.cpp: no connection is in the map of connections twice.
use mq_work.Common.{ℕ, true, false, List, [], ◌∷◌, inl, inr, Option-cases}
use mq_work.Common.Text.{Text}
use mq_work.Common.Dict.{find, DistinctKeys, DistinctKeys-put, DistinctKeys-erase}
use mq_work.Platform.{Platform}
use mq_work.Channel.{World}
use mq_work.Connection.{Connection}
use mq_work.Connection.Manager.{
  new_connection, delete_connection, select_connection, refresh_connection,
}
use mq_work.Server.{
  Server, with_connection, on_timer, on_connection, on_unknown_message, on_open_channel,
  on_close_channel, on_heartbeat, on_queue_status_request,
}
use mq_work.Server.Messages.{
  Incoming, open_channel_request, close_channel_request, heartbeat_request, queue_status_request,
  channel_request, unknown_message, ServerEvent, connects, receives, ticks, pool_runs, on_message,
  step, steps,
}
use mq_work.Server.Handlers.{on_request-handle}

module _ (P : Platform) where
  with_connection-DistinctKeys :
      (k : Text) (now : ℕ) (f : Connection → World P → Connection × World P) (s : Server P)
      → DistinctKeys s.connections
      → DistinctKeys (with_connection P k now f s).connections
  unfolding with_connection select_connection
  with_connection-DistinctKeys k now f s d = elim (Option-cases (find k s.connections)) [
    | inl e ↦ rw (e, with_connection) d
    | inr (c, e) ↦ rw (e, with_connection) (DistinctKeys-put k _ s.connections d)
  ]

  on_message-DistinctKeys :
      (k : Text) (now : ℕ) (m : Incoming) (s : Server P)
      → DistinctKeys s.connections
      → DistinctKeys (on_message P k now m s).connections
  unfolding on_message on_open_channel on_close_channel on_heartbeat on_queue_status_request
      on_unknown_message refresh_connection
  on_message-DistinctKeys k now (open_channel_request rid cid) s d =
      with_connection-DistinctKeys k now _ s d
  on_message-DistinctKeys k now (close_channel_request rid cid) s d =
      with_connection-DistinctKeys k now _ s d
  on_message-DistinctKeys k now (heartbeat_request rid) s d =
      elim (Option-cases (find k s.connections)) [
        | inl e ↦ rw (e, refresh_connection) d
        | inr (c, e) ↦ rw (e, refresh_connection) (DistinctKeys-put k _ s.connections d)
      ]
  on_message-DistinctKeys k now (queue_status_request rid cid q) s d =
      with_connection-DistinctKeys k now _ s d
  on_message-DistinctKeys k now (channel_request r) s d =
      rw (on_request-handle P k now r s) (with_connection-DistinctKeys k now _ s d)
  on_message-DistinctKeys k now unknown_message s d = d

  pub step-DistinctKeys :
      (e : ServerEvent) (now : ℕ) (s : Server P)
      → DistinctKeys s.connections
      → DistinctKeys (step P e now s).connections
  unfolding step on_connection on_timer new_connection delete_connection
  step-DistinctKeys (connects k true) now s d = elim (Option-cases (find k s.connections)) [
    | inl e ↦ rw (e, new_connection) (DistinctKeys-put k _ s.connections d)
    | inr (c, e) ↦ rw (e, new_connection) d
  ]
  step-DistinctKeys (connects k false) now s d = elim (Option-cases (find k s.connections)) [
    | inl e ↦ rw (e, delete_connection) d
    | inr (c, e) ↦ rw (e, delete_connection) (DistinctKeys-erase k s.connections d)
  ]
  step-DistinctKeys (receives k m) now s d = on_message-DistinctKeys k now m s d
  step-DistinctKeys ticks now s d = d
  step-DistinctKeys (pool_runs q) now s d = d

  pub steps-DistinctKeys :
      (es : List (ServerEvent × ℕ)) (s : Server P)
      → DistinctKeys s.connections
      → DistinctKeys (steps P es s).connections
  unfolding steps
  steps-DistinctKeys [] s d = d
  steps-DistinctKeys ((e, now) ∷ es) s d = steps-DistinctKeys es _ (step-DistinctKeys e now s d)
