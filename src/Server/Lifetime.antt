-- ===== src/Server/Lifetime.antt =====
-- src/server/broker_server.cpp and src/server/connection.cpp: how long a connection lives.
use mq_work.Common.{
  ℕ, ◌≡◌, refl, ◌∙◌, ap, Bool, true, false, List, [], ◌∷◌, inl, inr, Option-cases, Option, none,
  some, ltb, ◌&&◌, if◌then◌else◌, ◌-◌, ◌++◌, arith,
}
use mq_work.Common.Text.{Text, listed, ◌==◌, eq_iff}
use mq_work.Common.Dict.{Dict, find, find-put, find-erase}
use mq_work.Platform.{Platform}
use mq_work.Channel.{Channel, World}
use mq_work.Channel.Opened.{Channels}
use mq_work.Channel.Opened
use mq_work.Channel.Requests.{handle, cid_of}
use mq_work.Connection.{
  Connection, connection, refresh, open_channel, close_channel, select_channel, seconds,
}
use mq_work.Connection.Manager.{
  new_connection, delete_connection, select_connection, refresh_connection, check_timeout,
}
use mq_work.Server.{
  Server, broker_server, with_connection, with_channel, on_timer, on_connection, on_unknown_message,
  on_open_channel, on_close_channel, on_heartbeat, on_queue_status_request,
}
use mq_work.Server.Messages.{
  Incoming, open_channel_request, close_channel_request, heartbeat_request, queue_status_request,
  channel_request, unknown_message, ServerEvent, connects, receives, ticks, pool_runs, on_message,
  step, steps,
}
use mq_work.Server.Handlers.{on_request-handle}
use mq_work.Connection.Timeout.{is_idle, listed-check_timeout}
use mq_work.Server.Distinct.{steps-DistinctKeys}

abbrev pub last_active_of : Option Connection → Option ℕ
last_active_of none = none
last_active_of (some c) = some c.last_active

-- Does the message refresh the connection?
abbrev pub is_sign : Incoming → Bool
is_sign unknown_message = false
is_sign m = true

-- The time of the last sign of life of this connection, if it is connected: being connected, and
-- every message that the dispatcher knows.
abbrev pub beat : Text → ServerEvent → ℕ → Option ℕ → Option ℕ
beat conn (connects k true) now none = if k == conn then some now else none
beat conn (connects k true) now (some t) = some t
beat conn (connects k false) now t = if k == conn then none else t
beat conn (receives k m) now none = none
beat conn (receives k m) now (some t) = if (k == conn) && is_sign m then some now else some t
beat conn e now t = t

abbrev pub beats : Text → List (ServerEvent × ℕ) → Option ℕ → Option ℕ
beats conn [] t = t
beats conn ((e, now) ∷ es) t = beats conn es (beat conn e now t)

-- Are the thirty seconds over, counted from this time?
abbrev pub is_late : ℕ → Option ℕ → Bool
is_late now none = false
is_late now (some t) = ltb (seconds 30) (now - t)

pub idle-late :
    (now : ℕ) (c : Option Connection) → is_idle (seconds 30) now c ≡ is_late now (last_active_of c)
idle-late now none = refl
idle-late now (some c) = refl

module _ (P : Platform) where
  -- A handler that does not touch the time.
  abbrev KeepsTime : (Connection → World P → Connection × World P) → Type 0
  KeepsTime f = (c : Connection) (w : World P) → (f c w).0.last_active ≡ c.last_active

  abbrev pub active : Text → Server P → Option ℕ
  active conn s = last_active_of (find conn s.connections)

  with_connection-active :
      (conn k : Text) (now : ℕ) (f : Connection → World P → Connection × World P) (s : Server P)
      → KeepsTime f
      → active conn (with_connection P k now f s)
        ≡ beat conn (receives k (heartbeat_request [])) now (active conn s)
  unfolding with_connection select_connection refresh
  with_connection-active conn k now f s keeps = elim (Option-cases (find k s.connections)) [
    | inl e ↦ rw (e, with_connection) (ground (arith, eq_iff k conn, e))
    | inr (c, e) ↦
        rw (e, with_connection)
          (ground (
            arith,
            find-put k conn (f (refresh now c) s.broker).0 s.connections,
            eq_iff k conn,
            keeps (refresh now c) s.broker,
            e,
          ))
  ]

  with_channel-KeepsTime :
      (cid : Text) (f : Channel → World P → Channel × World P)
      → KeepsTime (λ c w. with_channel P cid f c w)
  unfolding with_channel select_channel Opened.select_channel
  with_channel-KeepsTime cid f c w = elim (Option-cases (find cid c.channels)) [
    | inl e ↦ rw (e, with_channel) refl
    | inr (ch, e) ↦ rw (e, with_channel) refl
  ]

  on_message-active :
      (conn k : Text) (now : ℕ) (m : Incoming) (s : Server P)
      → active conn (on_message P k now m s) ≡ beat conn (receives k m) now (active conn s)
  unfolding on_message on_open_channel on_close_channel on_heartbeat on_queue_status_request
      on_unknown_message refresh_connection refresh open_channel close_channel
  on_message-active conn k now (open_channel_request rid cid) s =
      with_connection-active conn k now _ s (λ c w. refl)
  on_message-active conn k now (close_channel_request rid cid) s =
      with_connection-active conn k now _ s (λ c w. refl)
  on_message-active conn k now (heartbeat_request rid) s =
      elim (Option-cases (find k s.connections)) [
        | inl e ↦ rw (e, refresh_connection) (ground (arith, eq_iff k conn, e))
        | inr (c, e) ↦
            rw (e, refresh_connection)
              (ground (arith, eq_iff k conn, e, find-put k conn (refresh now c) s.connections))
      ]
  on_message-active conn k now (queue_status_request rid cid q) s =
      with_connection-active conn k now _ s (with_channel-KeepsTime cid _)
  on_message-active conn k now (channel_request r) s =
      rw (on_request-handle P k now r s)
        (with_connection-active conn k now _ s (with_channel-KeepsTime (cid_of r) (handle P r)))
  on_message-active conn k now unknown_message s = elim (Option-cases (find conn s.connections)) [
    | inl e ↦ rw e refl
    | inr (c, e) ↦ rw e (ground arith)
  ]

  pub step-active :
      (conn : Text) (e : ServerEvent) (now : ℕ) (s : Server P)
      → active conn (step P e now s) ≡ beat conn e now (active conn s)
  unfolding step on_connection on_timer new_connection delete_connection connection
  step-active conn (connects k true) now s = elim (Option-cases (find k s.connections)) [
    | inl e ↦
        rw (e, new_connection)
          (ground (arith, eq_iff k conn, e, find-put k conn (connection k now) s.connections))
    | inr (c, e) ↦ rw (e, new_connection) (ground (arith, eq_iff k conn, e))
  ]
  step-active conn (connects k false) now s = elim (Option-cases (find k s.connections)) [
    | inl e ↦ rw (e, delete_connection) (ground (arith, eq_iff k conn, e))
    | inr (c, e) ↦
        rw (e, delete_connection)
          (ground (arith, eq_iff k conn, e, find-erase k conn s.connections))
  ]
  step-active conn (receives k m) now s = on_message-active conn k now m s
  step-active conn ticks now s = refl
  step-active conn (pool_runs q) now s = refl

  steps-active :
      (conn : Text) (es : List (ServerEvent × ℕ)) (s : Server P)
      → active conn (steps P es s) ≡ beats conn es (active conn s)
  unfolding steps
  steps-active conn [] s = refl
  steps-active conn ((e, now) ∷ es) s =
      steps-active conn es (step P e now s) ∙ ap (beats conn es) (step-active conn e now s)

  -- After any history, the timer shuts down exactly the connected clients whose last sign of life is
  -- more than thirty seconds ago. Being connected, every request and every heartbeat are signs of
  -- life, unknown messages are not.
  pub listed-run :
      (disk : Dict (List ℕ)) (seq : ℕ) (es : List (ServerEvent × ℕ)) (now : ℕ) (conn : Text)
      → let s = steps P es (broker_server P disk seq) in
        ((on_timer P now s).shut ≡ s.shut ++ check_timeout (seconds 30) now s.connections)
        × (listed conn (check_timeout (seconds 30) now s.connections)
            ≡ is_late now (beats conn es none))
  unfolding broker_server on_timer find
  listed-run disk seq es now conn =
      let s0 = broker_server P disk seq in
      let s = steps P es s0 in
      let beat = steps-active conn es s0 in
      (
        refl,
        listed-check_timeout (seconds 30) now s.connections conn (steps-DistinctKeys P es s0 tt)
            ∙ idle-late now (find conn s.connections)
            ∙ ap (is_late now) beat,
      )
