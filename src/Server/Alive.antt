-- ===== src/Server/Alive.antt =====
-- src/server/broker_server.cpp: what tells a connection to shut down.
use mq_work.Common.{
  ℕ, ◌+◌, ◌≤◌, Bool-cases, ◌⊎◌, ◌≡◌, refl, ◌∙◌, ap, Bool, true, false, not, ◌||◌, ◌&&◌, [], ◌∷◌,
  inl, inr, Option-cases, some, arith,
}
use mq_work.Common.Text.{Text, listed, listed-append, ◌==◌, eq_iff}
use mq_work.Common.Dict.{find, DistinctKeys}
use mq_work.Platform.{Platform}
use mq_work.Channel.{World}
use mq_work.Connection.{Connection, seconds}
use mq_work.Connection.Manager.{select_connection}
use mq_work.Connection.Timeout.{listed-check_timeout}
use mq_work.Server.{
  Server, with_connection, on_timer, on_connection, on_unknown_message, on_open_channel,
  on_close_channel, on_heartbeat, on_queue_status_request,
}
use mq_work.Server.Messages.{
  Incoming, open_channel_request, close_channel_request, heartbeat_request, queue_status_request,
  channel_request, unknown_message, ServerEvent, connects, receives, ticks, pool_runs, on_message,
  step,
}
use mq_work.Server.Handlers.{on_request-handle}
use mq_work.Server.Distinct.{step-DistinctKeys}
use mq_work.Server.Lifetime.{is_late, is_sign, idle-late, active, step-active, beat}

-- Neither the end of this connection nor an unknown message on it.
abbrev pub is_harmless : Text → ServerEvent → Bool
is_harmless conn (connects k false) = not (k == conn)
is_harmless conn (receives k m) = not (k == conn) || is_sign m
is_harmless conn e = true

-- A harmless event leaves the time of the last sign of life, or makes it the present.
beat-harmless :
    (conn : Text) (e : ServerEvent) (now t : ℕ)
    → is_harmless conn e ≡ true
    → (beat conn e now (some t) ≡ some t) ⊎ (beat conn e now (some t) ≡ some now)
beat-harmless conn (connects k true) now t b = inl refl
beat-harmless conn (connects k false) now t b = inl (ground (arith, b))
beat-harmless conn (receives k m) now t b = elim (Bool-cases ((k == conn) && is_sign m)) [
  | inl e ↦ inr (rw e refl)
  | inr e ↦ inl (rw e refl)
]
beat-harmless conn ticks now t b = inl refl
beat-harmless conn (pool_runs q) now t b = inl refl

-- A connection that was not told to shut down, and gave its last sign of life at or after `from`.
pub record IsAwake (P : Platform) (conn : Text) (from now : ℕ) (s : Server P) : Type 0 where
  pub distinct : DistinctKeys s.connections
  pub quiet : listed conn s.shut ≡ false
  pub last : ℕ
  pub beating : active P conn s ≡ some last
  pub since : from ≤ last
  pub until : last ≤ now

module _ (P : Platform) where
  with_connection-shut :
      (conn k : Text) (now : ℕ) (f : Connection → World P → Connection × World P) (s : Server P)
      (t : ℕ)
      → active P conn s ≡ some t
      → listed conn s.shut ≡ false
      → listed conn (with_connection P k now f s).shut ≡ false
  unfolding with_connection select_connection listed
  with_connection-shut conn k now f s t a h = elim (Option-cases (find k s.connections)) [
    | inl e ↦
        rw (e, with_connection)
          (listed-append conn s.shut (k ∷ []) ∙ ground (arith, eq_iff k conn, e, a, h))
    | inr (c, e) ↦ rw (e, with_connection) h
  ]

  on_message-shut :
      (conn k : Text) (now : ℕ) (m : Incoming) (s : Server P) (t : ℕ)
      → active P conn s ≡ some t
      → is_harmless conn (receives k m) ≡ true
      → listed conn s.shut ≡ false
      → listed conn (on_message P k now m s).shut ≡ false
  unfolding on_message on_open_channel on_close_channel on_heartbeat on_queue_status_request
      on_unknown_message listed
  on_message-shut conn k now (open_channel_request rid cid) s t a b h =
      with_connection-shut conn k now _ s t a h
  on_message-shut conn k now (close_channel_request rid cid) s t a b h =
      with_connection-shut conn k now _ s t a h
  on_message-shut conn k now (heartbeat_request rid) s t a b h = h
  on_message-shut conn k now (queue_status_request rid cid q) s t a b h =
      with_connection-shut conn k now _ s t a h
  on_message-shut conn k now (channel_request r) s t a b h =
      rw (on_request-handle P k now r s) (with_connection-shut conn k now _ s t a h)
  on_message-shut conn k now unknown_message s t a b h =
      listed-append conn s.shut (k ∷ []) ∙ ground (arith, b, h)

  -- A connected client that gave a sign of life within the last thirty seconds is not told to shut
  -- down, unless it sends a message that the dispatcher does not know.
  pub step-shut :
      (conn : Text) (e : ServerEvent) (now t : ℕ) (s : Server P)
      → DistinctKeys s.connections
      → active P conn s ≡ some t
      → is_late now (some t) ≡ false
      → is_harmless conn e ≡ true
      → listed conn s.shut ≡ false
      → listed conn (step P e now s).shut ≡ false
  unfolding step on_connection on_timer
  step-shut conn (connects k true) now t s d a l b h = h
  step-shut conn (connects k false) now t s d a l b h = h
  step-shut conn (receives k m) now t s d a l b h = on_message-shut conn k now m s t a b h
  step-shut conn ticks now t s d a l b h =
      let silent =
        listed-check_timeout (seconds 30) now s.connections conn d
        ∙ (idle-late now (find conn s.connections) ∙ (ap (is_late now) a ∙ l)) in
      listed-append conn s.shut _ ∙ ground (arith, silent, h)
  step-shut conn (pool_runs q) now t s d a l b h = h

  pub step-IsAwake :
      (conn : Text) (e : ServerEvent) (from now : ℕ) (s : Server P)
      → is_harmless conn e ≡ true
      → now ≤ from + seconds 30
      → IsAwake P conn from now s
      → IsAwake P conn from now (step P e now s)
  step-IsAwake conn e from now s b n a =
      let early : is_late now (some a.last) ≡ false = ground (arith, n, a.since) in
      let distinct = step-DistinctKeys P e now s a.distinct in
      let quiet = step-shut conn e now a.last s a.distinct a.beating early b a.quiet in
      let beat_now = step-active P conn e now s ∙ ap (beat conn e now) a.beating in
      elim (beat-harmless conn e now a.last b) [
        | inl same ↦ record {
          distinct = distinct;
          quiet = quiet;
          last = a.last;
          beating = beat_now ∙ same;
          since = a.since;
          until = a.until;
        }
        | inr fresh ↦ record {
          distinct = distinct;
          quiet = quiet;
          last = now;
          beating = beat_now ∙ fresh;
          since = omega (arith, a.since, a.until);
          until = omega arith;
        }
      ]
