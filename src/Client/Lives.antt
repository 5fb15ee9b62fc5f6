-- ===== src/Client/Lives.antt =====
-- A client of src/client/client.cpp beside the server, with the time: the steps of both.
use mq_work.Common.{ℕ, ◌≡◌, ◌+◌, ◌≤◌, Bool, true, false, not, none, List, [], ◌∷◌, length, drop}
use mq_work.Common.Text.{Text, listed, ◌==◌}
use mq_work.Common.Dict.{find, DistinctKeys}
use mq_work.Platform.{Platform}
use mq_work.Connection.{seconds}
use mq_work.Server
use mq_work.Server.{Server}
use mq_work.Server.Messages.{Incoming, ServerEvent, connects, receives, step, steps}
use mq_work.Client.Responses.{ClientState, on_connection, heartbeat_round}
use mq_work.Client.Outgoing.{Moves}

-- Nothing that this connection does.
abbrev pub is_elsewhere : Text → ServerEvent → Bool
is_elsewhere conn (connects k connected) = not (k == conn)
is_elsewhere conn (receives k m) = not (k == conn)
is_elsewhere conn e = true

abbrev pub arrivals : ℕ → List (Text × Incoming) → List (ServerEvent × ℕ)
arrivals now [] = []
arrivals now ((k, m) ∷ ms) = (receives k m, now) ∷ arrivals now ms

-- The events on the server of what the client has sent in between.
abbrev pub sent_between : ClientState → ClientState → ℕ → List (ServerEvent × ℕ)
sent_between before after now = arrivals now (drop (length before.sent) after.sent)

-- A client and a server, the time, and the time until which the next heartbeat arrives: five
-- seconds after the one before, and `late` for the thread to wake up and the message to travel. The
-- command `exit`, which disconnects, has no step: a life ends there.
pub data Lives (P : Platform) (conn : Text) (late : ℕ)
    : ClientState → Server P → ℕ → ℕ → Type 0 where
  joins :
      (cl : ClientState) (s : Server P) (now : ℕ)
      → find conn s.connections ≡ none
      → DistinctKeys s.connections
      → listed conn s.shut ≡ false
      → Lives P conn late
          (on_connection conn true cl)
          (Server.on_connection P conn true now s)
          now
          (now + (seconds 5 + late))
  waits :
      (d : ℕ) {cl : ClientState} {s : Server P} {now due : ℕ}
      → Lives P conn late cl s now due
      → now + d ≤ due
      → Lives P conn late cl s (now + d) due
  beats :
      {cl : ClientState} {s : Server P} {now due : ℕ}
      → Lives P conn late cl s now due
      → Lives P conn late
          (heartbeat_round cl)
          (steps P (sent_between cl (heartbeat_round cl) now) s)
          now
          (now + (seconds 5 + late))
  moves :
      {cl cl' : ClientState} {s : Server P} {now due : ℕ}
      → Lives P conn late cl s now due
      → Moves cl cl'
      → Lives P conn late cl' (steps P (sent_between cl cl' now) s) now due
  happens :
      (e : ServerEvent) {cl : ClientState} {s : Server P} {now due : ℕ}
      → Lives P conn late cl s now due
      → is_elsewhere conn e ≡ true
      → Lives P conn late cl (step P e now s) now due
