-- ===== src/Tests/HeartbeatExamples.antt =====
-- Applications of the theorems on the responses and the heartbeats of src/client/client.cpp.
use mq_work.Common.{◌≡◌, refl, ℕ, ◌+◌, arith, true, false, none, some, [], ◌∷◌}
use mq_work.Common.Text.{Text, codes, listed, ◌==◌}
use mq_work.Common.Dict.{find, contains}
use mq_work.Connection.{seconds}
use mq_work.Server.{Server, broker_server}
use mq_work.Server.Messages.{heartbeat_request, open_channel_request, ticks, step, steps}
use mq_work.Server
use mq_work.Client.{is_blank, run_line, dispatch, open_command, next_word, take_word, skip_blanks}
use mq_work.Client.Responses.{ClientState, on_connection, heartbeat_round, command_round, goes_on}
use mq_work.Client.Outgoing.{types}
use mq_work.Client.Heartbeat.{Lives-quiet}
use mq_work.Client.Lives.{Lives, joins, waits, beats, moves, happens, sent_between}
use mq_work.Tests.SamplePlatform.{sample}

abbrev tcp : Text
tcp = codes "tcp"

abbrev started : ClientState
started = record { conn = none; printed = []; sent = [] }

abbrev server : Server sample
server = broker_server sample [] 0

abbrev late : ℕ
late = seconds 2

abbrev joined : ClientState
joined = on_connection tcp true started

abbrev beaten : ClientState
beaten = heartbeat_round joined

-- The user has typed `open 1`.
abbrev opened : ClientState
opened = record {
  conn = some tcp;
  printed = codes "MQClient> ";
  sent =
      (tcp, heartbeat_request (codes "hb"))
      ∷ (tcp, open_channel_request (codes "cli-open-1") (codes "1"))
      ∷ [];
}

opened-typed : command_round (codes "open 1") beaten ≡ goes_on opened
unfolding command_round run_line dispatch open_command next_word take_word skip_blanks is_blank ◌==◌
    heartbeat_round on_connection
opened-typed = refl

abbrev arrived : Server sample
arrived = mq_work.Server.on_connection sample tcp true (seconds 1) server

abbrev heard : Server sample
heard = steps sample (sent_between joined beaten (seconds 1 + seconds 6)) arrived

abbrev served : Server sample
served = steps sample (sent_between beaten opened (seconds 1 + seconds 6)) heard

first : Lives sample tcp late joined arrived (seconds 1) (seconds 1 + (seconds 5 + late))
unfolding find listed broker_server
first = joins started server (seconds 1) refl tt refl

-- It sends its first heartbeat a second late, opens a channel, and meets the timer.
life :
    Lives sample tcp late opened
      (step sample ticks (seconds 1 + seconds 6 + seconds 6) served)
      (seconds 1 + seconds 6 + seconds 6)
      (seconds 1 + seconds 6 + (seconds 5 + late))
life =
    happens ticks
      (waits (seconds 6)
        (moves (beats (waits (seconds 6) first (omega arith)))
          (types (codes "open 1") opened-typed))
        (omega arith))
      refl

Lives-quiet_example :
    let s = step sample ticks (seconds 1 + seconds 6 + seconds 6) served in
    (listed tcp s.shut ≡ false) × (contains tcp s.connections ≡ true)
Lives-quiet_example = Lives-quiet sample tcp late (omega arith) life
