-- ===== src/Tests/ClientExamples.antt =====
-- Applications of the theorems on src/client/client.cpp.
use mq_work.Common.{◌≡◌, refl, none, some, map, List, [], ◌∷◌, ◌++◌, if◌then◌else◌}
use mq_work.Common.Text.{codes, ◌==◌}
use mq_work.Common.Dict.{find}
use mq_work.Connection.{Connection}
use mq_work.Server.{Server}
use mq_work.Client.{is_blank, run_line}
use mq_work.Client.Responses.{ClientState, on_consume_response, receive}
use mq_work.Client.Transcript.{three_lines, addressed, session-receive}
use mq_work.Channel.{Reply}
use mq_work.Channel.Requests.{Request, handle}
use mq_work.Server.Messages.{channel_request}
use mq_work.Client.Words.{IsWord, lacks_blanks}
use mq_work.Client.Commands.{Command, publishes, typed, action_of, run_line-typed}
use mq_work.Client.Session.{session}
use mq_work.Client.Acks.{on_consume_response-basic_ack}
use mq_work.Storage.Refinement.{acked}
use mq_work.Host.Delivery.{queue_contents}
use mq_work.Tests.SamplePlatform.{sample, work, keyed_work}
use mq_work.Tests.ChannelExamples.{ready, channel}

abbrev news : Command
news = publishes (codes "news") (codes "a.b") (codes "k=v" ∷ codes "hello" ∷ [])

run_line-typed_example : run_line (typed news) ≡ action_of news
unfolding lacks_blanks is_blank
run_line-typed_example =
    run_line-typed news ((refl, refl), ((refl, refl), ((refl, refl), ((refl, refl), tt))))

-- A client that has connected, and opened nothing.
abbrev fresh : Connection
fresh = record { conn = codes "tcp"; channels = []; last_active = 0 }

abbrev server : Server sample
server = record { broker = ready; connections = (codes "tcp", fresh) ∷ []; shut = [] }

fresh-found : find (codes "tcp") server.connections ≡ some fresh
unfolding find ◌==◌
fresh-found = refl

nothing-open : find (codes "0") fresh.channels ≡ none
unfolding find
nothing-open = refl

jobs-IsWord : IsWord (codes "jobs")
unfolding lacks_blanks is_blank
jobs-IsWord = (refl, refl)

jobs-new : find (codes "jobs") server.broker.host.queue_mgr ≡ none
unfolding find ◌==◌
jobs-new = refl

abbrev started : ClientState
started = record { conn = some (codes "tcp"); printed = codes "MQClient> "; sent = [] }

session-receive_example :
    let text =
      codes "[Response] (cid=0) OK=true\n[Response] (cid=0) OK=true\n"
      ++ codes
          "[Queue Status] exists=true, durable=false, exclusive=false, auto_delete=false, args={}\n" in
    (replies : List Reply) × ((session sample
        (codes "tcp")
        5
        (three_lines (codes "jobs"))
        server).broker.sent
      ≡ server.broker.sent ++ map (addressed (codes "tcp")) replies)
    × ((receive replies started).printed ≡ started.printed ++ text)
session-receive_example =
    session-receive sample (codes "tcp") (codes "jobs") 5 server fresh started fresh-found refl
      nothing-open jobs-new jobs-IsWord

-- The tag of this consumer is not the name of its queue.
on_consume_response-basic_ack_example :
    let cl' =
      on_consume_response (codes "c1") (codes "t") (codes "hello") (some keyed_work) started in
    (r : Request) × (cl'.sent ≡ started.sent ++ (codes "tcp", channel_request r) ∷ [])
    × (queue_contents work (handle sample r channel ready).1.host ≡ (
        if codes "t" == work
        then acked keyed_work.id (queue_contents work ready.host)
        else queue_contents work ready.host))
on_consume_response-basic_ack_example =
    on_consume_response-basic_ack sample started (codes "tcp") channel (codes "c1") (codes "t")
      (codes "hello") keyed_work ready work refl
