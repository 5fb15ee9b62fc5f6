-- ===== src/Client/Responses.antt =====
-- src/client/client.cpp: the state of a client, its handlers of the server's responses, the thread that
-- sends heartbeats and a round of the command loop. The codec is set before the client connects.
use mq_work.Common.{
  Bool, true, false, Option, none, some, List, [], ◌∷◌, ◌++◌, is_empty, if◌then◌else◌,
}
use mq_work.Common.Text.{Text, codes}
use mq_work.Proto.{Args, BasicProperties, default_properties}
use mq_work.Queue.Manager.{QueueStatus}
use mq_work.Channel.{
  Reply, common_response, consume_response, query_response, queue_status_response,
  heartbeat_response,
}
use mq_work.Server.Messages.{Incoming, heartbeat_request, channel_request}
use mq_work.Client.{sends, prints_unknown, stops_loop, does_nothing, run_line, ack_of}

-- `conn` is g_conn; `printed` is what stands on the standard output, and `sent` what was given to the
-- codec, oldest first, with its connection.
pub record ClientState : Type 0 where
  pub conn : Option Text
  pub printed : Text
  pub sent : List (Text × Incoming)

unfoldable pub on_connection : Text → Bool → ClientState → ClientState
on_connection conn connected s = record s { conn = if connected then some conn else none }

-- `std::cout << line << std::endl`
abbrev pub print_line : Text → ClientState → ClientState
print_line line s = record s { printed = s.printed ++ (line ++ b'\n' ∷ []) }

abbrev pub yes_no : Bool → Text
yes_no true = codes "true"
yes_no false = codes "false"

unfoldable pub on_common_response : Text → Bool → ClientState → ClientState
on_common_response cid ok s =
    print_line (codes "[Response] (cid=" ++ (cid ++ (codes ") OK=" ++ yes_no ok))) s

unfoldable pub on_consume_response :
    Text → Text → Text → Option BasicProperties → ClientState → ClientState
on_consume_response cid consumer_tag body properties s =
    let line =
      codes "[Message Received] consumer_tag="
      ++ (consumer_tag ++ (codes " body=\"" ++ (body ++ codes "\""))) in
    let shown = print_line line s in
    elim s.conn [
      | none ↦ shown
      | some conn ↦ elim properties [
        | none ↦ shown
        | some bp ↦ record shown {
          sent = s.sent ++ (conn, channel_request (ack_of cid consumer_tag bp)) ∷ [];
        }
      ]
    ]

unfoldable pub on_query_response : Text → ClientState → ClientState
on_query_response body s =
    print_line
      (codes "[Pulled Message] " ++ (if is_empty body then codes "(none available)" else body)) s

-- The loop over the arguments, in the order of the map.
unfoldable pub shown_args : Args → Text
shown_args [] = []
shown_args ((k, v) ∷ args) = k ++ (codes "=" ++ (v ++ (codes ", " ++ shown_args args)))

unfoldable pub on_queue_status_response : QueueStatus → ClientState → ClientState
on_queue_status_response status s =
    let details =
      codes ", durable="
      ++ (yes_no status.durable
          ++ (codes ", exclusive="
              ++ (yes_no status.exclusive
                  ++ (codes ", auto_delete="
                      ++ (yes_no status.auto_delete
                          ++ (codes ", args={" ++ (shown_args status.args ++ codes "}"))))))) in
    print_line
      (codes "[Queue Status] exists="
        ++ (yes_no status.is_there ++ (if status.is_there then details else [])))
      s

-- The dispatcher. The properties of a delivered message are those that the broker sets.
unfoldable pub on_reply : Reply → ClientState → ClientState
on_reply (common_response rid cid ok) s = on_common_response cid ok s
on_reply (consume_response cid tag body id mode key) s =
    let bp = record default_properties { id = id; delivery_mode = mode; routing_key = key } in
    on_consume_response cid tag body (some bp) s
on_reply (query_response rid cid body) s = on_query_response body s
on_reply (queue_status_response rid cid status) s = on_queue_status_response status s
on_reply (heartbeat_response rid) s = s

unfoldable pub receive : List Reply → ClientState → ClientState
receive [] s = s
receive (r ∷ rs) s = receive rs (on_reply r s)

-- One round of the thread `hb`, after its sleep.
unfoldable pub heartbeat_round : ClientState → ClientState
heartbeat_round s = elim s.conn [
  | none ↦ s
  | some conn ↦ record s { sent = s.sent ++ (conn, heartbeat_request (codes "hb")) ∷ [] }
]

-- What a round of the command loop leads to; `faults` is a request sent on a null connection.
pub data Round : Type 0 where
  goes_on : ClientState → Round
  leaves : ClientState → Round
  faults : Round

unfoldable pub command_round : Text → ClientState → Round
command_round line s =
    let prompted = record s { printed = s.printed ++ codes "MQClient> " } in
    elim (run_line line) [
      | sends m ↦ elim s.conn [
        | none ↦ faults
        | some conn ↦ goes_on (record prompted { sent = s.sent ++ (conn, m) ∷ [] })
      ]
      | prints_unknown ↦ goes_on (print_line (codes "Unknown command.") prompted)
      | does_nothing ↦ goes_on prompted
      | stops_loop ↦ leaves prompted
    ]
