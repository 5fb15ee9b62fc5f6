-- ===== src/Client.antt =====
-- src/client/client.cpp: what a line of the command loop sends to the server, and the acknowledgement
-- of a delivered message. A request is written as the server's Incoming.
pub mod Words
pub mod Commands
pub mod Responses
pub mod Session
pub mod Acks
pub mod Transcript
pub mod Outgoing
pub mod Lives
pub mod Heartbeat
use mq_work.Common.{
  ℕ, zero, suc, Bool, true, false, not, ◌||◌, ◌&&◌, Option, none, some, List, [], ◌∷◌, ◌++◌, eqb,
  leb, is_empty, if◌then◌else◌, length,
}
use mq_work.Common.Text.{Text, codes, ◌==◌, split_at}
use mq_work.Common.Dict.{put}
use mq_work.Proto.{
  ExchangeType, direct, fanout, topic, headers, Args, undurable, BasicProperties,
  default_properties,
}
use mq_work.Channel.Requests.{
  Request, declare_exchange_request, declare_queue_request, bind_request, basic_publish_request,
  basic_ack_request, basic_consume_request, basic_cancel_request, basic_query_request,
}
use mq_work.Server.Messages.{
  Incoming, open_channel_request, close_channel_request, queue_status_request, channel_request,
}

-- The blanks of the C locale.
unfoldable pub is_blank : ℕ → Bool
is_blank c = eqb c b' ' || (leb 9 c && leb c 13)

unfoldable pub skip_blanks : Text → Text
skip_blanks [] = []
skip_blanks (c ∷ s) = let rest = skip_blanks s in if is_blank c then rest else c ∷ s

unfoldable pub take_word : Text → Text × Text
take_word [] = ([], [])
take_word (c ∷ s) =
    let (word, rest) = take_word s in if is_blank c then ([], c ∷ s) else (c ∷ word, rest)

-- `iss >> word`: the word, which is empty at the end of the line, and what follows it.
unfoldable pub next_word : Text → Text × Text
unfolding skip_blanks take_word is_blank
next_word s = take_word (skip_blanks s)

-- What a line does.
pub data ClientAction : Type 0 where
  sends : Incoming → ClientAction
  prints_unknown : ClientAction
  stops_loop : ClientAction
  does_nothing : ClientAction

-- One "key=value" of the words of a message; a word with no `=` is passed over.
unfoldable pub add_header : Args → Text → Args
add_header args header_arg =
    let (k, eq) = split_at b'=' header_arg in elim eq [ none ↦ args | some v ↦ put k v args ]

-- The loop over the words of a message.
unfoldable pub headers_loop : ℕ → Args → Text → Args
headers_loop zero args s = args
headers_loop (suc fuel) args s =
    let (header_arg, rest) = next_word s in
    let more = headers_loop fuel (add_header args header_arg) rest in
    if is_empty header_arg then args else more

unfoldable pub headers_of : Text → Args
headers_of msg = headers_loop (suc (length msg)) [] msg

unfoldable pub exchange_type_of : Text → ExchangeType
exchange_type_of etype =
    if etype == codes "fanout"
    then fanout
    else if etype == codes "topic"
    then topic
    else if etype == codes "headers"
    then headers
    else direct

-- The blank between the key and the message.
abbrev pub drop_blank : Text → Text
drop_blank [] = []
drop_blank (c ∷ s) = if eqb c b' ' then s else c ∷ s

unfoldable pub open_command : Text → ClientAction
open_command s =
    let (cid, _) = next_word s in sends (open_channel_request (codes "cli-open-" ++ cid) cid)

unfoldable pub close_command : Text → ClientAction
close_command s =
    let (cid, _) = next_word s in sends (close_channel_request (codes "cli-close-" ++ cid) cid)

unfoldable pub exchange_declare_command : Text → ClientAction
exchange_declare_command s =
    let (ename, s1) = next_word s in
    let (etype, _) = next_word s1 in
    sends (
      channel_request (
        declare_exchange_request (codes "cli-exdec-" ++ ename) (codes "0") ename
          (exchange_type_of etype) false false []))

unfoldable pub queue_declare_command : Text → ClientAction
queue_declare_command s =
    let (qname, _) = next_word s in
    sends (
      channel_request
        (declare_queue_request (codes "cli-qdec-" ++ qname) (codes "0") qname false false false []))

-- The request has no field for the arguments that the client reads behind the key.
unfoldable pub bind_command : Text → ClientAction
bind_command s =
    let (exch, s1) = next_word s in
    let (qname, s2) = next_word s1 in
    let (key, _) = next_word s2 in
    sends (
      channel_request (
        bind_request (codes "cli-bind-" ++ (exch ++ (codes "-" ++ qname))) (codes "0") exch qname
          key))

unfoldable pub publish_properties : Text → Text → Option BasicProperties
publish_properties rkey msg =
    let props = record default_properties {
      routing_key = rkey;
      delivery_mode = undurable;
      headers = headers_of msg;
    } in
    if not (is_empty rkey) then some props else none

unfoldable pub publish_command : Text → ClientAction
publish_command s =
    let (exch, s1) = next_word s in
    let (rkey, line) = next_word s1 in
    let msg = drop_blank line in
    sends (
      channel_request (
        basic_publish_request (codes "cli-pub-" ++ exch) (codes "0") exch
          (publish_properties rkey msg) msg))

unfoldable pub pull_command : Text → ClientAction
pull_command s =
    let (cid, _) = next_word s in
    sends (channel_request (basic_query_request (codes "cli-query-" ++ cid) cid))

unfoldable pub consume_command : Text → ClientAction
consume_command s =
    let (cid, s1) = next_word s in
    let (qname, s2) = next_word s1 in
    let (tag, _) = next_word s2 in
    sends (channel_request (basic_consume_request (codes "cli-consume-" ++ cid) cid tag qname true))

unfoldable pub cancel_command : Text → ClientAction
cancel_command s =
    let (cid, s1) = next_word s in
    let (tag, s2) = next_word s1 in
    let (qname, _) = next_word s2 in
    sends (channel_request (basic_cancel_request (codes "cli-cancel-" ++ cid) cid tag qname))

unfoldable pub queue_status_command : Text → ClientAction
queue_status_command s =
    let (cid, s1) = next_word s in
    let (qname, _) = next_word s1 in
    sends (queue_status_request (codes "cli-qstatus-" ++ qname) cid qname)

-- The choice by the first word.
unfoldable pub dispatch : Text → Text → ClientAction
dispatch cmd s =
    if cmd == codes "open"
    then open_command s
    else if cmd == codes "close"
    then close_command s
    else if cmd == codes "exchange_declare"
    then exchange_declare_command s
    else if cmd == codes "queue_declare"
    then queue_declare_command s
    else if cmd == codes "bind"
    then bind_command s
    else if cmd == codes "publish"
    then publish_command s
    else if cmd == codes "pull"
    then pull_command s
    else if cmd == codes "consume"
    then consume_command s
    else if cmd == codes "cancel"
    then cancel_command s
    else if cmd == codes "queue_status"
    then queue_status_command s
    else if cmd == codes "exit"
    then stops_loop
    else prints_unknown

-- One round of the loop, on the line that was read.
unfoldable pub run_line : Text → ClientAction
run_line line =
    let (cmd, s) = next_word line in if is_empty line then does_nothing else dispatch cmd s

-- The acknowledgement that `onConsumeResponse` makes for a delivered message.
unfoldable pub ack_of : Text → Text → BasicProperties → Request
ack_of cid consumer_tag bp =
    basic_ack_request (consumer_tag ++ (codes "-ack-" ++ bp.id)) cid consumer_tag bp.id
