-- ===== src/Client/Commands.antt =====
-- The commands that src/client/client.cpp lists when it starts, as they are typed and as they are sent.
use mq_work.Common.{◌≡◌, refl, ◌∙◌, true, false, some, List, [], ◌∷◌, ◌++◌}
use mq_work.Common.Text.{Text, codes, ◌==◌}
use mq_work.Proto.{ExchangeType, direct, fanout, topic, headers, default_properties}
use mq_work.Channel.Requests.{
  declare_exchange_request, declare_queue_request, bind_request, basic_publish_request,
  basic_consume_request, basic_cancel_request, basic_query_request,
}
use mq_work.Server.Messages.{
  open_channel_request, close_channel_request, queue_status_request, channel_request,
}
use mq_work.Client.{
  ClientAction, sends, stops_loop, is_blank, skip_blanks, take_word, next_word, run_line, dispatch,
  exchange_type_of, open_command, close_command, exchange_declare_command, queue_declare_command,
  bind_command, publish_command, pull_command, consume_command, cancel_command,
  queue_status_command, publish_properties, drop_blank,
}
use mq_work.Client.Words.{
  AreWords, joined, unwords, add_headers, next_word-joined, headers_of-unwords,
}

pub data Command : Type 0 where
  opens : (cid : Text) → Command
  closes : (cid : Text) → Command
  declares_exchange : (name : Text) → ExchangeType → Command
  declares_queue : (name : Text) → Command
  asks_status : (cid queue : Text) → Command
  binds : (exch queue binding_key : Text) → Command
  publishes : (exch routing_key : Text) (message : List Text) → Command
  pulls : (cid : Text) → Command
  consumes : (cid queue consumer_tag : Text) → Command
  cancels : (cid consumer_tag queue : Text) → Command
  exits : Command

abbrev type_name : ExchangeType → Text
type_name direct = codes "direct"
type_name fanout = codes "fanout"
type_name topic = codes "topic"
type_name headers = codes "headers"

abbrev pub name_of : Command → Text
name_of (opens _) = codes "open"
name_of (closes _) = codes "close"
name_of (declares_exchange _ _) = codes "exchange_declare"
name_of (declares_queue _) = codes "queue_declare"
name_of (asks_status _ _) = codes "queue_status"
name_of (binds _ _ _) = codes "bind"
name_of (publishes _ _ _) = codes "publish"
name_of (pulls _) = codes "pull"
name_of (consumes _ _ _) = codes "consume"
name_of (cancels _ _ _) = codes "cancel"
name_of exits = codes "exit"

abbrev pub arguments_of : Command → List Text
arguments_of (opens cid) = cid ∷ []
arguments_of (closes cid) = cid ∷ []
arguments_of (declares_exchange name type) = name ∷ type_name type ∷ []
arguments_of (declares_queue name) = name ∷ []
arguments_of (asks_status cid queue) = cid ∷ queue ∷ []
arguments_of (binds exch queue key) = exch ∷ queue ∷ key ∷ []
arguments_of (publishes exch key message) = exch ∷ key ∷ message
arguments_of (pulls cid) = cid ∷ []
arguments_of (consumes cid queue tag) = cid ∷ queue ∷ tag ∷ []
arguments_of (cancels cid tag queue) = cid ∷ tag ∷ queue ∷ []
arguments_of exits = []

-- The line that is typed.
abbrev pub typed : Command → Text
typed c = name_of c ++ joined (arguments_of c)

-- The request that the command stands for. Those that name no channel go to the channel "0".
abbrev pub action_of : Command → ClientAction
action_of (opens cid) = sends (open_channel_request (codes "cli-open-" ++ cid) cid)
action_of (closes cid) = sends (close_channel_request (codes "cli-close-" ++ cid) cid)
action_of (declares_exchange name type) = sends (
    channel_request
      (declare_exchange_request (codes "cli-exdec-" ++ name) (codes "0") name type false false []))
action_of (declares_queue name) = sends (
    channel_request
      (declare_queue_request (codes "cli-qdec-" ++ name) (codes "0") name false false false []))
action_of (asks_status cid queue) =
    sends (queue_status_request (codes "cli-qstatus-" ++ queue) cid queue)
action_of (binds exch queue key) = sends (
    channel_request (
      bind_request (codes "cli-bind-" ++ (exch ++ (codes "-" ++ queue))) (codes "0") exch queue
        key))
action_of (publishes exch key message) =
    let props = record default_properties { routing_key = key; headers = add_headers [] message } in
    sends (
      channel_request (
        basic_publish_request (codes "cli-pub-" ++ exch) (codes "0") exch (some props)
          (unwords message)))
action_of (pulls cid) =
    sends (channel_request (basic_query_request (codes "cli-query-" ++ cid) cid))
action_of (consumes cid queue tag) =
    sends (channel_request (basic_consume_request (codes "cli-consume-" ++ cid) cid tag queue true))
action_of (cancels cid tag queue) =
    sends (channel_request (basic_cancel_request (codes "cli-cancel-" ++ cid) cid tag queue))
action_of exits = stops_loop

run_line-dispatch :
    (c : Command) → run_line (typed c) ≡ dispatch (name_of c) (joined (arguments_of c))
unfolding run_line next_word take_word skip_blanks is_blank joined
run_line-dispatch (opens cid) = refl
run_line-dispatch (closes cid) = refl
run_line-dispatch (declares_exchange name type) = refl
run_line-dispatch (declares_queue name) = refl
run_line-dispatch (asks_status cid queue) = refl
run_line-dispatch (binds exch queue key) = refl
run_line-dispatch (publishes exch key message) = refl
run_line-dispatch (pulls cid) = refl
run_line-dispatch (consumes cid queue tag) = refl
run_line-dispatch (cancels cid tag queue) = refl
run_line-dispatch exits = refl

exchange_type_of-type_name : (t : ExchangeType) → exchange_type_of (type_name t) ≡ t
unfolding exchange_type_of ◌==◌
exchange_type_of-type_name direct = refl
exchange_type_of-type_name fanout = refl
exchange_type_of-type_name topic = refl
exchange_type_of-type_name headers = refl

drop_blank-joined : (ws : List Text) → drop_blank (joined ws) ≡ unwords ws
unfolding joined
drop_blank-joined [] = refl
drop_blank-joined (w ∷ ws) = refl

publish_command-joined :
    (exch key : Text) (message : List Text)
    → AreWords (exch ∷ key ∷ message)
    → publish_command (joined (exch ∷ key ∷ message)) ≡ action_of (publishes exch key message)
unfolding publish_command publish_properties
publish_command-joined exch key message (h, (k, a)) =
    rw
      (
        next_word-joined exch (key ∷ message) h,
        next_word-joined key message k,
        publish_command,
        drop_blank-joined message,
        publish_properties,
        k.0,
        headers_of-unwords message a,
      )
      refl

-- Every command, typed as the client's help shows it, sends the request that it stands for: if its
-- arguments are words without blanks, each reaches its own field. The headers of a published message
-- are the `key=value` among its words, and its body is the whole message.
pub run_line-typed : (c : Command) → AreWords (arguments_of c) → run_line (typed c) ≡ action_of c
unfolding dispatch ◌==◌ open_command close_command exchange_declare_command queue_declare_command
    bind_command pull_command consume_command cancel_command queue_status_command
run_line-typed (opens cid) (h, _) =
    run_line-dispatch (opens cid) ∙ rw (next_word-joined cid [] h, open_command) refl
run_line-typed (closes cid) (h, _) =
    run_line-dispatch (closes cid) ∙ rw (next_word-joined cid [] h, close_command) refl
run_line-typed (declares_exchange name type) (h, (k, _)) =
    run_line-dispatch (declares_exchange name type)
    ∙ rw
        (
          next_word-joined name (type_name type ∷ []) h,
          next_word-joined (type_name type) [] k,
          exchange_declare_command,
          exchange_type_of-type_name type,
        )
        refl
run_line-typed (declares_queue name) (h, _) =
    run_line-dispatch (declares_queue name)
    ∙ rw (next_word-joined name [] h, queue_declare_command) refl
run_line-typed (asks_status cid queue) (h, (k, _)) =
    run_line-dispatch (asks_status cid queue)
    ∙ rw (next_word-joined cid (queue ∷ []) h, next_word-joined queue [] k, queue_status_command)
        refl
run_line-typed (binds exch queue key) (h, (k, (l, _))) =
    run_line-dispatch (binds exch queue key)
    ∙ rw
        (
          next_word-joined exch (queue ∷ key ∷ []) h,
          next_word-joined queue (key ∷ []) k,
          next_word-joined key [] l,
          bind_command,
        )
        refl
run_line-typed (publishes exch key message) a =
    run_line-dispatch (publishes exch key message) ∙ publish_command-joined exch key message a
run_line-typed (pulls cid) (h, _) =
    run_line-dispatch (pulls cid) ∙ rw (next_word-joined cid [] h, pull_command) refl
run_line-typed (consumes cid queue tag) (h, (k, (l, _))) =
    run_line-dispatch (consumes cid queue tag)
    ∙ rw
        (
          next_word-joined cid (queue ∷ tag ∷ []) h,
          next_word-joined queue (tag ∷ []) k,
          next_word-joined tag [] l,
          consume_command,
        )
        refl
run_line-typed (cancels cid tag queue) (h, (k, (l, _))) =
    run_line-dispatch (cancels cid tag queue)
    ∙ rw
        (
          next_word-joined cid (tag ∷ queue ∷ []) h,
          next_word-joined tag (queue ∷ []) k,
          next_word-joined queue [] l,
          cancel_command,
        )
        refl
run_line-typed exits _ = run_line-dispatch exits
