-- ===== src/Client/Transcript.antt =====
-- src/client/client.cpp against src/server/broker_server.cpp: what a user reads in a session.
use mq_work.Common.{ℕ, ◌≡◌, refl, ap, ◌∙◌, arith, true, false, some, none, List, [], ◌∷◌, ◌++◌, map}
use mathlib.Core.List.{append_assoc}
use mq_work.Common.Text.{Text, codes}
use mq_work.Common.Dict.{find, put, find-put_same}
use mq_work.Platform.{Platform}
use mq_work.Queue.Manager.{QueueStatus, get_queue_status}
use mq_work.Host.{Host, declare_queue}
use mq_work.Host.Declared.{new_status, status_new}
use mq_work.Channel.{Channel, Sent, Reply, common_response, queue_status_response, basic_response}
use mq_work.Channel
use mq_work.Channel.Opened
use mq_work.Connection
use mq_work.Connection.{Connection, select_channel, refresh}
use mq_work.Connection.Manager.{select_connection}
use mq_work.Server.{
  Server, with_connection, with_channel, on_open_channel, on_declare_queue, on_queue_status_request,
}
use mq_work.Server.Messages.{on_message}
use mq_work.Client.Words.{IsWord}
use mq_work.Client.Commands.{opens, declares_queue, asks_status, typed, run_line-typed}
use mq_work.Client.Session.{
  response, session, session-open, session-declare, open-unopened, declare-opened, zero-IsWord,
}
use mq_work.Client.Responses.{
  ClientState, receive, on_reply, on_common_response, on_queue_status_response, shown_args,
}

-- The replies, sent on this connection.
abbrev pub addressed : Text → Reply → Sent
addressed conn r = record { conn = conn; reply = r }

-- Open a channel, declare a queue there, and ask for its status.
abbrev pub three_lines : Text → List Text
three_lines q =
    typed (opens (codes "0")) ∷ typed (declares_queue q) ∷ typed (asks_status (codes "0") q) ∷ []

-- The answers to the three lines.
abbrev pub answers : Text → List Reply
answers q =
    common_response (codes "cli-open-0") (codes "0") true
    ∷ common_response (codes "cli-qdec-" ++ q) (codes "0") true
    ∷ queue_status_response (codes "cli-qstatus-" ++ q) (codes "0") new_status
    ∷ []

receive-answers :
    (q : Text) (cl : ClientState)
    → (receive (answers q) cl).printed
      ≡ cl.printed
        ++ (codes "[Response] (cid=0) OK=true\n[Response] (cid=0) OK=true\n"
            ++ codes
                "[Queue Status] exists=true, durable=false, exclusive=false, auto_delete=false, args={}\n")
unfolding receive on_reply on_common_response on_queue_status_response shown_args
receive-answers q cl = append_assoc (cl.printed ++ _) _ _ ∙ append_assoc cl.printed _ _

append-three :
    (a b c d : List Sent) (x y z : Sent)
    → b ≡ a ++ x ∷ []
    → c ≡ b ++ y ∷ []
    → d ≡ c ++ z ∷ []
    → d ≡ a ++ x ∷ y ∷ z ∷ []
append-three a b c d x y z e f g =
    g
    ∙ (ap (λ (l : List Sent). l ++ z ∷ []) (f ∙ ap (λ (l : List Sent). l ++ y ∷ []) e)
        ∙ (append_assoc (a ++ x ∷ []) (y ∷ []) (z ∷ []) ∙ append_assoc a (x ∷ []) (y ∷ z ∷ [])))

module _ (P : Platform) where
  session-status :
      (conn cid q : Text) (now : ℕ) (lines : List Text) (s : Server P)
      → IsWord cid
      → IsWord q
      → session P conn now (typed (asks_status cid q) ∷ lines) s
        ≡ session P conn now lines
            (on_queue_status_request P conn now (codes "cli-qstatus-" ++ q) cid q s)
  unfolding session on_message
  session-status conn cid q now lines s w v =
      rw (run_line-typed (asks_status cid q) (w, (v, tt)), session) refl

  status-opened :
      (conn : Text) (now : ℕ) (rid cid q : Text) (s : Server P) (c : Connection) (ch : Channel)
      → find conn s.connections ≡ some c
      → find cid c.channels ≡ some ch
      → (on_queue_status_request P conn now rid cid q s).broker.sent
        ≡ s.broker.sent
          ++ addressed conn
              (queue_status_response rid cid (get_queue_status s.broker.host.queue_mgr q))
            ∷ []
  unfolding on_queue_status_request with_connection with_channel select_connection select_channel
      Opened.select_channel refresh
  status-opened conn now rid cid q s c ch e n = rw (e, with_connection, n, with_channel) refl

  -- The channel is still there after a queue was declared on it.
  declare-keeps :
      (conn : Text) (now : ℕ) (rid cid q : Text) (s : Server P) (c : Connection) (ch : Channel)
      → find conn s.connections ≡ some c
      → find cid c.channels ≡ some ch
      → let s' = on_declare_queue P conn now rid cid q false false false [] s in
        (find conn s'.connections
          ≡ some (record (refresh now c) { channels = put cid ch c.channels }))
        × (s'.broker.host ≡ (declare_queue P q false false false [] s.broker.host).0)
  unfolding on_declare_queue with_connection with_channel select_connection select_channel
      Opened.select_channel Channel.declare_queue basic_response refresh
  declare-keeps conn now rid cid q s c ch e n =
      rw (e, with_connection, n, with_channel) (find-put_same conn _ s.connections, ground arith)

  -- Opening a channel changes no queue.
  open-keeps :
      (conn : Text) (now : ℕ) (rid cid : Text) (s : Server P)
      → (on_open_channel P conn now rid cid s).broker.host ≡ s.broker.host
  unfolding on_open_channel with_connection select_connection Connection.open_channel basic_response
      refresh
  open-keeps conn now rid cid s = ground arith

  session-three :
      (conn q : Text) (now : ℕ) (s : Server P)
      → IsWord q
      → let zero_id = codes "0" in
        let s1 = on_open_channel P conn now (codes "cli-open-0") zero_id s in
        let s2 =
          on_declare_queue P conn now (codes "cli-qdec-" ++ q) zero_id q false false false [] s1 in
        session P conn now (three_lines q) s
        ≡ on_queue_status_request P conn now (codes "cli-qstatus-" ++ q) zero_id q s2
  unfolding session
  session-three conn q now s w =
      let zero_id = codes "0" in
      let s1 = on_open_channel P conn now (codes "cli-open-0") zero_id s in
      let s2 =
        on_declare_queue P conn now (codes "cli-qdec-" ++ q) zero_id q false false false [] s1 in
      let asks = typed (asks_status zero_id q) ∷ [] in
      session-open P conn zero_id now (typed (declares_queue q) ∷ asks) s zero-IsWord
      ∙ (session-declare P conn q now asks s1 w
          ∙ session-status conn zero_id q now [] s2 zero-IsWord w)

  -- Whoever types `open 0`, declares a new queue on that channel and asks for its status, on a
  -- connection that the server knows and where no channel "0" is open, is answered three times, in
  -- this order, and reads these lines: two positive responses, and a queue that exists, with no
  -- property and no argument. The name of the queue is a word without blanks.
  pub session-receive :
      (conn q : Text) (now : ℕ) (s : Server P) (c : Connection) (cl : ClientState)
      → find conn s.connections ≡ some c
      → c.conn ≡ conn
      → find (codes "0") c.channels ≡ none
      → find q s.broker.host.queue_mgr ≡ none
      → IsWord q
      → let text =
          codes "[Response] (cid=0) OK=true\n[Response] (cid=0) OK=true\n"
          ++ codes
              "[Queue Status] exists=true, durable=false, exclusive=false, auto_delete=false, args={}\n" in
        (replies : List Reply) × ((session P conn now (three_lines q) s).broker.sent
          ≡ s.broker.sent ++ map (addressed conn) replies)
        × ((receive replies cl).printed ≡ cl.printed ++ text)
  session-receive conn q now s c cl e own n fresh w =
      let zero_id = codes "0" in
      let ch : Channel = record { conn = c.conn; cid = zero_id; consumer = none } in
      let s1 = on_open_channel P conn now (codes "cli-open-0") zero_id s in
      let s2 =
        on_declare_queue P conn now (codes "cli-qdec-" ++ q) zero_id q false false false [] s1 in
      let (there, first) = open-unopened P conn now (codes "cli-open-0") zero_id s c e n in
      let found = find-put_same zero_id ch c.channels in
      let (_, second) =
        declare-opened P conn now (codes "cli-qdec-" ++ q) zero_id q s1 _ ch there found in
      let (kept, host) =
        declare-keeps conn now (codes "cli-qdec-" ++ q) zero_id q s1 _ ch there found in
      let third =
        status-opened conn now (codes "cli-qstatus-" ++ q) zero_id q s2 _ ch kept
          (find-put_same zero_id ch _) in
      let answered : Text → QueueStatus → List Sent = λ k status.
        s.broker.sent
        ++ response k (codes "cli-open-0") zero_id true
          ∷ response k (codes "cli-qdec-" ++ q) zero_id true
          ∷ addressed conn (queue_status_response (codes "cli-qstatus-" ++ q) zero_id status)
          ∷ [] in
      let status =
        ap (λ (h : Host P). get_queue_status h.queue_mgr q) host
        ∙ status_new P q s1.broker.host (
            ap (λ (h : Host P). find q h.queue_mgr)
              (open-keeps conn now (codes "cli-open-0") zero_id s)
            ∙ fresh) in
      (
        answers q,
        ap (λ (t : Server P). t.broker.sent) (session-three conn q now s w)
            ∙ (append-three _ _ _ _ _ _ _ first second third
                ∙ (ap (λ (k : Text). answered k (get_queue_status s2.broker.host.queue_mgr q)) own
                    ∙ ap (answered conn) status)),
        receive-answers q cl,
      )
