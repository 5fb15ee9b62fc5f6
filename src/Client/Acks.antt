-- ===== src/Client/Acks.antt =====
-- The acknowledgement that src/client/client.cpp sends for a delivered message, and what it does on
-- the server.
use mq_work.Common.{◌≡◌, refl, some, [], ◌∷◌, ◌++◌, if◌then◌else◌}
use mq_work.Common.Text.{Text, ◌==◌}
use mq_work.Proto.{BasicProperties}
use mq_work.Platform.{Platform}
use mq_work.Storage.Refinement.{acked}
use mq_work.Host.Delivery.{queue_contents}
use mq_work.Host.Pull.{basic_ack_lem}
use mq_work.Channel.{Channel, World, basic_ack, basic_response}
use mq_work.Channel.Requests.{Request, handle}
use mq_work.Server.Messages.{channel_request}
use mq_work.Client.{ack_of}
use mq_work.Client.Responses.{ClientState, on_consume_response}

module _ (P : Platform) where
  -- A connected client answers each delivered message with one request on its connection. The handler
  -- of the channel that gets it takes a message with the id from the queue that is named like the
  -- consumer tag, or the one in front if the id is empty. No other queue changes, also the one that
  -- the message came from.
  pub on_consume_response-basic_ack :
      (cl : ClientState) (conn : Text) (ch : Channel) (cid consumer_tag body : Text)
      (bp : BasicProperties) (w : World P) (q : Text)
      → cl.conn ≡ some conn
      → let cl' = on_consume_response cid consumer_tag body (some bp) cl in
        (r : Request) × (cl'.sent ≡ cl.sent ++ (conn, channel_request r) ∷ [])
        × (queue_contents q (handle P r ch w).1.host ≡ (
            if consumer_tag == q
            then acked bp.id (queue_contents q w.host)
            else queue_contents q w.host))
  unfolding on_consume_response ack_of handle basic_ack basic_response
  on_consume_response-basic_ack cl conn ch cid consumer_tag body bp w q e = (
    ack_of cid consumer_tag bp,
    rw (e, on_consume_response) refl,
    basic_ack_lem P consumer_tag bp.id w.host q,
  )
