-- ===== src/Channel/Requests.antt =====
-- Histories of requests, consume tasks and closings of src/server/channel.cpp.
use mq_work.Common.{◌≡◌, refl, Bool, Option, [], ◌∷◌, ◌++◌, inl, inr, Option-cases, Bool-cases}
use mq_work.Common.Text.{Text}
use mq_work.Proto.{ExchangeType, Args, BasicProperties}
use mq_work.Queue.{DeadLetterConfig}
use mq_work.Platform.{Platform}
use mq_work.Host.{exists_queue, select_exchange}
use mq_work.Channel.{
  Channel, Reply, common_response, query_response, queue_status_response, heartbeat_response, World,
  basic_response, declare_exchange, delete_exchange, declare_queue, declare_queue_with_dlq,
  delete_queue, bind, unbind, basic_publish, basic_ack, basic_nack, basic_consume, basic_cancel,
  basic_query, config_of,
}
use mq_work.Channel.Served.{contains-declare_queue, contains-declare_queue_with_dlq}

-- The requests of src/common/protocol.proto that a channel handles. The first field is the request's
-- id and the second the channel that it names. The binding key and the arguments of unbindRequest,
-- which nothing reads, are left out.
pub data Request : Type 0 where
  declare_exchange_request : Text → Text → Text → ExchangeType → Bool → Bool → Args → Request
  delete_exchange_request : Text → Text → Text → Request
  declare_queue_request : Text → Text → Text → Bool → Bool → Bool → Args → Request
  declare_queue_with_dlq_request :
      Text → Text → Text → Bool → Bool → Bool → Args → Option DeadLetterConfig → Request
  delete_queue_request : Text → Text → Text → Request
  bind_request : Text → Text → Text → Text → Text → Request
  unbind_request : Text → Text → Text → Text → Request
  basic_publish_request : Text → Text → Text → Option BasicProperties → Text → Request
  basic_ack_request : Text → Text → Text → Text → Request
  basic_nack_request : Text → Text → Text → Text → Bool → Text → Request
  basic_consume_request : Text → Text → Text → Text → Bool → Request
  basic_cancel_request : Text → Text → Text → Text → Request
  basic_query_request : Text → Text → Request

abbrev pub rid_of : Request → Text
rid_of (declare_exchange_request rid _ _ _ _ _ _) = rid
rid_of (delete_exchange_request rid _ _) = rid
rid_of (declare_queue_request rid _ _ _ _ _ _) = rid
rid_of (declare_queue_with_dlq_request rid _ _ _ _ _ _ _) = rid
rid_of (delete_queue_request rid _ _) = rid
rid_of (bind_request rid _ _ _ _) = rid
rid_of (unbind_request rid _ _ _) = rid
rid_of (basic_publish_request rid _ _ _ _) = rid
rid_of (basic_ack_request rid _ _ _) = rid
rid_of (basic_nack_request rid _ _ _ _ _) = rid
rid_of (basic_consume_request rid _ _ _ _) = rid
rid_of (basic_cancel_request rid _ _ _) = rid
rid_of (basic_query_request rid _) = rid

abbrev pub cid_of : Request → Text
cid_of (declare_exchange_request _ cid _ _ _ _ _) = cid
cid_of (delete_exchange_request _ cid _) = cid
cid_of (declare_queue_request _ cid _ _ _ _ _) = cid
cid_of (declare_queue_with_dlq_request _ cid _ _ _ _ _ _) = cid
cid_of (delete_queue_request _ cid _) = cid
cid_of (bind_request _ cid _ _ _) = cid
cid_of (unbind_request _ cid _ _) = cid
cid_of (basic_publish_request _ cid _ _ _) = cid
cid_of (basic_ack_request _ cid _ _) = cid
cid_of (basic_nack_request _ cid _ _ _ _) = cid
cid_of (basic_consume_request _ cid _ _ _) = cid
cid_of (basic_cancel_request _ cid _ _) = cid
cid_of (basic_query_request _ cid) = cid

-- Is this a response to the request with this id?
abbrev pub Answers : Text → Reply → Type 0
Answers rid (common_response r _ _) = r ≡ rid
Answers rid (query_response r _ _) = r ≡ rid
Answers rid (queue_status_response r _ _) = r ≡ rid
Answers rid (heartbeat_response r) = r ≡ rid
Answers rid _ = ⊥

module _ (P : Platform) where
  -- The handler that a request goes to.
  unfoldable pub handle : Request → Channel → World P → Channel × World P
  handle (declare_exchange_request rid cid n t d a args) ch w =
      (ch, declare_exchange P ch rid cid n t d a args w)
  handle (delete_exchange_request rid cid n) ch w = (ch, delete_exchange P ch rid cid n w)
  handle (declare_queue_request rid cid n d x a args) ch w =
      (ch, declare_queue P ch rid cid n d x a args w)
  handle (declare_queue_with_dlq_request rid cid n d x a args dlq) ch w =
      (ch, declare_queue_with_dlq P ch rid cid n d x a args dlq w)
  handle (delete_queue_request rid cid n) ch w = (ch, delete_queue P ch rid cid n w)
  handle (bind_request rid cid ex q key) ch w = (ch, bind P ch rid cid ex q key w)
  handle (unbind_request rid cid ex q) ch w = (ch, unbind P ch rid cid ex q w)
  handle (basic_publish_request rid cid ex bp body) ch w =
      (ch, basic_publish P ch rid cid ex bp body w)
  handle (basic_ack_request rid cid q id) ch w = (ch, basic_ack P ch rid cid q id w)
  handle (basic_nack_request rid cid q id requeue reason) ch w =
      (ch, basic_nack P ch rid cid q id requeue reason w)
  handle (basic_consume_request rid cid tag q auto) ch w = basic_consume P ch rid cid tag q auto w
  handle (basic_cancel_request rid cid tag q) ch w = (ch, basic_cancel P ch rid cid tag q w)
  handle (basic_query_request rid cid) ch w = (ch, basic_query P ch rid cid w)

  -- One response was sent, on this connection, and it answers this request.
  abbrev pub Replied : Text → Text → World P → World P → Type 0
  Replied conn rid w w' =
      (r : Reply) × (w'.sent ≡ w.sent ++ record { conn = conn; reply = r } ∷ []) × Answers rid r

  -- Every request gets exactly one response, on the channel's connection and with the id of the
  -- request, whether or not it can be carried out.
  pub handle-Replied :
      (r : Request) (ch : Channel) (w : World P) → Replied ch.conn (rid_of r) w (handle r ch w).1
  unfolding handle declare_exchange delete_exchange delete_queue bind unbind basic_ack basic_nack
      basic_cancel basic_query basic_response declare_queue declare_queue_with_dlq basic_publish
      basic_consume
  handle-Replied (declare_exchange_request rid cid n t d a args) ch w = (_, refl, refl)
  handle-Replied (delete_exchange_request rid cid n) ch w = (_, refl, refl)
  handle-Replied (declare_queue_request rid cid n d x a args) ch w =
      rw ((contains-declare_queue P n d x a args w.host n).1, declare_queue) (_, refl, refl)
  handle-Replied (declare_queue_with_dlq_request rid cid n d x a args dlq) ch w =
      rw
        (
          (contains-declare_queue_with_dlq P n d x a args (config_of dlq) w.host n).1,
          declare_queue_with_dlq,
        )
        (_, refl, refl)
  handle-Replied (delete_queue_request rid cid n) ch w = (_, refl, refl)
  handle-Replied (bind_request rid cid ex q key) ch w = (_, refl, refl)
  handle-Replied (unbind_request rid cid ex q) ch w = (_, refl, refl)
  handle-Replied (basic_publish_request rid cid ex bp body) ch w =
      elim (Option-cases (select_exchange P ex w.host)) [
        | inl e ↦ rw (e, basic_publish) (_, refl, refl)
        | inr (_, e) ↦ rw (e, basic_publish) (_, refl, refl)
      ]
  handle-Replied (basic_ack_request rid cid q id) ch w = (_, refl, refl)
  handle-Replied (basic_nack_request rid cid q id requeue reason) ch w = (_, refl, refl)
  handle-Replied (basic_consume_request rid cid tag q auto) ch w =
      elim (Bool-cases (exists_queue P q w.host)) [
        | inl e ↦ rw (e, basic_consume) (_, refl, refl)
        | inr e ↦ rw (e, basic_consume) (_, refl, refl)
      ]
  handle-Replied (basic_cancel_request rid cid tag q) ch w = (_, refl, refl)
  handle-Replied (basic_query_request rid cid) ch w = (_, refl, refl)
