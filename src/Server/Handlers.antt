-- ===== src/Server/Handlers.antt =====
-- src/server/broker_server.cpp: the callbacks of the requests that a channel handles.
use mq_work.Common.{ℕ, ◌≡◌, refl, inl, inr, Bool-cases}
use mq_work.Common.Text.{Text}
use mq_work.Platform.{Platform}
use mq_work.Host.{exists_queue}
use mq_work.Channel.{Channel, World, ref_of, basic_consume}
use mq_work.Channel.Requests.{
  Request, declare_exchange_request, delete_exchange_request, declare_queue_request,
  declare_queue_with_dlq_request, delete_queue_request, bind_request, unbind_request,
  basic_publish_request, basic_ack_request, basic_nack_request, basic_consume_request,
  basic_cancel_request, basic_query_request, handle, cid_of,
}
use mq_work.Server.{
  Server, on_channel, on_declare_exchange, on_delete_exchange, on_declare_queue, on_delete_queue,
  on_bind, on_unbind, on_basic_publish, on_basic_ack, on_basic_consume, on_basic_cancel,
  on_basic_query, on_declare_queue_with_dlq, on_basic_nack,
}
use mq_work.Server.Messages.{on_request}

module _ (P : Platform) where
  -- A request of a channel goes to its handler, on the connection and the channel that it names.
  pub on_request-handle :
      (conn : Text) (now : ℕ) (r : Request) (s : Server P)
      → on_request P conn now r s ≡ on_channel P conn now (cid_of r) (handle P r) s
  unfolding on_request handle on_declare_exchange on_delete_exchange on_declare_queue
      on_delete_queue on_bind on_unbind on_basic_publish on_basic_ack on_basic_consume
      on_basic_cancel on_basic_query on_declare_queue_with_dlq on_basic_nack
  on_request-handle conn now (declare_exchange_request rid cid n t d a args) s = refl
  on_request-handle conn now (delete_exchange_request rid cid n) s = refl
  on_request-handle conn now (declare_queue_request rid cid n d x a args) s = refl
  on_request-handle conn now (declare_queue_with_dlq_request rid cid n d x a args dlq) s = refl
  on_request-handle conn now (delete_queue_request rid cid n) s = refl
  on_request-handle conn now (bind_request rid cid ex q key) s = refl
  on_request-handle conn now (unbind_request rid cid ex q) s = refl
  on_request-handle conn now (basic_publish_request rid cid ex bp body) s = refl
  on_request-handle conn now (basic_ack_request rid cid q id) s = refl
  on_request-handle conn now (basic_nack_request rid cid q id requeue reason) s = refl
  on_request-handle conn now (basic_consume_request rid cid tag q auto) s = refl
  on_request-handle conn now (basic_cancel_request rid cid tag q) s = refl
  on_request-handle conn now (basic_query_request rid cid) s = refl

  -- No handler changes the connection or the id of its channel.
  pub handle-ref :
      (r : Request) (ch : Channel) (w : World P) → ref_of (handle P r ch w).0 ≡ ref_of ch
  unfolding handle basic_consume
  handle-ref (declare_exchange_request rid cid n t d a args) ch w = refl
  handle-ref (delete_exchange_request rid cid n) ch w = refl
  handle-ref (declare_queue_request rid cid n d x a args) ch w = refl
  handle-ref (declare_queue_with_dlq_request rid cid n d x a args dlq) ch w = refl
  handle-ref (delete_queue_request rid cid n) ch w = refl
  handle-ref (bind_request rid cid ex q key) ch w = refl
  handle-ref (unbind_request rid cid ex q) ch w = refl
  handle-ref (basic_publish_request rid cid ex bp body) ch w = refl
  handle-ref (basic_ack_request rid cid q id) ch w = refl
  handle-ref (basic_nack_request rid cid q id requeue reason) ch w = refl
  handle-ref (basic_consume_request rid cid tag q auto) ch w =
      elim (Bool-cases (exists_queue P q w.host)) [
        | inl e ↦ rw (e, basic_consume) refl
        | inr e ↦ rw (e, basic_consume) refl
      ]
  handle-ref (basic_cancel_request rid cid tag q) ch w = refl
  handle-ref (basic_query_request rid cid) ch w = refl
