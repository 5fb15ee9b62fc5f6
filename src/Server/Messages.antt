-- ===== src/Server/Messages.antt =====
-- The choice of a callback in src/server/broker_server.cpp: what the dispatcher registers, and the
-- other calls that the event loop makes.
use mq_work.Common.{ℕ, Bool, List, [], ◌∷◌}
use mq_work.Common.Text.{Text}
use mq_work.Platform.{Platform}
use mq_work.Channel.{consume}
use mq_work.Channel.Requests.{
  Request, declare_exchange_request, delete_exchange_request, declare_queue_request,
  declare_queue_with_dlq_request, delete_queue_request, bind_request, unbind_request,
  basic_publish_request, basic_ack_request, basic_nack_request, basic_consume_request,
  basic_cancel_request, basic_query_request,
}
use mq_work.Server.{
  Server, on_timer, on_connection, on_unknown_message, on_open_channel, on_close_channel,
  on_declare_exchange, on_delete_exchange, on_declare_queue, on_delete_queue, on_bind, on_unbind,
  on_basic_publish, on_basic_ack, on_basic_consume, on_basic_cancel, on_basic_query, on_heartbeat,
  on_declare_queue_with_dlq, on_basic_nack, on_queue_status_request,
}

-- A message from a client: one that a channel handles, or one that it does not.
pub data Incoming : Type 0 where
  open_channel_request : (rid cid : Text) → Incoming
  close_channel_request : (rid cid : Text) → Incoming
  heartbeat_request : (rid : Text) → Incoming
  queue_status_request : (rid cid queue_name : Text) → Incoming
  channel_request : Request → Incoming
  unknown_message : Incoming

-- What the event loop and the thread pool run.
pub data ServerEvent : Type 0 where
  connects : (conn : Text) (connected : Bool) → ServerEvent
  receives : (conn : Text) → Incoming → ServerEvent
  ticks : ServerEvent
  pool_runs : (qname : Text) → ServerEvent

module _ (P : Platform) where
  unfoldable pub on_request : Text → ℕ → Request → Server P → Server P
  on_request conn now (declare_exchange_request rid cid n t d a args) s =
      on_declare_exchange P conn now rid cid n t d a args s
  on_request conn now (delete_exchange_request rid cid n) s =
      on_delete_exchange P conn now rid cid n s
  on_request conn now (declare_queue_request rid cid n d x a args) s =
      on_declare_queue P conn now rid cid n d x a args s
  on_request conn now (declare_queue_with_dlq_request rid cid n d x a args dlq) s =
      on_declare_queue_with_dlq P conn now rid cid n d x a args dlq s
  on_request conn now (delete_queue_request rid cid n) s = on_delete_queue P conn now rid cid n s
  on_request conn now (bind_request rid cid ex q key) s = on_bind P conn now rid cid ex q key s
  on_request conn now (unbind_request rid cid ex q) s = on_unbind P conn now rid cid ex q s
  on_request conn now (basic_publish_request rid cid ex bp body) s =
      on_basic_publish P conn now rid cid ex bp body s
  on_request conn now (basic_ack_request rid cid q id) s = on_basic_ack P conn now rid cid q id s
  on_request conn now (basic_nack_request rid cid q id requeue reason) s =
      on_basic_nack P conn now rid cid q id requeue reason s
  on_request conn now (basic_consume_request rid cid tag q auto) s =
      on_basic_consume P conn now rid cid tag q auto s
  on_request conn now (basic_cancel_request rid cid tag q) s =
      on_basic_cancel P conn now rid cid tag q s
  on_request conn now (basic_query_request rid cid) s = on_basic_query P conn now rid cid s

  unfoldable pub on_message : Text → ℕ → Incoming → Server P → Server P
  on_message conn now (open_channel_request rid cid) s = on_open_channel P conn now rid cid s
  on_message conn now (close_channel_request rid cid) s = on_close_channel P conn now rid cid s
  on_message conn now (heartbeat_request rid) s = on_heartbeat P conn rid now s
  on_message conn now (queue_status_request rid cid q) s =
      on_queue_status_request P conn now rid cid q s
  on_message conn now (channel_request r) s = on_request conn now r s
  on_message conn now unknown_message s = on_unknown_message P conn s

  -- One event, at this time.
  unfoldable pub step : ServerEvent → ℕ → Server P → Server P
  step (connects conn connected) now s = on_connection P conn connected now s
  step (receives conn m) now s = on_message conn now m s
  step ticks now s = on_timer P now s
  step (pool_runs qname) now s = record s { broker = consume P qname s.broker }

  unfoldable pub steps : List (ServerEvent × ℕ) → Server P → Server P
  steps [] s = s
  steps ((e, now) ∷ es) s = steps es (step e now s)
