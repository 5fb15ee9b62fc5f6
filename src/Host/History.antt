-- ===== src/Host/History.antt =====
-- Histories of calls of src/server/virtual_host.hpp.
use mq_work.Common.{ℕ, Bool, Option, List, [], ◌∷◌}
use mq_work.Common.Text.{Text}
use mq_work.Common.Dict.{Dict}
use mq_work.Proto.{ExchangeType, Args, BasicProperties}
use mq_work.Queue.{DeadLetterConfig}
use mq_work.Platform.{Platform, HasExchangeLaws}
use mq_work.Host.{
  Host, virtual_host, declare_exchange, delete_exchange, bind_args, bind, unbind, declare_queue,
  declare_queue_with_dlq, delete_queue,
}
use mq_work.Host.Publish.{basic_publish, publish_to_exchange, publish_ex}
use mq_work.Host.Consume.{
  basic_consume, basic_consume_and_remove, basic_ack, basic_nack, basic_query, queue_runtime_stats,
  compact_queue,
}
use mq_work.Host.View.{basic_publish-SameShape, publish_to_exchange-SameShape, publish_ex-SameShape}
use mq_work.Host.Pulling.{
  basic_consume-SameShape, basic_consume_and_remove-SameShape, basic_ack-SameShape,
  basic_nack-SameShape, basic_query-SameShape, queue_runtime_stats-SameShape,
  compact_queue-SameShape,
}
use mq_work.Host.Invariant.{
  IsConsistent, SameShape-IsConsistent, bind_args-IsConsistent, unbind-IsConsistent,
  delete_queue-IsConsistent,
}
use mq_work.Host.Setup.{
  declare_queue-IsConsistent, declare_queue_with_dlq-IsConsistent, declare_exchange-IsConsistent,
  delete_exchange-IsConsistent, virtual_host-IsConsistent,
}

-- Every call of the class that can change its state.
pub data HostCall : Type 0 where
  declares_exchange : Text → ExchangeType → Bool → Bool → Args → HostCall
  deletes_exchange : Text → HostCall
  declares_queue : Text → Bool → Bool → Bool → Args → HostCall
  declares_queue_with_dlq : Text → Bool → Bool → Bool → Args → DeadLetterConfig → HostCall
  deletes_queue : Text → HostCall
  binds : Text → Text → Text → HostCall
  binds_args : Text → Text → Text → Args → HostCall
  unbinds : Text → Text → HostCall
  publishes : Text → Option BasicProperties → Text → HostCall
  publishes_to_exchange : Text → Option BasicProperties → Text → HostCall
  publishes_ex : Text → Text → Option BasicProperties → Text → HostCall
  consumes consumes_and_removes : Text → HostCall
  acks : Text → Text → HostCall
  nacks : Text → Text → Bool → Text → HostCall
  queries : HostCall
  reads_stats : Text → HostCall
  compacts : Bool → Text → HostCall

module _ (P : Platform) where
  unfoldable pub host_call : HostCall → Host P → Host P
  host_call (declares_exchange n t d a args) h = (declare_exchange P n t d a args h).0
  host_call (deletes_exchange n) h = delete_exchange P n h
  host_call (declares_queue n d x a args) h = (declare_queue P n d x a args h).0
  host_call (declares_queue_with_dlq n d x a args c) h =
      (declare_queue_with_dlq P n d x a args c h).0
  host_call (deletes_queue n) h = delete_queue P n h
  host_call (binds ex q key) h = (bind P ex q key h).0
  host_call (binds_args ex q key args) h = (bind_args P ex q key args h).0
  host_call (unbinds ex q) h = unbind P ex q h
  host_call (publishes q bp body) h = (basic_publish P q bp body h).0
  host_call (publishes_to_exchange ex bp body) h = (publish_to_exchange P ex bp body h).0
  host_call (publishes_ex ex key bp body) h = (publish_ex P ex key bp body h).0
  host_call (consumes q) h = (basic_consume P q h).0
  host_call (consumes_and_removes q) h = (basic_consume_and_remove P q h).0
  host_call (acks q id) h = basic_ack P q id h
  host_call (nacks q id requeue reason) h = basic_nack P q id requeue reason h
  host_call queries h = (basic_query P h).0
  host_call (reads_stats q) h = (queue_runtime_stats P q h).1
  host_call (compacts opens q) h = compact_queue P opens q h

  unfoldable pub host_calls : List HostCall → Host P → Host P
  host_calls [] h = h
  host_calls (c ∷ cs) h = host_calls cs (host_call c h)

  module _ (laws : HasExchangeLaws P) where
    pub host_call-IsConsistent :
        (call : HostCall) (h : Host P) → IsConsistent P h → IsConsistent P (host_call call h)
    unfolding host_call
    host_call-IsConsistent (declares_exchange n t d a args) h c =
        declare_exchange-IsConsistent P laws n t d a args h c
    host_call-IsConsistent (deletes_exchange n) h c = delete_exchange-IsConsistent P laws n h c
    host_call-IsConsistent (declares_queue n d x a args) h c =
        declare_queue-IsConsistent P n d x a args h c
    host_call-IsConsistent (declares_queue_with_dlq n d x a args cfg) h c =
        declare_queue_with_dlq-IsConsistent P n d x a args cfg h c
    host_call-IsConsistent (deletes_queue n) h c = delete_queue-IsConsistent P n h c
    host_call-IsConsistent (binds ex q key) h c =
        unfold bind in bind_args-IsConsistent P ex q key [] h c
    host_call-IsConsistent (binds_args ex q key args) h c =
        bind_args-IsConsistent P ex q key args h c
    host_call-IsConsistent (unbinds ex q) h c = unbind-IsConsistent P ex q h c
    host_call-IsConsistent (publishes q bp body) h c =
        SameShape-IsConsistent P (basic_publish-SameShape P q bp body h) c
    host_call-IsConsistent (publishes_to_exchange ex bp body) h c =
        SameShape-IsConsistent P (publish_to_exchange-SameShape P ex bp body h) c
    host_call-IsConsistent (publishes_ex ex key bp body) h c =
        SameShape-IsConsistent P (publish_ex-SameShape P ex key bp body h) c
    host_call-IsConsistent (consumes q) h c =
        SameShape-IsConsistent P (basic_consume-SameShape P q h) c
    host_call-IsConsistent (consumes_and_removes q) h c =
        SameShape-IsConsistent P (basic_consume_and_remove-SameShape P q h) c
    host_call-IsConsistent (acks q id) h c =
        SameShape-IsConsistent P (basic_ack-SameShape P q id h) c
    host_call-IsConsistent (nacks q id requeue reason) h c =
        SameShape-IsConsistent P (basic_nack-SameShape P q id requeue reason h) c
    host_call-IsConsistent queries h c = SameShape-IsConsistent P (basic_query-SameShape P h) c
    host_call-IsConsistent (reads_stats q) h c =
        SameShape-IsConsistent P (queue_runtime_stats-SameShape P q h) c
    host_call-IsConsistent (compacts opens q) h c =
        SameShape-IsConsistent P (compact_queue-SameShape P opens q h) c

    host_calls-IsConsistent :
        (calls : List HostCall) (h : Host P)
        → IsConsistent P h
        → IsConsistent P (host_calls calls h)
    unfolding host_calls
    host_calls-IsConsistent [] h c = c
    host_calls-IsConsistent (call ∷ calls) h c =
        host_calls-IsConsistent calls (host_call call h) (host_call-IsConsistent call h c)

    -- After any history of calls on a new virtual host, a queue has a message store exactly when
    -- it is declared, every binding is to a queue that exists, only exchanges that exist have
    -- bindings, and no queue is bound to an exchange twice. The exchange manager obeys the laws of
    -- `HasExchangeLaws`.
    pub host_calls-virtual_host-IsConsistent :
        (disk : Dict (List ℕ)) (seq : ℕ) (calls : List HostCall)
        → IsConsistent P (host_calls calls (virtual_host P disk seq))
    host_calls-virtual_host-IsConsistent disk seq calls =
        host_calls-IsConsistent calls (virtual_host P disk seq)
          (virtual_host-IsConsistent P disk seq)
