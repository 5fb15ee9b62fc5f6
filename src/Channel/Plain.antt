-- ===== src/Channel/Plain.antt =====
-- src/server/channel.cpp: the tasks that a request pushes, against the messages that it adds.
use mathlib.Core.List.{append-nil}
use mq_work.Common.{
  ◌≡◌, refl, ap, sym, Bool, true, false, not, Option, [], arith, Option-cases, Bool-cases, inl, inr,
}
use mq_work.Common.Text.{Text}
use mq_work.Common.Dict.{find, DistinctKeys}
use mq_work.Platform.{Platform}
use mq_work.Host.{map_of, Host, exchange_bindings, select_exchange, exists_queue}
use mq_work.Host
use mq_work.Host.View.{publish_to_exchange-SameShape}
use mq_work.Host.Sizes.{
  basic_ack-Shrinks, basic_query-Shrinks, declare_queue-Shrinks, declare_queue_with_dlq-Shrinks,
  delete_queue-Shrinks, basic_nack-requeue,
}
use mq_work.Proto.{Args, BasicProperties}
use mq_work.Queue.{DeadLetterConfig}
use mq_work.Host.Publish.{publish_to_exchange}
use mq_work.Host.PublishedSizes.{copies, publish_to_exchange-Adds}
use mq_work.Channel.{
  queue_names, Channel, World, basic_response, declare_exchange, delete_exchange, declare_queue,
  declare_queue_with_dlq, delete_queue, bind, unbind, basic_publish, basic_ack, basic_nack,
  basic_consume, basic_cancel, basic_query, config_of,
}
use mq_work.Channel.Backlog.{Covers, Covers-less, Covers-same}
use mq_work.Channel.Requests.{
  Request, declare_exchange_request, delete_exchange_request, declare_queue_request,
  declare_queue_with_dlq_request, delete_queue_request, bind_request, unbind_request,
  basic_publish_request, basic_ack_request, basic_nack_request, basic_consume_request,
  basic_cancel_request, basic_query_request, handle,
}

-- A request that neither reads messages from a file nor makes dead letters: what it declares is not
-- durable, and what it rejects it wants again.
abbrev pub is_plain : Request → Bool
is_plain (declare_queue_request rid cid n d x a args) = not d
is_plain (declare_queue_with_dlq_request rid cid n d x a args dlq) = not d
is_plain (basic_nack_request rid cid q id requeue reason) = requeue
is_plain r = true

abbrev pub IsPlain : Request → Type 0
IsPlain r = is_plain r ≡ true

module _ (P : Platform) where
  -- A request to publish pushes a task for every binding of the exchange, once a message was put
  -- into some queue.
  basic_publish-Covers :
      (ch : Channel) (rid cid ex body : Text) (bp : Option BasicProperties) (w : World P)
      → DistinctKeys w.host.queue_messages
      → Covers P w (basic_publish P ch rid cid ex bp body w)
  unfolding basic_publish basic_response copies
  basic_publish-Covers ch rid cid ex body bp w d =
      let adds = publish_to_exchange-Adds P ex bp body w.host d in
      let r = publish_to_exchange P ex bp body w.host in
      let same = (publish_to_exchange-SameShape P ex bp body w.host).bindings in
      let bound : exchange_bindings P ex r.0 ≡ exchange_bindings P ex w.host =
        unfold exchange_bindings in ap (λ m. map_of (find ex m)) same in
      elim (Option-cases (select_exchange P ex w.host)) [
        | inl e ↦ rw (e, basic_publish) (Covers-same P w _ d refl refl)
        | inr (x, e) ↦ elim (Bool-cases r.2) [
          | inl f ↦
              rw (e, basic_publish, f)
                (record {
                  names = adds.distinct;
                  pushed = queue_names (exchange_bindings P ex r.0);
                  tasks = refl;
                  more =
                      λ q. ground (arith, adds.more q, f, ap (λ m. copies q (queue_names m)) bound);
                })
          | inr f ↦
              rw (e, basic_publish, f)
                (record {
                  names = adds.distinct;
                  pushed = [];
                  tasks = sym (append-nil w.tasks);
                  more = λ q. ground (arith, adds.more q, f);
                })
        ]
      ]

  bind-stores :
      (ex q key : Text) (h : Host P) → (Host.bind P ex q key h).0.queue_messages ≡ h.queue_messages
  unfolding Host.bind Host.bind_args
  bind-stores ex q key h = ground arith

  unbind-stores :
      (ex q : Text) (h : Host P) → (Host.unbind P ex q h).queue_messages ≡ h.queue_messages
  unfolding Host.unbind
  unbind-stores ex q h = ground arith

  declared-Covers :
      (ch : Channel) (rid cid n : Text) (x a : Bool) (args : Args) (w : World P)
      → DistinctKeys w.host.queue_messages
      → Covers P w (declare_queue P ch rid cid n false x a args w)
  unfolding declare_queue basic_response
  declared-Covers ch rid cid n x a args w d =
      let less = declare_queue-Shrinks P n x a args w.host d in
      elim (Bool-cases (Host.declare_queue P n false x a args w.host).1) [
        | inl e ↦ rw (e, declare_queue) (Covers-less P w _ less refl)
        | inr e ↦ rw (e, declare_queue) (Covers-less P w _ less refl)
      ]

  declared_with_dlq-Covers :
      (ch : Channel) (rid cid n : Text) (x a : Bool) (args : Args) (dlq : Option DeadLetterConfig)
      (w : World P)
      → DistinctKeys w.host.queue_messages
      → Covers P w (declare_queue_with_dlq P ch rid cid n false x a args dlq w)
  unfolding declare_queue_with_dlq basic_response
  declared_with_dlq-Covers ch rid cid n x a args dlq w d =
      let c = config_of dlq in
      let less = declare_queue_with_dlq-Shrinks P n x a args c w.host d in
      elim (Bool-cases (Host.declare_queue_with_dlq P n false x a args c w.host).1) [
        | inl e ↦ rw (e, declare_queue_with_dlq) (Covers-less P w _ less refl)
        | inr e ↦ rw (e, declare_queue_with_dlq) (Covers-less P w _ less refl)
      ]

  basic_consume-Covers :
      (ch : Channel) (rid cid tag q : Text) (auto : Bool) (w : World P)
      → DistinctKeys w.host.queue_messages
      → Covers P w (basic_consume P ch rid cid tag q auto w).1
  unfolding basic_consume basic_response
  basic_consume-Covers ch rid cid tag q auto w d = elim (Bool-cases (exists_queue P q w.host)) [
    | inl e ↦ rw (e, basic_consume) (Covers-same P w _ d refl refl)
    | inr e ↦ rw (e, basic_consume) (Covers-same P w _ d refl refl)
  ]

  -- A plain request adds no more messages to a queue than it pushes tasks for it.
  pub handle-Covers :
      (r : Request) (ch : Channel) (w : World P)
      → IsPlain r
      → DistinctKeys w.host.queue_messages
      → Covers P w (handle P r ch w).1
  unfolding handle declare_exchange Host.declare_exchange delete_exchange Host.delete_exchange
      delete_queue bind unbind basic_ack basic_nack basic_cancel basic_query basic_response
  handle-Covers (declare_exchange_request rid cid n t d a args) ch w p k =
      Covers-same P w _ k refl refl
  handle-Covers (delete_exchange_request rid cid n) ch w p k = Covers-same P w _ k refl refl
  handle-Covers (declare_queue_request rid cid n false x a args) ch w p k =
      declared-Covers ch rid cid n x a args w k
  handle-Covers (declare_queue_request rid cid n true x a args) ch w p k = absurd (ground arith)
  handle-Covers (declare_queue_with_dlq_request rid cid n false x a args dlq) ch w p k =
      declared_with_dlq-Covers ch rid cid n x a args dlq w k
  handle-Covers (declare_queue_with_dlq_request rid cid n true x a args dlq) ch w p k =
      absurd (ground arith)
  handle-Covers (delete_queue_request rid cid n) ch w p k =
      Covers-less P w _ (delete_queue-Shrinks P n w.host k) refl
  handle-Covers (bind_request rid cid ex q key) ch w p k =
      Covers-same P w _ k (bind-stores ex q key w.host) refl
  handle-Covers (unbind_request rid cid ex q) ch w p k =
      Covers-same P w _ k (unbind-stores ex q w.host) refl
  handle-Covers (basic_publish_request rid cid ex bp body) ch w p k =
      basic_publish-Covers ch rid cid ex body bp w k
  handle-Covers (basic_ack_request rid cid q id) ch w p k =
      Covers-less P w _ (basic_ack-Shrinks P q id w.host k) refl
  handle-Covers (basic_nack_request rid cid q id true reason) ch w p k =
      Covers-same P w _ k
        (ap (λ (h : Host P). h.queue_messages) (basic_nack-requeue P q id reason w.host)) refl
  handle-Covers (basic_nack_request rid cid q id false reason) ch w p k = absurd (ground arith)
  handle-Covers (basic_consume_request rid cid tag q auto) ch w p k =
      basic_consume-Covers ch rid cid tag q auto w k
  handle-Covers (basic_cancel_request rid cid tag q) ch w p k = Covers-same P w _ k refl refl
  handle-Covers (basic_query_request rid cid) ch w p k =
      Covers-less P w _ (basic_query-Shrinks P w.host k) refl
