-- ===== src/Channel/Events.antt =====
-- Histories of requests, consume tasks and closings of src/server/channel.cpp.
use mq_work.Common.{
  ℕ, ◌≡◌, refl, sym, ◌∙◌, ap, List, [], ◌∷◌, arith, inl, inr, Option-cases, Bool-cases,
}
use mq_work.Common.Text.{Text}
use mq_work.Common.Dict.{Dict, find, contains}
use mq_work.Platform.{Platform}
use mq_work.Storage.{message_id_of}
use mq_work.Queue.Manager.{queue_manager}
use mq_work.Host.{VirtualHost, Host, exists_queue, select_exchange, recover_queues, virtual_host}
use mq_work.Host
use mq_work.Host.Consume.{basic_consume as take}
use mq_work.Host.View.{SameShape, publish_to_exchange-SameShape}
use mq_work.Host.Pulling.{
  basic_consume-SameShape, basic_ack-SameShape, basic_nack-SameShape, basic_query-SameShape,
}
use mq_work.Consumers.Manager.{ConsumerManager, choose}
use mq_work.Channel.{
  ChannelRef, ref_of, Channel, Broker, World, basic_response, consume_cb, consume, declare_exchange,
  delete_exchange, declare_queue, declare_queue_with_dlq, delete_queue, bind, unbind, basic_publish,
  basic_ack, basic_nack, basic_consume, basic_cancel, basic_query, close, config_of,
}
use mq_work.Channel.Served.{
  IsServed, contains-init, contains-destroy, contains-create, contains-remove, contains-choose,
  contains-declare_queue, contains-declare_queue_with_dlq, contains-delete_queue, bind-queue_mgr,
  unbind-queue_mgr,
}
use mq_work.Channel.Requests.{
  Request, declare_exchange_request, delete_exchange_request, declare_queue_request,
  declare_queue_with_dlq_request, delete_queue_request, bind_request, unbind_request,
  basic_publish_request, basic_ack_request, basic_nack_request, basic_consume_request,
  basic_cancel_request, basic_query_request, handle,
}

-- What happens to the broker: a request on some channel, a task, or the end of a channel.
pub data Event : Type 0 where
  requests : Request → Channel → Event
  runs_task : Text → Event
  closes : Channel → Event

-- A broker that has just started.
abbrev pub started : {E : Type 0} → VirtualHost E → Broker E
started h = record { host = h; consumers = []; sent = []; tasks = [] }

module _ (P : Platform) where
  unfoldable pub event : Event → World P → World P
  event (requests r ch) w = (handle P r ch w).1
  event (runs_task qname) w = consume P qname w
  event (closes ch) w = close P ch w

  unfoldable pub events : List Event → World P → World P
  events [] w = w
  events (e ∷ es) w = events es (event e w)

  abbrev pub IsServing : World P → Type 0
  IsServing w = IsServed w.host w.consumers

  -- The declared queues do not change.
  pub same_queues :
      (h h' : Host P) (m : ConsumerManager ChannelRef)
      → SameShape h h'
      → IsServed h m
      → IsServed h' m
  same_queues h h' m same s n = s n ∙ ap (contains n) (sym same.queues)

  same_consumers :
      (h : Host P) (m m' : ConsumerManager ChannelRef)
      → ((n : Text) → contains n m' ≡ contains n m)
      → IsServed h m
      → IsServed h m'
  same_consumers h m m' same s n = same n ∙ s n

  pub consume-IsServing : (q : Text) (w : World P) → IsServing w → IsServing (consume P q w)
  unfolding consume consume_cb
  consume-IsServing q w s =
      let r = take P q w.host in
      let s1 = same_queues w.host r.0 w.consumers (basic_consume-SameShape P q w.host) s in
      let s2 = same_consumers r.0 w.consumers _ (contains-choose q w.consumers) s1 in
      elim (Option-cases r.1) [
        | inl e ↦ rw (e, consume) s1
        | inr (m, e) ↦ elim (Option-cases (choose q w.consumers).1) [
          | inl f ↦ rw (e, f, consume) s2
          | inr (c, f) ↦ elim (Bool-cases c.auto_ack) [
            | inl a ↦
                rw (e, f, consume, a)
                  (same_queues r.0 _ _ (basic_ack-SameShape P q (message_id_of m) r.0) s2)
            | inr a ↦ rw (e, f, consume, a) s2
          ]
        ]
      ]

  pub close-IsServing : (ch : Channel) (w : World P) → IsServing w → IsServing (close P ch w)
  unfolding close
  close-IsServing ch w s = elim (Option-cases ch.consumer) [
    | inl e ↦ rw (e, close) s
    | inr (c, e) ↦
        rw (e, close) (same_consumers w.host _ _ (contains-remove c.tag c.qname w.consumers) s)
  ]

  pub handle-IsServing :
      (r : Request) (ch : Channel) (w : World P) → IsServing w → IsServing (handle P r ch w).1
  unfolding handle declare_exchange delete_exchange delete_queue bind unbind basic_ack basic_nack
      basic_cancel basic_query basic_response declare_queue declare_queue_with_dlq basic_publish
      basic_consume mq_work.Host.declare_exchange mq_work.Host.delete_exchange
  handle-IsServing (declare_exchange_request rid cid n t d a args) ch w s = s
  handle-IsServing (delete_exchange_request rid cid n) ch w s = s
  handle-IsServing (declare_queue_request rid cid q d x a args) ch w s =
      let declared = contains-declare_queue P q d x a args w.host in
      rw ((declared q).1, declare_queue)
        (λ n. ground (arith, (declared n).0, contains-init q w.consumers n, s n))
  handle-IsServing (declare_queue_with_dlq_request rid cid q d x a args dlq) ch w s =
      let declared = contains-declare_queue_with_dlq P q d x a args (config_of dlq) w.host in
      rw ((declared q).1, declare_queue_with_dlq)
        (λ n. ground (arith, (declared n).0, contains-init q w.consumers n, s n))
  handle-IsServing (delete_queue_request rid cid q) ch w s =
      λ n. ground (arith, contains-destroy q w.consumers n, contains-delete_queue P q w.host n, s n)
  handle-IsServing (bind_request rid cid ex q key) ch w s =
      λ n. s n ∙ ap (contains n) (sym (bind-queue_mgr P ex q key w.host))
  handle-IsServing (unbind_request rid cid ex q) ch w s =
      λ n. s n ∙ ap (contains n) (sym (unbind-queue_mgr P ex q w.host))
  handle-IsServing (basic_publish_request rid cid ex bp body) ch w s =
      elim (Option-cases (select_exchange P ex w.host)) [
        | inl e ↦ rw (e, basic_publish) s
        | inr (_, e) ↦
            rw (e, basic_publish)
              (same_queues w.host _ _ (publish_to_exchange-SameShape P ex bp body w.host) s)
      ]
  handle-IsServing (basic_ack_request rid cid q id) ch w s =
      same_queues w.host _ _ (basic_ack-SameShape P q id w.host) s
  handle-IsServing (basic_nack_request rid cid q id requeue reason) ch w s =
      same_queues w.host _ _ (basic_nack-SameShape P q id requeue reason w.host) s
  handle-IsServing (basic_consume_request rid cid tag q auto) ch w s =
      elim (Bool-cases (exists_queue P q w.host)) [
        | inl e ↦
            rw (e, basic_consume)
              (same_consumers w.host _ _ (contains-create tag q auto (ref_of ch) w.consumers) s)
        | inr e ↦ rw (e, basic_consume) s
      ]
  handle-IsServing (basic_cancel_request rid cid tag q) ch w s =
      same_consumers w.host _ _ (contains-remove tag q w.consumers) s
  handle-IsServing (basic_query_request rid cid) ch w s =
      same_queues w.host _ _ (basic_query-SameShape P w.host) s

  event-IsServing : (e : Event) (w : World P) → IsServing w → IsServing (event e w)
  unfolding event
  event-IsServing (requests r ch) w s = handle-IsServing r ch w s
  event-IsServing (runs_task q) w s = consume-IsServing q w s
  event-IsServing (closes ch) w s = close-IsServing ch w s

  events-IsServing : (es : List Event) (w : World P) → IsServing w → IsServing (events es w)
  unfolding events
  events-IsServing [] w s = s
  events-IsServing (e ∷ es) w s = events-IsServing es (event e w) (event-IsServing e w s)

  -- Whatever requests, tasks and closings a new broker sees, a queue has a list of consumers exactly
  -- when the virtual host has the queue.
  pub events-IsServed :
      (disk : Dict (List ℕ)) (seq : ℕ) (es : List Event)
      → let w = events es (started (virtual_host P disk seq)) in IsServed w.host w.consumers
  unfolding virtual_host recover_queues queue_manager find
  events-IsServed disk seq es = events-IsServing es (started (virtual_host P disk seq)) (λ n. refl)
