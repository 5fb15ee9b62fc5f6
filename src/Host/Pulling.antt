-- ===== src/Host/Pulling.antt =====
-- What the consuming operations of src/server/virtual_host.cpp change: only stores that are there.
use mq_work.Common.{
  ◌≡◌, refl, Bool, true, none, some, [], ◌∷◌, arith, is_empty, Option-cases, inl, inr, Bool-cases,
  eqb,
}
use mq_work.Common.Text.{Text, eq_iff, eq_refl}
use mq_work.Common.Dict.{Dict, find, contains}
use mq_work.Proto.{Message}
use mq_work.Queue.{MsgQueue, has_dead_letter_config}
use mq_work.Queue.Manager.{select_queue}
use mq_work.Storage.{QueueMessage, front, get_all_messages, getable_count}
use mq_work.Platform.{Platform}
use mq_work.Host.{Host, generate_id}
use mq_work.Host.Consume.{
  remove_from, find_message, basic_consume, basic_consume_and_remove, basic_ack, dead_letter,
  basic_nack, query_loop, basic_query, queue_runtime_stats, compact_queue,
}
use mq_work.Host.View.{
  SameShape, SameShape-refl, SameShape-trans, put_store-SameShape, publish_to_exchange-SameShape,
}

module _ (P : Platform) where
  pub basic_consume-SameShape : (name : Text) (h : Host P) → SameShape h (basic_consume P name h).0
  unfolding basic_consume remove_from
  basic_consume-SameShape name h = elim (Option-cases (find name h.queue_messages)) [
    | inl e ↦ rw (e, basic_consume) (SameShape-refl h)
    | inr (store, e) ↦ elim (Option-cases (front store)) [
      | inl f ↦ rw (e, basic_consume, f) (SameShape-refl h)
      | inr (m, f) ↦ rw (e, basic_consume, f) (put_store-SameShape h name store _ e)
    ]
  ]

  pub basic_ack-SameShape : (name id : Text) (h : Host P) → SameShape h (basic_ack P name id h)
  unfolding basic_ack remove_from
  basic_ack-SameShape name id h = elim (Option-cases (find name h.queue_messages)) [
    | inl e ↦ rw (e, basic_ack) (SameShape-refl h)
    | inr (store, e) ↦ rw (e, basic_ack) (put_store-SameShape h name store _ e)
  ]

  pub basic_consume_and_remove-SameShape :
      (name : Text) (h : Host P) → SameShape h (basic_consume_and_remove P name h).0
  unfolding basic_consume_and_remove remove_from
  basic_consume_and_remove-SameShape name h = elim (Option-cases (find name h.queue_messages)) [
    | inl e ↦ rw (e, basic_consume_and_remove) (SameShape-refl h)
    | inr (store, e) ↦ elim (Option-cases (front store)) [
      | inl f ↦ rw (e, basic_consume_and_remove, f) (SameShape-refl h)
      | inr (m, f) ↦ rw (e, basic_consume_and_remove, f) (put_store-SameShape h name store _ e)
    ]
  ]

  generate_id-SameShape : (h : Host P) → SameShape h (generate_id P h).0
  unfolding generate_id
  generate_id-SameShape h = record {
    exchanges = refl;
    queues = refl;
    bindings = refl;
    stores = λ n. refl;
  }

  dead_letter-SameShape :
      (name id : Text) (q : MsgQueue) (target : Message) (h : Host P)
      → SameShape h (dead_letter P name id q target h)
  unfolding dead_letter
  dead_letter-SameShape name id q target h =
      elim (Bool-cases (is_empty q.dlq_config.exchange_name)) [
        | inl e ↦ rw e (SameShape-trans (generate_id-SameShape h) (basic_ack-SameShape name id _))
        | inr e ↦ rw e (
            SameShape-trans (generate_id-SameShape h) (
              SameShape-trans (publish_to_exchange-SameShape P _ _ _ _)
                (basic_ack-SameShape name id _)))
      ]

  nacked :
      (name id : Text) (store : QueueMessage) (q : MsgQueue) (h : Host P)
      → SameShape h (elim (front store) as (λ _. Host P) [
        | none ↦ h
        | some _ ↦ elim (find_message id (get_all_messages store)) [
          | none ↦ h
          | some target ↦ dead_letter P name id q target h
        ]
      ])
  nacked name id store q h = elim (Option-cases (front store)) [
    | inl e ↦ rw e (SameShape-refl h)
    | inr (m, e) ↦ elim (Option-cases (find_message id (get_all_messages store))) [
      | inl f ↦ rw (e, f) (SameShape-refl h)
      | inr (target, f) ↦ rw (e, f) (dead_letter-SameShape name id q target h)
    ]
  ]

  pub basic_nack-SameShape :
      (name id : Text) (requeue : Bool) (reason : Text) (h : Host P)
      → SameShape h (basic_nack P name id requeue reason h)
  unfolding basic_nack
  basic_nack-SameShape name id requeue reason h = elim (Option-cases (find name h.queue_messages)) [
    | inl e ↦ rw (e, basic_nack) (SameShape-refl h)
    | inr (store, e) ↦ elim (Option-cases (select_queue h.queue_mgr name)) [
      | inl f ↦ rw (e, basic_nack, f) (SameShape-refl h)
      | inr (q, f) ↦ elim (Bool-cases requeue) [
        | inl r ↦ rw (e, basic_nack, f, r) (SameShape-refl h)
        | inr r ↦ elim (Bool-cases (has_dead_letter_config q)) [
          | inl d ↦ rw (e, basic_nack, f, r, d) (nacked name id store q h)
          | inr d ↦
              rw (e, basic_nack, f, r, d)
                (unfold remove_from in put_store-SameShape h name store _ e)
        ]
      ]
    ]
  ]

  query_loop-SameShape :
      (stores : Dict QueueMessage) (h : Host P)
      → ((n : Text) → contains n stores ≡ true → contains n h.queue_messages ≡ true)
      → SameShape h (query_loop P stores h).0
  unfolding query_loop remove_from find
  query_loop-SameShape [] h inside = SameShape-refl h
  query_loop-SameShape ((name, store) ∷ stores) h inside =
      let rest =
        query_loop-SameShape stores h (λ n c. inside n (ground (arith, eq_iff name n, c))) in
      let there : contains name h.queue_messages ≡ true =
        inside name (ground (arith, eq_refl name)) in
      elim (Bool-cases (eqb (getable_count store) 0)) [
        | inl e ↦ rw (e, query_loop) rest
        | inr e ↦ elim (Option-cases (front store)) [
          | inl f ↦ rw (e, query_loop, f) rest
          | inr (m, f) ↦ elim (Option-cases (find name h.queue_messages)) [
            | inl g ↦ absurd (ground (arith, g, there))
            | inr (old, g) ↦ rw (e, query_loop, f) (put_store-SameShape h name old _ g)
          ]
        ]
      ]

  pub basic_query-SameShape : (h : Host P) → SameShape h (basic_query P h).0
  unfolding basic_query
  basic_query-SameShape h = query_loop-SameShape h.queue_messages h (λ n c. c)

  pub queue_runtime_stats-SameShape :
      (name : Text) (h : Host P) → SameShape h (queue_runtime_stats P name h).1
  unfolding queue_runtime_stats
  queue_runtime_stats-SameShape name h = elim (Option-cases (find name h.queue_messages)) [
    | inl e ↦ rw (e, queue_runtime_stats) (SameShape-refl h)
    | inr (store, e) ↦ rw (e, queue_runtime_stats) (put_store-SameShape h name store _ e)
  ]

  pub compact_queue-SameShape :
      (opens : Bool) (name : Text) (h : Host P) → SameShape h (compact_queue P opens name h)
  unfolding compact_queue
  compact_queue-SameShape opens name h = elim (Option-cases (find name h.queue_messages)) [
    | inl e ↦ rw (e, compact_queue) (SameShape-refl h)
    | inr (store, e) ↦ rw (e, compact_queue) (put_store-SameShape h name store _ e)
  ]
