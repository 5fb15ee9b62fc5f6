-- ===== src/Host/PublishedSizes.antt =====
-- `publish_to_exchange` of src/server/virtual_host.cpp: how many messages it puts into a queue.
use mq_work.Common.{
  ℕ, ◌+◌, ◌≤◌, ◌≡◌, Bool, true, false, ◌||◌, ◌&&◌, Option, none, some, List, [], ◌∷◌, ◌++◌, arith,
  if◌then◌else◌, length-append, Option-cases, Bool-cases, inl, inr, is_empty,
}
use mq_work.Common.Text.{Text, ◌==◌}
use mq_work.Common.Dict.{find, DistinctKeys, DistinctKeys-put}
use mq_work.Proto.{BasicProperties}
use mq_work.Storage.{QueueMessage}
use mq_work.Platform.{Platform}
use mq_work.Host.{Host, Binding, BindingMap, exchange_bindings, select_exchange}
use mq_work.Host.Publish.{
  with_id, accept_key, enqueue, publish_to_store, basic_publish, publish_loop, publish_to_exchange,
}
use mq_work.Host.Delivery.{queue_contents, stamped, with_id_lem, basic_publish-Published}
use mq_work.Host.Sizes.{waiting}
use mq_work.Channel.{queue_names}

-- How often a queue stands in the list.
unfoldable pub copies : Text → List Text → ℕ
copies q [] = 0
copies q (n ∷ names) = (if n == q then 1 else 0) + copies q names

pub copies-append : (q : Text) (xs ys : List Text) → copies q (xs ++ ys) ≡ copies q xs + copies q ys
unfolding copies
copies-append q [] ys = omega arith
copies-append q (x ∷ xs) ys = ground (arith, copies-append q xs ys)

module _ (P : Platform) where
  publish_to_store-names :
      (name : Text) (store : QueueMessage) (bp : Option BasicProperties) (body : Text) (h : Host P)
      → DistinctKeys h.queue_messages
      → DistinctKeys (publish_to_store P name store bp body h).0.queue_messages
  unfolding publish_to_store enqueue accept_key
  publish_to_store-names name store none body h d = DistinctKeys-put name _ h.queue_messages d
  publish_to_store-names name store (some p) body h d =
      elim (Option-cases (accept_key name (with_id P p h).1)) [
        | inl e ↦ rw (e, publish_to_store, (with_id_lem P p h).1) d
        | inr (p', e) ↦
            rw (e, publish_to_store, (with_id_lem P p h).1)
              (DistinctKeys-put name _ h.queue_messages d)
      ]

  basic_publish-names :
      (name : Text) (bp : Option BasicProperties) (body : Text) (h : Host P)
      → DistinctKeys h.queue_messages
      → DistinctKeys (basic_publish P name bp body h).0.queue_messages
  unfolding basic_publish
  basic_publish-names name bp body h d = elim (Option-cases (find name h.queue_messages)) [
    | inl e ↦ rw (e, basic_publish) d
    | inr (store, e) ↦ rw (e, basic_publish) (publish_to_store-names name store bp body h d)
  ]

  basic_publish-waiting :
      (name : Text) (bp : Option BasicProperties) (body : Text) (h : Host P) (q : Text)
      → let r = basic_publish P name bp body h in
        waiting q r.0 ≡ waiting q h + (if r.2 && name == q then 1 else 0)
  basic_publish-waiting name bp body h q = ground (
    arith,
    basic_publish-Published P name bp body h q,
    length-append (queue_contents q h)
        (record { properties = stamped name bp h.seq; body = body } ∷ []),
  )

  -- What a call that publishes adds to a queue: a message for each binding at most, and none
  -- unless it reports success.
  pub record Adds (names : List Text) (h : Host P) (r : Host P × Option BasicProperties × Bool)
      : Type 0 where
    pub distinct : DistinctKeys r.0.queue_messages
    pub more : (q : Text) → waiting q r.0 ≤ waiting q h + (if r.2 then copies q names else 0)

  publish_loop-Adds :
      (test : Binding → Bool) (bindings : BindingMap) (bp : Option BasicProperties) (body : Text)
      (published : Bool) (h : Host P)
      → DistinctKeys h.queue_messages
      → let r = publish_loop P test bindings bp body published h in
        (published ≡ true → r.2 ≡ true) × Adds (queue_names bindings) h r
  unfolding publish_loop copies
  publish_loop-Adds test [] bp body published h d =
      ((λ e. e), record { distinct = d; more = λ q. ground arith })
  publish_loop-Adds test ((n, b) ∷ bindings) bp body published h d = elim (Bool-cases (test b)) [
    | inr miss ↦
        let (stays, rest) = publish_loop-Adds test bindings bp body published h d in
        rw (miss, publish_loop)
          (stays, record { distinct = rest.distinct; more = λ q. ground (arith, rest.more q) })
    | inl hit ↦
        let (h1, bp1, r) = basic_publish P n bp body h in
        let (stays, rest) =
          publish_loop-Adds test bindings bp1 body (published || r) h1
            (basic_publish-names n bp body h d) in
        rw (hit, publish_loop)
          (
            (λ e. stays (ground (arith, e))),
            record {
              distinct = rest.distinct;
              more = λ q. ground (arith, rest.more q, stays, basic_publish-waiting n bp body h q);
            },
          )
  ]

  pub publish_to_exchange-Adds :
      (ex : Text) (bp : Option BasicProperties) (body : Text) (h : Host P)
      → DistinctKeys h.queue_messages
      → Adds (queue_names (exchange_bindings P ex h)) h (publish_to_exchange P ex bp body h)
  unfolding publish_to_exchange
  publish_to_exchange-Adds ex bp body h d =
      let failed : Adds (queue_names (exchange_bindings P ex h)) h (h, bp, false) = record {
        distinct = d;
        more = λ q. ground arith;
      } in
      elim (Option-cases (select_exchange P ex h)) [
        | inl e ↦ rw (e, publish_to_exchange) failed
        | inr (x, e) ↦ elim (Bool-cases (is_empty (exchange_bindings P ex h))) [
          | inl f ↦ rw (e, publish_to_exchange, f) failed
          | inr f ↦ rw (e, publish_to_exchange, f) (publish_loop-Adds _ _ bp body false h d).1
        ]
      ]
