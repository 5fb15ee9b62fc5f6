-- ===== src/Host/View.antt =====
-- What the message operations of src/server/virtual_host.cpp change: only stores that are there.
use mq_work.Common.{
  ◌≡◌, refl, ◌∙◌, ap, Bool, true, false, Option, none, some, [], ◌∷◌, arith, if◌then◌else◌,
  is_empty, Option-cases, inl, inr, Bool-cases,
}
use mq_work.Common.Text.{Text, eq_iff}
use mq_work.Common.Dict.{Dict, find, put, contains, find-put}
use mq_work.Proto.{BasicProperties, default_properties, ExchangeType}
use mq_work.Storage.{QueueMessage}
use mq_work.Route.{match_route}
use mq_work.Platform.{Platform}
use mq_work.Host.{
  VirtualHost, Host, Binding, BindingMap, generate_id, select_exchange, exchange_bindings,
}
use mq_work.Host.Publish.{
  with_id, enqueue, accept_key, publish_to_store, basic_publish, publish_loop, publish_to_exchange,
  deliver, publish_ex_loop, publish_ex, keyed,
}

-- The host is the same but for the messages in its stores, the counter of ids and the stores' files.
pub record SameShape {E : Type 0} (h h' : VirtualHost E) : Type 0 where
  pub exchanges : h'.exchange_mgr ≡ h.exchange_mgr
  pub queues : h'.queue_mgr ≡ h.queue_mgr
  pub bindings : h'.exchange_bindings ≡ h.exchange_bindings
  pub stores : (n : Text) → contains n h'.queue_messages ≡ contains n h.queue_messages

contains-put :
    {V : Type 0} (k n : Text) (v w : V) (m : Dict V)
    → find k m ≡ some v
    → contains n (put k w m) ≡ contains n m
contains-put k n v w m e = ground (arith, find-put k n w m, eq_iff k n)

module _ {E : Type 0} where
  pub SameShape-refl : (h : VirtualHost E) → SameShape h h
  SameShape-refl h = record { exchanges = refl; queues = refl; bindings = refl; stores = λ n. refl }

  pub SameShape-trans : {h i j : VirtualHost E} → SameShape h i → SameShape i j → SameShape h j
  SameShape-trans a b = record {
    exchanges = b.exchanges ∙ a.exchanges;
    queues = b.queues ∙ a.queues;
    bindings = b.bindings ∙ a.bindings;
    stores = λ n. b.stores n ∙ a.stores n;
  }

  pub SameShape-if :
      (b : Bool) (h i : VirtualHost E) → SameShape h i → SameShape h (if b then i else h)
  SameShape-if true h i s = s
  SameShape-if false h i s = SameShape-refl h

  -- Storing something else for a queue that has a store.
  pub put_store-SameShape :
      (h : VirtualHost E) (name : Text) (old new : QueueMessage)
      → find name h.queue_messages ≡ some old
      → SameShape h (record h { queue_messages = put name new h.queue_messages })
  put_store-SameShape h name old new e = record {
    exchanges = refl;
    queues = refl;
    bindings = refl;
    stores = λ n. contains-put name n old new h.queue_messages e;
  }

module _ (P : Platform) where
  with_id-queue_messages :
      (p : BasicProperties) (h : Host P) → (with_id P p h).0.queue_messages ≡ h.queue_messages
  unfolding with_id generate_id
  with_id-queue_messages p h = ground arith

  with_id-SameShape : (p : BasicProperties) (h : Host P) → SameShape h (with_id P p h).0
  unfolding with_id generate_id
  with_id-SameShape p h = record {
    exchanges = ground arith;
    queues = ground arith;
    bindings = ground arith;
    stores = λ n. ground arith;
  }

  enqueue-SameShape :
      (name : Text) (store : QueueMessage) (p : BasicProperties) (body : Text) (h : Host P)
      → find name h.queue_messages ≡ some store
      → SameShape h (enqueue P name store p body h).0
  unfolding enqueue
  enqueue-SameShape name store p body h e = put_store-SameShape h name store _ e

  publish_to_store-SameShape :
      (name : Text) (store : QueueMessage) (bp : Option BasicProperties) (body : Text) (h : Host P)
      → find name h.queue_messages ≡ some store
      → SameShape h (publish_to_store P name store bp body h).0
  unfolding publish_to_store
  publish_to_store-SameShape name store none body h e =
      elim (Option-cases (accept_key name default_properties)) [
        | inl a ↦ rw (a, publish_to_store) (SameShape-refl h)
        | inr (p, a) ↦ rw (a, publish_to_store) (enqueue-SameShape name store p body h e)
      ]
  publish_to_store-SameShape name store (some bp) body h e =
      elim (Option-cases (accept_key name (with_id P bp h).1)) [
        | inl a ↦ rw (a, publish_to_store) (with_id-SameShape bp h)
        | inr (p, a) ↦
            rw (a, publish_to_store)
              (SameShape-trans (with_id-SameShape bp h) (
                enqueue-SameShape name store p body (with_id P bp h).0
                  (ap (find name) (with_id-queue_messages bp h) ∙ e)))
      ]

  pub basic_publish-SameShape :
      (name : Text) (bp : Option BasicProperties) (body : Text) (h : Host P)
      → SameShape h (basic_publish P name bp body h).0
  unfolding basic_publish
  basic_publish-SameShape name bp body h = elim (Option-cases (find name h.queue_messages)) [
    | inl e ↦ rw (e, basic_publish) (SameShape-refl h)
    | inr (store, e) ↦ rw (e, basic_publish) (publish_to_store-SameShape name store bp body h e)
  ]

  publish_loop-SameShape :
      (test : Binding → Bool) (bindings : BindingMap) (bp : Option BasicProperties) (body : Text)
      (published : Bool) (h : Host P)
      → SameShape h (publish_loop P test bindings bp body published h).0
  unfolding publish_loop
  publish_loop-SameShape test [] bp body published h = SameShape-refl h
  publish_loop-SameShape test ((q, b) ∷ bindings) bp body published h =
      SameShape-trans (SameShape-if (test b) h _ (basic_publish-SameShape q bp body h))
        (publish_loop-SameShape test bindings _ body _ _)

  pub publish_to_exchange-SameShape :
      (name : Text) (bp : Option BasicProperties) (body : Text) (h : Host P)
      → SameShape h (publish_to_exchange P name bp body h).0
  unfolding publish_to_exchange
  publish_to_exchange-SameShape name bp body h = elim (Option-cases (select_exchange P name h)) [
    | inl e ↦ rw (e, publish_to_exchange) (SameShape-refl h)
    | inr (ex, e) ↦ elim (Bool-cases (is_empty (exchange_bindings P name h))) [
      | inl b ↦ rw (e, b, publish_to_exchange) (SameShape-refl h)
      | inr b ↦
          rw (e, b, publish_to_exchange)
            (publish_loop-SameShape _ (exchange_bindings P name h) bp body false h)
    ]
  ]

  pub deliver-SameShape :
      (name : Text) (p : BasicProperties) (body : Text) (h : Host P)
      → SameShape h (deliver P name p body h).0
  unfolding deliver
  deliver-SameShape name p body h = elim (Option-cases (find name h.queue_messages)) [
    | inl e ↦ rw (e, deliver) (SameShape-refl h)
    | inr (store, e) ↦ rw (e, deliver) (enqueue-SameShape name store p body h e)
  ]

  publish_ex_loop-SameShape :
      (type : ExchangeType) (bindings : BindingMap) (p : BasicProperties) (body : Text)
      (delivered : Bool) (h : Host P)
      → SameShape h (publish_ex_loop P type bindings p body delivered h).0
  unfolding publish_ex_loop
  publish_ex_loop-SameShape type [] p body delivered h = SameShape-refl h
  publish_ex_loop-SameShape type ((q, b) ∷ bindings) p body delivered h =
      SameShape-trans
        (SameShape-if (match_route type p.routing_key b.binding_key) h _
          (deliver-SameShape q p body h))
        (publish_ex_loop-SameShape type bindings p body _ _)

  pub publish_ex-SameShape :
      (name key : Text) (bp : Option BasicProperties) (body : Text) (h : Host P)
      → SameShape h (publish_ex P name key bp body h).0
  unfolding publish_ex
  publish_ex-SameShape name key bp body h = elim (Option-cases (select_exchange P name h)) [
    | inl e ↦ rw (e, publish_ex) (SameShape-refl h)
    | inr (ex, e) ↦
        rw (e, publish_ex)
          (publish_ex_loop-SameShape (P.exchange_type ex) (exchange_bindings P name h)
            (keyed key bp) body false h)
  ]
