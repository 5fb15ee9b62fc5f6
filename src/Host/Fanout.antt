-- ===== src/Host/Fanout.antt =====
-- `publish_ex` of src/server/virtual_host.cpp: a copy for every queue whose binding matches.
use mq_work.Common.{
  ◌≡◌, refl, Bool, false, ◌&&◌, ◌||◌, Option, none, some, [], ◌∷◌, ◌++◌, arith, if◌then◌else◌,
  Option-cases, inl, inr, Bool-cases,
}
use mq_work.Common.Text.{Text, ◌==◌, eq_iff}
use mq_work.Common.Dict.{find, contains, DistinctKeys}
use mq_work.Proto.{ExchangeType, BasicProperties}
use mq_work.Route.{match_route}
use mq_work.Platform.{Platform}
use mq_work.Host.{Host, Binding, BindingMap, select_exchange, exchange_bindings}
use mq_work.Host.Publish.{deliver, publish_ex_loop, publish_ex, keyed}
use mq_work.Host.View.{deliver-SameShape}
use mq_work.Host.Delivery.{queue_contents, enqueue_lem}
use mq_work.Host.Loop.{passes}

-- Does a binding accept the key?
abbrev pub matched_by : ExchangeType → Text → Binding → Bool
matched_by type key b = match_route type key b.binding_key

module _ (P : Platform) where
  deliver_lem :
      (q : Text) (p : BasicProperties) (body : Text) (h : Host P) (k : Text)
      → ((deliver P q p body h).1 ≡ contains q h.queue_messages)
        × (queue_contents k (deliver P q p body h).0 ≡ (
            if contains q h.queue_messages && q == k
            then queue_contents k h ++ record { properties = p; body = body } ∷ []
            else queue_contents k h))
  unfolding deliver
  deliver_lem q p body h k = elim (Option-cases (find q h.queue_messages)) [
    | inl e ↦ rw (e, deliver) (refl, refl)
    | inr (store, e) ↦ rw (e, deliver) (enqueue_lem P q store p body h k e)
  ]

  -- The messages of a queue after the loop, and whether some queue was reached.
  abbrev pub reached : (Binding → Bool) → BindingMap → Host P → Bool
  reached test [] h = false
  reached test ((q, b) ∷ bindings) h =
      (test b && contains q h.queue_messages) || reached test bindings h

  pub reached_same :
      (test : Binding → Bool) (bindings : BindingMap) (h h' : Host P)
      → ((n : Text) → contains n h'.queue_messages ≡ contains n h.queue_messages)
      → reached test bindings h' ≡ reached test bindings h
  reached_same test [] h h' same = refl
  reached_same test ((q, b) ∷ bindings) h h' same =
      ground (arith, same q, reached_same test bindings h h' same)

  abbrev Spread :
      Bool
      → (Binding → Bool)
      → BindingMap
      → BasicProperties
      → Text
      → Host P
      → Host P × Bool
      → Text
      → Type 0
  Spread delivered test bindings p body h (h', r) k =
      (r ≡ (delivered || reached test bindings h))
      × (queue_contents k h' ≡ (
          if passes test (find k bindings) && contains k h.queue_messages
          then queue_contents k h ++ record { properties = p; body = body } ∷ []
          else queue_contents k h))

  publish_ex_loop-Spread :
      (type : ExchangeType) (bindings : BindingMap) (p : BasicProperties) (body : Text)
      (delivered : Bool) (h : Host P) (k : Text)
      → DistinctKeys bindings
      → Spread delivered
          (matched_by type p.routing_key)
          bindings
          p
          body
          h
          (publish_ex_loop P type bindings p body delivered h)
          k
  unfolding publish_ex_loop find
  publish_ex_loop-Spread type [] p body delivered h k d = (ground arith, refl)
  publish_ex_loop-Spread type ((q, b) ∷ bindings) p body delivered h k d =
      let test = matched_by type p.routing_key in
      let (h1, r) = deliver P q p body h in
      let same = (deliver-SameShape P q p body h).stores in
      elim (Bool-cases (test b)) [
        | inr miss ↦
            rw (miss, publish_ex_loop)
              (ground (
                arith,
                publish_ex_loop-Spread type bindings p body delivered h k d.1,
                eq_iff q k,
                d.0,
              ))
        | inl hit ↦
            rw (hit, publish_ex_loop)
              (ground (
                arith,
                publish_ex_loop-Spread type bindings p body (delivered || r) h1 k d.1,
                deliver_lem q p body h k,
                reached_same test bindings h h1 same,
                same k,
                eq_iff q k,
                d.0,
              ))
      ]

  -- Is the message put into this queue, and is it put into some queue?
  abbrev pub spread_to : Host P → Text → BasicProperties → Text → Option P.Exchange → Bool
  spread_to h name p k none = false
  spread_to h name p k (some ex) =
      passes (matched_by (P.exchange_type ex) p.routing_key) (find k (exchange_bindings P name h))
      && contains k h.queue_messages

  abbrev pub spread : Host P → Text → BasicProperties → Option P.Exchange → Bool
  spread h name p none = false
  spread h name p (some ex) =
      reached (matched_by (P.exchange_type ex) p.routing_key) (exchange_bindings P name h) h

  -- `publish_ex` puts one copy of the message behind the others in every queue that has a store and
  -- that is bound to the exchange with a key which matches; no other queue changes. It reports
  -- success exactly when there is such a queue. The copy has the routing key of the properties, or
  -- the one of the call if they have none. The bindings of an exchange have distinct queues.
  pub publish_ex-Spread :
      (name key : Text) (bp : Option BasicProperties) (body : Text) (h : Host P) (k : Text)
      → DistinctKeys (exchange_bindings P name h)
      → let p = keyed key bp in
        let ex = select_exchange P name h in
        ((publish_ex P name key bp body h).2 ≡ spread h name p ex)
        × (queue_contents k (publish_ex P name key bp body h).0 ≡ (
            if spread_to h name p k ex
            then queue_contents k h ++ record { properties = p; body = body } ∷ []
            else queue_contents k h))
  unfolding publish_ex
  publish_ex-Spread name key bp body h k d = elim (Option-cases (select_exchange P name h)) [
    | inl e ↦ rw (e, publish_ex) (refl, refl)
    | inr (ex, e) ↦
        rw (e, publish_ex)
          (publish_ex_loop-Spread (P.exchange_type ex) (exchange_bindings P name h) (keyed key bp)
            body false h k d)
  ]
