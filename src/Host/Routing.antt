-- ===== src/Host/Routing.antt =====
-- `publish_to_exchange` of src/server/virtual_host.cpp: whom a message with a routing key reaches.
use mq_work.Common.{
  ◌≡◌, refl, Bool, true, false, ◌&&◌, Option, none, some, [], ◌∷◌, is_empty, Option-cases, inl, inr,
  Bool-cases,
}
use mq_work.Common.Text.{Text}
use mq_work.Common.Dict.{Dict, find, contains, DistinctKeys}
use mq_work.Proto.{BasicProperties}
use mq_work.Platform.{Platform}
use mq_work.Host.{Host, Binding, select_exchange, exchange_bindings}
use mq_work.Host.Publish.{publish_to_exchange, should_publish}
use mq_work.Host.Loop.{passes, Routed, publish_loop-Routed}

find-is_empty {ℓ} : {V : Type ℓ} (k : Text) (m : Dict V) → is_empty m ≡ true → find k m ≡ none
unfolding find
find-is_empty k [] e = refl
find-is_empty k (x ∷ m) e = cc

module _ (P : Platform) where
  -- The test that `publish_to_exchange` puts to the bindings of an exchange.
  abbrev pub routes_to : P.Exchange → BasicProperties → Binding → Bool
  routes_to ex p = should_publish P (P.exchange_type ex) p.routing_key p.headers

  -- Is the message put into the queue that its routing key names?
  abbrev pub routed_in : Host P → Text → BasicProperties → Option P.Exchange → Bool
  routed_in h exchange_name p none = false
  routed_in h exchange_name p (some ex) =
      passes (routes_to ex p) (find p.routing_key (exchange_bindings P exchange_name h))
      && contains p.routing_key h.queue_messages

  -- With properties that have a routing key, `publish_to_exchange` reaches no queue but the one of
  -- that name, whatever the type of the exchange and its other bindings. That queue gets one copy,
  -- and the call reports success, exactly when the exchange exists, has a binding for that queue
  -- which the type of the exchange accepts, and the queue has a store. The bindings of an exchange
  -- have distinct queues.
  pub publish_to_exchange-Routed :
      (exchange_name : Text) (p : BasicProperties) (body : Text) (h : Host P) (k : Text)
      → is_empty p.routing_key ≡ false
      → DistinctKeys (exchange_bindings P exchange_name h)
      → Routed P false
          (routed_in h exchange_name p (select_exchange P exchange_name h))
          p
          body
          h
          (publish_to_exchange P exchange_name (some p) body h)
          k
  unfolding publish_to_exchange
  publish_to_exchange-Routed exchange_name p body h k e d =
      elim (Option-cases (select_exchange P exchange_name h)) [
        | inl none_such ↦ rw (none_such, publish_to_exchange) (refl, refl)
        | inr (ex, found) ↦
            let bindings = exchange_bindings P exchange_name h in
            elim (Bool-cases (is_empty bindings)) [
              | inl b ↦
                  rw (found, b, publish_to_exchange, find-is_empty p.routing_key bindings b)
                    (refl, refl)
              | inr b ↦
                  rw (found, b, publish_to_exchange)
                    (publish_loop-Routed P (routes_to ex p) bindings p body false h k e d)
            ]
      ]
