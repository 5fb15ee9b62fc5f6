-- ===== src/Host/Publish.antt =====
-- The publishing operations of src/server/virtual_host.cpp. The caller's `BasicProperties*` is null
-- (`none`) or points to properties that the calls change: they come back beside the result.
use mq_work.Common.{
  Bool, false, ◌||◌, Option, none, some, [], ◌∷◌, if◌then◌else◌, is_some, is_empty,
}
use mq_work.Common.Text.{Text, ◌==◌}
use mq_work.Common.Dict.{find, put}
use mq_work.Proto.{ExchangeType, headers, BasicProperties, default_properties, Args}
use mq_work.Route.{match_route}
use mq_work.Queue.{MsgQueue}
use mq_work.Queue.Manager
use mq_work.Storage.{QueueMessage, insert}
use mq_work.Platform.{Platform}
use mq_work.Host.{Host, Binding, BindingMap, generate_id, select_exchange, exchange_bindings}

-- `if (auto qinfo = select_queue(name)) durable = qinfo->durable;`
abbrev pub durable_of : Option MsgQueue → Bool
durable_of none = false
durable_of (some q) = q.durable

-- `basic_publish`, step 2: an empty routing key becomes the queue's name, and another than that
-- name is refused.
unfoldable pub accept_key : Text → BasicProperties → Option BasicProperties
accept_key queue_name p =
    if is_empty p.routing_key
    then some (record p { routing_key = queue_name })
    else if p.routing_key == queue_name
    then some p
    else none

-- `bp && !bp->routing_key().empty() ? bp->routing_key() : ""`
abbrev pub key_of : Option BasicProperties → Text
key_of none = []
key_of (some p) = p.routing_key

abbrev pub headers_of : Option BasicProperties → Args
headers_of none = []
headers_of (some p) = p.headers

-- The properties of `publish_ex`: its own if the caller gives none, with the routing key filled in.
unfoldable pub keyed : Text → Option BasicProperties → BasicProperties
keyed routing_key none = record default_properties { routing_key = routing_key }
keyed routing_key (some p) =
    if is_empty p.routing_key then record p { routing_key = routing_key } else p

module _ (P : Platform) where
  -- An id for properties that the caller gives without one.
  unfoldable pub with_id : BasicProperties → Host P → Host P × BasicProperties
  with_id p h =
      let (h', id) = generate_id P h in if is_empty p.id then (h', record p { id = id }) else (h, p)

  -- Steps 3 and 4.
  unfoldable pub enqueue : Text → QueueMessage → BasicProperties → Text → Host P → Host P × Bool
  enqueue queue_name store p body h =
      let durable = durable_of (Manager.select_queue h.queue_mgr queue_name) in
      let (store', r) = insert P.codec store (some p) body durable in
      (record h { queue_messages = put queue_name store' h.queue_messages }, r)

  unfoldable pub publish_to_store :
      Text
      → QueueMessage
      → Option BasicProperties
      → Text
      → Host P
      → Host P × Option BasicProperties × Bool
  publish_to_store queue_name store none body h = elim (accept_key queue_name default_properties) [
    | none ↦ (h, none, false)
    | some p ↦ let (h', r) = enqueue queue_name store p body h in (h', none, r)
  ]
  publish_to_store queue_name store (some bp) body h =
      let (h1, p1) = with_id bp h in
      elim (accept_key queue_name p1) [
        | none ↦ (h1, some p1, false)
        | some p ↦ let (h', r) = enqueue queue_name store p body h1 in (h', some p, r)
      ]

  unfoldable pub basic_publish :
      Text → Option BasicProperties → Text → Host P → Host P × Option BasicProperties × Bool
  basic_publish queue_name bp body h = elim (find queue_name h.queue_messages) [
    | none ↦ (h, bp, false)
    | some store ↦ publish_to_store queue_name store bp body h
  ]

  -- The switch over the type of the exchange.
  unfoldable pub should_publish : ExchangeType → Text → Args → Binding → Bool
  should_publish headers key hs b = P.match_headers hs b.binding_args
  should_publish type key hs b = match_route type key b.binding_key

  -- The loop over the bindings. The properties that one round has changed go into the next.
  unfoldable pub publish_loop :
      (Binding → Bool)
      → BindingMap
      → Option BasicProperties
      → Text
      → Bool
      → Host P
      → Host P × Option BasicProperties × Bool
  publish_loop test [] bp body published h = (h, bp, published)
  publish_loop test ((qname, b) ∷ bindings) bp body published h =
      let (h', bp', r) = basic_publish qname bp body h in
      let hit = test b in
      publish_loop test bindings (if hit then bp' else bp) body
        (if hit then published || r else published) (if hit then h' else h)

  unfoldable pub publish_to_exchange :
      Text → Option BasicProperties → Text → Host P → Host P × Option BasicProperties × Bool
  publish_to_exchange exchange_name bp body h =
      let bindings = exchange_bindings P exchange_name h in
      elim (select_exchange P exchange_name h) [
        | none ↦ (h, bp, false)
        | some ex ↦
            if is_empty bindings
            then (h, bp, false)
            else publish_loop (should_publish (P.exchange_type ex) (key_of bp) (headers_of bp))
                bindings bp body false h
      ]

  -- One binding of `publish_ex`.
  unfoldable pub deliver : Text → BasicProperties → Text → Host P → Host P × Bool
  deliver qname p body h = elim (find qname h.queue_messages) [
    | none ↦ (h, false)
    | some store ↦ enqueue qname store p body h
  ]

  unfoldable pub publish_ex_loop :
      ExchangeType → BindingMap → BasicProperties → Text → Bool → Host P → Host P × Bool
  publish_ex_loop type [] p body delivered h = (h, delivered)
  publish_ex_loop type ((qname, b) ∷ bindings) p body delivered h =
      let (h', r) = deliver qname p body h in
      let hit = match_route type p.routing_key b.binding_key in
      publish_ex_loop type bindings p body (if hit then delivered || r else delivered)
        (if hit then h' else h)

  unfoldable pub publish_ex :
      Text → Text → Option BasicProperties → Text → Host P → Host P × Option BasicProperties × Bool
  publish_ex exchange_name routing_key bp body h = elim (select_exchange P exchange_name h) [
    | none ↦ (h, bp, false)
    | some ex ↦
        let p = keyed routing_key bp in
        let (h', r) =
          publish_ex_loop (P.exchange_type ex) (exchange_bindings P exchange_name h) p body false
            h in
        (h', if is_some bp then some p else none, r)
  ]
