-- ===== src/Host/Delivery.antt =====
-- Which queues the publishing operations of src/server/virtual_host.cpp reach, and what arrives.
use mq_work.Common.{
  ◌≡◌, refl, sym, ◌∙◌, ap, ℕ, ◌+◌, ◌%◌, ◌^◌, Bool, true, false, ◌&&◌, ◌||◌, Option, none, some,
  List, [], ◌∷◌, ◌++◌, arith, if◌then◌else◌, is_empty, Option-cases, inl, inr, Bool-cases,
}
use mq_work.Common.Text.{Text, ◌==◌, eq_iff}
use mq_work.Common.Dict.{Dict, find, put, contains, find-put}
use mq_work.Proto.{BasicProperties, default_properties}
use mq_work.Storage.{QueueMessage, insert}
use mq_work.Storage.Fifo.{Content, contents_of, contents_of-insert}
use mq_work.Queue.Manager
use mq_work.Platform.{Platform}
use mq_work.Host.{VirtualHost, Host, generate_id, to_string}
use mq_work.Host.Publish.{with_id, enqueue, accept_key, publish_to_store, basic_publish, durable_of}

abbrev pub contents_in : Option QueueMessage → List Content
contents_in none = []
contents_in (some q) = contents_of q.msgs

-- The messages in the store of a queue, oldest first.
unfoldable pub queue_contents : {E : Type 0} → Text → VirtualHost E → List Content
queue_contents name h = contents_in (find name h.queue_messages)

-- `basic_publish` takes properties for this queue: none, or with an empty routing key or its name.
abbrev pub accepts : Text → Option BasicProperties → Bool
accepts name none = true
accepts name (some p) = is_empty p.routing_key || p.routing_key == name

-- The id that the next call of `generate_id` gives.
abbrev pub next_id : ℕ → Text
next_id seq = to_string ((seq + 1) % 2 ^ 64)

-- The properties under which a message is stored: an id is made up only for properties that the
-- caller gives without one.
abbrev pub stamped : Text → Option BasicProperties → ℕ → BasicProperties
stamped name none seq = record default_properties { routing_key = name }
stamped name (some p) seq = record p {
  id = if is_empty p.id then next_id seq else p.id;
  routing_key = name;
}

accept_key_lem :
    (name : Text) (p : BasicProperties)
    → accept_key name p
      ≡ (if accepts name (some p) then some (record p { routing_key = name }) else none)
unfolding accept_key
accept_key_lem name p = ground (arith, eq_iff p.routing_key name)

module _ (P : Platform) where
  pub enqueue_lem :
      (name : Text) (store : QueueMessage) (p : BasicProperties) (body : Text) (h : Host P)
      (k : Text)
      → find name h.queue_messages ≡ some store
      → ((enqueue P name store p body h).1 ≡ true)
        × (queue_contents k (enqueue P name store p body h).0 ≡ (
            if name == k
            then queue_contents k h ++ record { properties = p; body = body } ∷ []
            else queue_contents k h))
  unfolding enqueue queue_contents
  enqueue_lem name store p body h k e =
      let d = durable_of (Manager.select_queue h.queue_mgr name) in
      let stored = contents_of-insert P.codec store (some p) body d in
      let store' = (insert P.codec store (some p) body d).0 in
      (
        stored.0,
        ground (arith, find-put name k store' h.queue_messages, eq_iff name k, stored.1, e),
      )

  pub with_id_lem :
      (p : BasicProperties) (h : Host P)
      → ((with_id P p h).1 ≡ record p { id = if is_empty p.id then next_id h.seq else p.id })
        × ((with_id P p h).0.queue_messages ≡ h.queue_messages)
  unfolding with_id generate_id
  with_id_lem p h = elim (Bool-cases (is_empty p.id)) [
    | inl e ↦ rw e (refl, refl)
    | inr e ↦ rw e (refl, refl)
  ]

  -- `publish_to_store` where the properties are taken, and where they are not.
  pub store_accepted :
      (name : Text) (store : QueueMessage) (p : BasicProperties) (body : Text) (h : Host P)
      → accepts name (some p) ≡ true
      → let (h', r) = enqueue P name store (stamped name (some p) h.seq) body (with_id P p h).0 in
        publish_to_store P name store (some p) body h ≡ (h', some (stamped name (some p) h.seq), r)
  unfolding publish_to_store
  store_accepted name store p body h a =
      let taken : accept_key name (with_id P p h).1 ≡ some (stamped name (some p) h.seq) =
        ap (accept_key name) (with_id_lem p h).0 ∙ (accept_key_lem name _ ∙ rw a) in
      rw (taken, publish_to_store)

  pub store_refused :
      (name : Text) (store : QueueMessage) (p : BasicProperties) (body : Text) (h : Host P)
      → accepts name (some p) ≡ false
      → publish_to_store P name store (some p) body h
        ≡ ((with_id P p h).0, some (with_id P p h).1, false)
  unfolding publish_to_store
  store_refused name store p body h a =
      let refused : accept_key name (with_id P p h).1 ≡ none =
        ap (accept_key name) (with_id_lem p h).0 ∙ (accept_key_lem name _ ∙ rw a) in
      rw (refused, publish_to_store)

  pub store_null :
      (name : Text) (store : QueueMessage) (body : Text) (h : Host P)
      → let (h', r) = enqueue P name store (stamped name none h.seq) body h in
        publish_to_store P name store none body h ≡ (h', none, r)
  unfolding publish_to_store accept_key
  store_null name store body h = refl

  queue_contents-with_id :
      (p : BasicProperties) (h : Host P) (k : Text)
      → queue_contents k (with_id P p h).0 ≡ queue_contents k h
  unfolding queue_contents
  queue_contents-with_id p h k =
      ap (λ (m : Dict QueueMessage). contents_in (find k m)) (with_id_lem p h).1

  -- What `basic_publish` does to the store of any queue, and its result.
  abbrev pub Published :
      Text
      → Option BasicProperties
      → Text
      → Host P
      → Host P × Option BasicProperties × Bool
      → Text
      → Type 0
  Published name bp body h (h', bp', r) k =
      let sent : Content = record { properties = stamped name bp h.seq; body = body } in
      (r ≡ (contains name h.queue_messages && accepts name bp))
      × (queue_contents k h'
          ≡ (if r && name == k then queue_contents k h ++ sent ∷ [] else queue_contents k h))

  -- The same for a queue whose store is found.
  abbrev Took :
      Text
      → Option BasicProperties
      → Text
      → Host P
      → Host P × Option BasicProperties × Bool
      → Text
      → Type 0
  Took name bp body h (h', bp', r) k =
      let sent : Content = record { properties = stamped name bp h.seq; body = body } in
      (r ≡ accepts name bp)
      × (queue_contents k h'
          ≡ (if r && name == k then queue_contents k h ++ sent ∷ [] else queue_contents k h))

  publish_to_store-Took :
      (name : Text) (store : QueueMessage) (bp : Option BasicProperties) (body : Text) (h : Host P)
      (k : Text)
      → find name h.queue_messages ≡ some store
      → Took name bp body h (publish_to_store P name store bp body h) k
  publish_to_store-Took name store none body h k e =
      let p = stamped name none h.seq in
      let (r, put) = enqueue_lem name store p body h k e in
      rw (store_null name store body h, r) (refl, put)
  publish_to_store-Took name store (some p) body h k e =
      let h1 = (with_id P p h).0 in
      let sent = stamped name (some p) h.seq in
      let there : find name h1.queue_messages ≡ some store =
        ap (find name) (with_id_lem p h).1 ∙ e in
      let (r, put) = enqueue_lem name store sent body h1 k there in
      let same = queue_contents-with_id p h k in
      elim (Bool-cases (accepts name (some p))) [
        | inl a ↦ rw (store_accepted name store p body h a, r) (sym a, put ∙ rw same)
        | inr a ↦ rw (store_refused name store p body h a) (sym a, same)
      ]

  -- `basic_publish` succeeds exactly when the queue has a store and the routing key is empty or the
  -- name of the queue. Then the message stands last in that store, under the queue's name as its
  -- routing key. It keeps the id of its properties, gets one that is made up if the properties have
  -- none, and has an empty id if no properties came. No other store changes. When it fails no store
  -- changes.
  pub basic_publish-Published :
      (name : Text) (bp : Option BasicProperties) (body : Text) (h : Host P) (k : Text)
      → Published name bp body h (basic_publish P name bp body h) k
  unfolding basic_publish
  basic_publish-Published name bp body h k = elim (Option-cases (find name h.queue_messages)) [
    | inl e ↦ rw (e, basic_publish) (refl, refl)
    | inr (store, e) ↦ rw (e, basic_publish) (publish_to_store-Took name store bp body h k e)
  ]
