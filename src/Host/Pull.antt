-- ===== src/Host/Pull.antt =====
-- Taking messages out: `basic_consume`, `basic_ack` and `basic_query` of src/server/virtual_host.cpp.
use mathlib.Core.List.{tail, head?}
use mq_work.Common.{
  ◌≡◌, refl, Option, none, some, List, [], ◌∷◌, arith, if◌then◌else◌, Option-cases, inl, inr,
}
use mathlib.Core.Option
use mq_work.Common.Text.{Text, ◌==◌, eq_iff}
use mq_work.Common.Dict.{find, find-put}
use mq_work.Proto.{Message}
use mq_work.Storage.{QueueMessage, front, remove, message_id_of}
use mq_work.Storage.Fifo.{content_of, contents_of, msgs-remove_front}
use mq_work.Storage.Refinement.{acked, without_id, contents_of-remove}
use mq_work.Platform.{Platform}
use mq_work.Host.{Host}
use mq_work.Host.Consume.{remove_from, basic_consume, basic_ack}
use mq_work.Host.Delivery.{queue_contents}

module _ (P : Platform) where
  pub queue_contents-remove_from :
      (name : Text) (store : QueueMessage) (id : Text) (h : Host P) (k : Text)
      → find name h.queue_messages ≡ some store
      → queue_contents k (remove_from P name store id h)
        ≡ (if name == k then acked id (queue_contents k h) else queue_contents k h)
  unfolding remove_from queue_contents
  queue_contents-remove_from name store id h k e =
      let store' = remove P.codec id store in
      ground (
        arith,
        find-put name k store' h.queue_messages,
        eq_iff name k,
        e,
        contents_of-remove P.codec id store,
      )

  -- `basic_ack` takes from its queue the first message with the id, or the one in front if the id
  -- is empty, and leaves every other queue alone. Without such a queue or message nothing changes.
  pub basic_ack_lem :
      (name id : Text) (h : Host P) (k : Text)
      → queue_contents k (basic_ack P name id h)
        ≡ (if name == k then acked id (queue_contents k h) else queue_contents k h)
  unfolding basic_ack
  basic_ack_lem name id h k = elim (Option-cases (find name h.queue_messages)) [
    | inl e ↦
        rw (e, basic_ack) (unfold queue_contents without_id in ground (arith, e, eq_iff name k))
    | inr (store, e) ↦ rw (e, basic_ack) (queue_contents-remove_from name store id h k e)
  ]

  -- What a call returns that takes the oldest message of a queue.
  abbrev pub Takes : Text → Host P → Host P × Option Message → Text → Type 0
  Takes name h (h', r) k =
      (Option.map content_of r ≡ head? (queue_contents name h))
      × (queue_contents k h'
          ≡ (if name == k then tail (queue_contents k h) else queue_contents k h))

  take_store :
      (name : Text) (store : QueueMessage) (h : Host P) (k : Text) (ms : List Message)
      → find name h.queue_messages ≡ some store
      → store.msgs ≡ ms
      → Takes name h
          (elim (front store) as (λ _. Host P × Option Message) [
            | none ↦ (h, none)
            | some m ↦ (remove_from P name store (message_id_of m) h, some m)
          ])
          k
  unfolding front queue_contents remove_from contents_of
  take_store name store h k [] e s = rw s (ground (arith, e, s, eq_iff name k))
  take_store name store h k (m ∷ ms) e s = rw s (
      ground (
        arith,
        e,
        s,
        eq_iff name k,
        find-put name k (remove P.codec (message_id_of m) store) h.queue_messages,
        msgs-remove_front P.codec store m ms s,
      ))

  -- `basic_consume` hands out the oldest message of its queue and takes just that one away, even
  -- if its id is empty or is that of later messages too; other queues do not change. From an empty
  -- queue, or one that is not there, it takes nothing.
  pub basic_consume-Takes :
      (name : Text) (h : Host P) (k : Text) → Takes name h (basic_consume P name h) k
  unfolding basic_consume
  basic_consume-Takes name h k = elim (Option-cases (find name h.queue_messages)) [
    | inl e ↦ rw (e, basic_consume) (unfold queue_contents in ground (arith, e, eq_iff name k))
    | inr (store, e) ↦ rw (e, basic_consume) (take_store name store h k store.msgs e refl)
  ]
