-- ===== src/Channel/Delivery.antt =====
-- The consume task of src/server/channel.cpp: what becomes of the message that it takes.
use mathlib.Core.List.{head?, tail, append-nil}
use mq_work.Common.{
  ◌≡◌, refl, Option, none, some, List, [], ◌∷◌, ◌++◌, arith, if◌then◌else◌, Bool-cases,
  Option-cases, inl, inr,
}
use mq_work.Common.Text.{Text, ◌==◌, eq_iff}
use mq_work.Storage.{message_id_of}
use mq_work.Storage.Fifo.{Content, content_of}
use mq_work.Platform.{Platform}
use mq_work.Host.Consume.{basic_consume}
use mq_work.Host.Delivery.{queue_contents}
use mq_work.Storage.Refinement.{acked}
use mq_work.Host.Pull.{basic_consume-Takes, basic_ack_lem}
use mq_work.Consumers.{Consumer}
use mq_work.Consumers.Manager.{choose}
use mq_work.Channel.{Sent, ChannelRef, consume_response, World, consume, consume_cb}

-- The messages of the queue afterwards, with the consumer that was chosen.
abbrev pub left_after : Option (Consumer ChannelRef) → List Content → List Content
left_after chosen [] = []
left_after none (m ∷ ms) = ms
left_after (some c) (m ∷ ms) = if c.auto_ack then acked m.properties.id ms else ms

-- What is sent.
abbrev pub sent_to : Option (Consumer ChannelRef) → List Content → List Sent
sent_to chosen [] = []
sent_to none (m ∷ ms) = []
sent_to (some c) (m ∷ ms) =
    record {
      conn = c.callback.conn;
      reply =
          consume_response c.callback.cid c.tag m.body m.properties.id m.properties.delivery_mode
            m.properties.routing_key;
    }
    ∷ []

sent_to_nil : (chosen : Option (Consumer ChannelRef)) → sent_to chosen [] ≡ []
sent_to_nil none = refl
sent_to_nil (some c) = refl

left_after_nil : (chosen : Option (Consumer ChannelRef)) → left_after chosen [] ≡ []
left_after_nil none = refl
left_after_nil (some c) = refl

head_none : (ms : List Content) → none ≡ head? ms → ms ≡ []
head_none [] e = refl
head_none (m ∷ ms) e = cc

head_some : (c : Content) (ms : List Content) → some c ≡ head? ms → ms ≡ c ∷ tail ms
head_some c [] e = cc
head_some c (m ∷ ms) e = cc

module _ (P : Platform) where
  -- A consume task takes the oldest message of its queue out before it looks for a consumer. With
  -- none the message is gone and nothing is sent. Otherwise the consumer whose turn it is gets it,
  -- and if that consumer acknowledges by itself, the first of the remaining messages with the same
  -- id is removed as well, or the one in front if the id is empty. Other queues do not change.
  pub consume_lem :
      (qname : Text) (w : World P) (k : Text)
      → let chosen = (choose qname w.consumers).1 in
        (queue_contents k (consume P qname w).host ≡ (
          if qname == k
          then left_after chosen (queue_contents k w.host)
          else queue_contents k w.host))
        × ((consume P qname w).sent ≡ w.sent ++ sent_to chosen (queue_contents qname w.host))
  unfolding consume consume_cb
  consume_lem qname w k =
      let r = basic_consume P qname w.host in
      let t = basic_consume-Takes P qname w.host k in
      let chosen = (choose qname w.consumers).1 in
      let same_queue = eq_iff qname k in
      let before = queue_contents qname w.host in
      elim (Option-cases r.1) [
        | inl e ↦
            rw (e, consume)
              (ground (
                arith,
                e,
                t,
                same_queue,
                head_none before,
                append-nil w.sent,
                sent_to_nil chosen,
                left_after_nil chosen,
              ))
        | inr (m, e) ↦ elim (Option-cases (choose qname w.consumers).1) [
          | inl f ↦
              rw (e, f, consume)
                (ground
                  (arith, e, t, same_queue, head_some (content_of m) before, append-nil w.sent))
          | inr (c, f) ↦ elim (Bool-cases c.auto_ack) [
            | inl a ↦
                rw (e, f, consume, a)
                  (ground (
                    arith,
                    e,
                    t,
                    same_queue,
                    head_some (content_of m) before,
                    basic_ack_lem P qname (message_id_of m) r.0 k,
                  ))
            | inr a ↦
                rw (e, f, consume, a)
                  (ground
                    (arith, e, t, same_queue, head_some (content_of m) before, append-nil w.sent))
          ]
        ]
      ]
