-- ===== src/Channel/Passage.antt =====
-- src/server/channel.cpp: the way of a message from a producer's request to a consumer.
use mathlib.Core.List.{append_assoc}
use mq_work.Common.{
  arith, ◌≡◌, refl, ap, ◌∙◌, Bool, true, false, Option, some, List, [], ◌∷◌, ◌++◌, is_empty,
  if◌then◌else◌, Option-cases, Bool-cases, inl, inr,
}
use mq_work.Common.Text.{Text, eq_refl}
use mq_work.Common.Dict.{DistinctKeys}
use mq_work.Proto.{BasicProperties}
use mq_work.Platform.{Platform}
use mq_work.Host.{select_exchange, exchange_bindings}
use mq_work.Host.Delivery.{queue_contents, stamped}
use mq_work.Host.Routing.{routed_in, publish_to_exchange-Routed}
use mq_work.Storage.Fifo.{Content}
use mq_work.Storage.Refinement.{without_id}
use mq_work.Consumers.{Consumer}
use mq_work.Consumers.Manager.{choose}
use mq_work.Channel.{
  Sent, ChannelRef, Channel, World, common_response, consume_response, basic_response,
  basic_publish, consume,
}
use mq_work.Channel.Delivery.{consume_lem, sent_to, left_after}

left_after_one : (c : Consumer ChannelRef) (m : Content) → left_after (some c) (m ∷ []) ≡ []
unfolding without_id
left_after_one c m = elim (Bool-cases c.auto_ack) [
  | inl a ↦ rw a (ground arith)
  | inr a ↦ rw a refl
]

module _ (P : Platform) where
  -- What a request to publish does, if its message is routed to the queue that its key names.
  publish-routed :
      (ch : Channel) (rid cid ex body : Text) (p : BasicProperties) (w : World P)
      → is_empty p.routing_key ≡ false
      → DistinctKeys (exchange_bindings P ex w.host)
      → routed_in P w.host ex p (select_exchange P ex w.host) ≡ true
      → let w' = basic_publish P ch rid cid ex (some p) body w in
        let q = p.routing_key in
        (queue_contents q w'.host
          ≡ queue_contents q w.host
            ++ record { properties = stamped q (some p) w.host.seq; body = body } ∷ [])
        × (w'.sent ≡ w.sent ++ record { conn = ch.conn; reply = common_response rid cid true } ∷ [])
        × (w'.consumers ≡ w.consumers)
  unfolding basic_publish basic_response
  publish-routed ch rid cid ex body p w e d r =
      let routed = publish_to_exchange-Routed P ex p body w.host p.routing_key e d in
      elim (Option-cases (select_exchange P ex w.host)) [
        | inl n ↦ absurd (ground (arith, n, r))
        | inr (x, n) ↦
            rw (n, basic_publish) (ground (arith, routed.1, r, eq_refl p.routing_key), refl, refl)
      ]

  -- A message that is published with the name of an empty queue as its key, to an exchange with a
  -- binding for that queue which its type accepts, is handed by the next task of that queue to the
  -- consumer whose turn it is, on that consumer's connection, with its body and its id. The producer
  -- has had the response `true` by then, and the queue is empty again.
  pub consume-basic_publish :
      (ch : Channel) (rid cid ex body : Text) (p : BasicProperties) (w : World P)
      (c : Consumer ChannelRef)
      → is_empty p.routing_key ≡ false
      → DistinctKeys (exchange_bindings P ex w.host)
      → routed_in P w.host ex p (select_exchange P ex w.host) ≡ true
      → queue_contents p.routing_key w.host ≡ []
      → (choose p.routing_key w.consumers).1 ≡ some c
      → let w' = consume P p.routing_key (basic_publish P ch rid cid ex (some p) body w) in
        let id = (stamped p.routing_key (some p) w.host.seq).id in
        let answer = common_response rid cid true in
        let message = consume_response c.callback.cid c.tag body id p.delivery_mode p.routing_key in
        (w'.sent
          ≡ w.sent
            ++ record { conn = ch.conn; reply = answer }
              ∷ record { conn = c.callback.conn; reply = message }
              ∷ [])
        × (queue_contents p.routing_key w'.host ≡ [])
  consume-basic_publish ch rid cid ex body p w c e d r empty turn =
      let q = p.routing_key in
      let w1 = basic_publish P ch rid cid ex (some p) body w in
      let (stored, answered, same) = publish-routed ch rid cid ex body p w e d r in
      let (left, sent) = consume_lem P q w1 q in
      let chosen : (choose q w1.consumers).1 ≡ some c = ap (λ m. (choose q m).1) same ∙ turn in
      let letter : Content = record { properties = stamped q (some p) w.host.seq; body = body } in
      let waiting : queue_contents q w1.host ≡ letter ∷ [] =
        stored ∙ ap (λ (l : List Content). l ++ letter ∷ []) empty in
      let answer : Sent = record { conn = ch.conn; reply = common_response rid cid true } in
      (
        sent
            ∙ (ap
                  (λ (o : Option (Consumer ChannelRef)).
                    w1.sent ++ sent_to o (queue_contents q w1.host))
                  chosen
                ∙ (ap (λ (l : List Content). w1.sent ++ sent_to (some c) l) waiting
                    ∙ (ap (λ (l : List Sent). l ++ sent_to (some c) (letter ∷ [])) answered
                        ∙ append_assoc w.sent (answer ∷ []) _))),
        left
            ∙ (ap
                  (λ (b : Bool).
                    if b
                    then left_after (choose q w1.consumers).1 (queue_contents q w1.host)
                    else queue_contents q w1.host)
                  (eq_refl q)
                ∙ (ap
                      (λ (o : Option (Consumer ChannelRef)).
                        left_after o (queue_contents q w1.host))
                      chosen
                    ∙ (ap (left_after (some c)) waiting ∙ left_after_one c letter))),
      )
