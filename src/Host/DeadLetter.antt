-- ===== src/Host/DeadLetter.antt =====
-- `basic_nack` of src/server/virtual_host.cpp: what becomes of a dead letter.
use mq_work.Common.{
  ◌≡◌, refl, ◌∙◌, ap, true, false, ◌&&◌, some, List, [], ◌∷◌, ◌++◌, arith, if◌then◌else◌, is_empty,
}
use mq_work.Common.Text.{Text, ◌==◌}
use mq_work.Common.Dict.{find, put, DistinctKeys}
use mq_work.Proto.{Message}
use mq_work.Queue.{MsgQueue, has_dead_letter_config}
use mq_work.Queue.Manager.{select_queue}
use mq_work.Storage.{QueueMessage, front, get_all_messages}
use mq_work.Storage.Fifo.{Content}
use mq_work.Platform.{Platform}
use mq_work.Host.{Host, generate_id, exchange_bindings, select_exchange}
use mq_work.Host.Publish.{publish_to_exchange}
use mq_work.Host.Consume.{find_message, dead_letter, dead_letter_properties, basic_nack}
use mq_work.Host.Delivery.{queue_contents, next_id}
use mq_work.Host.Loop.{is_empty-next_id}
use mq_work.Host.Routing.{routed_in, publish_to_exchange-Routed}
use mq_work.Storage.Refinement.{acked}
use mq_work.Host.Pull.{basic_ack_lem}

module _ (P : Platform) where
  -- A queue that `basic_nack` finds with its store, and its configuration.
  pub record IsQueue (name : Text) (store : QueueMessage) (q : MsgQueue) (h : Host P) : Type 0 where
    pub has_store : find name h.queue_messages ≡ some store
    pub has_queue : select_queue h.queue_mgr name ≡ some q

  has_front :
      (id : Text) (target : Message) (store : QueueMessage) (ms : List Message)
      → store.msgs ≡ ms
      → find_message id ms ≡ some target
      → (m : Message) × (front store ≡ some m)
  unfolding front find_message
  has_front id target store [] e t = cc
  has_front id target store (m ∷ ms) e t = (m, rw e)

  nack_dead_letter :
      (name id reason : Text) (store : QueueMessage) (q : MsgQueue) (target : Message) (h : Host P)
      → IsQueue name store q h
      → has_dead_letter_config q ≡ true
      → find_message id store.msgs ≡ some target
      → basic_nack P name id false reason h ≡ dead_letter P name id q target h
  unfolding basic_nack get_all_messages
  nack_dead_letter name id reason store q target h i d t =
      let (m, f) = has_front id target store store.msgs refl t in
      rw (i.has_store, basic_nack, i.has_queue, d, f, t)

  -- The dead letter as it arrives.
  abbrev pub letter_of : MsgQueue → Message → Host P → Content
  letter_of q target h = record {
    properties = dead_letter_properties (next_id h.seq) q.dlq_config.routing_key;
    body = target.payload.body;
  }

  exchange_there :
      (q : MsgQueue) → has_dead_letter_config q ≡ true → is_empty q.dlq_config.exchange_name ≡ false
  unfolding has_dead_letter_config
  exchange_there q d = ground arith

  published_letter :
      (q : MsgQueue) (target : Message) (h : Host P) (k : Text)
      → is_empty q.dlq_config.routing_key ≡ false
      → DistinctKeys (exchange_bindings P q.dlq_config.exchange_name h)
      → let c = q.dlq_config in
        let p = dead_letter_properties (next_id h.seq) c.routing_key in
        let routed = routed_in P h c.exchange_name p (select_exchange P c.exchange_name h) in
        queue_contents k
          (publish_to_exchange P c.exchange_name (some p) target.payload.body (generate_id P h).0).0
        ≡ (if routed && c.routing_key == k
            then queue_contents k h ++ letter_of q target h ∷ []
            else queue_contents k h)
  unfolding generate_id exchange_bindings select_exchange queue_contents dead_letter_properties
  published_letter q target h k e n =
      let c = q.dlq_config in
      let p = dead_letter_properties (next_id h.seq) c.routing_key in
      let (_, put) =
        publish_to_exchange-Routed P c.exchange_name p target.payload.body (generate_id P h).0 k e
          n in
      rw (is_empty-next_id h.seq) at put

  -- A rejection without `requeue` of a message of a queue with a dead letter exchange: the body goes,
  -- under a new id, to the queue that the dead letter routing key names, if the exchange exists
  -- and routes that key to that queue. Then the first message with the id goes from the queue of the
  -- rejected one, or the message in front if the id is empty. It goes also when the dead letter has
  -- reached no queue, so that it is lost. The routing key is not empty.
  pub basic_nack_dead_letter :
      (name id reason : Text) (store : QueueMessage) (q : MsgQueue) (target : Message) (h : Host P)
      (k : Text)
      → IsQueue name store q h
      → has_dead_letter_config q ≡ true
      → find_message id store.msgs ≡ some target
      → is_empty q.dlq_config.routing_key ≡ false
      → DistinctKeys (exchange_bindings P q.dlq_config.exchange_name h)
      → let c = q.dlq_config in
        let routed =
          routed_in P h c.exchange_name
            (dead_letter_properties (next_id h.seq) c.routing_key)
            (select_exchange P c.exchange_name h) in
        let before =
          if routed && c.routing_key == k
          then queue_contents k h ++ letter_of q target h ∷ []
          else queue_contents k h in
        queue_contents k (basic_nack P name id false reason h)
        ≡ (if name == k then acked id before else before)
  unfolding dead_letter generate_id
  basic_nack_dead_letter name id reason store q target h k i d t e n =
      rw (nack_dead_letter name id reason store q target h i d t, exchange_there q d)
        (basic_ack_lem P name id _ k
          ∙ ap (λ (cs : List Content). if name == k then acked id cs else cs)
              (published_letter q target h k e n))
