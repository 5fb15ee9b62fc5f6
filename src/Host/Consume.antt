-- ===== src/Host/Consume.antt =====
-- The consuming operations of src/server/virtual_host.cpp.
use mq_work.Common.{Bool, not, Option, none, some, List, [], ◌∷◌, if◌then◌else◌, is_empty, eqb}
use mq_work.Common.Text.{Text, ◌==◌}
use mq_work.Common.Dict.{Dict, find, put}
use mq_work.Proto.{BasicProperties, default_properties, durable, Message}
use mq_work.Queue.{MsgQueue, has_dead_letter_config}
use mq_work.Queue.Manager
use mq_work.Storage.{
  QueueMessage, Stats, front, remove, get_all_messages, getable_count, get_stats, compact,
  message_id_of,
}
use mq_work.Platform.{Platform}
use mq_work.Host.{Host, generate_id}
use mq_work.Host.Publish.{publish_to_exchange}

-- `queue_message::stats{}`
abbrev pub no_stats : Stats
no_stats = record { depth = 0; file_size = 0; invalid = 0; total = 0 }

-- The loop that looks for a message by its id.
unfoldable pub find_message : Text → List Message → Option Message
find_message id [] = none
find_message id (m ∷ ms) = if message_id_of m == id then some m else find_message id ms

-- The properties of a dead letter.
unfoldable pub dead_letter_properties : Text → Text → BasicProperties
dead_letter_properties id key = record default_properties {
  id = id;
  delivery_mode = durable;
  routing_key = key;
}

module _ (P : Platform) where
  -- `it->second->remove(id)` on the store of a queue.
  unfoldable pub remove_from : Text → QueueMessage → Text → Host P → Host P
  remove_from queue_name store id h = record h {
    queue_messages = put queue_name (remove P.codec id store) h.queue_messages;
  }

  unfoldable pub basic_consume : Text → Host P → Host P × Option Message
  basic_consume queue_name h = elim (find queue_name h.queue_messages) [
    | none ↦ (h, none)
    | some store ↦ elim (front store) [
      | none ↦ (h, none)
      | some m ↦ (remove_from queue_name store (message_id_of m) h, some m)
    ]
  ]

  unfoldable pub basic_consume_and_remove : Text → Host P → Host P × Option Message
  basic_consume_and_remove queue_name h = elim (find queue_name h.queue_messages) [
    | none ↦ (h, none)
    | some store ↦ elim (front store) [
      | none ↦ (h, none)
      | some m ↦ (remove_from queue_name store (message_id_of m) h, some m)
    ]
  ]

  unfoldable pub basic_ack : Text → Text → Host P → Host P
  basic_ack queue_name msg_id h = elim (find queue_name h.queue_messages) [
    | none ↦ h
    | some store ↦ remove_from queue_name store msg_id h
  ]

  -- The dead letter is published, and then the message is removed, whatever the result. The store
  -- is read again for the removal: publishing may have put the dead letter into the same queue.
  unfoldable pub dead_letter : Text → Text → MsgQueue → Message → Host P → Host P
  dead_letter queue_name msg_id q target h =
      let (h1, id) = generate_id P h in
      let c = q.dlq_config in
      let (h2, _, _) =
        publish_to_exchange P c.exchange_name (some (dead_letter_properties id c.routing_key))
          target.payload.body h1 in
      basic_ack queue_name msg_id (if is_empty c.exchange_name then h1 else h2)

  unfoldable pub basic_nack : Text → Text → Bool → Text → Host P → Host P
  basic_nack queue_name msg_id requeue reason h = elim (find queue_name h.queue_messages) [
    | none ↦ h
    | some store ↦ elim (Manager.select_queue h.queue_mgr queue_name) [
      | none ↦ h
      | some q ↦
          if requeue
          then h
          else if not (has_dead_letter_config q)
          then remove_from queue_name store msg_id h
          else elim (front store) [
            | none ↦ h
            | some _ ↦ elim (find_message msg_id (get_all_messages store)) [
              | none ↦ h
              | some target ↦ dead_letter queue_name msg_id q target h
            ]
          ]
    ]
  ]

  -- The loop over the stores: the first that has a message gives it up.
  unfoldable pub query_loop : Dict QueueMessage → Host P → Host P × Text
  query_loop [] h = (h, [])
  query_loop ((qname, store) ∷ stores) h =
      let rest = query_loop stores h in
      if eqb (getable_count store) 0 then rest else elim (front store) [
        | none ↦ rest
        | some m ↦ (remove_from qname store (message_id_of m) h, m.payload.body)
      ]

  unfoldable pub basic_query : Host P → Host P × Text
  basic_query h = query_loop h.queue_messages h

  unfoldable pub select_queue_message : Text → Host P → Option QueueMessage
  select_queue_message queue_name h = find queue_name h.queue_messages

  unfoldable pub queue_runtime_stats : Text → Host P → Stats × Host P
  queue_runtime_stats queue_name h = elim (find queue_name h.queue_messages) [
    | none ↦ (no_stats, h)
    | some store ↦
        let (s, store') = get_stats P.codec store in
        (s, record h { queue_messages = put queue_name store' h.queue_messages })
  ]

  unfoldable pub compact_queue : Bool → Text → Host P → Host P
  compact_queue tmp_opens queue_name h = elim (find queue_name h.queue_messages) [
    | none ↦ h
    | some store ↦ record h {
      queue_messages = put queue_name (compact P.codec tmp_opens store) h.queue_messages;
    }
  ]
