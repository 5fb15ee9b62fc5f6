-- ===== src/Channel/Tagged.antt =====
-- The consumers in every state of the broker: no handler, task or closing of src/server/channel.cpp
-- gives a queue two consumers with one tag, and closing a channel removes the consumer it holds.
use mq_work.Common.{
  Option, ◌≡◌, refl, List, [], ◌∷◌, arith, inl, inr, Option-cases, Bool-cases, Bool, false, some,
  none,
}
use mq_work.Common.Text.{Text, eq_refl, eq_iff}
use mq_work.Common.Dict.{find, find-put}
use mq_work.Platform.{Platform}
use mq_work.Host.{exists_queue, select_exchange}
use mq_work.Host.Consume.{basic_consume as take}
use mq_work.Consumers.Manager.{ConsumerManager, choose}
use mq_work.Channel.{
  ChannelRef, ref_of, Channel, World, basic_response, consume_cb, consume, declare_exchange,
  delete_exchange, declare_queue, declare_queue_with_dlq, delete_queue, bind, unbind, basic_publish,
  basic_ack, basic_nack, basic_consume, basic_cancel, basic_query, close, config_of,
}
use mq_work.Channel.Served.{contains-declare_queue, contains-declare_queue_with_dlq}
use mq_work.Channel.Requests.{
  Request, declare_exchange_request, delete_exchange_request, declare_queue_request,
  declare_queue_with_dlq_request, delete_queue_request, bind_request, unbind_request,
  basic_publish_request, basic_ack_request, basic_nack_request, basic_consume_request,
  basic_cancel_request, basic_query_request, handle,
}
use mq_work.Consumers.{Consumer, QueueConsumer, has_tag, erase_tag}
use mq_work.Consumers
use mq_work.Consumers.Manager
use mq_work.Consumers.Tags.{
  AllConsumers, AreConsumers, has_tag-erase, init_queue_consumer-AllConsumers,
  destroy_queue_consumer-AllConsumers, choose-AllConsumers, create-AllConsumers,
  remove-AllConsumers,
}

-- Does this queue have a consumer with this tag?
abbrev tagged_in : {K : Type 0} → Text → Option (QueueConsumer K) → Bool
tagged_in tag none = false
tagged_in tag (some qc) = has_tag tag qc.consumers

abbrev pub is_tagged : {K : Type 0} → Text → Text → ConsumerManager K → Bool
is_tagged tag qname m = tagged_in tag (find qname m)

module _ {K : Type 0} where
  has_tag-erase_same :
      (tag qname : Text) (cs : List (Consumer K))
      → AreConsumers qname cs
      → has_tag tag (erase_tag tag cs) ≡ false
  unfolding has_tag erase_tag
  has_tag-erase_same tag qname [] a = refl
  has_tag-erase_same tag qname (c ∷ cs) a =
      ground (arith, has_tag-erase_same tag qname cs a.2, eq_iff c.tag tag, a.0)

  tagged-remove_same :
      (tag qname : Text) (m : ConsumerManager K)
      → AllConsumers m
      → is_tagged tag qname (Manager.remove tag qname m) ≡ false
  unfolding Manager.remove Consumers.remove
  tagged-remove_same tag qname m all = elim (Option-cases (find qname m)) [
    | inl e ↦ rw (e, Manager.remove) (ground (arith, e))
    | inr (qc, e) ↦
        rw (e, Manager.remove)
          (ground (
            arith,
            find-put qname qname (Consumers.remove tag qc) m,
            eq_refl qname,
            has_tag-erase_same tag qname qc.consumers (all qname qc e),
          ))
  ]

  tagged-remove :
      (tag qname u n : Text) (m : ConsumerManager K)
      → is_tagged tag qname m ≡ false
      → is_tagged tag qname (Manager.remove u n m) ≡ false
  unfolding Manager.remove Consumers.remove
  tagged-remove tag qname u n m h = elim (Option-cases (find n m)) [
    | inl e ↦ rw (e, Manager.remove) h
    | inr (qc, e) ↦
        rw (e, Manager.remove)
          (ground (
            arith,
            find-put n qname (Consumers.remove u qc) m,
            eq_iff n qname,
            has_tag-erase tag u qc.consumers,
            e,
            h,
          ))
  ]

module _ (P : Platform) where
  abbrev pub IsTagged : World P → Type 0
  IsTagged w = AllConsumers w.consumers

  pub close-IsTagged : (ch : Channel) (w : World P) → IsTagged w → IsTagged (close P ch w)
  unfolding close
  close-IsTagged ch w s = elim (Option-cases ch.consumer) [
    | inl e ↦ rw (e, close) s
    | inr (c, e) ↦ rw (e, close) (remove-AllConsumers c.tag c.qname w.consumers s)
  ]

  -- Closing a channel removes the consumer that it holds, and brings none back.
  pub tagged-close :
      (ch : Channel) (c : Consumer ChannelRef) (w : World P)
      → ch.consumer ≡ some c
      → IsTagged w
      → is_tagged c.tag c.qname (close P ch w).consumers ≡ false
  unfolding close
  tagged-close ch c w e s = rw (e, close) (tagged-remove_same c.tag c.qname w.consumers s)

  pub tagged-close_later :
      (tag qname : Text) (ch : Channel) (w : World P)
      → is_tagged tag qname w.consumers ≡ false
      → is_tagged tag qname (close P ch w).consumers ≡ false
  unfolding close
  tagged-close_later tag qname ch w h = elim (Option-cases ch.consumer) [
    | inl e ↦ rw (e, close) h
    | inr (c, e) ↦ rw (e, close) (tagged-remove tag qname c.tag c.qname w.consumers h)
  ]

  pub consume-IsTagged : (q : Text) (w : World P) → IsTagged w → IsTagged (consume P q w)
  unfolding consume consume_cb
  consume-IsTagged q w s =
      let r = take P q w.host in
      let s2 = choose-AllConsumers q w.consumers s in
      elim (Option-cases r.1) [
        | inl e ↦ rw (e, consume) s
        | inr (m, e) ↦ elim (Option-cases (choose q w.consumers).1) [
          | inl f ↦ rw (e, f, consume) s2
          | inr (c, f) ↦ elim (Bool-cases c.auto_ack) [
            | inl a ↦ rw (e, f, consume, a) s2
            | inr a ↦ rw (e, f, consume, a) s2
          ]
        ]
      ]

  pub handle-IsTagged :
      (r : Request) (ch : Channel) (w : World P) → IsTagged w → IsTagged (handle P r ch w).1
  unfolding handle declare_exchange delete_exchange delete_queue bind unbind basic_ack basic_nack
      basic_cancel basic_query basic_response declare_queue declare_queue_with_dlq basic_publish
      basic_consume
  handle-IsTagged (declare_exchange_request rid cid n t d a args) ch w s = s
  handle-IsTagged (delete_exchange_request rid cid n) ch w s = s
  handle-IsTagged (declare_queue_request rid cid q d x a args) ch w s =
      rw ((contains-declare_queue P q d x a args w.host q).1, declare_queue)
        (init_queue_consumer-AllConsumers q w.consumers s)
  handle-IsTagged (declare_queue_with_dlq_request rid cid q d x a args dlq) ch w s =
      rw
        (
          (contains-declare_queue_with_dlq P q d x a args (config_of dlq) w.host q).1,
          declare_queue_with_dlq,
        )
        (init_queue_consumer-AllConsumers q w.consumers s)
  handle-IsTagged (delete_queue_request rid cid q) ch w s =
      destroy_queue_consumer-AllConsumers q w.consumers s
  handle-IsTagged (bind_request rid cid ex q key) ch w s = s
  handle-IsTagged (unbind_request rid cid ex q) ch w s = s
  handle-IsTagged (basic_publish_request rid cid ex bp body) ch w s =
      elim (Option-cases (select_exchange P ex w.host)) [
        | inl e ↦ rw (e, basic_publish) s
        | inr (_, e) ↦ rw (e, basic_publish) s
      ]
  handle-IsTagged (basic_ack_request rid cid q id) ch w s = s
  handle-IsTagged (basic_nack_request rid cid q id requeue reason) ch w s = s
  handle-IsTagged (basic_consume_request rid cid tag q auto) ch w s =
      elim (Bool-cases (exists_queue P q w.host)) [
        | inl e ↦ rw (e, basic_consume) (create-AllConsumers tag q auto (ref_of ch) w.consumers s)
        | inr e ↦ rw (e, basic_consume) s
      ]
  handle-IsTagged (basic_cancel_request rid cid tag q) ch w s =
      remove-AllConsumers tag q w.consumers s
  handle-IsTagged (basic_query_request rid cid) ch w s = s
