-- ===== src/Host/Sizes.antt =====
-- src/server/virtual_host.cpp: how many messages wait in each queue, before and after an operation.
use mathlib.Core.List.{tail}
use mq_work.Common.{
  ℕ, ◌-◌, ◌≤◌, ◌≡◌, refl, Bool, true, false, some, List, [], ◌∷◌, arith, if◌then◌else◌, length,
  Option-cases, Bool-cases, inl, inr, eqb,
}
use mq_work.Common.Text.{Text, ◌==◌, eq_iff, eq_refl}
use mq_work.Common.Dict.{
  Dict, find, contains, find-put, find-erase, DistinctKeys, DistinctKeys-put, DistinctKeys-erase,
}
use mq_work.Proto.{Args}
use mq_work.Queue.{DeadLetterConfig}
use mq_work.Storage.{QueueMessage, front, getable_count, queue_message}
use mq_work.Storage.Fifo.{Content, contents_of}
use mq_work.Storage.Refinement.{acked, without_id}
use mq_work.Platform.{Platform}
use mq_work.Host.{
  VirtualHost, Host, bind, bind_args, ensure_store, open_store, declare_queue,
  declare_queue_with_dlq, delete_queue,
}
use mq_work.Host.Setup.{contains-declare, contains-declare_dlq}
use mq_work.Queue.Manager
use mq_work.Host.Consume.{
  remove_from, basic_consume, basic_ack, basic_nack, query_loop, basic_query,
}
use mq_work.Host.Delivery.{queue_contents}
use mq_work.Host.Pull.{queue_contents-remove_from, basic_consume-Takes}

-- The number of messages in the store of a queue.
abbrev pub waiting : {E : Type 0} → Text → VirtualHost E → ℕ
waiting q h = length (queue_contents q h)

length-without_id : (id : Text) (cs : List Content) → length (without_id id cs) ≤ length cs
unfolding without_id
length-without_id id [] = omega arith
length-without_id id (c ∷ cs) = ground (arith, length-without_id id cs)

length-tail : (cs : List Content) → length (tail cs) ≡ length cs - 1
length-tail [] = refl
length-tail (c ∷ cs) = omega arith

pub length-acked : (id : Text) (cs : List Content) → length (acked id cs) ≤ length cs
length-acked id cs = ground (arith, length-without_id id cs, length-tail cs)

-- No queue has more messages than before; the stores have distinct names in both.
pub record Shrinks {E : Type 0} (h h' : VirtualHost E) : Type 0 where
  pub names : DistinctKeys h'.queue_messages
  pub fewer : (q : Text) → waiting q h' ≤ waiting q h

pub Shrinks-trans : {E : Type 0} {h i j : VirtualHost E} → Shrinks h i → Shrinks i j → Shrinks h j
Shrinks-trans f g = record { names = g.names; fewer = λ q. omega (arith, f.fewer q, g.fewer q) }

-- An operation that leaves the stores alone.
pub Shrinks-same :
    {E : Type 0} {h h' : VirtualHost E}
    → DistinctKeys h.queue_messages
    → h'.queue_messages ≡ h.queue_messages
    → Shrinks h h'
unfolding queue_contents
Shrinks-same d e = record { names = rw e d; fewer = λ q. rw e (omega arith) }

module _ (P : Platform) where
  remove_from-Shrinks :
      (name : Text) (store : QueueMessage) (id : Text) (h : Host P)
      → DistinctKeys h.queue_messages
      → find name h.queue_messages ≡ some store
      → Shrinks h (remove_from P name store id h)
  remove_from-Shrinks name store id h d e = record {
    names = unfold remove_from in DistinctKeys-put name _ h.queue_messages d;
    fewer = λ q. ground (
      arith,
      queue_contents-remove_from P name store id h q e,
      length-acked id (queue_contents q h),
    );
  }

  pub basic_ack-Shrinks :
      (name id : Text) (h : Host P)
      → DistinctKeys h.queue_messages
      → Shrinks h (basic_ack P name id h)
  unfolding basic_ack
  basic_ack-Shrinks name id h d = elim (Option-cases (find name h.queue_messages)) [
    | inl e ↦ rw (e, basic_ack) (Shrinks-same d refl)
    | inr (store, e) ↦ rw (e, basic_ack) (remove_from-Shrinks name store id h d e)
  ]

  query_loop-Shrinks :
      (stores : Dict QueueMessage) (h : Host P)
      → DistinctKeys h.queue_messages
      → DistinctKeys stores
      → ((n : Text) (s : QueueMessage) → find n stores ≡ some s → find n h.queue_messages ≡ some s)
      → Shrinks h (query_loop P stores h).0
  unfolding query_loop find
  query_loop-Shrinks [] h d k inside = Shrinks-same d refl
  query_loop-Shrinks ((name, store) ∷ stores) h d k inside =
      let rest =
        query_loop-Shrinks stores h d k.1
          (λ n s e. inside n s (ground (arith, k.0, eq_iff name n, e))) in
      elim (Bool-cases (eqb (getable_count store) 0)) [
        | inl e ↦ rw (e, query_loop) rest
        | inr e ↦ elim (Option-cases (front store)) [
          | inl f ↦ rw (e, query_loop, f) rest
          | inr (m, f) ↦
              rw (e, query_loop, f)
                (remove_from-Shrinks name store _ h d
                  (inside name store (ground (arith, eq_refl name))))
        ]
      ]

  pub basic_query-Shrinks :
      (h : Host P) → DistinctKeys h.queue_messages → Shrinks h (basic_query P h).0
  unfolding basic_query
  basic_query-Shrinks h d = query_loop-Shrinks h.queue_messages h d d (λ n s e. e)

  -- A queue that is declared not durable begins empty, if it is new.
  ensure_store-Shrinks :
      (name : Text) (h : Host P)
      → DistinctKeys h.queue_messages
      → Shrinks h (ensure_store P name false h)
  unfolding ensure_store open_store queue_contents queue_message contents_of
  ensure_store-Shrinks name h d = elim (Bool-cases (contains name h.queue_messages)) [
    | inl e ↦ rw (e, ensure_store) (Shrinks-same d refl)
    | inr e ↦
        rw (e, ensure_store)
          (record {
            names = DistinctKeys-put name _ h.queue_messages d;
            fewer = λ q. ground (
              arith,
              find-put name q (queue_message (P.can_open name) (find name h.disk)) h.queue_messages,
            );
          })
  ]

  queue_messages-bind :
      (ex q key : Text) (h : Host P) → (bind P ex q key h).0.queue_messages ≡ h.queue_messages
  unfolding bind bind_args
  queue_messages-bind ex q key h = ground arith

  pub declare_queue-Shrinks :
      (name : Text) (x a : Bool) (args : Args) (h : Host P)
      → DistinctKeys h.queue_messages
      → Shrinks h (declare_queue P name false x a args h).0
  unfolding declare_queue queue_contents
  declare_queue-Shrinks name x a args h d =
      let declared = contains-declare P h.queue_mgr name false x a args name in
      let (queues, _) = Manager.declare_queue h.queue_mgr name false x a args in
      let h1 : Host P = record h { queue_mgr = queues } in
      let stored = ensure_store-Shrinks name h1 d in
      let h2 = ensure_store P name false h1 in
      rw (declared.1, declare_queue)
        (Shrinks-trans {h = h} {i = h2} (record { names = stored.names; fewer = stored.fewer })
          (Shrinks-same {h = h2} {h' = (bind P [] name name h2).0} stored.names
            (queue_messages-bind [] name name h2)))

  pub declare_queue_with_dlq-Shrinks :
      (name : Text) (x a : Bool) (args : Args) (c : DeadLetterConfig) (h : Host P)
      → DistinctKeys h.queue_messages
      → Shrinks h (declare_queue_with_dlq P name false x a args c h).0
  unfolding declare_queue_with_dlq queue_contents
  declare_queue_with_dlq-Shrinks name x a args c h d =
      let declared = contains-declare_dlq P h.queue_mgr name false x a args c name in
      let (queues, _) = Manager.declare_queue_with_dlq h.queue_mgr name false x a args c in
      let stored = ensure_store-Shrinks name (record h { queue_mgr = queues }) d in
      rw (declared.1, declare_queue_with_dlq)
        (record { names = stored.names; fewer = stored.fewer })

  pub delete_queue-Shrinks :
      (name : Text) (h : Host P) → DistinctKeys h.queue_messages → Shrinks h (delete_queue P name h)
  unfolding delete_queue queue_contents
  delete_queue-Shrinks name h d = record {
    names = DistinctKeys-erase name h.queue_messages d;
    fewer = λ q. ground (arith, find-erase name q h.queue_messages);
  }

  -- A message that is rejected and asked for again stays where it is.
  pub basic_nack-requeue :
      (name id reason : Text) (h : Host P) → basic_nack P name id true reason h ≡ h
  unfolding basic_nack
  basic_nack-requeue name id reason h = ground arith

  basic_consume-names :
      (name : Text) (h : Host P)
      → DistinctKeys h.queue_messages
      → DistinctKeys (basic_consume P name h).0.queue_messages
  unfolding basic_consume remove_from
  basic_consume-names name h d = elim (Option-cases (find name h.queue_messages)) [
    | inl e ↦ rw (e, basic_consume) d
    | inr (store, e) ↦ elim (Option-cases (front store)) [
      | inl f ↦ rw (e, basic_consume, f) d
      | inr (m, f) ↦ rw (e, basic_consume, f) (DistinctKeys-put name _ h.queue_messages d)
    ]
  ]

  -- A task takes one message of its queue, if there is one.
  pub basic_consume-waiting :
      (name : Text) (h : Host P) (q : Text)
      → waiting q (basic_consume P name h).0 ≡ (if name == q then waiting q h - 1 else waiting q h)
  basic_consume-waiting name h q =
      ground (arith, basic_consume-Takes P name h q, length-tail (queue_contents q h))

  pub basic_consume-Shrinks :
      (name : Text) (h : Host P)
      → DistinctKeys h.queue_messages
      → Shrinks h (basic_consume P name h).0
  basic_consume-Shrinks name h d = record {
    names = basic_consume-names name h d;
    fewer = λ q. ground (arith, basic_consume-waiting name h q);
  }
