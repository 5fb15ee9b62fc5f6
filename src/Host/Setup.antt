-- ===== src/Host/Setup.antt =====
-- Declaring and deleting in src/server/virtual_host.cpp keep the maps consistent.
use mq_work.Common.{
  ◌≡◌, refl, ◌∙◌, ℕ, Bool, true, List, [], arith, if◌then◌else◌, inl, inr, Bool-cases,
}
use mq_work.Common.Text.{Text, ◌==◌, eq_iff}
use mq_work.Common.Dict.{Dict, find, contains, find-put, find-erase}
use mq_work.Proto.{ExchangeType, Args}
use mq_work.Queue.{DeadLetterConfig, msg_queue, set_dead_letter_config}
use mq_work.Queue.Manager
use mq_work.Platform.{Platform, HasExchangeLaws}
use mq_work.Host.{
  Host, open_store, recover_queues, virtual_host, declare_exchange, delete_exchange, bind,
  ensure_store, declare_queue, declare_queue_with_dlq,
}
use mq_work.Host.Invariant.{IsConsistent, bind_args-IsConsistent, open_store-stores}

module _ (P : Platform) where
  ensure_store-IsConsistent :
      (name : Text) (durable : Bool) (queues : Manager.QueueMap) (h : Host P)
      → ((n : Text) → contains n queues ≡ (if name == n then true else contains n h.queue_mgr))
      → IsConsistent P h
      → IsConsistent P (ensure_store P name durable (record h { queue_mgr = queues }))
  unfolding ensure_store
  ensure_store-IsConsistent name durable queues h e c =
      elim (Bool-cases (contains name h.queue_messages)) [
        | inl old ↦
            rw (old, ensure_store)
              (record {
                stores = λ n. ground (arith, e n, c.stores n, c.stores name, eq_iff name n, old);
                bound = λ ex q b. ground (arith, e q, c.bound ex q);
                exchanges = c.exchanges;
                distinct = c.distinct;
              })
        | inr new ↦
            let opened = record h { queue_mgr = queues } in
            rw (new, ensure_store)
              (record {
                stores = λ n.
                    open_store-stores P name durable opened n
                    ∙ (unfold open_store in ground (arith, e n, c.stores n));
                bound = λ ex q b. unfold open_store in ground (arith, e q, c.bound ex q);
                exchanges = λ ex b. unfold open_store in c.exchanges ex b;
                distinct = λ ex. unfold open_store in c.distinct ex;
              })
      ]

  pub contains-declare :
      (queues : Manager.QueueMap) (name : Text) (d x a : Bool) (args : Args) (n : Text)
      → (contains n (Manager.declare_queue queues name d x a args).0
          ≡ (if name == n then true else contains n queues))
        × ((Manager.declare_queue queues name d x a args).1 ≡ true)
  unfolding Manager.declare_queue
  contains-declare queues name d x a args n =
      let q = msg_queue name d x a args in ground (arith, find-put name n q queues, eq_iff name n)

  pub contains-declare_dlq :
      (queues : Manager.QueueMap) (name : Text) (d x a : Bool) (args : Args) (c : DeadLetterConfig)
      (n : Text)
      → (contains n (Manager.declare_queue_with_dlq queues name d x a args c).0
          ≡ (if name == n then true else contains n queues))
        × ((Manager.declare_queue_with_dlq queues name d x a args c).1 ≡ true)
  unfolding Manager.declare_queue_with_dlq
  contains-declare_dlq queues name d x a args c n =
      let q = set_dead_letter_config c (msg_queue name d x a args) in
      ground (arith, find-put name n q queues, eq_iff name n)

  pub declare_queue-IsConsistent :
      (name : Text) (d x a : Bool) (args : Args) (h : Host P)
      → IsConsistent P h
      → IsConsistent P (declare_queue P name d x a args h).0
  unfolding declare_queue bind
  declare_queue-IsConsistent name d x a args h c =
      let declared = λ (n : Text). contains-declare h.queue_mgr name d x a args n in
      let (queues, _) = Manager.declare_queue h.queue_mgr name d x a args in
      rw ((declared name).1, declare_queue)
        (bind_args-IsConsistent P [] name name [] _
          (ensure_store-IsConsistent name d queues h (λ n. (declared n).0) c))

  pub declare_queue_with_dlq-IsConsistent :
      (name : Text) (d x a : Bool) (args : Args) (cfg : DeadLetterConfig) (h : Host P)
      → IsConsistent P h
      → IsConsistent P (declare_queue_with_dlq P name d x a args cfg h).0
  unfolding declare_queue_with_dlq
  declare_queue_with_dlq-IsConsistent name d x a args cfg h c =
      let declared = λ (n : Text). contains-declare_dlq h.queue_mgr name d x a args cfg n in
      let (queues, _) = Manager.declare_queue_with_dlq h.queue_mgr name d x a args cfg in
      rw ((declared name).1, declare_queue_with_dlq)
        (ensure_store-IsConsistent name d queues h (λ n. (declared n).0) c)

  module _ (laws : HasExchangeLaws P) where
    pub declare_exchange-IsConsistent :
        (name : Text) (t : ExchangeType) (d a : Bool) (args : Args) (h : Host P)
        → IsConsistent P h
        → IsConsistent P (declare_exchange P name t d a args h).0
    unfolding declare_exchange
    declare_exchange-IsConsistent name t d a args h c = record {
      stores = c.stores;
      bound = c.bound;
      exchanges = λ ex b. laws.declare_keeps h.exchange_mgr name ex t d a args (c.exchanges ex b);
      distinct = c.distinct;
    }

    pub delete_exchange-IsConsistent :
        (name : Text) (h : Host P) → IsConsistent P h → IsConsistent P (delete_exchange P name h)
    unfolding delete_exchange find
    delete_exchange-IsConsistent name h c = record {
      stores = c.stores;
      bound = λ ex q b. ground (arith, find-erase name ex h.exchange_bindings, c.bound ex q);
      exchanges = λ ex b. ground (
        arith,
        find-erase name ex h.exchange_bindings,
        c.exchanges ex,
        laws.exists-delete h.exchange_mgr name ex,
      );
      distinct = λ ex. ground (arith, find-erase name ex h.exchange_bindings, c.distinct ex);
    }

  pub virtual_host-IsConsistent :
      (disk : Dict (List ℕ)) (seq : ℕ) → IsConsistent P (virtual_host P disk seq)
  unfolding virtual_host recover_queues Manager.queue_manager find
  virtual_host-IsConsistent disk seq = record {
    stores = λ n. refl;
    bound = λ ex q b. cc;
    exchanges = λ ex b. cc;
    distinct = λ ex. tt;
  }
