-- ===== src/Host/Invariant.antt =====
-- The consistency of the maps of src/server/virtual_host.cpp, kept by every operation.
use mq_work.Common.{
  ◌≡◌, refl, sym, ◌∙◌, ap, Bool, true, false, [], ◌∷◌, arith, if◌then◌else◌, Option-cases, inl, inr,
  Bool-cases,
}
use mq_work.Common.Text.{Text, ◌==◌, eq_iff}
use mq_work.Common.Dict.{
  Dict, find, put, erase, contains, find-put, find-erase, DistinctKeys, DistinctKeys-put,
  DistinctKeys-erase,
}
use mq_work.Proto.{Args}
use mq_work.Queue.Manager
use mq_work.Storage.{queue_message, recovery}
use mq_work.Platform.{Platform}
use mq_work.Host.{
  VirtualHost, Host, Binding, BindingMap, map_of, open_store, bind_args, unbind, erase_bindings,
  delete_queue,
}
use mq_work.Host.View.{SameShape}

-- Is a queue bound to an exchange?
abbrev pub is_bound : {E : Type 0} → Text → Text → VirtualHost E → Bool
is_bound ex q h = contains q (map_of (find ex h.exchange_bindings))

-- Every queue has a store and every store a queue; bindings are to queues that exist, and only
-- exchanges that exist have bindings, each queue at most one.
pub record IsConsistent (P : Platform) (h : Host P) : Type 0 where
  pub stores : (n : Text) → contains n h.queue_messages ≡ contains n h.queue_mgr
  pub bound : (ex q : Text) → is_bound ex q h ≡ true → contains q h.queue_mgr ≡ true
  pub exchanges :
      (ex : Text)
      → contains ex h.exchange_bindings ≡ true
      → P.exists_exchange h.exchange_mgr ex ≡ true
  pub distinct : (ex : Text) → DistinctKeys (map_of (find ex h.exchange_bindings))

module _ (P : Platform) where
  -- Operations on messages keep the maps consistent.
  pub SameShape-IsConsistent :
      {h h' : Host P} → SameShape h h' → IsConsistent P h → IsConsistent P h'
  SameShape-IsConsistent {h} {h'} s c = record {
    stores = λ n. s.stores n ∙ (c.stores n ∙ sym (ap (contains n) s.queues));
    bound = λ ex q b.
        ap (contains q) s.queues
        ∙ c.bound ex q
            (sym (ap (λ (m : Dict BindingMap). contains q (map_of (find ex m))) s.bindings) ∙ b);
    exchanges = λ ex b.
        ap (λ (m : P.Exchanges). P.exists_exchange m ex) s.exchanges
        ∙ c.exchanges ex (sym (ap (contains ex) s.bindings) ∙ b);
    distinct = λ ex. rw s.bindings (c.distinct ex);
  }

  pub bind_args-IsConsistent :
      (ex q key : Text) (args : Args) (h : Host P)
      → IsConsistent P h
      → IsConsistent P (bind_args P ex q key args h).0
  unfolding bind_args Manager.exists_queue
  bind_args-IsConsistent ex q key args h c =
      let old = map_of (find ex h.exchange_bindings) in
      let b : Binding = record {
        exchange_name = ex;
        queue_name = q;
        binding_key = key;
        binding_args = args;
      } in
      record {
        stores = λ n. ground (arith, c.stores n);
        bound = λ ex' q' e. ground (
          arith,
          find-put ex ex' (put q b old) h.exchange_bindings,
          find-put q q' b old,
          c.bound ex' q',
          eq_iff ex ex',
          eq_iff q q',
        );
        exchanges = λ ex' e. ground (
          arith,
          find-put ex ex' (put q b old) h.exchange_bindings,
          c.exchanges ex',
          eq_iff ex ex',
        );
        distinct = λ ex'. ground (
          arith,
          find-put ex ex' (put q b old) h.exchange_bindings,
          DistinctKeys-put q b old (c.distinct ex),
          c.distinct ex',
          eq_iff ex ex',
        );
      }

  pub unbind-IsConsistent :
      (ex q : Text) (h : Host P) → IsConsistent P h → IsConsistent P (unbind P ex q h)
  unfolding unbind
  unbind-IsConsistent ex q h c = elim (Option-cases (find ex h.exchange_bindings)) [
    | inl e ↦ rw (e, unbind) c
    | inr (m, e) ↦
        rw (e, unbind)
          (record {
            stores = c.stores;
            bound = λ ex' q' b. ground (
              arith,
              find-put ex ex' (erase q m) h.exchange_bindings,
              find-erase q q' m,
              c.bound ex' q',
              eq_iff ex ex',
              e,
            );
            exchanges = λ ex' b. ground (
              arith,
              find-put ex ex' (erase q m) h.exchange_bindings,
              c.exchanges ex',
              eq_iff ex ex',
              e,
            );
            distinct = λ ex'. ground (
              arith,
              find-put ex ex' (erase q m) h.exchange_bindings,
              DistinctKeys-erase q m,
              c.distinct ex,
              c.distinct ex',
              eq_iff ex ex',
              e,
            );
          })
  ]

  pub open_store-stores :
      (name : Text) (durable : Bool) (h : Host P) (n : Text)
      → contains n (open_store P name durable h).queue_messages
        ≡ (if name == n then true else contains n h.queue_messages)
  unfolding open_store
  open_store-stores name durable h n =
      let fresh = queue_message (P.can_open name) (find name h.disk) in
      ground (
        arith,
        find-put name n fresh h.queue_messages,
        find-put name n (recovery P.codec fresh) h.queue_messages,
      )

  find-erase_bindings :
      (name : Text) (m : Dict BindingMap) (ex q : Text)
      → contains q (map_of (find ex (erase_bindings name m)))
        ≡ (if name == q then false else contains q (map_of (find ex m)))
  unfolding erase_bindings find
  find-erase_bindings name [] ex q = ground arith
  find-erase_bindings name ((ex', m) ∷ rest) ex q =
      ground (arith, find-erase_bindings name rest ex q, find-erase name q m)

  contains-erase_bindings :
      (name : Text) (m : Dict BindingMap) (ex : Text)
      → contains ex (erase_bindings name m) ≡ contains ex m
  unfolding erase_bindings find
  contains-erase_bindings name [] ex = refl
  contains-erase_bindings name ((ex', m) ∷ rest) ex =
      ground (arith, contains-erase_bindings name rest ex)

  DistinctKeys-erase_bindings :
      (name : Text) (m : Dict BindingMap) (ex : Text)
      → DistinctKeys (map_of (find ex m))
      → DistinctKeys (map_of (find ex (erase_bindings name m)))
  unfolding erase_bindings find
  DistinctKeys-erase_bindings name [] ex d = tt
  DistinctKeys-erase_bindings name ((ex', m) ∷ rest) ex d = elim (Bool-cases (ex' == ex)) [
    | inl e ↦ rw e (DistinctKeys-erase name m (rw e at d))
    | inr e ↦ rw e (DistinctKeys-erase_bindings name rest ex (rw e at d))
  ]

  pub delete_queue-IsConsistent :
      (name : Text) (h : Host P) → IsConsistent P h → IsConsistent P (delete_queue P name h)
  unfolding delete_queue Manager.delete_queue
  delete_queue-IsConsistent name h c = record {
    stores = λ n. ground (
      arith,
      c.stores n,
      c.stores name,
      find-erase name n h.queue_messages,
      find-erase name n h.queue_mgr,
      eq_iff name n,
    );
    bound = λ ex q b. ground (
      arith,
      find-erase_bindings name h.exchange_bindings ex q,
      find-erase name q h.queue_mgr,
      c.bound ex q,
    );
    exchanges =
        λ ex b. c.exchanges ex (sym (contains-erase_bindings name h.exchange_bindings ex) ∙ b);
    distinct = λ ex. DistinctKeys-erase_bindings name h.exchange_bindings ex (c.distinct ex);
  }
