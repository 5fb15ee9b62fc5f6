-- ===== src/Channel/Served.antt =====
-- The queues of the virtual host and the consumer lists of src/server/channel.cpp go together: what
-- one call does to the keys of both maps.
use mq_work.Common.{
  ◌≡◌, refl, ◌∙◌, ap, Bool, true, false, some, [], arith, if◌then◌else◌, inl, inr, Option-cases,
  Bool-cases,
}
use mq_work.Common.Text.{Text, ◌==◌, eq_iff}
use mq_work.Common.Dict.{Dict, find, put, contains, find-put, find-erase}
use mq_work.Proto.{Args}
use mq_work.Queue.{DeadLetterConfig}
use mq_work.Queue.Manager
use mq_work.Platform.{Platform}
use mq_work.Host.{
  VirtualHost, open_store, bind_args, bind, ensure_store, declare_queue, declare_queue_with_dlq,
  delete_queue, unbind,
}
use mq_work.Host.Setup.{contains-declare, contains-declare_dlq}
use mq_work.Consumers.{queue_consumer}
use mq_work.Consumers.Manager.{
  ConsumerManager, init_queue_consumer, destroy_queue_consumer, create, remove, choose,
}

-- A queue has a list of consumers exactly when it is declared.
abbrev pub IsServed : {E : Type 0} {K : Type 0} → VirtualHost E → ConsumerManager K → Type 0
IsServed h m = (n : Text) → contains n m ≡ contains n h.queue_mgr

contains-put_old :
    {V : Type 0} (k n : Text) (v w : V) (m : Dict V)
    → find k m ≡ some v
    → contains n (put k w m) ≡ contains n m
contains-put_old k n v w m e = ground (arith, find-put k n w m, eq_iff k n)

module _ {K : Type 0} where
  pub contains-init :
      (q : Text) (m : ConsumerManager K) (n : Text)
      → contains n (init_queue_consumer q m) ≡ (if q == n then true else contains n m)
  unfolding init_queue_consumer
  contains-init q m n = elim (Bool-cases (contains q m)) [
    | inl e ↦ rw (e, init_queue_consumer) (ground (arith, eq_iff q n, e))
    | inr e ↦ rw (e, init_queue_consumer) (ground (arith, find-put q n (queue_consumer q) m))
  ]

  pub contains-destroy :
      (q : Text) (m : ConsumerManager K) (n : Text)
      → contains n (destroy_queue_consumer q m) ≡ (if q == n then false else contains n m)
  unfolding destroy_queue_consumer
  contains-destroy q m n = ground (arith, find-erase q n m)

  pub contains-create :
      (t q : Text) (a : Bool) (k : K) (m : ConsumerManager K) (n : Text)
      → contains n (create t q a k m).0 ≡ contains n m
  unfolding create
  contains-create t q a k m n = elim (Option-cases (find q m)) [
    | inl e ↦ rw (e, create) refl
    | inr (qc, e) ↦ rw (e, create) (contains-put_old q n qc _ m e)
  ]

  pub contains-remove :
      (t q : Text) (m : ConsumerManager K) (n : Text) → contains n (remove t q m) ≡ contains n m
  unfolding remove
  contains-remove t q m n = elim (Option-cases (find q m)) [
    | inl e ↦ rw (e, remove) refl
    | inr (qc, e) ↦ rw (e, remove) (contains-put_old q n qc _ m e)
  ]

  pub contains-choose :
      (q : Text) (m : ConsumerManager K) (n : Text) → contains n (choose q m).0 ≡ contains n m
  unfolding choose
  contains-choose q m n = elim (Option-cases (find q m)) [
    | inl e ↦ rw (e, choose) refl
    | inr (qc, e) ↦ rw (e, choose) (contains-put_old q n qc _ m e)
  ]

module _ (P : Platform) where
  queue_mgr-bind :
      (ex q key : Text) (args : Args) (h : VirtualHost P.Exchanges)
      → (bind_args P ex q key args h).0.queue_mgr ≡ h.queue_mgr
  unfolding bind_args
  queue_mgr-bind ex q key args h = ground arith

  queue_mgr-ensure :
      (n : Text) (d : Bool) (h : VirtualHost P.Exchanges)
      → (ensure_store P n d h).queue_mgr ≡ h.queue_mgr
  unfolding ensure_store open_store
  queue_mgr-ensure n d h = ground arith

  pub contains-declare_queue :
      (q : Text) (d x a : Bool) (args : Args) (h : VirtualHost P.Exchanges) (n : Text)
      → (contains n (declare_queue P q d x a args h).0.queue_mgr
          ≡ (if q == n then true else contains n h.queue_mgr))
        × ((declare_queue P q d x a args h).1 ≡ true)
  unfolding declare_queue bind
  contains-declare_queue q d x a args h n =
      let (there, ok) = contains-declare P h.queue_mgr q d x a args n in
      let queues = (Manager.declare_queue h.queue_mgr q d x a args).0 in
      rw (ok, declare_queue)
        (
          ap (contains n) (
                queue_mgr-bind [] q q [] _ ∙ queue_mgr-ensure q d (record h { queue_mgr = queues }))
              ∙ there,
          refl,
        )

  pub contains-declare_queue_with_dlq :
      (q : Text) (d x a : Bool) (args : Args) (c : DeadLetterConfig) (h : VirtualHost P.Exchanges)
      (n : Text)
      → (contains n (declare_queue_with_dlq P q d x a args c h).0.queue_mgr
          ≡ (if q == n then true else contains n h.queue_mgr))
        × ((declare_queue_with_dlq P q d x a args c h).1 ≡ true)
  unfolding declare_queue_with_dlq
  contains-declare_queue_with_dlq q d x a args c h n =
      let (there, ok) = contains-declare_dlq P h.queue_mgr q d x a args c n in
      let queues = (Manager.declare_queue_with_dlq h.queue_mgr q d x a args c).0 in
      rw (ok, declare_queue_with_dlq)
        (ap (contains n) (queue_mgr-ensure q d (record h { queue_mgr = queues })) ∙ there, refl)

  pub contains-delete_queue :
      (q : Text) (h : VirtualHost P.Exchanges) (n : Text)
      → contains n (delete_queue P q h).queue_mgr
        ≡ (if q == n then false else contains n h.queue_mgr)
  unfolding delete_queue Manager.delete_queue
  contains-delete_queue q h n = ground (arith, find-erase q n h.queue_mgr, eq_iff q n)

  pub bind-queue_mgr :
      (ex q key : Text) (h : VirtualHost P.Exchanges)
      → (bind P ex q key h).0.queue_mgr ≡ h.queue_mgr
  unfolding bind
  bind-queue_mgr ex q key h = queue_mgr-bind ex q key [] h

  pub unbind-queue_mgr :
      (ex q : Text) (h : VirtualHost P.Exchanges) → (unbind P ex q h).queue_mgr ≡ h.queue_mgr
  unfolding unbind
  unbind-queue_mgr ex q h = elim (Option-cases (find ex h.exchange_bindings)) [
    | inl e ↦ rw (e, unbind) refl
    | inr (m, e) ↦ rw (e, unbind) refl
  ]
