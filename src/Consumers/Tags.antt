-- ===== src/Consumers/Tags.antt =====
-- Who is in the lists of src/server/consumer.cpp after any history of calls of the manager.
use mq_work.Common.{
  ◌≡◌, refl, Bool, true, false, some, List, [], ◌∷◌, ◌++◌, arith, if◌then◌else◌, inl, inr,
  Option-cases, Bool-cases,
}
use mq_work.Common.Text.{Text, ◌==◌, eq_iff}
use mq_work.Common.Dict.{find, put, contains, find-put, find-erase}
use mq_work.Consumers.{Consumer, QueueConsumer, queue_consumer, has_tag, erase_tag, rr_choose}
use mq_work.Consumers
use mq_work.Consumers.Manager.{ConsumerManager, init_queue_consumer, destroy_queue_consumer, choose}
use mq_work.Consumers.Manager

module _ {K : Type 0} where
  -- No tag stands twice, and every consumer is one of this queue.
  abbrev pub AreConsumers : Text → List (Consumer K) → Type 0
  AreConsumers qname [] = Unit {0}
  AreConsumers qname (c ∷ cs) =
      (has_tag c.tag cs ≡ false) × (c.qname ≡ qname) × AreConsumers qname cs

  has_tag-append :
      (t : Text) (cs : List (Consumer K)) (c : Consumer K)
      → has_tag t (cs ++ c ∷ []) ≡ (if has_tag t cs then true else c.tag == t)
  unfolding has_tag
  has_tag-append t [] c = ground arith
  has_tag-append t (d ∷ cs) c = ground (arith, has_tag-append t cs c)

  AreConsumers-append :
      (qname : Text) (cs : List (Consumer K)) (c : Consumer K)
      → AreConsumers qname cs
      → has_tag c.tag cs ≡ false
      → c.qname ≡ qname
      → AreConsumers qname (cs ++ c ∷ [])
  unfolding has_tag
  AreConsumers-append qname [] c a n q = (refl, q, tt)
  AreConsumers-append qname (d ∷ cs) c a n q = (
    ground (arith, has_tag-append d.tag cs c, a.0, eq_iff c.tag d.tag, eq_iff d.tag c.tag),
    a.1,
    AreConsumers-append qname cs c a.2 (ground arith) q,
  )

  pub has_tag-erase :
      (t u : Text) (cs : List (Consumer K))
      → has_tag t cs ≡ false
      → has_tag t (erase_tag u cs) ≡ false
  unfolding has_tag erase_tag
  has_tag-erase t u [] h = refl
  has_tag-erase t u (c ∷ cs) h = ground (arith, has_tag-erase t u cs)

  AreConsumers-erase :
      (qname u : Text) (cs : List (Consumer K))
      → AreConsumers qname cs
      → AreConsumers qname (erase_tag u cs)
  unfolding erase_tag
  AreConsumers-erase qname u [] a = tt
  AreConsumers-erase qname u (c ∷ cs) a = elim (Bool-cases (c.tag == u)) [
    | inl e ↦ rw e a.2
    | inr e ↦ rw e (has_tag-erase c.tag u cs a.0, a.1, AreConsumers-erase qname u cs a.2)
  ]

  -- The consumers of every queue that the manager knows.
  abbrev pub AllConsumers : ConsumerManager K → Type 0
  AllConsumers m =
      (n : Text) (qc : QueueConsumer K) → find n m ≡ some qc → AreConsumers n qc.consumers

  consumers-choose : (qc : QueueConsumer K) → (rr_choose qc).0.consumers ≡ qc.consumers
  unfolding rr_choose
  consumers-choose qc = ground arith

  -- Storing the consumers of one queue.
  AllConsumers-put :
      (name : Text) (qc : QueueConsumer K) (m : ConsumerManager K)
      → AreConsumers name qc.consumers
      → AllConsumers m
      → AllConsumers (put name qc m)
  AllConsumers-put name qc m a all n qc' e = elim (Bool-cases (name == n)) [
    | inl h ↦
        let same_name : name ≡ n = (eq_iff name n).0 h in
        let same : qc ≡ qc' = ground (arith, find-put name n qc m) in rw (← same_name, ← same) a
    | inr h ↦ all n qc' (ground (arith, find-put name n qc m))
  ]

  pub init_queue_consumer-AllConsumers :
      (n : Text) (m : ConsumerManager K) → AllConsumers m → AllConsumers (init_queue_consumer n m)
  unfolding init_queue_consumer queue_consumer
  init_queue_consumer-AllConsumers n m all = elim (Bool-cases (contains n m)) [
    | inl e ↦ rw e all
    | inr e ↦ rw e (AllConsumers-put n (queue_consumer n) m tt all)
  ]

  pub destroy_queue_consumer-AllConsumers :
      (n : Text) (m : ConsumerManager K)
      → AllConsumers m
      → AllConsumers (destroy_queue_consumer n m)
  unfolding destroy_queue_consumer
  destroy_queue_consumer-AllConsumers n m all k qc e = all k qc (ground (arith, find-erase n k m))

  pub choose-AllConsumers :
      (n : Text) (m : ConsumerManager K) → AllConsumers m → AllConsumers (choose n m).0
  unfolding choose rr_choose
  choose-AllConsumers n m all = elim (Option-cases (find n m)) [
    | inl e ↦ rw (e, choose) all
    | inr (qc, e) ↦
        rw (e, choose)
          (AllConsumers-put n (rr_choose qc).0 m (rw (consumers-choose qc) (all n qc e)) all)
  ]

  pub create-AllConsumers :
      (t n : Text) (a : Bool) (k : K) (m : ConsumerManager K)
      → AllConsumers m
      → AllConsumers (Manager.create t n a k m).0
  unfolding Manager.create Consumers.create
  create-AllConsumers t n a k m all = elim (Option-cases (find n m)) [
    | inl e ↦ rw (e, Manager.create) all
    | inr (qc, e) ↦ elim (Bool-cases (has_tag t qc.consumers)) [
      | inl h ↦ rw (e, h, Manager.create) (AllConsumers-put n qc m (all n qc e) all)
      | inr h ↦
          rw (e, h, Manager.create)
            (AllConsumers-put n _ m (AreConsumers-append n qc.consumers _ (all n qc e) h refl) all)
    ]
  ]

  pub remove-AllConsumers :
      (t n : Text) (m : ConsumerManager K) → AllConsumers m → AllConsumers (Manager.remove t n m)
  unfolding Manager.remove Consumers.remove
  remove-AllConsumers t n m all = elim (Option-cases (find n m)) [
    | inl e ↦ rw (e, Manager.remove) all
    | inr (qc, e) ↦
        rw (e, Manager.remove)
          (AllConsumers-put n _ m (AreConsumers-erase n t qc.consumers (all n qc e)) all)
  ]

-- The calls of the manager.
pub data ConsumerCall (K : Type 0) : Type 0 where
  inits destroys chooses : Text → ConsumerCall K
  creates : Text → Text → Bool → K → ConsumerCall K
  cancels : Text → Text → ConsumerCall K

module _ {K : Type 0} where
  unfoldable pub consumer_call : ConsumerCall K → ConsumerManager K → ConsumerManager K
  consumer_call (inits n) m = init_queue_consumer n m
  consumer_call (destroys n) m = destroy_queue_consumer n m
  consumer_call (chooses n) m = (choose n m).0
  consumer_call (creates t n a k) m = (Manager.create t n a k m).0
  consumer_call (cancels t n) m = Manager.remove t n m

  unfoldable pub consumer_calls : List (ConsumerCall K) → ConsumerManager K → ConsumerManager K
  consumer_calls [] m = m
  consumer_calls (c ∷ cs) m = consumer_calls cs (consumer_call c m)

  consumer_call-AllConsumers :
      (c : ConsumerCall K) (m : ConsumerManager K)
      → AllConsumers m
      → AllConsumers (consumer_call c m)
  unfolding consumer_call
  consumer_call-AllConsumers (inits n) m all = init_queue_consumer-AllConsumers n m all
  consumer_call-AllConsumers (destroys n) m all = destroy_queue_consumer-AllConsumers n m all
  consumer_call-AllConsumers (chooses n) m all = choose-AllConsumers n m all
  consumer_call-AllConsumers (creates t n a k) m all = create-AllConsumers t n a k m all
  consumer_call-AllConsumers (cancels t n) m all = remove-AllConsumers t n m all

  calls-AllConsumers :
      (cs : List (ConsumerCall K)) (m : ConsumerManager K)
      → AllConsumers m
      → AllConsumers (consumer_calls cs m)
  unfolding consumer_calls
  calls-AllConsumers [] m all = all
  calls-AllConsumers (c ∷ cs) m all =
      calls-AllConsumers cs (consumer_call c m) (consumer_call-AllConsumers c m all)

  -- After any history of calls on a new manager, no two consumers of a queue have the same tag, and
  -- every consumer in the list of a queue was created for that queue.
  pub consumer_calls-AllConsumers :
      (cs : List (ConsumerCall K)) → AllConsumers (consumer_calls cs [])
  unfolding find
  consumer_calls-AllConsumers cs = calls-AllConsumers cs [] (λ n qc e. cc)
