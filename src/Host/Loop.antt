-- ===== src/Host/Loop.antt =====
-- The loop of `publish_to_exchange` of src/server/virtual_host.cpp over the bindings.
use mq_work.Common.{
  ◌≡◌, refl, ◌∙◌, ap, ℕ, suc, ◌+◌, ◌/◌, ◌%◌, ◌^◌, Bool, true, false, ◌&&◌, ◌||◌, Option, none, some,
  List, [], ◌∷◌, ◌++◌, arith, if◌then◌else◌, is_empty, Option-cases, inl, inr, Bool-cases,
}
use mq_work.Common.Text.{Text, ◌==◌, eq_iff}
use mq_work.Common.Dict.{find, contains, DistinctKeys}
use mq_work.Proto.{BasicProperties}
use mq_work.Storage.{QueueMessage}
use mq_work.Storage.Fifo.{Content}
use mq_work.Platform.{Platform}
use mq_work.Host.{Host, Binding, BindingMap, generate_id, to_string, digits}
use mq_work.Host.Publish.{with_id, publish_to_store, basic_publish, publish_loop}
use mq_work.Host.View.{basic_publish-SameShape}
use mq_work.Host.Delivery.{
  queue_contents, accepts, next_id, stamped, with_id_lem, store_accepted, store_refused,
  basic_publish-Published,
}

is_empty-snoc {ℓ} : {A : Type ℓ} (xs : List A) (a : A) → is_empty (xs ++ a ∷ []) ≡ false
is_empty-snoc [] a = refl
is_empty-snoc (x ∷ xs) a = refl

is_empty-digits : (fuel n : ℕ) → is_empty (digits (suc fuel) n) ≡ false
unfolding digits
is_empty-digits fuel n = ground (arith, is_empty-snoc (digits fuel (n / 10)) (b'0' + n % 10))

-- An id that the host makes up is never empty.
pub is_empty-next_id : (seq : ℕ) → is_empty (next_id seq) ≡ false
unfolding to_string
is_empty-next_id seq = is_empty-digits 19 ((seq + 1) % 2 ^ 64)

-- Does the loop come to a binding of this queue that passes the test?
abbrev pub passes : (Binding → Bool) → Option Binding → Bool
passes test none = false
passes test (some b) = test b

module _ (P : Platform) where
  -- What a round of the loop hands to the next: the same key, and the same id in the end.
  abbrev Next : BasicProperties → Host P → Host P × Option BasicProperties × Bool → Type 0
  Next p h (h', bp', r) =
      (p' : BasicProperties) × (bp' ≡ some p')
      × (p'.routing_key ≡ p.routing_key)
      × ((n : Text) → stamped n (some p') h'.seq ≡ stamped n (some p) h.seq)

  stamped-with_id :
      (p : BasicProperties) (h : Host P) (n : Text)
      → stamped n (some (with_id P p h).1) (with_id P p h).0.seq ≡ stamped n (some p) h.seq
  unfolding with_id
  stamped-with_id p h n = elim (Bool-cases (is_empty p.id)) [
    | inl e ↦ rw e (unfold generate_id in rw (is_empty-next_id h.seq))
    | inr e ↦ rw (e, e)
  ]

  -- Stamping twice does not make up a second id.
  stamped-stamped :
      (p : BasicProperties) (name n : Text) (seq seq' : ℕ)
      → stamped n (some (stamped name (some p) seq)) seq' ≡ stamped n (some p) seq
  stamped-stamped p name n seq seq' = elim (Bool-cases (is_empty p.id)) [
    | inl e ↦ rw (e, is_empty-next_id seq)
    | inr e ↦ rw (e, e)
  ]

  publish_to_store-Next :
      (name : Text) (store : QueueMessage) (p : BasicProperties) (body : Text) (h : Host P)
      → is_empty p.routing_key ≡ false
      → Next p h (publish_to_store P name store (some p) body h)
  publish_to_store-Next name store p body h k = elim (Bool-cases (accepts name (some p))) [
    | inl a ↦ rw (store_accepted P name store p body h a) (
      stamped name (some p) h.seq,
      refl,
      ground (arith, eq_iff p.routing_key name),
      λ n. stamped-stamped p name n h.seq _,
    )
    | inr a ↦ rw (store_refused P name store p body h a) (
      (with_id P p h).1,
      refl,
      ap (λ (x : BasicProperties). x.routing_key) (with_id_lem P p h).0,
      stamped-with_id p h,
    )
  ]

  basic_publish-Next :
      (name : Text) (p : BasicProperties) (body : Text) (h : Host P)
      → is_empty p.routing_key ≡ false
      → Next p h (basic_publish P name (some p) body h)
  unfolding basic_publish
  basic_publish-Next name p body h k = elim (Option-cases (find name h.queue_messages)) [
    | inl e ↦ rw (e, basic_publish) (p, refl, refl, λ n. refl)
    | inr (store, e) ↦ rw (e, basic_publish) (publish_to_store-Next name store p body h k)
  ]

  -- What publishing does that puts the message into one queue at most, the one that its key names.
  abbrev pub Routed :
      Bool
      → Bool
      → BasicProperties
      → Text
      → Host P
      → Host P × Option BasicProperties × Bool
      → Text
      → Type 0
  Routed published routed p body h (h', bp', r) k =
      let sent : Content = record {
        properties = stamped p.routing_key (some p) h.seq;
        body = body;
      } in
      (r ≡ (published || routed))
      × (queue_contents k h' ≡ (
          if routed && p.routing_key == k
          then queue_contents k h ++ sent ∷ []
          else queue_contents k h))

  -- The message after a round that publishes.
  module _ (test : Binding → Bool) (bindings : BindingMap) (q : Text) (b : Binding)
      (p : BasicProperties) (body : Text) (published : Bool) (h : Host P) (k : Text)
      (hit : test b ≡ true) (e : is_empty p.routing_key ≡ false) (d : find q bindings ≡ none) where
    abbrev round : Host P × Option BasicProperties × Bool
    round = basic_publish P q (some p) body h

    abbrev routed_rest : Bool
    routed_rest =
        passes test (find p.routing_key bindings) && contains p.routing_key round.0.queue_messages

    publish_hit-Routed :
        (r : Host P × Option BasicProperties × Bool) (p' : BasicProperties)
        → p'.routing_key ≡ p.routing_key
        → stamped p.routing_key (some p') round.0.seq ≡ stamped p.routing_key (some p) h.seq
        → Routed
            (published || round.2)
            (passes test (find p'.routing_key bindings)
              && contains p'.routing_key round.0.queue_messages)
            p'
            body
            round.0
            r
            k
        → Routed published
            (passes test (find p.routing_key ((q, b) ∷ bindings))
              && contains p.routing_key h.queue_messages)
            p
            body
            h
            r
            k
    unfolding find
    publish_hit-Routed r p' k1 s1 ih =
        let now = basic_publish-Published P q (some p) body h k in
        let there = (basic_publish-SameShape P q (some p) body h).stores p.routing_key in
        ground (
          arith,
          ih,
          k1,
          s1,
          now,
          there,
          eq_iff q p.routing_key,
          eq_iff p.routing_key q,
          eq_iff q k,
          eq_iff p.routing_key k,
        )

  pub publish_loop-Routed :
      (test : Binding → Bool) (bindings : BindingMap) (p : BasicProperties) (body : Text)
      (published : Bool) (h : Host P) (k : Text)
      → is_empty p.routing_key ≡ false
      → DistinctKeys bindings
      → Routed published
          (passes test (find p.routing_key bindings) && contains p.routing_key h.queue_messages)
          p
          body
          h
          (publish_loop P test bindings (some p) body published h)
          k
  unfolding publish_loop find
  publish_loop-Routed test [] p body published h k e d = (ground arith, refl)
  publish_loop-Routed test ((q, b) ∷ bindings) p body published h k e d =
      elim (Bool-cases (test b)) [
        | inr miss ↦
            rw (miss, publish_loop)
              (ground (
                arith,
                publish_loop-Routed test bindings p body published h k e d.1,
                eq_iff q p.routing_key,
                d.0,
              ))
        | inl hit ↦
            let (p', e1, k1, s1) = basic_publish-Next q p body h e in
            let (h1, _, r) = basic_publish P q (some p) body h in
            rw (hit, publish_loop, e1)
              (publish_hit-Routed test bindings q b p body published h k hit e d.0
                (publish_loop P test bindings (some p') body (published || r) h1) p' k1
                (s1 p.routing_key)
                (publish_loop-Routed test bindings p' body (published || r) h1 k
                  (ap is_empty k1 ∙ e) d.1))
      ]
