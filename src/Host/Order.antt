-- ===== src/Host/Order.antt =====
-- src/server/virtual_host.cpp iterates over the bindings of an exchange in the order of an
-- `std::unordered_map`: what publishing does, and that it does not depend on this order.
use mq_work.Common.{
  ◌≡◌, refl, ap, ◌∙◌, sym, Bool, true, false, ◌&&◌, Option, some, none, [], ◌∷◌, arith, is_empty,
  Bool-cases, inl, inr,
}
use mq_work.Common.Text.{Text, eq_iff}
use mq_work.Common.Dict.{find, contains, DistinctKeys}
use mq_work.Common.Unordered.{unordered, find-unordered}
use mq_work.Proto.{BasicProperties}
use mq_work.Platform.{Platform}
use mq_work.Host.{VirtualHost, Host, Binding, BindingMap, select_exchange, exchange_bindings}
use mq_work.Host.Publish.{publish_to_exchange, publish_ex, keyed}
use mq_work.Host.Delivery.{contents_in, queue_contents}
use mq_work.Host.Routing.{routed_in, publish_to_exchange-Routed}
use mq_work.Host.Fanout.{matched_by, reached_same, reached, spread, spread_to, publish_ex-Spread}

Option-Binding-IsSet : IsSet (Option Binding)
Option-Binding-IsSet = hlevel

-- A binding that the loop comes to, and that passes.
abbrev Hit : {E : Type 0} → (Binding → Bool) → BindingMap → VirtualHost E → Type 0
Hit test m h =
    (q : Text) × (b : Binding) × (find q m ≡ some b)
    × (test b ≡ true)
    × (contains q h.queue_messages ≡ true)

module _ (P : Platform) where
  reached-Hit :
      (test : Binding → Bool) (m : BindingMap) (h : Host P)
      → DistinctKeys m
      → reached P test m h ≡ true
      → Hit test m h
  unfolding find
  reached-Hit test [] h d e = absurd (ground arith)
  reached-Hit test ((q, b) ∷ m) h d e = elim (Bool-cases (test b && contains q h.queue_messages)) [
    | inl now ↦ (q, b, ground (arith, eq_iff q q), ground (arith, now), ground (arith, now))
    | inr later ↦
        let (n, c, found, passed, there) = reached-Hit test m h d.1 (ground (arith, later, e)) in
        (n, c, ground (arith, eq_iff q n, found, d.0), passed, there)
  ]

  Hit-reached :
      (test : Binding → Bool) (m : BindingMap) (h : Host P) (q : Text) (b : Binding)
      → find q m ≡ some b
      → test b ≡ true
      → contains q h.queue_messages ≡ true
      → reached P test m h ≡ true
  unfolding find
  Hit-reached test [] h q b f t c = absurd (ground arith)
  Hit-reached test ((n, a) ∷ m) h q b f t c =
      ground (arith, eq_iff n q, f, t, c, Hit-reached test m h q b)

  reached_also :
      (test : Binding → Bool) (m m' : BindingMap) (h : Host P)
      → DistinctKeys m
      → unordered m ≡ unordered m'
      → reached P test m h ≡ true
      → reached P test m' h ≡ true
  reached_also test m m' h d u e =
      let (q, b, found, passed, there) = reached-Hit test m h d e in
      Hit-reached test m' h q b (sym (find-unordered Option-Binding-IsSet q m m' u) ∙ found) passed
        there

  reached-unordered :
      (test : Binding → Bool) (m m' : BindingMap) (h : Host P)
      → DistinctKeys m
      → DistinctKeys m'
      → unordered m ≡ unordered m'
      → reached P test m h ≡ reached P test m' h
  reached-unordered test m m' h d d' u =
      ground (arith, reached_also test m m' h d u, reached_also test m' m h d' (sym u))

  -- Two hosts with the same exchanges, stores and counter, on which the bindings of this exchange are
  -- the same up to their order.
  pub record SameButOrder (ex : Text) (h h' : Host P) : Type 0 where
    pub distinct : DistinctKeys (exchange_bindings P ex h)
    pub distinct' : DistinctKeys (exchange_bindings P ex h')
    pub same : unordered (exchange_bindings P ex h) ≡ unordered (exchange_bindings P ex h')
    pub exchanges : h'.exchange_mgr ≡ h.exchange_mgr
    pub stores : h'.queue_messages ≡ h.queue_messages
    pub seq : h'.seq ≡ h.seq

  module _ {name : Text} {h h' : Host P} (o : SameButOrder name h h') where
    same_exchange : select_exchange P name h' ≡ select_exchange P name h
    unfolding select_exchange
    same_exchange = ap (λ m. P.select_exchange m name) o.exchanges

    same_binding :
        (q : Text) → find q (exchange_bindings P name h) ≡ find q (exchange_bindings P name h')
    same_binding q = find-unordered Option-Binding-IsSet q _ _ o.same

    same_contents : (q : Text) → queue_contents q h' ≡ queue_contents q h
    unfolding queue_contents
    same_contents q = ap (λ m. contents_in (find q m)) o.stores

    same_store : (q : Text) → contains q h'.queue_messages ≡ contains q h.queue_messages
    same_store q = ap (contains q) o.stores

    routed_in-unordered :
        (p : BasicProperties) (x : Option P.Exchange)
        → routed_in P h name p x ≡ routed_in P h' name p x
    routed_in-unordered p none = refl
    routed_in-unordered p (some x) =
        ground (arith, same_binding p.routing_key, same_store p.routing_key)

    spread_to-unordered :
        (p : BasicProperties) (k : Text) (x : Option P.Exchange)
        → spread_to P h name p k x ≡ spread_to P h' name p k x
    spread_to-unordered p k none = refl
    spread_to-unordered p k (some x) = ground (arith, same_binding k, same_store k)

    spread-unordered :
        (p : BasicProperties) (x : Option P.Exchange) → spread P h name p x ≡ spread P h' name p x
    spread-unordered p none = refl
    spread-unordered p (some x) =
        let test = matched_by (P.exchange_type x) p.routing_key in
        reached-unordered test _ _ h o.distinct o.distinct' o.same
        ∙ sym (reached_same P test (exchange_bindings P name h') h h' same_store)

  -- Neither way to publish depends on the order in which the bindings of the exchange are visited: on
  -- two hosts that differ in this order, it reports the same, and every queue ends up with the
  -- same messages in the same order. For `publish_to_exchange` the properties have a routing key.
  pub publish_unordered :
      (name key : Text) (p : BasicProperties) (bp : Option BasicProperties) (body : Text)
      (h h' : Host P) (k : Text)
      → is_empty p.routing_key ≡ false
      → SameButOrder name h h'
      → let (a, _, r) = publish_to_exchange P name (some p) body h in
        let (a', _, r') = publish_to_exchange P name (some p) body h' in
        let (b, _, s) = publish_ex P name key bp body h in
        let (b', _, s') = publish_ex P name key bp body h' in
        (r ≡ r')
        × (queue_contents k a ≡ queue_contents k a')
        × (s ≡ s')
        × (queue_contents k b ≡ queue_contents k b')
  publish_unordered name key p bp body h h' k e o =
      let x = select_exchange P name h in
      let x' = select_exchange P name h' in
      let routed = publish_to_exchange-Routed P name p body h k e o.distinct in
      let routed' = publish_to_exchange-Routed P name p body h' k e o.distinct' in
      let spreads = publish_ex-Spread P name key bp body h k o.distinct in
      let spreads' = publish_ex-Spread P name key bp body h' k o.distinct' in
      let ex = same_exchange o in
      let held = same_contents o k in
      let r = routed_in-unordered o p x in
      let s = spread-unordered o (keyed key bp) x in
      let t = spread_to-unordered o (keyed key bp) k x in
      (
        ground (arith, routed, routed', r, ex),
        ground (arith, routed, routed', r, ex, held, o.seq),
        ground (arith, spreads, spreads', s, ex),
        ground (arith, spreads, spreads', t, ex, held),
      )
