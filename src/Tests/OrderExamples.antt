-- ===== src/Tests/OrderExamples.antt =====
-- An application of the theorem on the order of the bindings in src/server/virtual_host.cpp.
use mathlib.Core.Quot
use mq_work.Common.{◌≡◌, refl, arith, none, some, [], ◌∷◌}
use mq_work.Common.Text.{◌==◌, eq_iff}
use mq_work.Common.Dict.{find}
use mq_work.Host.{Host, exchange_bindings}
use mq_work.Host.Publish.{publish_to_exchange, publish_ex}
use mq_work.Host.Delivery.{queue_contents}
use mq_work.Host.Order.{SameButOrder, publish_unordered}
use mq_work.Tests.SamplePlatform.{sample, work, dead, body, keyed_work}
use mq_work.Tests.SampleHost.{busy, dead_binding, work_binding}

-- The same host, which visits the two bindings in the other order.
abbrev turned : Host sample
turned = record busy {
  exchange_bindings = (dead, (work, work_binding) ∷ (dead, dead_binding) ∷ []) ∷ [];
}

busy-turned : SameButOrder sample dead busy turned
unfolding find exchange_bindings ◌==◌
busy-turned = record {
  distinct = (refl, (refl, tt));
  distinct' = (refl, (refl, tt));
  same = Quot.sound (λ k. ground (arith, eq_iff dead k, eq_iff work k));
  exchanges = refl;
  stores = refl;
  seq = refl;
}

publish_unordered_example :
    let (a, _, r) = publish_to_exchange sample dead (some keyed_work) body busy in
    let (a', _, r') = publish_to_exchange sample dead (some keyed_work) body turned in
    let (b, _, s) = publish_ex sample dead work none body busy in
    let (b', _, s') = publish_ex sample dead work none body turned in
    (r ≡ r')
    × (queue_contents work a ≡ queue_contents work a')
    × (s ≡ s')
    × (queue_contents work b ≡ queue_contents work b')
publish_unordered_example =
    publish_unordered sample dead work keyed_work none body busy turned work refl busy-turned
