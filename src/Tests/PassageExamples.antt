-- ===== src/Tests/PassageExamples.antt =====
-- An application of the theorem on the way of a message from a producer to a consumer.
use mq_work.Common.{◌≡◌, refl, true, some, [], ◌∷◌, ◌++◌}
use mq_work.Common.Text.{codes, ◌==◌}
use mq_work.Common.Dict.{find, DistinctKeys}
use mq_work.Host.{exchange_bindings, select_exchange}
use mq_work.Host.Delivery.{queue_contents, stamped}
use mq_work.Host.Routing.{routed_in}
use mq_work.Host.Publish.{should_publish}
use mq_work.Route.{match_route}
use mq_work.Storage.Fifo.{contents_of}
use mq_work.Consumers.{rr_choose}
use mq_work.Consumers.Manager.{choose}
use mq_work.Channel.{World, common_response, consume_response, basic_publish, consume}
use mq_work.Channel.Passage.{consume-basic_publish}
use mq_work.Tests.SamplePlatform.{sample, work, dead, body, keyed_work}
use mq_work.Tests.SampleHost.{busy, store_with}
use mq_work.Tests.ChannelExamples.{ready, eager, channel}

-- The queue of the consumer is empty.
abbrev quiet : World sample
quiet = record ready { host = record busy { queue_messages = (work, store_with []) ∷ [] } }

quiet-DistinctKeys : DistinctKeys (exchange_bindings sample dead quiet.host)
unfolding exchange_bindings find ◌==◌
quiet-DistinctKeys = (refl, (refl, tt))

quiet-routed :
    routed_in sample quiet.host dead keyed_work (select_exchange sample dead quiet.host) ≡ true
unfolding exchange_bindings find ◌==◌ select_exchange should_publish match_route
quiet-routed = refl

quiet-empty : queue_contents work quiet.host ≡ []
unfolding queue_contents find ◌==◌ contents_of
quiet-empty = refl

quiet-turn : (choose work quiet.consumers).1 ≡ some eager
unfolding choose find ◌==◌ rr_choose
quiet-turn = refl

consume-basic_publish_example :
    let w' =
      consume sample work
        (basic_publish sample channel (codes "r") (codes "c1") dead (some keyed_work) body quiet) in
    let id = (stamped work (some keyed_work) quiet.host.seq).id in
    (w'.sent
      ≡ quiet.sent
        ++ record { conn = codes "tcp"; reply = common_response (codes "r") (codes "c1") true }
          ∷ record {
            conn = codes "tcp";
            reply = consume_response (codes "c1") (codes "t") body id keyed_work.delivery_mode work;
          }
          ∷ [])
    × (queue_contents work w'.host ≡ [])
consume-basic_publish_example =
    consume-basic_publish sample channel (codes "r") (codes "c1") dead body keyed_work quiet eager
      refl quiet-DistinctKeys quiet-routed quiet-empty quiet-turn
