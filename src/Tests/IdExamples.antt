-- ===== src/Tests/IdExamples.antt =====
-- Applications of the theorems on the ids of messages in src/server/virtual_host.cpp.
use mq_work.Common.{ℕ, ◌+◌, ◌%◌, ◌^◌, ◌≡◌, refl, arith, [], ◌∷◌, ◌++◌}
use mq_work.Common.Text.{◌==◌}
use mq_work.Common.Dict.{find}
use mq_work.Proto.{default_properties}
use mq_work.Storage.Fifo.{contents_of}
use mq_work.Host.Consume.{basic_ack}
use mq_work.Host.Delivery.{queue_contents, next_id}
use mq_work.Host.Ids.{AreDistinct, generated, generated-AreDistinct}
use mq_work.Host.Acknowledged.{Letter, stored, publish_all, basic_ack-publish_all}
use mq_work.Tests.SamplePlatform.{sample, dead}
use mq_work.Tests.SampleHost.{busy}

generated-AreDistinct_example : AreDistinct (generated sample 1000 busy)
generated-AreDistinct_example = generated-AreDistinct sample 1000 busy (omega arith) (omega arith)

abbrev letter : ℕ → Letter
letter n = (default_properties, n ∷ [])

basic_ack-publish_all_example :
    queue_contents dead (
      basic_ack sample dead
        (next_id 4)
        (publish_all sample dead (letter 1 ∷ letter 2 ∷ letter 3 ∷ []) busy))
    ≡ stored dead 3 (letter 1 ∷ []) ++ stored dead ((4 + 1) % 2 ^ 64) (letter 3 ∷ [])
unfolding find ◌==◌ queue_contents contents_of
basic_ack-publish_all_example =
    basic_ack-publish_all sample dead (letter 1 ∷ []) (letter 3 ∷ []) (letter 2) busy
      ((refl, refl, (refl, refl, (refl, refl, tt)))) refl refl (omega arith) (omega arith)
