-- ===== src/Tests/RedeclareExamples.antt =====
-- An application of the theorem on a queue that is deleted and declared again.
use mq_work.Common.{◌≡◌, refl, true, false, some, [], ◌∷◌}
use mq_work.Common.Text.{◌==◌}
use mq_work.Common.Dict.{find}
use mq_work.Storage.{QueueMessage}
use mq_work.Host.{Host, declare_queue, delete_queue}
use mq_work.Host.Redeclare.{declare_queue-delete_queue}
use mq_work.Tests.SampleCodec.{sample_codec-IsCodec}
use mq_work.Tests.SamplePlatform.{sample, work}
use mq_work.Tests.SampleHost.{busy}
use mq_work.Tests.StorageExamples.{logged, one_payload, logged-IsLogged}

-- The store of the queue has one durable message.
abbrev durable_host : Host sample
durable_host = record busy { queue_messages = (work, logged) ∷ [] }

store-found : find work durable_host.queue_messages ≡ some logged
unfolding find ◌==◌
store-found = refl

declare_queue-delete_queue_example :
    (q' : QueueMessage) × ((find work
          (declare_queue sample work true false false []
            (delete_queue sample work durable_host)).0.queue_messages
        ≡ some q')
      × (q'.msgs ≡ logged.msgs))
declare_queue-delete_queue_example =
    declare_queue-delete_queue sample sample_codec-IsCodec work false false [] durable_host logged
      (one_payload ∷ []) store-found logged-IsLogged refl
