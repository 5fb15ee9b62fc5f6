-- ===== src/Tests/DealtExamples.antt =====
-- Applications of the theorems on consume tasks in a row, of src/server/channel.cpp.
use mq_work.Common.{
  ℕ, ◌^◌, ◌≡◌, refl, arith, true, false, some, List, [], ◌∷◌, ◌++◌, length, take, drop,
}
use mq_work.Common.Text.{codes, ◌==◌, listed}
use mq_work.Common.Dict.{find}
use mq_work.Proto.{default_properties}
use mq_work.Storage.Fifo.{contents_of}
use mq_work.Host.Delivery.{queue_contents}
use mq_work.Host.Acknowledged.{Letter, publish_all}
use mq_work.Consumers.{Consumer, QueueConsumer}
use mq_work.Channel.{ChannelRef, World}
use mq_work.Channel.Dealt.{dealt, consumes, consumes-dealt}
use mq_work.Tests.SamplePlatform.{sample, dead}
use mq_work.Tests.SampleHost.{busy}

abbrev letter : ℕ → Letter
letter n = (default_properties, n ∷ [])

abbrev eager : Consumer ChannelRef
eager = record {
  tag = codes "eager";
  qname = dead;
  auto_ack = true;
  callback = record { conn = codes "tcp"; cid = codes "c1" };
}

abbrev careful : Consumer ChannelRef
careful = record {
  tag = codes "careful";
  qname = dead;
  auto_ack = false;
  callback = record { conn = codes "tls"; cid = codes "c1" };
}

-- It is the second consumer's turn.
abbrev pair : QueueConsumer ChannelRef
pair = record { qname = dead; rr_index = 1; consumers = eager ∷ careful ∷ [] }

abbrev waiting : World sample
waiting = record {
  host = publish_all sample dead (letter 1 ∷ letter 2 ∷ []) busy;
  consumers = (dead, pair) ∷ [];
  sent = [];
  tasks = [];
}

consumes-dealt_example :
    let w = consumes sample 2 dead waiting in
    (w.sent ≡ dealt (careful ∷ eager ∷ []) (queue_contents dead waiting.host))
    × (queue_contents dead w.host ≡ [])
    × (find dead w.consumers ≡ some pair)
unfolding find ◌==◌ queue_contents contents_of listed publish_all mq_work.Common.Dict.put
    mq_work.Host.Publish.basic_publish mq_work.Host.Publish.publish_to_store
    mq_work.Host.Publish.enqueue mq_work.Host.Publish.with_id mq_work.Host.Publish.accept_key
    mq_work.Host.generate_id mq_work.Host.to_string mq_work.Host.digits mq_work.Storage.insert
    mq_work.Queue.Manager.select_queue mq_work.Queue.msg_queue
consumes-dealt_example =
    consumes-dealt sample dead waiting pair refl (omega arith) (omega arith) refl refl
      (refl, (refl, tt))
