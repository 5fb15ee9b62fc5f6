-- ===== src/Tests/ChannelExamples.antt =====
-- Applications of the theorems on src/server/channel.cpp.
use mq_work.Common.{◌≡◌, true, some, [], ◌∷◌, ◌++◌, if◌then◌else◌}
use mq_work.Common.Text.{codes, ◌==◌}
use mq_work.Host.Delivery.{queue_contents}
use mq_work.Consumers.{Consumer}
use mq_work.Consumers.Manager.{choose}
use mq_work.Channel.{ChannelRef, Channel, World, consume}
use mq_work.Channel.Delivery.{left_after, sent_to, consume_lem}
use mq_work.Tests.SamplePlatform.{sample, work}
use mq_work.Tests.SampleHost.{busy}

abbrev pub eager : Consumer ChannelRef
eager = record {
  tag = codes "t";
  qname = work;
  auto_ack = true;
  callback = record { conn = codes "tcp"; cid = codes "c1" };
}

abbrev pub channel : Channel
channel = record { conn = codes "tcp"; cid = codes "c1"; consumer = some eager }

-- A message waits, and so does a consumer.
abbrev pub ready : World sample
ready = record {
  host = busy;
  consumers = (work, record { qname = work; rr_index = 0; consumers = eager ∷ [] }) ∷ [];
  sent = [];
  tasks = work ∷ [];
}

consume_lem_example :
    let chosen = (choose work ready.consumers).1 in
    (queue_contents work (consume sample work ready).host ≡ (
      if work == work
      then left_after chosen (queue_contents work ready.host)
      else queue_contents work ready.host))
    × ((consume sample work ready).sent
        ≡ ready.sent ++ sent_to chosen (queue_contents work ready.host))
consume_lem_example = consume_lem sample work ready work
