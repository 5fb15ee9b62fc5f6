-- ===== src/Tests/ConsumerExamples.antt =====
-- Applications of the theorems on src/server/consumer.cpp.
use mq_work.Common.{◌≡◌, true, false, some, List, [], ◌∷◌, ◌++◌, map, arith, length, take, drop}
use mq_work.Common.Text.{Text, codes}
use mq_work.Consumers.{Consumer, QueueConsumer}
use mq_work.Consumers.RoundRobin.{rr_rounds, rr_rounds_full}
use mq_work.Consumers.Tags.{
  ConsumerCall, inits, creates, cancels, chooses, consumer_calls, AllConsumers,
  consumer_calls-AllConsumers,
}

abbrev consumer_named : Text → Consumer Text
consumer_named t = record { tag = t; qname = codes "w"; auto_ack = false; callback = codes "c1" }

abbrev three : QueueConsumer Text
three = record {
  qname = codes "w";
  rr_index = 2;
  consumers =
      consumer_named (codes "a") ∷ consumer_named (codes "b") ∷ consumer_named (codes "c") ∷ [];
}

rr_rounds_full_example :
    rr_rounds (length three.consumers) three
    ≡ (three, map some (drop three.rr_index three.consumers ++ take three.rr_index three.consumers))
rr_rounds_full_example = rr_rounds_full three (omega arith) (omega arith)

-- Two consumers with one tag, of which the second is refused, and a cancellation.
abbrev sample_consumer_calls : List (ConsumerCall Text)
sample_consumer_calls =
    inits (codes "w")
    ∷ creates (codes "a") (codes "w") true (codes "c1")
    ∷ creates (codes "a") (codes "w") false (codes "c2")
    ∷ chooses (codes "w")
    ∷ cancels (codes "a") (codes "w")
    ∷ []

consumer_calls-AllConsumers_example : AllConsumers (consumer_calls sample_consumer_calls [])
consumer_calls-AllConsumers_example = consumer_calls-AllConsumers sample_consumer_calls
