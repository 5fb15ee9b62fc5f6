-- ===== src/Consumers/Manager.antt =====
-- `consumer_manager` of src/server/consumer.cpp.
use mq_work.Common.{Bool, Option, none, some, if◌then◌else◌}
use mq_work.Common.Text.{Text}
use mq_work.Common.Dict.{Dict, find, put, erase, contains}
use mq_work.Consumers.{Consumer, QueueConsumer, queue_consumer}
use mq_work.Consumers

abbrev pub ConsumerManager : Type 0 → Type 0
ConsumerManager K = Dict (QueueConsumer K)

module _ {K : Type 0} where
  unfoldable pub init_queue_consumer : Text → ConsumerManager K → ConsumerManager K
  init_queue_consumer qname m = if contains qname m then m else put qname (queue_consumer qname) m

  unfoldable pub destroy_queue_consumer : Text → ConsumerManager K → ConsumerManager K
  destroy_queue_consumer qname m = erase qname m

  unfoldable pub create :
      Text → Text → Bool → K → ConsumerManager K → ConsumerManager K × Option (Consumer K)
  create ctag queue_name ack_flag cb m = elim (find queue_name m) [
    | none ↦ (m, none)
    | some qc ↦
        let (qc', c) = Consumers.create ctag queue_name ack_flag cb qc in (put queue_name qc' m, c)
  ]

  unfoldable pub remove : Text → Text → ConsumerManager K → ConsumerManager K
  remove ctag queue_name m = elim (find queue_name m) [
    | none ↦ m
    | some qc ↦ put queue_name (Consumers.remove ctag qc) m
  ]

  unfoldable pub choose : Text → ConsumerManager K → ConsumerManager K × Option (Consumer K)
  choose queue_name m = elim (find queue_name m) [
    | none ↦ (m, none)
    | some qc ↦ let (qc', c) = Consumers.rr_choose qc in (put queue_name qc' m, c)
  ]
