-- ===== src/Consumers.antt =====
-- src/server/consumer.hpp and consumer.cpp: the consumers of one queue, and the choice among them
-- in turn. A callback is a parameter K: the program keeps it and hands it back. The mutex is held
-- over each call.
pub mod Manager
pub mod RoundRobin
pub mod Tags
use mq_work.Common.{
  ℕ, ◌+◌, ◌%◌, ◌^◌, Bool, true, false, Option, none, some, List, [], ◌∷◌, ◌++◌, if◌then◌else◌,
  is_empty, length, get_elem?,
}
use mq_work.Common.Text.{Text, ◌==◌}

pub record Consumer (K : Type 0) : Type 0 where
  pub tag : Text
  pub qname : Text
  pub auto_ack : Bool
  pub callback : K

pub record QueueConsumer (K : Type 0) : Type 0 where
  pub qname : Text
  pub rr_index : ℕ
  pub consumers : List (Consumer K)

module _ {K : Type 0} where
  -- The constructor.
  unfoldable pub queue_consumer : Text → QueueConsumer K
  queue_consumer qname = record { qname = qname; rr_index = 0; consumers = [] }

  -- The loops that look for a tag.
  unfoldable pub has_tag : Text → List (Consumer K) → Bool
  has_tag ctag [] = false
  has_tag ctag (c ∷ cs) = if c.tag == ctag then true else has_tag ctag cs

  unfoldable pub create :
      Text → Text → Bool → K → QueueConsumer K → QueueConsumer K × Option (Consumer K)
  create ctag queue_name ack_flag cb qc =
      let new_consumer : Consumer K = record {
        tag = ctag;
        qname = queue_name;
        auto_ack = ack_flag;
        callback = cb;
      } in
      if has_tag ctag qc.consumers
      then (qc, none)
      else (record qc { consumers = qc.consumers ++ new_consumer ∷ [] }, some new_consumer)

  -- The first consumer with the tag goes.
  unfoldable pub erase_tag : Text → List (Consumer K) → List (Consumer K)
  erase_tag ctag [] = []
  erase_tag ctag (c ∷ cs) = let rest = erase_tag ctag cs in if c.tag == ctag then cs else c ∷ rest

  unfoldable pub remove : Text → QueueConsumer K → QueueConsumer K
  remove ctag qc = record qc { consumers = erase_tag ctag qc.consumers }

  unfoldable pub rr_choose : QueueConsumer K → QueueConsumer K × Option (Consumer K)
  rr_choose qc =
      let size = length qc.consumers in
      if is_empty qc.consumers then (qc, none) else (
        record qc { rr_index = (qc.rr_index + 1) % 2 ^ 64 % size },
        get_elem? qc.consumers (qc.rr_index % size),
      )

  unfoldable pub empty : QueueConsumer K → Bool
  empty qc = is_empty qc.consumers

  unfoldable pub exists : Text → QueueConsumer K → Bool
  exists ctag qc = has_tag ctag qc.consumers

  unfoldable pub clear : QueueConsumer K → QueueConsumer K
  clear qc = record qc { consumers = []; rr_index = 0 }
