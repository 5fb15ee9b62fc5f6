-- ===== src/Queue/Manager.antt =====
-- `msg_queue_manager` of src/common/queue.cpp. The mapper stores nothing: `insert` succeeds, `remove`
-- does nothing and `all` is empty, so it has no state here.
use mq_work.Common.{Bool, true, false, not, ◌&&◌, Option, none, some, [], if◌then◌else◌}
use mq_work.Common.Text.{Text}
use mq_work.Common.Dict.{Dict, find, put, erase, contains}
use mq_work.Proto.{Args}
use mq_work.Queue.{MsgQueue, msg_queue, DeadLetterConfig, set_dead_letter_config}

-- `queue_map`
abbrev pub QueueMap : Type 0
QueueMap = Dict MsgQueue

-- `msg_queue_mapper`
unfoldable pub mapper_insert : MsgQueue → Bool
mapper_insert q = true

unfoldable pub mapper_all : QueueMap
mapper_all = []

-- The constructor loads what the mapper has.
unfoldable pub queue_manager : QueueMap
unfolding mapper_all
queue_manager = mapper_all

unfoldable pub declare_queue : QueueMap → Text → Bool → Bool → Bool → Args → QueueMap × Bool
unfolding mapper_insert msg_queue
declare_queue queues qname qdurable qexclusive qauto_delete qargs =
    let q = msg_queue qname qdurable qexclusive qauto_delete qargs in
    if contains qname queues
    then (queues, true)
    else if qdurable && not (mapper_insert q)
    then (queues, false)
    else (put qname q queues, true)

unfoldable pub declare_queue_with_dlq :
    QueueMap → Text → Bool → Bool → Bool → Args → DeadLetterConfig → QueueMap × Bool
unfolding mapper_insert msg_queue set_dead_letter_config
declare_queue_with_dlq queues qname qdurable qexclusive qauto_delete qargs dlq_config =
    let q =
      set_dead_letter_config dlq_config (msg_queue qname qdurable qexclusive qauto_delete qargs) in
    if contains qname queues
    then (queues, true)
    else if qdurable && not (mapper_insert q)
    then (queues, false)
    else (put qname q queues, true)

unfoldable pub delete_queue : QueueMap → Text → QueueMap
delete_queue queues name = if contains name queues then erase name queues else queues

unfoldable pub select_queue : QueueMap → Text → Option MsgQueue
select_queue queues name = find name queues

unfoldable pub exists_queue : QueueMap → Text → Bool
exists_queue queues name = contains name queues

pub record QueueStatus : Type 0 where
  pub is_there : Bool
  pub durable : Bool
  pub exclusive : Bool
  pub auto_delete : Bool
  pub args : Args

abbrev status_of : Option MsgQueue → QueueStatus
status_of none = record {
  is_there = false;
  durable = false;
  exclusive = false;
  auto_delete = false;
  args = [];
}
status_of (some q) = record {
  is_there = true;
  durable = q.durable;
  exclusive = q.exclusive;
  auto_delete = q.auto_delete;
  args = q.args;
}

unfoldable pub get_queue_status : QueueMap → Text → QueueStatus
get_queue_status queues name = status_of (find name queues)
