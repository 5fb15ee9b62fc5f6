-- ===== src/Tests/SampleHost.antt =====
-- A virtual host with a message waiting, whose dead letters go to another queue.
use mq_work.Common.{true, false, List, [], ◌∷◌}
use mq_work.Proto.{Message, direct}
use mq_work.Queue.{MsgQueue, msg_queue, set_dead_letter_config}
use mq_work.Storage.{QueueMessage}
use mq_work.Host.{Host, Binding}
use mq_work.Tests.SamplePlatform.{sample, work, dead, body, keyed_work, to_dead}

-- A message of the work queue, which is in memory only.
abbrev pub waiting : Message
waiting = record {
  payload = record { properties = keyed_work; body = body; valid = [] };
  offset = 0;
  length = 0;
}

abbrev pub store_with : List Message → QueueMessage
store_with ms = record {
  msgs = ms;
  file = record { contents = []; pos = 0; is_open = true; failed = false };
}

abbrev pub work_queue : MsgQueue
work_queue = set_dead_letter_config to_dead (msg_queue work false false false [])

abbrev pub dead_queue : MsgQueue
dead_queue = msg_queue dead false false false []

abbrev pub dead_binding : Binding
dead_binding = record {
  exchange_name = dead;
  queue_name = dead;
  binding_key = dead;
  binding_args = [];
}

abbrev pub work_binding : Binding
work_binding = record {
  exchange_name = dead;
  queue_name = work;
  binding_key = work;
  binding_args = [];
}

-- A message waits in the work queue, whose dead letters go to the other.
abbrev pub busy : Host sample
busy = record {
  exchange_mgr = (dead, direct) ∷ [];
  queue_mgr = (work, work_queue) ∷ (dead, dead_queue) ∷ [];
  exchange_bindings = (dead, (dead, dead_binding) ∷ (work, work_binding) ∷ []) ∷ [];
  queue_messages = (work, store_with (waiting ∷ [])) ∷ (dead, store_with []) ∷ [];
  disk = [];
  seq = 3;
}
