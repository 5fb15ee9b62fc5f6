-- ===== src/Queue.antt =====
-- src/common/queue.hpp and src/common/queue.cpp: the metadata of queues and their manager.
pub mod ArgsText
pub mod Manager
use mq_work.Common.{ℕ, Bool, false, not, []}
use mq_work.Common.{is_empty}
use mq_work.Common.Text.{Text}
use mq_work.Proto.{Args}

pub record DeadLetterConfig : Type 0 where
  pub exchange_name : Text
  pub routing_key : Text
  pub max_retries : ℕ

-- `dead_letter_config()`
abbrev pub no_dead_letter : DeadLetterConfig
no_dead_letter = record { exchange_name = []; routing_key = []; max_retries = 3 }

pub record MsgQueue : Type 0 where
  pub name : Text
  pub durable : Bool
  pub exclusive : Bool
  pub auto_delete : Bool
  pub args : Args
  pub dlq_config : DeadLetterConfig

-- The constructor.
unfoldable pub msg_queue : Text → Bool → Bool → Bool → Args → MsgQueue
msg_queue qname qdurable qexclusive qauto_delete qargs = record {
  name = qname;
  durable = qdurable;
  exclusive = qexclusive;
  auto_delete = qauto_delete;
  args = qargs;
  dlq_config = no_dead_letter;
}

unfoldable pub has_dead_letter_config : MsgQueue → Bool
has_dead_letter_config q = not (is_empty q.dlq_config.exchange_name)

unfoldable pub set_dead_letter_config : DeadLetterConfig → MsgQueue → MsgQueue
set_dead_letter_config config q = record q { dlq_config = config }
