-- ===== src/Tests/SamplePlatform.antt =====
-- A concrete exchange manager, header matching and disk for what the broker calls, and the hosts
-- that the examples start from.
use mq_work.Common.{refl, Bool, true, false, none, some, List, [], ◌∷◌, arith, if◌then◌else◌}
use mq_work.Common.Text.{Text, codes, eq_iff}
use mq_work.Common.Dict.{Dict, find, put, erase, contains, find-put, find-erase}
use mq_work.Proto.{ExchangeType, direct, Args, BasicProperties, default_properties}
use mq_work.Queue.{DeadLetterConfig}
use mq_work.Platform.{Platform, HasExchangeLaws}
use mq_work.Host.History.{
  HostCall, declares_exchange, declares_queue, declares_queue_with_dlq, binds, publishes,
}
use mq_work.Tests.SampleCodec.{sample_codec}

abbrev pub declare_sample :
    Dict ExchangeType → Text → ExchangeType → Bool → Bool → Args → Dict ExchangeType × Bool
declare_sample m n t d a args = (if contains n m then m else put n t m, true)

abbrev pub sample : Platform
sample = record {
  Exchanges = Dict ExchangeType;
  Exchange = ExchangeType;
  exchange_type = λ t. t;
  new_exchanges = [];
  declare_exchange = declare_sample;
  delete_exchange = λ m n. erase n m;
  select_exchange = λ m n. find n m;
  exists_exchange = λ m n. contains n m;
  match_headers = λ a b. true;
  codec = sample_codec;
  can_open = λ n. true;
}

pub sample-HasExchangeLaws : HasExchangeLaws sample
sample-HasExchangeLaws = record {
  exists-select = λ m n. refl;
  declare_keeps = λ m n k t d a args h. ground (arith, find-put n k t m);
  declare_there = λ m n t d a args h. ground (arith, find-put n n t m, eq_iff n n);
  exists-delete = λ m n k. ground (arith, find-erase n k m);
}

abbrev pub work : Text
work = codes "w"

abbrev pub dead : Text
dead = codes "d"

abbrev pub body : Text
body = codes "x"

abbrev pub keyed_work : BasicProperties
keyed_work = record default_properties { routing_key = work; id = codes "7" }

abbrev pub to_dead : DeadLetterConfig
to_dead = record { exchange_name = dead; routing_key = dead; max_retries = 3 }

-- A work queue whose dead letters go to another queue, with two messages waiting.
abbrev pub sample_calls : List HostCall
sample_calls =
    declares_exchange dead direct true false []
    ∷ declares_queue dead false false false []
    ∷ declares_queue_with_dlq work false false false [] to_dead
    ∷ binds dead dead dead
    ∷ binds [] work work
    ∷ publishes work (some keyed_work) body
    ∷ publishes work none body
    ∷ []
