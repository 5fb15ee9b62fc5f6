-- ===== src/Tests/StorageExamples.antt =====
-- Applications of the theorems on src/server/queue_message.hpp.
use mq_work.Common.{
  ◌≡◌, refl, ◌^◌, ◌<◌, true, false, none, some, List, [], ◌∷◌, ◌++◌, arith, length,
}
use mq_work.Common.Text.{Text, codes, ◌==◌}
use mq_work.Proto.{BasicProperties, default_properties, MessagePayload}
use mq_work.Storage.{
  frame, write_persistent, QueueMessage, queue_message, insert, remove, recovery, get_stats,
  compact, properties_of,
}
use mq_work.Storage.Fifo.{contents_of}
use mq_work.Storage.Stream.{splice, seek_end, tell, write, opened}
use mq_work.Storage.Framing.{u32_bytes}
use mq_work.Storage.Log.{Fits, frames, recovered}
use mq_work.Storage.Recovery.{IsLogged, HoldsLog, recovery_blocks_writes}
use mq_work.Storage.Durable.{written_payload}
use mq_work.Storage.Tombstone.{tombstone, chosen, remove-IsLogged}
use mq_work.Storage.Restart.{
  StorageCall, inserts, removes, storage_call, storage_calls, WithinSizes, restart_restores,
}
use mq_work.Storage.Compaction.{payloads_of, compact-IsLogged}
use mq_work.Storage.Statistics.{count_invalid, get_stats_lem}
use mq_work.Tests.SampleCodec.{sample_codec, sample_codec-IsCodec, sample_serialize}

abbrev seven : Text
seven = codes "7"

abbrev first_body : Text
first_body = codes "ab"

abbrev props : BasicProperties
props = record default_properties { id = seven; headers = (codes "h", codes "v") ∷ [] }

abbrev pub one_payload : MessagePayload
one_payload = written_payload sample_codec (some props) first_body

-- One message that stands in the file.
abbrev pub logged : QueueMessage
logged = record {
  msgs = recovered sample_codec 0 (one_payload ∷ []);
  file = opened (frames sample_codec (one_payload ∷ []));
}

one_payload-Fits : Fits sample_codec one_payload
unfolding sample_serialize
one_payload-Fits = omega arith

pub logged-IsLogged : IsLogged sample_codec (one_payload ∷ []) logged
logged-IsLogged = record {
  open_file = refl;
  not_failed = refl;
  file_log = refl;
  live = refl;
  fit = (one_payload-Fits, tt);
}

logged-HoldsLog : HoldsLog sample_codec (one_payload ∷ []) logged
logged-HoldsLog = record {
  open_file = refl;
  not_failed = refl;
  file_log = refl;
  fit = (one_payload-Fits, tt);
}

logged-size : length logged.file.contents < 2 ^ 64
unfolding sample_serialize frames frame u32_bytes
logged-size = omega arith

-- Two durable messages, of which the first is acknowledged.
abbrev calls : List StorageCall
calls = inserts (some props) first_body ∷ inserts none (codes "c") ∷ removes seven ∷ []

calls-WithinSizes : WithinSizes sample_codec calls (queue_message true none)
unfolding storage_call sample_serialize insert write_persistent frame u32_bytes queue_message
    seek_end tell write splice
calls-WithinSizes = (omega arith, (omega arith, (omega arith, tt)))

restart_restores_example :
    let q = storage_calls sample_codec calls (queue_message true none) in
    (recovery sample_codec (queue_message true (some q.file.contents))).msgs ≡ q.msgs
restart_restores_example =
    restart_restores sample_codec sample_codec-IsCodec calls calls-WithinSizes

recovery_blocks_writes_example :
    let r = recovery sample_codec logged in
    let (q', ok) = insert sample_codec r none first_body true in
    (r ≡ record {
      msgs = logged.msgs ++ recovered sample_codec 0 (one_payload ∷ []);
      file = record logged.file { pos = length logged.file.contents; failed = true };
    })
    × (ok ≡ true)
    × (contents_of q'.msgs
        ≡ contents_of r.msgs ++ record { properties = properties_of none; body = first_body } ∷ [])
    × (q'.file.contents ≡ logged.file.contents)
recovery_blocks_writes_example =
    recovery_blocks_writes sample_codec sample_codec-IsCodec logged (one_payload ∷ []) none
      first_body logged-HoldsLog

remove-IsLogged_example :
    IsLogged sample_codec
      (tombstone (chosen sample_codec seven) (one_payload ∷ []))
      (remove sample_codec seven logged)
remove-IsLogged_example =
    remove-IsLogged sample_codec sample_codec-IsCodec logged (one_payload ∷ []) seven
      logged-IsLogged logged-size

-- The messages of a queue whose stream has failed, as after `recovery`.
abbrev failed_queue : QueueMessage
failed_queue = record {
  msgs = recovered sample_codec 0 (one_payload ∷ []);
  file = record { contents = []; pos = 0; is_open = true; failed = true };
}

compact-IsLogged_example :
    IsLogged sample_codec (payloads_of failed_queue.msgs) (compact sample_codec true failed_queue)
unfolding recovered ◌==◌
compact-IsLogged_example =
    compact-IsLogged sample_codec failed_queue refl (refl, tt) (one_payload-Fits, tt)

get_stats_lem_example :
    ((get_stats sample_codec logged).0 ≡ record {
      depth = length logged.msgs;
      file_size = length logged.file.contents;
      invalid = count_invalid (one_payload ∷ []);
      total = 1;
    })
    × ((get_stats sample_codec logged).1.file.failed ≡ false)
    × ((get_stats sample_codec logged).1.file.contents ≡ logged.file.contents)
    × ((get_stats sample_codec logged).1.msgs ≡ logged.msgs)
get_stats_lem_example =
    get_stats_lem sample_codec sample_codec-IsCodec logged (one_payload ∷ []) refl refl
      (one_payload-Fits, tt)
