-- ===== src/Storage/Restart.antt =====
-- A history of durable inserts and removes of src/server/queue_message.hpp, then a restart.
use mq_work.Common.{◌^◌, ◌<◌, ◌≡◌, refl, true, none, some, List, [], ◌∷◌, Option, length}
use mq_work.Common.Text.{Text}
use mq_work.Proto.{BasicProperties, MessagePayload}
use mq_work.Storage.Framing.{Codec, IsCodec}
use mq_work.Storage.Log.{Fits, frames, recovered}
use mq_work.Storage.Recovery.{IsLogged, recovery_restores}
use mq_work.Storage.Durable.{written_payload, insert-IsLogged}
use mq_work.Storage.Tombstone.{remove-IsLogged}
use mq_work.Storage.{QueueMessage, queue_message, insert, remove, recovery}

pub data StorageCall : Type 0 where
  inserts : Option BasicProperties → Text → StorageCall
  removes : Text → StorageCall

module _ (codec : Codec) where
  unfoldable pub storage_call : StorageCall → QueueMessage → QueueMessage
  storage_call (inserts bp body) q = (insert codec q bp body true).0
  storage_call (removes id) q = remove codec id q

  unfoldable pub storage_calls : List StorageCall → QueueMessage → QueueMessage
  unfolding storage_call
  storage_calls [] q = q
  storage_calls (a ∷ calls) q = storage_calls calls (storage_call a q)

  -- The payloads have less than 2^32 bytes, and the file less than 2^64.
  abbrev pub WithinSizes : List StorageCall → QueueMessage → Type 0
  WithinSizes [] q = Unit {0}
  WithinSizes (inserts bp body ∷ calls) q =
      Fits codec (written_payload codec bp body)
      × WithinSizes calls (storage_call (inserts bp body) q)
  WithinSizes (removes id ∷ calls) q =
      (length q.file.contents < 2 ^ 64) × WithinSizes calls (storage_call (removes id) q)

  module _ (c : IsCodec codec) where
    storage_calls-IsLogged :
        (calls : List StorageCall) (q : QueueMessage) (log : List MessagePayload)
        → IsLogged codec log q
        → WithinSizes calls q
        → (log' : List MessagePayload) × IsLogged codec log' (storage_calls calls q)
    unfolding storage_call storage_calls
    storage_calls-IsLogged [] q log h w = (log, h)
    storage_calls-IsLogged (inserts bp body ∷ calls) q log h w =
        storage_calls-IsLogged calls _ _ (insert-IsLogged codec q log bp body h w.0) w.1
    storage_calls-IsLogged (removes id ∷ calls) q log h w =
        storage_calls-IsLogged calls _ _ (remove-IsLogged codec c q log id h w.0) w.1

    new_file-IsLogged : IsLogged codec [] (queue_message true none)
    unfolding queue_message frames
    new_file-IsLogged = record {
      open_file = refl;
      not_failed = refl;
      file_log = refl;
      live = unfold recovered in refl;
      fit = tt;
    }

    -- After any history of durable inserts and removes on a new file, a new object on that file
    -- recovers the messages that the old one held, in order and with their places. The payloads
    -- have less than 2^32 bytes and the file less than 2^64.
    pub restart_restores :
        (calls : List StorageCall)
        → WithinSizes calls (queue_message true none)
        → let q = storage_calls calls (queue_message true none) in
          (recovery codec (queue_message true (some q.file.contents))).msgs ≡ q.msgs
    restart_restores calls w =
        let (log, h) =
          storage_calls-IsLogged calls (queue_message true none) [] new_file-IsLogged w in
        recovery_restores codec c (storage_calls calls (queue_message true none)) log h
