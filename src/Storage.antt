-- ===== src/Storage.antt =====
-- src/server/queue_message.hpp: the messages of one queue, and the file that holds the durable ones.
-- Serializing is a parameter (Storage/Framing). An operation runs as a whole here: what writes or reads
-- the file holds the mutex, `insert`, `remove` and `front` do not.
pub mod Stream
pub mod Framing
pub mod Log
pub mod Recovery
pub mod Durable
pub mod Tombstone
pub mod Restart
pub mod Compaction
pub mod Statistics
pub mod Fifo
pub mod Refinement
use Stream.{FileStream, opened, clear, seek, seek_end, tell, write, read}
use Framing.{Codec, u32_bytes, u32_of_bytes, size32, valid_mark, invalid_mark}
use mq_work.Common.{
  take, ℕ, zero, suc, ◌+◌, ◌%◌, ◌^◌, Bool, true, false, not, Option, none, some, List, [], ◌∷◌,
  ◌++◌, eqb, is_empty, if◌then◌else◌, length,
}
use mq_work.Common.Text.{Text, ◌==◌}
use mq_work.Proto.{BasicProperties, default_properties, MessagePayload, Message}

pub record QueueMessage : Type 0 where
  pub msgs : List Message
  pub file : FileStream

-- The bytes that a file on disk holds, if it is there.
abbrev pub bytes_of : Option (List ℕ) → List ℕ
bytes_of none = []
bytes_of (some bytes) = bytes

-- The constructor: a file that is not there is made first. `can_open` says whether the file system
-- lets the file be opened.
unfoldable pub queue_message : Bool → Option (List ℕ) → QueueMessage
queue_message can_open on_disk = record {
  msgs = [];
  file = record { contents = bytes_of on_disk; pos = 0; is_open = can_open; failed = not can_open };
}

unfoldable pub front : QueueMessage → Option Message
front q = elim q.msgs [ [] ↦ none | m ∷ ms ↦ some m ]

unfoldable pub getable_count : QueueMessage → ℕ
getable_count q = length q.msgs

unfoldable pub get_all_messages : QueueMessage → List Message
get_all_messages q = q.msgs

-- What a pointer to properties, which may be null, leaves in the message.
abbrev pub properties_of : Option BasicProperties → BasicProperties
properties_of none = default_properties
properties_of (some bp) = bp

abbrev pub with_valid : Text → MessagePayload → MessagePayload
with_valid v p = record p { valid = v }

-- `payload().properties().id()`
abbrev pub message_id_of : Message → Text
message_id_of m = m.payload.properties.id

pub record Stats : Type 0 where
  pub depth : ℕ
  pub file_size : ℕ
  pub invalid : ℕ
  pub total : ℕ

module _ (codec : Codec) where
  -- The record of a payload in the file.
  unfoldable pub frame : MessagePayload → List ℕ
  frame p = let bytes = codec.serialize p in u32_bytes (size32 bytes) ++ bytes

  -- Returns the message with its place in the file, the stream and the result.
  unfoldable pub write_persistent : Message → FileStream → Message × FileStream × Bool
  unfolding frame
  write_persistent m s =
      let payload = with_valid valid_mark m.payload in
      let s1 = seek_end s in
      let s2 = write (frame payload) s1 in
      let m' : Message = record {
        payload = payload;
        offset = tell s1;
        length = 4 + size32 (codec.serialize payload);
      } in
      if s.is_open then (m', s2, not s2.failed) else (m, s, false)

  unfoldable pub insert : QueueMessage → Option BasicProperties → Text → Bool → QueueMessage × Bool
  insert q bp body durable =
      let m : Message = record {
        payload = record { properties = properties_of bp; body = body; valid = [] };
        offset = 0;
        length = 0;
      } in
      let (m', s, _) = write_persistent m q.file in
      if durable
      then (record { msgs = q.msgs ++ m' ∷ []; file = s }, true)
      else (record { msgs = q.msgs ++ m ∷ []; file = q.file }, true)

  -- Writes the payload over its record, marked invalid, as many bytes as a `uint32_t` counts. The sum
  -- is that of `uint64_t`.
  unfoldable pub invalidate_persistent : Message → FileStream → FileStream
  invalidate_persistent m s =
      let bytes = codec.serialize (with_valid invalid_mark m.payload) in
      let written = write (take (size32 bytes) bytes) (seek ((m.offset + 4) % 2 ^ 64) s) in
      if eqb m.length 0 then s else if not s.is_open then s else written

  -- The loop over the messages: the first that has the id goes.
  unfoldable pub remove_by_id : Text → List Message → FileStream → List Message × FileStream
  unfolding invalidate_persistent
  remove_by_id id [] s = ([], s)
  remove_by_id id (m ∷ ms) s =
      let (ms', s') = remove_by_id id ms s in
      if message_id_of m == id then (ms, invalidate_persistent m s) else (m ∷ ms', s')

  unfoldable pub remove_front : List Message → FileStream → List Message × FileStream
  unfolding invalidate_persistent
  remove_front [] s = ([], s)
  remove_front (m ∷ ms) s = (ms, invalidate_persistent m s)

  -- An empty id stands for the message in front.
  unfoldable pub remove : Text → QueueMessage → QueueMessage
  unfolding remove_by_id remove_front
  remove id q =
      let (ms, s) =
        if is_empty id then remove_front q.msgs q.file else remove_by_id id q.msgs q.file in
      record { msgs = ms; file = s }

  -- One round of the reading loops: `none` is a `break`, else the payload and its size.
  unfoldable pub read_record : FileStream → Option (MessagePayload × ℕ) × FileStream
  read_record s =
      let (head, s1) = read 4 s in
      elim head [
        | none ↦ (none, s1)
        | some bytes ↦
            let len = u32_of_bytes bytes in
            let (body, s2) = read len s1 in
            elim body [
              | none ↦ (none, s2)
              | some serialized ↦ elim (codec.parse serialized) [
                | none ↦ (none, s2)
                | some payload ↦ (some (payload, len), s2)
              ]
            ]
      ]

  -- Each round takes at least four bytes, so one more round than there are bytes is enough fuel.
  unfoldable pub recovery_loop : ℕ → ℕ → List Message → FileStream → List Message × FileStream
  recovery_loop zero pos msgs s = (msgs, s)
  recovery_loop (suc fuel) pos msgs s =
      let (r, s1) = read_record s in
      elim r [
        | none ↦ (msgs, s1)
        | some (payload, len) ↦
            let m : Message = record { payload = payload; offset = pos; length = 4 + len } in
            recovery_loop fuel (tell s1)
              (if payload.valid == valid_mark then msgs ++ m ∷ [] else msgs) s1
      ]

  unfoldable pub recovery : QueueMessage → QueueMessage
  unfolding recovery_loop read_record
  recovery q =
      let s = seek 0 q.file in
      let (ms, s') = recovery_loop (suc (length s.contents)) (tell s) q.msgs s in
      if not q.file.is_open then q else record { msgs = ms; file = s' }

  unfoldable pub stats_loop : ℕ → ℕ → ℕ → FileStream → (ℕ × ℕ) × FileStream
  stats_loop zero total invalid s = ((total, invalid), s)
  stats_loop (suc fuel) total invalid s =
      let (r, s1) = read_record s in
      elim r [
        | none ↦ ((total, invalid), s1)
        | some (payload, len) ↦
            stats_loop fuel (suc total)
              (if payload.valid == valid_mark then invalid else suc invalid) s1
      ]

  -- The ratio is kept as its two numbers.
  unfoldable pub get_stats : QueueMessage → Stats × QueueMessage
  unfolding stats_loop read_record
  get_stats q =
      let size = length q.file.contents in
      let ((total, invalid), s) = stats_loop (suc size) 0 0 (seek 0 (clear q.file)) in
      if not q.file.is_open
      then (record { depth = length q.msgs; file_size = size; invalid = 0; total = 0 }, q)
      else (
        record { depth = length q.msgs; file_size = size; invalid = invalid; total = total },
        record q { file = seek_end (clear s) },
      )

  -- The loop of `compact`: the new file, and the messages with their new places.
  unfoldable pub compact_loop : List Message → List ℕ → List Message × List ℕ
  unfolding frame
  compact_loop [] written = ([], written)
  compact_loop (m ∷ ms) written =
      let m' : Message = record {
        payload = m.payload;
        offset = length written;
        length = 4 + size32 (codec.serialize m.payload);
      } in
      let (ms', written') = compact_loop ms (written ++ frame m.payload) in (m' ∷ ms', written')

  -- `tmp_opens` says whether the temporary file can be opened; the renamed file opens again.
  unfoldable pub compact : Bool → QueueMessage → QueueMessage
  unfolding compact_loop
  compact tmp_opens q =
      let (ms, bytes) = compact_loop q.msgs [] in
      if not q.file.is_open
      then q
      else if not tmp_opens
      then q
      else record { msgs = ms; file = opened bytes }
