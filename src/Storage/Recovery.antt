-- ===== src/Storage/Recovery.antt =====
-- `recovery` of src/server/queue_message.hpp: what a reopened file gives back, and what the stream is
-- good for afterwards.
use mq_work.Common.{
  suc, ◌≤◌, ◌≡◌, refl, sym, ap, ◌∙◌, true, false, Option, some, List, [], ◌∷◌, ◌++◌, arith, length,
  length-append,
}
use mq_work.Common.Text.{Text}
use mq_work.Proto.{BasicProperties, MessagePayload}
use mq_work.Storage.Stream.{seek, seek_end, tell, write}
use mq_work.Storage.Framing.{Codec, IsCodec}
use mq_work.Storage.{
  QueueMessage, queue_message, frame, write_persistent, insert, recovery, properties_of,
}
use mq_work.Storage.Fifo.{contents_of, contents_of-insert}
use mq_work.Storage.Log.{frames, AllFit, recovered, length-frame, recovery_loop_lem}

module _ (codec : Codec) where
  pub length-frames : (log : List MessagePayload) → length log ≤ length (frames codec log)
  unfolding frames
  length-frames [] = omega arith
  length-frames (p ∷ log) = omega (
    arith,
    length-frames log,
    length-append {0} (frame codec p) (frames codec log),
    length-frame codec p,
  )

  -- The state of a queue whose stream is in order and whose messages are those of its file.
  pub record IsLogged (log : List MessagePayload) (q : QueueMessage) : Type 0 where
    pub open_file : q.file.is_open ≡ true
    pub not_failed : q.file.failed ≡ false
    pub file_log : q.file.contents ≡ frames codec log
    pub live : q.msgs ≡ recovered codec 0 log
    pub fit : AllFit codec log

  -- A stream in order on a file that holds a log.
  pub record HoldsLog (log : List MessagePayload) (q : QueueMessage) : Type 0 where
    pub open_file : q.file.is_open ≡ true
    pub not_failed : q.file.failed ≡ false
    pub file_log : q.file.contents ≡ frames codec log
    pub fit : AllFit codec log

  file-insert_failed :
      (q : QueueMessage) (bp : Option BasicProperties) (body : Text)
      → q.file.failed ≡ true
      → (insert codec q bp body true).0.file.contents ≡ q.file.contents
  unfolding insert write_persistent seek_end write
  file-insert_failed q bp body f = ground arith

  module _ (c : IsCodec codec) where
    pub recovery_lem :
        (q : QueueMessage) (log : List MessagePayload)
        → HoldsLog log q
        → recovery codec q ≡ record {
          msgs = q.msgs ++ recovered codec 0 log;
          file = record q.file { pos = length q.file.contents; failed = true };
        }
    unfolding recovery seek tell
    recovery_lem q log h = ground (
      arith,
      h.open_file,
      h.not_failed,
      recovery_loop_lem codec c (suc (length q.file.contents)) log [] q.msgs
          (record q.file { pos = 0 }) (omega (arith, length-frames log, ap length h.file_log)) h.fit
          h.not_failed h.file_log refl,
    )

    -- A queue whose file agrees with its messages comes back from the file as it was: a new object on
    -- the same file has, after `recovery`, the messages of the old one, with their places in the file.
    pub recovery_restores :
        (q : QueueMessage) (log : List MessagePayload)
        → IsLogged log q
        → (recovery codec (queue_message true (some q.file.contents))).msgs ≡ q.msgs
    recovery_restores q log h =
        ap (λ (r : QueueMessage). r.msgs)
          (recovery_lem (queue_message true (some q.file.contents)) log (
            unfold queue_message in
            record { open_file = refl; not_failed = refl; file_log = h.file_log; fit = h.fit }))
        ∙ (unfold queue_message in sym h.live)

    -- `recovery` of a queue with a stream in order reads the log to the end of the file: it appends
    -- the valid messages of the log, in order, and leaves the stream failed. A durable message that
    -- is inserted afterwards stands last in memory and is reported as stored, but the file does not
    -- change.
    pub recovery_blocks_writes :
        (q : QueueMessage) (log : List MessagePayload) (bp : Option BasicProperties) (body : Text)
        → HoldsLog log q
        → let r = recovery codec q in
          let (q', ok) = insert codec r bp body true in
          (r ≡ record {
            msgs = q.msgs ++ recovered codec 0 log;
            file = record q.file { pos = length q.file.contents; failed = true };
          })
          × (ok ≡ true)
          × (contents_of q'.msgs
              ≡ contents_of r.msgs ++ record { properties = properties_of bp; body = body } ∷ [])
          × (q'.file.contents ≡ q.file.contents)
    recovery_blocks_writes q log bp body h =
        let e = recovery_lem q log h in
        let f : (recovery codec q).file.failed ≡ true =
          ap (λ (r : QueueMessage). r.file.failed) e in
        let (result, kept) = contents_of-insert codec (recovery codec q) bp body true in
        let disk = file-insert_failed (recovery codec q) bp body f in
        (e, result, kept, disk ∙ ap (λ (r : QueueMessage). r.file.contents) e)
