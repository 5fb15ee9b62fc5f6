-- ===== src/Storage/Durable.antt =====
-- `insert` and `remove` of src/server/queue_message.hpp keep the file and the messages in agreement,
-- as long as the stream is in order.
use mathlib.Core.List.{append-nil, append_assoc}
use mq_work.Common.{
  ℕ, ◌+◌, ◌≡◌, sym, ap, ◌∙◌, true, Option, List, [], ◌∷◌, ◌++◌, arith, length, length-append,
}
use mq_work.Common.Text.{Text, ◌==◌, eq_refl}
use mq_work.Proto.{BasicProperties, MessagePayload}
use mq_work.Storage.Stream.{seek_end, tell, write, splice_end}
use mq_work.Storage.Framing.{Codec, valid_mark}
use mq_work.Storage.{QueueMessage, frame, properties_of, write_persistent, insert}
use mq_work.Storage.Log.{frames, Fits, AllFit, recovered, message_at, size32-Fits}
use mq_work.Storage.Recovery.{IsLogged}

module _ (codec : Codec) where
  -- The payload that `insert` writes.
  abbrev pub written_payload : Option BasicProperties → Text → MessagePayload
  written_payload bp body = record {
    properties = properties_of bp;
    body = body;
    valid = valid_mark;
  }

  pub frames-append :
      (log : List MessagePayload) (p : MessagePayload)
      → frames codec (log ++ p ∷ []) ≡ frames codec log ++ frame codec p
  unfolding frames
  frames-append [] p = append-nil (frame codec p)
  frames-append (x ∷ log) p =
      ap (◌++◌ (frame codec x)) (frames-append log p)
      ∙ sym (append_assoc (frame codec x) (frames codec log) (frame codec p))

  recovered-append :
      (pos : ℕ) (log : List MessagePayload) (p : MessagePayload)
      → (p.valid == valid_mark) ≡ true
      → recovered codec pos (log ++ p ∷ [])
        ≡ recovered codec pos log ++ message_at codec (pos + length (frames codec log)) p ∷ []
  unfolding recovered frames
  recovered-append pos [] p v = rw v (ap (λ (n : ℕ). message_at codec n p ∷ []) (omega arith))
  recovered-append pos (x ∷ log) p v = ground (
    arith,
    recovered-append (pos + length (frame codec x)) log p v,
    length-append {0} (frame codec x) (frames codec log),
  )

  AllFit-append :
      (log : List MessagePayload) (p : MessagePayload)
      → AllFit codec log
      → Fits codec p
      → AllFit codec (log ++ p ∷ [])
  AllFit-append [] p a f = (f, tt)
  AllFit-append (x ∷ log) p a f = (a.0, AllFit-append log p a.1 f)

  -- A durable insert appends its payload to the log, and keeps the file and the messages in
  -- agreement, if the serialized payload has less than 2^32 bytes.
  pub insert-IsLogged :
      (q : QueueMessage) (log : List MessagePayload) (bp : Option BasicProperties) (body : Text)
      → IsLogged codec log q
      → Fits codec (written_payload bp body)
      → IsLogged codec (log ++ written_payload bp body ∷ []) (insert codec q bp body true).0
  unfolding insert write_persistent seek_end write tell
  insert-IsLogged q log bp body h f =
      let p = written_payload bp body in
      record {
        open_file = ground (arith, h.open_file);
        not_failed = ground (arith, h.open_file, h.not_failed);
        file_log = ground (
          arith,
          h.open_file,
          h.not_failed,
          h.file_log,
          splice_end (frame codec p) q.file.contents,
          frames-append log p,
        );
        live = ground (
          arith,
          h.open_file,
          h.not_failed,
          h.live,
          ap length h.file_log,
          recovered-append 0 log p (eq_refl valid_mark),
          size32-Fits codec p f,
        );
        fit = AllFit-append log p h.fit f;
      }
