-- ===== src/Storage/Compaction.antt =====
-- `compact` of src/server/queue_message.hpp: the file is written anew from the messages.
use mathlib.Core.List.{append-nil, append_assoc}
use mq_work.Common.{
  ℕ, ◌≡◌, refl, sym, ap, ◌∙◌, Bool, true, List, [], ◌∷◌, ◌++◌, arith, length, length-append,
}
use mq_work.Common.Text.{◌==◌}
use mq_work.Proto.{MessagePayload, Message}
use mq_work.Storage.Framing.{Codec, valid_mark}
use mq_work.Storage.{QueueMessage, frame, compact, compact_loop}
use mq_work.Storage.Log.{frames, AllFit, recovered, size32-Fits}
use mq_work.Storage.Recovery.{IsLogged}
use mq_work.Storage.Fifo.{content_of, contents_of}

abbrev pub payloads_of : List Message → List MessagePayload
payloads_of [] = []
payloads_of (m ∷ ms) = m.payload ∷ payloads_of ms

-- Every message carries the mark of a durable one.
abbrev pub AllValid : List Message → Type 0
AllValid [] = Unit {0}
AllValid (m ∷ ms) = ((m.payload.valid == valid_mark) ≡ true) × AllValid ms

module _ (codec : Codec) where
  file-compact_loop :
      (ms : List Message) (written : List ℕ)
      → (compact_loop codec ms written).1 ≡ written ++ frames codec (payloads_of ms)
  unfolding compact_loop frames
  file-compact_loop [] written = sym (append-nil written)
  file-compact_loop (m ∷ ms) written =
      file-compact_loop ms (written ++ frame codec m.payload)
      ∙ append_assoc written (frame codec m.payload) (frames codec (payloads_of ms))

  msgs-compact_loop :
      (ms : List Message) (written : List ℕ)
      → AllValid ms
      → AllFit codec (payloads_of ms)
      → (compact_loop codec ms written).0 ≡ recovered codec (length written) (payloads_of ms)
  unfolding compact_loop recovered
  msgs-compact_loop [] written v f = refl
  msgs-compact_loop (m ∷ ms) written v f = ground (
    arith,
    msgs-compact_loop ms (written ++ frame codec m.payload) v.1 f.1,
    length-append {0} written (frame codec m.payload),
    size32-Fits codec m.payload f.0,
  )

  content-compact_loop :
      (ms : List Message) (written : List ℕ)
      → contents_of (compact_loop codec ms written).0 ≡ contents_of ms
  unfolding compact_loop contents_of
  content-compact_loop [] written = refl
  content-compact_loop (m ∷ ms) written =
      ap (◌∷◌ (content_of m)) (content-compact_loop ms (written ++ frame codec m.payload))

  -- Compaction changes no message that a client can see, whether or not the files open.
  pub contents_of-compact :
      (tmp_opens : Bool) (q : QueueMessage)
      → contents_of (compact codec tmp_opens q).msgs ≡ contents_of q.msgs
  unfolding compact
  contents_of-compact tmp_opens q = ground (arith, content-compact_loop q.msgs [])

  -- After compaction the file holds just the messages, in order, and the stream is in order again,
  -- also if it had failed. The messages are durable ones, each of less than 2^32 bytes, and both
  -- files open.
  pub compact-IsLogged :
      (q : QueueMessage)
      → q.file.is_open ≡ true
      → AllValid q.msgs
      → AllFit codec (payloads_of q.msgs)
      → IsLogged codec (payloads_of q.msgs) (compact codec true q)
  unfolding compact
  compact-IsLogged q o v f = record {
    open_file = ground (arith, o);
    not_failed = ground (arith, o);
    file_log = ground (arith, o, file-compact_loop q.msgs []);
    live = ground (arith, o, msgs-compact_loop q.msgs [] v f);
    fit = f;
  }
