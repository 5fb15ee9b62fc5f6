-- ===== src/Storage/Statistics.antt =====
-- `get_stats` of src/server/queue_message.hpp: the records of the file are counted.
use mathlib.Core.List.{append_assoc, append-nil}
use mq_work.Common.{
  ℕ, zero, suc, ◌+◌, ◌<◌, ◌≡◌, refl, sym, ap, ◌∙◌, true, false, List, [], ◌∷◌, ◌++◌, arith, length,
  length-append, if◌then◌else◌,
}
use mq_work.Common.Text.{◌==◌}
use mq_work.Proto.{MessagePayload}
use mq_work.Storage.Stream.{FileStream, clear, seek, seek_end}
use mq_work.Storage.Framing.{Codec, IsCodec, valid_mark}
use mq_work.Storage.{QueueMessage, frame, stats_loop, get_stats}
use mq_work.Storage.Log.{frames, AllFit, length-frame, read_record_there, read_record_end}
use mq_work.Storage.Recovery.{length-frames}

-- How many payloads are not marked valid.
unfoldable pub count_invalid : List MessagePayload → ℕ
count_invalid [] = 0
count_invalid (p ∷ log) =
    let rest = count_invalid log in if p.valid == valid_mark then rest else suc rest

module _ (codec : Codec) (c : IsCodec codec) where
  stats_loop_lem :
      (fuel : ℕ) (log : List MessagePayload) (before : List ℕ) (total invalid : ℕ) (s : FileStream)
      → length log < fuel
      → AllFit codec log
      → s.failed ≡ false
      → s.contents ≡ before ++ frames codec log
      → s.pos ≡ length before
      → stats_loop codec fuel total invalid s ≡ (
        (total + length log, invalid + count_invalid log),
        record s { pos = length s.contents; failed = true },
      )
  unfolding stats_loop frames count_invalid
  stats_loop_lem zero log before total invalid s h a f e k = elim h [ ]
  stats_loop_lem (suc fuel) [] before total invalid s h a f e k =
      let at_end : s.pos ≡ length s.contents = k ∙ sym (ap length (e ∙ append-nil before)) in
      ground (arith, read_record_end codec c s f at_end)
  stats_loop_lem (suc fuel) (p ∷ log) before total invalid s h a f e k =
      let t : FileStream = record s { pos = s.pos + 4 + length (codec.serialize p) } in
      let invalid' = if p.valid == valid_mark then invalid else suc invalid in
      ground (
        arith,
        read_record_there codec c before (frames codec log) p s a.0 f e k,
        stats_loop_lem fuel log (before ++ frame codec p) (suc total) invalid' t (omega arith) a.1 f
            (e ∙ sym (append_assoc before (frame codec p) (frames codec log)))
            (omega (arith, length-append {0} before (frame codec p), length-frame codec p)),
      )

  -- On an open file that holds a log, `get_stats` reports the number of messages, the size of the
  -- file, and how many records the file has and how many of them are not valid; it does so also
  -- when the stream had failed, and the stream is in order afterwards.
  pub get_stats_lem :
      (q : QueueMessage) (log : List MessagePayload)
      → q.file.is_open ≡ true
      → q.file.contents ≡ frames codec log
      → AllFit codec log
      → ((get_stats codec q).0 ≡ record {
        depth = length q.msgs;
        file_size = length q.file.contents;
        invalid = count_invalid log;
        total = length log;
      })
        × ((get_stats codec q).1.file.failed ≡ false)
        × ((get_stats codec q).1.file.contents ≡ q.file.contents)
        × ((get_stats codec q).1.msgs ≡ q.msgs)
  unfolding get_stats clear seek seek_end
  get_stats_lem q log o e a =
      let s : FileStream = record q.file { pos = 0; failed = false } in
      ground (
        arith,
        stats_loop_lem (suc (length q.file.contents)) log [] 0 0 s
            (omega (arith, length-frames codec log, ap length e)) a refl e refl,
      )
