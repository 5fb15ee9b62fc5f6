-- ===== src/Storage/Log.antt =====
-- The file of src/server/queue_message.hpp seen as a log of payloads: what its reading loops find.
use mathlib.Core.List.{append-nil, append_assoc}
use mq_work.Common.{
  ℕ, zero, suc, ◌+◌, ◌^◌, ◌<◌, ◌≡◌, refl, sym, ap, ◌∙◌, true, false, none, some, List, [], ◌∷◌,
  ◌++◌, arith, if◌then◌else◌, length, length-append,
}
use mq_work.Common.Text.{◌==◌}
use mq_work.Proto.{MessagePayload, Message}
use mq_work.Storage.Stream.{FileStream, read, tell, read_there, read_past}
use mq_work.Storage.Framing.{
  Codec, IsCodec, u32_bytes, u32_of_bytes-u32_bytes, length-u32_bytes, size32, valid_mark,
}
use mq_work.Storage.{frame, read_record, recovery_loop}

module _ (codec : Codec) where
  -- The bytes of a log.
  unfoldable pub frames : List MessagePayload → List ℕ
  frames [] = []
  frames (p ∷ log) = frame codec p ++ frames log

  -- A payload whose size is a `uint32_t`.
  abbrev pub Fits : MessagePayload → Type 0
  Fits p = length (codec.serialize p) < 2 ^ 32

  abbrev pub AllFit : List MessagePayload → Type 0
  AllFit [] = Unit {0}
  AllFit (p ∷ log) = Fits p × AllFit log

  -- The message of a payload whose record starts at `pos`.
  abbrev pub message_at : ℕ → MessagePayload → Message
  message_at pos p = record { payload = p; offset = pos; length = 4 + length (codec.serialize p) }

  -- The valid payloads of a log that starts at `pos`, with their places.
  unfoldable pub recovered : ℕ → List MessagePayload → List Message
  recovered pos [] = []
  recovered pos (p ∷ log) =
      let rest = recovered (pos + length (frame codec p)) log in
      if p.valid == valid_mark then message_at pos p ∷ rest else rest

  pub length-frame : (p : MessagePayload) → length (frame codec p) ≡ 4 + length (codec.serialize p)
  unfolding frame
  length-frame p = omega (
    arith,
    length-append {0} (u32_bytes (size32 (codec.serialize p))) (codec.serialize p),
    length-u32_bytes (size32 (codec.serialize p)),
  )

  pub size32-Fits :
      (p : MessagePayload) → Fits p → size32 (codec.serialize p) ≡ length (codec.serialize p)
  size32-Fits p f = omega arith

  module _ (c : IsCodec codec) where
    read_head :
        (before after : List ℕ) (p : MessagePayload) (s : FileStream)
        → s.failed ≡ false
        → s.contents ≡ before ++ (frame codec p ++ after)
        → s.pos ≡ length before
        → read 4 s ≡ (some (u32_bytes (size32 (codec.serialize p))), record s { pos = s.pos + 4 })
    unfolding frame
    read_head before after p s f e k =
        let n = size32 (codec.serialize p) in
        let e' : s.contents ≡ before ++ (u32_bytes n ++ (codec.serialize p ++ after)) =
          e ∙ ap (◌++◌ before) (append_assoc (u32_bytes n) (codec.serialize p) after) in
        rw (length-u32_bytes n) at
          (read_there before (u32_bytes n) (codec.serialize p ++ after) s f e' k)

    read_body :
        (before after : List ℕ) (p : MessagePayload) (s : FileStream)
        → s.failed ≡ false
        → s.contents ≡ before ++ (frame codec p ++ after)
        → s.pos ≡ length before
        → read (length (codec.serialize p)) (record s { pos = s.pos + 4 })
          ≡ (some (codec.serialize p), record s { pos = s.pos + 4 + length (codec.serialize p) })
    unfolding frame
    read_body before after p s f e k =
        let n = size32 (codec.serialize p) in
        let e' : s.contents ≡ (before ++ u32_bytes n) ++ (codec.serialize p ++ after) =
          e
          ∙ (ap (◌++◌ before) (append_assoc (u32_bytes n) (codec.serialize p) after)
              ∙ sym (append_assoc before (u32_bytes n) (codec.serialize p ++ after))) in
        read_there (before ++ u32_bytes n) (codec.serialize p) after (record s { pos = s.pos + 4 })
          f e' (omega (arith, length-append {0} before (u32_bytes n), length-u32_bytes n))

    -- A round that finds a record.
    pub read_record_there :
        (before after : List ℕ) (p : MessagePayload) (s : FileStream)
        → Fits p
        → s.failed ≡ false
        → s.contents ≡ before ++ (frame codec p ++ after)
        → s.pos ≡ length before
        → read_record codec s ≡ (
          some (p, length (codec.serialize p)),
          record s { pos = s.pos + 4 + length (codec.serialize p) },
        )
    unfolding read_record
    read_record_there before after p s fits f e k = ground (
      arith,
      read_head before after p s f e k,
      read_body before after p s f e k,
      size32-Fits p fits,
      u32_of_bytes-u32_bytes (length (codec.serialize p)) fits,
      c.parse-serialize p,
    )

    -- A round at the end of the file.
    pub read_record_end :
        (s : FileStream)
        → s.failed ≡ false
        → s.pos ≡ length s.contents
        → read_record codec s ≡ (none, record s { pos = length s.contents; failed = true })
    unfolding read_record
    read_record_end s f k = ground (arith, read_past 4 s f (omega arith) (omega arith))

    step_end :
        (fuel : ℕ) (msgs : List Message) (s t : FileStream)
        → read_record codec s ≡ (none, t)
        → recovery_loop codec (suc fuel) s.pos msgs s ≡ (msgs, t)
    unfolding recovery_loop
    step_end fuel msgs s t e = ground arith

    step_record :
        (fuel : ℕ) (msgs : List Message) (p : MessagePayload) (s t : FileStream)
        → t.failed ≡ false
        → read_record codec s ≡ (some (p, length (codec.serialize p)), t)
        → recovery_loop codec (suc fuel) s.pos msgs s
          ≡ recovery_loop codec fuel t.pos
              (if p.valid == valid_mark then msgs ++ message_at s.pos p ∷ [] else msgs)
              t
    unfolding recovery_loop tell
    step_record fuel msgs p s t f e = ground arith

    collect :
        (before : List ℕ) (msgs : List Message) (p : MessagePayload) (log : List MessagePayload)
        → (if p.valid == valid_mark then msgs ++ message_at (length before) p ∷ [] else msgs)
            ++ recovered (length (before ++ frame codec p)) log
          ≡ msgs ++ recovered (length before) (p ∷ log)
    unfolding recovered
    collect before msgs p log =
        let n = length before + length (frame codec p) in
        rw (length-append before (frame codec p))
          (ground (arith, append_assoc msgs (message_at (length before) p ∷ []) (recovered n log)))

    pub recovery_loop_lem :
        (fuel : ℕ) (log : List MessagePayload) (before : List ℕ) (msgs : List Message)
        (s : FileStream)
        → length log < fuel
        → AllFit log
        → s.failed ≡ false
        → s.contents ≡ before ++ frames log
        → s.pos ≡ length before
        → recovery_loop codec fuel s.pos msgs s ≡ (
          msgs ++ recovered (length before) log,
          record s { pos = length s.contents; failed = true },
        )
    recovery_loop_lem zero log before msgs s h a f e k = elim h [ ]
    recovery_loop_lem (suc fuel) [] before msgs s h a f e k =
        let at_end : s.pos ≡ length s.contents =
          k ∙ sym (ap length (e ∙ unfold frames in append-nil before)) in
        step_end fuel msgs s (record s { pos = length s.contents; failed = true })
          (read_record_end s f at_end)
        ∙ (unfold recovered in rw (append-nil msgs))
    recovery_loop_lem (suc fuel) (p ∷ log) before msgs s h a f e k =
        let t : FileStream = record s { pos = s.pos + 4 + length (codec.serialize p) } in
        let there : s.contents ≡ before ++ (frame codec p ++ frames log) =
          e ∙ (unfold frames in refl) in
        step_record fuel msgs p s t f (read_record_there before (frames log) p s a.0 f there k)
        ∙ (recovery_loop_lem fuel log (before ++ frame codec p)
              (if p.valid == valid_mark then msgs ++ message_at s.pos p ∷ [] else msgs) t
              (omega arith) a.1 f (there ∙ sym (append_assoc before (frame codec p) (frames log)))
              (omega (arith, length-append {0} before (frame codec p), length-frame p))
            ∙ ap (λ (l : List Message). (l, record t { pos = length s.contents; failed = true }))
                (rw k (collect before msgs p log)))
