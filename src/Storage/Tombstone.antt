-- ===== src/Storage/Tombstone.antt =====
-- `remove` of src/server/queue_message.hpp: the record of the removed message is marked invalid in
-- place, so that the file goes on agreeing with the messages.
use mathlib.Core.List.{append_assoc}
use mq_work.Common.{
  take, take_past, ◌&&◌, ◌||◌, ℕ, ◌+◌, ◌%◌, ◌^◌, ◌<◌, ◌≡◌, refl, sym, ap, ◌∙◌, Bool, true, false,
  List, [], ◌∷◌, ◌++◌, arith, if◌then◌else◌, length, length-append, is_empty, Bool-cases, inl, inr,
}
use mq_work.Common.Text.{Text, ◌==◌, eq_of_==}
use mq_work.Proto.{MessagePayload, Message}
use mq_work.Storage.Stream.{FileStream, seek, write, splice, splice_over}
use mq_work.Storage.Framing.{
  Codec, IsCodec, valid_mark, invalid_mark, u32_bytes, length-u32_bytes, size32,
}
use mq_work.Storage.{
  QueueMessage, frame, with_valid, remove, remove_by_id, remove_front, invalidate_persistent,
}
use mq_work.Storage.Log.{frames, Fits, AllFit, recovered, message_at, length-frame}
use mq_work.Storage.Recovery.{IsLogged}

-- The log after its first valid payload that passes the test is marked.
unfoldable pub tombstone : (MessagePayload → Bool) → List MessagePayload → List MessagePayload
tombstone test [] = []
tombstone test (p ∷ log) =
    let rest = tombstone test log in
    if p.valid == valid_mark && test p then with_valid invalid_mark p ∷ log else p ∷ rest

module _ (codec : Codec) where
  -- Both ways of `remove`, by the test that they make.
  remove_first : (MessagePayload → Bool) → List Message → FileStream → List Message × FileStream
  remove_first test [] s = ([], s)
  remove_first test (m ∷ ms) s =
      let (ms', s') = remove_first test ms s in
      if test m.payload then (ms, invalidate_persistent codec m s) else (m ∷ ms', s')

  remove_by_id-first :
      (id : Text) (ms : List Message) (s : FileStream)
      → remove_by_id codec id ms s ≡ remove_first (λ p. p.properties.id == id) ms s
  unfolding remove_by_id remove_first
  remove_by_id-first id [] s = refl
  remove_by_id-first id (m ∷ ms) s = rw (remove_by_id-first id ms s)

  remove_front-first :
      (ms : List Message) (s : FileStream) → remove_front codec ms s ≡ remove_first (λ p. true) ms s
  unfolding remove_front remove_first
  remove_front-first [] s = refl
  remove_front-first (m ∷ ms) s = refl

  marked : (invalid_mark == valid_mark) ≡ false
  unfolding ◌==◌
  marked = refl

  module _ (c : IsCodec codec) where
    same_size :
        (p : MessagePayload)
        → (p.valid == valid_mark) ≡ true
        → length (codec.serialize (with_valid invalid_mark p)) ≡ length (codec.serialize p)
    same_size p v =
        c.same_size p invalid_mark valid_mark refl
        ∙ ap (λ (w : Text). length (codec.serialize (with_valid w p)))
            (sym (eq_of_== p.valid valid_mark v))

    module _ (before after : List ℕ) (p : MessagePayload) (v : (p.valid == valid_mark) ≡ true)
        (bytes : List ℕ) (e : bytes ≡ before ++ (frame codec p ++ after)) where
      marked_bytes : List ℕ
      marked_bytes = codec.serialize (with_valid invalid_mark p)

      place :
          length bytes < 2 ^ 64
          → (length before + 4) % 2 ^ 64 ≡ length (before ++ u32_bytes (size32 (codec.serialize p)))
      place l = omega (
        arith,
        ap length e,
        length-append {0} before (frame codec p ++ after),
        length-append {0} (frame codec p) after,
        length-frame codec p,
        length-append {0} before (u32_bytes (size32 (codec.serialize p))),
        length-u32_bytes (size32 (codec.serialize p)),
      )

      overwritten :
          splice (length (before ++ u32_bytes (size32 (codec.serialize p)))) marked_bytes bytes
          ≡ before ++ (frame codec (with_valid invalid_mark p) ++ after)
      unfolding frame marked_bytes
      overwritten =
          let u = u32_bytes (size32 (codec.serialize p)) in
          let d = codec.serialize p in
          let d' = marked_bytes in
          let same : u32_bytes (size32 d') ≡ u =
            ap (λ (n : ℕ). u32_bytes (n % 2 ^ 32)) (same_size p v) in
          let split : bytes ≡ (before ++ u) ++ (d ++ after) =
            e
            ∙ (ap (◌++◌ before) (append_assoc u d after)
                ∙ sym (append_assoc before u (d ++ after))) in
          ap (splice (length (before ++ u)) d') split
          ∙ (splice_over (before ++ u) d d' after (same_size p v)
              ∙ (append_assoc before u (d' ++ after)
                  ∙ ap (◌++◌ before) (
                      sym (append_assoc u d' after)
                      ∙ ap (λ (w : List ℕ). (w ++ d') ++ after) (sym same))))

    all-bytes :
        (p : MessagePayload)
        → (p.valid == valid_mark) ≡ true
        → Fits codec p
        → let bytes = codec.serialize (with_valid invalid_mark p) in
          take (size32 bytes) bytes ≡ bytes
    all-bytes p v fit =
        let bytes = codec.serialize (with_valid invalid_mark p) in
        take_past (size32 bytes) bytes (omega (arith, same_size p v))

    -- The record of a message is replaced by its marked one.
    invalidate_lem :
        (before after : List ℕ) (p : MessagePayload) (s : FileStream)
        → (p.valid == valid_mark) ≡ true
        → Fits codec p
        → s.is_open ≡ true
        → s.failed ≡ false
        → s.contents ≡ before ++ (frame codec p ++ after)
        → length s.contents < 2 ^ 64
        → let t = invalidate_persistent codec (message_at codec (length before) p) s in
          (t.is_open ≡ true)
          × (t.failed ≡ false)
          × (t.contents ≡ before ++ (frame codec (with_valid invalid_mark p) ++ after))
    unfolding invalidate_persistent seek write marked_bytes
    invalidate_lem before after p s v fit o f e l =
        let at = place before after p v s.contents e l in
        let over = overwritten before after p v s.contents e in
        let whole = all-bytes p v fit in
        (
          ground (arith, at, over, whole),
          ground (arith, at, over, whole),
          ground (arith, at, over, whole),
        )

    -- What is left of a log and its messages once one is removed.
    Removes :
        (MessagePayload → Bool) → List ℕ → List MessagePayload → List Message × FileStream → Type 0
    Removes test before log (ms, t) =
        (ms ≡ recovered codec (length before) (tombstone test log))
        × (t.is_open ≡ true)
        × (t.failed ≡ false)
        × (t.contents ≡ before ++ frames codec (tombstone test log))

    remove_first_lem :
        (test : MessagePayload → Bool) (log : List MessagePayload) (before : List ℕ)
        (s : FileStream)
        → s.is_open ≡ true
        → s.failed ≡ false
        → s.contents ≡ before ++ frames codec log
        → length s.contents < 2 ^ 64
        → AllFit codec log
        → Removes test before log (remove_first test (recovered codec (length before) log) s)
    unfolding remove_first recovered tombstone frames Removes
    remove_first_lem test [] before s o f e l a = (refl, o, f, e)
    remove_first_lem test (p ∷ log) before s o f e l a =
        let n = length before + length (frame codec p) in
        let there : s.contents ≡ (before ++ frame codec p) ++ frames codec log =
          e ∙ sym (append_assoc before (frame codec p) (frames codec log)) in
        let (ms, o', f', e') =
          remove_first_lem test log (before ++ frame codec p) s o f there l a.1 in
        let shift = length-append {0} before (frame codec p) in
        let assoc = append_assoc before (frame codec p) (frames codec (tombstone test log)) in
        elim (Bool-cases (p.valid == valid_mark)) [
          | inl v ↦ elim (Bool-cases (test p)) [
            | inl hit ↦ ground (
              arith,
              invalidate_lem before (frames codec log) p s v a.0 o f e l,
              marked,
              length-frame codec p,
              length-frame codec (with_valid invalid_mark p),
              same_size p v,
            )
            | inr miss ↦ ground (arith, ms, o', f', e', shift, assoc)
          ]
          | inr dead ↦ ground (arith, ms, o', f', e', shift, assoc)
        ]

    AllFit-tombstone :
        (test : MessagePayload → Bool) (log : List MessagePayload)
        → AllFit codec log
        → AllFit codec (tombstone test log)
    unfolding tombstone
    AllFit-tombstone test [] a = tt
    AllFit-tombstone test (p ∷ log) a = elim (Bool-cases (p.valid == valid_mark)) [
      | inl v ↦ ground (arith, AllFit-tombstone test log a.1, same_size p v)
      | inr dead ↦ ground (arith, AllFit-tombstone test log a.1)
    ]

  -- The payload that `remove id` takes: the one in front, or the first with the id.
  unfoldable pub chosen : Text → MessagePayload → Bool
  chosen id p = is_empty id || p.properties.id == id

  remove-first :
      (id : Text) (q : QueueMessage)
      → remove codec id q
        ≡ (let (ms, s) = remove_first (chosen id) q.msgs q.file in record { msgs = ms; file = s })
  unfolding remove chosen
  remove-first [] q = rw (remove_front-first q.msgs q.file)
  remove-first (x ∷ id) q = rw (remove_by_id-first (x ∷ id) q.msgs q.file)

  -- Where the stream of a queue is in order and its file agrees with its messages, `remove` marks in
  -- the log the record of the message that it takes, and keeps the file and the messages in
  -- agreement. The file has less than 2^64 bytes.
  pub remove-IsLogged :
      (c : IsCodec codec) (q : QueueMessage) (log : List MessagePayload) (id : Text)
      → IsLogged codec log q
      → length q.file.contents < 2 ^ 64
      → IsLogged codec (tombstone (chosen id) log) (remove codec id q)
  unfolding Removes
  remove-IsLogged c q log id h l =
      let (ms, o, f, e) =
        remove_first_lem c (chosen id) log [] q.file h.open_file h.not_failed h.file_log l h.fit in
      rw (remove-first id q, h.live)
        (record {
          open_file = o;
          not_failed = f;
          file_log = e;
          live = ms;
          fit = AllFit-tombstone c (chosen id) log h.fit;
        })
