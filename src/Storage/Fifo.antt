-- ===== src/Storage/Fifo.antt =====
-- The messages of src/server/queue_message.hpp as a first-in first-out queue, apart from the file.
use mathlib.Core.List.{tail}
use mq_work.Common.{
  ◌≡◌, refl, ap, ◌∙◌, Bool, true, false, Option, List, [], ◌∷◌, ◌++◌, arith, if◌then◌else◌,
  is_empty,
}
use mathlib.Core.List.{tail}
use mq_work.Common.Text.{Text, ◌==◌, eq_refl}
use mq_work.Proto.{BasicProperties, Message}
use mq_work.Storage.Framing.{Codec}
use mq_work.Storage.{
  QueueMessage, insert, remove, remove_by_id, remove_front, message_id_of, write_persistent,
  properties_of,
}
use mq_work.Storage.Stream.{FileStream}

-- What a client can see of a message: not its place in the file, nor the valid mark.
pub record Content : Type 0 where
  pub properties : BasicProperties
  pub body : Text

abbrev pub content_of : Message → Content
content_of m = record { properties = m.payload.properties; body = m.payload.body }

unfoldable pub contents_of : List Message → List Content
contents_of [] = []
contents_of (m ∷ ms) = content_of m ∷ contents_of ms

-- The list without its first message with the id.
unfoldable pub without : Text → List Message → List Message
without id [] = []
without id (m ∷ ms) = let rest = without id ms in if message_id_of m == id then ms else m ∷ rest

pub contents_of-append :
    (xs ys : List Message) → contents_of (xs ++ ys) ≡ contents_of xs ++ contents_of ys
unfolding contents_of
contents_of-append [] ys = refl
contents_of-append (x ∷ xs) ys = ap (◌∷◌ (content_of x)) (contents_of-append xs ys)

module _ (codec : Codec) where
  content-written :
      (m : Message) (s : FileStream) → content_of (write_persistent codec m s).0 ≡ content_of m
  unfolding write_persistent
  content-written m s = ground arith

  -- `insert` always succeeds and puts the message behind all others, whether or not it is durable
  -- and whatever the state of the file.
  pub contents_of-insert :
      (q : QueueMessage) (bp : Option BasicProperties) (body : Text) (durable : Bool)
      → ((insert codec q bp body durable).1 ≡ true)
        × (contents_of (insert codec q bp body durable).0.msgs
            ≡ contents_of q.msgs ++ record { properties = properties_of bp; body = body } ∷ [])
  unfolding insert contents_of
  contents_of-insert q bp body false = (refl, contents_of-append q.msgs _)
  contents_of-insert q bp body true = (
    refl,
    contents_of-append q.msgs _
        ∙ ap (λ (x : Content). contents_of q.msgs ++ x ∷ []) (content-written _ q.file),
  )

  msgs-remove_by_id :
      (id : Text) (ms : List Message) (s : FileStream)
      → (remove_by_id codec id ms s).0 ≡ without id ms
  unfolding remove_by_id without
  msgs-remove_by_id id [] s = refl
  msgs-remove_by_id id (m ∷ ms) s = ground (arith, msgs-remove_by_id id ms s)

  msgs-remove_front_loop :
      (ms : List Message) (s : FileStream) → (remove_front codec ms s).0 ≡ tail ms
  unfolding remove_front
  msgs-remove_front_loop [] s = refl
  msgs-remove_front_loop (m ∷ ms) s = refl

  -- `remove` with an id takes the first message that has it, and with the empty id the one in front.
  pub msgs-remove :
      (id : Text) (q : QueueMessage)
      → (remove codec id q).msgs ≡ (if is_empty id then tail q.msgs else without id q.msgs)
  unfolding remove
  msgs-remove id q =
      ground (arith, msgs-remove_front_loop q.msgs q.file, msgs-remove_by_id id q.msgs q.file)

  -- Removing the message in front by its own id, even if that is empty or stands again further
  -- back, takes just that message: what `basic_consume` relies on.
  pub msgs-remove_front :
      (q : QueueMessage) (m : Message) (ms : List Message)
      → q.msgs ≡ m ∷ ms
      → (remove codec (message_id_of m) q).msgs ≡ ms
  unfolding without
  msgs-remove_front q m ms e = ground (
    arith,
    msgs-remove (message_id_of m) q,
    ap tail e,
    ap (without (message_id_of m)) e,
    eq_refl (message_id_of m),
  )
