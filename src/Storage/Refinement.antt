-- ===== src/Storage/Refinement.antt =====
-- The store of src/server/queue_message.hpp as the queue that its clients see: the file, the places
-- of the messages in it, and their marks make no difference to them.
use mathlib.Core.List.{tail}
use mq_work.Common.{
  ℕ, ◌≡◌, refl, sym, ap, ◌∙◌, Bool, true, Option, none, some, List, [], ◌∷◌, ◌++◌, arith,
  if◌then◌else◌, is_empty, length,
}
use mq_work.Common.Text.{Text, ◌==◌}
use mq_work.Proto.{BasicProperties, Message}
use mq_work.Storage.Framing.{Codec}
use mq_work.Storage.{
  QueueMessage, insert, remove, front, getable_count, get_all_messages, get_stats, compact,
  properties_of,
}
use mq_work.Storage.Fifo.{
  Content, content_of, contents_of, without, contents_of-insert, msgs-remove,
}
use mq_work.Storage.Compaction.{contents_of-compact}

-- The calls of a store that is open.
pub data StoreCall : Type 0 where
  inserts : Option BasicProperties → (body : Text) → (durable : Bool) → StoreCall
  removes : (id : Text) → StoreCall
  looks_at_front : StoreCall
  counts : StoreCall
  lists_all : StoreCall
  asks_depth : StoreCall
  compacts : (tmp_opens : Bool) → StoreCall

-- What a call gives its caller.
pub data Seen : Type 0 where
  seen_result : Bool → Seen
  seen_nothing : Seen
  seen_front : Option Content → Seen
  seen_number : ℕ → Seen
  seen_all : List Content → Seen

abbrev content_at : Option Message → Option Content
content_at none = none
content_at (some m) = some (content_of m)

-- The abstract queue: a list of contents, the oldest first, and what `remove id` leaves of it.
unfoldable pub without_id : Text → List Content → List Content
without_id id [] = []
without_id id (c ∷ cs) =
    let rest = without_id id cs in if c.properties.id == id then cs else c ∷ rest

abbrev pub acked : Text → List Content → List Content
acked id cs = if is_empty id then tail cs else without_id id cs

abbrev pub oldest : List Content → Option Content
oldest [] = none
oldest (c ∷ cs) = some c

unfoldable pub queue_call : StoreCall → List Content → List Content × Seen
queue_call (inserts bp body durable) cs =
    (cs ++ record { properties = properties_of bp; body = body } ∷ [], seen_result true)
queue_call (removes id) cs = (acked id cs, seen_nothing)
queue_call looks_at_front cs = (cs, seen_front (oldest cs))
queue_call counts cs = (cs, seen_number (length cs))
queue_call lists_all cs = (cs, seen_all cs)
queue_call asks_depth cs = (cs, seen_number (length cs))
queue_call (compacts tmp_opens) cs = (cs, seen_nothing)

unfoldable pub queue_calls : List StoreCall → List Content → List Content × List Seen
queue_calls [] cs = (cs, [])
queue_calls (c ∷ calls) cs =
    let (cs1, seen) = queue_call c cs in
    let (cs2, rest) = queue_calls calls cs1 in (cs2, seen ∷ rest)

module _ (codec : Codec) where
  unfoldable pub store_call : StoreCall → QueueMessage → QueueMessage × Seen
  store_call (inserts bp body durable) q =
      let (q', ok) = insert codec q bp body durable in (q', seen_result ok)
  store_call (removes id) q = (remove codec id q, seen_nothing)
  store_call looks_at_front q = (q, seen_front (content_at (front q)))
  store_call counts q = (q, seen_number (getable_count q))
  store_call lists_all q = (q, seen_all (contents_of (get_all_messages q)))
  store_call asks_depth q = let (s, q') = get_stats codec q in (q', seen_number s.depth)
  store_call (compacts tmp_opens) q = (compact codec tmp_opens q, seen_nothing)

  unfoldable pub store_calls : List StoreCall → QueueMessage → QueueMessage × List Seen
  store_calls [] q = (q, [])
  store_calls (c ∷ calls) q =
      let (q1, seen) = store_call c q in let (q2, rest) = store_calls calls q1 in (q2, seen ∷ rest)

  length-contents_of : (ms : List Message) → length (contents_of ms) ≡ length ms
  unfolding contents_of
  length-contents_of [] = refl
  length-contents_of (m ∷ ms) = omega (arith, length-contents_of ms)

  contents_of-without :
      (id : Text) (ms : List Message) → contents_of (without id ms) ≡ without_id id (contents_of ms)
  unfolding contents_of without without_id
  contents_of-without id [] = refl
  contents_of-without id (m ∷ ms) = ground (arith, contents_of-without id ms)

  contents_of-tail : (ms : List Message) → contents_of (tail ms) ≡ tail (contents_of ms)
  unfolding contents_of
  contents_of-tail [] = refl
  contents_of-tail (m ∷ ms) = refl

  pub contents_of-remove :
      (id : Text) (q : QueueMessage)
      → contents_of (remove codec id q).msgs ≡ acked id (contents_of q.msgs)
  contents_of-remove id q =
      ground (arith, msgs-remove codec id q, contents_of-without id q.msgs, contents_of-tail q.msgs)

  content-front : (q : QueueMessage) → content_at (front q) ≡ oldest (contents_of q.msgs)
  unfolding front contents_of
  content-front q = ground arith

  -- One call on the store does to its contents what the call on the abstract queue does, and gives
  -- the same answer.
  call_refines :
      (c : StoreCall) (q : QueueMessage)
      → (contents_of (store_call c q).0.msgs, (store_call c q).1)
        ≡ queue_call c (contents_of q.msgs)
  unfolding store_call queue_call front getable_count get_all_messages contents_of get_stats
  call_refines (inserts bp body durable) q =
      ground (arith, contents_of-insert codec q bp body durable)
  call_refines (removes id) q =
      ap (λ (cs : List Content). (cs, seen_nothing)) (contents_of-remove id q)
  call_refines looks_at_front q =
      ap (λ (c : Option Content). (contents_of q.msgs, seen_front c)) (content-front q)
  call_refines counts q =
      ap (λ (n : ℕ). (contents_of q.msgs, seen_number n)) (sym (length-contents_of q.msgs))
  call_refines lists_all q = refl
  call_refines asks_depth q = ground (arith, length-contents_of q.msgs)
  call_refines (compacts tmp_opens) q =
      ap (λ (cs : List Content). (cs, seen_nothing)) (contents_of-compact codec tmp_opens q)

  -- Whatever calls an open store gets, durable or not, with a stream in any state and whether or not
  -- compaction can open its file: each gives the answer that a first-in first-out queue of contents
  -- gives, and at the end the store holds the contents of that queue.
  pub calls_refine :
      (calls : List StoreCall) (q : QueueMessage)
      → (contents_of (store_calls calls q).0.msgs, (store_calls calls q).1)
        ≡ queue_calls calls (contents_of q.msgs)
  unfolding store_calls queue_calls
  calls_refine [] q = refl
  calls_refine (c ∷ calls) q =
      let (q1, seen) = store_call c q in
      let after : List Content × Seen → List Content × List Seen =
        λ r. ((queue_calls calls r.0).0, r.1 ∷ (queue_calls calls r.0).1) in
      ap (λ (r : List Content × List Seen). (r.0, seen ∷ r.1)) (calls_refine calls q1)
      ∙ ap after (call_refines c q)
