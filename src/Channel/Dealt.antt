-- ===== src/Channel/Dealt.antt =====
-- src/server/channel.cpp and consumer.cpp: consume tasks of one queue in a row.
use mathlib.Core.List.{append_assoc, append-nil}
use mq_work.Common.{
  ℕ, zero, suc, ◌^◌, ◌<◌, ◌≡◌, refl, ap, ◌∙◌, sym, false, some, List, [], ◌∷◌, ◌++◌, map, arith,
  length, take, drop, is_empty, Option-cases, Bool-cases, inl, inr,
}
use mq_work.Common.Text.{Text, eq_iff, eq_refl, listed}
use mq_work.Common.Dict.{find, find-put}
use mq_work.Storage.Fifo.{Content}
use mq_work.Storage.Refinement.{without_id}
use mq_work.Platform.{Platform}
use mq_work.Host.Consume.{basic_consume}
use mq_work.Host.Delivery.{queue_contents}
use mq_work.Host.Ids.{AreDistinct}
use mq_work.Host.Pull.{basic_consume-Takes}
use mq_work.Consumers.{Consumer, QueueConsumer, rr_choose}
use mq_work.Consumers.Manager.{choose}
use mq_work.Consumers.RoundRobin.{rr_rounds, rr_rounds_full}
use mq_work.Channel.{Sent, ChannelRef, World, consume, consume_cb}
use mq_work.Channel.Delivery.{left_after, sent_to, consume_lem}

abbrev pub ids_of : List Content → List Text
ids_of = map (λ (m : Content). m.properties.id)

-- The messages go to these consumers, one each.
abbrev pub dealt : List (Consumer ChannelRef) → List Content → List Sent
dealt [] ms = []
dealt (c ∷ cs) [] = []
dealt (c ∷ cs) (m ∷ ms) = sent_to (some c) (m ∷ []) ++ dealt cs ms

without_absent :
    (id : Text) (ms : List Content) → listed id (ids_of ms) ≡ false → without_id id ms ≡ ms
unfolding listed without_id
without_absent id [] h = refl
without_absent id (m ∷ ms) h = ground (arith, without_absent id ms, eq_iff m.properties.id id)

-- A message with an id of its own goes alone.
left_after_own :
    (c : Consumer ChannelRef) (m : Content) (ms : List Content)
    → is_empty m.properties.id ≡ false
    → listed m.properties.id (ids_of ms) ≡ false
    → left_after (some c) (m ∷ ms) ≡ ms
left_after_own c m ms e h = ground (arith, without_absent m.properties.id ms h)

named_head :
    (id : Text) (ids : List Text)
    → listed [] (id ∷ ids) ≡ false
    → (is_empty id ≡ false) × (listed [] ids ≡ false)
unfolding listed
named_head [] ids h = absurd (ground (arith, eq_refl []))
named_head (c ∷ id) ids h = (refl, ground arith)

module _ (P : Platform) where
  unfoldable pub consumes : ℕ → Text → World P → World P
  consumes zero q w = w
  consumes (suc n) q w = consumes n q (consume P q w)

  -- A task that finds a message moves the turn on.
  find-consume :
      (q : Text) (w : World P) (qc : QueueConsumer ChannelRef) (m : Content) (ms : List Content)
      → find q w.consumers ≡ some qc
      → queue_contents q w.host ≡ m ∷ ms
      → find q (consume P q w).consumers ≡ some (rr_choose qc).0
  unfolding consume consume_cb choose
  find-consume q w qc m ms f e =
      let r = basic_consume P q w.host in
      let t = (basic_consume-Takes P q w.host q).0 in
      let moved = find-put q q (rr_choose qc).0 w.consumers in
      elim (Option-cases r.1) [
        | inl n ↦ absurd (ground (arith, n, t, e))
        | inr (x, n) ↦ elim (Option-cases (rr_choose qc).1) [
          | inl o ↦ rw (n, f, o, consume, choose) (ground (arith, moved, eq_refl q))
          | inr (c, o) ↦ elim (Bool-cases c.auto_ack) [
            | inl a ↦ rw (n, f, o, a, consume, choose) (ground (arith, moved, eq_refl q))
            | inr a ↦ rw (n, f, o, a, consume, choose) (ground (arith, moved, eq_refl q))
          ]
        ]
      ]

  -- One task that finds a message with an id of its own, and whose turn falls on this consumer.
  consume-turn :
      (q : Text) (w : World P) (qc : QueueConsumer ChannelRef) (c : Consumer ChannelRef)
      (m : Content) (ms : List Content)
      → find q w.consumers ≡ some qc
      → (rr_choose qc).1 ≡ some c
      → queue_contents q w.host ≡ m ∷ ms
      → is_empty m.properties.id ≡ false
      → listed m.properties.id (ids_of ms) ≡ false
      → (queue_contents q (consume P q w).host ≡ ms)
        × ((consume P q w).sent ≡ w.sent ++ sent_to (some c) (m ∷ []))
  unfolding choose
  consume-turn q w qc c m ms f o e i l =
      let chosen : (choose q w.consumers).1 ≡ some c = rw (f, choose) o in
      let (left, sent) = consume_lem P q w q in
      let sent_one : sent_to (some c) (m ∷ ms) ≡ sent_to (some c) (m ∷ []) = refl in
      let own = left_after_own c m ms i l in
      (ground (arith, left, chosen, e, eq_refl q, own), ground (arith, sent, chosen, e, sent_one))

  deals :
      (q : Text) (ms : List Content) (cs : List (Consumer ChannelRef)) (w : World P)
      (qc : QueueConsumer ChannelRef)
      → find q w.consumers ≡ some qc
      → (rr_rounds (length ms) qc).1 ≡ map some cs
      → queue_contents q w.host ≡ ms
      → listed [] (ids_of ms) ≡ false
      → AreDistinct (ids_of ms)
      → let w' = consumes (length ms) q w in
        (w'.sent ≡ w.sent ++ dealt cs ms)
        × (queue_contents q w'.host ≡ [])
        × (find q w'.consumers ≡ some (rr_rounds (length ms) qc).0)
  unfolding consumes rr_rounds
  deals q [] [] w qc f r e i d = (sym (append-nil w.sent), e, f)
  deals q [] (c ∷ cs) w qc f r e i d = absurd (ground (arith, r))
  deals q (m ∷ ms) [] w qc f r e i d = absurd (ground (arith, r))
  deals q (m ∷ ms) (c ∷ cs) w qc f r e i d =
      let (named, others) = named_head m.properties.id (ids_of ms) i in
      let first : (rr_choose qc).1 ≡ some c = ground (arith, r) in
      let later : (rr_rounds (length ms) (rr_choose qc).0).1 ≡ map some cs = ground (arith, r) in
      let (left, sent) = consume-turn q w qc c m ms f first e named d.0 in
      let moved = find-consume q w qc m ms f e in
      let (all, none_left, back) =
        deals q ms cs (consume P q w) (rr_choose qc).0 moved later left others d.1 in
      (
        all
            ∙ (ap (λ (l : List Sent). l ++ dealt cs ms) sent
                ∙ append_assoc w.sent (sent_to (some c) (m ∷ [])) (dealt cs ms)),
        none_left,
        back,
      )

  -- As many messages wait in a queue as it has consumers, with ids that are not empty and all
  -- different. As many tasks then deal them out, in order: each consumer gets exactly one, starting
  -- with the one whose turn it is. The queue is empty afterwards and the turn is where it was,
  -- whether or not the consumers acknowledge by themselves. The index of the turn is in range, and
  -- there are less than 2^64 consumers.
  pub consumes-dealt :
      (q : Text) (w : World P) (qc : QueueConsumer ChannelRef)
      → find q w.consumers ≡ some qc
      → qc.rr_index < length qc.consumers
      → length qc.consumers < 2 ^ 64
      → length (queue_contents q w.host) ≡ length qc.consumers
      → listed [] (ids_of (queue_contents q w.host)) ≡ false
      → AreDistinct (ids_of (queue_contents q w.host))
      → let w' = consumes (length qc.consumers) q w in
        let in_turn = drop qc.rr_index qc.consumers ++ take qc.rr_index qc.consumers in
        (w'.sent ≡ w.sent ++ dealt in_turn (queue_contents q w.host))
        × (queue_contents q w'.host ≡ [])
        × (find q w'.consumers ≡ some qc)
  consumes-dealt q w qc f h l n i d =
      let rounds = rr_rounds_full qc h l in
      let in_turn = drop qc.rr_index qc.consumers ++ take qc.rr_index qc.consumers in
      let rounds' = ap (λ (k : ℕ). rr_rounds k qc) n ∙ rounds in
      let (sent, left, back) =
        deals q (queue_contents q w.host) in_turn w qc f (ap (λ r. r.1) rounds') refl i d in
      let turn = back ∙ ap (λ r. some r.0) rounds' in rw (← n) (sent, left, turn)
