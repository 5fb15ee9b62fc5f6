-- ===== src/Channel/Backlog.antt =====
-- src/server/channel.cpp: the messages that an operation adds to the queues, against the tasks that it
-- pushes.
use mathlib.Core.List.{append_assoc, append-nil}
use mq_work.Common.{
  ◌+◌, ◌-◌, ◌≤◌, ◌≡◌, refl, ap, ◌∙◌, sym, Option, none, some, List, [], ◌∷◌, ◌++◌, arith,
  if◌then◌else◌, length, Option-cases, Bool-cases, inl, inr,
}
use mq_work.Common.Text.{Text, ◌==◌}
use mq_work.Common.Dict.{DistinctKeys}
use mq_work.Platform.{Platform}
use mq_work.Host.Consume.{basic_consume as take}
use mq_work.Host.Delivery.{queue_contents}
use mq_work.Host.Sizes.{
  length-acked, waiting, Shrinks, Shrinks-same, basic_ack-Shrinks, basic_consume-Shrinks,
}
use mq_work.Host.PublishedSizes.{copies, copies-append}
use mq_work.Consumers.Manager.{choose}
use mq_work.Storage.{message_id_of}
use mq_work.Channel.{Channel, World, Reply, send, consume_cb, consume, close}
use mq_work.Channel.{ChannelRef}
use mq_work.Consumers.{Consumer}
use mq_work.Storage.Fifo.{Content}
use mq_work.Channel.Delivery.{left_after, consume_lem}

module _ (P : Platform) where
  -- These tasks were pushed, and no queue has more new messages than new tasks.
  pub record Covers (w w' : World P) : Type 0 where
    pub names : DistinctKeys w'.host.queue_messages
    pub pushed : List Text
    pub tasks : w'.tasks ≡ w.tasks ++ pushed
    pub more : (q : Text) → waiting q w'.host ≤ waiting q w.host + copies q pushed

  pub Covers-trans : {a b c : World P} → Covers a b → Covers b c → Covers a c
  Covers-trans {a = a} f g = record {
    names = g.names;
    pushed = f.pushed ++ g.pushed;
    tasks =
        g.tasks
        ∙ (ap (λ (l : List Text). l ++ g.pushed) f.tasks ∙ append_assoc a.tasks f.pushed g.pushed);
    more = λ q. omega (arith, f.more q, g.more q, copies-append q f.pushed g.pushed);
  }

  pub Covers-less : (a b : World P) → Shrinks a.host b.host → b.tasks ≡ a.tasks → Covers a b
  unfolding copies
  Covers-less a b s e = record {
    names = s.names;
    pushed = [];
    tasks = e ∙ sym (append-nil a.tasks);
    more = λ q. omega (arith, s.fewer q);
  }

  pub Covers-same :
      (a b : World P)
      → DistinctKeys a.host.queue_messages
      → b.host.queue_messages ≡ a.host.queue_messages
      → b.tasks ≡ a.tasks
      → Covers a b
  Covers-same a b d h e = Covers-less a b (Shrinks-same d h) e

  -- What one task does to the queues.
  pub consume-names :
      (name : Text) (w : World P)
      → DistinctKeys w.host.queue_messages
      → DistinctKeys (consume P name w).host.queue_messages
  unfolding consume consume_cb
  consume-names name w d =
      let r = take P name w.host in
      let taken = (basic_consume-Shrinks P name w.host d).names in
      elim (Option-cases r.1) [
        | inl e ↦ rw (e, consume) taken
        | inr (m, e) ↦ elim (Option-cases (choose name w.consumers).1) [
          | inl f ↦ rw (e, f, consume) taken
          | inr (c, f) ↦ elim (Bool-cases c.auto_ack) [
            | inl a ↦
                rw (e, f, consume, a) (basic_ack-Shrinks P name (message_id_of m) r.0 taken).names
            | inr a ↦ rw (e, f, consume, a) taken
          ]
        ]
      ]

  length-left_after :
      (chosen : Option (Consumer ChannelRef)) (cs : List Content)
      → length (left_after chosen cs) ≤ length cs - 1
  length-left_after chosen [] = omega arith
  length-left_after none (m ∷ ms) = omega arith
  length-left_after (some c) (m ∷ ms) = ground (arith, length-acked m.properties.id ms)

  -- A task leaves one message less in its queue, if it has any, and pushes no task.
  pub consume-waiting :
      (name : Text) (w : World P) (q : Text)
      → waiting q (consume P name w).host
        ≤ (if name == q then waiting q w.host - 1 else waiting q w.host)
  consume-waiting name w q =
      let chosen = (choose name w.consumers).1 in
      ground (arith, (consume_lem P name w q).0, length-left_after chosen (queue_contents q w.host))

  pub consume-tasks : (name : Text) (w : World P) → (consume P name w).tasks ≡ w.tasks
  unfolding consume consume_cb
  consume-tasks name w = ground arith

  pub consume-Covers :
      (name : Text) (w : World P) → DistinctKeys w.host.queue_messages → Covers w (consume P name w)
  consume-Covers name w d =
      Covers-less w (consume P name w)
        (record {
          names = consume-names name w d;
          fewer = λ q. ground (arith, consume-waiting name w q);
        })
        (consume-tasks name w)

  pub send-Covers :
      (conn : Text) (r : Reply) (w : World P)
      → DistinctKeys w.host.queue_messages
      → Covers w (send conn r w)
  send-Covers conn r w d = Covers-same w (send conn r w) d refl refl

  pub close-Covers :
      (ch : Channel) (w : World P) → DistinctKeys w.host.queue_messages → Covers w (close P ch w)
  unfolding close
  close-Covers ch w d = elim (Option-cases ch.consumer) [
    | inl e ↦ rw (e, close) (Covers-same w w d refl refl)
    | inr (c, e) ↦ rw (e, close) (Covers-same w _ d refl refl)
  ]
