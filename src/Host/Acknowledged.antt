-- ===== src/Host/Acknowledged.antt =====
-- src/server/virtual_host.cpp: the messages of a queue are told apart by the ids that `generate_id`
-- makes up, so that an acknowledgement finds the one that it names.
use mathlib.Core.List.{append_assoc, append-nil, map-append}
use mq_work.Common.{
  ℕ, zero, suc, ◌+◌, ◌%◌, ◌^◌, ◌≤◌, ◌<◌, ◌≡◌, refl, ap, ◌∙◌, sym, true, false, some, List, [], ◌∷◌,
  ◌++◌, map, arith, is_empty, length, Option-cases, inl, inr,
}
use mq_work.Common.Text.{Text, eq_iff, eq_refl, listed, listed-append}
use mq_work.Common.Dict.{find, contains}
use mq_work.Proto.{BasicProperties}
use mq_work.Storage.Fifo.{Content}
use mq_work.Storage.Refinement.{without_id}
use mq_work.Platform.{Platform}
use mq_work.Host.{Host, generate_id}
use mq_work.Host.Publish.{basic_publish, publish_to_store, accept_key, with_id, enqueue}
use mq_work.Host.Consume.{basic_ack}
use mq_work.Host.View.{basic_publish-SameShape}
use mq_work.Host.Delivery.{queue_contents, accepts, next_id, stamped, basic_publish-Published}
use mq_work.Host.Pull.{basic_ack_lem}
use mq_work.Host.Loop.{is_empty-next_id}
use mq_work.Host.Ids.{AreDistinct, generated, generated-AreDistinct}

-- What a client publishes: properties without an id, which the queue takes, and a body.
abbrev pub Letter : Type 0
Letter = BasicProperties × Text

abbrev pub AreFresh : Text → List Letter → Type 0
AreFresh name [] = Unit
AreFresh name ((p, body) ∷ ms) =
    (is_empty p.id ≡ true) × (accepts name (some p) ≡ true) × AreFresh name ms

-- The counter after this many calls.
abbrev pub advance : ℕ → ℕ → ℕ
advance zero seq = seq
advance (suc n) seq = advance n ((seq + 1) % 2 ^ 64)

-- The messages in the queue, with the counter at this value before.
abbrev pub stored : Text → ℕ → List Letter → List Content
stored name seq [] = []
stored name seq ((p, body) ∷ ms) =
    record { properties = stamped name (some p) seq; body = body }
    ∷ stored name ((seq + 1) % 2 ^ 64) ms

-- One message of them.
abbrev stored_at : Text → ℕ → Letter → Content
stored_at name at m = record { properties = stamped name (some m.0) at; body = m.1 }

abbrev id_of : Content → Text
id_of c = c.properties.id

stored-append :
    (name : Text) (seq : ℕ) (xs ys : List Letter)
    → stored name seq (xs ++ ys) ≡ stored name seq xs ++ stored name (advance (length xs) seq) ys
stored-append name seq [] ys = refl
stored-append name seq (x ∷ xs) ys =
    ap (◌∷◌ (record { properties = stamped name (some x.0) seq; body = x.1 }))
      (stored-append name ((seq + 1) % 2 ^ 64) xs ys)

-- The first message with the id goes.
without_id-append :
    (xs ys : List Content) (c : Content)
    → listed (id_of c) (map id_of xs) ≡ false
    → without_id (id_of c) (xs ++ c ∷ ys) ≡ xs ++ ys
unfolding without_id listed
without_id-append [] ys c h = ground (arith, eq_refl (id_of c))
without_id-append (x ∷ xs) ys c h = ground (arith, h, without_id-append xs ys c)

not-listed-before :
    (xs ys : List Text) (s : Text) → AreDistinct (xs ++ s ∷ ys) → listed s xs ≡ false
unfolding listed
not-listed-before [] ys s d = refl
not-listed-before (x ∷ xs) ys s d =
    ground (
      arith,
      d.0,
      listed-append x xs (s ∷ ys),
      not-listed-before xs ys s d.1,
      eq_iff x s,
      eq_iff s x,
    )

module _ (P : Platform) where
  -- Publishing these messages to a queue, one after the other.
  unfoldable pub publish_all : Text → List Letter → Host P → Host P
  publish_all name [] h = h
  publish_all name ((p, body) ∷ ms) h = publish_all name ms (basic_publish P name (some p) body h).0

  seq-basic_publish :
      (name : Text) (p : BasicProperties) (body : Text) (h : Host P)
      → is_empty p.id ≡ true
      → contains name h.queue_messages ≡ true
      → (basic_publish P name (some p) body h).0.seq ≡ (h.seq + 1) % 2 ^ 64
  unfolding basic_publish publish_to_store enqueue
  seq-basic_publish name p body h e c = elim (Option-cases (find name h.queue_messages)) [
    | inl n ↦ absurd (ground (arith, n, c))
    | inr (store, f) ↦ elim (Option-cases (accept_key name (with_id P p h).1)) [
      | inl a ↦ rw (f, basic_publish, publish_to_store, a) (unfold with_id generate_id in rw e refl)
      | inr (p', a) ↦
          rw (f, basic_publish, publish_to_store, a) (unfold with_id generate_id in rw e refl)
    ]
  ]

  queue_contents-publish_all :
      (name : Text) (ms : List Letter) (h : Host P)
      → AreFresh name ms
      → contains name h.queue_messages ≡ true
      → queue_contents name (publish_all name ms h) ≡ queue_contents name h ++ stored name h.seq ms
  unfolding publish_all
  queue_contents-publish_all name [] h f c = sym (append-nil (queue_contents name h))
  queue_contents-publish_all name ((p, body) ∷ ms) h f c =
      let h1 = (basic_publish P name (some p) body h).0 in
      let (r, put) = basic_publish-Published P name (some p) body h name in
      let there : contains name h1.queue_messages ≡ true =
        (basic_publish-SameShape P name (some p) body h).stores name ∙ c in
      let seq = seq-basic_publish name p body h f.0 c in
      let rest = queue_contents-publish_all name ms h1 f.2 there in
      let sent : Content = record { properties = stamped name (some p) h.seq; body = body } in
      let put' : queue_contents name h1 ≡ queue_contents name h ++ sent ∷ [] =
        ground (arith, put, r, c, f.1, eq_refl name) in
      rest
      ∙ (ap (λ (l : List Content). l ++ stored name h1.seq ms) put'
          ∙ (append_assoc (queue_contents name h) (sent ∷ []) (stored name h1.seq ms)
              ∙ ap (λ (n : ℕ). queue_contents name h ++ sent ∷ stored name n ms) seq))

  ids-stored :
      (name : Text) (ms : List Letter) (h : Host P)
      → AreFresh name ms
      → map id_of (stored name h.seq ms) ≡ generated P (length ms) h
  unfolding generated generate_id
  ids-stored name [] h f = refl
  ids-stored name ((p, body) ∷ ms) h f =
      rw f.0 (ap (◌∷◌ (next_id h.seq)) (ids-stored name ms (generate_id P h).0 f.2))

  AreFresh-middle :
      (name : Text) (xs ys : List Letter) (m : Letter)
      → AreFresh name (xs ++ m ∷ ys)
      → is_empty m.0.id ≡ true
  AreFresh-middle name [] ys m f = f.0
  AreFresh-middle name (x ∷ xs) ys m f = AreFresh-middle name xs ys m f.2

  -- The messages that stand before this one have other ids.
  new_id :
      (name : Text) (before after : List Letter) (m : Letter) (h : Host P)
      → AreFresh name (before ++ m ∷ after)
      → length (before ++ m ∷ after) ≤ 2 ^ 64
      → h.seq < 2 ^ 64
      → let sent = stored_at name (advance (length before) h.seq) m in
        listed (id_of sent) (map id_of (stored name h.seq before)) ≡ false
  new_id name before after m h f l b =
      let at = advance (length before) h.seq in
      let whole = before ++ m ∷ after in
      let distinct : AreDistinct (map id_of (stored name h.seq whole)) =
        rw (ids-stored name whole h f) (generated-AreDistinct P (length whole) h l b) in
      not-listed-before (map id_of (stored name h.seq before))
        (map id_of (stored name ((at + 1) % 2 ^ 64) after)) (id_of (stored_at name at m))
        (rw (← map-append id_of (stored name h.seq before) (stored name at (m ∷ after)))
          (rw (← stored-append name h.seq before (m ∷ after)) distinct))

  -- Messages without an id are published to an empty queue, up to 2^64 of them. The acknowledgement
  -- of any one, by the id that it got, takes that one out of the queue and leaves all the others, in
  -- order.
  pub basic_ack-publish_all :
      (name : Text) (before after : List Letter) (m : Letter) (h : Host P)
      → AreFresh name (before ++ m ∷ after)
      → contains name h.queue_messages ≡ true
      → queue_contents name h ≡ []
      → length (before ++ m ∷ after) ≤ 2 ^ 64
      → h.seq < 2 ^ 64
      → let at = advance (length before) h.seq in
        queue_contents name
          (basic_ack P name (next_id at) (publish_all name (before ++ m ∷ after) h))
        ≡ stored name h.seq before ++ stored name ((at + 1) % 2 ^ 64) after
  basic_ack-publish_all name before after m h f c e l b =
      let at = advance (length before) h.seq in
      let whole = before ++ m ∷ after in
      let h' = publish_all name whole h in
      let xs = stored name h.seq before in
      let ys = stored name ((at + 1) % 2 ^ 64) after in
      let sent = stored_at name at m in
      let held : queue_contents name h' ≡ xs ++ sent ∷ ys =
        queue_contents-publish_all name whole h f c
        ∙ (ap (λ (l : List Content). l ++ stored name h.seq whole) e
            ∙ stored-append name h.seq before (m ∷ after)) in
      let named : id_of sent ≡ next_id at = rw (AreFresh-middle name before after m f) refl in
      let ack = basic_ack_lem P name (next_id at) h' name in
      let taken : queue_contents name (basic_ack P name (next_id at) h')
          ≡ without_id (next_id at) (queue_contents name h') =
        ground (arith, ack, eq_refl name, is_empty-next_id at) in
      taken
      ∙ (ap (without_id (next_id at)) held
          ∙ (ap (λ (i : Text). without_id i (xs ++ sent ∷ ys)) (sym named)
              ∙ without_id-append xs ys sent (new_id name before after m h f l b)))
