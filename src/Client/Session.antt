-- ===== src/Client/Session.antt =====
-- src/client/client.cpp against src/server/broker_server.cpp: what the lines of a client do on the
-- server.
use mq_work.Common.{
  ℕ, ◌≡◌, refl, ap, ◌∙◌, Bool, true, false, some, none, List, [], ◌∷◌, ◌++◌, if◌then◌else◌,
}
use mathlib.Core.List.{append_assoc}
use mq_work.Common.Text.{Text, codes, eq_refl}
use mq_work.Common.Dict.{find, put, contains, find-put_same}
use mq_work.Platform.{Platform}
use mq_work.Channel.{Channel, Sent, common_response, basic_response, declare_queue}
use mq_work.Channel.Served.{contains-declare_queue}
use mq_work.Channel.Opened
use mq_work.Connection.{Connection, open_channel, select_channel, refresh}
use mq_work.Connection.Manager.{select_connection}
use mq_work.Server.{Server, with_connection, with_channel, on_open_channel, on_declare_queue}
use mq_work.Server.Messages.{on_message, on_request}
use mq_work.Client.{sends, prints_unknown, stops_loop, does_nothing, run_line, is_blank}
use mq_work.Client.Words.{IsWord, lacks_blanks}
use mq_work.Client.Commands.{opens, declares_queue, typed, run_line-typed}

abbrev pub response : Text → Text → Text → Bool → Sent
response conn rid cid ok = record { conn = conn; reply = common_response rid cid ok }

pub zero-IsWord : IsWord (codes "0")
unfolding lacks_blanks is_blank
zero-IsWord = (refl, refl)

module _ (P : Platform) where
  -- The loop of the client over these lines, on a connection to this server.
  unfoldable pub session : Text → ℕ → List Text → Server P → Server P
  session conn now [] s = s
  session conn now (line ∷ lines) s =
      let next = session conn now lines in
      elim (run_line line) [
        | sends m ↦ next (on_message P conn now m s)
        | prints_unknown ↦ next s
        | does_nothing ↦ next s
        | stops_loop ↦ s
      ]

  pub session-open :
      (conn cid : Text) (now : ℕ) (lines : List Text) (s : Server P)
      → IsWord cid
      → session conn now (typed (opens cid) ∷ lines) s
        ≡ session conn now lines (on_open_channel P conn now (codes "cli-open-" ++ cid) cid s)
  unfolding session on_message
  session-open conn cid now lines s w = rw (run_line-typed (opens cid) (w, tt), session) refl

  pub session-declare :
      (conn q : Text) (now : ℕ) (lines : List Text) (s : Server P)
      → IsWord q
      → session conn now (typed (declares_queue q) ∷ lines) s
        ≡ session conn now lines (
            on_declare_queue P conn now
              (codes "cli-qdec-" ++ q)
              (codes "0")
              q
              false
              false
              false
              []
              s)
  unfolding session on_message on_request
  session-declare conn q now lines s w =
      rw (run_line-typed (declares_queue q) (w, tt), session) refl

  -- A queue is declared on a channel that is not open, and on one that is.
  declare-unopened :
      (conn : Text) (now : ℕ) (rid cid q : Text) (s : Server P) (c : Connection)
      → find conn s.connections ≡ some c
      → find cid c.channels ≡ none
      → (on_declare_queue P conn now rid cid q false false false [] s).broker ≡ s.broker
  unfolding on_declare_queue with_connection with_channel select_connection select_channel
      Opened.select_channel refresh
  declare-unopened conn now rid cid q s c e n = rw (e, with_connection, n, with_channel) refl

  pub declare-opened :
      (conn : Text) (now : ℕ) (rid cid q : Text) (s : Server P) (c : Connection) (ch : Channel)
      → find conn s.connections ≡ some c
      → find cid c.channels ≡ some ch
      → let s' = on_declare_queue P conn now rid cid q false false false [] s in
        (contains q s'.broker.host.queue_mgr ≡ true)
        × (s'.broker.sent ≡ s.broker.sent ++ response ch.conn rid cid true ∷ [])
  unfolding on_declare_queue with_connection with_channel select_connection select_channel
      Opened.select_channel declare_queue basic_response refresh
  declare-opened conn now rid cid q s c ch e n =
      let (there, ok) = contains-declare_queue P q false false false [] s.broker.host q in
      rw (e, with_connection, n, with_channel, ok, declare_queue)
        (
          there
              ∙ ap (λ (b : Bool). if b then true else contains q s.broker.host.queue_mgr)
                  (eq_refl q),
          refl,
        )

  -- The channel that is new is there, and the response was sent.
  pub open-unopened :
      (conn : Text) (now : ℕ) (rid cid : Text) (s : Server P) (c : Connection)
      → find conn s.connections ≡ some c
      → find cid c.channels ≡ none
      → let s' = on_open_channel P conn now rid cid s in
        let ch : Channel = record { conn = c.conn; cid = cid; consumer = none } in
        (find conn s'.connections
          ≡ some (record (refresh now c) { channels = put cid ch c.channels }))
        × (s'.broker.sent ≡ s.broker.sent ++ response c.conn rid cid true ∷ [])
  unfolding on_open_channel with_connection select_connection open_channel Opened.open_channel
      basic_response refresh
  open-unopened conn now rid cid s c e n =
      let ch : Channel = record { conn = c.conn; cid = cid; consumer = none } in
      let opened : Connection = record (refresh now c) { channels = put cid ch c.channels } in
      rw (e, with_connection, n, Opened.open_channel, open_channel)
        (find-put_same conn opened s.connections, refl)

  -- On a connection that the server knows and whose channel "0" is not open, the command to
  -- declare a queue does nothing, and gets no response. Typed behind the command that opens the
  -- channel, it declares the queue, and both commands are answered with `true`, in order. The name
  -- of the queue is a word without blanks.
  pub session-declares :
      (conn q : Text) (now : ℕ) (s : Server P) (c : Connection)
      → find conn s.connections ≡ some c
      → find (codes "0") c.channels ≡ none
      → IsWord q
      → let declare = typed (declares_queue q) in
        let s' = session conn now (typed (opens (codes "0")) ∷ declare ∷ []) s in
        ((session conn now (declare ∷ []) s).broker ≡ s.broker)
        × (contains q s'.broker.host.queue_mgr ≡ true)
        × (s'.broker.sent
            ≡ s.broker.sent
              ++ response c.conn (codes "cli-open-0") (codes "0") true
                ∷ response c.conn (codes "cli-qdec-" ++ q) (codes "0") true
                ∷ [])
  unfolding session
  session-declares conn q now s c e n w =
      let rid = codes "cli-open-0" in
      let zero_id = codes "0" in
      let ch : Channel = record { conn = c.conn; cid = zero_id; consumer = none } in
      let s1 = on_open_channel P conn now rid zero_id s in
      let (there, first) = open-unopened conn now rid zero_id s c e n in
      let found : find zero_id (put zero_id ch c.channels) ≡ some ch =
        find-put_same zero_id ch c.channels in
      let (declared, second) =
        declare-opened conn now (codes "cli-qdec-" ++ q) zero_id q s1 _ ch there found in
      let run =
        session-open conn zero_id now (typed (declares_queue q) ∷ []) s zero-IsWord
        ∙ session-declare conn q now [] s1 w in
      (
        ap (λ (t : Server P). t.broker) (session-declare conn q now [] s w)
            ∙ declare-unopened conn now (codes "cli-qdec-" ++ q) zero_id q s c e n,
        ap (λ (t : Server P). contains q t.broker.host.queue_mgr) run ∙ declared,
        ap (λ (t : Server P). t.broker.sent) run
            ∙ (second
                ∙ (ap
                      (λ (l : List Sent).
                        l ++ response c.conn (codes "cli-qdec-" ++ q) zero_id true ∷ [])
                      first
                    ∙ append_assoc s.broker.sent _ _)),
      )
