-- ===== src/Client/Heartbeat.antt =====
-- The thread of src/client/client.cpp that sends a heartbeat every five seconds, against the timer of
-- src/server/broker_server.cpp, which looks for connections that were silent for thirty seconds.
use mq_work.Common.{
  ℕ, ◌≡◌, refl, ap, ◌∙◌, ◌+◌, ◌≤◌, arith, true, false, some, none, List, [], ◌∷◌, ◌++◌, length,
  drop, drop-length-append,
}
use mq_work.Common.Text.{Text, codes, eq_refl, listed}
use mq_work.Common.Dict.{find, contains, DistinctKeys}
use mq_work.Platform.{Platform}
use mq_work.Connection.{seconds}
use mq_work.Server
use mq_work.Server.{Server}
use mq_work.Server.Messages.{
  heartbeat_request, Incoming, ServerEvent, connects, receives, ticks, pool_runs, step, steps,
}
use mq_work.Client.Lives.{
  is_elsewhere, arrivals, sent_between, Lives, joins, waits, beats, moves, happens,
}
use mq_work.Client.Responses.{ClientState, on_connection, heartbeat_round}
use mq_work.Client.Outgoing.{AreKnown, Moves-Sends, heartbeat_round-Sends}
use mq_work.Server.Alive.{IsAwake, is_harmless, step-IsAwake}
use mq_work.Server.Distinct.{step-DistinctKeys}
use mq_work.Server.Lifetime.{last_active_of, step-active, beat}

-- The client is connected to a server that keeps the connection, and the next heartbeat is in time.
record IsAlive (P : Platform) (conn : Text) (late : ℕ) (cl : ClientState) (s : Server P)
    (now due : ℕ) : Type 0 where
  connected : cl.conn ≡ some conn
  from : ℕ
  awake : IsAwake P conn from now s
  in_time : now ≤ due
  next : due ≤ from + (seconds 5 + late)

sent_between-added :
    (before after : ClientState) (ms : List (Text × Incoming)) (now : ℕ)
    → after.sent ≡ before.sent ++ ms
    → sent_between before after now ≡ arrivals now ms
sent_between-added before after ms now e =
    ap (arrivals now) (ap (drop (length before.sent)) e ∙ drop-length-append before.sent ms)

elsewhere-harmless :
    (conn : Text) (e : ServerEvent) → is_elsewhere conn e ≡ true → is_harmless conn e ≡ true
elsewhere-harmless conn (connects k true) b = refl
elsewhere-harmless conn (connects k false) b = b
elsewhere-harmless conn (receives k m) b = ground (arith, b)
elsewhere-harmless conn ticks b = refl
elsewhere-harmless conn (pool_runs q) b = refl

module _ (P : Platform) (conn : Text) (late : ℕ) where
  arrivals-IsAwake :
      (ms : List (Text × Incoming)) (from now : ℕ) (s : Server P)
      → AreKnown conn ms
      → now ≤ from + seconds 30
      → IsAwake P conn from now s
      → IsAwake P conn from now (steps P (arrivals now ms) s)
  unfolding steps
  arrivals-IsAwake [] from now s k n a = a
  arrivals-IsAwake ((c, m) ∷ ms) from now s k n a =
      arrivals-IsAwake ms from now _ k.2 n
        (step-IsAwake P conn (receives c m) from now s (ground (arith, k.1)) n a)

  joined-IsAwake :
      (now : ℕ) (s : Server P)
      → find conn s.connections ≡ none
      → DistinctKeys s.connections
      → listed conn s.shut ≡ false
      → IsAwake P conn now now (Server.on_connection P conn true now s)
  unfolding step Server.on_connection
  joined-IsAwake now s f d q = record {
    distinct = step-DistinctKeys P (connects conn true) now s d;
    quiet = q;
    last = now;
    beating =
        step-active P conn (connects conn true) now s
        ∙ (ap (λ c. beat conn (connects conn true) now (last_active_of c)) f
            ∙ ground (arith, eq_refl conn));
    since = omega arith;
    until = omega arith;
  }

  beaten-IsAwake :
      (cl : ClientState) (from now : ℕ) (s : Server P)
      → cl.conn ≡ some conn
      → now ≤ from + seconds 30
      → IsAwake P conn from now s
      → IsAwake P conn now now (steps P (sent_between cl (heartbeat_round cl) now) s)
  unfolding steps step
  beaten-IsAwake cl from now s c n a =
      let beat_event = receives conn (heartbeat_request (codes "hb")) in
      let after = step-IsAwake P conn beat_event from now s (ground arith) n a in
      rw (sent_between-added cl (heartbeat_round cl) _ now (heartbeat_round-Sends conn cl c).1)
        (record {
          distinct = after.distinct;
          quiet = after.quiet;
          last = now;
          beating =
              step-active P conn beat_event now s
              ∙ (ap (beat conn beat_event now) a.beating ∙ ground (arith, eq_refl conn));
          since = omega arith;
          until = omega arith;
        })

  Lives-IsAlive :
      {cl : ClientState} {s : Server P} {now due : ℕ}
      → late ≤ seconds 25
      → Lives P conn late cl s now due
      → IsAlive P conn late cl s now due
  unfolding on_connection
  Lives-IsAlive l (joins cl s now f d q) = record {
    connected = refl;
    from = now;
    awake = joined-IsAwake now s f d q;
    in_time = omega arith;
    next = omega arith;
  }
  Lives-IsAlive l (waits d h b) =
      let a = Lives-IsAlive l h in
      record {
        connected = a.connected;
        from = a.from;
        awake = record {
          distinct = a.awake.distinct;
          quiet = a.awake.quiet;
          last = a.awake.last;
          beating = a.awake.beating;
          since = a.awake.since;
          until = omega (arith, a.awake.until);
        };
        in_time = b;
        next = a.next;
      }
  Lives-IsAlive l (beats {cl = cl} {s = s} {now = now} h) =
      let a = Lives-IsAlive l h in
      record {
        connected = (heartbeat_round-Sends conn cl a.connected).0;
        from = now;
        awake =
            beaten-IsAwake cl a.from now s a.connected (omega (arith, a.in_time, a.next, l))
              a.awake;
        in_time = omega arith;
        next = omega arith;
      }
  Lives-IsAlive l (moves {cl = cl} {cl' = cl'} {s = s} {now = now} h m) =
      let a = Lives-IsAlive l h in
      let sent = Moves-Sends conn m a.connected in
      let early : now ≤ a.from + seconds 30 = omega (arith, a.in_time, a.next, l) in
      record {
        connected = sent.connected;
        from = a.from;
        awake =
            rw (sent_between-added cl cl' sent.messages now sent.added)
              (arrivals-IsAwake sent.messages a.from now s sent.known early a.awake);
        in_time = a.in_time;
        next = a.next;
      }
  Lives-IsAlive l (happens e {s = s} {now = now} h b) =
      let a = Lives-IsAlive l h in
      let early : now ≤ a.from + seconds 30 = omega (arith, a.in_time, a.next, l) in
      record {
        connected = a.connected;
        from = a.from;
        awake = step-IsAwake P conn e a.from now s (elsewhere-harmless conn e b) early a.awake;
        in_time = a.in_time;
        next = a.next;
      }

  -- A client program that has joined a server, and whose heartbeats arrive at most twenty-five
  -- seconds late, is never told to shut down and stays in the map of connections, as long as its user
  -- does not type `exit`: whatever else is typed, whatever the server answers, and whatever the other clients, the timer and the thread pool
  -- do. It was not connected and not told to shut down before.
  pub Lives-quiet :
      {cl : ClientState} {s : Server P} {now due : ℕ}
      → late ≤ seconds 25
      → Lives P conn late cl s now due
      → (listed conn s.shut ≡ false) × (contains conn s.connections ≡ true)
  Lives-quiet {s = s} l h =
      let a = (Lives-IsAlive l h).awake in (a.quiet, ground (arith, a.beating))
