-- ===== src/Client/Outgoing.antt =====
-- src/client/client.cpp: what a client that is connected gives to the codec.
use mq_work.Common.{◌≡◌, refl, ap, ◌∙◌, sym, arith, Bool, true, some, List, [], ◌∷◌, ◌++◌}
use mathlib.Core.List.{append_assoc, append-nil}
use mq_work.Common.Text.{Text, codes}
use mq_work.Proto.{default_properties}
use mq_work.Channel.{
  Reply, common_response, consume_response, query_response, queue_status_response,
  heartbeat_response,
}
use mq_work.Server.Messages.{Incoming, heartbeat_request, channel_request}
use mq_work.Server.Lifetime.{is_sign}
use mq_work.Client.{
  next_word, ack_of, ClientAction, sends, prints_unknown, stops_loop, does_nothing, run_line,
  dispatch, open_command, close_command, exchange_declare_command, queue_declare_command,
  bind_command, publish_command, pull_command, consume_command, cancel_command,
  queue_status_command,
}
use mq_work.Client.Responses.{
  ClientState, on_reply, on_common_response, on_consume_response, on_query_response,
  on_queue_status_response, receive, heartbeat_round, Round, goes_on, leaves, faults, command_round,
}

-- The dispatcher of the server knows what an action sends.
abbrev is_safe : ClientAction → Bool
is_safe (sends m) = is_sign m
is_safe a = true

dispatch-is_safe : (cmd s : Text) → is_safe (dispatch cmd s) ≡ true
unfolding dispatch open_command close_command exchange_declare_command queue_declare_command
    bind_command publish_command pull_command consume_command cancel_command queue_status_command
dispatch-is_safe cmd s = ground arith

run_line-is_safe : (line : Text) → is_safe (run_line line) ≡ true
unfolding run_line
run_line-is_safe line = ground (arith, dispatch-is_safe (next_word line).0 (next_word line).1)

-- Messages on this connection that the server knows.
abbrev pub AreKnown : Text → List (Text × Incoming) → Type 0
AreKnown conn [] = Unit
AreKnown conn ((k, m) ∷ ms) = (k ≡ conn) × (is_sign m ≡ true) × AreKnown conn ms

AreKnown-append :
    (conn : Text) (xs ys : List (Text × Incoming))
    → AreKnown conn xs
    → AreKnown conn ys
    → AreKnown conn (xs ++ ys)
AreKnown-append conn [] ys h k = k
AreKnown-append conn (x ∷ xs) ys h k = (h.0, h.1, AreKnown-append conn xs ys h.2 k)

-- The client stays connected, and has sent these messages besides.
pub record Sends (conn : Text) (cl cl' : ClientState) : Type 0 where
  pub connected : cl'.conn ≡ some conn
  pub messages : List (Text × Incoming)
  pub added : cl'.sent ≡ cl.sent ++ messages
  pub known : AreKnown conn messages

Sends-none :
    (conn : Text) (cl cl' : ClientState)
    → cl'.conn ≡ some conn
    → cl'.sent ≡ cl.sent
    → Sends conn cl cl'
Sends-none conn cl cl' c e = record {
  connected = c;
  messages = [];
  added = e ∙ sym (append-nil cl.sent);
  known = tt;
}

Sends-trans : (conn : Text) (a b c : ClientState) → Sends conn a b → Sends conn b c → Sends conn a c
Sends-trans conn a b c f g = record {
  connected = g.connected;
  messages = f.messages ++ g.messages;
  added =
      g.added
      ∙ (ap (λ (l : List (Text × Incoming)). l ++ g.messages) f.added
          ∙ append_assoc a.sent f.messages g.messages);
  known = AreKnown-append conn f.messages g.messages f.known g.known;
}

on_reply-Sends :
    (conn : Text) (r : Reply) (cl : ClientState)
    → cl.conn ≡ some conn
    → Sends conn cl (on_reply r cl)
unfolding on_reply on_common_response on_consume_response on_query_response on_queue_status_response
on_reply-Sends conn (common_response rid cid ok) cl c = Sends-none conn cl _ c refl
on_reply-Sends conn (consume_response cid tag body id mode key) cl c =
    let bp = record default_properties { id = id; delivery_mode = mode; routing_key = key } in
    record {
      connected = rw (c, on_consume_response) c;
      messages = (conn, channel_request (ack_of cid tag bp)) ∷ [];
      added = rw (c, on_consume_response) refl;
      known = (refl, refl, tt);
    }
on_reply-Sends conn (query_response rid cid body) cl c = Sends-none conn cl _ c refl
on_reply-Sends conn (queue_status_response rid cid status) cl c = Sends-none conn cl _ c refl
on_reply-Sends conn (heartbeat_response rid) cl c = Sends-none conn cl _ c refl

receive-Sends :
    (conn : Text) (rs : List Reply) (cl : ClientState)
    → cl.conn ≡ some conn
    → Sends conn cl (receive rs cl)
unfolding receive
receive-Sends conn [] cl c = Sends-none conn cl cl c refl
receive-Sends conn (r ∷ rs) cl c =
    let first = on_reply-Sends conn r cl c in
    Sends-trans conn cl (on_reply r cl) _ first
      (receive-Sends conn rs (on_reply r cl) first.connected)

pub heartbeat_round-Sends :
    (conn : Text) (cl : ClientState)
    → cl.conn ≡ some conn
    → ((heartbeat_round cl).conn ≡ some conn)
      × ((heartbeat_round cl).sent ≡ cl.sent ++ (conn, heartbeat_request (codes "hb")) ∷ [])
unfolding heartbeat_round
heartbeat_round-Sends conn cl c = rw (c, heartbeat_round) (c, refl)

-- What the client does besides: it reads responses, or the user types a line.
pub data Moves (cl : ClientState) : ClientState → Type 0 where
  hears : (rs : List Reply) → Moves cl (receive rs cl)
  types : (line : Text) {cl' : ClientState} → command_round line cl ≡ goes_on cl' → Moves cl cl'

-- The client after a round of the loop.
abbrev state_after : ClientState → Round → ClientState
state_after cl (goes_on cl') = cl'
state_after cl (leaves cl') = cl'
state_after cl faults = cl

command_round-Sends :
    (conn line : Text) (cl : ClientState) (a : ClientAction)
    → cl.conn ≡ some conn
    → run_line line ≡ a
    → is_safe a ≡ true
    → Sends conn cl (state_after cl (command_round line cl))
unfolding command_round
command_round-Sends conn line cl (sends m) c e k = record {
  connected = rw (e, command_round, c) c;
  messages = (conn, m) ∷ [];
  added = rw (e, command_round, c) refl;
  known = (refl, k, tt);
}
command_round-Sends conn line cl prints_unknown c e k =
    Sends-none conn cl _ (rw (e, command_round) c) (rw (e, command_round) refl)
command_round-Sends conn line cl does_nothing c e k =
    Sends-none conn cl _ (rw (e, command_round) c) (rw (e, command_round) refl)
command_round-Sends conn line cl stops_loop c e k =
    Sends-none conn cl _ (rw (e, command_round) c) (rw (e, command_round) refl)

pub Moves-Sends :
    (conn : Text) {cl cl' : ClientState} → Moves cl cl' → cl.conn ≡ some conn → Sends conn cl cl'
Moves-Sends conn {cl = cl} (hears rs) c = receive-Sends conn rs cl c
Moves-Sends conn {cl = cl} (types line e) c =
    rw (ap (state_after cl) (sym e))
      (command_round-Sends conn line cl (run_line line) c refl (run_line-is_safe line))
