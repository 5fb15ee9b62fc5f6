-- ===== src/Server/Disconnect.antt =====
-- src/server/broker_server.cpp: what is left of a client whose connection has gone.
use mq_work.Common.{ℕ, false, List, [], ◌∷◌, inl, inr, ◌≡◌, some, none, arith, ◌∙◌, ap, Bool-cases}
use mq_work.Common.Text.{Text, ◌==◌}
use mq_work.Common.Dict.{Dict, find, find-erase_same}
use mq_work.Platform.{Platform}
use mq_work.Host.{virtual_host, recover_queues, all_queues}
use mq_work.Channel.{Channel, World, close, ChannelRef}
use mq_work.Channel.Opened.{Channels}
use mq_work.Connection.{Connection, drop_channels}
use mq_work.Connection.Manager.{delete_connection}
use mq_work.Server.{broker_server, on_connection, init_consumers}
use mq_work.Server.Messages.{ServerEvent, steps}
use mq_work.Queue.Manager.{queue_manager}
use mq_work.Consumers.{Consumer}
use mq_work.Channel.Tagged.{
  IsTagged, is_tagged, tagged-close, tagged-close_later, close-IsTagged, consume-IsTagged,
  handle-IsTagged,
}
use mq_work.Server.Lifting.{AnyRequest, AllowsAll-any, steps-keeps}

module _ (P : Platform) where
  -- The tags are distinct in every state of a server.
  run-IsTagged :
      (disk : Dict (List ℕ)) (seq : ℕ) (es : List (ServerEvent × ℕ))
      → IsTagged P (steps P es (broker_server P disk seq)).broker
  unfolding broker_server virtual_host recover_queues queue_manager init_consumers all_queues find
  run-IsTagged disk seq es =
      steps-keeps P (IsTagged P) AnyRequest (λ conn r w s. s) (close-IsTagged P)
        (λ r ch w o. handle-IsTagged P r ch w) (consume-IsTagged P) es (broker_server P disk seq)
        (AllowsAll-any es) (λ n qc e. cc)

  tagged-drop_later :
      (tag qname : Text) (channels : Channels) (w : World P)
      → is_tagged tag qname w.consumers ≡ false
      → is_tagged tag qname (drop_channels P channels w).consumers ≡ false
  unfolding drop_channels
  tagged-drop_later tag qname [] w h = h
  tagged-drop_later tag qname ((k, ch) ∷ channels) w h =
      tagged-drop_later tag qname channels (close P ch w) (tagged-close_later P tag qname ch w h)

  tagged-drop_channels :
      (channels : Channels) (cid : Text) (ch : Channel) (c : Consumer ChannelRef) (w : World P)
      → find cid channels ≡ some ch
      → ch.consumer ≡ some c
      → IsTagged P w
      → is_tagged c.tag c.qname (drop_channels P channels w).consumers ≡ false
  unfolding drop_channels find
  tagged-drop_channels [] cid ch c w e h s = absurd (ground arith)
  tagged-drop_channels ((k, ch') ∷ channels) cid ch c w e h s = elim (Bool-cases (k == cid)) [
    | inl b ↦
        let same : ch' ≡ ch = ground (arith, b, e) in
        tagged-drop_later c.tag c.qname channels (close P ch' w)
          (tagged-close P ch' c w (ap (λ (x : Channel). x.consumer) same ∙ h) s)
    | inr b ↦
        tagged-drop_channels channels cid ch c (close P ch' w) (ground (arith, b, e)) h
          (close-IsTagged P ch' w s)
  ]

  -- When a connection ends, in any state that a new server can reach, it is gone from the map, and
  -- each of its channels takes the consumer that it holds out of the list of its queue: no consumer
  -- of that queue has its tag any more.
  pub run-disconnects :
      (disk : Dict (List ℕ)) (seq : ℕ) (es : List (ServerEvent × ℕ)) (now : ℕ) (conn cid : Text)
      (t : Connection) (ch : Channel) (c : Consumer ChannelRef)
      → let s = steps P es (broker_server P disk seq) in
        find conn s.connections ≡ some t
        → find cid t.channels ≡ some ch
        → ch.consumer ≡ some c
        → let s' = on_connection P conn false now s in
          (find conn s'.connections ≡ none) × (is_tagged c.tag c.qname s'.broker.consumers ≡ false)
  unfolding on_connection delete_connection
  run-disconnects disk seq es now conn cid t ch c e f h =
      let s = steps P es (broker_server P disk seq) in
      rw (e, delete_connection)
        (
          find-erase_same conn s.connections,
          tagged-drop_channels t.channels cid ch c s.broker f h (run-IsTagged disk seq es),
        )
