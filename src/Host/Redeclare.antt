-- ===== src/Host/Redeclare.antt =====
-- `delete_queue` of src/server/virtual_host.cpp leaves the file of the queue behind: what a durable
-- queue of the same name finds when it is declared again.
use mq_work.Common.{ℕ, arith, ◌≡◌, ap, ◌∙◌, Bool, true, Option, none, some, List, []}
use mq_work.Common.Text.{Text}
use mq_work.Common.Dict.{find, find-put_same, find-erase_same}
use mq_work.Proto.{Args, MessagePayload}
use mq_work.Queue.Manager
use mq_work.Platform.{Platform}
use mq_work.Storage.{QueueMessage, queue_message, recovery}
use mq_work.Storage.Framing.{IsCodec}
use mq_work.Storage.Recovery.{IsLogged, recovery_restores}
use mq_work.Host.{
  Host, leave_file, open_store, ensure_store, bind_args, bind, declare_queue, delete_queue,
}
use mq_work.Host.Setup.{contains-declare}

module _ (P : Platform) where
  queue_messages-bind :
      (ex q key : Text) (args : Args) (h : Host P)
      → (bind_args P ex q key args h).0.queue_messages ≡ h.queue_messages
  unfolding bind_args
  queue_messages-bind ex q key args h = ground arith

  store-ensure :
      (name : Text) (h : Host P)
      → find name h.queue_messages ≡ none
      → find name (ensure_store P name true h).queue_messages
        ≡ some (recovery P.codec (queue_message (P.can_open name) (find name h.disk)))
  unfolding ensure_store open_store
  store-ensure name h e = rw (e, ensure_store) (find-put_same name _ h.queue_messages)

  store-declare :
      (name : Text) (x a : Bool) (args : Args) (h : Host P)
      → find name h.queue_messages ≡ none
      → find name (declare_queue P name true x a args h).0.queue_messages
        ≡ some (recovery P.codec (queue_message (P.can_open name) (find name h.disk)))
  unfolding declare_queue bind
  store-declare name x a args h e =
      let ok = (contains-declare P h.queue_mgr name true x a args name).1 in
      let queues = (Manager.declare_queue h.queue_mgr name true x a args).0 in
      rw (ok, declare_queue)
        (ap (find name) (queue_messages-bind [] name name [] _)
          ∙ store-ensure name (record h { queue_mgr = queues }) e)

  -- A durable queue that is deleted and declared again has the messages of the deleted one, if the
  -- file agreed with them and can be opened.
  pub declare_queue-delete_queue :
      IsCodec P.codec
      → (name : Text) (x a : Bool) (args : Args) (h : Host P) (q : QueueMessage)
        (log : List MessagePayload)
      → find name h.queue_messages ≡ some q
      → IsLogged P.codec log q
      → P.can_open name ≡ true
      → (q' : QueueMessage) × ((find name
              (declare_queue P name true x a args (delete_queue P name h)).0.queue_messages
            ≡ some q')
          × (q'.msgs ≡ q.msgs))
  unfolding delete_queue
  declare_queue-delete_queue c name x a args h q log e l o =
      let bytes = q.file.contents in
      let gone : find name (delete_queue P name h).queue_messages ≡ none =
        find-erase_same name h.queue_messages in
      let left : find name (delete_queue P name h).disk ≡ some bytes =
        ap (λ (s : Option QueueMessage). find name (leave_file name s h.disk)) e
        ∙ find-put_same name bytes h.disk in
      (
        recovery P.codec (queue_message true (some bytes)),
        (
          store-declare name x a args (delete_queue P name h) gone
              ∙ (ap
                    (λ (f : Option (List ℕ)).
                      some (recovery P.codec (queue_message (P.can_open name) f)))
                    left
                  ∙ ap (λ (b : Bool). some (recovery P.codec (queue_message b (some bytes)))) o),
          recovery_restores P.codec c q log l,
        ),
      )
