-- ===== src/Host/Declared.antt =====
-- `declare_queue` of src/server/virtual_host.cpp on a queue that is new: what its status is.
use mq_work.Common.{◌≡◌, refl, ap, ◌∙◌, arith, Bool, true, false, some, none, []}
use mq_work.Common.Text.{Text}
use mq_work.Common.Dict.{find, find-put_same}
use mq_work.Platform.{Platform}
use mq_work.Queue.{MsgQueue, msg_queue}
use mq_work.Queue.Manager
use mq_work.Queue.Manager.{QueueStatus, get_queue_status}
use mq_work.Host.{Host, bind, bind_args, ensure_store, open_store, declare_queue}
use mq_work.Host.Setup.{contains-declare}

abbrev pub new_queue : Text → MsgQueue
new_queue q = msg_queue q false false false []

abbrev pub new_status : QueueStatus
new_status = record {
  is_there = true;
  durable = false;
  exclusive = false;
  auto_delete = false;
  args = [];
}

module _ (P : Platform) where
  queue_mgr-bind : (ex q key : Text) (h : Host P) → (bind P ex q key h).0.queue_mgr ≡ h.queue_mgr
  unfolding bind bind_args
  queue_mgr-bind ex q key h = ground arith

  queue_mgr-ensure :
      (q : Text) (d : Bool) (h : Host P) → (ensure_store P q d h).queue_mgr ≡ h.queue_mgr
  unfolding ensure_store open_store
  queue_mgr-ensure q d h = ground arith

  find-manager_new :
      (q : Text) (queues : Manager.QueueMap)
      → find q queues ≡ none
      → find q (Manager.declare_queue queues q false false false []).0 ≡ some (new_queue q)
  unfolding Manager.declare_queue
  find-manager_new q queues e = rw e (find-put_same q (new_queue q) queues)

  find-declare_new :
      (q : Text) (h : Host P)
      → find q h.queue_mgr ≡ none
      → find q (declare_queue P q false false false [] h).0.queue_mgr ≡ some (new_queue q)
  unfolding declare_queue
  find-declare_new q h e =
      let ok = (contains-declare P h.queue_mgr q false false false [] q).1 in
      let queues = (Manager.declare_queue h.queue_mgr q false false false []).0 in
      let h' : Host P = record h { queue_mgr = queues } in
      rw (ok, declare_queue)
        (ap (find q)
            (queue_mgr-bind [] q q (ensure_store P q false h') ∙ queue_mgr-ensure q false h')
          ∙ find-manager_new q h.queue_mgr e)

  -- The status of a queue that was just declared with no property and no argument.
  pub status_new :
      (q : Text) (h : Host P)
      → find q h.queue_mgr ≡ none
      → get_queue_status (declare_queue P q false false false [] h).0.queue_mgr q ≡ new_status
  unfolding get_queue_status msg_queue
  status_new q h e = rw (find-declare_new q h e) refl
