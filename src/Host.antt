-- ===== src/Host.antt =====
-- src/server/virtual_host.hpp and virtual_host.cpp: the broker's state, and its operations on
-- exchanges, queues and bindings. Publishing and consuming stand in the modules below.
pub mod Publish
pub mod Consume
pub mod View
pub mod Pulling
pub mod Delivery
pub mod Loop
pub mod Routing
pub mod Fanout
pub mod Pull
pub mod DeadLetter
pub mod Invariant
pub mod Setup
pub mod History
pub mod Redeclare
pub mod Sizes
pub mod PublishedSizes
pub mod Order
pub mod Ids
pub mod Acknowledged
pub mod Declared
use mq_work.Common.{
  ℕ, suc, ◌+◌, ◌/◌, ◌%◌, ◌^◌, Bool, true, false, not, ◌||◌, Option, none, some, List, [], ◌∷◌, ◌++◌,
  zero, ltb, if◌then◌else◌,
}
use mq_work.Common.Text.{Text}
use mq_work.Common.Dict.{Dict, find, put, erase, contains}
use mq_work.Proto.{ExchangeType, direct, Args}
use mq_work.Queue.{DeadLetterConfig}
use mq_work.Queue.Manager.{QueueMap}
use mq_work.Queue.Manager
use mq_work.Storage.{QueueMessage, queue_message, recovery}
use mq_work.Platform.{Platform}

-- src/common/binding.hpp
pub record Binding : Type 0 where
  pub exchange_name : Text
  pub queue_name : Text
  pub binding_key : Text
  pub binding_args : Args

-- `msg_queue_binding_map`: the bindings of an exchange by queue.
abbrev pub BindingMap : Type 0
BindingMap = Dict Binding

-- `disk` holds the files of queues that have no message store, and `seq` the counter of
-- `generate_id`. The path of a file is taken to be fixed by the name of its queue.
pub record VirtualHost (E : Type 0) : Type 0 where
  pub exchange_mgr : E
  pub queue_mgr : QueueMap
  pub exchange_bindings : Dict BindingMap
  pub queue_messages : Dict QueueMessage
  pub disk : Dict (List ℕ)
  pub seq : ℕ

-- `std::to_string` of a `uint64_t`, which has at most twenty digits.
unfoldable pub digits : ℕ → ℕ → Text
digits zero n = []
digits (suc fuel) n =
    let rest = digits fuel (n / 10) in
    if ltb n 10 then (b'0' + n) ∷ [] else rest ++ (b'0' + n % 10) ∷ []

unfoldable pub to_string : ℕ → Text
to_string n = digits 20 n

abbrev pub map_of : Option BindingMap → BindingMap
map_of none = []
map_of (some m) = m

-- The file of a store stays on the disk when the store goes.
abbrev pub leave_file : Text → Option QueueMessage → Dict (List ℕ) → Dict (List ℕ)
leave_file name none disk = disk
leave_file name (some q) disk = put name q.file.contents disk

-- The loop over all exchanges.
unfoldable pub erase_bindings : Text → Dict BindingMap → Dict BindingMap
erase_bindings name [] = []
erase_bindings name ((ex, m) ∷ rest) = (ex, erase name m) ∷ erase_bindings name rest

module _ (P : Platform) where
  open P use {Exchanges, Exchange, new_exchanges, exists_exchange, codec, can_open}

  abbrev pub Host : Type 0
  Host = VirtualHost Exchanges

  unfoldable pub generate_id : Host → Host × Text
  generate_id h = let n = (h.seq + 1) % 2 ^ 64 in (record h { seq = n }, to_string n)

  -- A new message store on the file of the queue, which `recovery` reads if asked to.
  unfoldable pub open_store : Text → Bool → Host → Host
  open_store name recover h =
      let fresh = queue_message (can_open name) (find name h.disk) in
      let store = if recover then recovery codec fresh else fresh in
      record h { queue_messages = put name store h.queue_messages; disk = erase name h.disk }

  -- The loop of the constructor over the queues that the manager has loaded.
  unfoldable pub recover_queues : QueueMap → Host → Host
  recover_queues [] h = h
  recover_queues ((name, q) ∷ queues) h = recover_queues queues (open_store name true h)

  -- The constructor, on a disk with these files and with the counter at this value.
  unfoldable pub virtual_host : Dict (List ℕ) → ℕ → Host
  virtual_host disk seq =
      let exchanges =
        if exists_exchange new_exchanges []
        then new_exchanges
        else (P.declare_exchange new_exchanges [] direct false false []).0 in
      recover_queues Manager.queue_manager (record {
        exchange_mgr = exchanges;
        queue_mgr = Manager.queue_manager;
        exchange_bindings = [];
        queue_messages = [];
        disk = disk;
        seq = seq;
      })

  unfoldable pub declare_exchange : Text → ExchangeType → Bool → Bool → Args → Host → Host × Bool
  declare_exchange name type durable auto_delete args h =
      let (m, r) = P.declare_exchange h.exchange_mgr name type durable auto_delete args in
      (record h { exchange_mgr = m }, r)

  unfoldable pub delete_exchange : Text → Host → Host
  delete_exchange name h = record h {
    exchange_bindings = erase name h.exchange_bindings;
    exchange_mgr = P.delete_exchange h.exchange_mgr name;
  }

  unfoldable pub select_exchange : Text → Host → Option Exchange
  select_exchange name h = P.select_exchange h.exchange_mgr name

  unfoldable pub bind_args : Text → Text → Text → Args → Host → Host × Bool
  bind_args exchange_name queue_name binding_key binding_args h =
      let old = map_of (find exchange_name h.exchange_bindings) in
      let b : Binding = record {
        exchange_name = exchange_name;
        queue_name = queue_name;
        binding_key = binding_key;
        binding_args = binding_args;
      } in
      if not (exists_exchange h.exchange_mgr exchange_name)
        || not (Manager.exists_queue h.queue_mgr queue_name)
      then (h, false)
      else (
        record h {
          exchange_bindings = put exchange_name (put queue_name b old) h.exchange_bindings;
        },
        true,
      )

  -- The overload without arguments, which makes a binding whose arguments are empty.
  unfoldable pub bind : Text → Text → Text → Host → Host × Bool
  bind exchange_name queue_name binding_key h = bind_args exchange_name queue_name binding_key [] h

  unfoldable pub unbind : Text → Text → Host → Host
  unbind exchange_name queue_name h = elim (find exchange_name h.exchange_bindings) [
    | none ↦ h
    | some m ↦ record h {
      exchange_bindings = put exchange_name (erase queue_name m) h.exchange_bindings;
    }
  ]

  unfoldable pub exchange_bindings : Text → Host → BindingMap
  exchange_bindings exchange_name h = map_of (find exchange_name h.exchange_bindings)

  -- The part that both declarations share once the manager has the queue.
  unfoldable pub ensure_store : Text → Bool → Host → Host
  ensure_store name durable h =
      if contains name h.queue_messages then h else open_store name durable h

  unfoldable pub declare_queue : Text → Bool → Bool → Bool → Args → Host → Host × Bool
  declare_queue name durable exclusive auto_delete args h =
      let (queues, r) = Manager.declare_queue h.queue_mgr name durable exclusive auto_delete args in
      let h' = ensure_store name durable (record h { queue_mgr = queues }) in
      if not r then (record h { queue_mgr = queues }, false) else ((bind [] name name h').0, true)

  unfoldable pub declare_queue_with_dlq :
      Text → Bool → Bool → Bool → Args → DeadLetterConfig → Host → Host × Bool
  declare_queue_with_dlq name durable exclusive auto_delete args dlq_config h =
      let (queues, r) =
        Manager.declare_queue_with_dlq h.queue_mgr name durable exclusive auto_delete args
          dlq_config in
      let h' = ensure_store name durable (record h { queue_mgr = queues }) in
      if not r then (record h { queue_mgr = queues }, false) else (h', true)

  unfoldable pub delete_queue : Text → Host → Host
  delete_queue name h = record h {
    queue_messages = erase name h.queue_messages;
    disk = leave_file name (find name h.queue_messages) h.disk;
    queue_mgr = Manager.delete_queue h.queue_mgr name;
    exchange_bindings = erase_bindings name h.exchange_bindings;
  }

  unfoldable pub exists_queue : Text → Host → Bool
  exists_queue name h = Manager.exists_queue h.queue_mgr name

  unfoldable pub all_queues : Host → QueueMap
  all_queues h = h.queue_mgr
