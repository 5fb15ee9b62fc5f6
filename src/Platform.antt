-- ===== src/Platform.antt =====
-- What the broker calls and this repository does not hold: `exchange_manager` (exchange.hpp),
-- `router::match_headers`, protobuf's serializing, and the file system's answer to opening a file.
-- The laws stand apart from the operations, and are asked for only where a result rests on them.
use mq_work.Common.{◌≡◌, Bool, true, false, Option, if◌then◌else◌, is_some}
use mq_work.Common.Text.{Text, ◌==◌}
use mq_work.Proto.{ExchangeType, Args}
use mq_work.Storage.Framing.{Codec}

pub record Platform : Type 1 where
  -- The state of an `exchange_manager`, and an `exchange`.
  pub Exchanges : Type 0
  pub Exchange : Type 0
  -- `exchange::type`
  pub exchange_type : Exchange → ExchangeType
  pub new_exchanges : Exchanges
  pub declare_exchange : Exchanges → Text → ExchangeType → Bool → Bool → Args → Exchanges × Bool
  pub delete_exchange : Exchanges → Text → Exchanges
  pub select_exchange : Exchanges → Text → Option Exchange
  pub exists_exchange : Exchanges → Text → Bool
  pub match_headers : Args → Args → Bool
  pub codec : Codec
  -- Whether the file of the queue with this name can be opened.
  pub can_open : Text → Bool

-- What test/test_pubsub.cpp expects of an `exchange_manager`.
pub record HasExchangeLaws (P : Platform) : Type 0 where
  pub exists-select :
      (m : P.Exchanges) (n : Text) → P.exists_exchange m n ≡ is_some (P.select_exchange m n)
  pub declare_keeps :
      (m : P.Exchanges) (n k : Text) (t : ExchangeType) (d a : Bool) (args : Args)
      → P.exists_exchange m k ≡ true
      → P.exists_exchange (P.declare_exchange m n t d a args).0 k ≡ true
  pub declare_there :
      (m : P.Exchanges) (n : Text) (t : ExchangeType) (d a : Bool) (args : Args)
      → (P.declare_exchange m n t d a args).1 ≡ true
      → P.exists_exchange (P.declare_exchange m n t d a args).0 n ≡ true
  pub exists-delete :
      (m : P.Exchanges) (n k : Text)
      → P.exists_exchange (P.delete_exchange m n) k
        ≡ (if n == k then false else P.exists_exchange m k)
