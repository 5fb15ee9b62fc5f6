-- ===== src/Connection.antt =====
-- src/server/connection.hpp and src/server/connection.cpp: a connection with its channels, and the
-- manager of all connections. A text stands for a `TcpConnectionPtr`, and `std::chrono::steady_clock`
-- is read as a number of nanoseconds, which is an argument.
pub mod Timeout
pub mod Manager
use mq_work.Common.{ℕ, ◌-◌, ◌*◌, ◌^◌, Bool, true, Option, List, [], ◌∷◌, ltb}
use mq_work.Common.Text.{Text}
use mq_work.Platform.{Platform}
use mq_work.Channel.{Channel, World, close}
use mq_work.Channel
use mq_work.Channel.Opened.{Channels}
use mq_work.Channel.Opened

pub record Connection : Type 0 where
  pub conn : Text
  pub channels : Channels
  pub last_active : ℕ

-- The constructor.
unfoldable pub connection : Text → ℕ → Connection
connection conn now = record { conn = conn; channels = []; last_active = now }

-- `std::chrono::seconds`
abbrev pub seconds : ℕ → ℕ
seconds n = n * 10 ^ 9

unfoldable pub refresh : ℕ → Connection → Connection
refresh now c = record c { last_active = now }

-- The clock never goes back, so the difference is not negative.
unfoldable pub expired : ℕ → ℕ → Connection → Bool
expired timeout now c = ltb timeout (now - c.last_active)

unfoldable pub select_channel : Text → Connection → Option Channel
select_channel cid c = Opened.select_channel cid c.channels

module _ (P : Platform) where
  unfoldable pub open_channel : Text → Text → Connection → World P → Connection × World P
  open_channel rid cid c w =
      let (channels, ok) = Opened.open_channel c.conn cid c.channels in
      (record c { channels = channels }, Channel.basic_response c.conn ok rid cid w)

  unfoldable pub close_channel : Text → Text → Connection → World P → Connection × World P
  close_channel rid cid c w =
      let (channels, w') = Opened.close_channel P cid c.channels w in
      (record c { channels = channels }, Channel.basic_response c.conn true rid cid w')

  -- The destructor, which drops the channel manager and each of its channels.
  unfoldable pub drop_channels : Channels → World P → World P
  drop_channels [] w = w
  drop_channels ((_, ch) ∷ channels) w = drop_channels channels (close P ch w)
