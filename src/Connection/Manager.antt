-- ===== src/Connection/Manager.antt =====
-- `connection_manager` of src/server/connection.cpp.
use mq_work.Common.{ℕ, Option, none, some, List, [], ◌∷◌, if◌then◌else◌}
use mq_work.Common.Text.{Text}
use mq_work.Common.Dict.{Dict, find, put, erase, contains}
use mq_work.Platform.{Platform}
use mq_work.Channel.{World}
use mq_work.Connection.{Connection, connection, refresh, expired, drop_channels}

abbrev pub Connections : Type 0
Connections = Dict Connection

unfoldable pub new_connection : Text → ℕ → Connections → Connections
new_connection conn now conns =
    if contains conn conns then conns else put conn (connection conn now) conns

unfoldable pub select_connection : Text → Connections → Option Connection
select_connection conn conns = find conn conns

unfoldable pub refresh_connection : Text → ℕ → Connections → Connections
refresh_connection conn now conns = elim (find conn conns) [
  | none ↦ conns
  | some c ↦ put conn (refresh now c) conns
]

-- The connections to shut down, in the order of the map.
unfoldable pub check_timeout : ℕ → ℕ → Connections → List Text
check_timeout timeout now [] = []
check_timeout timeout now ((conn, c) ∷ conns) =
    let to_close = check_timeout timeout now conns in
    if expired timeout now c then conn ∷ to_close else to_close

module _ (P : Platform) where
  -- The connection is destroyed as it leaves the map.
  unfoldable pub delete_connection : Text → Connections → World P → Connections × World P
  delete_connection conn conns w = elim (find conn conns) [
    | none ↦ (conns, w)
    | some c ↦ (erase conn conns, drop_channels P c.channels w)
  ]
