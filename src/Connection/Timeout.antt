-- ===== src/Connection/Timeout.antt =====
-- Which connections the timer of src/server/connection.cpp shuts down.
use mq_work.Common.{ℕ, ◌≡◌, refl, ◌-◌, Bool, false, Option, none, some, [], ◌∷◌, arith, ltb}
use mq_work.Common.Text.{Text, eq_iff, listed}
use mq_work.Common.Dict.{find, DistinctKeys}
use mq_work.Connection.{Connection, expired}
use mq_work.Connection.Manager.{Connections, check_timeout}

-- Has this connection been idle for longer than the timeout?
abbrev pub is_idle : ℕ → ℕ → Option Connection → Bool
is_idle timeout now none = false
is_idle timeout now (some c) = ltb timeout (now - c.last_active)

listed-missing :
    (timeout now : ℕ) (conn : Text) (conns : Connections)
    → find conn conns ≡ none
    → listed conn (check_timeout timeout now conns) ≡ false
unfolding check_timeout find listed
listed-missing timeout now conn [] e = refl
listed-missing timeout now conn ((k, c) ∷ conns) e =
    ground (arith, listed-missing timeout now conn conns, eq_iff k conn)

-- The timer shuts down exactly the connections that were not refreshed for longer than the timeout.
pub listed-check_timeout :
    (timeout now : ℕ) (conns : Connections) (conn : Text)
    → DistinctKeys conns
    → listed conn (check_timeout timeout now conns) ≡ is_idle timeout now (find conn conns)
unfolding check_timeout find listed expired
listed-check_timeout timeout now [] conn d = refl
listed-check_timeout timeout now ((k, c) ∷ conns) conn d = ground (
  arith,
  listed-check_timeout timeout now conns conn d.1,
  listed-missing timeout now conn conns,
  eq_iff k conn,
)
