-- ===== src/Accounts/Faults.antt =====
-- What the accounts' code throws: its own errors, and those of the constraints of its tables.
use sman_server.Base.{String}
use sman_server.Base.Int.{ℤ}

pub data Fault : Type 0 where
  -- `Account not found or not active: <id>`, of updateBalance.
  not_active : String → Fault
  -- `Balance would go negative — aborted`.
  would_go_negative : Fault
  -- CHECK(balance >= 0), CHECK(amount > 0).
  check_failed : String → Fault
  -- PRIMARY KEY and UNIQUE.
  unique_failed : String → Fault
  -- `Account not found: <id>`, of the account engine.
  not_found : String → Fault
  freeze_closed : Fault
  close_positive : ℤ → Fault

-- A call returns, or throws.
pub data Result (A : Type 0) : Type 0 where
  ok : A → Result A
  err : Fault → Result A
