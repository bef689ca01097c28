-- ===== src/Accounts/Breaker.antt =====
-- circuit-breaker.ts. A method takes the breaker, and the time where the code reads the clock, and
-- returns the breaker that it leaves. Times are milliseconds; a clock that runs back makes
-- `now - last` negative in the code, which is below the timeout, and 0 here, which is too.
pub mod States
use sman_server.Base.{ℕ, ◌+◌, ◌-◌, Bool, true, false, ◌||◌, Option, none, some, leb, if◌then◌else◌}
use sman_server.Accounts.Rejects.{RejectResult, reject}

pub data CircuitState : Type 0 where
  closed open_circuit half_open : CircuitState

pub record CircuitBreaker : Type 0 where
  pub state : CircuitState
  pub failure_count : ℕ
  pub success_count : ℕ
  pub last_failure_time : ℕ

-- DEFAULT_CONFIG.
abbrev pub failure_threshold : ℕ
failure_threshold = 5

abbrev pub success_threshold : ℕ
success_threshold = 3

abbrev pub timeout : ℕ
timeout = 30000

unfoldable pub new_breaker : CircuitBreaker
new_breaker = record { state = closed; failure_count = 0; success_count = 0; last_failure_time = 0 }

abbrev is_open : CircuitState → Bool
is_open open_circuit = true
is_open s = false

abbrev is_half_open : CircuitState → Bool
is_half_open half_open = true
is_half_open s = false

-- `none` where the code returns null: the call may go on.
unfoldable pub can_execute : ℕ → CircuitBreaker → Option RejectResult × CircuitBreaker
can_execute now b =
    if is_open b.state
    then (if leb timeout (now - b.last_failure_time)
        then (none, record b { state = half_open; success_count = 0 })
        else (some (reject "E002" none), b))
    else (none, b)

unfoldable pub record_success : CircuitBreaker → CircuitBreaker
record_success b =
    let c = record b { failure_count = 0 } in
    if is_half_open c.state
    then (let n = c.success_count + 1 in
        if leb success_threshold n
        then record c { state = closed; success_count = 0 }
        else record c { success_count = n })
    else c

unfoldable pub record_failure : ℕ → CircuitBreaker → CircuitBreaker
record_failure now b =
    let c = record b { failure_count = b.failure_count + 1; last_failure_time = now } in
    if is_half_open c.state || leb failure_threshold c.failure_count
    then record c { state = open_circuit }
    else c

-- `getState`.
pub get_state : CircuitBreaker → CircuitState
get_state b = b.state

pub reset : CircuitBreaker → CircuitBreaker
reset b = record b { state = closed; failure_count = 0; success_count = 0 }
