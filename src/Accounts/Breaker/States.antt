-- ===== src/Accounts/Breaker/States.antt =====
-- The breaker as a state machine: what holds in each state, whatever is called, and how long each
-- way round takes.
use sman_server.Base.{
  ℕ, suc, ◌+◌, ◌-◌, ◌≤◌, ◌<◌, ◌≡◌, refl, sym, subst, ◌∙◌, ap, ◌++◌, All, Option, ◌↔◌, true, none,
  some, List, [], ◌∷◌, arith, is_some,
}
use sman_server.Accounts.Rejects.{RejectResult, reject}
use sman_server.Accounts.Breaker.{
  CircuitBreaker, closed, open_circuit, half_open, failure_threshold, success_threshold, timeout,
  new_breaker, can_execute, record_success, record_failure, reset,
}

-- A call of a method, with the time at which it runs.
pub data Call : Type 0 where
  ask : ℕ → Call
  succeeded : Call
  failed : ℕ → Call
  reset_call : Call

abbrev pub step : CircuitBreaker → Call → CircuitBreaker
step b (ask now) = (can_execute now b).1
step b succeeded = record_success b
step b (failed now) = record_failure now b
step b reset_call = reset b

abbrev pub run : CircuitBreaker → List Call → CircuitBreaker
run b [] = b
run b (c ∷ cs) = run (step b c) cs

-- The counters stay below the thresholds that would have changed the state.
pub record IsSound (b : CircuitBreaker) : Type 0 where
  pub below_failures : b.state ≡ closed → b.failure_count < failure_threshold
  pub below_successes : b.state ≡ half_open → b.success_count < success_threshold

new_breaker-IsSound : IsSound new_breaker
unfolding new_breaker
new_breaker-IsSound = ground arith

step-IsSound : (b : CircuitBreaker) (c : Call) → IsSound b → IsSound (step b c)
unfolding can_execute record_success record_failure reset
step-IsSound b (ask now) h = ground arith
step-IsSound b succeeded h = ground arith
step-IsSound b (failed now) h = ground arith
step-IsSound b reset_call h = ground arith

run_from-IsSound : (b : CircuitBreaker) (cs : List Call) → IsSound b → IsSound (run b cs)
run_from-IsSound b [] h = h
run_from-IsSound b (c ∷ cs) h = run_from-IsSound (step b c) cs (step-IsSound b c h)

-- Whatever is called on a new breaker, in any order and at any times, it is closed only with fewer
-- than five failures counted, and half open only with fewer than three successes counted.
pub run-IsSound : (cs : List Call) → IsSound (run new_breaker cs)
run-IsSound cs = run_from-IsSound new_breaker cs new_breaker-IsSound

-- A breaker refuses a call exactly when it is open and its last failure is less than thirty seconds
-- old, the refusal is E002, and a refused call leaves the breaker as it was.
pub can_execute-refuses_iff :
    (now : ℕ) (b : CircuitBreaker)
    → ((is_some (can_execute now b).0 ≡ true)
        ↔ ((b.state ≡ open_circuit) × (now - b.last_failure_time < timeout)))
      × (is_some (can_execute now b).0 ≡ true → can_execute now b ≡ (some (reject "E002" none), b))
unfolding can_execute
can_execute-refuses_iff now b = ground arith

-- A call that is not a success: the breaker is asked, or a failure is recorded.
abbrev pub IsUnsuccessful : Call → Type 0
IsUnsuccessful (ask now) = Unit {0}
IsUnsuccessful (failed now) = Unit {0}
IsUnsuccessful c = ⊥

abbrev pub failures_in : List Call → ℕ
failures_in [] = 0
failures_in (failed now ∷ cs) = suc (failures_in cs)
failures_in (c ∷ cs) = failures_in cs

abbrev pub asks : List ℕ → List Call
asks [] = []
asks (t ∷ ts) = ask t ∷ asks ts

run-append : (b : CircuitBreaker) (cs ds : List Call) → run b (cs ++ ds) ≡ run (run b cs) ds
run-append b [] ds = refl
run-append b (c ∷ cs) ds = run-append (step b c) cs ds

asked_closed : (now : ℕ) (b : CircuitBreaker) → b.state ≡ closed → (can_execute now b).1 ≡ b
unfolding can_execute
asked_closed now b s = ground (arith, s)

-- Below the threshold the breaker counts, and stays closed.
counts :
    (b : CircuitBreaker) (cs : List Call)
    → b.state ≡ closed
    → All IsUnsuccessful cs
    → b.failure_count + failures_in cs < failure_threshold
    → ((run b cs).state ≡ closed) × ((run b cs).failure_count ≡ b.failure_count + failures_in cs)
unfolding record_failure
counts b [] s u h = (s, omega arith)
counts b (ask now ∷ cs) s u h =
    subst
      (λ c.
        ((run c cs).state ≡ closed) × ((run c cs).failure_count ≡ b.failure_count + failures_in cs))
      (sym (asked_closed now b s)) (counts b cs s u.1 h)
counts b (failed now ∷ cs) s u h =
    let c = record_failure now b in
    let still : c.state ≡ closed = ground (arith, s) in
    let one : c.failure_count ≡ suc b.failure_count = ground (arith, s) in
    let rest = counts c cs still u.1 (rw one (omega arith)) in
    (rest.0, rest.1 ∙ rw one (omega arith))
counts b (succeeded ∷ cs) s u h = absurd u.0
counts b (reset_call ∷ cs) s u h = absurd u.0

opens :
    (now : ℕ) (b : CircuitBreaker)
    → suc b.failure_count ≡ failure_threshold
    → ((record_failure now b).state ≡ open_circuit)
      × ((record_failure now b).last_failure_time ≡ now)
unfolding record_failure
opens now b e = ground arith

-- An open breaker that is asked too early stays as it is.
asked_early :
    (now : ℕ) (b : CircuitBreaker) (ts : List ℕ)
    → b.state ≡ open_circuit
    → b.last_failure_time ≡ now
    → All (λ t. t - now < timeout) ts
    → run b (asks ts) ≡ b
asked_early now b [] s e h = refl
asked_early now b (t ∷ ts) s e h =
    let refuses = can_execute-refuses_iff t b in
    let same : (can_execute t b).1 ≡ b =
      ap (λ (r : Option RejectResult × CircuitBreaker). r.1)
        (refuses.1 (refuses.0.1 (s, rw e h.0))) in
    subst (λ c. run c (asks ts) ≡ b) (sym same) (asked_early now b ts s e h.1)

-- A closed breaker lets every call through as long as fewer than five failures are counted, and the
-- fifth opens it: whenever the failures come, and however often the breaker is asked between them,
-- as long as no success and no reset is. It then refuses every call of the thirty seconds after the
-- fifth failure, however often it is asked.
pub failures-open :
    (b : CircuitBreaker) (cs : List Call) (now later : ℕ) (ts : List ℕ)
    → b.state ≡ closed
    → All IsUnsuccessful cs
    → suc (b.failure_count + failures_in cs) ≡ failure_threshold
    → All (λ t. t - now < timeout) ts
    → later - now < timeout
    → ((can_execute later (run b cs)).0 ≡ none)
      × ((can_execute later (run b (cs ++ failed now ∷ asks ts))).0 ≡ some (reject "E002" none))
failures-open b cs now later ts s u e early t =
    let k = counts b cs s u (omega arith) in
    let o = opens now (run b cs) (rw k.1 e) in
    let c = record_failure now (run b cs) in
    let whole : run b (cs ++ failed now ∷ asks ts) ≡ c =
      run-append b cs (failed now ∷ asks ts) ∙ asked_early now c ts o.0 o.1 early in
    let refuses = can_execute-refuses_iff later c in
    (
      passes later (run b cs) k.0,
      rw whole (
          ap (λ (r : Option RejectResult × CircuitBreaker). r.0)
            (refuses.1 (refuses.0.1 (o.0, rw o.1 t)))),
    )
  where
    passes : (later : ℕ) (c : CircuitBreaker) → c.state ≡ closed → (can_execute later c).0 ≡ none
    passes later c h = unfold can_execute in ground (arith, h)

-- After the timeout the next call passes and half-opens the breaker; then three successes close it
-- with no failure counted, and one failure opens it again.
pub half_open_outcomes :
    (now later : ℕ) (b : CircuitBreaker)
    → b.state ≡ open_circuit
    → timeout ≤ now - b.last_failure_time
    → ((can_execute now b).0 ≡ none)
      × ((step b (ask now)).state ≡ half_open)
      × ((run b (ask now ∷ succeeded ∷ succeeded ∷ [])).state ≡ half_open)
      × ((run b (ask now ∷ succeeded ∷ succeeded ∷ succeeded ∷ [])).state ≡ closed)
      × ((run b (ask now ∷ succeeded ∷ succeeded ∷ succeeded ∷ [])).failure_count ≡ 0)
      × ((run b (ask now ∷ failed later ∷ [])).state ≡ open_circuit)
unfolding can_execute record_success record_failure
half_open_outcomes now later b s t = ground arith
