-- ===== src/Tasks/Effects.antt =====
-- What a transition, a completion and a claim leave.
use sman_server.Base.{
  ℕ, ◌<◌, ◌≤◌, ◌⊎◌, ◌≡◌, is_some, not, ◌&&◌, Bool, ◌≢◌, refl, ◌∙◌, ap, String, true, false, Option,
  none, some, some-injective, ◌==◌, ==_iff, ==_refl, string_eq, option_eq, arith, find_where-true,
  map_option, Bool-cases, inl, inr, if◌then◌else◌, leb,
}
use sman_server.Tasks.Types.{
  TaskStatus, stopping, running, completed, cancelled, queued, evaluating, dispatched, TaskRecord,
  Metadata, TaskDb, Env, Outcome, returned, M, task_status_eq,
}
use sman_server.Tasks.Machine.{
  allows, get_task, task_with_id, update_task, set_status, transition_status, transition_found,
  write_status, insert_event, event_name, status_is_storable,
}
use sman_server.Tasks.Store.{set_result, get_active_task_count}
use sman_server.Tasks.Assignments.{claim_task, claim_found, claimed_by, is_claimable}
use sman_server.Tasks.Engine.{complete_task, if_assigned}
use sman_server.Tasks.Turns.{Precedes, Precedes-allows, allows-Precedes}
use sman_server.Tasks.Keeps.{get_task-update_task}

-- An UPDATE changes the row of its id, and no other.
module _ (id : String) (f : TaskRecord → TaskRecord) (same : (t : TaskRecord) → (f t).id ≡ t.id)
    (s : TaskDb) where
  pub updated_task :
      (t : TaskRecord) → get_task id s ≡ some t → get_task id (update_task id f s) ≡ some (f t)
  unfolding get_task
  updated_task t k =
      get_task-update_task id f same s id ∙ rw (k, find_where-true (task_with_id id) s.tasks k) refl

  pub other_task : (j : String) → j ≢ id → get_task j (update_task id f s) ≡ get_task j s
  unfolding get_task
  other_task j n = get_task-update_task id f same s j ∙ unchanged (get_task j s) refl
    where
      unchanged :
          (o : Option TaskRecord)
          → get_task j s ≡ o
          → map_option (λ t. if task_with_id id t then f t else t) o ≡ o
      unchanged none e = refl
      unchanged (some t) e =
          let at_j : t.id ≡ j = (==_iff t.id j).0 (find_where-true (task_with_id j) s.tasks e) in
          let apart : (t.id == id) ≡ false = ground (arith, ==_iff t.id id) in rw apart refl

module _ (env : Env) (id : String) (actor : Option String) (m : Metadata) (n : TaskStatus)
    (s : TaskDb) where
  -- What a transition that is made leaves.
  pub record Moved (t t' : TaskRecord) (s' : TaskDb) : Type 0 where
    pub stored : get_task id s' ≡ some t'
    pub status : t'.status ≡ n
    pub updated : t'.updated_at ≡ env.now
    -- The first start is stamped, and a stamp that is there stays.
    pub first_start : n ≡ running → t.started_at ≡ none → t'.started_at ≡ some env.now
    pub later_start : (a : ℕ) → t.started_at ≡ some a → t'.started_at ≡ some a
    pub no_start : n ≢ running → t'.started_at ≡ t.started_at
    -- So is every end.
    pub ended : (n ≡ completed) ⊎ (n ≡ cancelled) → t'.completed_at ≡ some env.now
    pub not_ended : n ≢ completed → n ≢ cancelled → t'.completed_at ≡ t.completed_at
    pub same_columns : t' ≡ record t {
      status = n;
      updated_at = env.now;
      started_at = t'.started_at;
      completed_at = t'.completed_at;
    }
    pub others : (j : String) → j ≢ id → get_task j s' ≡ get_task j s

  row_moves :
      (t : TaskRecord) (s' : TaskDb)
      → get_task id s' ≡ some (set_status env n t.started_at t)
      → ((j : String) → j ≢ id → get_task j s' ≡ get_task j s)
      → Moved t (set_status env n t.started_at t) s'
  row_moves t s' k o = record {
    stored = k;
    status = refl;
    updated = refl;
    first_start = λ r e. rw (r, e) refl;
    later_start = λ a e. rw e (stays (n == running) e);
    no_start = λ r. ground (arith);
    ended = λ h. ground (arith);
    not_ended = λ c d. ground (arith);
    same_columns = refl;
    others = o;
  }
    where
      stays :
          (b : Bool) {a : ℕ}
          → t.started_at ≡ some a
          → (if b && not (is_some (some a)) then some env.now else some a) ≡ some a
      stays true e = refl
      stays false e = refl

  made :
      (t : TaskRecord) (o : Option TaskRecord)
      → o ≡ some t
      → get_task id s ≡ some t
      → allows t.status n ≡ true
      → status_is_storable n ≡ true
      → (t' : TaskRecord) × (s' : TaskDb) × (transition_found env id n actor m o s
          ≡ (returned (some t'), s'))
        × Moved t t' s'
  unfolding transition_found write_status insert_event get_task
  made t none e k h st = absurd (cc (e))
  made t (some u) e k h st =
      let f = set_status env n t.started_at in
      let now = updated_task id f (λ u. refl) s t k in
      let s1 = insert_event env id (event_name n) actor m (update_task id f s) in
      (
        f t,
        s1,
        rw (some-injective _ _ e, h, st) (ap (λ (o : Option TaskRecord). (returned o, s1)) now),
        row_moves t s1 now (other_task id f (λ u. refl) s),
      )

  refused_move :
      (t : TaskRecord) (o : Option TaskRecord)
      → o ≡ some t
      → allows t.status n ≡ false
      → transition_found env id n actor m o s ≡ (returned none, s)
  unfolding transition_found
  refused_move t none e h = absurd (cc (e))
  refused_move t (some u) e h = rw (some-injective _ _ e, h) refl

  -- A transition to a status other than stopping is made exactly where the task's status precedes the
  -- new one in the state machine: it then returns and stores the task with that status and the time of the
  -- update, where the first start and each completion or cancellation are stamped, an earlier start
  -- and every other column stay, and no other task changes. Where it is not allowed, or there is no
  -- task, it returns null and writes nothing.
  pub transition_status_lem :
      (n ≢ stopping
        → (t : TaskRecord) → get_task id s ≡ some t
        → (Precedes n t.status
            → (t' : TaskRecord) × (s' : TaskDb) × (transition_status env id n actor m s
                ≡ (returned (some t'), s'))
              × Moved t t' s')
          × (¬ Precedes n t.status → transition_status env id n actor m s ≡ (returned none, s)))
      × (get_task id s ≡ none → transition_status env id n actor m s ≡ (returned none, s))
  unfolding transition_status
  transition_status_lem = (
    λ q t k. (
      λ h. made t (get_task id s) k k (Precedes-allows t.status n h) (storable n q),
      λ h. refused_move t (get_task id s) k (not_allowed t.status h),
    ),
    λ k. rw k (missing s),
  )
    where
      storable : (n : TaskStatus) → n ≢ stopping → status_is_storable n ≡ true
      storable n q = unfold status_is_storable in ground arith

      not_allowed : (a : TaskStatus) → ¬ Precedes n a → allows a n ≡ false
      not_allowed a h = elim (Bool-cases (allows a n)) [
        | inl y ↦ absurd (h (allows-Precedes a n y))
        | inr y ↦ y
      ]

      missing : (s : TaskDb) → transition_found env id n actor m none s ≡ (returned none, s)
      missing s = unfold transition_found in refl

module _ (env : Env) (id agent result : String) (s : TaskDb) (t : TaskRecord) where
  abbrev with_result : TaskRecord → TaskRecord
  with_result t = record t { result = some result; updated_at = env.now }

  abbrev completed_in : TaskDb → Outcome (Option TaskRecord) × TaskDb
  completed_in u = transition_status env id completed (some agent) (Metadata.of_result result) u

  assigned_runs :
      (o : Option TaskRecord)
      → o ≡ some t
      → t.assigned_to ≡ some agent
      → {A : Type 0} → (a : A) (m : M A) → if_assigned agent a m o s ≡ m s
  assigned_runs none e h a m = absurd (cc (e))
  assigned_runs (some u) e h a m = rw (some-injective _ _ e, h, ==_refl agent) refl

  complete-eq :
      get_task id s ≡ some t
      → t.assigned_to ≡ some agent
      → complete_task env id agent result s ≡ completed_in (update_task id with_result s)
  unfolding complete_task set_result
  complete-eq k h = assigned_runs (get_task id s) k h _ _

  -- A task that runs is completed by its agent: it is returned and stored as completed, with the
  -- result and the time. On a task of the agent's that does not run the call returns null, but the
  -- result has been written over the old one all the same.
  pub complete_task_lem :
      get_task id s ≡ some t
      → t.assigned_to ≡ some agent
      → (t.status ≡ running
          → (t' : TaskRecord) × (s' : TaskDb) × (complete_task env id agent result s
              ≡ (returned (some t'), s'))
            × (get_task id s' ≡ some t')
            × (t'.status ≡ completed)
            × (t'.result ≡ some result)
            × (t'.completed_at ≡ some env.now))
        × (t.status ≢ running
            → (s' : TaskDb) × (complete_task env id agent result s ≡ (returned none, s'))
              × (get_task id s' ≡ some (record t { result = some result; updated_at = env.now })))
  complete_task_lem k h =
      let s1 = update_task id with_result s in
      let now = updated_task id with_result (λ u. refl) s t k in
      let whole = complete-eq k h in
      let rule =
        (transition_status_lem env id (some agent) (Metadata.of_result result) completed s1).0
          (λ e. cc) (with_result t) now in
      (
        λ r.
            let (t', s', e, mv) = rule.0 r in
            (
              t',
              s',
              whole ∙ e,
              mv.stored,
              mv.status,
              ap (λ (u : TaskRecord). u.result) mv.same_columns,
              mv.ended (inl refl),
            ),
        λ r. (s1, whole ∙ rule.1 r, now),
      )

module _ (env : Env) (id agent : String) (max_concurrent : ℕ) (s : TaskDb) where
  claim_found_lem :
      (t : TaskRecord) (o : Option TaskRecord)
      → o ≡ some t
      → get_task id s ≡ some t
      → (is_claimable t.status ≡ true
          → (s' : TaskDb) × (claim_found env id agent o s
              ≡ (returned (some (claimed_by env agent t)), s'))
            × (get_task id s' ≡ some (claimed_by env agent t))
            × ((j : String) → j ≢ id → get_task j s' ≡ get_task j s))
        × (is_claimable t.status ≡ false → claim_found env id agent o s ≡ (returned none, s))
  unfolding claim_found insert_event get_task
  claim_found_lem t none e k = absurd (cc (e))
  claim_found_lem t (some u) e k =
      let f = claimed_by env agent in
      let now = updated_task id f (λ u. refl) s t k in
      let s1 =
        insert_event env id "claimed" (some agent) Metadata.no_metadata (update_task id f s) in
      (
        λ h. (
          s1,
          rw (some-injective _ _ e, h) (ap (λ (o : Option TaskRecord). (returned o, s1)) now),
          now,
          other_task id f (λ u. refl) s,
        ),
        λ h. rw (some-injective _ _ e, h) refl,
      )

  -- An agent gets a task by a claim exactly where it has fewer active tasks than it may have and the
  -- task is queued or evaluating: the task is then returned and stored as dispatched to the agent,
  -- with the time of the update and its other columns as they were, and no other task changes.
  -- Otherwise the claim returns null and writes nothing.
  pub claim_task_lem :
      (t : TaskRecord)
      → get_task id s ≡ some t
      → (get_active_task_count agent s < max_concurrent
          → (t.status ≡ queued) ⊎ (t.status ≡ evaluating)
          → (t' : TaskRecord) × (s' : TaskDb) × (claim_task env id agent max_concurrent s
              ≡ (returned (some t'), s'))
            × (get_task id s' ≡ some t')
            × (t'
                ≡ record t { assigned_to = some agent; status = dispatched; updated_at = env.now })
            × ((j : String) → j ≢ id → get_task j s' ≡ get_task j s))
        × ((max_concurrent ≤ get_active_task_count agent s)
              ⊎ ((t.status ≢ queued) × (t.status ≢ evaluating))
            → claim_task env id agent max_concurrent s ≡ (returned none, s))
  unfolding claim_task
  claim_task_lem t k =
      let room : get_active_task_count agent s < max_concurrent
          → leb max_concurrent (get_active_task_count agent s) ≡ false =
        (λ h. ground arith) in
      let full : max_concurrent ≤ get_active_task_count agent s
          → leb max_concurrent (get_active_task_count agent s) ≡ true =
        (λ h. ground arith) in
      let found = claim_found_lem t (get_task id s) k k in
      (
        λ h c.
            let (s', e, k', o) = found.0 (open_to t.status c) in
            (claimed_by env agent t, s', rw (room h) e, k', refl, o),
        λ h. elim h [
          | inl f ↦ rw (full f) refl
          | inr c ↦ elim (Bool-cases (leb max_concurrent (get_active_task_count agent s))) [
            | inl y ↦ rw y refl
            | inr y ↦ rw y (found.1 (closed_to t.status c))
          ]
        ],
      )
    where
      open_to : (a : TaskStatus) → (a ≡ queued) ⊎ (a ≡ evaluating) → is_claimable a ≡ true
      open_to a c = ground arith

      closed_to : (a : TaskStatus) → (a ≢ queued) × (a ≢ evaluating) → is_claimable a ≡ false
      closed_to a c = ground arith
