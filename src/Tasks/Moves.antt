-- ===== src/Tasks/Moves.antt =====
-- Every method of the engine moves tasks along the state machine only.
use sman_server.Base.{
  ℕ, ◌≡◌, refl, sym, ◌∙◌, String, Bool, true, false, not, ◌&&◌, ◌||◌, Option, none, some,
  some-injective, List, [], ◌∷◌, ◌==◌, string_eq, option_eq, nat_eq, exists_where, ltb, map, length,
  Bool-cases, inl, inr, if◌then◌else◌,
}
use sman_server.Tasks.Types.{
  TaskStatus, confirmed, dispatched, stopping, cancelled, evaluating, TaskRecord,
  TaskAssignmentRecord, Metadata, TaskDb, Env, Outcome, returned, thrown, M, ◌>>=◌, pure, modify,
  task_status_eq,
}
use sman_server.Tasks.Machine.{
  get_task, update_task, insert_event, transition_status, status_is_storable,
}
use sman_server.Tasks.Store.{assign_task, set_result, set_error, increment_retry}
use sman_server.Tasks.Assignments.{
  CreateAssignmentParams, insert_assignment, insert_assignments, create_assignments, commit,
  claimed_by, is_claimable, claim_found, new_assignment,
}
use sman_server.Tasks.Engine.{
  dispatch_task, if_assigned, cancel_found, stop_found, fail_found, fail_finally, retry_task,
  retry_after, is_infra_error, retry_limit, assign_first, dispatch_found, dispatched_with,
}
use sman_server.Tasks.Dispatch.{
  confirm_and_dispatch, dispatch_confirmed, AgentWork, to_params, Dispatched,
}
use sman_server.Tasks.Keeps.{
  Step, Lets, Way, Follows, Follows-same, Follows-trans, update_task-Follows, Keeps, pure-Keeps,
  bind-Keeps, transition_status-Keeps,
}

module _ {E : Step} where
  module _ {A : Type 0} where
    if-Keeps : (b : Bool) (m n : M A) → Keeps E m → Keeps E n → Keeps E (if b then m else n)
    if-Keeps true m n f g = f
    if-Keeps false m n f g = g

    pub if_assigned-Keeps :
        (agent : String) (a : A) (m : M A) (o : Option TaskRecord)
        → Keeps E m
        → Keeps E (if_assigned agent a m o)
    if_assigned-Keeps agent a m none h = pure-Keeps a
    if_assigned-Keeps agent a m (some t) h =
        if-Keeps (t.assigned_to == some agent) m (pure a) h (pure-Keeps a)

  -- A write of other columns than the status.
  module _ (env : Env) (task_id : String) where
    quiet :
        (f : TaskRecord → TaskRecord)
        → ((t : TaskRecord) → ((f t).id ≡ t.id) × ((f t).status ≡ t.status))
        → (s : TaskDb) → Follows E s (update_task task_id f s)
    quiet f h s =
        update_task-Follows task_id f (λ t. (h t).0) s (λ t _. rw (h t).1 Way.stay)
          (λ t g. rw (h t).1 g)

    pub set_result-Keeps : (result : String) → Keeps E (modify (set_result env task_id result))
    unfolding set_result
    set_result-Keeps result s = quiet _ (λ t. (refl, refl)) s

    set_error-Keeps : (error : String) → Keeps E (modify (set_error env task_id error))
    unfolding set_error
    set_error-Keeps error s = quiet _ (λ t. (refl, refl)) s

    increment_retry-Keeps : Keeps E (increment_retry env task_id)
    unfolding increment_retry
    increment_retry-Keeps s = quiet _ (λ t. (refl, refl)) s

    assign_task-Keeps : (agent : String) → Keeps E (assign_task env task_id agent)
    unfolding assign_task
    assign_task-Keeps agent s = quiet _ (λ t. (refl, refl)) s

    pub insert_event-Keeps :
        (event : String) (actor : Option String) (m : Metadata)
        → Keeps E (modify (insert_event env task_id event actor m))
    unfolding insert_event
    insert_event-Keeps event actor m s = Follows-same s _ refl

    null : Keeps E (pure {A = Option TaskRecord} none)
    null s = Follows-same s s refl

    -- The methods.
    pub cancel_found-Keeps :
        Lets E task_id cancelled
        → (by : String) (o : Option TaskRecord) → Keeps E (cancel_found env task_id by o)
    cancel_found-Keeps lets by none = null
    cancel_found-Keeps lets by (some t) =
        if-Keeps (t.status == TaskStatus.completed || t.status == cancelled)
          (pure {A = Option TaskRecord} none)
          (transition_status env task_id cancelled (some by)
            (Metadata.of_reason (some "user_cancel")))
          null
          (transition_status-Keeps env task_id cancelled (some by)
            (Metadata.of_reason (some "user_cancel")) lets)

    pub stop_found-Keeps :
        (by : String) (o : Option TaskRecord) → Keeps E (stop_found env task_id by o)
    stop_found-Keeps by none = null
    stop_found-Keeps by (some t) =
        if-Keeps (not (t.status == dispatched) && not (t.status == TaskStatus.running))
          (pure {A = Option TaskRecord} none)
          (transition_status env task_id stopping (some by) Metadata.no_metadata) null
          (transition_status-Keeps env task_id stopping (some by) Metadata.no_metadata never)
      where
        never : Lets E task_id stopping
        never e = unfold status_is_storable in absurd (cc (e))

    fail_finally-Keeps :
        Lets E task_id TaskStatus.failed
        → (agent error : String) → Keeps E (fail_finally env task_id agent error)
    fail_finally-Keeps lets agent error =
        transition_status-Keeps env task_id TaskStatus.failed (some agent)
          (Metadata.of_error error false) lets

    retry_after-Keeps :
        Lets E task_id TaskStatus.failed
        → Lets E task_id evaluating
        → (agent error : String) (n : ℕ) (o : Option TaskRecord)
        → Keeps E (retry_after env task_id agent error n o)
    retry_after-Keeps lets again agent error n none = fail_finally-Keeps lets agent error
    retry_after-Keeps lets again agent error n (some t) =
        bind-Keeps (transition_status env task_id evaluating none (Metadata.of_retry n))
          (λ _ s. (returned (get_task task_id s), s))
          (transition_status-Keeps env task_id evaluating none (Metadata.of_retry n) again)
          (λ _ s. Follows-same s s refl)

    retry_task-Keeps :
        Lets E task_id TaskStatus.failed
        → Lets E task_id evaluating
        → (agent error : String) → Keeps E (retry_task env task_id agent error)
    retry_task-Keeps lets again agent error =
        let fail =
          transition_status env task_id TaskStatus.failed (some agent)
            (Metadata.of_error error true) in
        bind-Keeps (increment_retry env task_id)
          (λ n. fail >>= retry_after env task_id agent error n) increment_retry-Keeps
          λ n.
            bind-Keeps fail (retry_after env task_id agent error n)
              (transition_status-Keeps env task_id TaskStatus.failed (some agent)
                (Metadata.of_error error true) lets)
              (retry_after-Keeps lets again agent error n)

    pub fail_found-Keeps :
        Lets E task_id TaskStatus.failed
        → Lets E task_id evaluating
        → (agent error : String) (o : Option TaskRecord)
        → Keeps E (fail_found env task_id agent error o)
    fail_found-Keeps lets again agent error none = null
    fail_found-Keeps lets again agent error (some t) =
        let retries = is_infra_error error && ltb t.retry_count (retry_limit t) in
        let fail : M (Option TaskRecord) =
          if retries
          then retry_task env task_id agent error
          else fail_finally env task_id agent error in
        if-Keeps (not (t.status == stopping) && not (t.assigned_to == some agent))
          (pure {A = Option TaskRecord} none) (modify (set_error env task_id error) >>= λ _. fail)
          null
          (bind-Keeps (modify (set_error env task_id error)) (λ _. fail) (set_error-Keeps error)
            λ _.
              if-Keeps retries (retry_task env task_id agent error)
                (fail_finally env task_id agent error) (retry_task-Keeps lets again agent error)
                (fail_finally-Keeps lets agent error))

    pub claim_found-Follows :
        ((a : TaskStatus) → is_claimable a ≡ true → E task_id a dispatched)
        → (agent : String) (o : Option TaskRecord) (s : TaskDb) → get_task task_id s ≡ o
        → Follows E s (claim_found env task_id agent o s).1
    unfolding claim_found insert_event
    claim_found-Follows claims agent none s k = Follows-same s s refl
    claim_found-Follows claims agent (some t) s k = elim (Bool-cases (is_claimable t.status)) [
      | inr n ↦ rw n (Follows-same s s refl)
      | inl y ↦ rw y (
          Follows-trans s (update_task task_id (claimed_by env agent) s) _
            (update_task-Follows task_id (claimed_by env agent) (λ u. refl) s
              (λ u e. Way.move Way.stay (claims u.status (rw (some-injective _ _ (sym e ∙ k)) y)))
              (λ u _ e. absurd (cc (e))))
            (Follows-same _ _ refl))
    ]

    pub insert_assignment-Keeps : (a : TaskAssignmentRecord) → Keeps E (insert_assignment a)
    unfolding insert_assignment
    insert_assignment-Keeps a s =
        elim (Bool-cases
          (exists_where (λ (b : TaskAssignmentRecord). b.id == a.id) s.task_assignments)) [
            | inl o ↦ rw o (Follows-same s s refl)
            | inr o ↦ rw o (Follows-same s _ refl)
          ]

    insert_assignments-Keeps :
        (assignments : List CreateAssignmentParams)
        → Keeps E (insert_assignments env task_id assignments)
    unfolding insert_assignments
    insert_assignments-Keeps [] s = Follows-same s s refl
    insert_assignments-Keeps (a ∷ rest) s =
        let row = new_assignment env (env.random_uuid s.draws) task_id a in
        bind-Keeps (insert_assignment row)
          (λ r. insert_assignments env task_id rest >>= λ rows. pure (r ∷ rows))
          (insert_assignment-Keeps row)
          (λ r.
            bind-Keeps (insert_assignments env task_id rest) (λ rows. pure (r ∷ rows))
              (insert_assignments-Keeps rest) (λ rows. pure-Keeps (r ∷ rows)))
          s

    commit-Follows :
        (s : TaskDb) (r : Outcome (List TaskAssignmentRecord) × TaskDb)
        → Follows E s r.1
        → Follows E s (commit s r).1
    commit-Follows s (returned a, t) f = f
    commit-Follows s (thrown x, t) f = Follows-same s s refl

    create_assignments-Keeps :
        (assignments : List CreateAssignmentParams)
        → Keeps E (create_assignments env task_id assignments)
    unfolding create_assignments
    create_assignments-Keeps assignments =
        let log = modify (
          insert_event env task_id "dispatched" none
            (Metadata.of_assignments (length assignments))) in
        bind-Keeps (λ s. commit s (insert_assignments env task_id assignments s))
          (λ created. log >>= λ _. pure created)
          (λ s. commit-Follows s _ (insert_assignments-Keeps assignments s))
          (λ created.
            bind-Keeps log (λ _. pure created) (insert_event-Keeps _ _ _) (λ _. pure-Keeps created))

    assign_first-Keeps :
        (rows : List TaskAssignmentRecord) → Keeps E (assign_first env task_id rows)
    assign_first-Keeps [] = pure-Keeps tt
    assign_first-Keeps (a ∷ rest) =
        bind-Keeps (assign_task env task_id a.agent_id) (λ _. pure tt)
          (assign_task-Keeps a.agent_id) (λ _. pure-Keeps tt)

    dispatch_found-Keeps :
        Lets E task_id dispatched
        → (assignments : List CreateAssignmentParams) (actor : String) (o : Option TaskRecord)
        → Keeps E (dispatch_found env task_id assignments actor o)
    dispatch_found-Keeps lets assignments actor none = λ s. Follows-same s s refl
    dispatch_found-Keeps lets assignments actor (some t) =
        let agents = map (λ (a : CreateAssignmentParams). a.agent_id) assignments in
        let finish = λ (created : List TaskAssignmentRecord).
          transition_status env task_id dispatched (some actor)
            (Metadata.of_dispatch (length created) agents)
          >>= λ u. pure (dispatched_with env task_id created u) in
        let rest = λ (created : List TaskAssignmentRecord).
          assign_first env task_id created >>= λ _. finish created in
        if-Keeps (not (t.status == confirmed)) (pure {A = Dispatched} none)
          (create_assignments env task_id assignments >>= rest) (λ s. Follows-same s s refl)
          (bind-Keeps (create_assignments env task_id assignments) rest
            (create_assignments-Keeps assignments)
            λ created.
              bind-Keeps (assign_first env task_id created) (λ _. finish created)
                (assign_first-Keeps created)
                λ _.
                  bind-Keeps
                    (transition_status env task_id dispatched (some actor)
                      (Metadata.of_dispatch (length created) agents))
                    (λ u. pure (dispatched_with env task_id created u))
                    (transition_status-Keeps env task_id dispatched (some actor)
                      (Metadata.of_dispatch (length created) agents) lets)
                    (λ u. pure-Keeps (dispatched_with env task_id created u)))

    pub dispatch_task-Keeps :
        Lets E task_id dispatched
        → (assignments : List CreateAssignmentParams) (actor : String)
        → Keeps E (dispatch_task env task_id assignments actor)
    unfolding dispatch_task
    dispatch_task-Keeps lets assignments actor s =
        dispatch_found-Keeps lets assignments actor (get_task task_id s) s

    dispatch_confirmed-Keeps :
        Lets E task_id dispatched
        → (work : List (String × AgentWork)) (o : Option TaskRecord)
        → Keeps E (dispatch_confirmed env task_id work o)
    dispatch_confirmed-Keeps lets work none s = Follows-same s s refl
    dispatch_confirmed-Keeps lets work (some t) s =
        dispatch_task-Keeps lets (map to_params work) "auto" s

    pub confirm_and_dispatch-Keeps :
        Lets E task_id confirmed
        → Lets E task_id dispatched
        → (work : List (String × AgentWork)) → Keeps E (confirm_and_dispatch env task_id work)
    unfolding confirm_and_dispatch
    confirm_and_dispatch-Keeps confirms lets [] s = Follows-same s s refl
    confirm_and_dispatch-Keeps confirms lets (w ∷ work) s =
        bind-Keeps (transition_status env task_id confirmed (some "auto") Metadata.no_metadata)
          (dispatch_confirmed env task_id (w ∷ work))
          (transition_status-Keeps env task_id confirmed (some "auto") Metadata.no_metadata
            confirms)
          (dispatch_confirmed-Keeps lets (w ∷ work)) s
