-- ===== src/Tasks/Keeps.antt =====
-- What every method of the tasks keeps, whether it returns or throws: a task stays, and its status
-- moves along the state machine.
use sman_server.Base.{
  ◌≡◌, ◌≢◌, refl, sym, subst, ◌∙◌, ap, String, true, Option, none, some, some-injective, ◌==◌,
  ==_iff, string_eq, arith, All, All-update_where, All-weaken, find_where-true,
  find_where-update_where, map_option, Bool-cases, inl, inr, if◌then◌else◌,
}
use sman_server.Tasks.Types.{
  TaskStatus, stopping, TaskRecord, Metadata, TaskDb, Env, Outcome, returned, thrown, M, ◌>>=◌,
  continue, pure, task_status_eq,
}
use sman_server.Tasks.Machine.{
  allows, get_task, update_task, task_with_id, insert_event, set_status, status_is_storable,
  transition_status, transition_found, write_status,
}

-- One step of a task of an id from one status to another.
abbrev pub Step : Type 1
Step = String → TaskStatus → TaskStatus → Type 0

abbrev pub IsStored : TaskRecord → Type 0
IsStored t = t.status ≢ stopping

module _ (E : Step) where
  -- The ways of a task from one status to another, by such steps.
  pub data Way (id : String) : TaskStatus → TaskStatus → Type 0 where
    stay : {a : TaskStatus} → Way id a a
    move : {a b c : TaskStatus} → Way id a b → E id b c → Way id a c

  -- Each task is still there, with a status that the old one leads to; and where no task was
  -- `stopping`, none is.
  pub record Follows (s s' : TaskDb) : Type 0 where
    pub kept :
        (id : String) (t : TaskRecord)
        → get_task id s ≡ some t
        → (t' : TaskRecord) × (get_task id s' ≡ some t') × Way id t.status t'.status
    pub stored : All IsStored s.tasks → All IsStored s'.tasks

  -- A method keeps, whatever it is called on.
  abbrev pub Keeps : {A : Type 0} → M A → Type 0
  Keeps m = (s : TaskDb) → Follows s (m s).1

  -- The steps have every transition to `n` that is allowed, if the table can store it.
  abbrev pub Lets : String → TaskStatus → Type 0
  Lets id n = status_is_storable n ≡ true → (a : TaskStatus) → allows a n ≡ true → E id a n

-- The update of one row.
module _ (id : String) (f : TaskRecord → TaskRecord) (same : (t : TaskRecord) → (f t).id ≡ t.id)
    (s : TaskDb) where
  pub get_task-update_task :
      (j : String)
      → get_task j (update_task id f s)
        ≡ map_option (λ t. if task_with_id id t then f t else t) (get_task j s)
  unfolding get_task update_task
  get_task-update_task j =
      find_where-update_where (task_with_id j) (task_with_id id) f s.tasks
        (λ t. ap (λ (k : String). k == j) (same t))

module _ {E : Step} where
  pub Way-trans : {id : String} {a b c : TaskStatus} → Way E id a b → Way E id b c → Way E id a c
  Way-trans w Way.stay = w
  Way-trans w (Way.move v h) = Way.move (Way-trans w v) h

  pub Follows-same : (s s' : TaskDb) → s'.tasks ≡ s.tasks → Follows E s s'
  unfolding get_task
  Follows-same s s' e = record { kept = λ id t k. (t, rw e k, Way.stay); stored = λ h. rw e h }

  pub Follows-trans : (s t u : TaskDb) → Follows E s t → Follows E t u → Follows E s u
  Follows-trans s t u f g = record {
    kept = λ id a k.
        let (b, kb, wb) = f.kept id a k in
        let (c, kc, wc) = g.kept id b kb in (c, kc, Way-trans wb wc);
    stored = λ h. g.stored (f.stored h);
  }

  -- The update of one row, by a function that knows the row it read.
  module _ (id : String) (f : TaskRecord → TaskRecord) (same : (t : TaskRecord) → (f t).id ≡ t.id)
      (s : TaskDb) where
    pub update_task-Follows :
        ((t : TaskRecord) → get_task id s ≡ some t → Way E id t.status (f t).status)
        → ((t : TaskRecord) → IsStored t → IsStored (f t))
        → Follows E s (update_task id f s)
    unfolding get_task update_task
    update_task-Follows way store = record {
      kept = λ j t k. elim (Bool-cases (t.id == id)) [
        | inl y ↦
            let mine : t.id ≡ id = (==_iff t.id id).0 y in
            let jd : t.id ≡ j = (==_iff t.id j).0 (find_where-true (task_with_id j) s.tasks k) in
            (
              f t,
              get_task-update_task id f same s j ∙ rw (k, y) refl,
              subst (λ (i : String). Way E i t.status (f t).status) (sym mine ∙ jd)
                  (way t (subst (λ (i : String). get_task i s ≡ some t) (sym jd ∙ mine) k)),
            )
        | inr y ↦ (t, get_task-update_task id f same s j ∙ rw (k, y) refl, Way.stay)
      ];
      stored = λ h.
          All-update_where IsStored (task_with_id id) f s.tasks
            (All-weaken IsStored (λ t. task_with_id id t ≡ true → IsStored (f t)) s.tasks
              (λ t g _. store t g) h)
            h;
    }

  module _ {A : Type 0} where
    pub pure-Keeps : (a : A) → Keeps E (pure a)
    pure-Keeps a s = Follows-same s s refl

  module _ {A B : Type 0} where
    continue-Follows :
        (k : A → M B) (s : TaskDb) (r : Outcome A × TaskDb)
        → ((a : A) → Keeps E (k a))
        → Follows E s r.1
        → Follows E s (continue k r).1
    continue-Follows k s (returned a, t) h f = Follows-trans s t _ f (h a t)
    continue-Follows k s (thrown x, t) h f = f

    pub bind-Keeps :
        (m : M A) (k : A → M B) → Keeps E m → ((a : A) → Keeps E (k a)) → Keeps E (m >>= k)
    bind-Keeps m k f h s = continue-Follows k s (m s) h (f s)

  module _ (env : Env) (task_id : String) (new_status : TaskStatus) (actor : Option String)
      (metadata : Metadata) (lets : Lets E task_id new_status) where
    write_status-Follows :
        (t : TaskRecord) (s : TaskDb)
        → get_task task_id s ≡ some t
        → allows t.status new_status ≡ true
        → Follows E s (write_status env task_id new_status actor metadata t s).1
    unfolding write_status insert_event
    write_status-Follows t s k h = elim (Bool-cases (status_is_storable new_status)) [
      | inr n ↦ rw n (Follows-same s s refl)
      | inl y ↦ rw y (
          Follows-trans s (update_task task_id (set_status env new_status t.started_at) s) _
            (update_task-Follows task_id (set_status env new_status t.started_at) (λ u. refl) s
              (λ u e. Way.move Way.stay (lets y u.status (rw (some-injective _ _ (sym e ∙ k)) h)))
              (λ u _ e. stops new_status y e))
            (Follows-same _ _ refl))
    ]
      where
        stops : (n : TaskStatus) → status_is_storable n ≡ true → n ≢ stopping
        stops n = unfold status_is_storable in ground arith

    transition_found-Follows :
        (o : Option TaskRecord) (s : TaskDb)
        → get_task task_id s ≡ o
        → Follows E s (transition_found env task_id new_status actor metadata o s).1
    unfolding transition_found
    transition_found-Follows none s k = Follows-same s s refl
    transition_found-Follows (some t) s k = elim (Bool-cases (allows t.status new_status)) [
      | inl h ↦ rw h (write_status-Follows t s k h)
      | inr n ↦ rw n (Follows-same s s refl)
    ]

    pub transition_status-Keeps : Keeps E (transition_status env task_id new_status actor metadata)
    unfolding transition_status
    transition_status-Keeps s = transition_found-Follows (get_task task_id s) s refl
