-- ===== src/Scheduler/Commands.antt =====
-- Each active workspace is queued for its first client, once a day, and given out once.
use sman_server.Base.{
  ◌≡◌, ◌≢◌, refl, sym, ◌∙◌, ap, subst, String, Bool, true, false, not, ◌||◌, Option, none, some,
  some-injective, List, [], ◌∷◌, ◌++◌, ◌==◌, ==_iff, ==_refl, string_eq, nat_eq, option_eq,
  or_default, exists_where, if◌then◌else◌, All, arith, Bool-cases, inl, inr,
}
use sman_server.Base.Int.{pos}
use sman_server.Base.Maps.{value_of, value_of-set_entry, value_of-delete_entry}
use sman_server.Scheduler.{
  SkillScheduler, Clock, Client, ActiveWorkspace, equals, add_log, commands_of, get_commands,
  queue_first, with_workspace, pending_of, queue, dispatch_to_all_workspaces, tick,
}

abbrev pub holds : String → List String → Bool
holds w ws = exists_where (λ (v : String). v == w) ws

module _ (client : String) (s : SkillScheduler) where
  commands_of_lem :
      (o : Option (List String))
      → value_of client s.pending_commands ≡ o
      → let (given, after) = commands_of client o s in
        (given ≡ or_default o [])
        × (pending_of client after ≡ [])
        × ((other : String) → other ≢ client → pending_of other after ≡ pending_of other s)
  unfolding commands_of
  commands_of_lem none k = (refl, rw k refl, λ other n. refl)
  commands_of_lem (some ws) k = (
    refl,
    rw (value_of-delete_entry client client s.pending_commands, ==_refl client) refl,
    λ other n.
        let apart : (client == other) ≡ false = ground (arith, ==_iff client other) in
        rw (value_of-delete_entry other client s.pending_commands, apart) refl,
  )

  -- A client gets all the workspaces that are pending for it, and after that none is pending for it;
  -- what is pending for the other clients stays.
  pub get_commands_lem :
      let (given, after) = get_commands client s in
      (given ≡ pending_of client s)
      × (pending_of client after ≡ [])
      × ((other : String) → other ≢ client → pending_of other after ≡ pending_of other s)
  unfolding get_commands
  get_commands_lem = commands_of_lem (value_of client s.pending_commands) refl

holds-append : (v w : String) (ws : List String) → holds v (ws ++ w ∷ []) ≡ (holds v ws || w == v)
unfolding exists_where
holds-append v w [] = elim (Bool-cases (w == v)) [ inl y ↦ rw y refl | inr n ↦ rw n refl ]
holds-append v w (x ∷ ws) = elim (Bool-cases (x == v)) [
  | inl y ↦ rw y refl
  | inr n ↦ rw n (holds-append v w ws)
]

with_workspace-holds : (w : String) (ws : List String) → holds w (with_workspace w ws) ≡ true
with_workspace-holds w ws = elim (Bool-cases (holds w ws)) [
  | inl y ↦ rw y y
  | inr n ↦ rw n (holds-append w w ws ∙ rw (n, ==_refl w) refl)
]

with_workspace-keeps :
    (v w : String) (ws : List String) → holds v ws ≡ true → holds v (with_workspace w ws) ≡ true
with_workspace-keeps v w ws h = elim (Bool-cases (holds w ws)) [
  | inl y ↦ rw y h
  | inr n ↦ rw n (holds-append v w ws ∙ rw h refl)
]

-- `clients[0]`.
abbrev pub first_of : List Client → Option Client
first_of [] = none
first_of (c ∷ cs) = some c

abbrev pub HasClient : ActiveWorkspace → Type 0
HasClient a = first_of a.clients ≢ none

-- The workspace is pending for its first client.
abbrev pub IsQueued : SkillScheduler → ActiveWorkspace → Type 0
IsQueued s a =
    (c : Client) → first_of a.clients ≡ some c → holds a.workspace (pending_of c.client_id s) ≡ true

module _ (project_name : String → String) (clock : Clock) where
  queue-pending :
      (w : String) (c : Client) (s : SkillScheduler) (j : String)
      → pending_of j (queue project_name clock w c s)
        ≡ (if c.client_id == j then with_workspace w (pending_of c.client_id s) else pending_of j s)
  unfolding queue add_log
  queue-pending w c s j = elim (Bool-cases (c.client_id == j)) [
    | inl y ↦
        rw
          (
            value_of-set_entry j c.client_id (with_workspace w (pending_of c.client_id s))
                s.pending_commands,
            y,
          )
          refl
    | inr n ↦
        rw
          (
            value_of-set_entry j c.client_id (with_workspace w (pending_of c.client_id s))
                s.pending_commands,
            n,
          )
          refl
  ]

  queue-keeps :
      (w v : String) (c : Client) (s : SkillScheduler) (j : String)
      → holds v (pending_of j s) ≡ true
      → holds v (pending_of j (queue project_name clock w c s)) ≡ true
  queue-keeps w v c s j h = elim (Bool-cases (c.client_id == j)) [
    | inl y ↦
        rw (queue-pending w c s j, y)
          (with_workspace-keeps v w _ (rw ((==_iff c.client_id j).0 y) h))
    | inr n ↦ rw (queue-pending w c s j, n) h
  ]

  abbrev run_loop : List ActiveWorkspace → SkillScheduler → SkillScheduler
  run_loop = dispatch_to_all_workspaces project_name clock

  -- What the loop keeps, if each turn keeps it.
  dispatch-keeps :
      (P : SkillScheduler → Type 0)
      → ((w : String) (c : Client) (s : SkillScheduler) → P s → P (queue project_name clock w c s))
      → (active : List ActiveWorkspace) (s : SkillScheduler) → P s
      → P (run_loop active s)
  unfolding dispatch_to_all_workspaces
  dispatch-keeps P turn [] s h = h
  dispatch-keeps P turn (a ∷ rest) s h = first a.clients (dispatch-keeps P turn rest)
    where
      first :
          (cs : List Client)
          → ((u : SkillScheduler) → P u → P (run_loop rest u))
          → P (queue_first project_name clock (run_loop rest) a.workspace cs s)
      first [] k = h
      first (c ∷ others) k = k _ (turn a.workspace c s h)

  queues_first :
      (rest : List ActiveWorkspace) (w : String) (cs : List Client) (s : SkillScheduler)
      (c : Client)
      → first_of cs ≡ some c
      → holds w (pending_of c.client_id (queue_first project_name clock (run_loop rest) w cs s))
        ≡ true
  queues_first rest w [] s c e = absurd (cc (e))
  queues_first rest w (d ∷ others) s c e =
      let same : d ≡ c = some-injective _ _ e in
      subst
        (λ (c : Client).
          holds w (pending_of c.client_id (run_loop rest (queue project_name clock w d s))) ≡ true)
        same
        (dispatch-keeps (λ u. holds w (pending_of d.client_id u) ≡ true)
          (λ v b u h. queue-keeps v w b u d.client_id h) rest _
          (rw (queue-pending w d s d.client_id, ==_refl d.client_id) (with_workspace-holds w _)))

  after_first :
      (Q : SkillScheduler → Type 0) (rest : List ActiveWorkspace) (w : String) (cs : List Client)
      (s : SkillScheduler)
      → first_of cs ≢ none
      → ((u : SkillScheduler) → Q (run_loop rest u))
      → Q (queue_first project_name clock (run_loop rest) w cs s)
  after_first Q rest w [] s n k = absurd (n refl)
  after_first Q rest w (c ∷ others) s n k = k _

  dispatch-queues :
      (active : List ActiveWorkspace) (s : SkillScheduler)
      → All HasClient active
      → All (IsQueued (run_loop active s)) active
  unfolding dispatch_to_all_workspaces
  dispatch-queues [] s h = tt
  dispatch-queues (a ∷ rest) s h = (
    queues_first rest a.workspace a.clients s,
    after_first (λ u. All (IsQueued u) rest) rest a.workspace a.clients s h.0
        (λ u. dispatch-queues rest u h.1),
  )

  dispatch-last_run_date :
      (active : List ActiveWorkspace) (d : Option String) (s : SkillScheduler)
      → s.last_run_date ≡ d
      → (run_loop active s).last_run_date ≡ d
  unfolding queue add_log
  dispatch-last_run_date active d s h =
      dispatch-keeps (λ u. u.last_run_date ≡ d) (λ w c u e. e) active s h

  tick-runs :
      (active : List ActiveWorkspace) (s : SkillScheduler)
      → s.enabled ≡ true
      → equals (pos clock.hours) s.schedule_hour ≡ true
      → equals (pos clock.minutes) s.schedule_minute ≡ true
      → s.last_run_date ≢ some clock.today
      → tick project_name clock active s
        ≡ run_loop active (record s { last_run_date = some clock.today })
  unfolding tick
  tick-runs active s on hour minute new =
      let fresh : (s.last_run_date == some clock.today) ≡ false =
        ground (arith, ==_iff s.last_run_date (some clock.today)) in
      rw (on, hour, minute, fresh) refl

  tick-same_day :
      (active : List ActiveWorkspace) (s : SkillScheduler)
      → s.last_run_date ≡ some clock.today
      → tick project_name clock active s ≡ s
  unfolding tick
  tick-same_day active s h =
      let ran : (s.last_run_date == some clock.today) ≡ true =
        (==_iff s.last_run_date (some clock.today)).1 h in
      elim (Bool-cases s.enabled) [
        | inr off ↦ rw off refl
        | inl on ↦
            elim (Bool-cases (
              not (equals (pos clock.hours) s.schedule_hour)
              || not (equals (pos clock.minutes) s.schedule_minute))) [
                | inl other ↦ rw (on, other) refl
                | inr due ↦ rw (on, due, ran) refl
              ]
      ]

module _ (project_name : String → String) (clock : Clock) where
  -- When the scheduler is enabled, its time has come and it has not run on this day, each active
  -- workspace is pending for its first client after the tick, if each has a client; and every later
  -- tick of the same day, whatever is active then, changes nothing.
  pub tick_lem :
      (active : List ActiveWorkspace) (s : SkillScheduler)
      → s.enabled ≡ true
      → equals (pos clock.hours) s.schedule_hour ≡ true
      → equals (pos clock.minutes) s.schedule_minute ≡ true
      → s.last_run_date ≢ some clock.today
      → All HasClient active
      → let s1 = tick project_name clock active s in
        All (IsQueued s1) active
        × ((later : Clock) (active2 : List ActiveWorkspace)
            → later.today ≡ clock.today
            → tick project_name later active2 s1 ≡ s1)
  tick_lem active s on hour minute new h =
      let start = record s { last_run_date = some clock.today } in
      let ran = tick-runs project_name clock active s on hour minute new in
      subst
        (λ u.
          All (IsQueued u) active
          × ((later : Clock) (active2 : List ActiveWorkspace)
              → later.today ≡ clock.today
              → tick project_name later active2 u ≡ u))
        (sym ran)
        (
          dispatch-queues project_name clock active start h,
          λ later active2 e. tick-same_day project_name later active2 _ (
              dispatch-last_run_date project_name clock active (some clock.today) start refl
              ∙ ap some (sym e)),
        )
