-- ===== src/Hub/History.antt =====
-- Whatever happens to the hub, in whatever order, with whatever clock, sockets and random draws, and
-- whether a handler returns or throws: its maps stay sound.
use sman_server.Base.{
  ℕ, ◌<◌, String, ◌≡◌, refl, ap, ◌∙◌, true, Bool-cases, Option, none, some, List, [], ◌∷◌, ◌==◌,
  ==_iff, inl, inr, if◌then◌else◌, nat_eq, string_eq, All, exists_where,
}
use sman_server.Base.Maps.{value_of}
use sman_server.Base.Sets.{has, remove_member}
use sman_server.Rooms.Types.{RoomDb}
use sman_server.Tasks.Types.{TaskDb, TaskRecord}
use sman_server.Tasks.Machine.{get_task}
use sman_server.Tasks.Keeps.{Way}
use sman_server.Tasks.Turns.{Moves}
use sman_server.Tasks.History.{run-Way}
use sman_server.Im.Store.{ImDb}
use sman_server.Certs.Store.{CertDb}
use sman_server.Certs.Verify.{extract_peer_cert}
use sman_server.Hub.Types.{Socket, AuthedClient}
use sman_server.Hub.State.{Env, Hub, returned, new_hub, client_of}
use sman_server.Hub.Presence.{presence_fires}
use sman_server.Hub.Connection.{
  Incoming, invalid_json, auth_psk, message, handle_connection, handle_disconnect, routed,
  unauthenticated, on_message, fire_auto, Event, connects, times_out, receives, closes, stale_check,
  im_cleanup, presence_timer, auto_timer, step, run_hub,
}
use sman_server.Hub.Still.{part}
use sman_server.Hub.Calls.{auto_dispatch_fires-Runs}
use sman_server.Hub.Sound.{IsSound}
use sman_server.Hub.RoomSound.{
  Driven, Sounds, same-Sounds, still-Sounds, Sounds-trans, runs-Sounds, if-Sounds, refused-Sounds,
  check_stale_agents-Sounds,
}
use sman_server.Hub.ImStill.{presence_fires-IsStill}
use sman_server.Hub.Departures.{at_own_socket, disconnect_found-Sounds}
use sman_server.Hub.Handlers.{dispatch_message-Sounds}
use sman_server.Hub.Admissions.{auth_timeout-IsStill, connected-Sounds, handle_auth-Sounds}

module _ (env : Env) where
  -- ---- Any event ----

  fire_auto-Sounds : (id : String) (o : Option String) (h : Hub) → Sounds h (fire_auto env id o h).1
  fire_auto-Sounds id none h = same-Sounds h
  fire_auto-Sounds id (some room_id) h =
      runs-Sounds h _ ((auto_dispatch_fires-Runs env id room_id).to h)

  routed-Sounds :
      (ws : Socket) (m : Incoming) (h : Hub) (c : AuthedClient)
      → client_of ws h ≡ some c
      → Sounds h (routed env ws m c h).1
  routed-Sounds ws invalid_json h c k = refused-Sounds env ws _ h h (same-Sounds h)
  routed-Sounds ws (auth_psk timestamp o) h c k = refused-Sounds env ws _ h h (same-Sounds h)
  routed-Sounds ws (message m) h c k = dispatch_message-Sounds env c m h (at_own_socket env ws h k)

  unauthenticated-Sounds :
      (ws : Socket) (m : Incoming) (h : Hub)
      → client_of ws h ≡ none
      → ws < h.connections
      → Sounds h (unauthenticated env ws m h).1
  unauthenticated-Sounds ws invalid_json h k below = refused-Sounds env ws _ h h (same-Sounds h)
  unauthenticated-Sounds ws (auth_psk timestamp o) h k below =
      Sounds-trans h (record h { auth_timers = remove_member ws h.auth_timers }) _
        (record { keeps = λ v. v; driven = ([], refl) })
        (handle_auth-Sounds env ws timestamp o _ k below)
  unauthenticated-Sounds ws (message m) h k below = record { keeps = λ v. v; driven = ([], refl) }

  received-Sounds :
      (ws : Socket) (m : Incoming) (h : Hub) (o : Option AuthedClient)
      → client_of ws h ≡ o
      → ws < h.connections
      → Sounds h (on_message env ws m o h).1
  received-Sounds ws m h none k below = unauthenticated-Sounds ws m h k below
  received-Sounds ws m h (some c) k below = routed-Sounds ws m h c k

  below_connections :
      (n : ℕ) (ws : Socket) (sockets : List Socket)
      → All (λ (w : Socket). w < n) sockets
      → has ws sockets ≡ true
      → ws < n
  unfolding exists_where
  below_connections n ws [] a e = cc
  below_connections n ws (w ∷ rest) a e = elim (Bool-cases (w == ws)) [
    | inl y ↦ rw (← (==_iff w ws).0 y) a.0
    | inr z ↦ below_connections n ws rest a.1 (rw z at e)
  ]

  listened :
      (ws : Socket) (m : Incoming) (h : Hub)
      → IsSound (part h)
      → Sounds h
          (if has ws h.listening
            then on_message env ws m (client_of ws h) h
            else (returned tt, h)).1
  listened ws m h v = elim (Bool-cases (has ws h.listening)) [
    | inl y ↦ rw y (
        received-Sounds ws m h (client_of ws h) refl
          (below_connections h.connections ws h.listening v.heard y))
    | inr n ↦ rw n (same-Sounds h)
  ]

  closed-Sounds :
      (ws : Socket) (h : Hub)
      → Sounds h (if has ws h.listening then handle_disconnect env ws h else h)
  unfolding handle_disconnect
  closed-Sounds ws h =
      if-Sounds (has ws h.listening) h _ _ (disconnect_found-Sounds env ws (client_of ws h) h refl)
        (same-Sounds h)

  step-Sounds : (e : Event) (h : Hub) → IsSound (part h) → Sounds h (step env e h).1
  unfolding step handle_connection
  step-Sounds (connects raw) h v = connected-Sounds env (extract_peer_cert h.cert_db raw) h
  step-Sounds (times_out ws) h v = still-Sounds h _ (auth_timeout-IsStill env ws h)
  step-Sounds (receives ws m) h v = listened ws m h v
  step-Sounds (closes ws) h v = closed-Sounds ws h
  step-Sounds stale_check h v = check_stale_agents-Sounds env h
  step-Sounds im_cleanup h v = record { keeps = λ w. w; driven = ([], refl) }
  step-Sounds (presence_timer room_id) h v =
      if-Sounds (has room_id h.pending_presence) h _ _
        (still-Sounds h (presence_fires env room_id h) (presence_fires-IsStill env room_id h))
        (same-Sounds h)
  step-Sounds (auto_timer id) h v = fire_auto-Sounds id (value_of id h.auto_dispatch) h

run_hub-Sounds :
    (events : List (Env × Event)) (h : Hub) → IsSound (part h) → Sounds h (run_hub events h)
run_hub-Sounds [] h v = same-Sounds h
run_hub-Sounds ((env, e) ∷ rest) h v =
    let s = step-Sounds env e h v in
    Sounds-trans h (step env e h).1 (run_hub rest (step env e h).1) s
      (run_hub-Sounds rest (step env e h).1 (s.keeps v))

module _ (room_db : RoomDb) (tasks : TaskDb) (im_db : ImDb) (cert_db : Option CertDb)
    (hub_clients : List (String × String)) where
  start-IsSound : IsSound (part (new_hub room_db tasks im_db cert_db hub_clients))
  start-IsSound = record {
    listed = λ r ws e. unfold exists_where in cc (e);
    inhabited = λ r e. cc (e);
    indexed = λ id ws e. cc (e);
    idle = refl;
    used = tt;
    heard = tt;
  }

-- From the start on, over any databases, and after any events: a socket in the set of a room is that of
-- a connected client that is subscribed to the room; no room has an empty set; the reverse index
-- leads from a client's name to a connected socket of that client; and no place for an instant
-- message stays taken, also where a handler threw.
pub run_hub-IsSound :
    (events : List (Env × Event)) (room_db : RoomDb) (tasks : TaskDb) (im_db : ImDb)
    (cert_db : Option CertDb) (hub_clients : List (String × String))
    → IsSound (part (run_hub events (new_hub room_db tasks im_db cert_db hub_clients)))
run_hub-IsSound events room_db tasks im_db cert_db hub_clients =
    let v = start-IsSound room_db tasks im_db cert_db hub_clients in
    (run_hub-Sounds events (new_hub room_db tasks im_db cert_db hub_clients) v).keeps v

-- Whatever the sockets and the timers do from the start on, the tasks are those that some list of
-- calls of the task engine makes of the stored ones: so no stored task is lost, and its status moves
-- only by the transitions of VALID_TRANSITIONS and by the claim.
pub run_hub-Engine :
    (events : List (Env × Event)) (room_db : RoomDb) (tasks : TaskDb) (im_db : ImDb)
    (cert_db : Option CertDb) (hub_clients : List (String × String))
    → Driven tasks (run_hub events (new_hub room_db tasks im_db cert_db hub_clients)).tasks
      × ((id : String) (t : TaskRecord)
          → get_task id tasks ≡ some t
          → (t' : TaskRecord) × (get_task id
                (run_hub events (new_hub room_db tasks im_db cert_db hub_clients)).tasks
              ≡ some t')
            × Way Moves id t.status t'.status)
run_hub-Engine events room_db tasks im_db cert_db hub_clients =
    let h = new_hub room_db tasks im_db cert_db hub_clients in
    let d =
      (run_hub-Sounds events h (start-IsSound room_db tasks im_db cert_db hub_clients)).driven in
    (d, λ id t k. let (t', k', w) = run-Way d.0 tasks id t k in (t', ap (get_task id) d.1 ∙ k', w))
