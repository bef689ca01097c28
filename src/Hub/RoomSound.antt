-- ===== src/Hub/RoomSound.antt =====
-- What keeps the hub's maps sound, and that the messages room.* and agent.* do.
use sman_server.Base.{
  ℕ, String, ◌≡◌, refl, sym, ap, subst, ◌∙◌, Bool, true, false, not, Bool-cases, Option, none, some,
  List, [], ◌∷◌, ◌++◌, ◌==◌, ◌||◌, inl, inr, if◌then◌else◌, nat_eq, string_eq, exists_where,
}
use sman_server.Base.Maps.{delete_entry}
use sman_server.Base.Sets.{has}
use sman_server.Base.Texts.{is_empty}
use sman_server.Rooms.Types.{RoomRecord, RoomMemberRecord, AgentRecord, RoomDb, Visibility}
use sman_server.Rooms.Store.{Created, created, deactivate_room, is_member}
use sman_server.Rooms.Agents.{get_stale_agents, deregister_agent}
use sman_server.Tasks.Types.{TaskDb}
use sman_server.Tasks.History as History
use sman_server.Hub.Types.{Socket, AuthedClient, RegisterAgent, Message, room_dissolved}
use sman_server.Hub.State.{
  Env, Hub, client_of, sockets_of, subscribe, unsubscribe, send, send_error, broadcast_to_room,
  rooms_env,
}
use sman_server.Hub.RoomMessages.{
  with_rooms, tell_offline, stale_found, check_stale_agents, tell_room_created, handle_room_create,
  tell_joined, tell_left, dissolve, dissolve_found, has_active_tasks, tell_info, tell_registered,
  handle_agent_register, deregister_found, heartbeat_found,
}
use sman_server.Hub.Still.{Part, part, send-IsStill, send_error-IsStill, broadcast_to_room-IsStill}
use sman_server.Hub.Calls.{Calls, run-append, RunsTo}
use sman_server.Hub.Sound.{IsSound, sockets_of-delete_entry, delete_entry-IsInhabited}
use sman_server.Hub.Subscriptions.{subscribe-IsSound, unsubscribe-IsSound}

-- Tasks that come from others by calls of the engine.
abbrev pub Driven : TaskDb → TaskDb → Type 0
Driven s t = (calls : Calls) × (t ≡ History.run calls s)

-- What keeps the maps sound from one hub to another, and drives the tasks by the engine alone.
pub record Sounds (h g : Hub) : Type 0 where
  pub keeps : IsSound (part h) → IsSound (part g)
  pub driven : Driven h.tasks g.tasks

pub same-Sounds : (h : Hub) → Sounds h h
same-Sounds h = record { keeps = λ v. v; driven = ([], refl) }

pub still-Sounds : (h g : Hub) → part g ≡ part h → Sounds h g
still-Sounds h g e = record {
  keeps = λ v. subst IsSound (sym e) v;
  driven = ([], ap (λ (p : Part). p.tasks) e);
}

pub Sounds-trans : (h g k : Hub) → Sounds h g → Sounds g k → Sounds h k
Sounds-trans h g k a b = record {
  keeps = λ v. b.keeps (a.keeps v);
  driven =
      let (xs, e) = a.driven in
      let (ys, d) = b.driven in
      (xs ++ ys, d ∙ ap (History.run ys) e ∙ sym (run-append xs ys h.tasks));
}

-- The tasks are no part of what the maps promise.
pub runs-Sounds : (h g : Hub) → RunsTo h g → Sounds h g
runs-Sounds h g (calls, e) = record {
  keeps = λ v. subst IsSound (sym e) (record {
    listed = v.listed;
    inhabited = v.inhabited;
    indexed = v.indexed;
    idle = v.idle;
    used = v.used;
    heard = v.heard;
  });
  driven = (calls, ap (λ (p : Part). p.tasks) e);
}

-- A guard on a text of the message, and what follows.
pub if-Sounds : (b : Bool) (h g k : Hub) → Sounds h g → Sounds h k → Sounds h (if b then g else k)
if-Sounds true h g k x y = x
if-Sounds false h g k x y = y

module _ (env : Env) where
  pub sent-Sounds :
      (ws : Socket) (msg : Message) (h g : Hub) → Sounds h g → Sounds h (send env ws msg g)
  sent-Sounds ws msg h g a =
      Sounds-trans h g (send env ws msg g) a (still-Sounds g _ (send-IsStill env ws msg g))

  pub refused-Sounds :
      (ws : Socket) (reason : String) (h g : Hub)
      → Sounds h g
      → Sounds h (send_error env ws reason g)
  refused-Sounds ws reason h g a =
      Sounds-trans h g (send_error env ws reason g) a
        (still-Sounds g _ (send_error-IsStill env ws reason g))

  pub told-Sounds :
      (room_id : String) (msg : Message) (h g : Hub)
      → Sounds h g
      → Sounds h (broadcast_to_room env room_id msg g)
  told-Sounds room_id msg h g a =
      Sounds-trans h g (broadcast_to_room env room_id msg g) a
        (still-Sounds g _ (broadcast_to_room-IsStill env room_id msg g))

  tell_offline-Sounds :
      (agents : List AgentRecord) (h g : Hub) → Sounds h g → Sounds h (tell_offline env agents g)
  unfolding tell_offline
  tell_offline-Sounds [] h g a = a
  tell_offline-Sounds (x ∷ rest) h g a =
      tell_offline-Sounds rest h _ (told-Sounds x.room_id _ h g a)

  stale_found-Sounds : (agents : List AgentRecord) (h : Hub) → Sounds h (stale_found env agents h)
  stale_found-Sounds [] h = same-Sounds h
  stale_found-Sounds (a ∷ rest) h =
      tell_offline-Sounds (a ∷ rest) h _ (record { keeps = λ v. v; driven = ([], refl) })

  pub check_stale_agents-Sounds : (h : Hub) → Sounds h (check_stale_agents env h)
  unfolding check_stale_agents
  check_stale_agents-Sounds h =
      stale_found-Sounds (get_stale_agents (rooms_env env) 90_000 h.room_db) h

  module _ (client : AuthedClient) where
    -- ---- The messages room.* and agent.* ----

    subscribed-Sounds :
        (room_id : String) (s : RoomDb) (h : Hub) {d : AuthedClient}
        → client_of client.ws h ≡ some d
        → Sounds h (subscribe client room_id (with_rooms s h))
    unfolding subscribe
    subscribed-Sounds room_id s h k = record {
      keeps = λ v. subscribe-IsSound client room_id (with_rooms s h) v k;
      driven = ([], refl);
    }

    room_created-Sounds :
        (r : Created × RoomDb) (h : Hub) {d : AuthedClient}
        → client_of client.ws h ≡ some d
        → Sounds h (tell_room_created env client r h).1
    room_created-Sounds (Created.key_exists, s) h k = record { keeps = λ v. v; driven = ([], refl) }
    room_created-Sounds (created none, s) h k = record { keeps = λ v. v; driven = ([], refl) }
    room_created-Sounds (created (some room), s) h k =
        sent-Sounds client.ws _ h _ (subscribed-Sounds room.id s h k)

    pub room_create-Sounds :
        (name : String) (description : Option String) (max_agents : Option ℕ)
        (visibility : Option Visibility) (h : Hub) {d : AuthedClient}
        → client_of client.ws h ≡ some d
        → Sounds h (handle_room_create env client name description max_agents visibility h).1
    unfolding handle_room_create
    room_create-Sounds name description max_agents visibility h k =
        elim (Bool-cases (is_empty name)) [
          | inl y ↦ rw y (refused-Sounds client.ws _ h h (same-Sounds h))
          | inr n ↦ rw n (room_created-Sounds _ h k)
        ]

    pub joined-Sounds :
        (room_id : String) (r : Option RoomMemberRecord × RoomDb) (h : Hub) {d : AuthedClient}
        → client_of client.ws h ≡ some d
        → Sounds h (tell_joined env client room_id r h)
    joined-Sounds room_id (none, s) h k =
        refused-Sounds client.ws _ h (with_rooms s h)
          (record { keeps = λ v. v; driven = ([], refl) })
    joined-Sounds room_id (some m, s) h k =
        told-Sounds room_id _ h _ (sent-Sounds client.ws _ h _ (subscribed-Sounds room_id s h k))

    pub left-Sounds :
        (room_id : String) (r : Bool × RoomDb) (h : Hub)
        → Sounds h (tell_left env client room_id r h)
    unfolding unsubscribe
    left-Sounds room_id (false, s) h = record { keeps = λ v. v; driven = ([], refl) }
    left-Sounds room_id (true, s) h = told-Sounds room_id _ h _ (
        sent-Sounds client.ws _ h _ (record {
          keeps = λ v. unsubscribe-IsSound client room_id (with_rooms s h) v;
          driven = ([], refl);
        }))

    -- A dissolved room loses its set.
    smaller :
        (b : Bool) (ws : Socket) (set : List Socket)
        → has ws (if b then [] else set) ≡ true
        → has ws set ≡ true
    smaller true ws set e = unfold exists_where in cc (e)
    smaller false ws set e = e

    without_room :
        (room_id : String) (h : Hub) → Sounds h (record h { rooms = delete_entry room_id h.rooms })
    without_room room_id h = record {
      keeps = λ v. record {
        listed = λ r ws e. v.listed r ws (
            smaller (room_id == r) ws (sockets_of r h.rooms)
              (sym (ap (has ws) (sockets_of-delete_entry r room_id h.rooms)) ∙ e));
        inhabited = delete_entry-IsInhabited room_id h.rooms v.inhabited;
        indexed = v.indexed;
        idle = v.idle;
        used = v.used;
        heard = v.heard;
      };
      driven = ([], refl);
    }

    dissolve-Sounds : (room_id : String) (h : Hub) → Sounds h (dissolve env client room_id h)
    unfolding dissolve
    dissolve-Sounds room_id h =
        let told =
          told-Sounds room_id (room_dissolved room_id) h
            (with_rooms (deactivate_room room_id h.room_db) h)
            (record { keeps = λ v. v; driven = ([], refl) }) in
        Sounds-trans h _ _ told (without_room room_id _)

    pub dissolve_found-Sounds :
        (room_id : String) (o : Option RoomRecord) (h : Hub)
        → Sounds h (dissolve_found env client room_id o h)
    dissolve_found-Sounds room_id none h = refused-Sounds client.ws _ h h (same-Sounds h)
    dissolve_found-Sounds room_id (some room) h =
        if-Sounds (not (room.owner_id == client.client_id)) h _ _
          (refused-Sounds client.ws _ h h (same-Sounds h))
          (if-Sounds (has_active_tasks room_id h.tasks) h _ _
            (refused-Sounds client.ws _ h h (same-Sounds h)) (dissolve-Sounds room_id h))

    registered-Sounds :
        (p : RegisterAgent) (id : String) (r : Option AgentRecord × RoomDb) (h : Hub)
        → Sounds h (tell_registered env client p id r h)
    registered-Sounds p id (a, s) h = told-Sounds p.room_id _ h _ (
        sent-Sounds client.ws _ h (with_rooms s h) (record { keeps = λ v. v; driven = ([], refl) }))

    pub agent_register-Sounds :
        (p : RegisterAgent) (h : Hub) → Sounds h (handle_agent_register env client p h)
    unfolding handle_agent_register
    agent_register-Sounds p h =
        if-Sounds (is_empty p.room_id || is_empty p.workspace) h _ _
          (refused-Sounds client.ws _ h h (same-Sounds h))
          (if-Sounds (not (is_member p.room_id client.client_id h.room_db)) h _ _
            (refused-Sounds client.ws _ h h (same-Sounds h)) (registered-Sounds p _ _ h))

    pub deregister_found-Sounds :
        (id : String) (o : Option AgentRecord) (h : Hub)
        → Sounds h (deregister_found env client id o h)
    deregister_found-Sounds id none h = same-Sounds h
    deregister_found-Sounds id (some a) h =
        if-Sounds (not (a.client_id == client.client_id)) h _ _ (same-Sounds h) (
          told-Sounds a.room_id _ h _ (
            sent-Sounds client.ws _ h (with_rooms (deregister_agent id h.room_db) h)
              (record { keeps = λ v. v; driven = ([], refl) })))

    pub heartbeat_found-Sounds :
        (id status : String) (o : Option AgentRecord) (h : Hub)
        → Sounds h (heartbeat_found env client id status o h)
    heartbeat_found-Sounds id status none h = same-Sounds h
    heartbeat_found-Sounds id status (some a) h =
        if-Sounds (not (a.client_id == client.client_id)) h _ _ (same-Sounds h)
          (record { keeps = λ v. v; driven = ([], refl) })

    pub info-Sounds :
        (id : String) (o : Option RoomRecord) (h : Hub) → Sounds h (tell_info env client id o h)
    info-Sounds id none h = refused-Sounds client.ws _ h h (same-Sounds h)
    info-Sounds id (some r) h = sent-Sounds client.ws _ h h (same-Sounds h)
