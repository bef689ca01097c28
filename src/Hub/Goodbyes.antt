-- ===== src/Hub/Goodbyes.antt =====
-- handleDisconnect of ws-server.ts: nothing in the hub leads to a client that has left.
use sman_server.Base.{
  String, ◌≡◌, refl, sym, ap, ◌∙◌, subst, Bool, true, false, Bool-cases, Option, none, some, List,
  [], ◌∷◌, ◌==◌, ==_iff, string_eq, nat_eq, inl, inr, ◌⊎◌, arith, All, All-weaken, exists_where,
  update_where, select_where, sort_asc, map_option, find_where-true, All-of_sort_asc,
  All-of_select_where,
}
use sman_server.Base.Maps.{value_of, value_of-delete_entry}
use sman_server.Base.Sets.{has, remove_member, has-remove_member}
use sman_server.Rooms.Types.{RoomDb, AgentRecord, offline}
use sman_server.Rooms.Agents.{deregister_agent, update_agent_status, get_client_agents}
use sman_server.Hub.Types.{Socket, AuthedClient, Message}
use sman_server.Hub.State.{
  Env, Hub, client_of, sockets_of, members_of, send, send_each, to_room, broadcast_to_room,
}
use sman_server.Hub.Presence.{schedule_presence_broadcast}
use sman_server.Hub.Connection.{
  end_agents, leave_all, disconnect_client, handle_disconnect, schedule_each, rooms_with,
  without_member,
}
use sman_server.Hub.Still.{Part, part}
use sman_server.Hub.Sound.{IsSound, client_at, subscribed_to}
use sman_server.Hub.Lifetimes.{without-IsSound, client_at-delete}
use sman_server.Hub.Departures.{disconnect_client-part, at_own_socket}

-- What the broadcasts leave alone.
abbrev data_of : Hub → RoomDb × List (String × List String)
data_of h = (h.room_db, h.im_room_members)

-- Each row of a list is one of its rows.
exists_where_self :
    (r : AgentRecord → AgentRecord → Bool) (xs : List AgentRecord)
    → ((a : AgentRecord) → r a a ≡ true)
    → All (λ a. exists_where (r a) xs ≡ true) xs
unfolding exists_where
exists_where_self r [] same = tt
exists_where_self r (x ∷ xs) same =
    (rw (same x) refl, All-weaken _ _ xs (λ a k. ground arith) (exists_where_self r xs same))

abbrev same_agent : AgentRecord → AgentRecord → Bool
same_agent a b = a.id == b.id

abbrev deregister_all : List AgentRecord → RoomDb → RoomDb
deregister_all [] s = s
deregister_all (b ∷ bs) s = deregister_all bs (deregister_agent b.id s)

-- The agents of the client are offline.
abbrev pub AreOffline : String → RoomDb → Type 0
AreOffline client_id s =
    All (λ (a : AgentRecord). a.client_id ≡ client_id → a.status ≡ offline) s.agents

module _ (client_id : String) where
  abbrev Ending : List AgentRecord → AgentRecord → Type 0
  Ending bs a =
      a.client_id ≡ client_id → (a.status ≡ offline) ⊎ (exists_where (same_agent a) bs ≡ true)

  ended :
      (b : AgentRecord) (bs rows : List AgentRecord)
      → All (Ending (b ∷ bs)) rows
      → All (Ending bs) (update_where (λ a. a.id == b.id) (λ a. record a { status = offline }) rows)
  unfolding update_where exists_where
  ended b bs [] e = tt
  ended b bs (a ∷ rows) e = (
    elim (Bool-cases (a.id == b.id)) [
      | inl y ↦ rw y (λ mine. inl refl)
      | inr n ↦ rw n (λ mine. elim (e.0 mine) [ inl o ↦ inl o | inr x ↦ inr (rw n at x) ])
    ],
    ended b bs rows e.1,
  )

  deregister_all-AreOffline :
      (bs : List AgentRecord) (s : RoomDb)
      → All (Ending bs) s.agents
      → AreOffline client_id (deregister_all bs s)
  unfolding deregister_agent update_agent_status exists_where
  deregister_all-AreOffline [] s e =
      All-weaken (Ending []) _ s.agents
        (λ a f mine. elim (f mine) [ inl o ↦ o | inr x ↦ absurd (cc (x)) ]) e
  deregister_all-AreOffline (b ∷ bs) s e =
      deregister_all-AreOffline bs (deregister_agent b.id s) (ended b bs s.agents e)

  client_agents-AreOffline :
      (s : RoomDb) → AreOffline client_id (deregister_all (get_client_agents client_id s) s)
  unfolding get_client_agents
  client_agents-AreOffline s =
      let found = select_where (λ (a : AgentRecord). a.client_id == client_id) s.agents in
      let sorted = sort_asc (λ (a : AgentRecord). a.registered_at) found in
      deregister_all-AreOffline sorted s (
        All-weaken _ (Ending sorted) s.agents
          (λ a f mine. inr (f ((==_iff a.client_id client_id).1 mine)))
          (All-of_select_where _ (λ (a : AgentRecord). a.client_id == client_id) s.agents
            (All-of_sort_asc (λ (a : AgentRecord). a.registered_at) _ found
              (exists_where_self same_agent sorted (λ a. (==_iff a.id a.id).1 refl)))))

module _ (env : Env) where
  send-data : (ws : Socket) (msg : Message) (h : Hub) → data_of (send env ws msg h) ≡ data_of h
  unfolding send
  send-data ws msg h = elim (Bool-cases (env.is_open ws)) [ inl y ↦ rw y refl | inr n ↦ rw n refl ]

  send_each-data :
      (set : List Socket) (msg : Message) (h : Hub) → data_of (send_each env set msg h) ≡ data_of h
  unfolding send_each
  send_each-data [] msg h = refl
  send_each-data (ws ∷ set) msg h = send_each-data set msg _ ∙ send-data ws msg h

  to_room-data :
      (o : Option (List Socket)) (msg : Message) (h : Hub)
      → data_of (to_room env o msg h) ≡ data_of h
  to_room-data none msg h = refl
  to_room-data (some set) msg h = send_each-data set msg h

  end_agents-data :
      (bs : List AgentRecord) (h : Hub)
      → data_of (end_agents env bs h) ≡ (deregister_all bs h.room_db, h.im_room_members)
  unfolding end_agents broadcast_to_room
  end_agents-data [] h = refl
  end_agents-data (b ∷ bs) h =
      end_agents-data bs _
      ∙ ap (λ (d : RoomDb × List (String × List String)). (deregister_all bs d.0, d.1))
          (to_room-data (value_of b.room_id h.rooms) _ _)

  schedule_each-data :
      (rooms : List String) (h : Hub) → data_of (schedule_each env rooms h) ≡ data_of h
  unfolding schedule_each schedule_presence_broadcast
  schedule_each-data [] h = refl
  schedule_each-data (r ∷ rest) h = schedule_each-data rest _

  disconnect_client-data :
      (c : AuthedClient) (h : Hub)
      → data_of (disconnect_client env c h) ≡ (
        deregister_all (get_client_agents c.client_id h.room_db) h.room_db,
        without_member c.client_id h.im_room_members,
      )
  unfolding disconnect_client
  disconnect_client-data c h =
      schedule_each-data (rooms_with c.client_id h.im_room_members) _
      ∙ ap (λ (d : RoomDb × List (String × List String)). (d.0, without_member c.client_id d.1))
          (end_agents-data (get_client_agents c.client_id h.room_db) (leave_all c h))

  value_of-without :
      (room_id client_id : String) (m : List (String × List String))
      → value_of room_id (without_member client_id m)
        ≡ map_option (remove_member client_id) (value_of room_id m)
  value_of-without room_id client_id [] = refl
  value_of-without room_id client_id ((j, cs) ∷ m) =
      ground (arith, value_of-without room_id client_id m)

-- Nothing leads to the client: no handler would find its socket, no room and no instant message
-- would be sent to it, and its agents are offline.
pub record Gone (c : AuthedClient) (ws : Socket) (h : Hub) : Type 0 where
  pub unknown : client_of ws h ≡ none
  pub no_room : (room_id : String) → has ws (sockets_of room_id h.rooms) ≡ false
  pub no_index : value_of c.client_id h.client_id_to_ws ≡ none
  pub no_member : (room_id : String) → has c.client_id (members_of room_id h) ≡ false
  pub agents_end : AreOffline c.client_id h.room_db

module _ (env : Env) (ws : Socket) (c : AuthedClient) (h : Hub) (v : IsSound (part h))
    (k : client_of ws h ≡ some c) where
  abbrev end : Hub
  end = disconnect_client env c h

  end-IsSound : IsSound (part end)
  end-IsSound =
      subst IsSound (sym (disconnect_client-part env c h))
        (without-IsSound (part h) v c (at_own_socket env ws h k))

  end-unknown : client_of ws end ≡ none
  end-unknown =
      let here : c.ws ≡ ws =
        (==_iff c.ws ws).0 (find_where-true (λ (d : AuthedClient). d.ws == ws) h.clients k) in
      ap (λ (p : Part). client_at ws p.clients) (disconnect_client-part env c h)
      ∙ client_at-delete c.ws ws h.clients
      ∙ rw ((==_iff c.ws ws).1 here) refl

  end-no_room : (room_id : String) → has ws (sockets_of room_id end.rooms) ≡ false
  end-no_room room_id = elim (Bool-cases (has ws (sockets_of room_id end.rooms))) [
    | inr n ↦ n
    | inl y ↦
        absurd (cc (sym (ap (subscribed_to room_id) end-unknown) ∙ end-IsSound.listed room_id ws y))
  ]

  end-no_index : value_of c.client_id end.client_id_to_ws ≡ none
  end-no_index =
      ap (λ (p : Part). value_of c.client_id p.client_id_to_ws) (disconnect_client-part env c h)
      ∙ value_of-delete_entry c.client_id c.client_id h.client_id_to_ws
      ∙ rw ((==_iff c.client_id c.client_id).1 refl) refl

  end-no_member : (room_id : String) → has c.client_id (members_of room_id end) ≡ false
  unfolding exists_where
  end-no_member room_id =
      let at_room : value_of room_id end.im_room_members
          ≡ map_option (remove_member c.client_id) (value_of room_id h.im_room_members) =
        ap (λ (d : RoomDb × List (String × List String)). value_of room_id d.1)
          (disconnect_client-data env c h)
        ∙ value_of-without env room_id c.client_id h.im_room_members in
      rw (members_of, at_room) (without (value_of room_id h.im_room_members))
    where
      without :
          (o : Option (List String))
          → has c.client_id
              (elim (map_option (remove_member c.client_id) o) [ none ↦ [] | some cs ↦ cs ])
            ≡ false
      without none = refl
      without (some cs) =
          has-remove_member c.client_id c.client_id cs
          ∙ rw ((==_iff c.client_id c.client_id).1 refl) refl

  end-agents : AreOffline c.client_id end.room_db
  end-agents =
      subst (λ (d : RoomDb × List (String × List String)). AreOffline c.client_id d.0)
        (sym (disconnect_client-data env c h)) (client_agents-AreOffline c.client_id h.room_db)

-- When the socket of a connected client ends, in a sound state: the socket is no client's any more,
-- it is in the set of no room, the index of the client's name and every list of members in memory
-- forget the client, and each agent of the client is offline.
pub handle_disconnect-Gone :
    (env : Env) (ws : Socket) (c : AuthedClient) (h : Hub)
    → IsSound (part h)
    → client_of ws h ≡ some c
    → Gone c ws (handle_disconnect env ws h)
unfolding handle_disconnect
handle_disconnect-Gone env ws c h v k = rw k (record {
  unknown = end-unknown env ws c h v k;
  no_room = end-no_room env ws c h v k;
  no_index = end-no_index env ws c h v k;
  no_member = end-no_member env ws c h v k;
  agents_end = end-agents env ws c h v k;
})
