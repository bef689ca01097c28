-- ===== src/Hub/Departures.antt =====
-- handleDisconnect of ws-server.ts: what the end of a connection leaves behind.
use sman_server.Base.{
  delete_where, ◌≡◌, refl, sym, ap, subst, ◌∙◌, Option, none, some, List, [], ◌∷◌, ◌==◌, ==_iff,
  nat_eq, string_eq, find_where-true,
}
use sman_server.Base.Maps.{delete_entry}
use sman_server.Rooms.Types.{AgentRecord}
use sman_server.Rooms.Agents.{get_client_agents}
use sman_server.Hub.Types.{Socket, AuthedClient}
use sman_server.Hub.State.{Env, Hub, client_of}
use sman_server.Hub.Connection.{
  end_agents, leave_all, disconnect_client, disconnect_found, rooms_with,
}
use sman_server.Hub.Still.{Part, part, IsStill, broadcast_to_room-IsStill}
use sman_server.Hub.Sound.{IsSound}
use sman_server.Hub.Lifetimes.{without, without-IsSound}
use sman_server.Hub.RoomSound.{Sounds, same-Sounds}
use sman_server.Hub.ImStill.{schedule_each-IsStill}

module _ (env : Env) where
  end_agents-IsStill : (agents : List AgentRecord) → IsStill (end_agents env agents)
  unfolding end_agents
  end_agents-IsStill [] h = refl
  end_agents-IsStill (a ∷ rest) h =
      end_agents-IsStill rest _ ∙ broadcast_to_room-IsStill env a.room_id _ _

  abbrev pub without_client : AuthedClient → Hub → Part
  without_client c h = without c (part h)

  pub disconnect_client-part :
      (c : AuthedClient) (h : Hub) → part (disconnect_client env c h) ≡ without_client c h
  unfolding disconnect_client
  disconnect_client-part c h =
      schedule_each-IsStill env (rooms_with c.client_id h.im_room_members) _
      ∙ ap left (end_agents-IsStill (get_client_agents c.client_id h.room_db) (leave_all c h))
    where
      left : Part → Part
      left p = record p {
        clients = delete_where (λ (d : AuthedClient). d.ws == c.ws) p.clients;
        client_id_to_ws = delete_entry c.client_id p.client_id_to_ws;
      }

  pub at_own_socket :
      (ws : Socket) (h : Hub) {c : AuthedClient}
      → client_of ws h ≡ some c
      → client_of c.ws h ≡ some c
  at_own_socket ws h {c} k =
      let same : c.ws ≡ ws =
        (==_iff c.ws ws).0 (find_where-true (λ (d : AuthedClient). d.ws == ws) h.clients k) in
      subst (λ j. client_of j h ≡ some c) (sym same) k

  pub disconnect_found-Sounds :
      (ws : Socket) (o : Option AuthedClient) (h : Hub)
      → client_of ws h ≡ o
      → Sounds h (disconnect_found env o h)
  disconnect_found-Sounds ws none h k = same-Sounds h
  disconnect_found-Sounds ws (some c) h k = record {
    keeps = λ v.
        subst IsSound (sym (disconnect_client-part c h))
          (without-IsSound (part h) v c (at_own_socket ws h k));
    driven = ([], ap (λ (p : Part). p.tasks) (disconnect_client-part c h));
  }
