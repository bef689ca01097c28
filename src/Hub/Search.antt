-- ===== src/Hub/Search.antt =====
-- ws-server.ts: im.clients.search.
use sman_server.Base.{
  ℕ, String, Bool, not, ◌&&◌, ◌||◌, List, [], ◌∷◌, ◌++◌, map, string_eq, nat_eq, if◌then◌else◌,
  length, leb,
}
use sman_server.Base.Sets.{has}
use sman_server.Base.Texts.{is_empty}
use sman_server.Hub.Types.{AuthedClient, im_clients_search}
use sman_server.Hub.State.{Env, Hub, send}

module _ (env : Env) where
  module _ (client : AuthedClient) where
    -- `break` at twenty results; `seen` holds what was looked at.
    unfoldable pub search_ids :
        List (String × Bool) → List String → List String → List String × List String
    search_ids [] results seen = (results, seen)
    search_ids ((id, found) ∷ rest) results seen =
        if leb 20 (length results)
        then (results, seen)
        else (let skip = has id seen in
            search_ids rest (if not skip && found then results ++ id ∷ [] else results)
              (if skip then seen else seen ++ id ∷ []))

    abbrev pub connected_ids : String → Hub → List (String × Bool)
    connected_ids query h =
        map
          (λ (c : AuthedClient).
            (c.client_id, is_empty query || env.includes query (env.to_lower_case c.client_id)))
          h.clients

    abbrev pub registered_ids : String → Hub → List (String × Bool)
    registered_ids query h =
        map
          (λ (c : String × String). (
            c.0,
            is_empty query
                || env.includes query (env.to_lower_case c.0)
                || env.includes query (env.to_lower_case c.1),
          ))
          h.hub_clients

    abbrev search_registered : String → Hub → List String × List String → List String
    search_registered query h (results, seen) = (search_ids (registered_ids query h) results seen).0

    unfoldable pub handle_clients_search : String → ℕ → Hub → Hub
    unfolding search_ids
    handle_clients_search text seq h =
        let query = env.to_lower_case text in
        send env client.ws
          (im_clients_search (search_registered query h (search_ids (connected_ids query h) [] []))
            seq)
          h
