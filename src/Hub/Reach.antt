-- ===== src/Hub/Reach.antt =====
-- ws-server.ts: whom broadcastToImRoom reaches.
use sman_server.Base.{
  String, ◌≡◌, refl, sym, ◌∙◌, ap, not, Bool-cases, Option, none, some, List, [], ◌∷◌, ◌++◌, map,
  ◌==◌, string_eq, option_eq, inl, inr, if◌then◌else◌, select_where, Option-cases,
}
use mathlib.Core.List.{append_assoc, append-nil, map-append}
use sman_server.Base.Maps.{value_of}
use sman_server.Hub.Types.{Socket, Message}
use sman_server.Hub.State.{
  Env, Hub, send, send_if_known, send_members, broadcast_to_im_room, members_of,
}

-- The members of a room without the client.
abbrev pub others : String → List String → List String
others client_id cs = select_where (λ (c : String). not (c == client_id)) cs

module _ (env : Env) where
  -- The open sockets of the members, in the order of the members.
  abbrev pub open_socket : Option Socket → List Socket
  open_socket none = []
  open_socket (some ws) = if env.is_open ws then ws ∷ [] else []

  abbrev pub reachable : List (String × Socket) → List String → List Socket
  reachable index [] = []
  reachable index (c ∷ cs) = open_socket (value_of c index) ++ reachable index cs

  -- The hub after a message has been sent to the sockets.
  abbrev pub told : List Socket → Message → Hub → Hub
  told sockets msg h = record h { sent = h.sent ++ map (λ (ws : Socket). (ws, msg)) sockets }

  told_nil : (msg : Message) (h : Hub) → h ≡ told [] msg h
  told_nil msg h = ap (λ sent. record h { sent = sent }) (sym (append-nil h.sent))

  told_append :
      (xs ys : List Socket) (msg : Message) (h : Hub)
      → told ys msg (told xs msg h) ≡ told (xs ++ ys) msg h
  told_append xs ys msg h =
      ap (λ sent. record h { sent = sent })
        (append_assoc h.sent _ _
          ∙ ap (λ new. h.sent ++ new) (sym (map-append (λ (ws : Socket). (ws, msg)) xs ys)))

  send_if_known-told :
      (o : Option Socket) (msg : Message) (h : Hub)
      → send_if_known env o msg h ≡ told (open_socket o) msg h
  unfolding send
  send_if_known-told none msg h = told_nil msg h
  send_if_known-told (some ws) msg h = elim (Bool-cases (env.is_open ws)) [
    | inl y ↦ rw y refl
    | inr n ↦ rw n (told_nil msg h)
  ]

  send_members-told :
      (cs : List String) (client_id : String) (msg : Message) (h : Hub)
      → send_members env cs (some client_id) msg h
        ≡ told (reachable h.client_id_to_ws (others client_id cs)) msg h
  unfolding send_members select_where
  send_members-told [] client_id msg h = told_nil msg h
  send_members-told (c ∷ cs) client_id msg h = elim (Bool-cases (c == client_id)) [
    | inl y ↦ rw y (send_members-told cs client_id msg h)
    | inr n ↦
        let known = open_socket (value_of c h.client_id_to_ws) in
        rw n (
          ap (send_members env cs (some client_id) msg)
            (send_if_known-told (value_of c h.client_id_to_ws) msg h)
          ∙ send_members-told cs client_id msg (told known msg h)
          ∙ told_append known (reachable h.client_id_to_ws (others client_id cs)) msg h)
  ]

  pub broadcast_to_im_room-told :
      (room_id client_id : String) (msg : Message) (h : Hub)
      → broadcast_to_im_room env room_id msg (some client_id) h
        ≡ told (reachable h.client_id_to_ws (others client_id (members_of room_id h))) msg h
  unfolding broadcast_to_im_room select_where
  broadcast_to_im_room-told room_id client_id msg h =
      elim (Option-cases (value_of room_id h.im_room_members)) [
        | inl n ↦ rw (members_of, n) (told_nil msg h)
        | inr (cs, k) ↦ rw (members_of, k) (send_members-told cs client_id msg h)
      ]
