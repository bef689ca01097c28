-- ===== src/Hub/Subscriptions.antt =====
-- Subscribing, leaving and closing keep the hub's maps sound.
use sman_server.Base.{
  ◌<◌, String, ◌≡◌, refl, sym, ap, ◌∙◌, Bool, true, false, not, Bool-cases, Option, none, some,
  List, ◌==◌, ==_iff, ◌||◌, ◌&&◌, inl, inr, if◌then◌else◌, nat_eq, string_eq, arith, All,
  All-update_where, All-weaken, find_where-true, &&_iff,
}
use sman_server.Base.Maps.{value_of}
use sman_server.Base.Sets.{has, add_member, remove_member, has-add_member, has-remove_member}
use sman_server.Hub.Types.{Socket, AuthedClient}
use sman_server.Hub.State.{Hub, client_of, change_client, sockets_of, subscribe, unsubscribe}
use sman_server.Hub.Still.{part}
use sman_server.Hub.Sound.{
  client_at, subscribed_to, id_at, IsSound, changed, client_at-change, id_at-changed,
  sockets_of-set_entry, add_entry-IsInhabited, leave_socket-has, leave_socket-IsInhabited,
}

client_at-ws :
    (ws : Socket) (clients : List AuthedClient) {c : AuthedClient}
    → client_at ws clients ≡ some c
    → c.ws ≡ ws
client_at-ws ws clients {c} e =
    (==_iff c.ws ws).0 (find_where-true (λ (d : AuthedClient). d.ws == ws) clients e)

-- A room added to the subscriptions of `ws`: none is lost, and that of `ws` is there.
subscribed_to-added :
    (r room_id : String) (ws : Socket) (o : Option AuthedClient)
    → subscribed_to r o ≡ true
    → subscribed_to r (changed ws (add_member room_id) o) ≡ true
subscribed_to-added r room_id ws none e = cc
subscribed_to-added r room_id ws (some c) e = elim (Bool-cases (c.ws == ws)) [
  | inl y ↦ rw (y, has-add_member r room_id c.subscribed_rooms, e) refl
  | inr n ↦ rw n e
]

subscribed_to-new :
    (room_id : String) (ws : Socket) (o : Option AuthedClient) {c : AuthedClient}
    → o ≡ some c
    → c.ws ≡ ws
    → subscribed_to room_id (changed ws (add_member room_id) o) ≡ true
subscribed_to-new room_id ws none e d = absurd (cc)
subscribed_to-new room_id ws (some b) {c} e d =
    let mine : (b.ws == ws) ≡ true = (==_iff b.ws ws).1 (cc) in
    rw (mine, has-add_member room_id room_id b.subscribed_rooms, (==_iff room_id room_id).1 refl)
      (or_true (has room_id b.subscribed_rooms))
  where
    or_true : (b : Bool) → (b || true) ≡ true
    or_true true = refl
    or_true false = refl

subscribed_to-removed :
    (r room_id : String) (ws j : Socket) (o : Option AuthedClient)
    → ((c : AuthedClient) → o ≡ some c → c.ws ≡ j)
    → not ((room_id == r) && (ws == j)) ≡ true
    → subscribed_to r o ≡ true
    → subscribed_to r (changed ws (remove_member room_id) o) ≡ true
subscribed_to-removed r room_id ws j none at n e = cc
subscribed_to-removed r room_id ws j (some c) at n e = elim (Bool-cases (c.ws == ws)) [
  | inl y ↦
      let other : (room_id == r) ≡ false = ground (arith, ==_iff c.ws ws, ==_iff ws j, at c refl) in
      rw (y, has-remove_member r room_id c.subscribed_rooms, other, e) refl
  | inr z ↦ rw z e
]

module _ (client : AuthedClient) (room_id : String) (h : Hub) (v : IsSound (part h)) where
  change_client-used :
      (f : List String → List String)
      → All (λ (c : AuthedClient). c.ws < h.connections) (change_client client.ws f h).clients
  change_client-used f =
      All-update_where (λ (c : AuthedClient). c.ws < h.connections)
        (λ (c : AuthedClient). c.ws == client.ws)
        (λ c. record c { subscribed_rooms = f c.subscribed_rooms }) h.clients
        (All-weaken (λ (c : AuthedClient). c.ws < h.connections)
          (λ (c : AuthedClient). (c.ws == client.ws) ≡ true → c.ws < h.connections) h.clients
          (λ c u _. u) v.used)
        v.used

  change_client-indexed :
      (f : List String → List String) (client_id : String) (ws : Socket)
      → value_of client_id h.client_id_to_ws ≡ some ws
      → id_at (client_at ws (change_client client.ws f h).clients) ≡ some client_id
  change_client-indexed f client_id ws e =
      ap id_at (client_at-change client.ws ws f h.clients)
      ∙ id_at-changed client.ws f (client_at ws h.clients)
      ∙ v.indexed client_id ws e

  subscribed_at :
      (f : List String → List String) (r : String) (ws : Socket)
      → subscribed_to r (changed client.ws f (client_at ws h.clients)) ≡ true
      → subscribed_to r (client_at ws (change_client client.ws f h).clients) ≡ true
  subscribed_at f r ws e = ap (subscribed_to r) (client_at-change client.ws ws f h.clients) ∙ e

  pub subscribe-IsSound :
      {d : AuthedClient}
      → client_of client.ws h ≡ some d
      → IsSound (part (subscribe client room_id h))
  unfolding subscribe
  subscribe-IsSound {d} k = record {
    listed = λ r ws e. subscribed_at (add_member room_id) r ws (
        listed_after r ws (
          sym (
            ap (has ws) (
              sockets_of-set_entry r room_id (add_member client.ws (sockets_of room_id h.rooms))
                h.rooms))
          ∙ e));
    inhabited =
        add_entry-IsInhabited room_id client.ws (sockets_of room_id h.rooms) h.rooms v.inhabited;
    indexed = change_client-indexed (add_member room_id);
    idle = v.idle;
    used = change_client-used (add_member room_id);
    heard = v.heard;
  }
    where
      old_or_new :
          (r : String) (ws : Socket)
          → room_id ≡ r
          → (has ws (sockets_of room_id h.rooms) || (client.ws == ws)) ≡ true
          → subscribed_to r (changed client.ws (add_member room_id) (client_at ws h.clients)) ≡ true
      old_or_new r ws s e = elim (Bool-cases (has ws (sockets_of room_id h.rooms))) [
        | inl y ↦
            subscribed_to-added r room_id client.ws (client_at ws h.clients)
              (v.listed r ws (rw (← s) y))
        | inr n ↦
            let same : client.ws ≡ ws = (==_iff client.ws ws).0 (rw n at e) in
            rw (← s, ← same)
              (subscribed_to-new room_id client.ws (client_at client.ws h.clients) k
                (client_at-ws client.ws h.clients k))
      ]

      listed_after :
          (r : String) (ws : Socket)
          → has ws (
              if room_id == r
              then add_member client.ws (sockets_of room_id h.rooms)
              else sockets_of r h.rooms)
            ≡ true
          → subscribed_to r (changed client.ws (add_member room_id) (client_at ws h.clients)) ≡ true
      listed_after r ws e = elim (Bool-cases (room_id == r)) [
        | inl y ↦
            old_or_new r ws ((==_iff room_id r).0 y)
              (sym (has-add_member ws client.ws (sockets_of room_id h.rooms)) ∙ (rw y at e))
        | inr n ↦
            subscribed_to-added r room_id client.ws (client_at ws h.clients)
              (v.listed r ws (rw n at e))
      ]

  pub unsubscribe-IsSound : IsSound (part (unsubscribe client room_id h))
  unfolding unsubscribe
  unsubscribe-IsSound = record {
    listed = λ r ws e.
        let both =
          (&&_iff (not ((room_id == r) && (client.ws == ws))) (has ws (sockets_of r h.rooms))).0
            (sym (leave_socket-has r room_id ws client.ws h.rooms) ∙ e) in
        subscribed_at (remove_member room_id) r ws (
          subscribed_to-removed r room_id client.ws ws (client_at ws h.clients)
            (λ c k. client_at-ws ws h.clients k) both.0 (v.listed r ws both.1));
    inhabited = leave_socket-IsInhabited room_id client.ws h.rooms v.inhabited;
    indexed = change_client-indexed (remove_member room_id);
    idle = v.idle;
    used = change_client-used (remove_member room_id);
    heard = v.heard;
  }
