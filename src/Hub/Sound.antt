-- ===== src/Hub/Sound.antt =====
-- The invariant of the hub's maps, and that the helpers which change them keep it.
use sman_server.Base.{
  ◌<◌, String, ◌≡◌, ◌≢◌, refl, sym, ap, ◌∙◌, Bool, true, false, not, Bool-cases, Option, none, some,
  List, [], ◌∷◌, ◌==◌, ==_iff, ◌||◌, ◌&&◌, inl, inr, if◌then◌else◌, nat_eq, string_eq, arith, All,
  find_where, find_where-update_where, map_option, update_where, exists_where,
}
use sman_server.Base.Maps.{
  value_of, set_entry, delete_entry, value_of-set_entry, value_of-delete_entry,
}
use sman_server.Base.Sets.{has, add_member, remove_member, has-add_member, has-remove_member}
use sman_server.Hub.Types.{Socket, AuthedClient}
use sman_server.Hub.State.{sockets_of, leave_socket, keep_set, leave_set, set_of}
use sman_server.Hub.Still.{Part}

abbrev pub client_at : Socket → List AuthedClient → Option AuthedClient
client_at ws clients = find_where (λ (c : AuthedClient). c.ws == ws) clients

abbrev pub subscribed_to : String → Option AuthedClient → Bool
subscribed_to room_id none = false
subscribed_to room_id (some c) = has room_id c.subscribed_rooms

abbrev pub id_at : Option AuthedClient → Option String
id_at none = none
id_at (some c) = some c.client_id

pub record IsSound (p : Part) : Type 0 where
  -- A socket in the set of a room is that of a connected client that is subscribed to the room.
  pub listed :
      (room_id : String) (ws : Socket)
      → has ws (sockets_of room_id p.rooms) ≡ true
      → subscribed_to room_id (client_at ws p.clients) ≡ true
  -- No room has an empty set.
  pub inhabited : (room_id : String) → value_of room_id p.rooms ≢ some []
  -- The reverse index leads to a connected socket of the client.
  pub indexed :
      (client_id : String) (ws : Socket)
      → value_of client_id p.client_id_to_ws ≡ some ws
      → id_at (client_at ws p.clients) ≡ some client_id
  -- No place for an instant message is taken between two events.
  pub idle : p.im_active_count ≡ 0
  -- The sockets are numbered in the order of the connections.
  pub used : All (λ (c : AuthedClient). c.ws < p.connections) p.clients
  pub heard : All (λ (w : Socket). w < p.connections) p.listening

-- ---- subscribe ----

pub client_at-change :
    (ws j : Socket) (f : List String → List String) (clients : List AuthedClient)
    → client_at j (
        update_where
          (λ (c : AuthedClient). c.ws == ws)
          (λ c. record c { subscribed_rooms = f c.subscribed_rooms })
          clients)
      ≡ map_option
          (λ (c : AuthedClient).
            if c.ws == ws then record c { subscribed_rooms = f c.subscribed_rooms } else c)
          (client_at j clients)
client_at-change ws j f clients =
    find_where-update_where (λ (c : AuthedClient). c.ws == j) (λ (c : AuthedClient). c.ws == ws)
      (λ (c : AuthedClient). record c { subscribed_rooms = f c.subscribed_rooms }) clients
      (λ c. refl)

-- What a change of the subscriptions of `ws` makes of those of `j`.
abbrev pub changed :
    (ws : Socket) (f : List String → List String) (o : Option AuthedClient) → Option AuthedClient
changed ws f o =
    map_option
      (λ (c : AuthedClient).
        if c.ws == ws then record c { subscribed_rooms = f c.subscribed_rooms } else c)
      o

pub id_at-changed :
    (ws : Socket) (f : List String → List String) (o : Option AuthedClient)
    → id_at (changed ws f o) ≡ id_at o
id_at-changed ws f none = refl
id_at-changed ws f (some c) = ground arith

-- ---- The sets of the rooms ----

set_of-if :
    (b : Bool) (v : List Socket) (o : Option (List Socket))
    → set_of (if b then some v else o) ≡ (if b then v else set_of o)
set_of-if true v o = refl
set_of-if false v o = refl

pub sockets_of-set_entry :
    (r k : String) (v : List Socket) (m : List (String × List Socket))
    → sockets_of r (set_entry k v m) ≡ (if k == r then v else sockets_of r m)
sockets_of-set_entry r k v m =
    ap set_of (value_of-set_entry r k v m) ∙ set_of-if (k == r) v (value_of r m)

set_of-unless :
    (b : Bool) (o : Option (List Socket))
    → set_of (if b then none else o) ≡ (if b then [] else set_of o)
set_of-unless true o = refl
set_of-unless false o = refl

pub sockets_of-delete_entry :
    (r k : String) (m : List (String × List Socket))
    → sockets_of r (delete_entry k m) ≡ (if k == r then [] else sockets_of r m)
sockets_of-delete_entry r k m =
    ap set_of (value_of-delete_entry r k m) ∙ set_of-unless (k == r) (value_of r m)

-- A socket that leaves a set is not in it, and every other stays where it is.
has-keep_set :
    (r k : String) (w : Socket) (set : List Socket) (m : List (String × List Socket))
    → has w (sockets_of r (keep_set k set m))
      ≡ (if k == r then has w set else has w (sockets_of r m))
unfolding exists_where
has-keep_set r k w [] m = ap (has w) (sockets_of-delete_entry r k m) ∙ split (k == r)
  where
    split :
        (b : Bool)
        → has w (if b then [] else sockets_of r m) ≡ (if b then false else has w (sockets_of r m))
    split true = refl
    split false = refl
has-keep_set r k w (x ∷ set) m = ap (has w) (sockets_of-set_entry r k (x ∷ set) m) ∙ split (k == r)
  where
    split :
        (b : Bool)
        → has w (if b then x ∷ set else sockets_of r m)
          ≡ (if b then has w (x ∷ set) else has w (sockets_of r m))
    split true = refl
    split false = refl

pub and_false : (b : Bool) → false ≡ (b && false)
and_false true = refl
and_false false = refl

leave_set-has :
    (r k : String) (w ws : Socket) (m : List (String × List Socket)) (o : Option (List Socket))
    → value_of k m ≡ o
    → has w (sockets_of r (leave_set k ws o m))
      ≡ (not ((k == r) && (ws == w)) && has w (sockets_of r m))
unfolding exists_where
leave_set-has r k w ws m none e = elim (Bool-cases (k == r)) [
  | inl y ↦ rw (y, ← (==_iff k r).0 y, e) (and_false (not (ws == w)))
  | inr n ↦ rw n refl
]
leave_set-has r k w ws m (some set) e =
    has-keep_set r k w (remove_member ws set) m ∙ elim (Bool-cases (k == r)) [
      | inl y ↦ rw (y, ← (==_iff k r).0 y, e) (has-remove_member w ws set)
      | inr n ↦ rw n refl
    ]

pub leave_socket-has :
    (r k : String) (w ws : Socket) (m : List (String × List Socket))
    → has w (sockets_of r (leave_socket k ws m))
      ≡ (not ((k == r) && (ws == w)) && has w (sockets_of r m))
unfolding leave_socket
leave_socket-has r k w ws m = leave_set-has r k w ws m (value_of k m) refl

abbrev pub IsInhabited : List (String × List Socket) → Type 0
IsInhabited m = (r : String) → value_of r m ≢ some []

set_entry-IsInhabited :
    (k : String) (x : Socket) (v : List Socket) (m : List (String × List Socket))
    → IsInhabited m
    → IsInhabited (set_entry k (x ∷ v) m)
set_entry-IsInhabited k x v m inh r e = elim (Bool-cases (k == r)) [
  | inl y ↦ absurd (cc (rw y at (sym (value_of-set_entry r k (x ∷ v) m) ∙ e)))
  | inr n ↦ inh r (rw n at (sym (value_of-set_entry r k (x ∷ v) m) ∙ e))
]

pub delete_entry-IsInhabited :
    (k : String) (m : List (String × List Socket)) → IsInhabited m → IsInhabited (delete_entry k m)
delete_entry-IsInhabited k m inh r e = elim (Bool-cases (k == r)) [
  | inl y ↦ absurd (cc (rw y at (sym (value_of-delete_entry r k m) ∙ e)))
  | inr n ↦ inh r (rw n at (sym (value_of-delete_entry r k m) ∙ e))
]

keep_set-IsInhabited :
    (k : String) (set : List Socket) (m : List (String × List Socket))
    → IsInhabited m
    → IsInhabited (keep_set k set m)
keep_set-IsInhabited k [] m inh = delete_entry-IsInhabited k m inh
keep_set-IsInhabited k (x ∷ set) m inh = set_entry-IsInhabited k x set m inh

pub leave_socket-IsInhabited :
    (k : String) (ws : Socket) (m : List (String × List Socket))
    → IsInhabited m
    → IsInhabited (leave_socket k ws m)
unfolding leave_socket
leave_socket-IsInhabited k ws m inh = go (value_of k m)
  where
    go : (o : Option (List Socket)) → IsInhabited (leave_set k ws o m)
    go none = inh
    go (some set) = keep_set-IsInhabited k (remove_member ws set) m inh

pub add_entry-IsInhabited :
    (k : String) (ws : Socket) (set : List Socket) (m : List (String × List Socket))
    → IsInhabited m
    → IsInhabited (set_entry k (add_member ws set) m)
add_entry-IsInhabited k ws set m inh = go (add_member ws set) (has-add_member ws ws set)
  where
    go : (v : List Socket) → has ws v ≡ (has ws set || (ws == ws)) → IsInhabited (set_entry k v m)
    go [] e = unfold exists_where in absurd (ground (arith, ==_iff ws ws))
    go (x ∷ v) e = set_entry-IsInhabited k x v m inh
