-- ===== src/Hub/Lifetimes.antt =====
-- A connection enters the hub's maps whole and leaves them whole.
use sman_server.Base.{
  ℕ, ◌+◌, ◌<◌, String, ◌≡◌, refl, sym, ap, subst, ◌∙◌, Bool, true, false, not, Bool-cases, Option,
  none, some, some-injective, List, [], ◌∷◌, ◌++◌, ◌==◌, ==_iff, ◌&&◌, inl, inr, if◌then◌else◌,
  nat_eq, string_eq, arith, All, All-append, All-weaken, find_where, find_where-append, or_else,
  delete_where, exists_where, exists_where-eq-is_some, &&_iff, is_some,
}
use sman_server.Base.Maps.{
  value_of, set_entry, delete_entry, value_of-set_entry, value_of-delete_entry,
}
use sman_server.Base.Sets.{has}
use sman_server.Hub.Types.{Socket, AuthedClient}
use sman_server.Hub.State.{sockets_of, leave_socket}
use sman_server.Hub.Connection.{leave_sockets, set_client}
use sman_server.Hub.Still.{Part}
use sman_server.Hub.Sound.{
  client_at, subscribed_to, id_at, IsSound, IsInhabited, leave_socket-has, leave_socket-IsInhabited,
}

-- ---- The end of a connection ----

-- The socket is in none of the sets that it leaves; all else stays.
leave_sockets-has :
    (r : String) (w ws : Socket) (rooms : List String) (m : List (String × List Socket))
    → has w (sockets_of r (leave_sockets ws rooms m))
      ≡ (not (has r rooms && (ws == w)) && has w (sockets_of r m))
unfolding leave_sockets exists_where
leave_sockets-has r w ws [] m = refl
leave_sockets-has r w ws (k ∷ rest) m =
    leave_sockets-has r w ws rest (leave_socket k ws m)
    ∙ ap (λ b. not (has r rest && (ws == w)) && b) (leave_socket-has r k w ws m)
    ∙ join (k == r) (has r rest) (ws == w) (has w (sockets_of r m))
  where
    join :
        (a b c d : Bool)
        → (not (b && c) && (not (a && c) && d)) ≡ (not ((if a then true else b) && c) && d)
    join a b c d = ground arith

leave_sockets-IsInhabited :
    (ws : Socket) (rooms : List String) (m : List (String × List Socket))
    → IsInhabited m
    → IsInhabited (leave_sockets ws rooms m)
unfolding leave_sockets
leave_sockets-IsInhabited ws [] m inh = inh
leave_sockets-IsInhabited ws (k ∷ rest) m inh =
    leave_sockets-IsInhabited ws rest (leave_socket k ws m) (leave_socket-IsInhabited k ws m inh)

pub client_at-delete :
    (ws j : Socket) (clients : List AuthedClient)
    → client_at j (delete_where (λ (c : AuthedClient). c.ws == ws) clients)
      ≡ (if ws == j then none else client_at j clients)
unfolding find_where delete_where
client_at-delete ws j [] = both (ws == j)
  where
    nothing : Option AuthedClient
    nothing = none

    both : (b : Bool) → nothing ≡ (if b then nothing else nothing)
    both true = refl
    both false = refl
client_at-delete ws j (c ∷ rest) =
    ground (arith, client_at-delete ws j rest, ==_iff c.ws ws, ==_iff c.ws j, ==_iff ws j)

delete_where-All :
    (P : AuthedClient → Type 0) (p : AuthedClient → Bool) (clients : List AuthedClient)
    → All P clients
    → All P (delete_where p clients)
unfolding delete_where
delete_where-All P p [] h = tt
delete_where-All P p (c ∷ rest) h = elim (Bool-cases (p c)) [
  | inl y ↦ rw y (delete_where-All P p rest h.1)
  | inr n ↦ rw n (h.0, delete_where-All P p rest h.1)
]

-- The maps after the client is gone.
abbrev pub without : AuthedClient → Part → Part
without c p = record p {
  clients = delete_where (λ (d : AuthedClient). d.ws == c.ws) p.clients;
  client_id_to_ws = delete_entry c.client_id p.client_id_to_ws;
  rooms = leave_sockets c.ws c.subscribed_rooms p.rooms;
}

module _ (p : Part) (v : IsSound p) where
  module _ (c : AuthedClient) (k : client_at c.ws p.clients ≡ some c) where
    at_mine : (ws : Socket) → c.ws ≡ ws → client_at ws p.clients ≡ some c
    at_mine ws same = subst (λ j. client_at j p.clients ≡ some c) same k

    -- A socket that is still in a set is another one.
    still_listed :
        (r : String) (ws : Socket)
        → (not (has r c.subscribed_rooms && (c.ws == ws)) && has ws (sockets_of r p.rooms)) ≡ true
        → (has ws (sockets_of r p.rooms) ≡ true) × ((c.ws == ws) ≡ false)
    still_listed r ws e = elim (Bool-cases (c.ws == ws)) [
      | inl y ↦
          let same : c.ws ≡ ws = (==_iff c.ws ws).0 y in
          let both =
            (&&_iff (not (has r c.subscribed_rooms && (c.ws == ws)))
                (has ws (sockets_of r p.rooms))).0
              e in
          let mine : has r c.subscribed_rooms ≡ true =
            sym (ap (subscribed_to r) (at_mine ws same)) ∙ v.listed r ws both.1 in
          absurd (cc (sym (rw (mine, y) at both.0)))
      | inr n ↦ (
        ((&&_iff (not (has r c.subscribed_rooms && (c.ws == ws))) (has ws (sockets_of r p.rooms))).0
            e).1,
        n,
      )
    ]

    listed_without :
        (r : String) (ws : Socket)
        → has ws (sockets_of r (leave_sockets c.ws c.subscribed_rooms p.rooms)) ≡ true
        → subscribed_to r
            (client_at ws (delete_where (λ (d : AuthedClient). d.ws == c.ws) p.clients))
          ≡ true
    listed_without r ws e =
        let (old, n) =
          still_listed r ws (sym (leave_sockets-has r ws c.ws c.subscribed_rooms p.rooms) ∙ e) in
        ap (subscribed_to r) (client_at-delete c.ws ws p.clients) ∙ rw n (v.listed r ws old)

    indexed_without :
        (client_id : String) (ws : Socket)
        → value_of client_id (delete_entry c.client_id p.client_id_to_ws) ≡ some ws
        → id_at (client_at ws (delete_where (λ (d : AuthedClient). d.ws == c.ws) p.clients))
          ≡ some client_id
    indexed_without client_id ws e = elim (Bool-cases (c.client_id == client_id)) [
      | inl y ↦
          absurd
            (cc (rw y at (sym (value_of-delete_entry client_id c.client_id p.client_id_to_ws) ∙ e)))
      | inr n ↦
          let old =
            rw n at (sym (value_of-delete_entry client_id c.client_id p.client_id_to_ws) ∙ e) in
          ap id_at (client_at-delete c.ws ws p.clients) ∙ elim (Bool-cases (c.ws == ws)) [
            | inl s ↦
                let same : c.ws ≡ ws = (==_iff c.ws ws).0 s in
                let mine : some c.client_id ≡ some client_id =
                  sym (ap id_at (at_mine ws same)) ∙ v.indexed client_id ws old in
                absurd (ground (arith, ==_iff c.client_id client_id))
            | inr d ↦ rw d (v.indexed client_id ws old)
          ]
    ]

    pub without-IsSound : IsSound (without c p)
    without-IsSound = record {
      listed = listed_without;
      inhabited = leave_sockets-IsInhabited c.ws c.subscribed_rooms p.rooms v.inhabited;
      indexed = indexed_without;
      idle = v.idle;
      used =
          delete_where-All (λ (d : AuthedClient). d.ws < p.connections)
            (λ (d : AuthedClient). d.ws == c.ws) p.clients v.used;
      heard = v.heard;
    }

-- ---- The start of a connection ----

client_at-snoc :
    (j : Socket) (c : AuthedClient) (clients : List AuthedClient)
    → client_at j (clients ++ c ∷ [])
      ≡ or_else (client_at j clients) (if c.ws == j then some c else none)
unfolding find_where
client_at-snoc j c clients = find_where-append (λ (d : AuthedClient). d.ws == j) clients (c ∷ [])

subscribed_to-or_else :
    (r : String) (o x : Option AuthedClient)
    → subscribed_to r o ≡ true
    → subscribed_to r (or_else o x) ≡ true
subscribed_to-or_else r none x e = cc
subscribed_to-or_else r (some c) x e = e

id_at-or_else :
    (o x : Option AuthedClient) {client_id : String}
    → id_at o ≡ some client_id
    → id_at (or_else o x) ≡ some client_id
id_at-or_else none x e = cc
id_at-or_else (some c) x e = e

abbrev pub entered : AuthedClient → Part → Part
entered c p = record p {
  clients = set_client c p.clients;
  client_id_to_ws = set_entry c.client_id c.ws p.client_id_to_ws;
}

module _ (p : Part) (v : IsSound p) (c : AuthedClient) (fresh : client_at c.ws p.clients ≡ none)
    (below : c.ws < p.connections) where
  set_client-snoc : set_client c p.clients ≡ p.clients ++ c ∷ []
  set_client-snoc =
      let absent : exists_where (λ (d : AuthedClient). d.ws == c.ws) p.clients ≡ false =
        exists_where-eq-is_some (λ (d : AuthedClient). d.ws == c.ws) p.clients ∙ ap is_some fresh in
      rw absent refl

  client_at-entered :
      (j : Socket)
      → client_at j (set_client c p.clients)
        ≡ or_else (client_at j p.clients) (if c.ws == j then some c else none)
  client_at-entered j = ap (client_at j) set_client-snoc ∙ client_at-snoc j c p.clients

  newly_indexed :
      (client_id : String) (ws : Socket)
      → value_of client_id (set_entry c.client_id c.ws p.client_id_to_ws) ≡ some ws
      → id_at (or_else (client_at ws p.clients) (if c.ws == ws then some c else none))
        ≡ some client_id
  newly_indexed client_id ws e = elim (Bool-cases (c.client_id == client_id)) [
    | inl y ↦
        let same : c.ws ≡ ws =
          some-injective _ _
            (rw y at (sym (value_of-set_entry client_id c.client_id c.ws p.client_id_to_ws) ∙ e)) in
        rw (← same, fresh, (==_iff c.ws c.ws).1 refl) (ap some ((==_iff c.client_id client_id).0 y))
    | inr n ↦ id_at-or_else (client_at ws p.clients) (if c.ws == ws then some c else none) (
        v.indexed client_id ws
          (rw n at (sym (value_of-set_entry client_id c.client_id c.ws p.client_id_to_ws) ∙ e)))
  ]

  pub entered-IsSound : IsSound (entered c p)
  entered-IsSound = record {
    listed = λ r ws e.
        ap (subscribed_to r) (client_at-entered ws)
        ∙ subscribed_to-or_else r (client_at ws p.clients) (if c.ws == ws then some c else none)
            (v.listed r ws e);
    inhabited = v.inhabited;
    indexed = λ client_id ws e. ap id_at (client_at-entered ws) ∙ newly_indexed client_id ws e;
    idle = v.idle;
    used = subst (All (λ (d : AuthedClient). d.ws < p.connections)) (sym set_client-snoc) (
        All-append (λ (d : AuthedClient). d.ws < p.connections) p.clients (c ∷ []) v.used
          (below, tt));
    heard = v.heard;
  }

-- No client has the socket of a connection that is to come.
client_at-none :
    (n : ℕ) (clients : List AuthedClient)
    → All (λ (c : AuthedClient). c.ws < n) clients
    → client_at n clients ≡ none
unfolding find_where
client_at-none n [] h = refl
client_at-none n (c ∷ rest) h =
    let other : (c.ws == n) ≡ false = ground (arith, h.0, ==_iff c.ws n) in
    rw other (client_at-none n rest h.1)

abbrev pub one_more : Part → Part
one_more p = record p { connections = p.connections + 1 }

pub next_socket : (p : Part) → IsSound p → client_at p.connections p.clients ≡ none
next_socket p v = client_at-none p.connections p.clients v.used

pub one_more-IsSound : (p : Part) → IsSound p → IsSound (one_more p)
one_more-IsSound p v = record {
  listed = v.listed;
  inhabited = v.inhabited;
  indexed = v.indexed;
  idle = v.idle;
  used =
      All-weaken (λ (c : AuthedClient). c.ws < p.connections)
        (λ (c : AuthedClient). c.ws < p.connections + 1) p.clients (λ c h. omega arith) v.used;
  heard =
      All-weaken (λ (w : Socket). w < p.connections) (λ (w : Socket). w < p.connections + 1)
        p.listening (λ w h. omega arith) v.heard;
}
