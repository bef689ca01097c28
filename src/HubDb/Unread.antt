-- ===== src/HubDb/Unread.antt =====
-- What a client is sent after it has acknowledged broadcasts.
use sman_server.Base.{
  ℕ, String, ◌≡◌, refl, ap, ◌∙◌, Bool, true, false, not, ◌&&◌, ◌||◌, Bool-cases, Option, none, some,
  List, [], ◌∷◌, ◌++◌, map, ◌==◌, ==_iff, string_eq, inl, inr, arith, exists_where, select_where,
  ltb, nat_eq,
}
use sman_server.Base.Sets.{has}
use sman_server.HubDb.Broadcasts.{
  BroadcastRow, ReadRow, BroadcastDb, mark_as_read, is_read_row, get_read_broadcast_ids,
  get_broadcasts_since, EncryptedRequest, Reply, bad_request, replied, BroadcastQueryPayload,
  AckPayload, BroadcastMessage, validate_request, message_of, unread, query, broadcasts_route,
  mark_all, ack_route, newest_first,
}

abbrev read_ids : String → List ReadRow → List String
read_ids client_id log =
    map (λ (r : ReadRow). r.broadcast_id)
      (select_where (λ (r : ReadRow). r.client_id == client_id) log)

module _ (x d c b : String) (at_time : ℕ) where
  read_already :
      (log : List ReadRow)
      → exists_where (is_read_row c b) log ≡ true
      → has x (read_ids d log) ≡ (has x (read_ids d log) || ((c == d) && (b == x)))
  unfolding exists_where select_where
  read_already [] e = cc
  read_already (r ∷ log) e = elim (Bool-cases (is_read_row c b r)) [
    | inl y ↦
        let client : r.client_id ≡ c = ground (arith, ==_iff r.client_id c) in
        let broadcast : r.broadcast_id ≡ b = ground (arith, ==_iff r.broadcast_id b) in
        rw (client, broadcast) (ground arith)
    | inr n ↦ ground (arith, read_already log (rw n at e))
  ]

  read-snoc :
      (log : List ReadRow)
      → has x
          (read_ids d (log ++ record { client_id = c; broadcast_id = b; read_at = at_time } ∷ []))
        ≡ (has x (read_ids d log) || ((c == d) && (b == x)))
  unfolding exists_where select_where
  read-snoc [] = ground arith
  read-snoc (r ∷ log) = ground (arith, read-snoc log)

  mark_as_read_lem :
      (s : BroadcastDb)
      → has x (get_read_broadcast_ids d (mark_as_read at_time c b s))
        ≡ (has x (get_read_broadcast_ids d s) || ((c == d) && (b == x)))
  unfolding mark_as_read get_read_broadcast_ids
  mark_as_read_lem s = elim (Bool-cases (exists_where (is_read_row c b) s.read_log)) [
    | inl y ↦ rw y (read_already s.read_log y)
    | inr n ↦ rw n (read-snoc s.read_log)
  ]

module _ (now : ℕ) (c : String) (x d : String) where
  mark_all_lem :
      (ids : List String) (s : BroadcastDb)
      → has x (get_read_broadcast_ids d (mark_all now c ids s))
        ≡ (has x (get_read_broadcast_ids d s) || ((c == d) && has x ids))
  unfolding mark_all exists_where
  mark_all_lem [] s = ground arith
  mark_all_lem (b ∷ ids) s =
      mark_all_lem ids (mark_as_read now c b s) ∙ rw (mark_as_read_lem x d c b now s) (ground arith)

mark_all-broadcasts :
    (now : ℕ) (c : String) (ids : List String) (s : BroadcastDb)
    → (mark_all now c ids s).broadcasts ≡ s.broadcasts
unfolding mark_all mark_as_read
mark_all-broadcasts now c [] s = refl
mark_all-broadcasts now c (b ∷ ids) s =
    mark_all-broadcasts now c ids (mark_as_read now c b s)
    ∙ elim (Bool-cases (exists_where (is_read_row c b) s.read_log)) [
      | inl y ↦ rw y refl
      | inr n ↦ rw n refl
    ]

-- The messages of a reply without those of the ids, if the reply is to the client `c`.
abbrev pub without : Bool → List String → List BroadcastMessage → List BroadcastMessage
without mine ids ms = select_where (λ (m : BroadcastMessage). not (mine && has m.id ids)) ms

abbrev pub reply_without :
    Bool → List String → Reply (List BroadcastMessage) → Reply (List BroadcastMessage)
reply_without mine ids (bad_request error) = bad_request error
reply_without mine ids (replied ms) = replied (without mine ids ms)

abbrev pub asked_by : String → Option BroadcastQueryPayload → Bool
asked_by c none = false
asked_by c (some q) = c == q.client_id

select-select :
    (f g : String → Bool) (mine : Bool) (ids : List String) (rows : List BroadcastRow)
    → ((x : String) → g x ≡ (f x || (mine && has x ids)))
    → map message_of (select_where (λ b. not (g b.id)) rows)
      ≡ without mine ids (map message_of (select_where (λ b. not (f b.id)) rows))
unfolding select_where
select-select f g mine ids [] same = refl
select-select f g mine ids (b ∷ rows) same =
    ground (arith, select-select f g mine ids rows same, same b.id)

module _ (now : ℕ) (c : String) (ids : List String) where
  since-mark_all :
      (since : ℕ) (s : BroadcastDb)
      → get_broadcasts_since since (mark_all now c ids s) ≡ get_broadcasts_since since s
  unfolding get_broadcasts_since
  since-mark_all since s =
      ap
        (λ bs.
          newest_first
            (select_where (λ (b : BroadcastRow). b.active == 1 && ltb since b.created_at) bs))
        (mark_all-broadcasts now c ids s)

  unread-mark_all :
      (q : BroadcastQueryPayload) (s : BroadcastDb)
      → unread q (mark_all now c ids s) ≡ without (c == q.client_id) ids (unread q s)
  unread-mark_all q s =
      ap
        (λ rows. map message_of (
          select_where
            (λ (b : BroadcastRow).
              not (has b.id (get_read_broadcast_ids q.client_id (mark_all now c ids s))))
            rows))
        (since-mark_all q.since s)
      ∙ select-select (λ x. has x (get_read_broadcast_ids q.client_id s))
          (λ x. has x (get_read_broadcast_ids q.client_id (mark_all now c ids s)))
          (c == q.client_id) ids (get_broadcasts_since q.since s)
          (λ x. mark_all_lem now c x q.client_id ids s)

-- Once a client has acknowledged broadcasts in a request that is accepted, each later query of that
-- client is answered by what it would have got before, less the broadcasts that it acknowledged, in
-- the same order; the queries of other clients are answered as before.
pub ack_route-broadcasts_route :
    (now later : ℕ) (body : EncryptedRequest AckPayload) (a : AckPayload)
    (q : EncryptedRequest BroadcastQueryPayload) (s : BroadcastDb)
    → validate_request now body ≡ none
    → body.payload ≡ some a
    → broadcasts_route later q (ack_route now body s).1
      ≡ reply_without (asked_by a.client_id q.payload) a.broadcast_ids (broadcasts_route later q s)
unfolding ack_route broadcasts_route
ack_route-broadcasts_route now later body a q s valid given =
    rw (valid, given) (answers (validate_request later q) q.payload)
  where
    answers :
        (error : Option String) (o : Option BroadcastQueryPayload)
        → query error o (mark_all now a.client_id a.broadcast_ids s)
          ≡ reply_without (asked_by a.client_id o) a.broadcast_ids (query error o s)
    answers (some error) o = refl
    answers none none = refl
    answers none (some p) = ap replied (unread-mark_all now a.client_id a.broadcast_ids p s)
