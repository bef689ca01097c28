-- ===== src/Rooms/Store/Calls.antt =====
-- Each method on the rooms and the members, and the places of the rooms.
use sman_server.Base.{
  ◌+◌, ◌≡◌, refl, sym, ◌∙◌, ap, String, true, false, Option, none, some, some-injective, List, [],
  ◌∷◌, ◌++◌, arith, ◌==◌, ==_iff, ==_refl, string_eq, nat_eq, find_where, find_where-append,
  find_where-update_where, exists_where, exists_where-eq-is_some, map_option, or_default, is_some,
  leb, Option-cases, Bool-cases, inl, inr, if◌then◌else◌,
}
use sman_server.Rooms.Types.{RoomRole, RoomRecord, RoomMemberRecord, RoomDb, Env}
use sman_server.Rooms.Store.{
  CreateRoomParams, room_with_id, in_room, is_row_of, new_room, new_member, get_room,
  get_member_count, is_member, insert_owner, insert_room, create_room, deactivate_room, join_new,
  join_found, leave_found,
}
use sman_server.Rooms.Store.Capacity.{
  IsSound, with_member-IsSound, with_room-IsSound, count-with_member, is_member-with_member,
  find_where-delete_where, count_where-delete_where,
}

last_member :
    (m : RoomMemberRecord) (i c : String) (ms : List RoomMemberRecord)
    → (m.room_id == i) ≡ true
    → (m.client_id == c) ≡ true
    → is_some (find_where (is_row_of i c) (ms ++ m ∷ [])) ≡ true
unfolding find_where
last_member m i c ms a b = elim (Option-cases (find_where (is_row_of i c) ms)) [
  | inl n ↦ rw (find_where-append (is_row_of i c) ms (m ∷ [])) (rw (n, a, b) refl)
  | inr (x, k) ↦ rw (find_where-append (is_row_of i c) ms (m ∷ [])) (rw k refl)
]

module _ (env : Env) where
  insert_owner-IsSound :
      (s : RoomDb) (r : RoomRecord)
      → IsSound s
      → get_room r.id s ≡ none
      → IsSound (insert_owner env r (record s { rooms = s.rooms ++ r ∷ []; draws = s.draws + 1 })).1
  unfolding insert_owner is_member get_member_count
  insert_owner-IsSound s r h free =
      elim (Bool-cases (exists_where (is_row_of r.id r.owner_id) s.room_members)) [
        | inl y ↦ rw y (
            with_room-IsSound s _ r h free refl (λ j c e. e) (λ j. omega arith)
              (sym (exists_where-eq-is_some (is_row_of r.id r.owner_id) s.room_members) ∙ y))
        | inr n ↦
            let m = new_member env r.id r.owner_id r.owner_id RoomRole.owner in
            rw n (
              with_room-IsSound s _ r h free refl (is_member-with_member s m)
                (λ j. omega (arith, count-with_member s m j))
                (last_member m r.id r.owner_id s.room_members (==_refl r.id) (==_refl r.owner_id)))
      ]

  pub create_room-IsSound :
      (p : CreateRoomParams) (s : RoomDb) → IsSound s → IsSound (create_room env p s).1
  unfolding create_room insert_room get_room
  create_room-IsSound p s h =
      let r = new_room env (env.random_uuid s.draws) p in
      elim (Bool-cases (exists_where (room_with_id r.id) s.rooms)) [
        | inl y ↦ rw y h
        | inr n ↦ rw n (insert_owner-IsSound s r h (nowhere r s n))
      ]
    where
      nowhere :
          (r : RoomRecord) (s : RoomDb)
          → exists_where (room_with_id r.id) s.rooms ≡ false
          → get_room r.id s ≡ none
      nowhere r s n = elim (Option-cases (get_room r.id s)) [
        | inl e ↦ e
        | inr (a, k) ↦ absurd (ground (arith, exists_where-eq-is_some (room_with_id r.id) s.rooms))
      ]

  join_new-IsSound :
      (id client name : String) (role : Option RoomRole) (room : RoomRecord)
      (o : Option RoomMemberRecord) (s : RoomDb)
      → get_room id s ≡ some room
      → IsSound s
      → IsSound (join_new env id client name role room o s).1
  unfolding join_new
  join_new-IsSound id client name role room (some e) s k h = h
  join_new-IsSound id client name role room none s k h =
      elim (Bool-cases (leb room.max_agents (get_member_count id s))) [
        | inl y ↦ rw y h
        | inr n ↦ rw n (
            with_member-IsSound s (new_member env id client name (or_default role RoomRole.member))
              room k (ground arith) h)
      ]

  pub join_found-IsSound :
      (id client name : String) (role : Option RoomRole) (o : Option RoomRecord) (s : RoomDb)
      → get_room id s ≡ o
      → IsSound s
      → IsSound (join_found env id client name role o s).1
  unfolding join_found
  join_found-IsSound id client name role none s k h = h
  join_found-IsSound id client name role (some room) s k h = elim (Bool-cases (room.active == 0)) [
    | inl y ↦ rw y h
    | inr n ↦ rw n (join_new-IsSound id client name role room _ s k h)
  ]

pub deactivate_room-IsSound :
    (id : String) (s : RoomDb) → IsSound s → IsSound (deactivate_room id s)
unfolding deactivate_room get_room is_member get_member_count
deactivate_room-IsSound id s h = record {
  owned = λ j r g. let (q, k, o, m) = back j r g in rw o (h.owned j q k);
  fits = λ j r g. let (q, k, o, m) = back j r g in rw m (h.fits j q k);
  settled = λ j g. h.settled j (gone j (find_where (room_with_id j) s.rooms) (sym (same j) ∙ g));
}
  where
    off : RoomRecord → RoomRecord
    off r = if r.id == id then record r { active = 0 } else r

    same : (j : String) → get_room j (deactivate_room id s) ≡ map_option off (get_room j s)
    same j =
        find_where-update_where (room_with_id j) (room_with_id id) (λ r. record r { active = 0 })
          s.rooms (λ r. refl)

    unpack :
        (o : Option RoomRecord) (r : RoomRecord)
        → map_option off o ≡ some r
        → (q : RoomRecord) × (o ≡ some q)
          × (r.owner_id ≡ q.owner_id)
          × (r.max_agents ≡ q.max_agents)
    unpack none r e = absurd (cc (e))
    unpack (some q) r e = (
      q,
      refl,
      ap (λ (x : RoomRecord). x.owner_id) (sym (some-injective _ _ e)) ∙ ground arith,
      ap (λ (x : RoomRecord). x.max_agents) (sym (some-injective _ _ e)) ∙ ground arith,
    )

    back :
        (j : String) (r : RoomRecord)
        → get_room j (deactivate_room id s) ≡ some r
        → (q : RoomRecord) × (get_room j s ≡ some q)
          × (r.owner_id ≡ q.owner_id)
          × (r.max_agents ≡ q.max_agents)
    back j r g = unpack (get_room j s) r (sym (same j) ∙ g)

    gone : (j : String) (o : Option RoomRecord) → map_option off o ≡ none → o ≡ none
    gone j none e = refl
    gone j (some q) e = absurd (cc (e))

pub leave_found-IsSound :
    (id client : String) (o : Option RoomRecord) (s : RoomDb)
    → get_room id s ≡ o
    → IsSound s
    → IsSound (leave_found id client o s).1
unfolding leave_found is_member get_member_count get_room
leave_found-IsSound id client none s k h = h
leave_found-IsSound id client (some room) s k h = elim (Bool-cases (room.owner_id == client)) [
  | inl y ↦ rw y h
  | inr n ↦ rw n (record {
    owned = λ j r g.
        ap is_some (
          find_where-delete_where (is_row_of j r.owner_id) (is_row_of id client) s.room_members
            (spares j r g n))
        ∙ h.owned j r g;
    fits = λ j r g. omega (
      arith,
      count_where-delete_where (in_room j) (is_row_of id client) s.room_members,
      h.fits j r g,
    );
    settled = λ j g. omega (
      arith,
      count_where-delete_where (in_room j) (is_row_of id client) s.room_members,
      h.settled j g,
    );
  })
]
  where
    spares :
        (j : String) (r : RoomRecord)
        → get_room j s ≡ some r
        → (room.owner_id == client) ≡ false
        → (m : RoomMemberRecord) → is_row_of j r.owner_id m ≡ true
        → is_row_of id client m ≡ false
    spares j r g n m e = elim (Bool-cases (is_row_of id client m)) [
      | inr z ↦ z
      | inl y ↦
          let at_j : m.room_id ≡ j = ground (arith, ==_iff m.room_id j) in
          let at_id : m.room_id ≡ id = ground (arith, ==_iff m.room_id id) in
          let of_owner : m.client_id ≡ r.owner_id = ground (arith, ==_iff m.client_id r.owner_id) in
          let of_client : m.client_id ≡ client = ground (arith, ==_iff m.client_id client) in
          let same : room ≡ r =
            some-injective _ _ (sym k ∙ ap (λ (i : String). get_room i s) (sym at_id ∙ at_j) ∙ g) in
          let owner : room.owner_id ≡ client =
            ap (λ (x : RoomRecord). x.owner_id) same ∙ sym of_owner ∙ of_client in
          absurd (cc (n, (==_iff room.owner_id client).1 owner))
    ]
