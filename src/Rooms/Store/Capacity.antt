-- ===== src/Rooms/Store/Capacity.antt =====
-- Rooms and their members: every room has its owner among its members, and no more members than it
-- has places.
use sman_server.Base.{
  ℕ, ◌+◌, ◌≤◌, ◌<◌, ◌≡◌, refl, sym, ◌∙◌, ap, subst, String, Bool, true, false, none, some,
  some-injective, List, [], ◌∷◌, ◌++◌, arith, ◌==◌, ==_iff, string_eq, nat_eq, find_where,
  find_where-append, count_where, count_where-append, delete_where, or_else, Option-cases,
  Bool-cases, inl, inr, if◌then◌else◌,
}
use sman_server.Rooms.Types.{RoomRecord, RoomMemberRecord, RoomDb}
use sman_server.Rooms.Store.{
  room_with_id, in_room, is_row_of, get_room, get_member_count, is_member,
}

module _ {A : Type 0} where
  pub count_where-delete_where :
      (p q : A → Bool) (xs : List A) → count_where p (delete_where q xs) ≤ count_where p xs
  unfolding count_where delete_where
  count_where-delete_where p q [] = omega arith
  count_where-delete_where p q (x ∷ xs) = elim (Bool-cases (q x)) [
    | inl y ↦ rw y (omega (arith, count_where-delete_where p q xs))
    | inr n ↦ rw n (omega (arith, count_where-delete_where p q xs))
  ]

  -- A DELETE leaves the row that a test finds, if it deletes no row of the test.
  pub find_where-delete_where :
      (p q : A → Bool) (xs : List A)
      → ((x : A) → p x ≡ true → q x ≡ false)
      → find_where p (delete_where q xs) ≡ find_where p xs
  unfolding find_where delete_where
  find_where-delete_where p q [] h = refl
  find_where-delete_where p q (x ∷ xs) h = elim (Bool-cases (q x)) [
    | inl y ↦ elim (Bool-cases (p x)) [
      | inl t ↦ absurd (ground (arith, h x t))
      | inr f ↦ rw (y, f) (find_where-delete_where p q xs h)
    ]
    | inr n ↦ elim (Bool-cases (p x)) [
      | inl t ↦ rw (n, t) refl
      | inr f ↦ rw (n, f) (find_where-delete_where p q xs h)
    ]
  ]

-- The places of a room: a room for no one still has its owner.
abbrev pub places : RoomRecord → ℕ
places r = if r.max_agents == 0 then 1 else r.max_agents

pub record IsSound (s : RoomDb) : Type 0 where
  pub owned :
      (id : String) (r : RoomRecord) → get_room id s ≡ some r → is_member id r.owner_id s ≡ true
  pub fits :
      (id : String) (r : RoomRecord) → get_room id s ≡ some r → get_member_count id s ≤ places r
  pub settled : (id : String) → get_room id s ≡ none → get_member_count id s ≡ 0

module _ (s : RoomDb) (m : RoomMemberRecord) where
  abbrev with_member : RoomDb
  with_member = record s { room_members = s.room_members ++ m ∷ [] }

  pub count-with_member :
      (j : String)
      → get_member_count j with_member ≡ get_member_count j s + (if m.room_id == j then 1 else 0)
  unfolding get_member_count count_where
  count-with_member j = omega (arith, count_where-append (in_room j) s.room_members (m ∷ []))

  pub is_member-with_member :
      (j c : String) → is_member j c s ≡ true → is_member j c with_member ≡ true
  unfolding is_member
  is_member-with_member j c h = elim (Option-cases (find_where (is_row_of j c) s.room_members)) [
    | inl n ↦ absurd (ground arith)
    | inr (a, k) ↦ rw (find_where-append (is_row_of j c) s.room_members (m ∷ [])) (rw k refl)
  ]

  -- A member more in a room with a place left.
  pub with_member-IsSound :
      (room : RoomRecord)
      → get_room m.room_id s ≡ some room
      → get_member_count m.room_id s < places room
      → IsSound s
      → IsSound with_member
  unfolding get_room
  with_member-IsSound room k free h = record {
    owned = λ j r g. is_member-with_member j r.owner_id (h.owned j r g);
    fits = λ j r g. elim (Bool-cases (m.room_id == j)) [
      | inl y ↦
          let same : room ≡ r =
            some-injective _ _
              (sym k ∙ ap (λ (i : String). get_room i s) ((==_iff m.room_id j).0 y) ∙ g) in
          let less : get_member_count j s < places r =
            subst (λ (r : RoomRecord). get_member_count j s < places r) same
              (subst (λ (i : String). get_member_count i s < places room) ((==_iff m.room_id j).0 y)
                free) in
          rw (count-with_member j, y) (omega arith)
      | inr n ↦ rw (count-with_member j, n) (omega (arith, h.fits j r g))
    ];
    settled = λ j g. elim (Bool-cases (m.room_id == j)) [
      | inl y ↦ absurd (cc (k, g, ap (λ (i : String). get_room i s) ((==_iff m.room_id j).0 y)))
      | inr n ↦ rw (count-with_member j, n) (omega (arith, h.settled j g))
    ];
  }

-- One room more, with its owner.
module _ (s s2 : RoomDb) (r : RoomRecord) (h : IsSound s) (free : get_room r.id s ≡ none)
    (rooms2 : s2.rooms ≡ s.rooms ++ r ∷ []) where
  found_in :
      (j : String) → get_room j s2 ≡ or_else (get_room j s) (if r.id == j then some r else none)
  unfolding get_room find_where
  found_in j = rw rooms2 (find_where-append (room_with_id j) s.rooms (r ∷ []))

  old : (j : String) {a : RoomRecord} → get_room j s ≡ some a → get_room j s2 ≡ some a
  old j k = found_in j ∙ rw k refl

  added : (j : String) → get_room j s ≡ none → (r.id == j) ≡ true → get_room j s2 ≡ some r
  added j n y = found_in j ∙ rw (n, y) refl

  absent : (j : String) → get_room j s ≡ none → (r.id == j) ≡ false → get_room j s2 ≡ none
  absent j n z = found_in j ∙ rw (n, z) refl

  pub with_room-IsSound :
      ((j c : String) → is_member j c s ≡ true → is_member j c s2 ≡ true)
      → ((j : String) → get_member_count j s2 ≤ get_member_count j s + (if r.id == j then 1 else 0))
      → is_member r.id r.owner_id s2 ≡ true
      → IsSound s2
  with_room-IsSound keeps count mine = record {
    owned = λ j q g. elim (Option-cases (get_room j s)) [
      | inr (a, k) ↦ keeps j q.owner_id (h.owned j q (k ∙ sym (old j k) ∙ g))
      | inl n ↦ elim (Bool-cases (r.id == j)) [
        | inl y ↦
            let same : r ≡ q = some-injective _ _ (sym (added j n y) ∙ g) in
            subst (λ (q : RoomRecord). is_member j q.owner_id s2 ≡ true) same
              (subst (λ (i : String). is_member i r.owner_id s2 ≡ true) ((==_iff r.id j).0 y) mine)
        | inr z ↦ absurd (cc (absent j n z, g))
      ]
    ];
    fits = λ j q g. elim (Option-cases (get_room j s)) [
      | inr (a, k) ↦
          let other : (r.id == j) ≡ false = apart j a k in
          let c : get_member_count j s2 ≤ get_member_count j s + 0 = rw other at (count j) in
          omega (arith, c, h.fits j q (k ∙ sym (old j k) ∙ g))
      | inl n ↦ elim (Bool-cases (r.id == j)) [
        | inl y ↦
            let c : get_member_count j s2 ≤ get_member_count j s + 1 = rw y at (count j) in
            some_place q (omega (arith, c, h.settled j n))
        | inr z ↦ absurd (cc (absent j n z, g))
      ]
    ];
    settled = λ j g. elim (Option-cases (get_room j s)) [
      | inr (a, k) ↦ absurd (cc (old j k, g))
      | inl n ↦ elim (Bool-cases (r.id == j)) [
        | inl y ↦ absurd (cc (added j n y, g))
        | inr z ↦
            let c : get_member_count j s2 ≤ get_member_count j s + 0 = rw z at (count j) in
            omega (arith, c, h.settled j n)
      ]
    ];
  }
    where
      apart : (j : String) (a : RoomRecord) → get_room j s ≡ some a → (r.id == j) ≡ false
      apart j a k = elim (Bool-cases (r.id == j)) [
        | inr z ↦ z
        | inl y ↦ absurd (cc (k, free, ap (λ (i : String). get_room i s) ((==_iff r.id j).0 y)))
      ]

      some_place : (q : RoomRecord) {n : ℕ} → n ≤ 1 → n ≤ places q
      some_place q e = ground arith
