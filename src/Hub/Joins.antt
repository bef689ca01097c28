-- ===== src/Hub/Joins.antt =====
-- ws-server.ts: what a message does to the lists of the members of the rooms.
use Prim.Native.String.{◌++◌ as str_append}
use sman_server.Base.{
  String, ◌≡◌, ◌≢◌, refl, Bool, true, false, ◌||◌, List, [], ◌∷◌, ◌++◌, ◌==◌, ==_iff, ==_refl,
  string_eq, arith, ◌⊎◌, inl, inr, Bool-cases, if◌then◌else◌,
}
use sman_server.Base.Maps.{value_of-set_entry}
use sman_server.Base.Sets.{has, add_member, has-add_member}
use sman_server.Base.Texts.{starts_with_text, has_slash}
use sman_server.Hub.Types.{AuthedClient}
use sman_server.Hub.State.{Env, Hub, members_of, add_im_room_member}
use sman_server.Hub.ImMessages.{track_sender}

-- At most one member is added, at the end.
abbrev pub Added : (String → Type 0) → List String → List String → Type 0
Added P old new = (new ≡ old) ⊎ ((c : String) × P c × (has c old ≡ false) × (new ≡ old ++ c ∷ []))

module _ (room_id c : String) (h : Hub) where
  members_of-add_im_room_member :
      (r : String)
      → members_of r (add_im_room_member room_id c h)
        ≡ (if room_id == r then add_member c (members_of room_id h) else members_of r h)
  unfolding add_im_room_member
  members_of-add_im_room_member r = elim (Bool-cases (room_id == r)) [
    | inl y ↦ rw (members_of, value_of-set_entry r room_id, y) refl
    | inr n ↦ rw (members_of, value_of-set_entry r room_id, n) refl
  ]

  add_member-Added :
      (P : String → Type 0) (old : List String) → P c → Added P old (add_member c old)
  unfolding add_member
  add_member-Added P old own = elim (Bool-cases (has c old)) [
    | inl y ↦ rw y (inl refl)
    | inr n ↦ rw n (inr (c, own, n, refl))
  ]

  joins-Added :
      (P : String → Type 0)
      → P c
      → Added P (members_of room_id h) (members_of room_id (add_im_room_member room_id c h))
  joins-Added P own =
      rw (members_of-add_im_room_member room_id, ==_refl room_id)
        (add_member-Added P (members_of room_id h) own)

  joins-others :
      (r : String) → r ≢ room_id → members_of r (add_im_room_member room_id c h) ≡ members_of r h
  joins-others r d = rw (members_of-add_im_room_member r, apart) refl
    where
      apart : (room_id == r) ≡ false
      apart = ground (arith, ==_iff room_id r)

  joins-has : has c (members_of room_id (add_im_room_member room_id c h)) ≡ true
  joins-has =
      rw
        (
          members_of-add_im_room_member room_id,
          ==_refl room_id,
          has-add_member c c (members_of room_id h),
          ==_refl c,
        )
        (either (has c (members_of room_id h)))
    where
      either : (b : Bool) → (b || true) ≡ true
      either b = ground arith

module _ (env : Env) (client : AuthedClient) (room_id sender : String) (h : Hub) where
  -- After a message of the sender, its room has the sender, or for an agent of the client the client
  -- itself, as a member; nobody else is added, and nobody is removed anywhere.
  pub record Joined (h' : Hub) : Type 0 where
    pub here :
        Added
          (λ c. (c ≡ sender) ⊎ (c ≡ client.client_id))
          (members_of room_id h)
          (members_of room_id h')
    pub elsewhere : (r : String) → r ≢ room_id → members_of r h' ≡ members_of r h
    pub sender_in : has_slash sender ≡ false → has sender (members_of room_id h') ≡ true
    pub client_in :
        has_slash sender ≡ true
        → starts_with_text (str_append client.client_id "/") sender ≡ true
        → has client.client_id (members_of room_id h') ≡ true

  pub track_sender-Joined : Joined (track_sender env client room_id sender h)
  unfolding track_sender
  track_sender-Joined = elim (Bool-cases (has_slash sender)) [
    | inl y ↦ elim (Bool-cases (starts_with_text (str_append client.client_id "/") sender)) [
      | inl z ↦
          rw (y, z)
            (record {
              here = joins-Added room_id client.client_id h _ (inr refl);
              elsewhere = joins-others room_id client.client_id h;
              sender_in = λ e. cc;
              client_in = λ _ _. joins-has room_id client.client_id h;
            })
      | inr z ↦
          rw (y, z)
            (record {
              here = inl refl;
              elsewhere = λ r d. refl;
              sender_in = λ e. cc;
              client_in = λ _ e. cc;
            })
    ]
    | inr n ↦ rw n (record {
      here = joins-Added room_id sender h _ (inl refl);
      elsewhere = joins-others room_id sender h;
      sender_in = λ _. joins-has room_id sender h;
      client_in = λ e _. cc;
    })
  ]
