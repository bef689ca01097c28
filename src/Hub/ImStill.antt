-- ===== src/Hub/ImStill.antt =====
-- No message im.* touches the connections, the rooms or the tasks, and each gives its place back.
use sman_server.Base.{
  ℕ, ◌+◌, ◌-◌, String, ◌≡◌, refl, sym, ap, ◌∙◌, Bool, true, false, Bool-cases, Option, none, some,
  some-injective, List, [], ◌∷◌, string_eq, inl, inr, if◌then◌else◌, leb, arith, select_where,
  Option-cases,
}
use sman_server.Base.Maps.{value_of}
use sman_server.Base.Sets.{has}
use sman_server.Base.Texts.{is_empty, or_text}
use sman_server.Im.Store.{ImRoomRow, MessageParams, get_rooms_for_member}
use sman_server.Im.Cipher.{decrypt_im_message}
use sman_server.Hub.Types.{
  AuthedClient, ImSend, Forward, im_message, im_presence, im_room_invited, im_sync_batch, im_sync,
}
use sman_server.Hub.State.{Env, Hub, M, add_im_room_member, members_of}
use sman_server.Hub.Presence.{
  is_online, presence_of, broadcast_im_presence, schedule_presence_broadcast, presence_fires,
  invite_to, tell_presence, send_pending_im_invitations,
}
use sman_server.Hub.Search.{handle_clients_search}
use sman_server.Hub.ImMessages.{
  checked_sender, track_sender, id_of, stored_params, full_message, spread, handle_im_send,
  handle_im_room_dissolved, stored_members, admit, messages_for, sync_admitted, handle_im_sync,
  sync_items, handle_im_sync_batch, handle_im_transparent, handle_im_presence, invite_members,
  update_room, update_given, handle_im_room_updated,
}
use sman_server.Hub.Connection.{with_im_slot, schedule_each}
use sman_server.Hub.Still.{
  Part, part, IsStill, send-IsStill, send_error-IsStill, send_if_known-IsStill,
  broadcast_to_im_room-IsStill,
}

-- The place that is given back.
abbrev given_back : Part → Part
given_back p = record p { im_active_count = p.im_active_count - 1 }

-- A choice between two results that are both still.
pub if-still :
    (b : Bool) (h g k : Hub)
    → part g ≡ part h
    → part k ≡ part h
    → part (if b then g else k) ≡ part h
if-still true h g k e d = e
if-still false h g k e d = d

module _ (env : Env) where
  presence_of-IsStill :
      (room_id : String) (o : Option (List String)) → IsStill (presence_of env room_id o)
  presence_of-IsStill room_id none h = refl
  presence_of-IsStill room_id (some members) h =
      broadcast_to_im_room-IsStill env room_id
        (im_presence room_id (select_where (is_online env h) members)) none h

  broadcast_im_presence-IsStill : (room_id : String) → IsStill (broadcast_im_presence env room_id)
  unfolding broadcast_im_presence
  broadcast_im_presence-IsStill room_id h =
      presence_of-IsStill room_id (value_of room_id h.im_room_members) h

  pub schedule_each-IsStill : (rooms : List String) → IsStill (schedule_each env rooms)
  unfolding schedule_each schedule_presence_broadcast
  schedule_each-IsStill [] h = refl
  schedule_each-IsStill (r ∷ rest) h = schedule_each-IsStill rest _

  pub presence_fires-IsStill : (room_id : String) → IsStill (presence_fires env room_id)
  unfolding presence_fires
  presence_fires-IsStill room_id h = broadcast_im_presence-IsStill room_id _

  invite_to-IsStill :
      (client : AuthedClient) (rooms : List ImRoomRow) → IsStill (invite_to env client rooms)
  unfolding invite_to
  invite_to-IsStill client [] h = refl
  invite_to-IsStill client (r ∷ rest) h =
      invite_to-IsStill client rest _
      ∙ send-IsStill env client.ws (im_room_invited r.id r.members r.name) _

  tell_presence-IsStill : (rooms : List ImRoomRow) → IsStill (tell_presence env rooms)
  unfolding tell_presence
  tell_presence-IsStill [] h = refl
  tell_presence-IsStill (r ∷ rest) h =
      tell_presence-IsStill rest (broadcast_im_presence env r.id h)
      ∙ broadcast_im_presence-IsStill r.id h

  pub send_pending-IsStill :
      (client : AuthedClient) → IsStill (send_pending_im_invitations env client)
  unfolding send_pending_im_invitations
  send_pending-IsStill client h =
      let rooms = get_rooms_for_member env.like env.json client.client_id h.im_db in
      tell_presence-IsStill rooms (invite_to env client rooms h) ∙ invite_to-IsStill client rooms h

  module _ (client : AuthedClient) where
    spread-part :
        (p : MessageParams) (o : Option String) (h : Hub)
        → part (spread env client p o h).1 ≡ part h
    spread-part p none h = broadcast_to_im_room-IsStill env p.room_id _ (some client.client_id) h
    spread-part p (some text) h = elim (Bool-cases (is_empty text)) [
      | inl y ↦ rw y (
          broadcast_to_im_room-IsStill env p.room_id (im_message (full_message env client p none))
            (some client.client_id) h)
      | inr n ↦ elim (Option-cases (env.reparse text)) [
        | inl e ↦ rw (n, e) refl
        | inr (w, e) ↦
            rw (n, e)
              (broadcast_to_im_room-IsStill env p.room_id
                (im_message (full_message env client p (some w))) (some client.client_id) h)
      ]
    ]

    track_sender-IsStill :
        (room_id sender : String) → IsStill (track_sender env client room_id sender)
    unfolding track_sender add_im_room_member
    track_sender-IsStill room_id sender h = ground arith

    id_of-part : (id : String) (h : Hub) → part (id_of env client id h).1 ≡ part h
    id_of-part id h = elim (Bool-cases (is_empty id)) [ inl y ↦ rw y refl | inr n ↦ rw n refl ]

    pub handle_im_send-part :
        (p : ImSend) (h : Hub) → part (handle_im_send env client p h).1 ≡ part h
    unfolding handle_im_send
    handle_im_send-part p h = elim (Bool-cases (is_empty p.room_id)) [
      | inl y ↦ rw y (send_error-IsStill env client.ws _ h)
      | inr n ↦
          let r = id_of env client p.id h in
          let sender = checked_sender env client (or_text p.sender client.client_id) in
          rw n (
            spread-part
              (stored_params env client p r.0 sender (decrypt_im_message env.cipher p.fields)) _ _
            ∙ track_sender-IsStill p.room_id sender r.1
            ∙ id_of-part p.id h)
    ]

    pub dissolved-IsStill : (p : Forward) → IsStill (handle_im_room_dissolved env client p)
    unfolding handle_im_room_dissolved
    dissolved-IsStill p h =
        if-still (is_empty p.room_id) h h _ refl
          (broadcast_to_im_room-IsStill env p.room_id _ (some client.client_id) h)

    pub transparent-IsStill : (p : Forward) → IsStill (handle_im_transparent env client p)
    unfolding handle_im_transparent
    transparent-IsStill p h =
        if-still (is_empty p.room_id) h h _ refl
          (broadcast_to_im_room-IsStill env p.room_id _ (some client.client_id) h)

    pub presence-IsStill : (room_id : String) → IsStill (handle_im_presence env client room_id)
    unfolding handle_im_presence schedule_presence_broadcast
    presence-IsStill room_id h = if-still (is_empty room_id) h h _ refl refl

    pub admit-part :
        (room_id : String) (h : Hub) {h' : Hub}
        → admit env client room_id h ≡ some h'
        → part h' ≡ part h
    unfolding admit add_im_room_member
    admit-part room_id h e = elim (Bool-cases (has client.client_id (members_of room_id h))) [
      | inl y ↦ ap part (sym (some-injective _ _ (rw y at e)))
      | inr n ↦ elim (Bool-cases (has client.client_id (stored_members env client room_id h))) [
        | inl y ↦ ap part (sym (some-injective _ _ (rw (n, y) at e)))
        | inr z ↦ absurd (cc (rw (n, z) at e))
      ]
    ]

    sync_admitted-part :
        (room_id : String) (after : ℕ) (h : Hub) (o : Option Hub)
        → ((h' : Hub) → o ≡ some h' → part h' ≡ part h)
        → part (sync_admitted env client room_id after h o) ≡ part h
    sync_admitted-part room_id after h none e = send_error-IsStill env client.ws _ h
    sync_admitted-part room_id after h (some h') e =
        send-IsStill env client.ws (im_sync room_id (messages_for env client room_id after h')) h'
        ∙ e h' refl

    pub sync-IsStill :
        (room_id : String) (after : ℕ) → IsStill (handle_im_sync env client room_id after)
    unfolding handle_im_sync
    sync-IsStill room_id after h =
        if-still (is_empty room_id) h _ _ (send_error-IsStill env client.ws _ h) (
          sync_admitted-part room_id after h (admit env client room_id h)
            (λ h' e. admit-part room_id h e))

    sync_items-part :
        (items : List (String × ℕ)) (h : Hub) → part (sync_items env client items h).1 ≡ part h
    unfolding sync_items
    sync_items-part [] h = refl
    sync_items-part ((room_id, after) ∷ rest) h = elim (Bool-cases (is_empty room_id)) [
      | inl y ↦ rw y (sync_items-part rest h)
      | inr n ↦ elim (Option-cases (admit env client room_id h)) [
        | inl e ↦ rw (n, e) (sync_items-part rest h)
        | inr (h', e) ↦ rw (n, e) (sync_items-part rest h' ∙ admit-part room_id h e)
      ]
    ]

    pub sync_batch-IsStill :
        (items : List (String × ℕ)) → IsStill (handle_im_sync_batch env client items)
    unfolding handle_im_sync_batch
    sync_batch-IsStill [] h = send_error-IsStill env client.ws _ h
    sync_batch-IsStill (item ∷ items) h =
        let r = sync_items env client (item ∷ items) h in
        send-IsStill env client.ws (im_sync_batch r.0) r.1 ∙ sync_items-part (item ∷ items) h

    invite_members-part :
        (ms : List String) (h : Hub) (room_id : String) (members : List String) (name : String)
        → part (invite_members env client ms h room_id members name) ≡ part h
    unfolding invite_members
    invite_members-part [] h room_id members name = refl
    invite_members-part (m ∷ rest) h room_id members name =
        invite_members-part rest _ room_id members name
        ∙ send_if_known-IsStill env (value_of m h.client_id_to_ws)
            (im_room_invited room_id members name) h

    update_room-IsStill :
        (name : String) (members : List String) (p : Forward)
        → IsStill (update_room env client name members p)
    update_room-IsStill name members p h =
        invite_members-part _ _ p.room_id members name
        ∙ broadcast_to_im_room-IsStill env p.room_id _ none _

    update_given-IsStill :
        (name : String) (o : Option (List String)) (p : Forward)
        → IsStill (update_given env client name o p)
    update_given-IsStill name none p h = refl
    update_given-IsStill name (some members) p h = update_room-IsStill name members p h

    pub updated-IsStill :
        (name : String) (o : Option (List String)) (p : Forward)
        → IsStill (handle_im_room_updated env client name o p)
    unfolding handle_im_room_updated
    updated-IsStill name o p h =
        if-still (is_empty p.room_id) h h _ refl (update_given-IsStill name o p h)

    pub search-IsStill :
        (text : String) (seq : ℕ) → IsStill (handle_clients_search env client text seq)
    unfolding handle_clients_search
    search-IsStill text seq h = send-IsStill env client.ws _ h

    -- The place that a message takes is given back, whether its handler returns or throws.
    pub with_im_slot-part :
        (m : M (Unit {0}))
        → ((h : Hub) → part (m h).1 ≡ part h)
        → (h : Hub) → part (with_im_slot env client m h).1 ≡ part h
    unfolding with_im_slot
    with_im_slot-part m e h = elim (Bool-cases (leb 20 h.im_active_count)) [
      | inl y ↦ rw y (send_error-IsStill env client.ws _ h)
      | inr n ↦
          let begun = record h { im_active_count = h.im_active_count + 1 } in
          let same : h.im_active_count + 1 - 1 ≡ h.im_active_count = omega arith in
          rw n (ap given_back (e begun) ∙ (λ i. record (part h) { im_active_count = same i }))
    ]
