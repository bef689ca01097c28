-- ===== src/Hub/Syncs.antt =====
-- ws-server.ts: whom im.sync answers, and with what.
use sman_server.Base.{
  ℕ, String, ◌≡◌, refl, ◌∙◌, Bool, true, false, Bool-cases, ◌||◌, none, some, List, map, ==_iff,
  string_eq, inl, inr, ◌⊎◌, arith,
}
use sman_server.Base.Maps.{value_of, set_entry, value_of-set_entry}
use sman_server.Base.Sets.{has, add_member, has-add_member}
use sman_server.Base.Texts.{is_empty}
use sman_server.Im.Store.{ImMessageRow, get_messages_after}
use sman_server.Im.Sync.{Synced, get_messages_after-Synced}
use sman_server.Hub.Types.{AuthedClient, im_sync}
use sman_server.Hub.State.{Env, Hub, send, send_error, add_im_room_member, members_of}
use sman_server.Hub.ImMessages.{
  handle_im_sync, admit, messages_for, encrypt_row, stored_members, sync_admitted,
}

module _ (env : Env) (client : AuthedClient) (room_id : String) (after : ℕ) (h : Hub) where
  -- The client is a member in memory, or in the database.
  abbrev pub is_im_member : Bool
  is_im_member =
      has client.client_id (members_of room_id h)
      || has client.client_id (stored_members env client room_id h)

  -- The answer to a member: the rows of the sync, encrypted. The client is then a member in memory,
  -- and the database is as it was.
  pub record Answered (end : Hub) : Type 0 where
    pub rows : List ImMessageRow
    pub synced : Synced room_id after 200 h.im_db rows
    pub hub : Hub
    pub member : has client.client_id (members_of room_id hub) ≡ true
    pub same_db : hub.im_db ≡ h.im_db
    pub answer : end ≡ send env client.ws (im_sync room_id (map (encrypt_row env client) rows)) hub

  admitted-Answered :
      (h' : Hub)
      → has client.client_id (members_of room_id h') ≡ true
      → h'.im_db ≡ h.im_db
      → Answered (sync_admitted env client room_id after h (some h'))
  unfolding messages_for
  admitted-Answered h' m d = record {
    rows = get_messages_after room_id after none h.im_db;
    synced = get_messages_after-Synced room_id after none h.im_db;
    hub = h';
    member = m;
    same_db = d;
    answer = rw d refl;
  }

  added :
      has client.client_id (members_of room_id (add_im_room_member room_id client.client_id h))
      ≡ true
  unfolding add_im_room_member
  added =
      let ms = add_member client.client_id (members_of room_id h) in
      let at_room : value_of room_id (set_entry room_id ms h.im_room_members) ≡ some ms =
        value_of-set_entry room_id room_id ms h.im_room_members
        ∙ rw ((==_iff room_id room_id).1 refl) refl in
      rw (members_of, at_room)
        (has-add_member client.client_id client.client_id (members_of room_id h)
          ∙ ground (arith, ==_iff client.client_id client.client_id))

  -- A sync of a named room: a member of it gets at most 200 of the rows that are stored in the room
  -- with a later time, in the order of their times, those before every row that is left out; any
  -- other client gets an error, and nothing changes but that.
  pub handle_im_sync_lem :
      is_empty room_id ≡ false
      → ((is_im_member ≡ true) × Answered (handle_im_sync env client room_id after h))
        ⊎ ((is_im_member ≡ false)
            × (handle_im_sync env client room_id after h
                ≡ send_error env client.ws "Not a member of this room" h))
  unfolding handle_im_sync admit add_im_room_member
  handle_im_sync_lem named = elim (Bool-cases (has client.client_id (members_of room_id h))) [
    | inl m ↦ rw (named, m) (inl (refl, admitted-Answered h m refl))
    | inr n ↦ elim (Bool-cases (has client.client_id (stored_members env client room_id h))) [
      | inl m ↦ rw (named, n, m) (inl (refl, admitted-Answered _ added refl))
      | inr k ↦ rw (named, n, k) (inr (refl, refl))
    ]
  ]
