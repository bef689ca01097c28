-- ===== src/Hub/ImMessages.antt =====
-- ws-server.ts: the handlers of the messages im.* but im.clients.search.
use Prim.Native.String.{◌++◌ as str_append}
use sman_server.Base.{
  ℕ, ◌+◌, String, not, ◌&&◌, ◌||◌, Option, none, some, List, [], ◌∷◌, map, ◌==◌, string_eq, nat_eq,
  if◌then◌else◌, or_default, select_where,
}
use sman_server.Base.Maps.{set_entry, delete_entry, value_of}
use sman_server.Base.Sets.{has, to_set}
use sman_server.Base.Texts.{is_empty, or_text, or_undefined, starts_with_text, has_slash}
use sman_server.Im.Store.{
  ImMessageRow, MessageParams, upsert_message, get_messages_after, upsert_im_room, get_im_room,
  delete_im_room,
}
use sman_server.Im.Cipher.{Fields, encrypt_im_message, decrypt_im_message}
use sman_server.Hub.Types.{
  AuthedClient, ImSend, Forward, ImMessage, im_message, im_room_invited, im_sync, im_sync_batch,
  im_forwarded, im_room_updated,
}
use sman_server.Hub.State.{
  Env, Hub, bad_json, returned, thrown, M, send, send_error, send_if_known, broadcast_to_im_room,
  add_im_room_member, members_of,
}
use sman_server.Hub.Presence.{schedule_presence_broadcast}

module _ (env : Env) where
  module _ (client : AuthedClient) where
    -- ---- im.send ----

    -- The client itself or one of its agents.
    unfoldable pub checked_sender : String → String
    checked_sender raw_sender =
        if raw_sender == client.client_id
          || starts_with_text (str_append client.client_id "/") raw_sender
        then raw_sender
        else client.client_id

    unfoldable pub track_sender : String → String → Hub → Hub
    track_sender room_id sender h =
        let h' = if has_slash sender then h else add_im_room_member room_id sender h in
        if has_slash sender && starts_with_text (str_append client.client_id "/") sender
        then add_im_room_member room_id client.client_id h'
        else h'

    -- `msg.id || randomUUID()`, with the count of the draws.
    abbrev pub id_of : String → Hub → String × Hub
    id_of id h =
        if is_empty id
        then (env.random_uuid h.im_draws, record h { im_draws = h.im_draws + 1 })
        else (id, h)

    -- The type of an envelope that gives no msgType is the type of the envelope.
    abbrev pub stored_params : ImSend → String → String → Fields → MessageParams
    stored_params p id sender decrypted = record {
      id = id;
      room_id = p.room_id;
      sender = sender;
      content = or_default decrypted.content "";
      mentioned_agents = p.mentioned_agents;
      quote_id = or_undefined p.quote_id;
      type = some (or_text p.msg_type "im.send");
      status = or_undefined p.status;
      attachments = decrypted.attachments;
      session_id = or_undefined p.session_id;
      timestamp = if p.timestamp == 0 then env.now else p.timestamp;
      seq = some p.seq;
    }

    abbrev pub full_message : MessageParams → Option String → ImMessage
    full_message p attachments = record {
      id = p.id;
      room_id = p.room_id;
      sender = p.sender;
      fields =
          encrypt_im_message env.cipher
            (record { content = some p.content; attachments = attachments });
      msg_type = or_default p.type "text";
      timestamp = p.timestamp;
      seq = or_default p.seq 0;
      mentioned_agents = p.mentioned_agents;
      quote_id = p.quote_id;
      status = p.status;
      session_id = p.session_id;
    }

    -- Attachments are parsed and written again; a text that is no JSON throws.
    abbrev pub spread : MessageParams → Option String → M (Unit {0})
    spread p none h = (
      returned tt,
      broadcast_to_im_room env p.room_id (im_message (full_message p none)) (some client.client_id)
          h,
    )
    spread p (some text) h =
        if is_empty text
        then (
          returned tt,
          broadcast_to_im_room env p.room_id (im_message (full_message p none))
              (some client.client_id) h,
        )
        else elim (env.reparse text) [
          | none ↦ (thrown bad_json, h)
          | some written ↦ (
            returned tt,
            broadcast_to_im_room env p.room_id (im_message (full_message p (some written)))
                (some client.client_id) h,
          )
        ]

    abbrev pub store_and_spread : MessageParams → M (Unit {0})
    store_and_spread p h = spread p p.attachments (record h { im_db = upsert_message p h.im_db })

    unfoldable pub handle_im_send : ImSend → M (Unit {0})
    unfolding checked_sender track_sender
    handle_im_send p h =
        if is_empty p.room_id
        then (returned tt, send_error env client.ws "roomId is required for im.send" h)
        else (let (id, h') = id_of p.id h in
            let sender = checked_sender (or_text p.sender client.client_id) in
            store_and_spread (stored_params p id sender (decrypt_im_message env.cipher p.fields))
              (track_sender p.room_id sender h'))

    -- ---- The other messages ----

    unfoldable pub handle_im_room_dissolved : Forward → Hub → Hub
    handle_im_room_dissolved p h =
        if is_empty p.room_id
        then h
        else (let h' =
              broadcast_to_im_room env p.room_id
                (im_forwarded (record p { fields = encrypt_im_message env.cipher p.fields }))
                (some client.client_id) h in
            record h' {
              im_db = delete_im_room p.room_id h'.im_db;
              im_room_members = delete_entry p.room_id h'.im_room_members;
            })

    -- In memory, or in the database.
    abbrev pub stored_members : String → Hub → List String
    stored_members room_id h = elim (get_im_room room_id h.im_db) [
      | none ↦ []
      | some room ↦ room.members
    ]

    -- A member of the database's list is added to the one in memory.
    unfoldable pub admit : String → Hub → Option Hub
    admit room_id h =
        if has client.client_id (members_of room_id h)
        then some h
        else if has client.client_id (stored_members room_id h)
        then some (add_im_room_member room_id client.client_id h)
        else none

    abbrev pub encrypt_row : ImMessageRow → ImMessageRow
    encrypt_row m =
        let fields =
          encrypt_im_message env.cipher
            (record { content = some m.content; attachments = m.attachments }) in
        record m { content = or_default fields.content ""; attachments = fields.attachments }

    unfoldable pub messages_for : String → ℕ → Hub → List ImMessageRow
    messages_for room_id after h = map encrypt_row (get_messages_after room_id after none h.im_db)

    abbrev pub sync_admitted : String → ℕ → Hub → Option Hub → Hub
    sync_admitted room_id after h none = send_error env client.ws "Not a member of this room" h
    sync_admitted room_id after h (some h') =
        send env client.ws (im_sync room_id (messages_for room_id after h')) h'

    unfoldable pub handle_im_sync : String → ℕ → Hub → Hub
    handle_im_sync room_id after h =
        if is_empty room_id
        then send_error env client.ws "roomId is required for im.sync" h
        else sync_admitted room_id after h (admit room_id h)

    -- The results of a batch, and the hub after the admissions.
    unfoldable pub sync_items : List (String × ℕ) → Hub → List (String × List ImMessageRow) × Hub
    unfolding admit messages_for
    sync_items [] h = ([], h)
    sync_items ((room_id, after) ∷ rest) h =
        let skipped = sync_items rest h in
        if is_empty room_id then skipped else elim (admit room_id h) [
          | none ↦ skipped
          | some h' ↦
              let (results, h'') = sync_items rest h' in
              ((room_id, messages_for room_id after h') ∷ results, h'')
        ]

    abbrev pub tell_batch : List (String × List ImMessageRow) × Hub → Hub
    tell_batch (results, h) = send env client.ws (im_sync_batch results) h

    unfoldable pub handle_im_sync_batch : List (String × ℕ) → Hub → Hub
    unfolding sync_items
    handle_im_sync_batch [] h =
        send_error env client.ws "items array is required for im.sync.batch" h
    handle_im_sync_batch (item ∷ items) h = tell_batch (sync_items (item ∷ items) h)

    unfoldable pub handle_im_transparent : Forward → Hub → Hub
    handle_im_transparent p h =
        if is_empty p.room_id
        then h
        else broadcast_to_im_room env p.room_id
            (im_forwarded (record p { fields = encrypt_im_message env.cipher p.fields }))
            (some client.client_id) h

    unfoldable pub handle_im_presence : String → Hub → Hub
    handle_im_presence room_id h =
        if is_empty room_id then h else schedule_presence_broadcast env room_id h

    unfoldable pub invite_members : List String → Hub → String → List String → String → Hub
    invite_members [] h room_id members name = h
    invite_members (m ∷ rest) h room_id members name =
        invite_members rest
          (send_if_known env (value_of m h.client_id_to_ws) (im_room_invited room_id members name)
            h)
          room_id members name

    -- The members that the old set has not, less the sender.
    abbrev pub invited : List String → List String → List String
    invited old members =
        select_where (λ (m : String). not (has m old) && not (m == client.client_id)) members

    abbrev pub update_room : String → List String → Forward → Hub → Hub
    update_room name members p h =
        let h' = record h {
          im_room_members = set_entry p.room_id (to_set members) h.im_room_members;
          im_db = upsert_im_room p.room_id name members none h.im_db;
        } in
        let h'' =
          broadcast_to_im_room env p.room_id
            (im_room_updated name members
              (record p { fields = encrypt_im_message env.cipher p.fields }))
            none h' in
        invite_members (invited (members_of p.room_id h) members) h'' p.room_id members name

    abbrev pub update_given : String → Option (List String) → Forward → Hub → Hub
    update_given name none p h = h
    update_given name (some members) p h = update_room name members p h

    unfoldable pub handle_im_room_updated : String → Option (List String) → Forward → Hub → Hub
    unfolding invite_members
    handle_im_room_updated name members p h =
        if is_empty p.room_id then h else update_given name members p h
