-- ===== src/Im/Store.antt =====
-- db-im.ts: the messages and the rooms of the instant messages. The members of a room are the list
-- that the code itself wrote as JSON; `now` is `Date.now()`.
use Prim.Native.String.{◌++◌ as str_append}
use sman_server.Base.{
  ℕ, ◌+◌, ◌-◌, ◌*◌, String, Bool, Option, none, some, List, [], ◌∷◌, ◌++◌, ◌&&◌, ◌==◌, string_eq,
  or_default, find_where, exists_where, select_where, count_where, update_where, delete_where,
  sort_asc, sort_desc, take, if◌then◌else◌, ltb,
}

pub record ImMessageRow : Type 0 where
  pub id : String
  pub room_id : String
  pub sender : String
  pub content : String
  pub mentioned_agents : Option String
  pub quote_id : Option String
  pub type : String
  pub status : Option String
  pub attachments : Option String
  pub session_id : Option String
  pub timestamp : ℕ
  pub seq : ℕ

pub record ImRoomRow : Type 0 where
  pub id : String
  pub name : String
  pub members : List String
  pub last_message_time : Option ℕ

pub record ImDb : Type 0 where
  pub im_messages : List ImMessageRow
  pub im_rooms : List ImRoomRow

abbrev pub empty_im : ImDb
empty_im = record { im_messages = []; im_rooms = [] }

-- The parameter object of insertMessage and upsertMessage.
pub record MessageParams : Type 0 where
  pub id : String
  pub room_id : String
  pub sender : String
  pub content : String
  pub mentioned_agents : Option String
  pub quote_id : Option String
  pub type : Option String
  pub status : Option String
  pub attachments : Option String
  pub session_id : Option String
  pub timestamp : ℕ
  pub seq : Option ℕ

abbrev pub row_of : MessageParams → ImMessageRow
row_of p = record {
  id = p.id;
  room_id = p.room_id;
  sender = p.sender;
  content = p.content;
  mentioned_agents = p.mentioned_agents;
  quote_id = p.quote_id;
  type = or_default p.type "text";
  status = p.status;
  attachments = p.attachments;
  session_id = p.session_id;
  timestamp = p.timestamp;
  seq = or_default p.seq 0;
}

abbrev pub message_with_id : String → ImMessageRow → Bool
message_with_id id m = m.id == id

-- INSERT OR IGNORE.
unfoldable pub insert_message : MessageParams → ImDb → ImDb
insert_message p s =
    if exists_where (message_with_id p.id) s.im_messages
    then s
    else record s { im_messages = s.im_messages ++ row_of p ∷ [] }

-- ON CONFLICT(id) DO UPDATE: the content, the status and the type.
abbrev pub rewritten : MessageParams → ImMessageRow → ImMessageRow
rewritten p m = record m { content = p.content; status = p.status; type = or_default p.type "text" }

unfoldable pub upsert_message : MessageParams → ImDb → ImDb
upsert_message p s = record s {
  im_messages =
      if exists_where (message_with_id p.id) s.im_messages
      then update_where (message_with_id p.id) (rewritten p) s.im_messages
      else s.im_messages ++ row_of p ∷ [];
}

abbrev pub is_after : String → ℕ → ImMessageRow → Bool
is_after room_id after_timestamp m = m.room_id == room_id && ltb after_timestamp m.timestamp

-- `limit` is 200 where the caller gives none.
unfoldable pub get_messages_after : String → ℕ → Option ℕ → ImDb → List ImMessageRow
get_messages_after room_id after_timestamp limit s = take (or_default limit 200) (
    sort_asc (λ (m : ImMessageRow). m.timestamp)
      (select_where (is_after room_id after_timestamp) s.im_messages))

abbrev pub im_room_with_id : String → ImRoomRow → Bool
im_room_with_id id r = r.id == id

unfoldable pub upsert_im_room : String → String → List String → Option ℕ → ImDb → ImDb
upsert_im_room room_id name members last_message_time s = record s {
  im_rooms =
      if exists_where (im_room_with_id room_id) s.im_rooms
      then update_where (im_room_with_id room_id)
          (λ (r : ImRoomRow). record r { members = members; name = name }) s.im_rooms
      else s.im_rooms
        ++ record {
          id = room_id;
          name = name;
          members = members;
          last_message_time = last_message_time;
        }
          ∷ [];
}

-- A NULL sorts below every number, so a missing time is 0 and a time is one more.
abbrev time_key : ImRoomRow → ℕ
time_key r = elim r.last_message_time [ none ↦ 0 | some t ↦ t + 1 ]

-- `like` is SQLite's LIKE and `json` is JSON.stringify of a list of texts.
unfoldable pub get_rooms_for_member :
    (String → String → Bool) → (List String → String) → String → ImDb → List ImRoomRow
get_rooms_for_member like json client_id s = sort_desc time_key (
    select_where
      (λ (r : ImRoomRow). like (str_append "%\"" (str_append client_id "\"%")) (json r.members))
      s.im_rooms)

unfoldable pub get_im_room : String → ImDb → Option ImRoomRow
get_im_room room_id s = find_where (im_room_with_id room_id) s.im_rooms

unfoldable pub delete_im_room : String → ImDb → ImDb
delete_im_room room_id s = record s { im_rooms = delete_where (im_room_with_id room_id) s.im_rooms }

abbrev pub is_older_than : ℕ → ImMessageRow → Bool
is_older_than cutoff m = ltb m.timestamp cutoff

-- Seven days of milliseconds; the clock is past them.
abbrev pub retention_ms : ℕ
retention_ms = 7 * 24 * 60 * 60 * 1000

unfoldable pub delete_old_messages : ℕ → ImDb → ℕ × ImDb
delete_old_messages now s = (
  count_where (is_older_than (now - retention_ms)) s.im_messages,
  record s { im_messages = delete_where (is_older_than (now - retention_ms)) s.im_messages },
)
