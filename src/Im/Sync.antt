-- ===== src/Im/Sync.antt =====
-- db-im.ts: what a sync of a room returns.
use sman_server.Base.{
  ℕ, ◌≤◌, String, ◌≡◌, true, List, All, All-weaken, length, take, select_where, sort_asc,
  sort_asc-All, sort_asc-IsAscending, take-All, take-IsAscending, length-take, IsAscending, FirstOf,
  sorted-FirstOf, All-select_where, All-of_select_where, All-Mem, or_default, Option,
}
use mathlib.Core.List.{Mem}
use sman_server.Im.Store.{ImDb, ImMessageRow, is_after, get_messages_after}

abbrev pub time : ImMessageRow → ℕ
time m = m.timestamp

-- The rows that a client of the room gets for a time: at most `limit`, stored in this room with a
-- later time, in the order of their times; and a row that is left out is not before any of them.
pub record Synced (room_id : String) (after limit : ℕ) (s : ImDb) (rows : List ImMessageRow)
    : Type 0 where
  pub bounded : length rows ≤ limit
  pub stored : All (λ m. Mem m s.im_messages × (is_after room_id after m ≡ true)) rows
  pub ascending : IsAscending time rows
  pub complete :
      All (λ m. is_after room_id after m ≡ true → FirstOf time limit rows m) s.im_messages

module _ (room_id : String) (after : ℕ) (limit : Option ℕ) (s : ImDb) where
  pub get_messages_after-Synced :
      Synced room_id after (or_default limit 200) s (get_messages_after room_id after limit s)
  unfolding get_messages_after
  get_messages_after-Synced =
      let n = or_default limit 200 in
      let found = select_where (is_after room_id after) s.im_messages in
      record {
        bounded = length-take n (sort_asc time found);
        stored = take-All _ n (sort_asc time found) (
            sort_asc-All time _ found (
              All-select_where _ (is_after room_id after) s.im_messages (
                All-weaken (λ m. Mem m s.im_messages) _ s.im_messages (λ m k t. (k, t))
                  (All-Mem s.im_messages))));
        ascending = take-IsAscending time n (sort_asc time found) (sort_asc-IsAscending time found);
        complete =
            All-of_select_where (FirstOf time n (take n (sort_asc time found)))
              (is_after room_id after) s.im_messages (sorted-FirstOf time n found);
      }
