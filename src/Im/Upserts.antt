-- ===== src/Im/Upserts.antt =====
-- db-im.ts: what upsertMessage leaves of each message.
use sman_server.Base.{
  String, ◌≡◌, ◌≢◌, refl, ◌∙◌, Option, none, some, [], ◌∷◌, ◌==◌, ==_iff, ==_refl, string_eq, arith,
  or_default, find_where, find_where-true, find_where-append, find_where-update_where, exists_where,
  exists_where-eq-is_some, Option-cases, inl, inr, if◌then◌else◌, true, false, update_where, ◌++◌,
  Bool-cases, or_else,
}
use sman_server.Im.Store.{
  ImMessageRow, ImDb, MessageParams, row_of, rewritten, message_with_id, upsert_message,
}

-- The message of an id.
abbrev pub message_of_id : String → ImDb → Option ImMessageRow
message_of_id id s = find_where (message_with_id id) s.im_messages

-- A new id gets a row of its own, a known id the content, the status and the type, and no other
-- message and no room changes.
pub record Upserted (p : MessageParams) (s s' : ImDb) : Type 0 where
  pub added :
      message_of_id p.id s ≡ none
      → message_of_id p.id s'
        ≡ some (record {
          id = p.id;
          room_id = p.room_id;
          sender = p.sender;
          content = p.content;
          mentioned_agents = p.mentioned_agents;
          quote_id = p.quote_id;
          type = or_default p.type "text";
          status = p.status;
          attachments = p.attachments;
          session_id = p.session_id;
          timestamp = p.timestamp;
          seq = or_default p.seq 0;
        })
  pub changed :
      (m : ImMessageRow)
      → message_of_id p.id s ≡ some m
      → message_of_id p.id s'
        ≡ some
            (record m { content = p.content; status = p.status; type = or_default p.type "text" })
  pub others : (id : String) → id ≢ p.id → message_of_id id s' ≡ message_of_id id s
  pub same_rooms : s'.im_rooms ≡ s.im_rooms

module _ (p : MessageParams) (s : ImDb) where
  appended :
      (id : String)
      → find_where (message_with_id id) (s.im_messages ++ row_of p ∷ [])
        ≡ or_else (message_of_id id s) (if p.id == id then some (row_of p) else none)
  unfolding find_where
  appended id = find_where-append (message_with_id id) s.im_messages (row_of p ∷ [])

  rewritten_at :
      (id : String) (m : ImMessageRow)
      → message_of_id id s ≡ some m
      → find_where
          (message_with_id id)
          (update_where (message_with_id p.id) (rewritten p) s.im_messages)
        ≡ some (if m.id == p.id then rewritten p m else m)
  rewritten_at id m k =
      find_where-update_where (message_with_id id) (message_with_id p.id) (rewritten p)
        s.im_messages (λ x. refl)
      ∙ rw k refl

  pub upsert_message-Upserted : Upserted p s (upsert_message p s)
  unfolding upsert_message
  upsert_message-Upserted = record {
    added = λ n. rw (exists_where-eq-is_some, n) (appended p.id ∙ rw (n, ==_refl p.id) refl);
    changed = λ m k.
        let mine = find_where-true (message_with_id p.id) s.im_messages k in
        rw (exists_where-eq-is_some, k) (rewritten_at p.id m k ∙ rw mine refl);
    others = λ id d. other id d;
    same_rooms = refl;
  }
    where
      apart : (a id : String) → id ≢ p.id → (a == id) ≡ true → (a == p.id) ≡ false
      apart a id d y = ground (arith, ==_iff a id, ==_iff a p.id)

      unlike : (id : String) → id ≢ p.id → (p.id == id) ≡ false
      unlike id d = ground (arith, ==_iff p.id id)

      other :
          (id : String)
          → id ≢ p.id
          → find_where (message_with_id id) (
              if exists_where (message_with_id p.id) s.im_messages
              then update_where (message_with_id p.id) (rewritten p) s.im_messages
              else s.im_messages ++ row_of p ∷ [])
            ≡ message_of_id id s
      other id d = elim (Bool-cases (exists_where (message_with_id p.id) s.im_messages)) [
        | inl y ↦ rw y (
            find_where-update_where (message_with_id id) (message_with_id p.id) (rewritten p)
              s.im_messages (λ x. refl)
            ∙ elim (Option-cases (message_of_id id s)) [
              | inl n ↦ rw n refl
              | inr (m, k) ↦
                  let far =
                    apart m.id id d (find_where-true (message_with_id id) s.im_messages k) in
                  rw (k, far) refl
            ])
        | inr y ↦ rw y (
            appended id ∙ elim (Option-cases (message_of_id id s)) [
              | inl n ↦ rw (n, unlike id d) refl
              | inr (m, k) ↦ rw k refl
            ])
      ]
