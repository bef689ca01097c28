-- ===== src/HubDb/Tests.antt =====
-- A broadcast that is acknowledged, and the query after it.
use sman_server.Base.{◌≡◌, refl, some, [], ◌∷◌}
use sman_server.HubDb.Broadcasts.{
  BroadcastDb, EncryptedRequest, AckPayload, BroadcastQueryPayload, validate_request,
  broadcasts_route, ack_route,
}
use sman_server.HubDb.Unread.{reply_without, asked_by, ack_route-broadcasts_route}

abbrev two_broadcasts : BroadcastDb
two_broadcasts = record {
  broadcasts =
      record { id = "b1"; title = "old"; body = "one"; created_at = 3; active = 1 }
      ∷ record { id = "b2"; title = "new"; body = "two"; created_at = 5; active = 1 }
      ∷ [];
  read_log = [];
}

abbrev seen : AckPayload
seen = record { client_id = "ann"; broadcast_ids = "b1" ∷ [] }

abbrev ack : EncryptedRequest AckPayload
ack = record { psk_version = 1; timestamp = 7; payload = some seen }

abbrev question : EncryptedRequest BroadcastQueryPayload
question = record {
  psk_version = 1;
  timestamp = 9;
  payload = some (record { client_id = "ann"; since = 0 });
}

ack_route-broadcasts_route_example :
    broadcasts_route 9000 question (ack_route 7000 ack two_broadcasts).1
    ≡ reply_without
        (asked_by "ann" question.payload)
        ("b1" ∷ [])
        (broadcasts_route 9000 question two_broadcasts)
unfolding validate_request
ack_route-broadcasts_route_example =
    ack_route-broadcasts_route 7000 9000 ack seen question two_broadcasts refl refl
