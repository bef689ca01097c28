-- ===== src/Certs/Tests.antt =====
-- A certificate that is revoked, and the connection of another one.
use sman_server.Base.{
  refl, ◌≢◌, true, none, some, List, [], ◌∷◌, exists_where, find_where, update_where,
}
use sman_server.Certs.Store.{CertDb, empty_certs, new_cert, upsert_cert, revoke_cert, get_cert}
use sman_server.Certs.Verify.{X509, peer_of, extract_peer_cert, verify_client_cert}
use sman_server.Certs.Revocation.{Call, issue, revoke-extract_peer_cert}

-- Two certificates of the CA.
abbrev ann : CertDb
ann = record empty_certs {
  certificates =
      new_cert 1 (record {
        serial = "a1";
        cn = "ann";
        identity = "ann";
        device_id = none;
        pem = "pem";
        expires_at = 9;
      })
      ∷ [];
}

abbrev bob_issued : List Call
bob_issued =
    issue 3 (record {
      serial = "b2";
      cn = "bob";
      identity = "bob";
      device_id = none;
      pem = "pem";
      expires_at = 9;
    })
    ∷ []

abbrev bob : X509
bob = record {
  check_issued = true;
  verify = some true;
  subject = "CN=bob";
  common_name = some "bob";
  serial_number = "b2";
}

revoke-extract_peer_cert_example : (peer_of bob).serial ≢ "a1"
unfolding extract_peer_cert verify_client_cert upsert_cert revoke_cert get_cert exists_where
    find_where update_where
revoke-extract_peer_cert_example =
    revoke-extract_peer_cert "a1" 2 none ann (new_cert 1 _) bob_issued (some bob) (peer_of bob) refl
      (refl, tt) refl
