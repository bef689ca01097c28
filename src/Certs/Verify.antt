-- ===== src/Certs/Verify.antt =====
-- ca.ts: verifyClientCert, and the test of the table that extractPeerCert of ws-server.ts adds.
use sman_server.Base.{String, Bool, not, Option, none, some, ◌==◌, if◌then◌else◌}
use sman_server.Certs.Store.{CertDb, CertificateRecord, active, cert_status_eq, get_cert}

-- What node:crypto tells of a certificate that it parses: `checkIssued` of the CA's certificate,
-- `verify` of the CA's key, which throws or returns whether the signature is good, the subject, the
-- match of the pattern for its CN, trimmed, and the serial number.
pub record X509 : Type 0 where
  pub check_issued : Bool
  pub verify : Option Bool
  pub subject : String
  pub common_name : Option String
  pub serial_number : String

pub record Peer : Type 0 where
  pub identity : String
  pub serial : String

abbrev pub peer_of : X509 → Peer
peer_of c = record {
  identity = elim c.common_name [ none ↦ c.subject | some name ↦ name ];
  serial = c.serial_number;
}

-- A certificate that does not parse is `none`. What `verify` returns is not looked at.
abbrev verified_by : Option Bool → X509 → Option Peer
verified_by none c = none
verified_by (some answer) c = some (peer_of c)

unfoldable pub verify_client_cert : Option X509 → Option Peer
verify_client_cert none = none
verify_client_cert (some c) = if not c.check_issued then none else verified_by c.verify c

abbrev pub unless_refused : Peer → Option CertificateRecord → Option Peer
unless_refused p none = some p
unless_refused p (some r) = if not (r.status == active) then none else some p

abbrev pub checked_against : Option CertDb → Option Peer → Option Peer
checked_against db none = none
checked_against none (some p) = some p
checked_against (some db) (some p) = unless_refused p (get_cert p.serial db)

-- `raw` is the certificate of the connection, if it has one.
unfoldable pub extract_peer_cert : Option CertDb → Option X509 → Option Peer
extract_peer_cert db raw = checked_against db (verify_client_cert raw)
