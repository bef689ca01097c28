-- ===== src/Certs/Store.antt =====
-- db-certs.ts: the table of certificates. A time is a number that grows with it.
use sman_server.Base.{
  ℕ, String, Bool, ◌&&◌, Option, none, some, List, [], ◌∷◌, ◌++◌, map, ◌==◌, string_eq, or_default,
  find_where, exists_where, select_where, count_where, update_where, sort_desc, take, if◌then◌else◌,
  ltb, Eq, ◌≡◌, ◌↔◌, true, false, arith, zero, suc,
}

pub data CertStatus : Type 0 where
  active revoked expired : CertStatus

abbrev cert_status_beq : CertStatus → CertStatus → Bool
cert_status_beq active active = true
cert_status_beq revoked revoked = true
cert_status_beq expired expired = true
cert_status_beq a b = false

pub cert_status_beq_iff : (a b : CertStatus) → (cert_status_beq a b ≡ true) ↔ (a ≡ b)
cert_status_beq_iff a b = ground arith

instance abbrev pub cert_status_eq : Eq CertStatus
cert_status_eq = record { test = cert_status_beq; test_iff = cert_status_beq_iff }

pub record CertificateRecord : Type 0 where
  pub serial : String
  pub cn : String
  pub identity : String
  pub device_id : Option String
  pub status : CertStatus
  pub pem : String
  pub issued_at : ℕ
  pub expires_at : ℕ
  pub revoked_at : Option ℕ
  pub revoked_reason : Option String

pub record CertificateSummary : Type 0 where
  pub serial : String
  pub cn : String
  pub identity : String
  pub device_id : Option String
  pub status : CertStatus
  pub issued_at : ℕ
  pub expires_at : ℕ
  pub revoked_at : Option ℕ
  pub revoked_reason : Option String

pub record CertDb : Type 0 where
  pub certificates : List CertificateRecord

abbrev pub empty_certs : CertDb
empty_certs = record { certificates = [] }

pub record CertParams : Type 0 where
  pub serial : String
  pub cn : String
  pub identity : String
  pub device_id : Option String
  pub pem : String
  pub expires_at : ℕ

abbrev pub cert_with_serial : String → CertificateRecord → Bool
cert_with_serial serial c = c.serial == serial

abbrev pub new_cert : ℕ → CertParams → CertificateRecord
new_cert now p = record {
  serial = p.serial;
  cn = p.cn;
  identity = p.identity;
  device_id = p.device_id;
  status = active;
  pem = p.pem;
  issued_at = now;
  expires_at = p.expires_at;
  revoked_at = none;
  revoked_reason = none;
}

-- The SET list of ON CONFLICT(serial): `issued_at` stays.
abbrev pub reissued : CertParams → CertificateRecord → CertificateRecord
reissued p c = record c {
  cn = p.cn;
  identity = p.identity;
  device_id = p.device_id;
  pem = p.pem;
  expires_at = p.expires_at;
  status = active;
  revoked_at = none;
  revoked_reason = none;
}

unfoldable pub upsert_cert : ℕ → CertParams → CertDb → CertDb
upsert_cert now p s = record s {
  certificates =
      if exists_where (cert_with_serial p.serial) s.certificates
      then update_where (cert_with_serial p.serial) (reissued p) s.certificates
      else s.certificates ++ new_cert now p ∷ [];
}

unfoldable pub get_cert : String → CertDb → Option CertificateRecord
get_cert serial s = find_where (cert_with_serial serial) s.certificates

-- `trim` is JavaScript's.
unfoldable pub get_cert_by_pem : (String → String) → String → CertDb → Option CertificateRecord
get_cert_by_pem trim pem s =
    find_where (λ (c : CertificateRecord). c.pem == trim pem) s.certificates

abbrev by_issue : List CertificateRecord → List CertificateRecord
by_issue = sort_desc (λ (c : CertificateRecord). c.issued_at)

unfoldable pub get_certs_by_identity : String → CertDb → List CertificateRecord
get_certs_by_identity identity s =
    by_issue (select_where (λ (c : CertificateRecord). c.identity == identity) s.certificates)

unfoldable pub get_active_certs_by_identity : String → CertDb → List CertificateRecord
get_active_certs_by_identity identity s = by_issue (
    select_where (λ (c : CertificateRecord). c.identity == identity && c.status == active)
      s.certificates)

abbrev pub is_revocable : String → CertificateRecord → Bool
is_revocable serial c = c.serial == serial && c.status == active

unfoldable pub revoke_cert : ℕ → String → Option String → CertDb → Bool × CertDb
revoke_cert now serial reason s = (
  ltb 0 (count_where (is_revocable serial) s.certificates),
  record s {
    certificates =
        update_where (is_revocable serial)
          (λ c. record c { status = revoked; revoked_at = some now; revoked_reason = reason })
          s.certificates;
  },
)

abbrev summary_of : CertificateRecord → CertificateSummary
summary_of c = record {
  serial = c.serial;
  cn = c.cn;
  identity = c.identity;
  device_id = c.device_id;
  status = c.status;
  issued_at = c.issued_at;
  expires_at = c.expires_at;
  revoked_at = c.revoked_at;
  revoked_reason = c.revoked_reason;
}

skip : ℕ → List CertificateRecord → List CertificateRecord
skip zero cs = cs
skip (suc n) [] = []
skip (suc n) (c ∷ cs) = skip n cs

unfoldable pub get_all_certs : Option ℕ → Option ℕ → CertDb → List CertificateSummary
unfolding skip
get_all_certs limit offset s =
    map summary_of
      (take (or_default limit 100) (skip (or_default offset 0) (by_issue s.certificates)))

unfoldable pub get_revoked_serials : CertDb → List String
get_revoked_serials s =
    map (λ (c : CertificateRecord). c.serial)
      (select_where (λ (c : CertificateRecord). c.status == revoked) s.certificates)

abbrev count_status : CertStatus → CertDb → ℕ
count_status status s = count_where (λ (c : CertificateRecord). c.status == status) s.certificates

unfoldable pub get_active_cert_count : CertDb → ℕ
get_active_cert_count = count_status active

pub record CertCounts : Type 0 where
  pub active_count : ℕ
  pub revoked_count : ℕ
  pub expired_count : ℕ

unfoldable pub get_cert_count_by_status : CertDb → CertCounts
get_cert_count_by_status s = record {
  active_count = count_status active s;
  revoked_count = count_status revoked s;
  expired_count = count_status expired s;
}

abbrev pub is_expiring : ℕ → CertificateRecord → Bool
is_expiring now c = c.status == active && ltb c.expires_at now

unfoldable pub mark_expired : ℕ → CertDb → ℕ × CertDb
mark_expired now s = (
  count_where (is_expiring now) s.certificates,
  record s {
    certificates =
        update_where (is_expiring now) (λ c. record c { status = expired }) s.certificates;
  },
)
