-- ===== src/Certs/Revocation.antt =====
-- db-certs.ts with extractPeerCert of ws-server.ts: what a revocation is worth.
use sman_server.Base.{
  ℕ, String, Bool, false, ◌≡◌, ◌≢◌, refl, ap, ◌∙◌, Option, none, some, List, [], ◌∷◌, ◌==◌, ==_iff,
  string_eq, Bool-cases, inl, inr, arith, All, find_where, update_where, exists_where,
  find_where-update_where, find_where-append, find_where-true, if◌then◌else◌, some-injective,
}
use sman_server.Certs.Store.{
  CertDb, CertificateRecord, CertParams, active, cert_status_eq, cert_with_serial, upsert_cert,
  reissued, revoke_cert, is_revocable, mark_expired, new_cert, is_expiring, get_cert,
}
use sman_server.Certs.Verify.{
  X509, Peer, extract_peer_cert, verify_client_cert, unless_refused, checked_against,
}

-- The calls that write the table.
pub data Call : Type 0 where
  issue : ℕ → CertParams → Call
  revoke : ℕ → String → Option String → Call
  expire : ℕ → Call

abbrev apply : Call → CertDb → CertDb
apply (issue now p) s = upsert_cert now p s
apply (revoke now serial reason) s = (revoke_cert now serial reason s).1
apply (expire now) s = (mark_expired now s).1

abbrev pub run_certs : List Call → CertDb → CertDb
run_certs [] s = s
run_certs (call ∷ rest) s = run_certs rest (apply call s)

abbrev pub issues : String → Call → Bool
issues serial (issue now p) = p.serial == serial
issues serial (revoke now other reason) = false
issues serial (expire now) = false

-- The row of the serial is there and not active.
abbrev IsRefused : String → List CertificateRecord → Type 0
IsRefused serial cs =
    (r : CertificateRecord) × (find_where (cert_with_serial serial) cs ≡ some r)
    × ((r.status == active) ≡ false)

module _ (serial : String) where
  updated-IsRefused :
      (q : CertificateRecord → Bool) (f : CertificateRecord → CertificateRecord)
      (cs : List CertificateRecord) (r : CertificateRecord)
      → ((x : CertificateRecord) → (f x).serial ≡ x.serial)
      → find_where (cert_with_serial serial) cs ≡ some r
      → ((if q r then f r else r).status == active) ≡ false
      → IsRefused serial (update_where q f cs)
  updated-IsRefused q f cs r same k off = (
    if q r then f r else r,
    find_where-update_where (cert_with_serial serial) q f cs (λ x. rw (same x) refl) ∙ rw k refl,
    off,
  )

  issue-IsRefused :
      (now : ℕ) (p : CertParams) (s : CertDb)
      → (p.serial == serial) ≡ false
      → IsRefused serial s.certificates
      → IsRefused serial (upsert_cert now p s).certificates
  unfolding upsert_cert
  issue-IsRefused now p s other (r, k, off) =
      elim (Bool-cases (exists_where (cert_with_serial p.serial) s.certificates)) [
        | inl y ↦ rw y (
            updated-IsRefused (cert_with_serial p.serial) (reissued p) s.certificates r (λ x. refl)
              k (rw apart off))
        | inr n ↦ rw n (
          r,
          find_where-append (cert_with_serial serial) s.certificates (new_cert now p ∷ [])
              ∙ rw k refl,
          off,
        )
      ]
    where
      apart : (r.serial == p.serial) ≡ false
      apart = ground (
        arith,
        ==_iff r.serial p.serial,
        ==_iff p.serial serial,
        ==_iff r.serial serial,
        find_where-true (cert_with_serial serial) s.certificates k,
      )

  apply-IsRefused :
      (c : Call) (s : CertDb)
      → issues serial c ≡ false
      → IsRefused serial s.certificates
      → IsRefused serial (apply c s).certificates
  unfolding revoke_cert mark_expired
  apply-IsRefused (issue now p) s other v = issue-IsRefused now p s other v
  apply-IsRefused (revoke now name reason) s other (r, k, off) =
      updated-IsRefused (is_revocable name) _ s.certificates r (λ x. refl) k
        (elim (Bool-cases (is_revocable name r)) [ inl y ↦ rw y refl | inr n ↦ rw n off ])
  apply-IsRefused (expire now) s other (r, k, off) =
      updated-IsRefused (is_expiring now) _ s.certificates r (λ x. refl) k
        (elim (Bool-cases (is_expiring now r)) [ inl y ↦ rw y refl | inr n ↦ rw n off ])

  run_certs-IsRefused :
      (calls : List Call) (s : CertDb)
      → All (λ c. issues serial c ≡ false) calls
      → IsRefused serial s.certificates
      → IsRefused serial (run_certs calls s).certificates
  run_certs-IsRefused [] s none_issued v = v
  run_certs-IsRefused (c ∷ rest) s none_issued v =
      run_certs-IsRefused rest (apply c s) none_issued.1 (apply-IsRefused c s none_issued.0 v)

  revoke-IsRefused :
      (now : ℕ) (reason : Option String) (s : CertDb) (r : CertificateRecord)
      → get_cert serial s ≡ some r
      → IsRefused serial (revoke_cert now serial reason s).1.certificates
  unfolding revoke_cert get_cert
  revoke-IsRefused now reason s r k =
      updated-IsRefused (is_revocable serial) _ s.certificates r (λ x. refl) k
        (elim (Bool-cases (r.status == active)) [
          | inl y ↦ rw (find_where-true (cert_with_serial serial) s.certificates k, y) refl
          | inr n ↦ rw (find_where-true (cert_with_serial serial) s.certificates k, n) n
        ])

  unless_refused-same :
      (q p : Peer) (o : Option CertificateRecord) → unless_refused q o ≡ some p → q ≡ p
  unless_refused-same q p none e = some-injective _ _ e
  unless_refused-same q p (some r) e = elim (Bool-cases (r.status == active)) [
    | inl y ↦ some-injective _ _ (rw y at e)
    | inr n ↦ absurd (none-some p (rw n at e))
  ]
    where
      none-some : (p : Peer) → none ≢ some p
      none-some p e = cc (e)

  refused-checked :
      (s : CertDb) (q : Option Peer) (p : Peer)
      → IsRefused serial s.certificates
      → checked_against (some s) q ≡ some p
      → p.serial ≢ serial
  unfolding get_cert
  refused-checked s none p v e = absurd (cc (e))
  refused-checked s (some q) p (r, k, off) e = λ same.
      let q_serial : q.serial ≡ serial =
        ap (λ (x : Peer). x.serial) (unless_refused-same q p (get_cert q.serial s) e) ∙ same in
      let refused : none ≡ some p = rw (q_serial, k, off) at e in cc (refused)

  refused-extract :
      (s : CertDb) (raw : Option X509) (p : Peer)
      → IsRefused serial s.certificates
      → extract_peer_cert (some s) raw ≡ some p
      → p.serial ≢ serial
  unfolding extract_peer_cert get_cert
  refused-extract s raw p (r, k, off) e = refused-checked s (verify_client_cert raw) p (r, k, off) e

  -- After a certificate that is stored has been revoked, whatever else is issued, revoked or expired:
  -- as long as its serial is not issued again, no connection is admitted with that serial.
  pub revoke-extract_peer_cert :
      (now : ℕ) (reason : Option String) (s : CertDb) (r : CertificateRecord) (calls : List Call)
      (raw : Option X509) (p : Peer)
      → get_cert serial s ≡ some r
      → All (λ c. issues serial c ≡ false) calls
      → extract_peer_cert (some (run_certs calls (revoke_cert now serial reason s).1)) raw ≡ some p
      → p.serial ≢ serial
  revoke-extract_peer_cert now reason s r calls raw p k none_issued e =
      refused-extract (run_certs calls (revoke_cert now serial reason s).1) raw p
        (run_certs-IsRefused calls (revoke_cert now serial reason s).1 none_issued
          (revoke-IsRefused now reason s r k))
        e
