-- ===== src/Hub/Admissions.antt =====
-- A connection, its authentication, and the end of the time for it keep the maps sound.
use sman_server.Base.{
  ℕ, ◌+◌, ◌-◌, ◌*◌, ltb, ◌<◌, String, ◌≡◌, refl, ap, ◌∙◌, Bool-cases, Option, none, some, [], inl,
  inr, nat_eq, string_eq, arith, Option-cases,
}
use sman_server.Base.Maps.{set_entry}
use sman_server.Base.Sets.{has}
use sman_server.Base.Texts.{is_empty}
use sman_server.Certs.Verify.{Peer}
use sman_server.Hub.Types.{Socket, AuthedClient, auth_ok}
use sman_server.Hub.State.{Env, Hub, client_of, send}
use sman_server.Hub.Connection.{
  set_client, admit_client, psk_client, mtls_client, decrypted_auth, handle_auth, connected,
  auth_timeout,
}
use sman_server.Hub.Still.{Part, part, IsStill, send-IsStill}
use sman_server.Hub.Sound.{IsSound}
use sman_server.Hub.Lifetimes.{entered-IsSound, one_more-IsSound, next_socket}
use sman_server.Hub.RoomSound.{Sounds, still-Sounds, Sounds-trans, if-Sounds, sent-Sounds}
use sman_server.Hub.ImStill.{send_pending-IsStill}

module _ (env : Env) where
  -- ---- Connections ----

  pub admit_client-Sounds :
      (c : AuthedClient) (h : Hub)
      → client_of c.ws h ≡ none
      → c.ws < h.connections
      → Sounds h (admit_client env c h)
  unfolding admit_client
  admit_client-Sounds c h fresh below =
      let told = send env c.ws (auth_ok c.client_id c.auth_method) (record h {
        clients = set_client c h.clients;
        client_id_to_ws = set_entry c.client_id c.ws h.client_id_to_ws;
      }) in
      Sounds-trans h told _
        (sent-Sounds env c.ws _ h _
          (record { keeps = λ v. entered-IsSound (part h) v c fresh below; driven = ([], refl) }))
        (still-Sounds told _ (send_pending-IsStill env c told))

  pub admit_client-tasks : (c : AuthedClient) (h : Hub) → (admit_client env c h).tasks ≡ h.tasks
  unfolding admit_client
  admit_client-tasks c h =
      ap (λ (q : Part). q.tasks) (send_pending-IsStill env c _)
      ∙ ap (λ (q : Part). q.tasks) (send-IsStill env c.ws _ _)

  pub decrypted_auth-Sounds :
      (ws : Socket) (o : Option String) (h : Hub)
      → client_of ws h ≡ none
      → ws < h.connections
      → Sounds h (decrypted_auth env ws o h)
  decrypted_auth-Sounds ws none h fresh below = record { keeps = λ v. v; driven = ([], refl) }
  decrypted_auth-Sounds ws (some id) h fresh below =
      if-Sounds (is_empty id) h _ _ (record { keeps = λ v. v; driven = ([], refl) })
        (admit_client-Sounds (psk_client env ws id) h fresh below)

  pub handle_auth-Sounds :
      (ws : Socket) (timestamp : ℕ) (o : Option String) (h : Hub)
      → client_of ws h ≡ none
      → ws < h.connections
      → Sounds h (handle_auth env ws timestamp o h)
  unfolding handle_auth
  handle_auth-Sounds ws timestamp o h fresh below =
      if-Sounds (ltb (5 * 60 * 1000) ((env.now - timestamp * 1000) + (timestamp * 1000 - env.now)))
        h _ _ (record { keeps = λ v. v; driven = ([], refl) })
        (decrypted_auth-Sounds ws o h fresh below)

  pub connected-Sounds :
      (o : Option Peer) (h : Hub)
      → Sounds h (connected env h.connections o (record h { connections = h.connections + 1 }))
  connected-Sounds none h = record {
    keeps = λ v.
        let w = one_more-IsSound (part h) v in
        record {
          listed = w.listed;
          inhabited = w.inhabited;
          indexed = w.indexed;
          idle = w.idle;
          used = w.used;
          heard = (omega arith, w.heard);
        };
    driven = ([], refl);
  }
  connected-Sounds (some p) h = record {
    keeps = λ v. (admitted v).keeps (one_more-IsSound (part h) v);
    driven = ([], admit_client-tasks (mtls_client env h.connections p) _);
  }
    where
      admitted :
          IsSound (part h)
          → Sounds
              (record h { connections = h.connections + 1 })
              (admit_client env
                (mtls_client env h.connections p)
                (record h { connections = h.connections + 1 }))
      admitted v =
          admit_client-Sounds (mtls_client env h.connections p)
            (record h { connections = h.connections + 1 }) (next_socket (part h) v) (omega arith)

  pub auth_timeout-IsStill : (ws : Socket) → IsStill (auth_timeout env ws)
  unfolding auth_timeout
  auth_timeout-IsStill ws h = elim (Bool-cases (has ws h.auth_timers)) [
    | inr n ↦ rw n refl
    | inl y ↦ elim (Option-cases (client_of ws h)) [
      | inl e ↦ rw (y, e) refl
      | inr (c, e) ↦ rw (y, e) refl
    ]
  ]
