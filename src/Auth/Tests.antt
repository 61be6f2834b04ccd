-- ===== src/Auth/Tests.antt =====
-- A session in which two accounts follow each other: frontend/src/hooks/useAuth.ts.
use rmm_rxf_sys_de.Base.{ℕ, String, none, false, [], ◌∷◌}
use rmm_rxf_sys_de.Fleet.People.{Account, admin}
use rmm_rxf_sys_de.Auth.{Session, mounted, refused, on_probe, on_login, on_logout, on_ask, on_data}

abbrev account : ℕ → String → Account
account id username = record {
  id = id;
  username = username;
  email = none;
  role = admin;
  disabled = false;
  created_at = 0;
  last_login_at = none;
  totp_enabled = false;
  person_id = none;
}

abbrev anna : Account
anna = account 1 "anna"

abbrev bob : Account
bob = account 2 "bob"

-- Anna asks, signs out and Bob signs in before the answer comes.
abbrev bob_in : Session
bob_in =
    on_ask bob (on_login bob (on_logout (on_ask anna (on_login anna (on_probe refused mounted)))))

abbrev late : Session
late =
    on_data (record { serial = 1; owner = bob } ∷ []) (record { serial = 0; owner = anna }) []
      bob_in
