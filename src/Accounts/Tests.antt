-- ===== src/Accounts/Tests.antt =====
-- The accounts of a small team: frontend/src/pages/admin/accounts.ts.
use rmm_rxf_sys_de.Base.{◌≡◌, refl, true, false, String, none, some, List, [], ◌∷◌}
use rmm_rxf_sys_de.Fleet.People.{Account, Role, admin, viewer}
use rmm_rxf_sys_de.Accounts.Forms.{AccountDraft, draft_ready, name_taken, password_shortfall}

abbrev account : String → Role → Account
account username role = record {
  id = 1;
  username = username;
  email = none;
  role = role;
  disabled = false;
  created_at = 0;
  last_login_at = some 5;
  totp_enabled = false;
  person_id = none;
}

abbrev accounts : List Account
accounts = account "anna" admin ∷ record (account "bob" viewer) { last_login_at = none } ∷ []

abbrev same : String → String
same t = t

abbrev draft : AccountDraft
draft = record {
  username = "carla";
  password = "geheimnis";
  role = viewer;
  email = "";
  person_id = some 4;
}

draft-Ready : draft_ready same same draft accounts ≡ true
unfolding draft_ready name_taken password_shortfall
draft-Ready = refl
