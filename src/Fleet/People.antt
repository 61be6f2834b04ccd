-- ===== src/Fleet/People.antt =====
-- frontend/src/types.ts: persons, accounts and audit events, as far as the modelled code reads them.
use rmm_rxf_sys_de.Base.{ℕ, String, Bool, Option}

pub data Role : Type 0 where
  admin techniker viewer : Role

-- A field that may be missing is `none` both where it is missing and where it is null.
pub record Account : Type 0 where
  pub id : ℕ
  pub username : String
  pub email : Option String
  pub role : Role
  pub disabled : Bool
  pub created_at : ℕ
  pub last_login_at : Option ℕ
  pub totp_enabled : Bool
  pub person_id : Option ℕ

pub record Person : Type 0 where
  pub id : ℕ
  pub name : String
  pub email : String
  pub phone : String
  pub notes : String
  pub created_at : ℕ
  pub device_count : ℕ

-- Without the detail and the category, which the modelled code does not read.
pub record AuditEvent : Type 0 where
  pub id : ℕ
  pub ts : ℕ
  pub event : String
  pub actor : String
  pub device_id : Option ℕ
  pub security : Bool
