-- ===== src/Fleet/Jobs.antt =====
-- Jobs on a device, as the server sends them: frontend/src/types.ts.
use rmm_rxf_sys_de.Base.{ℕ, String, Bool, true, false, Option}
use rmm_rxf_sys_de.Base.Int.{ℤ}
use rmm_rxf_sys_de.JobStream.{JobStatus, done, failed, timeout}

pub data JobKind : Type 0 where
  shell script patch_install : JobKind

pub record Job : Type 0 where
  pub id : ℕ
  pub device_id : ℕ
  pub kind : JobKind
  pub command : String
  pub shell_name : String
  pub script_id : Option ℕ
  pub script_name : String
  pub status : JobStatus
  pub exit_code : Option ℤ
  pub created_by : String
  pub created_at : ℕ
  pub started_at : Option ℕ
  pub finished_at : Option ℕ
  pub output : Option String

-- `TERMINAL.has(status)`
abbrev pub is_final : JobStatus → Bool
is_final done = true
is_final failed = true
is_final timeout = true
is_final _ = false

abbrev pub is_done : JobStatus → Bool
is_done done = true
is_done _ = false
