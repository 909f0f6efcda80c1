-- ===== src/Configuration.antt =====
-- src/dlt_matterbeam/configuration.py: `MatterbeamClientConfiguration`.
use dlt_matterbeam.Prelude.{
  ℕ, ◌*◌, String, Bool, false, not, Option, none, some, ◌==◌, if◌then◌else◌,
}

pub record Configuration : Type 0 where
  pub output_dir : String
  pub matterbeam_url : Option String
  pub api_token : Option String
  pub transport : Option String
  pub chunk_records : ℕ
  pub chunk_bytes : ℕ
  pub writer_id : ℕ

abbrev pub defaults : Configuration
defaults = record {
  output_dir = ".dlt/matterbeam_coldlog";
  matterbeam_url = none;
  api_token = none;
  transport = none;
  chunk_records = 50_000;
  chunk_bytes = 4 * 1024 * 1024;
  writer_id = 0;
}

-- `if text`, of a text that may be missing
abbrev pub is_given : Option String → Bool
is_given none = false
is_given (some s) = not (s == "")

abbrev or_http : Option String → String
or_http none = "http"
or_http (some s) = s

-- `on_resolved`, given what the environment has for `BEAMIX_PID`
unfoldable pub on_resolved : Option String → Configuration → Configuration
on_resolved beamix_pid c = record c {
  transport = some (if is_given beamix_pid then "internal_log" else or_http c.transport);
}
