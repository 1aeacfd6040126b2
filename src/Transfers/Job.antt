-- ===== src/Transfers/Job.antt =====
-- The job record of a transfer, third-party code (virule_core's evaluation_distribution.hpp): the
-- fields that src/client/transfers.hpp reads or writes, and the stages that it names.
use virule_client.Prelude.{ℕ, String, List, Bool, true, false, eqb, ◌==◌}

-- A stage by its name; `other` is a name that the client does not know.
pub data Stage : Type 0 where
  building packaging scanning_source scanning_package : Stage
  packaged verifying uploading registering held done : Stage
  queued downloading paused extracting scanning installed : Stage
  removing removed failed : Stage
  other : String → Stage

abbrev pub code_of : Stage → ℕ
code_of building = 1
code_of packaging = 2
code_of scanning_source = 3
code_of scanning_package = 4
code_of packaged = 5
code_of verifying = 6
code_of uploading = 7
code_of registering = 8
code_of held = 9
code_of done = 10
code_of queued = 11
code_of downloading = 12
code_of paused = 13
code_of extracting = 14
code_of scanning = 15
code_of installed = 16
code_of removing = 17
code_of removed = 18
code_of failed = 19
code_of (other _) = 20

-- The comparison of a stage with one of the names.
abbrev pub is_at : Stage → Stage → Bool
is_at a b = eqb (code_of a) (code_of b)

-- Whether a stage's name changed.
abbrev pub same_stage : Stage → Stage → Bool
same_stage (other a) (other b) = a == b
same_stage a b = is_at a b

pub data JobKind : Type 0 where
  upload install : JobKind

abbrev pub is_upload : JobKind → Bool
is_upload upload = true
is_upload install = false

pub record TransferJob : Type 0 where
  pub id : String
  pub kind : JobKind
  pub state : Stage
  pub error : String
  pub account_email : String
  pub game_uuid : String
  pub build_uuid : String
  pub created_utc : String
  pub updated_utc : String
  pub attempts : ℕ
  pub next_attempt_utc : ℕ
  pub bytes_done : ℕ
  pub bytes_total : ℕ
  pub permille : ℕ
  pub game_id : String
  pub owner_pid : ℕ
  pub package_path : String
  pub launch_exe : String
  pub built_utc : String
  pub file_count : ℕ
  pub content_bytes : ℕ
  pub package_bytes : ℕ
  pub package_sha256 : String
  pub source_path : String
  pub build_path : String
  pub session_id : String
  pub parts_total : ℕ
  pub parts_done : List ℕ
  pub assignment_id : String
  pub revision_id : String
  pub download_id : String
  pub revision : ℕ
  pub install_root : String
  pub install_dir : String
  pub temp_path : String
  pub is_paused : Bool
  pub installed_revision_id : String
  pub scan_outcome : String
  pub scan_revision_id : String
  pub security_held : Bool

-- ms::Outcome of the malware scan, third-party code.
pub data Outcome : Type 0 where
  clean detected removed_by_antivirus incomplete unavailable scan_error canceled : Outcome

-- ms::is_incident
abbrev pub is_incident : Outcome → Bool
is_incident detected = true
is_incident removed_by_antivirus = true
is_incident _ = false

abbrev pub is_clean : Outcome → Bool
is_clean clean = true
is_clean _ = false

abbrev pub is_canceled : Outcome → Bool
is_canceled canceled = true
is_canceled _ = false

-- ms::Result, as far as it is read; `threats` stands for what the incident says of them.
pub record Scan : Type 0 where
  pub outcome : Outcome
  pub why_unavailable : ℕ
  pub scanner : String
  pub path : String
  pub engine_version : String
  pub signature_version : String
  pub threats : String
  pub detail : String
