-- ===== src/Transfers/Site.antt =====
-- What the transfer driver of src/client/transfers.hpp works on: its files, the service as it has
-- been called, and what the outside answers at each call.
use virule_client.Prelude.{ℕ, String, List, Option, Bool, Dict}
use virule_client.Evidence.Json.{Json}
use virule_client.Transfers.Job.{TransferJob, Stage, Scan, Outcome}

-- The size and the write time of a file (src/client/upload_verification.hpp).
pub record Identity : Type 0 where
  pub bytes : ℕ
  pub mtime : ℕ

pub record Digests : Type 0 where
  pub sha256 : String
  pub parts : List String

-- The client's own verification of a package.
pub record Verification : Type 0 where
  pub job_id : String
  pub game_uuid : String
  pub build_uuid : String
  pub package_path : String
  pub archive : Identity
  pub package_sha256 : String
  pub part_sha256 : List String
  pub content_bytes : ℕ
  pub file_count : ℕ
  pub launch_exe : String
  pub scanner : String
  pub scan_path : String
  pub engine_version : String
  pub signature_version : String
  pub verified_utc : String

pub record Incident (Text : Type 0) : Type 0 where
  pub incident : Option Text
  pub route : String
  pub examined : Bool
  pub reported : Bool

-- One call of the service: a JSON body, or the bytes of a part with the digests in its headers.
pub data Body (Text Bytes : Type 0) : Type 0 where
  no_body : Body Text Bytes
  json : Text → Body Text Bytes
  octets : Bytes → String → String → Body Text Bytes

pub record ServiceCall (Text Bytes : Type 0) : Type 0 where
  pub method : String
  pub path : String
  pub body : Body Text Bytes

pub record Reply (Text : Type 0) : Type 0 where
  pub status : ℕ
  pub body : Text

-- The bytes and the number of the files of a package, or why it cannot be listed.
pub data Contents : Type 0 where
  listed : ℕ → ℕ → Contents
  unlisted : String → Contents

-- How an extraction ends: whole, or with a reason.
pub data Extraction : Type 0 where
  whole : Extraction
  broken : String → Extraction

-- ms::Extracted: the originals copied out of the wrapper.
pub data Originals : Type 0 where
  copied : Originals
  blocked unread : String → Originals

-- How the partial file of a download opens for appending.
pub data Opening : Type 0 where
  appends refused_by_antivirus cannot_open : Opening

-- A range of a download: whether it was written whole, the bytes written, and the status.
pub record Range : Type 0 where
  pub is_whole : Bool
  pub got : ℕ
  pub status : ℕ

-- The files below a folder: their contents by their relative path.
abbrev pub Folder : Type 0
Folder = Dict String

-- What of the installed files no record vouches for: all of them, or these.
pub record Unverified : Type 0 where
  pub is_whole : Bool
  pub files : List String

-- The plan of a scan of installed files.
pub record Plan : Type 0 where
  pub is_whole : Bool
  pub is_launch_changed : Bool
  pub targets : List String

-- The files that the driver owns, and the calls that it made of the service, the latest first.
pub record Site (Text Bytes : Type 0) : Type 0 where
  -- transfers\<id>\job.json by id
  pub jobs : Dict TransferJob
  -- the map of `save`, and the calls that it made of `on_change`
  pub last_states : Dict Stage
  pub changes : ℕ
  -- the sealed verifications and incidents by job id
  pub verifications : Dict Verification
  pub incidents : Dict (Incident Text)
  -- the scratch folder beside a package
  pub scratch : Bool
  -- the install in hand: the size of the downloaded file, the game's folder, and those beside it in
  -- .virule-staging
  pub temp : Option ℕ
  pub game : Option Folder
  pub staging : Option Folder
  pub old : Option Folder
  -- the tickets by assignment, the credential, the records of content and of digests by job
  pub tickets : Dict Text
  pub credential : Option Text
  pub content_records : Dict Text
  pub digest_records : Dict Text
  -- the calls that were made of after_install, the latest first
  pub after_installs : List String
  pub sent : List (ServiceCall Text Bytes)
  pub steps : ℕ

-- What other code and the outside answer. A number counts the calls made so far.
pub record Env (j : Json) : Type 1 where
  pub Bytes : Type 0
  -- virule_core
  pub parts_total : ℕ → ℕ
  pub is_hex32 : String → Bool
  pub is_sha256_hex : String → Bool
  pub part_bytes : ℕ → ℕ → ℕ
  pub part_limit : ℕ
  pub range_limit : ℕ
  pub package_max : ℕ
  pub within_cap : ℕ → Bool
  pub list_jobs : Dict TransferJob → List TransferJob
  -- newest_upload_for_game: its id
  pub newest_upload : Dict TransferJob → String → Option String
  pub is_terminal : TransferJob → Bool
  pub installed_revision : TransferJob → String
  pub too_large_sentence : ℕ → String
  pub format_gb : ℕ → String
  pub unverified_sentence : Outcome → ℕ → String → String
  -- ms::removed_by_antivirus with the threats that were seen
  pub removed_scan : String → String → String → Scan
  pub outcome_name : Outcome → String
  pub incident_json : ℕ → Scan → String → String → String → j.Text
  pub to_string : ℕ → String
  -- the text between two quotes, as it is
  pub plain : String → j.Text
  -- json_scan's find_string_in over a whole text, the empty text where there is none
  pub find_string : j.Text → String → String
  -- the clock, the stop event, the writes of files and the seals that hold
  pub now : ℕ → ℕ
  pub utc : ℕ → String
  pub stops : ℕ → Bool
  pub writes : ℕ → Bool
  pub sealed : ℕ → Bool
  -- the service
  pub reply : ℕ → ServiceCall j.Text Bytes → Reply j.Text
  -- the package of an upload
  pub identity_of : ℕ → String → Option Identity
  pub digest_package : ℕ → String → ℕ → Option Digests
  pub read_part : ℕ → String → ℕ → Option Bytes
  pub sha256_hex : ℕ → Bytes → String
  pub md5_hex : ℕ → Bytes → String
  pub zip_contents : ℕ → String → Contents
  pub free_bytes_at : ℕ → String → ℕ
  -- a name beside the package
  pub beside : String → String → String
  -- finding_identity.hpp's attach: what is said of the threats
  pub attach : ℕ → String → String
  -- the extraction, the scan and what the antivirus did
  pub extract_zip : ℕ → String → Extraction
  pub has_file : ℕ → String → Bool
  pub originals : ℕ → String → Originals
  pub run_scan : ℕ → List String → Scan
  pub threats_seen : ℕ → List String → Option String
  -- the path of the first of the threats
  pub first_path : String → String
  -- the install: another thread's pause, the launcher's answer, the ended assignments
  pub pauses : ℕ → String → Bool
  pub busy : ℕ → String → Bool
  pub is_ended : ℕ → String → Bool
  pub opens : ℕ → Opening
  pub get_range : ℕ → String → ℕ → ℕ → Range
  pub file_digest : ℕ → Option String
  -- the files of a folder after an extraction into it, which may break off
  pub extracted : ℕ → Folder → Folder
  pub scan_staged : ℕ → Scan
  pub originals_staged : ℕ → Originals
  -- the installed files that the walk reaches: regular ones, not behind a link or a refused folder
  pub is_carried : ℕ → String → Bool
  -- why the installed files cannot be carried over, if they cannot
  pub cannot_carry : ℕ → Option String
  pub renames : ℕ → Bool
  -- verified_content.hpp and verified_digests.hpp
  pub placed_record : String → Option j.Text → Folder → j.Text
  pub digests_record : String → Folder → j.Text
  pub machine_key : ℕ → String
  pub machine_bind_body : ℕ → String → j.Text
  -- the removal: the parts of a path, and whether a folder was removed whole or is still there
  pub parent_of : String → String
  pub name_of : String → String
  pub removes : ℕ → Bool
  -- what a removal that is not made whole leaves of a folder
  pub leaves : ℕ → Option Folder → Option Folder
  -- install_for_assignment
  pub install_for : Dict TransferJob → String → Option TransferJob
  pub process_alive : ℕ → ℕ → Bool
  -- the verification of installed content, with verified_content.hpp
  pub unverified : ℕ → Option j.Text → String → Unverified
  pub plan_scan : Unverified → String → Plan
  pub originals_installed : ℕ → Originals
  pub scan_installed : ℕ → Plan → Scan
  pub after_clean_scan : Option j.Text → String → Unverified → j.Text
