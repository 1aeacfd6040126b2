-- ===== src/Transfers/Upload/Examine.antt =====
-- What a package turns out to be: its extraction and its scan (src/client/transfers.hpp, verify_package).
pub mod Found
use virule_client.Prelude.{
  ℕ, suc, ◌+◌, ◌*◌, String, List, [], ◌∷◌, Option, none, some, Bool, true, false, not, ◌&&◌, ◌||◌,
  eqb, ltb, leb, if◌then◌else◌, without, ◌==◌,
}
use Prim.Native.String.{◌++◌ as join}
use virule_client.Evidence.Json.{Json}
use virule_client.Transfers.Job.{
  TransferJob, packaged, verifying, Scan, Outcome, clean, canceled, is_incident, is_clean,
  is_canceled, scan_error,
}
use virule_client.Transfers.Site.{
  Env, Site, Identity, Digests, Verification, Contents, listed, unlisted, whole, broken, copied,
  blocked, unread,
}
use virule_client.Transfers.Outcome.{
  At, tick, save_job, defer_job, fail_job, keep_incident, remove_record,
}
use virule_client.Transfers.Upload.Session.{Step, ended, followed}
use virule_client.Transfers.Upload.Parts.{count, package_changed}
use virule_client.Transfers.Upload.Record.{write_record, is_same_identity}

abbrev pub defender : String
defender = "Microsoft Defender Antivirus"

-- What the package turned out to be: the client stops, it is no build, or there is a result of a scan.
pub data Examined (Text Bytes : Type 0) : Type 0 where
  interrupted : At Text Bytes → Examined Text Bytes
  unusable : String → At Text Bytes → Examined Text Bytes
  scanned : Scan → At Text Bytes → Examined Text Bytes

module _ {j : Json} (e : Env j) where
  open j use {Text}
  open e use {Bytes}

  unfoldable pub failed_scan : String → Scan
  failed_scan why = record {
    outcome = scan_error;
    why_unavailable = 0;
    scanner = defender;
    path = "";
    engine_version = "";
    signature_version = "";
    threats = "";
    detail = why;
  }

  abbrev pub scratch_of : TransferJob → String
  scratch_of k = e.beside k.package_path (join k.build_uuid ".verify")

  abbrev pub originals_of : TransferJob → String
  originals_of k = e.beside k.package_path (join k.build_uuid ".verify-originals")

  unfoldable pub with_scratch : Bool → At Text Bytes → At Text Bytes
  with_scratch b s = record s {
    site = record s.site {
      scratch = b || (s.site.scratch && not (e.removes s.site.steps));
      steps = suc s.site.steps;
    };
  }

  -- Whether the antivirus acted on the scratch folder or the package, as Defender's record says.
  unfoldable pub unless_acted : String → String → String → At Text Bytes → Examined Text Bytes
  unless_acted why path detail s =
      elim (e.threats_seen s.site.steps (scratch_of s.job ∷ s.job.package_path ∷ [])) [
        | none ↦ unusable why s
        | some threats ↦ scanned (e.removed_scan threats path detail) s
      ]

  unfoldable pub scan_originals : At Text Bytes → Examined Text Bytes
  scan_originals s = elim (e.originals s.site.steps (scratch_of s.job)) [
    | copied ↦
        scanned
          (e.run_scan s.site.steps
            (s.job.package_path ∷ scratch_of s.job ∷ originals_of s.job ∷ []))
          s
    | blocked why ↦
        if e.stops s.site.steps
        then interrupted s
        else scanned (e.removed_scan "" s.job.launch_exe why) s
    | unread why ↦ if e.stops s.site.steps then interrupted s else scanned (failed_scan why) s
  ]

  -- The extraction into the scratch folder and what follows from it.
  unfoldable pub examine : At Text Bytes → Examined Text Bytes
  examine s = elim (e.extract_zip s.site.steps s.job.package_path) [
    | broken why ↦
        if e.stops s.site.steps
        then interrupted s
        else unless_acted why why
            "A game file was refused or removed by the antivirus while the package was verified." s
    | whole ↦
        if not (e.has_file s.site.steps (e.beside (scratch_of s.job) s.job.launch_exe))
        then unless_acted (join "The build has no " (join s.job.launch_exe ". Build it again."))
            s.job.launch_exe
            "The game's launch file was removed by the antivirus while the package was verified." s
        else scan_originals (tick e s)
  ]
