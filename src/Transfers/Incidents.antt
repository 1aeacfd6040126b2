-- ===== src/Transfers/Incidents.antt =====
-- The incidents that the client produced: how one is reported, and how a finding of the host is
-- established by the client itself (src/client/transfers.hpp).
pub mod Reported
use virule_client.Prelude.{
  ℕ, suc, String, List, [], ◌∷◌, Option, none, some, Bool, true, false, not, ◌&&◌, ◌||◌, eqb, ltb,
  leb, if◌then◌else◌, lookup, put, insert, contains, ◌==◌,
}
use virule_client.Evidence.Json.{Json}
use virule_client.Transfers.Job.{TransferJob, Scan, is_incident, is_canceled}
use virule_client.Transfers.Site.{Env, Site, Incident, ServiceCall, Reply, json}
use virule_client.Transfers.Outcome.{At, tick, call, answer, keep_incident}

module _ {j : Json} (e : Env j) where
  open j use {Text}
  open e use {Bytes}

  -- The sealed incident of a job.
  unfoldable pub read_incident : At Text Bytes → Option (Incident Text)
  read_incident s = if e.sealed s.site.steps then lookup s.job.id s.site.incidents else none

  unfoldable pub write_incident : Incident Text → At Text Bytes → At Text Bytes
  write_incident i s = record s {
    site = record s.site {
      incidents =
          if e.writes s.site.steps then put s.job.id i s.site.incidents else s.site.incidents;
      steps = suc s.site.steps;
    };
  }

  -- Success, or a refusal that the service will always give; 401 is never final.
  unfoldable pub is_final : Reply Text → Bool
  is_final r =
      eqb r.status 200
      || eqb r.status 201
      || (leb 400 r.status && ltb r.status 500 && not (eqb r.status 429) && not (eqb r.status 401))

  abbrev pub report_of : Incident Text → Text → ServiceCall Text Bytes
  report_of i body = record { method = "POST"; path = i.route; body = json body }

  unfoldable pub send_incident : Incident Text → Text → At Text Bytes → At Text Bytes
  send_incident i body s =
      let r : Reply Text = answer e (report_of i body) s in
      let s1 : At Text Bytes = call e (report_of i body) s in
      if is_final r then write_incident (record i { reported = true }) s1 else s1

  -- The incident of a job, once.
  unfoldable pub report_kept : Incident Text → At Text Bytes → At Text Bytes
  report_kept i s = elim i.incident [
    | none ↦ s
    | some body ↦ if i.reported then s else send_incident i body s
  ]

  unfoldable pub report_found : Option (Incident Text) → At Text Bytes → At Text Bytes
  report_found none s = s
  report_found (some i) s = report_kept i (tick e s)

  unfoldable pub report_incident : At Text Bytes → At Text Bytes
  report_incident s = report_found (read_incident s) s

  abbrev pub operation_of : TransferJob → String
  operation_of k = if k.build_uuid == "" then "scan_source" else "scan_package"

  -- Found: it is this client's incident.
  unfoldable pub keep_finding : Scan → At Text Bytes → At Text Bytes
  keep_finding r s =
      let r1 : Scan = record r { threats = e.attach s.site.steps r.threats } in
      keep_incident e
        (e.incident_json s.site.steps r1 (operation_of s.job)
          (if operation_of s.job == "scan_source" then "" else s.job.build_uuid) "")
        s

  -- Not found: it was looked into, and nothing is reported.
  unfoldable pub keep_nothing : At Text Bytes → At Text Bytes
  keep_nothing s =
      write_incident (record { incident = none; route = ""; examined = true; reported = false }) s

  unfoldable pub scan_source_folder : At Text Bytes → At Text Bytes
  scan_source_folder s =
      let r : Scan = e.run_scan s.site.steps (s.job.source_path ∷ []) in
      if (s.job.source_path == "") || not (e.has_file s.site.steps s.job.source_path)
      then keep_nothing s
      else if is_canceled r.outcome && e.stops s.site.steps
      then tick e s
      else if is_incident r.outcome
      then keep_finding r (tick e s)
      else keep_nothing (tick e s)

  abbrev pub folders_of : TransferJob → List String
  folders_of k =
      let build = if k.build_path == "" then [] else k.build_path ∷ [] in
      if k.source_path == "" then build else k.source_path ∷ build

  -- What Defender's record says of the folders.
  unfoldable pub look_at : Option String → At Text Bytes → At Text Bytes
  look_at none s = scan_source_folder s
  look_at (some threats) s =
      keep_finding
        (e.removed_scan threats (e.first_path threats)
          "Defender acted on the game's files during the build.")
        (tick e s)

  unfoldable pub look_into : At Text Bytes → At Text Bytes
  look_into s =
      look_at
        (if (s.job.source_path == "") && (s.job.build_path == "")
          then none
          else e.threats_seen s.site.steps (folders_of s.job))
        s

  -- Once for a job in a process; the ids of those that were looked into go with the state.
  unfoldable pub establish_from :
      Option (Incident Text) → List String → At Text Bytes → List String × At Text Bytes
  establish_from (some _) looked s = (looked, tick e s)
  establish_from none looked s =
      if contains looked s.job.id
      then (looked, tick e s)
      else (insert s.job.id looked, look_into (tick e s))

  unfoldable pub establish_host_detection :
      List String → At Text Bytes → List String × At Text Bytes
  establish_host_detection looked s = establish_from (read_incident s) looked s
