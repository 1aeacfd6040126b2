-- ===== src/Transfers/Incidents/Reported.antt =====
-- What of the incidents is sent (src/client/transfers.hpp).
use virule_client.Prelude.{
  suc, ◌≡◌, refl, ◌⊎◌, inl, inr, String, List, [], ◌∷◌, Option, none, some, true, false, not, ◌&&◌,
  ◌||◌, if_branches, Dict, Option-cases, put, contains, contains-insert, eq_refl, sym, subst, arith,
  ◌==◌,
}
use virule_client.Evidence.Json.{Json}
use virule_client.Transfers.Job.{Scan, is_incident, is_canceled}
use virule_client.Transfers.Site.{Env, Incident}
use virule_client.Transfers.Outcome.{At, tick, call, keep_incident}
use virule_client.Transfers.Incidents.{
  read_incident, write_incident, is_final, report_of, send_incident, report_kept, report_found,
  report_incident, keep_finding, keep_nothing, scan_source_folder, look_at, look_into,
  establish_from, establish_host_detection,
}

module _ {j : Json} (e : Env j) where
  open j use {Text}
  open e use {Bytes}

  -- Nothing changed but the count of calls; or one incident was sent, which was kept and not reported, to
  -- its own route, and it counts as reported only after a final answer.
  abbrev pub IsReport : At Text Bytes → At Text Bytes → Type 0
  IsReport s t =
      ((t.site.sent ≡ s.site.sent) × (t.site.incidents ≡ s.site.incidents))
      ⊎ ((i : Incident Text) × (body : Text) × (read_incident e s ≡ some i)
          × (i.incident ≡ some body)
          × (i.reported ≡ false)
          × (t.site.sent ≡ report_of e i body ∷ s.site.sent)
          × ((t.site.incidents ≡ s.site.incidents)
              ⊎ ((t.site.incidents ≡ put s.job.id (record i { reported = true }) s.site.incidents)
                  × (is_final e (e.reply (suc s.site.steps) (report_of e i body)) ≡ true))))

  report_kept-IsReport :
      (i : Incident Text) (s : At Text Bytes)
      → read_incident e s ≡ some i
      → IsReport s (report_kept e i (tick e s))
  unfolding report_kept send_incident write_incident call
  report_kept-IsReport i s r = elim (Option-cases i.incident) [
    | inl n ↦ rw (report_kept, n) (inl (refl, refl))
    | inr (body, y) ↦
        rw (report_kept, y)
          (if_branches (IsReport s) i.reported (λ _. inl (refl, refl))
            (λ b.
              if_branches (IsReport s)
                (is_final e (e.reply (suc s.site.steps) (report_of e i body)))
                (λ f.
                  if_branches
                    (λ (incidents : Dict (Incident Text)). IsReport s (record s {
                      site = record s.site {
                        sent = report_of e i body ∷ s.site.sent;
                        incidents = incidents;
                        steps = suc (suc (suc s.site.steps));
                      };
                    }))
                    (e.writes (suc (suc s.site.steps)))
                    (λ _. inr (i, body, r, y, b, refl, inr (refl, f)))
                    (λ _. inr (i, body, r, y, b, refl, inl refl)))
                (λ _. inr (i, body, r, y, b, refl, inl refl))))
  ]

  report_found-IsReport :
      (o : Option (Incident Text)) (s : At Text Bytes)
      → read_incident e s ≡ o
      → IsReport s (report_found e o s)
  unfolding report_found
  report_found-IsReport none s _ = inl (refl, refl)
  report_found-IsReport (some i) s r = report_kept-IsReport i s r

  -- A report sends nothing and changes no incident; or it sends the kept incident of the job, which was
  -- not reported yet, to the route that was kept with it, and the incident counts as reported only
  -- after an answer that is final.
  pub report_incident-IsReport : (s : At Text Bytes) → IsReport s (report_incident e s)
  unfolding report_incident
  report_incident-IsReport s = report_found-IsReport (read_incident e s) s refl

  -- Nothing was sent, and the incidents are the same or one was written for the job that is examined
  -- and not reported.
  abbrev pub IsLookedInto : At Text Bytes → At Text Bytes → Type 0
  IsLookedInto s t =
      (t.site.sent ≡ s.site.sent)
      × (t.job ≡ s.job)
      × ((t.site.incidents ≡ s.site.incidents)
          ⊎ ((i : Incident Text) × (t.site.incidents ≡ put s.job.id i s.site.incidents)
              × (i.examined ≡ true)
              × (i.reported ≡ false)))

  write_incident-IsLookedInto :
      (i : Incident Text) (s : At Text Bytes)
      → i.examined ≡ true
      → i.reported ≡ false
      → IsLookedInto s (write_incident e i s)
  unfolding write_incident
  write_incident-IsLookedInto i s x r = (
    refl,
    refl,
    if_branches
        (λ (incidents : Dict (Incident Text)).
          (incidents ≡ s.site.incidents)
          ⊎ ((i : Incident Text) × (incidents ≡ put s.job.id i s.site.incidents)
              × (i.examined ≡ true)
              × (i.reported ≡ false)))
        (e.writes s.site.steps) (λ _. inr (i, refl, x, r)) (λ _. inl refl),
  )

  keep_finding-IsLookedInto : (r : Scan) (s : At Text Bytes) → IsLookedInto s (keep_finding e r s)
  unfolding keep_finding keep_incident write_incident
  keep_finding-IsLookedInto r s = write_incident-IsLookedInto _ s refl refl

  scan_source_folder-IsLookedInto : (s : At Text Bytes) → IsLookedInto s (scan_source_folder e s)
  unfolding scan_source_folder keep_nothing
  scan_source_folder-IsLookedInto s =
      if_branches (IsLookedInto s)
        ((s.job.source_path == "") || not (e.has_file s.site.steps s.job.source_path))
        (λ _. write_incident-IsLookedInto _ s refl refl)
        (λ _.
          if_branches (IsLookedInto s)
            (is_canceled (e.run_scan s.site.steps (s.job.source_path ∷ [])).outcome
              && e.stops s.site.steps)
            (λ _. (refl, refl, inl refl))
            (λ _.
              if_branches (IsLookedInto s)
                (is_incident (e.run_scan s.site.steps (s.job.source_path ∷ [])).outcome)
                (λ _. keep_finding-IsLookedInto _ (tick e s))
                (λ _. write_incident-IsLookedInto _ (tick e s) refl refl)))

  look_at-IsLookedInto : (o : Option String) (s : At Text Bytes) → IsLookedInto s (look_at e o s)
  unfolding look_at
  look_at-IsLookedInto none s = scan_source_folder-IsLookedInto s
  look_at-IsLookedInto (some threats) s = keep_finding-IsLookedInto _ (tick e s)

  abbrev Looked : Type 0
  Looked = List String × At Text Bytes

  establish_from-IsLookedInto :
      (looked : List String) (s : At Text Bytes)
      → IsLookedInto s (establish_from e none looked s).1
        × (contains (establish_from e none looked s).0 s.job.id ≡ true)
  unfolding establish_from look_into
  establish_from-IsLookedInto looked s =
      if_branches (λ (r : Looked). IsLookedInto s r.1 × (contains r.0 s.job.id ≡ true))
        (contains looked s.job.id) (λ c. ((refl, refl, inl refl), c))
        (λ _. (
          look_at-IsLookedInto _ (tick e s),
          ground (arith, contains-insert s.job.id s.job.id looked, eq_refl s.job.id),
        ))

  establish_from_again :
      (o : Option (Incident Text)) (looked : List String) (s : At Text Bytes)
      → contains looked s.job.id ≡ true
      → (establish_from e o looked s).1 ≡ tick e s
  unfolding establish_from
  establish_from_again (some i) looked s c = refl
  establish_from_again none looked s c = rw c refl

  -- The client looks into the finding of a host once in a process: where no incident was kept for the
  -- job, nothing is sent and the incidents are the same or one was written for the job, examined and
  -- not reported; and asked again for the same job, later, it neither sends nor writes anything.
  pub establish_host_detection-IsLookedInto :
      (looked : List String) (s s1 : At Text Bytes)
      → read_incident e s ≡ none
      → s1.job.id ≡ s.job.id
      → IsLookedInto s (establish_host_detection e looked s).1
        × ((establish_host_detection e (establish_host_detection e looked s).0 s1).1 ≡ tick e s1)
  unfolding establish_host_detection
  establish_host_detection-IsLookedInto looked s s1 n same =
      let (first, known) = establish_from-IsLookedInto looked s in
      let after : List String = (establish_from e none looked s).0 in
      rw n (
        first,
        establish_from_again (read_incident e s1) after s1
            (subst (λ (id : String). contains after id ≡ true) (sym same) known),
      )
