-- ===== src/Transfers/Outcome.antt =====
-- How a step of a job ends: saved, deferred, failed or held (src/client/transfers.hpp). The lines that
-- it logs are not modelled.
use virule_client.Prelude.{
  suc, ◌+◌, String, ◌∷◌, none, some, Bool, true, false, not, ◌&&◌, eqb, if◌then◌else◌, Dict, lookup,
  put, without, ◌==◌,
}
use Prim.Native.String.{◌++◌ as join}
use virule_client.Evidence.Ladder.{backoff_seconds, backoff_cap}
use virule_client.Evidence.Json.{Json}
use virule_client.Transfers.Job.{TransferJob, Stage, failed, held, is_upload, same_stage}
use virule_client.Transfers.Site.{Site, Env, ServiceCall, Reply}

-- A job in hand, and everything else.
pub record At (Text Bytes : Type 0) : Type 0 where
  pub job : TransferJob
  pub site : Site Text Bytes

abbrev pub unreachable : String
unreachable = "Couldn't reach our servers right now."

module _ {j : Json} (e : Env j) where
  open j use {Text}
  open e use {Bytes}

  -- A step that only counts.
  abbrev pub tick : At Text Bytes → At Text Bytes
  tick s = record s { site = record s.site { steps = suc s.site.steps } }

  -- Whether the stage is not the one that was saved last.
  unfoldable pub has_changed : TransferJob → Dict Stage → Bool
  has_changed k last = elim (lookup k.id last) [
    | none ↦ true
    | some st ↦ not (same_stage st k.state)
  ]

  -- Every write of a job; a changed state is noted.
  unfoldable pub save_job : At Text Bytes → At Text Bytes
  save_job s =
      let k : TransferJob = record s.job { updated_utc = e.utc s.site.steps } in
      record {
        job = k;
        site = record s.site {
          jobs = if e.writes s.site.steps then put k.id k s.site.jobs else s.site.jobs;
          last_states = put k.id k.state s.site.last_states;
          changes = if has_changed k s.site.last_states then suc s.site.changes else s.site.changes;
          steps = suc s.site.steps;
        };
      }

  -- A failed attempt: the ladder, never giving up.
  unfoldable pub defer_job : String → At Text Bytes → At Text Bytes
  defer_job why s = save_job (record s {
    job = record s.job {
      attempts = s.job.attempts + 1;
      error = why;
      next_attempt_utc = e.now s.site.steps + backoff_seconds (s.job.attempts + 1);
    };
  })

  unfoldable pub fail_job : String → At Text Bytes → At Text Bytes
  fail_job why s =
      save_job (record s { job = record s.job { state = failed; error = why; owner_pid = 0 } })

  -- The service will not take the upload yet: kept as it is, asked again after the cap.
  unfoldable pub hold_upload : String → At Text Bytes → At Text Bytes
  hold_upload why s = save_job (record s {
    job = record s.job {
      state = held;
      error = why;
      attempts = 0;
      next_attempt_utc = e.now s.site.steps + backoff_cap;
    };
  })

  -- A call of the service, remembered.
  unfoldable pub call : ServiceCall Text Bytes → At Text Bytes → At Text Bytes
  call q s = record s { site = record s.site { sent = q ∷ s.site.sent; steps = suc s.site.steps } }

  abbrev pub answer : ServiceCall Text Bytes → At Text Bytes → Reply Text
  answer q s = e.reply s.site.steps q

  unfoldable pub body_message : Text → String
  body_message body =
      let m : String = e.find_string body "message" in
      if m == "" then "The service refused the request." else m

  unfoldable pub body_code : Text → String
  body_code body = e.find_string body "code"

  -- The sentence of an answer that is no success.
  unfoldable pub why_of : Reply Text → String
  why_of r = if eqb r.status 0 then unreachable else body_message r.body

  unfoldable pub refused_for_eligibility : Reply Text → Bool
  refused_for_eligibility r = eqb r.status 409 && (body_code r.body == "no_pending_evaluation")

  -- The incident that the client produced, kept for the service.
  unfoldable pub keep_incident : Text → At Text Bytes → At Text Bytes
  keep_incident incident s = record s {
    site = record s.site {
      incidents =
          if e.writes s.site.steps
          then put s.job.id
              (record {
                incident = some incident;
                route =
                    if is_upload s.job.kind
                    then join (join "/v1/evaluations/games/" s.job.game_uuid) "/security/incident"
                    else join (join "/v1/assignments/" s.job.assignment_id) "/security/incident";
                examined = true;
                reported = false;
              })
              s.site.incidents
          else s.site.incidents;
      steps = suc s.site.steps;
    };
  }

  -- The record of an earlier verification goes.
  abbrev pub remove_record : At Text Bytes → At Text Bytes
  remove_record s = record s {
    site = record s.site {
      verifications =
          if e.writes s.site.steps
          then without s.job.id s.site.verifications
          else s.site.verifications;
      steps = suc s.site.steps;
    };
  }
