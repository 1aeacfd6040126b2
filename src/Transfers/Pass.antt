-- ===== src/Transfers/Pass.antt =====
-- The visit of a job in a pass of the transfers, from the test of its end on (src/client/transfers.hpp,
-- run_pass), and the wait after a pass (run_driver).
use virule_client.Prelude.{
  ℕ, ◌+◌, ◌-◌, String, List, ◌∷◌, Option, none, some, Bool, not, ◌&&◌, ◌||◌, eqb, ltb, leb,
  if◌then◌else◌, Dict, lookup, put, contains,
}
use virule_client.Evidence.Json.{Json}
use virule_client.Evidence.Ladder.{backoff_cap}
use virule_client.Transfers.Job.{
  TransferJob, building, packaging, scanning_source, scanning_package, queued, failed, held,
  removing, is_at, is_upload,
}
use virule_client.Transfers.Site.{Env}
use virule_client.Transfers.Outcome.{At, save_job}
use virule_client.Transfers.Upload.Run.{run_upload}
use virule_client.Transfers.Install.Run.{run_install}
use virule_client.Transfers.Control.{erase_id}
use virule_client.Transfers.Removal.{run_removal}

abbrev pub resume_every_seconds : ℕ
resume_every_seconds = 300

-- The pass, and the requests and the host starts that it remembers.
pub record Visited (Text Bytes : Type 0) : Type 0 where
  pub at : At Text Bytes
  -- 0 where nothing is due
  pub next_due : ℕ
  pub last_resume : Dict ℕ
  pub retry_ids : List String
  -- the calls that were made of resume_headless, the latest first
  pub host_starts : List String

abbrev pub sooner : ℕ → ℕ → ℕ
sooner due t = if eqb due 0 then t else if ltb t due then t else due

module _ {j : Json} (e : Env j) where
  open j use {Text}
  open e use {Bytes}

  abbrev pub with_due : ℕ → Visited Text Bytes → Visited Text Bytes
  with_due t v = record v { next_due = sooner v.next_due t }

  -- A failed install that the person asked to try again.
  unfoldable pub take_retry : Visited Text Bytes → Visited Text Bytes
  take_retry v =
      let k : TransferJob = v.at.job in
      if not (is_upload k.kind) && contains v.retry_ids k.assignment_id
      then record v {
        retry_ids = erase_id k.assignment_id v.retry_ids;
        at =
            if is_at k.state failed && not k.security_held
            then save_job e (record v.at {
              job = record k { state = queued; error = ""; attempts = 0; next_attempt_utc = 0 };
            })
            else v.at;
      }
      else v

  abbrev pub is_host_stage : TransferJob → Bool
  is_host_stage k =
      is_upload k.kind
      && (is_at k.state building
          || is_at k.state packaging
          || is_at k.state scanning_source
          || is_at k.state scanning_package)

  -- The host is started to finish the build.
  unfoldable pub start_host : ℕ → Visited Text Bytes → Visited Text Bytes
  start_host t v = with_due (t + resume_every_seconds) (record v {
    last_resume = put v.at.job.id t v.last_resume;
    host_starts = v.at.job.id ∷ v.host_starts;
  })

  -- The host's stage: started again, rarely, where its process is gone.
  unfoldable pub visit_host : ℕ → Visited Text Bytes → Visited Text Bytes
  visit_host t v =
      if e.process_alive v.at.site.steps v.at.job.owner_pid
      then v
      else elim (lookup v.at.job.id v.last_resume) [
        | none ↦ start_host t v
        | some last ↦
            if ltb t (last + resume_every_seconds)
            then with_due (last + resume_every_seconds) v
            else start_host t v
      ]

  unfoldable pub attempt_job : ℕ → String → At Text Bytes → Option (At Text Bytes)
  attempt_job fuel email s =
      if is_upload s.job.kind
      then run_upload e fuel email s
      else if is_at s.job.state removing
      then some (run_removal e s)
      else run_install e fuel email s

  unfoldable pub after_attempt : ℕ → Visited Text Bytes → Visited Text Bytes
  after_attempt t v =
      if not (e.is_terminal v.at.job) && ltb t v.at.job.next_attempt_utc
      then with_due v.at.job.next_attempt_utc v
      else v

  abbrev pub waits_until : ℕ → TransferJob → Bool
  waits_until t k = ltb t k.next_attempt_utc && leb (k.next_attempt_utc - t) backoff_cap

  unfoldable pub visit_due :
      ℕ → ℕ → Option String → Visited Text Bytes → Option (Visited Text Bytes)
  visit_due fuel t account v =
      if waits_until t v.at.job then some (with_due v.at.job.next_attempt_utc v) else elim account [
        | none ↦ some v
        | some email ↦ elim (attempt_job fuel email v.at) [
          | none ↦ none
          | some s ↦ some (after_attempt t (record v { at = s }))
        ]
      ]

  -- A released upload is asked about again at once.
  unfoldable pub released : Bool → Visited Text Bytes → Visited Text Bytes
  released release v =
      if release && is_upload v.at.job.kind && is_at v.at.job.state held
      then record v { at = record v.at { job = record v.at.job { next_attempt_utc = 0 } } }
      else v

  unfoldable pub visit_open :
      ℕ → ℕ → Bool → Option String → Visited Text Bytes → Option (Visited Text Bytes)
  visit_open fuel t release account v =
      if is_host_stage v.at.job
      then some (visit_host t v)
      else visit_due fuel t account (released release v)

  unfoldable pub visit_job :
      ℕ → ℕ → Bool → Option String → Visited Text Bytes → Option (Visited Text Bytes)
  visit_job fuel t release account v =
      if e.is_terminal v.at.job then some v else visit_open fuel t release account (take_retry v)
