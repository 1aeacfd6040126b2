-- ===== src/Transfers/Upload/Run.antt =====
-- One attempt at an upload (src/client/transfers.hpp, run_upload).
pub mod Safety
use virule_client.Prelude.{
  ℕ, String, List, [], ◌∷◌, Option, none, some, Bool, true, false, not, ◌&&◌, ◌||◌, if◌then◌else◌,
  ◌==◌,
}
use virule_client.Evidence.Json.{Json}
use virule_client.Transfers.Job.{TransferJob, held, packaged, uploading, registering, is_at}
use virule_client.Transfers.Site.{Env, Verification}
use virule_client.Transfers.Outcome.{At, tick, save_job, fail_job}
use virule_client.Transfers.Upload.Session.{Step, ended, followed, open_session, complete_session}
use virule_client.Transfers.Upload.Parts.{package_changed, send_parts}
use virule_client.Transfers.Upload.Record.{vouches}
use virule_client.Transfers.Upload.Verify.{verify_upload}

module _ {j : Json} (e : Env j) where
  open j use {Text}
  open e use {Bytes}

  -- The parts sent, the upload is completed.
  unfoldable pub register : Step Text Bytes → At Text Bytes
  register t =
      if t.goes_on && is_at t.at.job.state registering then complete_session e t.at else t.at

  unfoldable pub send_and_register : ℕ → Verification → Step Text Bytes → Option (At Text Bytes)
  send_and_register fuel v t =
      let sent = send_parts e v fuel t.at in
      if not t.goes_on
      then some t.at
      else if is_at t.at.job.state uploading
      then elim sent [ none ↦ none | some u ↦ some (register u) ]
      else some (register t)

  unfoldable pub carry_on : ℕ → Verification → At Text Bytes → Option (At Text Bytes)
  carry_on fuel v s = send_and_register fuel v (
      if is_at s.job.state packaged || is_at s.job.state held || (s.job.session_id == "")
      then open_session e v s
      else followed s)

  unfoldable pub verify_first : ℕ → Step Text Bytes → Option (At Text Bytes)
  verify_first fuel t = if not t.goes_on then some t.at else elim (vouches e t.at) [
    | none ↦ some (fail_job e package_changed t.at)
    | some v ↦ carry_on fuel v (tick e t.at)
  ]

  -- The gate: the client's own sealed verification of this very package, or it verifies now.
  unfoldable pub gate : ℕ → At Text Bytes → Option (At Text Bytes)
  gate fuel s = elim (vouches e s) [
    | some v ↦ carry_on fuel v (tick e s)
    | none ↦ verify_first fuel (verify_upload e (tick e s))
  ]

  abbrev pub is_replaced : At Text Bytes → Bool
  is_replaced s = is_at s.job.state held && elim (e.newest_upload s.site.jobs s.job.game_id) [
    | none ↦ false
    | some id ↦ not (id == s.job.id)
  ]

  unfoldable pub claim_upload : String → At Text Bytes → At Text Bytes
  claim_upload email s =
      if s.job.account_email == ""
      then save_job e (record s { job = record s.job { account_email = email } })
      else s

  -- An attempt at a job that has its account.
  unfoldable pub run_claimed : ℕ → String → At Text Bytes → Option (At Text Bytes)
  run_claimed fuel email s =
      if not (s.job.account_email == email)
      then some s
      else if is_replaced s
      then some (fail_job e "Replaced by a newer build." s)
      else gate fuel s

  unfoldable pub run_upload : ℕ → String → At Text Bytes → Option (At Text Bytes)
  run_upload fuel email s = run_claimed fuel email (claim_upload email s)
