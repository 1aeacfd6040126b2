-- ===== src/Transfers/Control.antt =====
-- What a person, or the service after a clearance, asks of the transfers (src/client/transfers.hpp:
-- control, set_aside_refusal, begin_removal). The action `verify` of control is refresh_launch_chain.
pub mod Held
pub mod Last
use virule_client.Prelude.{
  ℕ, suc, String, List, [], ◌∷◌, Option, none, some, Bool, true, false, not, ◌&&◌, ◌||◌,
  if◌then◌else◌, Dict, put, contains, ◌==◌,
}
use virule_client.Evidence.Json.{Json}
use virule_client.Transfers.Job.{
  TransferJob, Stage, queued, downloading, paused, installed, removing, removed, failed, is_at,
  is_upload,
}
use virule_client.Transfers.Site.{Env, Site}
use virule_client.Transfers.Outcome.{At, tick}
use virule_client.Transfers.Install.Chain.{ensure_launch_chain, ChainOutcome, Chained}
use virule_client.Transfers.Install.Build.{asked_of}

-- The requests that the driver applies, by assignment.
pub record Controls : Type 0 where
  pub paused_ids : List String
  pub retry_ids : List String
  pub verify_ids : List String
  pub release_held : Bool

pub data Action : Type 0 where
  pause resume retry : Action

unfoldable pub erase_id : String → List String → List String
erase_id id [] = []
erase_id id (x ∷ xs) = let rest = erase_id id xs in if x == id then rest else x ∷ rest

abbrev pub add_id : String → List String → List String
add_id id xs = if contains xs id then xs else id ∷ xs

unfoldable pub note_action : Action → String → Controls → Controls
note_action pause id c = record c { paused_ids = add_id id c.paused_ids }
note_action resume id c = record c { paused_ids = erase_id id c.paused_ids }
note_action retry id c = record c {
  paused_ids = erase_id id c.paused_ids;
  retry_ids = add_id id c.retry_ids;
}

-- Whether a pause stands for an assignment.
abbrev pub is_paused_now : String → Controls → Bool
is_paused_now id c = contains c.paused_ids id

-- A job for which nothing runs is changed at once; none where nothing changes.
unfoldable pub acted : Action → TransferJob → Option TransferJob
acted pause k =
    if is_at k.state queued || is_at k.state downloading
    then some (record k { state = paused; is_paused = true })
    else none
acted resume k =
    if is_at k.state paused
    then some (record k { state = downloading; is_paused = false })
    else none
acted retry k =
    if is_at k.state failed && not k.security_held
    then some (record k {
      state = queued;
      is_paused = false;
      error = "";
      attempts = 0;
      next_attempt_utc = 0;
    })
    else none

-- The scan outcomes of a refusal.
abbrev pub is_refusal : String → Bool
is_refusal outcome = (outcome == "detected") || (outcome == "removed")

-- A failed install is queued again.
unfoldable pub requeued : TransferJob → TransferJob
requeued k =
    let k1 : TransferJob = record k { error = "" } in
    if is_at k.state failed
    then record k1 { state = queued; attempts = 0; next_attempt_utc = 0; bytes_done = 0 }
    else k1

unfoldable pub without_refusal : Bool → TransferJob → TransferJob
without_refusal was_held k =
    let k1 : TransferJob = record k {
      security_held = false;
      scan_revision_id = "";
      scan_outcome = if is_refusal k.scan_outcome then "" else k.scan_outcome;
    } in
    if was_held then requeued k1 else k1

module _ {j : Json} (e : Env j) where
  open j use {Text}
  open e use {Bytes}

  abbrev pub is_held_for : String → TransferJob → Bool
  is_held_for revision k = k.security_held && (k.revision_id == revision)

  abbrev pub is_installed_as : String → TransferJob → Bool
  is_installed_as revision k = (e.installed_revision k == revision) || (k.revision_id == revision)

  -- The job is verified again from the start; none where nothing changes.
  unfoldable pub set_aside_refusal : String → String → TransferJob → Option TransferJob
  set_aside_refusal assignment revision k =
      if is_upload k.kind || not (k.assignment_id == assignment)
      then none
      else if not (is_held_for revision k) && not (is_installed_as revision k)
      then none
      else if k.security_held && not (is_held_for revision k)
      then none
      else some (without_refusal (is_held_for revision k) k)

  -- A write of a job without a note of its change.
  unfoldable pub write_job : TransferJob → Site Text Bytes → Site Text Bytes
  write_job k s = record s {
    jobs =
        if e.writes s.steps
        then put k.id (record k { updated_utc = e.utc s.steps }) s.jobs
        else s.jobs;
    steps = suc s.steps;
  }

  unfoldable pub control : Action → String → Controls × Site Text Bytes → Controls × Site Text Bytes
  control a assignment (c, s) = (
    note_action a assignment c,
    elim (e.install_for s.jobs assignment) [
      | none ↦ s
      | some k ↦ elim (acted a k) [ none ↦ s | some k1 ↦ write_job k1 s ]
    ],
  )

  -- The launch chain of an installed assignment is made current: whether it is, and why not.
  unfoldable pub refresh_launch_chain : String → Site Text Bytes → (Bool × String) × Site Text Bytes
  refresh_launch_chain assignment s = elim (e.install_for s.jobs assignment) [
    | none ↦ ((false, "This game isn't installed yet."), s)
    | some k ↦
        let c : Chained e = ensure_launch_chain e (asked_of e k) (record { job = k; site = s }) in
        if not (is_at k.state installed)
        then ((false, "This game isn't installed yet."), s)
        else ((c.0.ok, c.0.why), c.1.site)
  ]

  unfoldable pub begin_removal : String → Site Text Bytes → Bool × Site Text Bytes
  begin_removal assignment s = elim (e.install_for s.jobs assignment) [
    | none ↦ (false, s)
    | some k ↦
        if is_at k.state removed || is_at k.state removing
        then (false, s)
        else (e.writes s.steps, write_job (record k { state = removing; next_attempt_utc = 0 }) s)
  ]
