-- ===== src/Transfers/Control/Held.antt =====
-- What a control, or a clearance, does to a job that is held (src/client/transfers.hpp).
use virule_client.Prelude.{
  ◌≡◌, refl, ◌⊎◌, String, Option, none, some, Bool, true, false, not, ◌&&◌, ◌||◌, if_branches,
  arith, eq_iff, ◌==◌,
}
use virule_client.Evidence.Json.{Json}
use virule_client.Transfers.Job.{TransferJob, queued, downloading, paused, failed, is_at, is_upload}
use virule_client.Transfers.Site.{Env}
use virule_client.Transfers.Control.{
  Action, pause, resume, retry, acted, requeued, without_refusal, is_held_for, is_installed_as,
  set_aside_refusal,
}

-- The states that each control is for, and what it makes of a job in them.
abbrev pub IsNotFor : Action → TransferJob → Type 0
IsNotFor pause k = (is_at k.state queued ≡ false) × (is_at k.state downloading ≡ false)
IsNotFor resume k = is_at k.state paused ≡ false
IsNotFor retry k = (is_at k.state failed ≡ false) ⊎ (k.security_held ≡ true)

abbrev pub IsChanged : Action → TransferJob → TransferJob → Type 0
IsChanged pause k k1 =
    ((is_at k.state queued ≡ true) ⊎ (is_at k.state downloading ≡ true))
    × ((k1.state ≡ paused) × (k1.is_paused ≡ true))
IsChanged resume k k1 =
    (is_at k.state paused ≡ true) × ((k1.state ≡ downloading) × (k1.is_paused ≡ false))
IsChanged retry k k1 =
    (is_at k.state failed ≡ true)
    × ((k.security_held ≡ false)
        × ((k1.state ≡ queued)
            × ((k1.is_paused ≡ false)
                × ((k1.attempts ≡ 0) × ((k1.next_attempt_utc ≡ 0) × (k1.error ≡ ""))))))

abbrev pub IsControlled : Action → TransferJob → Option TransferJob → Type 0
IsControlled a k none = IsNotFor a k
IsControlled a k (some k1) = (k1.security_held ≡ k.security_held) × IsChanged a k k1

-- A control changes a job only in the states that it is for, and every job in them: a pause one that
-- is queued or downloads, which is then paused and counts as paused; a resume one that is paused,
-- which then downloads and does not count as paused; a retry one that failed and is not held for
-- security, which is then queued, does not count as paused, and is due at once without an attempt or
-- an error. Whether a job is held for security stays.
pub acted-IsControlled : (a : Action) (k : TransferJob) → IsControlled a k (acted a k)
unfolding acted
acted-IsControlled pause k =
    if_branches (IsControlled pause k) (is_at k.state queued || is_at k.state downloading)
      (λ b. (refl, (ground (arith, b), (refl, refl)))) (λ b. (ground (arith, b), ground (arith, b)))
acted-IsControlled resume k =
    if_branches (IsControlled resume k) (is_at k.state paused) (λ b. (refl, (b, (refl, refl))))
      (λ b. b)
acted-IsControlled retry k =
    if_branches (IsControlled retry k) (is_at k.state failed && not k.security_held)
      (λ b. (refl, (ground (arith, b), (ground (arith, b), (refl, (refl, (refl, (refl, refl))))))))
      (λ b. ground (arith, b))

module _ {j : Json} (e : Env j) where
  -- The job is the assignment's install, of this revision where it is held; it is held no more, and its
  -- content counts as not scanned.
  pub record IsSetAside (assignment revision : String) (k k1 : TransferJob) : Type 0 where
    pub is_install : is_upload k.kind ≡ false
    pub of_assignment : k.assignment_id ≡ assignment
    pub of_revision : k.security_held ≡ true → k.revision_id ≡ revision
    pub is_of_it : (k.revision_id ≡ revision) ⊎ (e.installed_revision k ≡ revision)
    pub is_open : k1.security_held ≡ false
    pub unscanned : k1.scan_revision_id ≡ ""
    pub same_job : (k1.id ≡ k.id) × (k1.revision_id ≡ k.revision_id)

  abbrev pub SetsAside : String → String → TransferJob → Option TransferJob → Type 0
  SetsAside assignment revision k none = Unit
  SetsAside assignment revision k (some k1) = IsSetAside assignment revision k k1

  abbrev IsUnheld : TransferJob → TransferJob → Type 0
  IsUnheld k k1 =
      ((k1.security_held ≡ false) × (k1.scan_revision_id ≡ ""))
      × ((k1.id ≡ k.id) × (k1.revision_id ≡ k.revision_id))

  without_refusal-IsUnheld : (b : Bool) (k : TransferJob) → IsUnheld k (without_refusal b k)
  unfolding without_refusal requeued
  without_refusal-IsUnheld true k =
      if_branches (IsUnheld k) (is_at k.state failed) (λ _. ((refl, refl), (refl, refl)))
        (λ _. ((refl, refl), (refl, refl)))
  without_refusal-IsUnheld false k = ((refl, refl), (refl, refl))

  -- A clearance of a revision changes a job only if it is the install of that assignment, and is
  -- of that revision or installed as it; one that is held for security only if it is of it. A job
  -- that is changed is the same job of the same revision, is held no more, and its content counts
  -- as not scanned.
  pub set_aside_refusal-SetsAside :
      (assignment revision : String) (k : TransferJob)
      → SetsAside assignment revision k (set_aside_refusal e assignment revision k)
  unfolding set_aside_refusal
  set_aside_refusal-SetsAside assignment revision k =
      if_branches P (is_upload k.kind || not (k.assignment_id == assignment)) (λ _. tt)
        (λ a.
          if_branches P (not (is_held_for e revision k) && not (is_installed_as e revision k))
            (λ _. tt)
            (λ b.
              if_branches P (k.security_held && not (is_held_for e revision k)) (λ _. tt)
                (λ c.
                  let ((opened, unscanned), same) =
                    without_refusal-IsUnheld (is_held_for e revision k) k in
                  record {
                    is_install = ground (arith, a);
                    of_assignment = ground (arith, a, eq_iff k.assignment_id assignment);
                    of_revision = λ h. ground (arith, c, h, eq_iff k.revision_id revision);
                    is_of_it = ground (
                      arith,
                      b,
                      eq_iff k.revision_id revision,
                      eq_iff (e.installed_revision k) revision,
                    );
                    is_open = opened;
                    unscanned = unscanned;
                    same_job = same;
                  })))
    where
      P : Option TransferJob → Type 0
      P = SetsAside assignment revision k
