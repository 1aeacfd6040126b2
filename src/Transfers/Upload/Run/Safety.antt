-- ===== src/Transfers/Upload/Run/Safety.antt =====
-- What an attempt at an upload sends (src/client/transfers.hpp, run_upload).
use virule_client.Prelude.{
  ℕ, ◌≡◌, lookup, ◌⊎◌, String, Option, none, some, false, not, ◌&&◌, ◌||◌, eqb, if_branches, ◌==◌,
}
use virule_client.Evidence.Json.{Json}
use virule_client.Transfers.Job.{held, packaged, uploading, registering, is_at, is_clean}
use virule_client.Transfers.Site.{Env, Identity, Reply, Verification}
use virule_client.Transfers.Outcome.{
  At, save_job, defer_job, fail_job, hold_upload, call, answer, body_code, refused_for_eligibility,
}
use virule_client.Transfers.Calls.{nothing, one_more, Adds-trans}
use virule_client.Transfers.Upload.Session.{
  Step, followed, opening_of, opened, open_session, reading_of, completion_of, read_back,
  complete_session, reopen,
}
use virule_client.Transfers.Upload.Parts.{send_parts}
use virule_client.Transfers.Upload.Parts.Turns.{Sends}
use virule_client.Transfers.Upload.Parts.Ends.{Sent, send_parts-Sent}
use virule_client.Transfers.Upload.Examine.Found.{WasClean}
use virule_client.Transfers.Upload.Run.{register, send_and_register, carry_on}

module _ {j : Json} (e : Env j) where
  open j use {Text}
  open e use {Bytes}

  -- A step of a session with a verified package.
  module _ (v : Verification) where
    open_session-Sends : (s : At Text Bytes) → Sends e v s (open_session e v s).at
    unfolding open_session opened defer_job fail_job hold_upload save_job call opening_of
    open_session-Sends s =
        let r : Reply Text = answer e (opening_of e v s) s in
        let a : Sends e v s (call e (opening_of e v s) s) =
          one_more (opening_of e v s) s.site.sent tt nothing in
        if_branches (λ (t : Step Text Bytes). Sends e v s t.at)
          (eqb r.status 200 || eqb r.status 201)
          (λ _.
            if_branches (λ (t : Step Text Bytes). Sends e v s t.at)
              (not (e.is_hex32 (e.find_string r.body "session_id"))) (λ _. a) (λ _. a))
          (λ _.
            if_branches (λ (t : Step Text Bytes). Sends e v s t.at) (refused_for_eligibility e r)
              (λ _. a)
              (λ _.
                if_branches (λ (t : Step Text Bytes). Sends e v s t.at)
                  (eqb r.status 400 || eqb r.status 404 || eqb r.status 403 || eqb r.status 409)
                  (λ _. a) (λ _. a)))

    read_back-Sends : (s : At Text Bytes) → Sends e v s (read_back e s)
    unfolding read_back defer_job save_job call
    read_back-Sends s =
        let a : Sends e v s (call e (reading_of e s) s) =
          one_more (reading_of e s) s.site.sent tt nothing in
        if_branches (λ (t : At Text Bytes). Sends e v s t)
          (eqb (answer e (reading_of e s) s).status 200) (λ _. a) (λ _. a)

    complete_session-Sends : (s : At Text Bytes) → Sends e v s (complete_session e s)
    unfolding complete_session reopen defer_job fail_job hold_upload save_job call
    complete_session-Sends s =
        let r : Reply Text = answer e (completion_of e s) s in
        let P : At Text Bytes → Type 0 = λ (t : At Text Bytes). Sends e v s t in
        let a : Sends e v s (call e (completion_of e s) s) =
          one_more (completion_of e s) s.site.sent tt nothing in
        if_branches P (eqb r.status 200) (λ _. a)
          (λ _.
            if_branches P (eqb r.status 409 && (body_code e r.body == "incomplete"))
              (λ _. Adds-trans a (read_back-Sends (call e (completion_of e s) s)))
              (λ _.
                if_branches P (eqb r.status 410 || eqb r.status 404) (λ _. a)
                  (λ _.
                    if_branches P (refused_for_eligibility e r) (λ _. a)
                      (λ _.
                        if_branches P (eqb r.status 400 || eqb r.status 403 || eqb r.status 409)
                          (λ _. a) (λ _. a)))))

    register-Sends : (t : Step Text Bytes) → Sends e v t.at (register e t)
    unfolding register
    register-Sends t =
        if_branches (λ (u : At Text Bytes). Sends e v t.at u)
          (t.goes_on && is_at t.at.job.state registering) (λ _. complete_session-Sends t.at)
          (λ _. nothing)

    -- What a run has sent, where it ends.
    abbrev RunSends : At Text Bytes → Option (At Text Bytes) → Type 0
    RunSends s none = Unit
    RunSends s (some t) = Sends e v s t

    send_and_register-Sends :
        (fuel : ℕ) (t : Step Text Bytes) → RunSends t.at (send_and_register e fuel v t)
    unfolding send_and_register
    send_and_register-Sends fuel t =
        if_branches (RunSends t.at) (not t.goes_on) (λ _. nothing)
          (λ _.
            if_branches (RunSends t.at) (is_at t.at.job.state uploading)
              (λ _. go (send_parts e v fuel t.at) (send_parts-Sent e v fuel t.at))
              (λ _. register-Sends t))
      where
        go :
            (r : Option (Step Text Bytes))
            → Sent e v t.at r
            → RunSends t.at (elim r [ none ↦ none | some u ↦ some (register e u) ])
        go none _ = tt
        go (some u) a = Adds-trans a (register-Sends u)

    RunSends-after :
        (s s1 : At Text Bytes) (r : Option (At Text Bytes))
        → Sends e v s s1
        → RunSends s1 r
        → RunSends s r
    RunSends-after s s1 none a h = tt
    RunSends-after s s1 (some t) a h = Adds-trans a h

    pub carry_on-Sends : (fuel : ℕ) (s : At Text Bytes) → RunSends s (carry_on e fuel v s)
    unfolding carry_on
    carry_on-Sends fuel s =
        if_branches (λ (t : Step Text Bytes). RunSends s (send_and_register e fuel v t))
          (is_at s.job.state packaged || is_at s.job.state held || (s.job.session_id == ""))
          (λ _.
            RunSends-after s (open_session e v s).at _ (open_session-Sends s)
              (send_and_register-Sends fuel (open_session e v s)))
          (λ _. send_and_register-Sends fuel (followed s))

  module _
      (never_clean : (threats path detail : String)
        → is_clean (e.removed_scan threats path detail).outcome ≡ false) where
    -- A record of the job's own package, as it is on disk; it was there, or the scan of this run was clean.
    pub record IsAuthorized (s : At Text Bytes) (v : Verification) : Type 0 where
      pub of_job : v.job_id ≡ s.job.id
      pub of_game : v.game_uuid ≡ s.job.game_uuid
      pub of_build : v.build_uuid ≡ s.job.build_uuid
      pub of_path : v.package_path ≡ s.job.package_path
      pub on_disk :
          (k : ℕ) × (i : Identity) × (e.identity_of k s.job.package_path ≡ some i)
          × ((i.bytes ≡ v.archive.bytes) × (i.mtime ≡ v.archive.mtime))
      pub origin : (lookup s.job.id s.site.verifications ≡ some v) ⊎ WasClean e never_clean s

    -- Nothing is sent, or what is sent are parts of an authorized package.
    abbrev pub IsSafe : At Text Bytes → Option (At Text Bytes) → Type 0
    IsSafe s none = Unit
    IsSafe s (some t) =
        (t.site.sent ≡ s.site.sent) ⊎ ((v : Verification) × IsAuthorized s v × Sends e v s t)
