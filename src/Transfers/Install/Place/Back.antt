-- ===== src/Transfers/Install/Place/Back.antt =====
-- The way back of an update that cannot be put in place, and what an update keeps
-- (src/client/transfers.hpp, run_install, carry_over).
use virule_client.Prelude.{
  suc, ◌+◌, ◌≡◌, refl, sym, ◌⊎◌, inl, inr, String, Option, none, some, Bool, true, false,
  if_branches, if◌then◌else◌, lookup, arith,
}
use virule_client.Evidence.Json.{Json}
use virule_client.Transfers.Job.{failed}
use virule_client.Transfers.Site.{Env, Folder}
use virule_client.Transfers.Outcome.{At, save_job, defer_job, fail_job}
use virule_client.Transfers.Upload.Session.{Step, ended}
use virule_client.Transfers.Install.Place.{move_back, move_in, place_over, place_build}

-- A file of the build that moves in, or else the previous one's.
abbrev pub or_else : Option String → Option String → Option String
or_else none b = b
or_else (some a) b = some a

-- What the walk takes of the previous folder at a path.
abbrev pub carried : (String → Bool) → Folder → String → Option String
carried is_carried previous path = if is_carried path then lookup path previous else none

module _ {j : Json} (e : Env j) where
  open j use {Text}
  open e use {Bytes}

  -- The build is in the game's folder; or the job is deferred with the folder as it was; or it failed,
  -- and the previous folder, where there was one, stands beside.
  pub record HasPlace (s : At Text Bytes) (t : Step Text Bytes) : Type 0 where
    pub moved : t.goes_on ≡ true → ((t.at.site.game ≡ s.site.staging) × (t.at.job ≡ s.job))
    pub quiet : t.at.site.sent ≡ s.site.sent
    pub stayed :
        t.goes_on ≡ false
        → ((t.at.site.game ≡ s.site.game) × (t.at.job.attempts ≡ s.job.attempts + 1))
          ⊎ ((t.at.job.state ≡ failed) × ((s.site.game ≡ none) ⊎ (t.at.site.old ≡ s.site.game)))

  place_over-HasPlace :
      (o : Option Folder) (s : At Text Bytes) → s.site.game ≡ o → HasPlace s (place_over e o s)
  unfolding place_over move_in move_back defer_job fail_job save_job
  place_over-HasPlace none s n =
      if_branches (HasPlace s) (e.renames s.site.steps)
        (λ _. record { quiet = refl; moved = λ _. (refl, refl); stayed = λ h. ground (arith, h) })
        (λ _. record {
          quiet = refl;
          moved = λ h. ground (arith, h);
          stayed = λ _. inr (refl, inl n);
        })
  place_over-HasPlace (some previous) s y =
      if_branches (HasPlace s) (e.renames s.site.steps)
        (λ _.
          if_branches (HasPlace s) (e.renames (suc s.site.steps))
            (λ _. record {
              quiet = refl;
              moved = λ _. (refl, refl);
              stayed = λ h. ground (arith, h);
            })
            (λ _.
              if_branches (λ (u : At Text Bytes). HasPlace s (ended u))
                (e.renames (suc (suc s.site.steps)))
                (λ _. record {
                  quiet = refl;
                  moved = λ h. ground (arith, h);
                  stayed = λ _. inl (sym y, refl);
                })
                (λ _. record {
                  quiet = refl;
                  moved = λ h. ground (arith, h);
                  stayed = λ _. inr (refl, inr (sym y));
                })))
        (λ _. record {
          quiet = refl;
          moved = λ h. ground (arith, h);
          stayed = λ _. inl (refl, refl);
        })

  -- A placement goes on only with the staged build as the game's folder, the job as it was. Otherwise
  -- the job is deferred and the game's folder is as it was, also where the build could not move in and
  -- the previous folder was put back; or the job failed, and there was no folder before or the previous
  -- one stands beside. The service is not called.
  pub place_build-HasPlace : (s : At Text Bytes) → HasPlace s (place_build e s)
  unfolding place_build
  place_build-HasPlace s = place_over-HasPlace s.site.game s refl
