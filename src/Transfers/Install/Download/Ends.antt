-- ===== src/Transfers/Install/Download/Ends.antt =====
-- How the ranges of a download end (src/client/transfers.hpp, run_install).
use virule_client.Prelude.{
  ℕ, suc, zero, ◌+◌, ◌-◌, ◌≤◌, ◌≡◌, refl, String, Option, none, some, true, not, ◌||◌, eqb, ltb,
  if_branches, arith,
}
use virule_client.Evidence.Json.{Json}
use virule_client.Transfers.Site.{Env}
use virule_client.Transfers.Outcome.{At, save_job, defer_job}
use virule_client.Transfers.Upload.Session.{Step, ended}
use virule_client.Transfers.Install.Refusal.{download_path}
use virule_client.Transfers.Install.Download.{
  min_size, took_range, lost_range, with_bytes, range_of, ranges,
}

module _ {j : Json} (e : Env j) where
  open j use {Text}
  open e use {Bytes}

  abbrev pub Ends : Option (Step Text Bytes) → Type 0
  Ends r = (t : Step Text Bytes) × (r ≡ some t)

  -- The ranges of a download end, with one turn more than there are bytes to come.
  pub ranges-Ends :
      (fuel : ℕ) (s : At Text Bytes)
      → (s.job.package_bytes - s.job.bytes_done) + 1 ≤ fuel
      → Ends (ranges e fuel s)
  unfolding ranges took_range with_bytes save_job
  ranges-Ends zero s h = absurd (omega (arith, h))
  ranges-Ends (suc fuel) s h =
      if_branches Ends (not (ltb s.job.bytes_done s.job.package_bytes)) (λ _. (_, refl))
        (λ b.
          if_branches Ends (e.stops s.site.steps || e.pauses s.site.steps s.job.assignment_id)
            (λ _. (_, refl))
            (λ _.
              if_branches Ends (not (range_of e s).is_whole || not (eqb (range_of e s).status 206))
                (λ _. (_, refl))
                (λ _.
                  if_branches Ends (eqb (range_of e s).got 0) (λ _. (_, refl))
                    (λ z.
                      ranges-Ends fuel
                        (took_range e (range_of e s).got (with_bytes e (range_of e s).got s))
                        (ground (arith, h, b, z))))))

  -- No more bytes come than were asked for.
  abbrev pub IsBounded : Type 0
  IsBounded = (k : ℕ) (path : String) (a b : ℕ) → (e.get_range k path a b).got ≤ (b + 1) - a

  -- What a download has of the package.
  abbrev pub Within : Option (Step Text Bytes) → Type 0
  Within none = Unit
  Within (some t) =
      (t.at.job.bytes_done ≤ t.at.job.package_bytes)
      × (t.goes_on ≡ true → t.at.job.bytes_done ≡ t.at.job.package_bytes)

  -- Where no range brings more bytes than were asked for, and the job counts no more bytes than the
  -- package has, a download never counts more bytes than the package has, and goes on to its
  -- verification only with all of them.
  pub ranges-Within :
      IsBounded
      → (fuel : ℕ) (s : At Text Bytes) → s.job.bytes_done ≤ s.job.package_bytes
      → Within (ranges e fuel s)
  unfolding ranges took_range with_bytes save_job defer_job lost_range
  ranges-Within bound zero s h = tt
  ranges-Within bound (suc fuel) s h =
      let last = min_size (s.job.package_bytes - 1) (s.job.bytes_done + e.range_limit - 1) in
      let few = bound s.site.steps (download_path e s.job) s.job.bytes_done last in
      if_branches Within (not (ltb s.job.bytes_done s.job.package_bytes))
        (λ b. (h, λ _. ground (arith, b, h)))
        (λ b.
          let next : s.job.bytes_done + (range_of e s).got ≤ s.job.package_bytes =
            ground (arith, b, few, h) in
          if_branches Within (e.stops s.site.steps || e.pauses s.site.steps s.job.assignment_id)
            (λ _. (h, λ g. ground (arith, g)))
            (λ _.
              if_branches Within
                (not (range_of e s).is_whole || not (eqb (range_of e s).status 206))
                (λ _.
                  if_branches (λ (u : At Text Bytes). Within (some (ended u)))
                    (eqb (range_of e s).status 410
                      || eqb (range_of e s).status 404
                      || eqb (range_of e s).status 409)
                    (λ _. (h, λ g. ground (arith, g))) (λ _. (h, λ g. ground (arith, g))))
                (λ _.
                  if_branches Within (eqb (range_of e s).got 0)
                    (λ _. (next, λ g. ground (arith, g)))
                    (λ z.
                      ranges-Within bound fuel
                        (took_range e (range_of e s).got (with_bytes e (range_of e s).got s))
                        next))))
