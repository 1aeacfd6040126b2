-- ===== src/Transfers/Upload/Record/Vouch.antt =====
-- What a record that vouches for a package is (src/client/upload_verification.hpp, vouches).
use virule_client.Prelude.{◌≡◌, some, true, lookup, Option-cases, inl, inr, eq_iff, arith}
use virule_client.Evidence.Json.{Json}
use virule_client.Transfers.Site.{Env, Identity, Verification}
use virule_client.Transfers.Outcome.{At}
use virule_client.Transfers.Upload.Record.{is_sound, read_record, vouches}

module _ {j : Json} (e : Env j) where
  open j use {Text}
  open e use {Bytes}

  pub record IsVouch (s : At Text Bytes) (v : Verification) : Type 0 where
    pub recorded : lookup s.job.id s.site.verifications ≡ some v
    pub of_job : v.job_id ≡ s.job.id
    pub of_game : v.game_uuid ≡ s.job.game_uuid
    pub of_build : v.build_uuid ≡ s.job.build_uuid
    pub of_path : v.package_path ≡ s.job.package_path
    pub on_disk :
        (i : Identity) × (e.identity_of s.site.steps s.job.package_path ≡ some i)
        × ((i.bytes ≡ v.archive.bytes) × (i.mtime ≡ v.archive.mtime))

  read_record-recorded :
      (s : At Text Bytes) (v : Verification)
      → read_record e s ≡ some v
      → (lookup s.job.id s.site.verifications ≡ some v) × (is_sound e s.job.id v ≡ true)
  unfolding read_record
  read_record-recorded s v h = elim (Option-cases (lookup s.job.id s.site.verifications)) [
    | inl n ↦ absurd (ground (arith, n, h))
    | inr (w, y) ↦ (ground (arith, y, h), ground (arith, y, h))
  ]

  -- A record that vouches is the job's own, of its build and package, as the package is on disk.
  pub vouches-IsVouch : (s : At Text Bytes) (v : Verification) → vouches e s ≡ some v → IsVouch s v
  unfolding vouches is_sound
  vouches-IsVouch s v h = elim (Option-cases (read_record e s)) [
    | inl n ↦ absurd (ground (arith, n, h))
    | inr (w, y) ↦ elim (Option-cases (e.identity_of s.site.steps s.job.package_path)) [
      | inl n ↦ absurd (ground (arith, y, n, h))
      | inr (i, z) ↦
          let r = read_record-recorded s w y in
          let same : w ≡ v = ground (arith, y, z, h) in
          record {
            recorded = ground (arith, r, same);
            of_job = ground (arith, r, same, eq_iff v.job_id s.job.id);
            of_game = ground (arith, y, z, h, eq_iff w.game_uuid s.job.game_uuid);
            of_build = ground (arith, y, z, h, eq_iff w.build_uuid s.job.build_uuid);
            of_path = ground (arith, y, z, h, eq_iff w.package_path s.job.package_path);
            on_disk = (i, z, (ground (arith, y, z, h), ground (arith, y, z, h)));
          }
    ]
  ]
