-- ===== src/Transfers/Upload/Record.antt =====
-- The client's own verification of a package, and whether it vouches for the package as it stands
-- (src/client/upload_verification.hpp). The text of the sealed file is not modelled: what was written is read back.
pub mod Vouch
use virule_client.Prelude.{
  suc, String, List, [], ◌∷◌, Option, none, some, Bool, true, not, ◌&&◌, eqb, if◌then◌else◌, lookup,
  put, ◌==◌,
}
use virule_client.Evidence.Json.{Json}
use virule_client.Transfers.Job.{TransferJob}
use virule_client.Transfers.Site.{Env, Identity, Verification}
use virule_client.Transfers.Outcome.{At}
use virule_client.Transfers.Upload.Parts.{count}

abbrev pub is_same_identity : Identity → Identity → Bool
is_same_identity a b = eqb a.bytes b.bytes && eqb a.mtime b.mtime

abbrev pub is_of_build : Verification → TransferJob → Bool
is_of_build v k =
    (v.game_uuid == k.game_uuid)
    && (v.build_uuid == k.build_uuid)
    && (v.package_path == k.package_path)

module _ {j : Json} (e : Env j) where
  open j use {Text}
  open e use {Bytes}

  unfoldable pub are_digests : List String → Bool
  are_digests [] = true
  are_digests (h ∷ hs) = e.is_sha256_hex h && are_digests hs

  -- What a record that was read must be.
  unfoldable pub is_sound : String → Verification → Bool
  is_sound id v =
      are_digests v.part_sha256
      && (v.job_id == id)
      && e.is_sha256_hex v.package_sha256
      && eqb (count v.part_sha256) (e.parts_total v.archive.bytes)

  unfoldable pub read_record : At Text Bytes → Option Verification
  read_record s =
      if e.sealed s.site.steps
      then elim (lookup s.job.id s.site.verifications) [
        | none ↦ none
        | some v ↦ if is_sound s.job.id v then some v else none
      ]
      else none

  unfoldable pub write_record : Verification → At Text Bytes → At Text Bytes
  write_record v s = record s {
    site = record s.site {
      verifications =
          if e.writes s.site.steps
          then put v.job_id v s.site.verifications
          else s.site.verifications;
      steps = suc s.site.steps;
    };
  }

  -- The record, if it vouches for the package that the job names, as it is on disk.
  unfoldable pub vouches : At Text Bytes → Option Verification
  vouches s = elim (read_record s) [
    | none ↦ none
    | some v ↦
        if not (is_of_build v s.job)
        then none
        else elim (e.identity_of s.site.steps s.job.package_path) [
          | none ↦ none
          | some here ↦ if is_same_identity here v.archive then some v else none
        ]
  ]
