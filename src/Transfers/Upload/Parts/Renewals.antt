-- ===== src/Transfers/Upload/Parts/Renewals.antt =====
-- A session whose storage upload has always expired (src/client/transfers.hpp, send_parts).
use virule_client.Prelude.{ℕ, suc, zero, ◌≡◌, refl, String, [], none, some, false, eq_refl, ◌==◌}
use virule_client.Evidence.Json.{Json}
use virule_client.Transfers.Site.{Env, Reply, Verification}
use virule_client.Transfers.Outcome.{At, tick, save_job, call}
use virule_client.Transfers.Upload.Session.{has_part, uploaded_of}
use virule_client.Transfers.Upload.Parts.{
  Turned, goes_to, part_of, renewal_of, sending_of, renew, told_part, send_part, compare_part,
  part_turn, parts_from,
}

module _ {j : Json} (e : Env j) (v : Verification) where
  open j use {Text}
  open e use {Bytes}

  -- The client runs on, the first part is read as it was verified, the service says of every part
  -- that the storage's upload expired, and renews it, with no part in it.
  pub record AlwaysExpired : Type 0 where
    pub digest : String
    pub content : Bytes
    pub first_part : part_of v.part_sha256 1 ≡ some digest
    pub runs : (k : ℕ) → e.stops k ≡ false
    pub reads : (k : ℕ) (path : String) → e.read_part k path 1 ≡ some content
    pub hashes : (k : ℕ) → e.sha256_hex k content ≡ digest
    pub has_digest : (digest == "") ≡ false
    pub has_md5 : (k : ℕ) → (e.md5_hex k content == "") ≡ false
    pub expired :
        (k : ℕ) (sha md5 : String) (s : At Text Bytes)
        → (e.reply k (sending_of e v 1 content sha md5 s)).status ≡ 410
    pub renewed : (k : ℕ) (s : At Text Bytes) → (e.reply k (renewal_of e v s)).status ≡ 200
    pub nothing_held :
        (k : ℕ) (s : At Text Bytes) → uploaded_of e (e.reply k (renewal_of e v s)).body ≡ []

  module _ (h : AlwaysExpired) where
    -- The turn leads back to where it began.
    abbrev IsBack : ℕ → Turned Text Bytes → Type 0
    IsBack tries r = (s1 : At Text Bytes) × (r ≡ goes_to 1 tries s1) × (s1.job.parts_done ≡ [])

    renew-IsBack : (tries : ℕ) (s : At Text Bytes) → IsBack tries (renew e v tries s)
    unfolding renew save_job call
    renew-IsBack tries s = rw (h.renewed s.site.steps s) (_, refl, h.nothing_held s.site.steps s)

    told_part-IsBack :
        (tries : ℕ) (r : Reply Text) (s : At Text Bytes)
        → r.status ≡ 410
        → IsBack tries (told_part e v 1 tries r s)
    unfolding told_part
    told_part-IsBack tries r s g = rw g (renew-IsBack tries s)

    compare_part-IsBack :
        (tries : ℕ) (s : At Text Bytes)
        → IsBack tries (compare_part e v 1 tries h.digest h.content s)
    unfolding compare_part send_part
    compare_part-IsBack tries s =
        rw (h.hashes s.site.steps, h.has_digest, h.has_md5 s.site.steps, eq_refl h.digest)
          (told_part-IsBack tries _ _ (h.expired _ h.digest _ (tick e s)))

    part_turn-IsBack :
        (tries : ℕ) (s : At Text Bytes)
        → s.job.parts_done ≡ []
        → IsBack tries (part_turn e v 1 tries s)
    unfolding part_turn has_part
    part_turn-IsBack tries s none_held =
        rw
          (
            part_turn,
            h.first_part,
            h.runs s.site.steps,
            none_held,
            h.reads s.site.steps s.job.package_path,
          )
          (compare_part-IsBack tries (tick e s))

    -- With a storage upload that has always expired, and that is always renewed, the loop of
    -- send_parts never ends and never defers the job: no number of turns gives a result.
    pub parts_from_lem :
        (fuel tries : ℕ) (s : At Text Bytes)
        → s.job.parts_done ≡ []
        → parts_from e v fuel 1 tries s ≡ none
    unfolding parts_from
    parts_from_lem zero tries s none_held = refl
    parts_from_lem (suc fuel) tries s none_held =
        let (s1, same, again) = part_turn-IsBack tries s none_held in
        rw (parts_from, same) (parts_from_lem fuel tries s1 again)
