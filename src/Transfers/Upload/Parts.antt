-- ===== src/Transfers/Upload/Parts.antt =====
-- The parts of an upload (src/client/transfers.hpp, send_parts): every part that the service does not
-- hold, in order, each compared with the one that was verified.
pub mod Turns
pub mod Ends
pub mod Renewals
use virule_client.Prelude.{
  ℕ, suc, zero, ◌+◌, ◌-◌, String, List, [], ◌∷◌, ◌++◌, Option, none, some, Bool, true, false, not,
  ◌&&◌, ◌||◌, eqb, leb, ltb, if◌then◌else◌, Dict, without, ◌==◌,
}
use Prim.Native.String.{◌++◌ as join}
use virule_client.Evidence.Json.{Json}
use virule_client.Transfers.Job.{TransferJob, registering}
use virule_client.Transfers.Site.{Env, ServiceCall, Reply, json, octets, Verification}
use virule_client.Transfers.Outcome.{
  At, remove_record, tick, save_job, defer_job, fail_job, call, answer, body_message, body_code,
  unreachable, why_of,
}
use virule_client.Transfers.Upload.Session.{
  Step, ended, followed, has_part, uploaded_of, with_parts, upload_path, empty_object, reopen,
  advance, reading_of,
}

abbrev pub package_changed : String
package_changed = "The package changed since it was built. Build it again."

unfoldable pub count {ℓ} : {A : Type ℓ} → List A → ℕ
count [] = 0
count (_ ∷ xs) = suc (count xs)

-- The digest of part n, counted from 1.
unfoldable pub part_of : List String → ℕ → Option String
part_of [] n = none
part_of (h ∷ hs) zero = none
part_of (h ∷ hs) (suc zero) = some h
part_of (h ∷ hs) (suc (suc n)) = part_of hs (suc n)

-- How one turn of the loop ends: the loop is left, or goes on at a part with the times that the
-- storage did not reproduce it.
pub data Turned (Text Bytes : Type 0) : Type 0 where
  leaves : Step Text Bytes → Turned Text Bytes
  goes_to : ℕ → ℕ → At Text Bytes → Turned Text Bytes

module _ {j : Json} (e : Env j) (v : Verification) where
  open j use {Text}
  open e use {Bytes}

  abbrev pub sending_of : ℕ → Bytes → String → String → At Text Bytes → ServiceCall Text Bytes
  sending_of n part sha md5 s = record {
    method = "PUT";
    path = join (join (upload_path e s) "/parts/") (e.to_string n);
    body = octets part sha md5;
  }

  abbrev pub renewal_of : At Text Bytes → ServiceCall Text Bytes
  renewal_of s = record {
    method = "POST";
    path = join (upload_path e s) "/renew";
    body = json (empty_object e);
  }

  -- The part has arrived.
  unfoldable pub arrived : ℕ → Text → At Text Bytes → At Text Bytes
  arrived n body s =
      let held = uploaded_of e body in
      let parts = if has_part n held then held else held ++ (n ∷ []) in
      save_job e (record s {
        job = record (with_parts e v.archive.bytes parts s.job) { attempts = 0; error = "" };
      })

  -- The storage's upload expired: every part is sent again.
  unfoldable pub renew : ℕ → At Text Bytes → Turned Text Bytes
  renew tries s =
      let r : Reply Text = answer e (renewal_of s) s in
      let s1 : At Text Bytes = call e (renewal_of s) s in
      if eqb r.status 200
      then goes_to 1 tries (
          save_job e (record s1 {
            job = record s1.job { parts_done = uploaded_of e r.body; bytes_done = 0 };
          }))
      else if eqb r.status 404
      then leaves (ended (reopen e s1))
      else leaves (ended (defer_job e (why_of e r) s1))

  -- The storage did not reproduce the part: again, a few times in a row, then the ladder.
  unfoldable pub send_again : ℕ → ℕ → At Text Bytes → Turned Text Bytes
  send_again n tries s =
      if leb (tries + 1) 3
      then goes_to n (tries + 1) s
      else leaves (ended (defer_job e "A part did not arrive intact." s))

  -- What the service says of a part.
  unfoldable pub told_part : ℕ → ℕ → Reply Text → At Text Bytes → Turned Text Bytes
  told_part n tries r s =
      if eqb r.status 200
      then goes_to (n + 1) 0 (arrived n r.body s)
      else if eqb r.status 409 && (body_code e r.body == "integrity")
      then send_again n tries s
      else if eqb r.status 410
      then renew tries s
      else if eqb r.status 404
      then leaves (ended (reopen e s))
      else if eqb r.status 409 && (body_code e r.body == "conflict")
      then leaves (followed (advance e registering s))
      else if eqb r.status 400 || eqb r.status 403
      then leaves (ended (fail_job e (body_message e r.body) s))
      else leaves (ended (defer_job e (why_of e r) s))

  unfoldable pub send_part : ℕ → ℕ → Bytes → String → String → At Text Bytes → Turned Text Bytes
  send_part n tries part sha md5 s =
      let q : ServiceCall Text Bytes = sending_of n part sha md5 s in
      told_part n tries (answer e q s) (call e q s)

  -- The part that was read, hashed and compared.
  unfoldable pub compare_part : ℕ → ℕ → String → Bytes → At Text Bytes → Turned Text Bytes
  compare_part n tries known part s =
      let sha = e.sha256_hex s.site.steps part in
      let md5 = e.md5_hex s.site.steps part in
      if (sha == "") || (md5 == "")
      then leaves (ended (defer_job e "The part could not be hashed." (tick e s)))
      else if not (sha == known)
      then leaves (ended (fail_job e package_changed (remove_record e (tick e s))))
      else send_part n tries part sha md5 (tick e s)

  unfoldable pub part_turn : ℕ → ℕ → At Text Bytes → Turned Text Bytes
  part_turn n tries s = elim (part_of v.part_sha256 n) [
    | none ↦ leaves (followed (advance e registering s))
    | some known ↦
        if e.stops s.site.steps
        then leaves (ended (tick e s))
        else if has_part n s.job.parts_done
        then goes_to (n + 1) tries (tick e s)
        else elim (e.read_part s.site.steps s.job.package_path n) [
          | none ↦ leaves (ended (defer_job e "The package could not be read." (tick e s)))
          | some part ↦ compare_part n tries known part (tick e s)
        ]
  ]

  -- The loop, one turn for each fuel; none where the fuel ends first.
  unfoldable pub parts_from : ℕ → ℕ → ℕ → At Text Bytes → Option (Step Text Bytes)
  parts_from zero n tries s = none
  parts_from (suc fuel) n tries s = elim (part_turn n tries s) [
    | leaves t ↦ some t
    | goes_to m t s1 ↦ parts_from fuel m t s1
  ]

  unfoldable pub listed_parts : Text → At Text Bytes → At Text Bytes
  listed_parts body s =
      save_job e (record s { job = with_parts e v.archive.bytes (uploaded_of e body) s.job })

  -- The session is read back first: the service's list of parts decides what is sent.
  unfoldable pub send_parts : ℕ → At Text Bytes → Option (Step Text Bytes)
  send_parts fuel s =
      let r : Reply Text = answer e (reading_of e s) s in
      let s1 : At Text Bytes = call e (reading_of e s) s in
      let rest = parts_from fuel 1 0 (listed_parts r.body s1) in
      if eqb r.status 200
      then (if e.find_string r.body "state" == "verified"
          then some (followed (advance e registering s1))
          else rest)
      else if eqb r.status 404
      then some (ended (reopen e s1))
      else some (ended (defer_job e (why_of e r) s1))
