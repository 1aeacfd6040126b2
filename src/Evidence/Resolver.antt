-- ===== src/Evidence/Resolver.antt =====
-- Whose evidence it is: the Resolver of src/client/evidence_owner.hpp, for one caller at a time.
pub mod Memory
use virule_client.Prelude.{
  ℕ, ◌+◌, ◌-◌, ◌^◌, String, List, [], ◌∷◌, Option, none, some, Bool, true, false, not, ◌&&◌, ◌||◌,
  eqb, ◌==◌, if◌then◌else◌, Dict, lookup, put,
}
use virule_client.Evidence.Json.{Json, opt_string}
use virule_client.Evidence.Answer.{ServiceReply}
use virule_client.Evidence.Pass.{Owner, mine, signed_out, other_account, unknown}

-- A job of virule_core's list_jobs, as far as it is read.
pub record Job : Type 0 where
  pub is_install : Bool
  pub account_email : String
  pub assignment_id : String

-- What the Resolver holds.
pub record Resolver : Type 0 where
  pub generation : ℕ
  pub email : String
  pub account_id : String
  pub known : Dict Owner

abbrev pub fresh_resolver : Resolver
fresh_resolver = record { generation = 2 ^ 64 - 1; email = ""; account_id = ""; known = [] }

-- What a call meets: the address that is signed in, the account generation at its first and at its
-- second look, and the service's answer to the read of the ticket.
pub record Call (Text : Type 0) : Type 0 where
  pub signed_in : Option String
  pub before : ℕ
  pub after : ℕ
  pub reply : ServiceReply Text

-- sync_locked: a new sign-in forgets what the previous one learned.
unfoldable pub is_synced : String → ℕ → Resolver → Bool
is_synced email g r = eqb g r.generation && (email == r.email)

unfoldable pub sync : String → ℕ → Resolver → Resolver
sync email g r =
    if is_synced email g r
    then r
    else record { generation = g; email = email; account_id = ""; known = [] }

module _ (j : Json) (is_hex32 : String → Bool) (ticket : String → Option j.Text)
    (jobs : List Job) where
  open j use {Text, member}

  unfoldable pub ticket_evaluator : String → String
  ticket_evaluator a =
      if is_hex32 a
      then elim (ticket a) [ none ↦ "" | some text ↦ opt_string j text "evaluator_id" ]
      else ""

  -- The loop over the jobs.
  first_id : String → List Job → String
  first_id email [] = ""
  first_id email (k ∷ ks) =
      let rest = first_id email ks in
      if not k.is_install || not (k.account_email == email)
      then rest
      else let id : String = ticket_evaluator k.assignment_id in if id == "" then rest else id

  unfoldable pub local_account_id : String → String
  unfolding first_id
  local_account_id email = if email == "" then "" else first_id email jobs

  -- The evaluator that the service's ticket names.
  unfoldable pub told_evaluator : Text → String
  told_evaluator body = elim (member body "ticket") [
    | none ↦ ""
    | some t ↦ opt_string j t "evaluator_id"
  ]

  unfoldable pub remember : String → Owner → Resolver → Owner × Resolver
  remember a o r = (o, record r { known = put a o r.known })

  unfoldable pub hear_ticket : String → String → String → Resolver → Owner × Resolver
  hear_ticket a evaluator told r =
      remember a
        (if (evaluator == "") || ((told == "") || (told == evaluator)) then mine else other_account)
        (if told == "" then r else record r { account_id = told })

  -- What the service's answer says.
  unfoldable pub hear : String → String → ServiceReply Text → Resolver → Owner × Resolver
  hear a evaluator reply r =
      if eqb reply.status 200
      then hear_ticket a evaluator (told_evaluator reply.body) r
      else if eqb reply.status 409
      then remember a mine r
      else if eqb reply.status 404
      then remember a other_account r
      else if eqb reply.status 403
      then (other_account, r)
      else (unknown, r)

  unfoldable pub ask : String → String → String → Call Text → Resolver → Owner × Resolver
  ask a evaluator email call r =
      if not (is_hex32 a)
      then (unknown, r)
      else if is_synced email call.after r
      then hear a evaluator call.reply (sync email call.after r)
      else (unknown, sync email call.after r)

  -- By the account's id, by what is remembered, or by asking.
  unfoldable pub decide : String → String → String → Call Text → Resolver → Owner × Resolver
  decide a evaluator email call r =
      if not (r.account_id == "") && not (evaluator == "")
      then (if r.account_id == evaluator then mine else other_account, r)
      else elim (lookup a r.known) [ some o ↦ (o, r) | none ↦ ask a evaluator email call r ]

  unfoldable pub with_account : String → Resolver → Resolver
  with_account email r =
      if r.account_id == "" then record r { account_id = local_account_id email } else r

  unfoldable pub evaluator_of : String → String → String
  evaluator_of a evaluator_id = if evaluator_id == "" then ticket_evaluator a else evaluator_id

  unfoldable pub owner : String → String → Call Text → Resolver → Owner × Resolver
  owner a evaluator_id call r = elim call.signed_in [
    | none ↦ (signed_out, r)
    | some email ↦
        if email == ""
        then (signed_out, r)
        else decide a (evaluator_of a evaluator_id) email call
            (with_account email (sync email call.before r))
  ]
