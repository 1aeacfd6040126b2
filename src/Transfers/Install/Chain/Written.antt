-- ===== src/Transfers/Install/Chain/Written.antt =====
-- What a launch chain that is in order has written (src/client/transfers.hpp, ensure_launch_chain).
use virule_client.Prelude.{
  ℕ, suc, ◌≡◌, refl, inl, inr, String, some, true, not, eqb, if_branches, Dict, Option-cases, put,
  arith, ◌==◌,
}
use virule_client.Evidence.Json.{Json, JsonLaws}
use virule_client.Transfers.Site.{Env, Reply}
use virule_client.Transfers.Outcome.{At, call}
use virule_client.Transfers.Install.Chain.{
  Ticket, Asked, Chained, ticket_for, keep_credential, hear_credential, ask_credential, keep_ticket,
  hear_chain_ticket, ensure_launch_chain, ticket_call, credential_call,
}
use virule_client.Transfers.Install.Chain.Kept.{IsTicketOf, IsCredentialOf}

module _ {j : Json} (e : Env j) where
  open j use {Text}
  open e use {Bytes}

  hear_credential-job :
      (evaluator machine : String) (r : Reply Text) (s : At Text Bytes)
      → (hear_credential e evaluator machine r s).1.job ≡ s.job
  unfolding hear_credential keep_credential
  hear_credential-job evaluator machine r s = ground arith

  ask_credential-job :
      (evaluator : String) (s : At Text Bytes) → (ask_credential e evaluator s).1.job ≡ s.job
  unfolding ask_credential call
  ask_credential-job evaluator s =
      if_branches (λ (c : Chained e). c.1.job ≡ s.job) (e.machine_key s.site.steps == "")
        (λ _. refl) (λ _. hear_credential-job evaluator _ _ _)

  keep_ticket-job :
      (a : Asked) (k : Ticket) (s : At Text Bytes) → (keep_ticket e a k s).1.job ≡ s.job
  unfolding keep_ticket
  keep_ticket-job a k s =
      if_branches (λ (c : Chained e). c.1.job ≡ s.job) (e.writes s.site.steps)
        (λ _. ask_credential-job k.evaluator_id _) (λ _. refl)

  hear_chain_ticket-job :
      (a : Asked) (r : Reply Text) (s : At Text Bytes) → (hear_chain_ticket e a r s).1.job ≡ s.job
  unfolding hear_chain_ticket
  hear_chain_ticket-job a r s =
      if_branches (λ (c : Chained e). c.1.job ≡ s.job) (not (eqb r.status 200)) (λ _. refl)
        (λ _. elim (Option-cases (j.member r.body "ticket")) [
          | inl n ↦ rw (n, hear_chain_ticket) refl
          | inr (raw, y) ↦
              rw (y, hear_chain_ticket)
                (elim (Option-cases (ticket_for e a.assignment_id raw)) [
                  | inl n ↦ rw n refl
                  | inr (k, z) ↦ rw z (keep_ticket-job a k s)
                ])
        ])

  -- The chain leaves the job as it is.
  pub ensure_launch_chain-job :
      (a : Asked) (s : At Text Bytes) → (ensure_launch_chain e a s).1.job ≡ s.job
  unfolding ensure_launch_chain call
  ensure_launch_chain-job a s = hear_chain_ticket-job a _ _

module _ {j : Json} (e : Env j) (laws : JsonLaws j) where
  open j use {Text, member}
  open e use {Bytes}

  -- The service answered the proof of the key, at this step, with a credential that is now stored.
  pub record HasCredential (evaluator : String) (step : ℕ) (s1 : At Text Bytes) : Type 0 where
    pub given : Text
    pub kept : Text
    pub answered :
        member
          (e.reply step (credential_call e (e.machine_bind_body step "evaluator"))).body
          "credential"
        ≡ some given
    pub stored : s1.site.credential ≡ some kept
    pub copied : IsCredentialOf j evaluator (e.machine_key step) given kept

  -- The service answered with a ticket that is now stored, and with the credential of the evaluator whom
  -- the ticket names.
  pub record HasChain (a : Asked) (s s1 : At Text Bytes) : Type 0 where
    pub evaluator : String
    pub given : Text
    pub kept : Text
    pub answered :
        member (e.reply s.site.steps (ticket_call e a.assignment_id)).body "ticket" ≡ some given
    pub stored : s1.site.tickets ≡ put a.assignment_id kept s.site.tickets
    pub copied : IsTicketOf j a evaluator given kept
    pub credential : HasCredential evaluator (suc (suc s.site.steps)) s1

  abbrev IsCredential : String → Dict Text → At Text Bytes → Chained e → Type 0
  IsCredential evaluator tickets s c =
      (c.1.job ≡ s.job)
      × (c.0.ok ≡ true
          → HasCredential evaluator s.site.steps c.1 × (c.1.site.tickets ≡ s.site.tickets))

  abbrev IsChain : Asked → At Text Bytes → Chained e → Type 0
  IsChain a s c = (c.1.job ≡ s.job) × (c.0.ok ≡ true → HasChain a s c.1)
