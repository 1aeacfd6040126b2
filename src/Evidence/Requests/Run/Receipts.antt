-- ===== src/Evidence/Requests/Run/Receipts.antt =====
-- Where the receipt of a request comes from.
use virule_client.Prelude.{
  ℕ, String, ◌≡◌, ◌∙◌, subst, refl, Dict, ◌⊎◌, inl, inr, Option, none, some, Bool, true, arith,
  eq_iff, Bool-cases, lookup, put, lookup-put,
}
use virule_client.Evidence.Json.{Json}
use virule_client.Evidence.Core.{Core}
use virule_client.Evidence.Answer.{Transport, ServiceReply, service_code}
use virule_client.Evidence.World.{World, Outside, Kind, early, report, at_kind, note_change}
use virule_client.Evidence.Pass.{OwnerFn}
use virule_client.Evidence.Requests.{RequestState, RequestCore}
use virule_client.Evidence.Requests.Visit.{
  Requests, save_request, remove_request, remove_request_state, schedule, recorded, refuse,
  settle_reply, keep_progress, hold_report, send, acknowledge_request, is_recorded, request_path,
  receipt_doc, request_id,
}
use virule_client.Evidence.Requests.Run.{
  wait_account, text_of, state_of, try_request, visit_request,
}
use virule_client.Evidence.Requests.Run.Cases.{
  try_cases, request_cases, settle_cases, post_cases, send_cases,
}

module _ {j : Json} (c : Core j) (r : RequestCore j) (o : Outside j.Text) (t : Transport j.Text)
    (owner : Option OwnerFn) (force : Bool) (now : ℕ) (k : Kind) (a : String) where
  open j use {Text}

  -- The service answered the request of this number that it has it, with the record that the
  -- receipt repeats.
  pub record IsAnswered (n : ℕ) (id : String) (receipt : Option Text) : Type 0 where
    pub body : Text
    pub reply : ServiceReply Text
    pub posted : t.post_request n (request_path c r o t owner force now k a) body ≡ some reply
    pub has_it : is_recorded c r o t owner force now k reply.status (service_code j reply) ≡ true
    pub repeated : receipt ≡ receipt_doc c r o t owner force now k a id reply.body

  abbrev receipt_in : Requests Text → Option Text
  receipt_in s = lookup a (s.world.request_receipts k)

  -- No receipt yet, or one that the service's answer carried.
  abbrev Earns : ℕ → String → Requests Text → Type 0
  Earns n id s = (receipt_in s ≡ none) ⊎ IsAnswered n id (receipt_in s)

  lookup-at_kind :
      (doc : Text) (f : Kind → Dict Text) → lookup a (at_kind k (put a doc (f k)) f k) ≡ some doc
  lookup-at_kind doc f = (elim k as (λ k. lookup a (at_kind k (put a doc (f k)) f k) ≡ some doc) [
    | early ↦ ground (arith, lookup-put a a doc (f early), eq_iff a a)
    | report ↦ ground (arith, lookup-put a a doc (f report), eq_iff a a)
  ])

  acknowledge_request-receipt :
      (doc : Text) (s : Requests Text)
      → receipt_in (acknowledge_request c r o t owner force now k a doc s) ≡ some doc
  unfolding acknowledge_request remove_request remove_request_state note_change
  acknowledge_request-receipt doc s = lookup-at_kind doc s.world.request_receipts

  schedule-receipt :
      (st : RequestState) (s : Requests Text)
      → receipt_in (schedule c r o t owner force now k a st s) ≡ receipt_in s
  unfolding schedule save_request
  schedule-receipt st s = refl

  refuse-receipt :
      (st : RequestState) (s : Requests Text)
      → receipt_in (refuse c r o t owner force now k a st s) ≡ receipt_in s
  unfolding refuse save_request note_change
  refuse-receipt st s = refl

  keep_progress-receipt :
      (reply : ServiceReply Text) (w : World Text)
      → lookup a ((keep_progress c r o t owner force now a reply w).request_receipts k)
        ≡ lookup a (w.request_receipts k)
  unfolding keep_progress
  keep_progress-receipt reply w = ground arith

  -- What recorded leaves: no receipt, or the document.
  recorded-receipt :
      (st : RequestState) (doc : Option Text) (s : Requests Text)
      → receipt_in s ≡ none
      → (receipt_in (recorded c r o t owner force now k a st doc s) ≡ none)
        ⊎ (receipt_in (recorded c r o t owner force now k a st doc s) ≡ doc)
  unfolding recorded
  recorded-receipt st none s h = inl (schedule-receipt _ s ∙ h)
  recorded-receipt st (some doc) s h = elim (Bool-cases (c.writes s.world.steps)) [
    | inl e ↦ rw (e, recorded) (inr (acknowledge_request-receipt doc s))
    | inr e ↦ rw (e, recorded) (inl (schedule-receipt _ _ ∙ h))
  ]

  module _ (id : String) where
    settle_reply-Earns :
        (n : ℕ) (body : Text) (st : RequestState) (reply : ServiceReply Text) (s : Requests Text)
        → t.post_request n (request_path c r o t owner force now k a) body ≡ some reply
        → receipt_in s ≡ none
        → Earns n id (settle_reply c r o t owner force now k a id st reply s)
    settle_reply-Earns n body st reply s p h =
        settle_cases c r o t owner force now k a id st reply s (Earns n id)
          (λ e.
            elim (recorded-receipt st (receipt_doc c r o t owner force now k a id reply.body) s h) [
              | inl q ↦ inl q
              | inr q ↦
                  inr (record { body = body; reply = reply; posted = p; has_it = e; repeated = q })
            ])
          (λ st'. inl (schedule-receipt st' s ∙ h)) (λ st'. inl (refuse-receipt st' s ∙ h))

    send-Earns :
        (text : Text) (st : RequestState) (s : Requests Text)
        → receipt_in s ≡ none
        → Earns s.world.steps id (send c r o t owner force now k a id text st s)
    unfolding hold_report save_request
    send-Earns text st s h =
        send_cases c r o t owner force now k a id text st s (Earns s.world.steps id) (λ why. inl h)
          (λ body.
            post_cases c r o t owner force now k a id body st s (Earns s.world.steps id)
              (λ st'. inl (schedule-receipt st' s ∙ h))
              (λ reply st' e.
                settle_reply-Earns s.world.steps body st' reply _ e
                  (keep_progress-receipt reply s.world ∙ h)))

  earned :
      (n : ℕ) (id : String) (doc : Text) (s : Requests Text)
      → Earns n id s
      → receipt_in s ≡ some doc
      → IsAnswered n id (some doc)
  earned n id doc s (inl e) h = absurd (ground (arith, e, h))
  earned n id doc s (inr e) h = subst (IsAnswered n id) h e

  -- A request without a receipt has one after its visit only if its file names the assignment and
  -- the service answered this visit's post that it has the request, then or before; the receipt
  -- is made of the record in that answer.
  pub visit_request-receipt :
      (s : Requests Text) (doc : Text)
      → receipt_in s ≡ none
      → receipt_in (visit_request c r o t owner force now k a s) ≡ some doc
      → (id : String) × ((request_id c r o t owner force now k a
              (text_of c r o t owner force now k a s.world)
            ≡ some id)
          × IsAnswered s.world.steps id (some doc))
  unfolding wait_account
  visit_request-receipt s doc h =
      request_cases c r o t owner force now k a s
        (λ (s' : Requests Text). receipt_in s' ≡ some doc → Result)
        (λ e. absurd (ground (arith, e, h))) (λ old e q. absurd (ground (arith, e, h)))
        (λ id e n q. (
          id,
          (
            e,
            earned s.world.steps id doc
                (try_request c r o t owner force now k a id
                  (text_of c r o t owner force now k a s.world)
                  (state_of c r o t owner force now k a id s.world) s)
                (try_cases c r o t owner force now k a s (Earns s.world.steps id) id
                  (state_of c r o t owner force now k a id s.world) (λ _. inl h) (λ _. inl h)
                  (inl h) (λ _ _ _. send-Earns id _ _ s h))
                q,
          ),
        ))
    where
      Result : Type 0
      Result =
          (id : String) × ((request_id c r o t owner force now k a
                (text_of c r o t owner force now k a s.world)
              ≡ some id)
            × IsAnswered s.world.steps id (some doc))
