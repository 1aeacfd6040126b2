-- ===== src/Evidence/Requests/Run/Cases.antt =====
-- The ways a visit of a request can go.
use virule_client.Prelude.{
  ℕ, ◌+◌, String, ◌≡◌, refl, inl, inr, Option, none, some, Bool, true, false, not, ◌==◌, Bool-cases,
  Option-cases, lookup,
}
use virule_client.Evidence.Json.{Json}
use virule_client.Evidence.Core.{Core}
use virule_client.Evidence.Answer.{Transport, ServiceReply, service_code}
use virule_client.Evidence.World.{Outside, Kind, early, report}
use virule_client.Evidence.Pass.{OwnerFn, mine, signed_out, other_account, unknown}
use virule_client.Evidence.Pass.Cases.{is_foreign}
use virule_client.Evidence.Requests.{RequestState, RequestCore, local_completeness}
use virule_client.Evidence.Requests.Visit.{
  Requests, remove_request, request_id, hold, send, receipt_doc, schedule, recorded, refuse,
  settle_reply, keep_progress, request_path, post, hold_report, is_recorded, is_later,
}
use virule_client.Evidence.Requests.Run.{
  wait_account, request_owner, state_of, is_waiting, try_request, text_of, visit_request,
}

module _ {j : Json} (c : Core j) (r : RequestCore j) (o : Outside j.Text) (t : Transport j.Text)
    (owner : Option OwnerFn) (force : Bool) (now : ℕ) where
  open j use {Text}

  abbrev pub refused_before : Requests Text → Requests Text
  refused_before s = record s { res = record s.res { refused = s.res.refused + 1 } }

  module _ {ℓ} (k : Kind) (a : String) (s : Requests Text) (P : Requests Text → Type ℓ) where
    abbrev text : Text
    text = text_of c r o t owner force now k a s.world

    -- A request without a receipt: refused before, not due, another account's, or sent.
    pub try_cases :
        (id : String) (st : RequestState)
        → (st.refused ≡ true → P (refused_before s))
        → (is_waiting c r o t owner force now st ≡ true
            → P (record s { res = hold c r o t owner force now st.next_attempt_utc s.res }))
        → P (wait_account c r o t owner force now s)
        → (st.refused ≡ false
            → is_waiting c r o t owner force now st ≡ false
            → is_foreign c o t owner force now
                (request_owner c r o t owner force now s.world.steps a text)
              ≡ false
            → P (send c r o t owner force now k a id text st s))
        → P (try_request c r o t owner force now k a id text st s)
    unfolding try_request is_foreign is_waiting
    try_cases id st gone later waits sends = elim (Bool-cases st.refused) [
      | inl e ↦ rw e (gone e)
      | inr e ↦ rw e (elim (Bool-cases (is_waiting c r o t owner force now st)) [
        | inl d ↦ rw d (later d)
        | inr d ↦ rw d (
            (elim (request_owner c r o t owner force now s.world.steps a text)
                as (λ w.
                  (is_foreign c o t owner force now w ≡ false
                    → P (send c r o t owner force now k a id text st s))
                  → P (elim w [
                    | signed_out ↦ wait_account c r o t owner force now s
                    | other_account ↦ wait_account c r o t owner force now s
                    | _ ↦ send c r o t owner force now k a id text st s
                  ])) [
                    | mine ↦ λ f. f refl
                    | signed_out ↦ λ f. waits
                    | other_account ↦ λ f. waits
                    | unknown ↦ λ f. f refl
                  ])
              (sends e d))
      ])
    ]

    pub request_cases :
        P s
        → ((doc : Text)
            → lookup a (s.world.request_receipts k) ≡ some doc
            → P (record s { world = remove_request c r o t owner force now k a s.world }))
        → ((id : String)
            → request_id c r o t owner force now k a text ≡ some id
            → lookup a (s.world.request_receipts k) ≡ none
            → P (
                try_request c r o t owner force now k a id text
                  (state_of c r o t owner force now k a id s.world)
                  s))
        → P (visit_request c r o t owner force now k a s)
    unfolding visit_request
    request_cases other done tries =
        elim (Option-cases (request_id c r o t owner force now k a text)) [
          | inl e ↦ rw (e, visit_request) other
          | inr (id, e) ↦
              rw (e, visit_request)
                (elim (Option-cases (lookup a (s.world.request_receipts k))) [
                  | inl f ↦ rw f (tries id e f)
                  | inr (doc, f) ↦ rw f (done doc f)
                ])
        ]

  -- What an answer leads to.
  pub settle_cases {ℓ} :
      (k : Kind) (a id : String) (st : RequestState) (reply : ServiceReply Text) (s : Requests Text)
      (P : Requests Text → Type ℓ)
      → (is_recorded c r o t owner force now k reply.status (service_code j reply) ≡ true
          → P (
              recorded c r o t owner force now k a st
                (receipt_doc c r o t owner force now k a id reply.body)
                s))
      → ((st' : RequestState) → P (schedule c r o t owner force now k a st' s))
      → ((st' : RequestState) → P (refuse c r o t owner force now k a st' s))
      → P (settle_reply c r o t owner force now k a id st reply s)
  unfolding settle_reply
  settle_cases k a id st reply s P record_it later refuses =
      elim (Bool-cases
        (is_recorded c r o t owner force now k reply.status (service_code j reply))) [
          | inl e ↦ rw (e, settle_reply) (record_it e)
          | inr e ↦
              rw (e, settle_reply)
                (elim (Bool-cases
                  (is_later c r o t owner force now reply.status (service_code j reply))) [
                    | inl f ↦ rw f (later _)
                    | inr f ↦ rw f (refuses _)
                  ])
        ]

  -- What a request that is sent comes to.
  pub post_cases {ℓ} :
      (k : Kind) (a id : String) (body : Text) (st : RequestState) (s : Requests Text)
      (P : Requests Text → Type ℓ)
      → ((st' : RequestState) → P (schedule c r o t owner force now k a st' s))
      → ((reply : ServiceReply Text) (st' : RequestState)
          → t.post_request s.world.steps (request_path c r o t owner force now k a) body
            ≡ some reply
          → P (
              settle_reply c r o t owner force now k a id st' reply
                (record s { world = keep_progress c r o t owner force now a reply s.world })))
      → P (post c r o t owner force now k a id body st s)
  unfolding post
  post_cases k a id body st s P none_carried answers =
      elim (Option-cases
        (t.post_request s.world.steps (request_path c r o t owner force now k a) body)) [
          | inl e ↦ rw (e, post) (none_carried _)
          | inr (reply, e) ↦ rw (e, post) (answers reply _ e)
        ]

  -- A report is held for this computer's sessions, or what is sent names them all.
  pub send_cases {ℓ} :
      (k : Kind) (a id : String) (text : Text) (st : RequestState) (s : Requests Text)
      (P : Requests Text → Type ℓ)
      → ((why : String) → P (hold_report c r o t owner force now a why st s))
      → ((body : Text) → P (post c r o t owner force now k a id body st s))
      → P (send c r o t owner force now k a id text st s)
  unfolding send
  send_cases early a id text st s P holds posts = posts _
  send_cases report a id text st s P holds posts =
      elim (Bool-cases
        (local_completeness r c.is_hex32 s.world a (not (t.name == "service"))).complete) [
          | inl e ↦ rw (e, send) (posts _)
          | inr e ↦ rw (e, send) (holds _)
        ]
