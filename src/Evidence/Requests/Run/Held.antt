-- ===== src/Evidence/Requests/Run/Held.antt =====
-- A report that waits for this computer's own sessions.
use virule_client.Prelude.{
  ℕ, ◌+◌, ◌≤◌, ◌<◌, ◌⊎◌, String, ◌≡◌, ◌∙◌, subst, refl, [], ◌∷◌, Option, none, some, Bool, true,
  false, not, arith, ◌==◌, eq_iff, eq_refl, lookup, lookup-put,
}
use Prim.Native.String.{◌++◌ as join}
use virule_client.Evidence.Json.{Json, JsonLaws}
use virule_client.Evidence.Core.{Core}
use virule_client.Evidence.Answer.{Transport}
use virule_client.Evidence.Attempt.{note_due}
use virule_client.Evidence.World.{World, Outside, Kind, report}
use virule_client.Evidence.Pass.{OwnerFn}
use virule_client.Evidence.Pass.Cases.{is_foreign}
use virule_client.Evidence.Requests.{
  RequestState, RequestResult, RequestCore, request_state_json, load_request_state,
  local_completeness,
}
use virule_client.Evidence.Requests.Visit.{
  Requests, request_id, send, hold_report, save_request, hold,
}
use virule_client.Evidence.Requests.Run.{
  request_owner, state_of, is_waiting, try_request, text_of, visit_request,
}

module _ (j : Json) (laws : JsonLaws j) where
  open j use {Text, quote, number, boolean, member}

  member_request :
      (s : RequestState) (k : String)
      → member (request_state_json j s) k
        ≡ lookup k (
            ("id", quote s.id)
            ∷ ("attempts", number s.attempts)
            ∷ ("failures", number s.failures)
            ∷ ("next_attempt_utc", number s.next_attempt_utc)
            ∷ ("last_error", quote s.last_error)
            ∷ ("code", quote s.code)
            ∷ ("refused", boolean s.refused)
            ∷ [])
  unfolding request_state_json
  member_request s k = laws.member_line _ k ∙ laws.member_object _ k

  request_state_json_nonempty : (s : RequestState) → j.is_empty (request_state_json j s) ≡ false
  unfolding request_state_json
  request_state_json_nonempty s = laws.object_text _

  -- The delivery state of a request is read back as it was written.
  pub load_request_state-request_state_json :
      (s : RequestState) → load_request_state j (some (request_state_json j s)) ≡ s
  unfolding load_request_state lookup
  load_request_state-request_state_json s = ground (
    arith,
    request_state_json_nonempty s,
    member_request s "id",
    member_request s "attempts",
    member_request s "failures",
    member_request s "next_attempt_utc",
    member_request s "last_error",
    member_request s "code",
    member_request s "refused",
    laws.string_quote s.id,
    laws.string_quote s.last_error,
    laws.string_quote s.code,
    laws.int_number s.attempts,
    laws.int_number s.failures,
    laws.int_number s.next_attempt_utc,
    laws.bool_boolean s.refused,
  )

module _ {j : Json} (c : Core j) (r : RequestCore j) (o : Outside j.Text) (t : Transport j.Text)
    (owner : Option OwnerFn) (force : Bool) (now : ℕ) where
  open j use {Text}

  state_of-id :
      (k : Kind) (a id : String) (w : World Text)
      → (state_of c r o t owner force now k a id w).id ≡ id
  unfolding state_of
  state_of-id k a id w =
      ground (arith, eq_iff (load_request_state j (lookup a (w.request_delivery k))).id id)

  state_of-save_request :
      (a : String) (st : RequestState) (w : World Text)
      → JsonLaws j
      → c.writes w.steps ≡ true
      → state_of c r o t owner force now report a st.id
          (save_request c r o t owner force now report a st w)
        ≡ st
  unfolding state_of save_request
  state_of-save_request a st w laws h =
      rw
        (
          h,
          lookup-put a a (request_state_json j st) (w.request_delivery report),
          eq_refl a,
          load_request_state-request_state_json j laws st,
          eq_refl st.id,
        )
        refl

  -- The delivery state of a held report: no attempt, no failure, checked again soon.
  abbrev pub held_state : String → RequestState → RequestState
  held_state why st = record st {
    last_error = join "waiting for this computer's sessions: " why;
    code = "local_evidence_pending";
    next_attempt_utc = now + 30;
  }

  -- The report that a visit would send: named by its file, without a receipt, not refused, due, and
  -- its evaluator's account signed in.
  pub record IsReady (a id : String) (s : Requests Text) : Type 0 where
    pub named :
        request_id c r o t owner force now report a
          (text_of c r o t owner force now report a s.world)
        ≡ some id
    pub open_yet : lookup a (s.world.request_receipts report) ≡ none
    pub unrefused : (state_of c r o t owner force now report a id s.world).refused ≡ false
    pub is_due :
        is_waiting c r o t owner force now (state_of c r o t owner force now report a id s.world)
        ≡ false
    pub own_account :
        is_foreign c o t owner force now (
          request_owner c r o t owner force now s.world.steps a
            (text_of c r o t owner force now report a s.world))
        ≡ false

  try_request-send :
      (a id : String) (text : Text) (st : RequestState) (s : Requests Text)
      → st.refused ≡ false
      → is_waiting c r o t owner force now st ≡ false
      → is_foreign c o t owner force now
          (request_owner c r o t owner force now s.world.steps a text)
        ≡ false
      → try_request c r o t owner force now report a id text st s
        ≡ send c r o t owner force now report a id text st s
  unfolding try_request is_foreign is_waiting
  try_request-send a id text st s h k m = ground arith

  send-hold :
      (a id : String) (text : Text) (st : RequestState) (s : Requests Text)
      → (local_completeness r c.is_hex32 s.world a (not (t.name == "service"))).complete ≡ false
      → send c r o t owner force now report a id text st s
        ≡ hold_report c r o t owner force now a
            (local_completeness r c.is_hex32 s.world a (not (t.name == "service"))).why
            st
            s
  unfolding send
  send-hold a id text st s h = rw h refl

  visit_request-hold :
      (a id : String) (s : Requests Text)
      → IsReady a id s
      → (local_completeness r c.is_hex32 s.world a (not (t.name == "service"))).complete ≡ false
      → visit_request c r o t owner force now report a s
        ≡ hold_report c r o t owner force now a
            (local_completeness r c.is_hex32 s.world a (not (t.name == "service"))).why
            (state_of c r o t owner force now report a id s.world)
            s
  unfolding visit_request
  visit_request-hold a id s h k =
      rw (h.named, visit_request)
        (rw h.open_yet
          (try_request-send a id _ _ s h.unrefused h.is_due h.own_account ∙ send-hold a id _ _ s k))

  hold_report-state :
      (a id why : String) (s : Requests Text)
      → JsonLaws j
      → c.writes s.world.steps ≡ true
      → state_of c r o t owner force now report a id
          (hold_report c r o t owner force now a why
            (state_of c r o t owner force now report a id s.world)
            s).world
        ≡ held_state why (state_of c r o t owner force now report a id s.world)
  unfolding hold_report
  hold_report-state a id why s laws h =
      let st : RequestState =
        held_state why (state_of c r o t owner force now report a id s.world) in
      subst
        (λ i.
          state_of c r o t owner force now report a i
            (save_request c r o t owner force now report a st s.world)
          ≡ st)
        (state_of-id report a id s.world) (state_of-save_request a st s.world laws h)

  -- One more request is pending, and the pass is due again in thirty seconds, or earlier if it was.
  pub record IsCounted (res res' : RequestResult) : Type 0 where
    pub one_pending : res'.pending ≡ res.pending + 1
    pub comes_back :
        (res'.next_due_utc ≡ now + 30)
        ⊎ ((res'.next_due_utc ≡ res.next_due_utc)
            × ((0 < res.next_due_utc) × (res.next_due_utc ≤ now + 30)))
    pub others :
        (res'.acknowledged ≡ res.acknowledged)
        × ((res'.refused ≡ res.refused)
            × ((res'.waiting_account ≡ res.waiting_account) × (res'.heard ≡ res.heard)))

  hold-IsCounted :
      (res : RequestResult) → IsCounted res (hold c r o t owner force now (now + 30) res)
  unfolding hold note_due
  hold-IsCounted res = record {
    one_pending = refl;
    comes_back = ground arith;
    others = (refl, (refl, (refl, refl)));
  }

  -- A report that could be sent while this computer's evidence is not complete is held: neither an
  -- attempt nor a failure is recorded, it is due again thirty seconds later, it is counted as one more
  -- pending request and as nothing else, the pass is due again then or earlier, and the requests and
  -- their receipts stay. When the write is made, the next pass reads that.
  pub visit_request-held :
      (a id : String) (s : Requests Text)
      → IsReady a id s
      → (local_completeness r c.is_hex32 s.world a (not (t.name == "service"))).complete ≡ false
      → JsonLaws j
      → c.writes s.world.steps ≡ true
      → let s' = visit_request c r o t owner force now report a s in
        let why = (local_completeness r c.is_hex32 s.world a (not (t.name == "service"))).why in
        (state_of c r o t owner force now report a id s'.world
          ≡ held_state why (state_of c r o t owner force now report a id s.world))
        × (IsCounted s.res s'.res
            × ((s'.world.requests ≡ s.world.requests)
                × (s'.world.request_receipts ≡ s.world.request_receipts)))
  unfolding hold_report save_request
  visit_request-held a id s h k laws w =
      rw (visit_request-hold a id s h k)
        (hold_report-state a id _ s laws w, (hold-IsCounted s.res, (refl, refl)))
