-- ===== src/Evidence/Pass/Due.antt =====
-- When a pass wants to be called again.
use virule_client.Prelude.{
  ℕ, ◌+◌, ◌<◌, String, ◌≡◌, refl, ◌⊎◌, inl, inr, List, [], ◌∷◌, Option, Bool, true, not, arith,
  Bool-cases, if◌then◌else◌,
}
use virule_client.Evidence.Ladder.{backoff_seconds, backoff_bounds}
use virule_client.Evidence.Json.{Json}
use virule_client.Evidence.Core.{Core, Package}
use virule_client.Evidence.Document.{State}
use virule_client.Evidence.Answer.{Answer, OfferFile, Transport}
use virule_client.Evidence.Outbox.{outbox_ids, Verified}
use virule_client.Evidence.World.{World, Outside}
use virule_client.Evidence.Attempt.{
  PassResult, Pass, note_due, settle, error_of, try_deliver, delivered, retry_later,
  wait_signed_out,
}
use virule_client.Evidence.Pass.Cases.{visit_cases}
use virule_client.Evidence.Pass.{
  OwnerFn, finish_removal, skip, not_due, count_held, keep_damaged, wait_for_account, attempt,
  visit, visit_all, run_pass, all_visited, no_result,
}

-- Every package that stays waits for an account, or a time is named.
abbrev pub HasTime : PassResult → Type 0
HasTime r = (r.pending + r.damaged ≡ r.waiting_account) ⊎ (0 < r.next_due_utc)

module _ {j : Json} (c : Core j) (o : Outside j.Text) (t : Transport j.Text)
    (owner : Option OwnerFn) (force : Bool) (now : ℕ) where
  open j use {Text}

  note_due_pos : (next due : ℕ) → 0 < next → 0 < note_due next due
  unfolding note_due
  note_due_pos next due h = ground (arith, h)

  retry_time :
      (st : State) (progress : Bool) (s : Pass Text)
      → 0
        < note_due
            (now + backoff_seconds (if progress then 1 else st.failures + 1))
            s.res.next_due_utc
  retry_time st progress s =
      note_due_pos (now + backoff_seconds (if progress then 1 else st.failures + 1))
        s.res.next_due_utc (omega (arith, backoff_bounds (if progress then 1 else st.failures + 1)))

  settle-HasTime :
      (id : String) (p : Package) (files : List (OfferFile Text)) (ans : Answer Text) (st : State)
      (progress all_acked : Bool) (s : Pass Text)
      → HasTime s.res
      → HasTime (settle c o t now id p files ans st progress all_acked s).res
  unfolding settle try_deliver delivered retry_later wait_signed_out
  settle-HasTime id p files ans st progress all_acked s h = ground (
    arith,
    h,
    retry_time st progress s,
    retry_time (error_of c o t now ans all_acked st) progress s,
  )

  skip-HasTime :
      (st : State) (s : Pass Text)
      → not_due c o t owner force now st ≡ true
      → HasTime (skip c o t owner force now st s).res
  unfolding skip not_due count_held
  skip-HasTime st s h =
      inr (ground (arith, note_due_pos st.next_attempt_utc s.res.next_due_utc (ground (arith, h))))

  keep_damaged-HasTime :
      (damage : String) (st : State) (s : Pass Text)
      → HasTime (keep_damaged c o t owner force now damage st s).res
  unfolding keep_damaged
  keep_damaged-HasTime damage st s =
      inr (note_due_pos _ s.res.next_due_utc (omega (arith, backoff_bounds (st.failures + 1))))

  wait_for_account-HasTime :
      (why : String) (st : State) (s : Pass Text)
      → HasTime s.res
      → HasTime (wait_for_account c o t owner force now why st s).res
  unfolding wait_for_account
  wait_for_account-HasTime why st s h = ground (arith, h)

  attempt-HasTime :
      (id : String) (v : Verified Text) (st : State) (s : Pass Text)
      → HasTime s.res
      → HasTime (attempt c o t owner force now id v st s).res
  unfolding attempt
  attempt-HasTime id v st s h = settle-HasTime id v.pkg v.files _ _ _ _ _ h

  visit-HasTime :
      (id : String) (s : Pass Text) → HasTime s.res → HasTime (visit c o t owner force now id s).res
  unfolding finish_removal
  visit-HasTime id s h =
      visit_cases c o t owner force now id s (λ r. HasTime r.res) (λ _. h) (skip-HasTime _ s)
        (λ _. keep_damaged-HasTime _ _ s) (λ _ w _ _. wait_for_account-HasTime _ _ s h)
        (λ _ _. attempt-HasTime id _ _ s h)

  visit_all-HasTime :
      (ids : List String) (s : Pass Text)
      → HasTime s.res
      → HasTime (visit_all c o t owner force now ids s).res
  unfolding visit_all
  visit_all-HasTime [] s h = h
  visit_all-HasTime (id ∷ ids) s h =
      visit_all-HasTime ids (visit c o t owner force now id s) (visit-HasTime id s h)

  all_visited-HasTime : (w : World Text) → HasTime (all_visited c o t owner force now w).res
  unfolding all_visited
  all_visited-HasTime w =
      visit_all-HasTime (outbox_ids c.is_hex32 w.outbox) (record { world = w; res = no_result })
        (inl refl)

  pub run_pass-HasTime : (w : World Text) → HasTime (run_pass c o t owner force now w).res
  unfolding run_pass
  run_pass-HasTime w = elim (Bool-cases (not o.rooted)) [
    | inl e ↦ rw (e, run_pass) (inl refl)
    | inr e ↦ rw (e, run_pass) (all_visited-HasTime w)
  ]
