-- ===== src/Evidence/Pass/Schedule.antt =====
-- When a package is due again.
use virule_client.Prelude.{
  ℕ, ◌+◌, ◌≤◌, String, ◌≡◌, ◌∙◌, ap, sym, subst, refl, ◌⊎◌, inl, inr, List, [], ◌∷◌, Option, Bool,
  true, ◌&&◌, arith, Bool-cases, if◌then◌else◌,
}
use virule_client.Evidence.Ladder.{backoff_cap, backoff_bounds}
use virule_client.Evidence.Json.{Json, JsonLaws}
use virule_client.Evidence.Core.{Core, CoreLaws, IsReadable, Package}
use virule_client.Evidence.Document.{State, normal-next_attempt_utc}
use virule_client.Evidence.Answer.{Answer, OfferFile, Transport}
use virule_client.Evidence.Outbox.{Verified}
use virule_client.Evidence.Outbox.Names.{verify_package-assignment}
use virule_client.Evidence.World.{
  World, Outside, save_state, load_state, note_change, remove_state, remove_payload,
}
use virule_client.Evidence.World.Load.{load_state-save_state, load_state-package_id}
use virule_client.Evidence.Attempt.{
  Pass, Sending, start, on_acked, on_all_acked, settle, try_deliver, delivered, retry_later,
  wait_signed_out, error_of, receipt_of, is_whole, is_unavailable,
}
use virule_client.Evidence.Attempt.Box.{has_receipt, receipt_of-IsReadable}
use virule_client.Evidence.Pass.Cases.{visit_cases}
use virule_client.Evidence.Pass.{
  OwnerFn, finish_removal, skip, keep_damaged, wait_for_account, already_waits, attempt, told,
  visit, not_due, assigned, whole,
}

module _ {j : Json} (c : Core j) (o : Outside j.Text) (t : Transport j.Text)
    (owner : Option OwnerFn) (force : Bool) (now : ℕ) (laws : JsonLaws j) (core : CoreLaws c)
    (writes : (n : ℕ) → c.writes n ≡ true) where
  open j use {Text}

  -- The next attempt that a package's delivery state names.
  abbrev pub next_of : World Text → String → ℕ
  next_of w id = (load_state c o w id).next_attempt_utc

  load_note :
      (w : World Text) (id : String) (n : ℕ) → next_of w id ≤ n → next_of (note_change c o w) id ≤ n
  unfolding load_state note_change
  load_note w id n h = h

  saved_next :
      (st : State) (w : World Text) (id : String)
      → st.package_id ≡ id
      → c.is_hex32 id ≡ true
      → next_of (save_state c o st w) id ≡ st.next_attempt_utc
  saved_next st w id e h =
      subst (λ k. next_of (save_state c o st w) k ≡ st.next_attempt_utc) e
        (ap (λ (s : State). s.next_attempt_utc)
            (load_state-save_state c o laws st w (subst (λ k. c.is_hex32 k ≡ true) (sym e) h)
              (writes w.steps))
          ∙ normal-next_attempt_utc j c.is_hex32 st)

  module _ (id : String) (hex : c.is_hex32 id ≡ true) where
    saved_due :
        (st : State) (w : World Text)
        → st.package_id ≡ id
        → st.next_attempt_utc ≤ now + backoff_cap
        → next_of (save_state c o st w) id ≤ now + backoff_cap
    saved_due st w e h = omega (arith, saved_next st w id e hex)

    -- Due again within half an hour, or acknowledged.
    abbrev IsScheduled : Pass Text → Type 0
    IsScheduled r = (has_receipt c r.world id ≡ true) ⊎ (next_of r.world id ≤ now + backoff_cap)

    finish_removal-IsScheduled :
        (s : Pass Text)
        → has_receipt c s.world id ≡ true
        → IsScheduled (finish_removal c o t owner force now id s)
    unfolding finish_removal remove_payload remove_state has_receipt
    finish_removal-IsScheduled s h = inl h

    skip-IsScheduled :
        (s : Pass Text)
        → not_due c o t owner force now (load_state c o s.world id) ≡ true
        → IsScheduled (skip c o t owner force now (load_state c o s.world id) s)
    unfolding skip not_due
    skip-IsScheduled s h = inr (ground arith)

    keep_damaged-IsScheduled :
        (damage : String) (st : State) (s : Pass Text)
        → st.package_id ≡ id
        → IsScheduled (keep_damaged c o t owner force now damage st s)
    unfolding keep_damaged
    keep_damaged-IsScheduled damage st s e =
        inr (saved_due _ s.world e (omega (arith, backoff_bounds (st.failures + 1))))

    wait_for_account-IsScheduled :
        (why : String) (st : State) (s : Pass Text)
        → st.package_id ≡ id
        → next_of s.world id ≡ st.next_attempt_utc
        → IsScheduled (wait_for_account c o t owner force now why st s)
    unfolding wait_for_account note_change already_waits
    wait_for_account-IsScheduled why st s e l =
        elim (Bool-cases (already_waits c o t owner force now why st)) [
          | inl a ↦ inr (rw (a, wait_for_account) (ground arith))
          | inr a ↦
              inr
                (rw (a, wait_for_account) (load_note _ id _ (saved_due _ s.world e (omega arith))))
        ]

    retry_later-IsScheduled :
        (st : State) (progress : Bool) (s : Pass Text)
        → st.package_id ≡ id
        → IsScheduled (retry_later c o t now st progress s)
    unfolding retry_later
    retry_later-IsScheduled st progress s e = inr (
        saved_due _ s.world e
          (omega (arith, backoff_bounds (if progress then 1 else st.failures + 1))))

    error_of-package_id :
        (ans : Answer Text) (all_acked : Bool) (st : State)
        → (error_of c o t now ans all_acked st).package_id ≡ st.package_id
    unfolding error_of
    error_of-package_id ans all_acked st = ground arith

    delivered-receipts :
        (p : Package) (ans : Answer Text) (s : Pass Text)
        → has_receipt c (delivered c o t now id p ans s).world id ≡ has_receipt c s.world id
    unfolding delivered remove_state note_change has_receipt
    delivered-receipts p ans s = refl

    try_deliver-IsScheduled :
        (p : Package) (files : List (OfferFile Text)) (ans : Answer Text) (st : State)
        (progress : Bool) (s : Pass Text)
        → st.package_id ≡ id
        → IsReadable c.is_hex32 (receipt_of c o t now id p files ans)
        → IsScheduled (try_deliver c o t now id p files ans st progress s)
    unfolding try_deliver has_receipt receipt_of
    try_deliver-IsScheduled p files ans st progress s e k =
        elim (Bool-cases
          (c.acknowledge s.world.steps s.world.box (receipt_of c o t now id p files ans)).0) [
            | inl h ↦ inl (
                rw (h, try_deliver)
                  (delivered-receipts p ans _
                    ∙ ground (
                      arith,
                      core.written s.world.steps s.world.box (receipt_of c o t now id p files ans)
                          k,
                    )))
            | inr h ↦ rw (h, try_deliver) (retry_later-IsScheduled _ progress _ e)
          ]

    settle-IsScheduled :
        (p : Package) (files : List (OfferFile Text)) (ans : Answer Text) (st : State)
        (progress all_acked : Bool) (s : Pass Text)
        → st.package_id ≡ id
        → c.is_hex32 p.assignment_id ≡ true
        → IsScheduled (settle c o t now id p files ans st progress all_acked s)
    unfolding settle wait_signed_out is_whole
    settle-IsScheduled p files ans st progress all_acked s e hp =
        elim (Bool-cases (is_whole c o t now ans all_acked)) [
          | inl h ↦ rw h (
              try_deliver-IsScheduled p files ans st progress s e
                (receipt_of-IsReadable c o t now id p files ans hex hp (ground (arith, h))))
          | inr h ↦ rw h (elim (Bool-cases (is_unavailable c o t now ans && ans.signed_out)) [
            | inl k ↦ rw k (inr (saved_due _ s.world e (omega arith)))
            | inr k ↦
                rw k
                  (retry_later-IsScheduled _ progress s (error_of-package_id ans all_acked st ∙ e))
          ])
        ]

    on_all_acked-package_id :
        (known : List String) (reported : List (List String)) (s : Sending Text)
        → (on_all_acked c o t now known reported s).st.package_id ≡ s.st.package_id
    unfolding on_all_acked on_acked
    on_all_acked-package_id known [] s = refl
    on_all_acked-package_id known (names ∷ rest) s =
        ground (arith, on_all_acked-package_id known rest (on_acked c o t now known names s))

    attempt-IsScheduled :
        (v : Verified Text) (st : State) (s : Pass Text)
        → st.package_id ≡ id
        → c.is_hex32 v.pkg.assignment_id ≡ true
        → IsScheduled (attempt c o t owner force now id v st s)
    unfolding attempt told start
    attempt-IsScheduled v st s e hp =
        settle-IsScheduled v.pkg v.files _ _ _ _ _ (on_all_acked-package_id _ _ _ ∙ e) hp

    assigned-package_id :
        (v : Verified Text) (st : State)
        → (assigned c o t owner force now v st).package_id ≡ st.package_id
    unfolding assigned
    assigned-package_id v st = ground arith

    whole-next :
        (v : Verified Text) (st : State)
        → st.next_attempt_utc ≡ (whole c o t owner force now v st).next_attempt_utc
    unfolding whole assigned
    whole-next v st = ground arith

    -- Under the laws of the libraries that read documents and write receipts, and when every write
    -- is made, a package named by 32 hex digits that is visited has a receipt afterwards, or is
    -- due again within half an hour: a delivery is retried forever and never given up.
    pub visit-IsScheduled : (s : Pass Text) → IsScheduled (visit c o t owner force now id s)
    unfolding whole
    visit-IsScheduled s =
        visit_cases c o t owner force now id s IsScheduled (finish_removal-IsScheduled s)
          (skip-IsScheduled s)
          (λ _. keep_damaged-IsScheduled _ _ s (own_id (assigned-package_id _ _)))
          (λ _ w _ _.
            wait_for_account-IsScheduled _ _ s (own_id (assigned-package_id _ _)) (whole-next _ _))
          (λ b _.
            attempt-IsScheduled _ _ s (own_id (assigned-package_id _ _))
              (verify_package-assignment c core s.world.outbox id b))
      where
        own_id : {k : String} → k ≡ (load_state c o s.world id).package_id → k ≡ id
        own_id e = e ∙ load_state-package_id c o s.world id
