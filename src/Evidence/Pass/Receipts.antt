-- ===== src/Evidence/Pass/Receipts.antt =====
-- Where the receipt of a package comes from.
use virule_client.Prelude.{
  ℕ, String, ◌≡◌, ◌∙◌, ap, subst, inl, inr, List, ◌++◌, Option, Bool, true, false, ◌||◌, arith, eqb,
  ◌==◌, Bool-cases, contains, length, Within-of_length-eq,
}
use virule_client.Evidence.Json.{Json}
use virule_client.Evidence.Core.{Core, Box, Package}
use virule_client.Evidence.Document.{State}
use virule_client.Evidence.Answer.{Answer, answered, Delivery, OfferFile, Transport}
use virule_client.Evidence.Outbox.{Verified, verify_package}
use virule_client.Evidence.World.{
  Outside, save_state, load_state, remove_state, remove_payload, note_change,
}
use virule_client.Evidence.Attempt.{
  Pass, settle, is_whole, is_answered, known_of, only_known, retry_later, wait_signed_out,
}
use virule_client.Evidence.Attempt.Acked.{
  IsMerged, merge-IsMerged, set_of-IsMerged, on_all_acked-IsMerged, names_of, contains-append,
  only_known_sound,
}
use virule_client.Evidence.Attempt.Box.{has_receipt, on_all_acked-box, start-box}
use virule_client.Evidence.Pass.Cases.{visit_cases, reason_of}
use virule_client.Evidence.Pass.{
  OwnerFn, attempt, told, merged_of, delivery_of, whole, assigned, visit, finish_removal, skip,
  keep_damaged, wait_for_account,
}

-- Every name that the transport told: on the way, or in its answer.
pub told_names : {Text : Type 0} → Delivery Text → List String
told_names d = names_of d.reported ++ d.answer.acked

-- What a receipt stands for: the package as it was verified, its stored delivery state, and what
-- the transport did.
pub record IsEarned {Text : Type 0} (v : Verified Text) (st : State) (d : Delivery Text)
    : Type 0 where
  pub undamaged : (v.damage == "") ≡ true
  pub kind : d.answer.kind ≡ answered
  pub complete : d.answer.complete ≡ true
  pub named : (d.answer.receipt_id == "") ≡ false
  pub covered :
      (f : String)
      → contains (known_of v.files) f ≡ true
      → (contains st.acked f || contains (told_names d) f) ≡ true

module _ {j : Json} (c : Core j) (o : Outside j.Text) (t : Transport j.Text)
    (owner : Option OwnerFn) (force : Bool) (now : ℕ) where
  open j use {Text}

  merged_of-IsMerged :
      (id : String) (v : Verified Text) (st : State) (s : Pass Text)
      → IsMerged
          (known_of v.files)
          (told_names (delivery_of c o t owner force now id v st s))
          (only_known (known_of v.files) st.acked)
          (merged_of c o t owner force now id v st s).0
  unfolding merged_of told told_names
  merged_of-IsMerged id v st s =
      merge-IsMerged _ _ _ _ _
        (on_all_acked-IsMerged c o t now _ _ _ _ _ (set_of-IsMerged _ _ st.acked)
          (λ f k. ground (arith, contains-append (names_of d.reported) d.answer.acked f)))
        (λ f k. ground (arith, contains-append (names_of d.reported) d.answer.acked f))
    where
      d : Delivery Text
      d = delivery_of c o t owner force now id v st s

  -- Without a whole answer the receipts stay as they are.
  settle-receipts :
      (id : String) (p : Package) (files : List (OfferFile Text)) (ans : Answer Text) (st : State)
      (progress all_acked : Bool) (s : Pass Text)
      → is_whole c o t now ans all_acked ≡ false
      → (settle c o t now id p files ans st progress all_acked s).world.receipts ≡ s.world.receipts
  unfolding settle wait_signed_out retry_later save_state
  settle-receipts id p files ans st progress all_acked s h = ground arith

  answered_whole : String → Verified Text → State → Pass Text → Bool
  answered_whole id v st s =
      is_whole c o t now (delivery_of c o t owner force now id v st s).answer
        (eqb (length (merged_of c o t owner force now id v st s).0) (length (known_of v.files)))

  attempt-receipts :
      (id : String) (v : Verified Text) (st : State) (s : Pass Text)
      → answered_whole id v st s ≡ false
      → (attempt c o t owner force now id v st s).world.receipts ≡ s.world.receipts
  unfolding attempt told answered_whole
  attempt-receipts id v st s h =
      settle-receipts id v.pkg v.files _ _ _ _ _ h
      ∙ ap (λ (b : Box Text). b.receipts)
          (on_all_acked-box c o t now _ _ _ ∙ start-box c o t now st s.world)

  attempt-whole :
      (id : String) (v : Verified Text) (st : State) (s : Pass Text)
      → has_receipt c s.world id ≡ false
      → has_receipt c (attempt c o t owner force now id v st s).world id ≡ true
      → answered_whole id v st s ≡ true
  unfolding has_receipt
  attempt-whole id v st s h k = elim (Bool-cases (answered_whole id v st s)) [
    | inl e ↦ e
    | inr e ↦ ground (arith, attempt-receipts id v st s e)
  ]

  -- An attempt writes a receipt only from an answer that is complete and names a receipt, and
  -- only for a package whose every file was acknowledged, in this attempt or in an earlier one.
  pub attempt-receipt :
      (id : String) (v : Verified Text) (st : State) (s : Pass Text)
      → has_receipt c s.world id ≡ false
      → has_receipt c (attempt c o t owner force now id v st s).world id ≡ true
      → let d = delivery_of c o t owner force now id v st s in
        (d.answer.kind ≡ answered)
        × (d.answer.complete ≡ true)
        × ((d.answer.receipt_id == "") ≡ false)
        × ((f : String)
            → contains (known_of v.files) f ≡ true
            → (contains st.acked f || contains (told_names d) f) ≡ true)
  unfolding is_whole is_answered answered_whole
  attempt-receipt id v st s h k =
      let whole = attempt-whole id v st s h k in
      let m = merged_of-IsMerged id v st s in
      (
        ground (arith, whole),
        ground (arith, whole),
        ground (arith, whole),
        λ f kf. ground (
          arith,
          m.sound f (Within-of_length-eq _ _ m.distinct m.within (ground (arith, whole)) f kf),
          only_known_sound (known_of v.files) st.acked f,
        ),
      )

  -- The state that an attempt starts from has the acknowledged files that were stored.
  whole-acked :
      (v : Verified Text) (st : State) → (whole c o t owner force now v st).acked ≡ st.acked
  unfolding whole assigned
  whole-acked v st = ground arith

  wait_for_account-receipts :
      (why : String) (st : State) (s : Pass Text)
      → (wait_for_account c o t owner force now why st s).world.receipts ≡ s.world.receipts
  unfolding wait_for_account save_state note_change
  wait_for_account-receipts why st s = ground arith

  -- A visit writes a receipt for a package only if it is undamaged, the service's answer is
  -- complete and names a receipt, and every file of the package, package.json included, was
  -- acknowledged: it stands in the stored delivery state, or the transport told it in this visit.
  pub visit-receipt :
      (id : String) (s : Pass Text)
      → has_receipt c s.world id ≡ false
      → has_receipt c (visit c o t owner force now id s).world id ≡ true
      → let v = verify_package c s.world.outbox id in
        let st = load_state c o s.world id in
        IsEarned v st (delivery_of c o t owner force now id v (whole c o t owner force now v st) s)
  unfolding finish_removal skip keep_damaged save_state remove_state remove_payload has_receipt
  visit-receipt id s h =
      let v = verify_package c s.world.outbox id in
      let st = load_state c o s.world id in
      visit_cases c o t owner force now id s
        (λ r.
          has_receipt c r.world id ≡ true
          → IsEarned v st
              (delivery_of c o t owner force now id v (whole c o t owner force now v st) s))
        (λ k _. absurd (ground arith)) (λ _ k. absurd (ground arith)) (λ _ k. absurd (ground arith))
        (λ _ w _ _ k. absurd (
          ground (
            arith,
            wait_for_account-receipts (reason_of c o t owner force now w)
                (whole c o t owner force now v st) s,
          )))
        (λ undamaged _ k.
          let r = attempt-receipt id v (whole c o t owner force now v st) s h k in
          record {
            undamaged = undamaged;
            kind = r.0;
            complete = r.1;
            named = r.2;
            covered = λ f kf.
                subst
                  (λ a.
                    (contains a f
                      || contains
                          (told_names (
                            delivery_of c o t owner force now id v
                              (whole c o t owner force now v st) s))
                          f)
                    ≡ true)
                  (whole-acked v st) (r.3 f kf);
          })
