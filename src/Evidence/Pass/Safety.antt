-- ===== src/Evidence/Pass/Safety.antt =====
-- What a pass keeps of the packages and their receipts.
use virule_client.Prelude.{
  ℕ, String, ◌≡◌, ◌∙◌, refl, inl, inr, List, [], ◌∷◌, map, Option, Bool, true, false, arith, ◌==◌,
  eq_iff, Bool-cases, not,
}
use virule_client.Evidence.Json.{Json}
use virule_client.Evidence.Core.{Core, CoreLaws, Entry, payload}
use virule_client.Evidence.Document.{State}
use virule_client.Evidence.Answer.{Transport}
use virule_client.Evidence.Outbox.{outbox_ids, Verified}
use virule_client.Evidence.Outbox.Names.{AreHex, outbox_ids-AreHex, verify_package-assignment}
use virule_client.Evidence.World.{
  World, Outside, save_state, remove_state, remove_payload, remove_dir, note_change,
}
use virule_client.Evidence.Attempt.{Pass}
use virule_client.Evidence.Attempt.Box.{
  KeepsEvidence, KeepsEvidence-trans, KeepsEvidence-of_box, has_receipt, start-box,
  on_all_acked-box, settle-KeepsEvidence,
}
use virule_client.Evidence.Pass.Cases.{visit_cases, skip-box}
use virule_client.Evidence.Pass.{
  OwnerFn, finish_removal, keep_damaged, wait_for_account, attempt, told, visit, visit_all, sweep,
  run_pass, all_visited, no_result,
}

payload-remove_dir :
    {Text : Type 0} (o : Outside Text) (n : ℕ) (id k : String) (es : List (Entry Text))
    → (id == k) ≡ false
    → payload (remove_dir o n id es) k ≡ payload es k
unfolding payload remove_dir
payload-remove_dir o n id k [] h = refl
payload-remove_dir o n id k (e ∷ es) h =
    ground (arith, payload-remove_dir o n id k es h, eq_iff e.id id, eq_iff e.id k, eq_iff id k)

module _ {j : Json} (c : Core j) (o : Outside j.Text) (t : Transport j.Text)
    (owner : Option OwnerFn) (force : Bool) (now : ℕ) where
  open j use {Text}

  finish_removal-KeepsEvidence :
      (id : String) (s : Pass Text)
      → has_receipt c s.world id ≡ true
      → KeepsEvidence c s.world (finish_removal c o t owner force now id s).world
  unfolding finish_removal remove_state remove_payload has_receipt
  finish_removal-KeepsEvidence id s h = record {
    kept = λ k. elim (Bool-cases (id == k)) [
      | inl e ↦ inr (ground (arith, eq_iff id k))
      | inr e ↦ inl (payload-remove_dir o s.world.steps id k s.world.outbox e)
    ];
    receipted = λ k r. r;
  }

  keep_damaged-KeepsEvidence :
      (damage : String) (st : State) (s : Pass Text)
      → KeepsEvidence c s.world (keep_damaged c o t owner force now damage st s).world
  unfolding keep_damaged save_state
  keep_damaged-KeepsEvidence damage st s = KeepsEvidence-of_box c _ _ refl

  wait_for_account-KeepsEvidence :
      (why : String) (st : State) (s : Pass Text)
      → KeepsEvidence c s.world (wait_for_account c o t owner force now why st s).world
  unfolding wait_for_account save_state note_change
  wait_for_account-KeepsEvidence why st s = KeepsEvidence-of_box c _ _ (ground arith)

  module _ (laws : CoreLaws c) where
    attempt-KeepsEvidence :
        (id : String) (v : Verified Text) (st : State) (s : Pass Text)
        → c.is_hex32 id ≡ true
        → c.is_hex32 v.pkg.assignment_id ≡ true
        → KeepsEvidence c s.world (attempt c o t owner force now id v st s).world
    unfolding attempt told
    attempt-KeepsEvidence id v st s hid hp =
        KeepsEvidence-trans c
          (KeepsEvidence-of_box c _ _
            (on_all_acked-box c o t now _ _ _ ∙ start-box c o t now st s.world))
          (settle-KeepsEvidence c o t now laws id v.pkg v.files _ _ _ _ _ hid hp)

    visit-KeepsEvidence :
        (id : String) (s : Pass Text)
        → c.is_hex32 id ≡ true
        → KeepsEvidence c s.world (visit c o t owner force now id s).world
    visit-KeepsEvidence id s hid =
        visit_cases c o t owner force now id s (λ r. KeepsEvidence c s.world r.world)
          (finish_removal-KeepsEvidence id s)
          (λ _. KeepsEvidence-of_box c _ _ (skip-box c o t owner force now _ s))
          (λ _. keep_damaged-KeepsEvidence _ _ s) (λ _ w _ _. wait_for_account-KeepsEvidence _ _ s)
          (λ b _.
            attempt-KeepsEvidence id _ _ s hid
              (verify_package-assignment c laws s.world.outbox id b))

    visit_all-KeepsEvidence :
        (ids : List String) (s : Pass Text)
        → AreHex c.is_hex32 ids
        → KeepsEvidence c s.world (visit_all c o t owner force now ids s).world
    unfolding visit_all
    visit_all-KeepsEvidence [] s _ = KeepsEvidence-of_box c _ _ refl
    visit_all-KeepsEvidence (id ∷ ids) s (h, k) =
        KeepsEvidence-trans c (visit-KeepsEvidence id s h)
          (visit_all-KeepsEvidence ids (visit c o t owner force now id s) k)

    sweep-box :
        (ids : List String) (w : World Text) → (sweep c o t owner force now ids w).box ≡ w.box
    unfolding sweep remove_state
    sweep-box [] w = refl
    sweep-box (id ∷ ids) w = ground (arith, sweep-box ids w, sweep-box ids (remove_state c o id w))

    all_visited-KeepsEvidence :
        (w : World Text) → KeepsEvidence c w (all_visited c o t owner force now w).world
    unfolding all_visited
    all_visited-KeepsEvidence w =
        visit_all-KeepsEvidence (outbox_ids c.is_hex32 w.outbox)
          (record { world = w; res = no_result }) (outbox_ids-AreHex c.is_hex32 w.outbox)

    -- Whatever the transport, the owner, the clock and the file system answer, a pass leaves every
    -- package's files as they were, or the package has a receipt; and no receipt is lost. The
    -- library that reads packages and writes receipts is asked only that an undamaged package
    -- names an assignment by 32 hex digits, that a receipt it acknowledges, with both ids of 32
    -- hex digits and a name, can be read as some receipt of the package, and that other packages
    -- and receipts stay.
    pub run_pass-KeepsEvidence :
        (w : World Text) → KeepsEvidence c w (run_pass c o t owner force now w).world
    unfolding run_pass
    run_pass-KeepsEvidence w = elim (Bool-cases (not o.rooted)) [
      | inl e ↦ KeepsEvidence-of_box c _ _ (rw (e, run_pass))
      | inr e ↦ KeepsEvidence-trans c (all_visited-KeepsEvidence w) (
          KeepsEvidence-of_box c _ _ (
            rw (e, run_pass)
              (sweep-box (map (λ e. e.0) (all_visited c o t owner force now w).world.delivery)
                (all_visited c o t owner force now w).world)))
    ]
