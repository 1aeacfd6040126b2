-- ===== src/Evidence/Pass/Cases.antt =====
-- The ways a visit can go.
use virule_client.Prelude.{
  ℕ, String, ◌≡◌, refl, inl, inr, Option, Bool, true, false, ◌==◌, Bool-cases, Option-cases,
}
use virule_client.Evidence.Json.{Json}
use virule_client.Evidence.Core.{Core}
use virule_client.Evidence.Document.{State, reason_signed_out, reason_other_account}
use virule_client.Evidence.Answer.{Transport}
use virule_client.Evidence.Outbox.{verify_package, Verified}
use virule_client.Evidence.World.{Outside, load_state}
use virule_client.Evidence.Attempt.{Pass}
use virule_client.Evidence.Attempt.Box.{has_receipt}
use virule_client.Evidence.Pass.{
  Owner, OwnerFn, mine, signed_out, other_account, unknown, finish_removal, skip, keep_damaged,
  wait_for_account, attempt, offer_package, try_package, visit, not_due, owner_of, assigned, whole,
}

module _ {j : Json} (c : Core j) (o : Outside j.Text) (t : Transport j.Text)
    (owner : Option OwnerFn) (force : Bool) (now : ℕ) where
  open j use {Text}

  pub skip-box :
      (st : State) (s : Pass Text) → (skip c o t owner force now st s).world.box ≡ s.world.box
  unfolding skip
  skip-box st s = refl

  -- The account that would deliver the package is not the evaluator's.
  unfoldable pub is_foreign : Owner → Bool
  is_foreign signed_out = true
  is_foreign other_account = true
  is_foreign _ = false

  pub reason_of : Owner → String
  reason_of other_account = reason_other_account
  reason_of _ = reason_signed_out

  module _ {ℓ} (id : String) (s : Pass Text) (P : Pass Text → Type ℓ) where
    abbrev loaded : State
    loaded = load_state c o s.world id

    abbrev checked : Verified Text
    checked = verify_package c s.world.outbox id

    offer_cases :
        (v : Verified Text) (st : State)
        → ((w : Owner)
            → owner_of c o t owner force now s.world.steps v.pkg ≡ w
            → is_foreign w ≡ true
            → P (wait_for_account c o t owner force now (reason_of w) st s))
        → (is_foreign (owner_of c o t owner force now s.world.steps v.pkg) ≡ false
            → P (attempt c o t owner force now id v st s))
        → P (offer_package c o t owner force now id v st s)
    unfolding offer_package is_foreign reason_of
    offer_cases v st waits tries =
        (elim (owner_of c o t owner force now s.world.steps v.pkg)
            as (λ w.
              owner_of c o t owner force now s.world.steps v.pkg ≡ w
              → P (elim w [
                | signed_out ↦ wait_for_account c o t owner force now reason_signed_out st s
                | other_account ↦ wait_for_account c o t owner force now reason_other_account st s
                | _ ↦ attempt c o t owner force now id v st s
              ])) [
                | mine ↦ λ e. tries (rw e)
                | signed_out ↦ λ e. waits signed_out e refl
                | other_account ↦ λ e. waits other_account e refl
                | unknown ↦ λ e. tries (rw e)
              ])
          refl

    pub visit_cases :
        (has_receipt c s.world id ≡ true → P (finish_removal c o t owner force now id s))
        → (not_due c o t owner force now loaded ≡ true → P (skip c o t owner force now loaded s))
        → ((checked.damage == "") ≡ false
            → P (
                keep_damaged c o t owner force now checked.damage
                  (assigned c o t owner force now checked loaded)
                  s))
        → ((checked.damage == "") ≡ true
            → (w : Owner) → owner_of c o t owner force now s.world.steps checked.pkg ≡ w
            → is_foreign w ≡ true
            → P (
                wait_for_account c o t owner force now
                  (reason_of w)
                  (whole c o t owner force now checked loaded)
                  s))
        → ((checked.damage == "") ≡ true
            → is_foreign (owner_of c o t owner force now s.world.steps checked.pkg) ≡ false
            → P (
                attempt c o t owner force now id checked
                  (whole c o t owner force now checked loaded)
                  s))
        → P (visit c o t owner force now id s)
    unfolding visit try_package has_receipt
    visit_cases done later broken waits tries =
        elim (Option-cases (c.read_receipt s.world.receipts id)) [
          | inr (r, e) ↦ rw (e, visit) (done (rw (e, has_receipt)))
          | inl e ↦
              rw (e, visit)
                (elim (Bool-cases (not_due c o t owner force now loaded)) [
                  | inl d ↦ rw d (later d)
                  | inr d ↦ rw d (elim (Bool-cases (checked.damage == "")) [
                    | inl h ↦ rw h (offer_cases checked _ (waits h) (tries h))
                    | inr h ↦ rw h (broken h)
                  ])
                ])
        ]
