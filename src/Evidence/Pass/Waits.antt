-- ===== src/Evidence/Pass/Waits.antt =====
-- A package whose evaluator is not signed in.
use virule_client.Prelude.{
  ℕ, ◌+◌, String, ◌≡◌, ◌∙◌, sym, subst, refl, inl, inr, Option, Bool, true, false, arith, ◌==◌,
  Bool-cases,
}
use virule_client.Evidence.Json.{Json, JsonLaws}
use virule_client.Evidence.Core.{Core}
use virule_client.Evidence.Document.{
  State, reason_signed_out, reason_other_account, normal_counters,
}
use virule_client.Evidence.Answer.{Transport}
use virule_client.Evidence.Outbox.{verify_package, Verified}
use virule_client.Evidence.World.{World, Outside, load_state, save_state, note_change}
use virule_client.Evidence.World.Load.{load_state-save_state, load_state-package_id}
use virule_client.Evidence.Attempt.{Pass}
use virule_client.Evidence.Attempt.Box.{has_receipt}
use virule_client.Evidence.Pass.Cases.{is_foreign}
use virule_client.Evidence.Pass.{
  Owner, other_account, OwnerFn, try_package, offer_package, owner_of, wait_for_account,
  already_waits, waiting_state, whole, assigned, visit, not_due,
}

foreign_reason : Owner → String
foreign_reason other_account = reason_other_account
foreign_reason _ = reason_signed_out

-- The attempts, and the steps of the ladder, are the same.
abbrev pub SameCounters : State → State → Type 0
SameCounters a b = (a.attempts ≡ b.attempts) × (a.failures ≡ b.failures)

-- The package waits: nothing is sent, no receipt changes and no acknowledged file is counted.
pub record IsWait {Text : Type 0} (s r : Pass Text) : Type 0 where
  pub nothing_sent : r.res.transport_calls ≡ s.res.transport_calls
  pub none_delivered : r.res.delivered ≡ s.res.delivered
  pub waits : r.res.waiting_account ≡ s.res.waiting_account + 1
  pub same_box : r.world.box ≡ s.world.box
  pub none_acked : r.world.acked_files ≡ s.world.acked_files
  pub no_due_time : r.res.next_due_utc ≡ s.res.next_due_utc

module _ {j : Json} (c : Core j) (o : Outside j.Text) (t : Transport j.Text)
    (owner : Option OwnerFn) (force : Bool) (now : ℕ) where
  open j use {Text}

  wait_for_account-IsWait :
      (why : String) (st : State) (s : Pass Text)
      → IsWait s (wait_for_account c o t owner force now why st s)
  unfolding wait_for_account save_state note_change
  wait_for_account-IsWait why st s = record {
    nothing_sent = ground arith;
    none_delivered = ground arith;
    waits = ground arith;
    same_box = ground arith;
    none_acked = ground arith;
    no_due_time = ground arith;
  }

  module _ (id : String) (s : Pass Text) where
    abbrev stored : State
    stored = load_state c o s.world id

    abbrev verified : Verified Text
    verified = verify_package c s.world.outbox id

    -- Where a visit of a due, undamaged package of another account ends.
    visit_foreign :
        has_receipt c s.world id ≡ false
        → not_due c o t owner force now stored ≡ false
        → (verified.damage == "") ≡ true
        → is_foreign c o t owner force now
            (owner_of c o t owner force now s.world.steps verified.pkg)
          ≡ true
        → (why : String) × (visit c o t owner force now id s
            ≡ wait_for_account c o t owner force now why
                (whole c o t owner force now verified stored)
                s)
    unfolding visit has_receipt try_package offer_package is_foreign foreign_reason
    visit_foreign r d v f =
        (foreign_reason (owner_of c o t owner force now s.world.steps verified.pkg), ground arith)

    module _ (laws : JsonLaws j) (hex : c.is_hex32 id ≡ true)
        (writes : (n : ℕ) → c.writes n ≡ true) where
      saved_counters :
          (st : State) (w : World Text)
          → st.package_id ≡ id
          → SameCounters (load_state c o (save_state c o st w) id) st
      saved_counters st w e =
          subst (λ k. SameCounters (load_state c o (save_state c o st w) k) st) e
            (rw
              (load_state-save_state c o laws st w (subst (λ k. c.is_hex32 k ≡ true) (sym e) hex)
                (writes w.steps))
              (normal_counters j c.is_hex32 st))

      noted :
          (st : State) (w : World Text)
          → SameCounters (load_state c o w id) st
          → SameCounters st stored
          → SameCounters (load_state c o (note_change c o w) id) stored
      unfolding load_state note_change
      noted st w h k = (h.0 ∙ k.0, h.1 ∙ k.1)

      wait_for_account-counters :
          (why : String) (st : State)
          → st.package_id ≡ id
          → SameCounters st stored
          → SameCounters
              (load_state c o (wait_for_account c o t owner force now why st s).world id)
              stored
      unfolding wait_for_account
      wait_for_account-counters why st e same =
          elim (Bool-cases (already_waits c o t owner force now why st)) [
            | inl a ↦ rw (a, wait_for_account) (refl, refl)
            | inr a ↦
                rw (a, wait_for_account)
                  (noted (waiting_state c o t owner force now why (o.clock s.world.steps) st) _
                    (saved_counters _ s.world e) same)
          ]

      whole_same : (whole c o t owner force now verified stored).package_id ≡ id
      unfolding whole assigned
      whole_same = ground (arith, load_state-package_id c o s.world id)

      whole-counters : SameCounters (whole c o t owner force now verified stored) stored
      unfolding whole assigned
      whole-counters = (ground arith, ground arith)

      -- When every write is made, a visit of a package that is named by 32 hex digits, has no
      -- receipt, is due and undamaged, and whose evaluator is not signed in, sends nothing, writes
      -- no receipt, touches no payload, counts one more package that waits for its account, and
      -- leaves the attempts and the failures of the package and the next due time of the pass as
      -- they were.
      pub visit-IsWait :
          has_receipt c s.world id ≡ false
          → not_due c o t owner force now stored ≡ false
          → (verified.damage == "") ≡ true
          → is_foreign c o t owner force now
              (owner_of c o t owner force now s.world.steps verified.pkg)
            ≡ true
          → IsWait s (visit c o t owner force now id s)
            × SameCounters (load_state c o (visit c o t owner force now id s).world id) stored
      visit-IsWait r d v f =
          let (why, e) = visit_foreign r d v f in
          rw e (
            wait_for_account-IsWait why _ s,
            wait_for_account-counters why _ whole_same whole-counters,
          )
