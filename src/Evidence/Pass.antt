-- ===== src/Evidence/Pass.antt =====
-- run_pass of src/shared/evidence_queue.hpp: what happens to each package of the outbox, and the
-- loop over all of them. The lines that it logs are not modelled.
pub mod Cases
pub mod Safety
pub mod Counts
pub mod Schedule
pub mod Receipts
pub mod Waits
pub mod Due
use virule_client.Prelude.{
  ℕ, suc, ◌+◌, String, List, [], ◌∷◌, map, Option, none, some, Bool, true, false, not, ◌&&◌, ◌||◌,
  eqb, ltb, leb, ◌==◌, if◌then◌else◌, contains, length,
}
use virule_client.Evidence.Ladder.{backoff_cap, backoff_seconds}
use virule_client.Evidence.Json.{Json}
use virule_client.Evidence.Core.{Core, Package, Entry}
use virule_client.Evidence.Document.{State, reason_signed_out, reason_other_account}
use virule_client.Evidence.Answer.{Answer, Offer, OfferFile, Delivery, Transport}
use virule_client.Evidence.Outbox.{outbox_ids, verify_package, Verified}
use virule_client.Evidence.World.{
  World, Outside, load_state, save_state, remove_state, remove_payload, note_change,
}
use virule_client.Evidence.Attempt.{
  PassResult, Pass, Sending, note_due, known_of, set_of, only_known, merge, start, on_all_acked,
  settle,
}

pub data Owner : Type 0 where
  mine signed_out other_account unknown : Owner

-- OwnerFn: whose the evidence of an assignment and an evaluator is. The number counts the calls.
abbrev pub OwnerFn : Type 0
OwnerFn = ℕ → String → String → Owner

abbrev pub no_result : PassResult
no_result = record {
  delivered = 0;
  cleaned = 0;
  pending = 0;
  waiting_account = 0;
  damaged = 0;
  skipped_not_due = 0;
  transport_calls = 0;
  next_due_utc = 0;
}

module _ {j : Json} (c : Core j) (o : Outside j.Text) (t : Transport j.Text)
    (owner : Option OwnerFn) (force : Bool) (now : ℕ) where
  open j use {Text}

  -- A receipt is the fact: only the payload and the delivery state go.
  unfoldable pub finish_removal : String → Pass Text → Pass Text
  finish_removal id s = record {
    world = remove_state c o id (remove_payload c o id s.world);
    res = record s.res { cleaned = s.res.cleaned + 1 };
  }

  -- Not due: a clock that moved back makes the package due.
  unfoldable pub not_due : State → Bool
  not_due st =
      let clock_moved_back : Bool = ltb (now + backoff_cap) st.next_attempt_utc in
      not force && (ltb now st.next_attempt_utc && not clock_moved_back)

  count_held : State → PassResult → PassResult
  count_held st r =
      if st.damaged
      then record r { damaged = r.damaged + 1 }
      else record r { pending = r.pending + 1 }

  unfoldable pub skip : State → Pass Text → Pass Text
  unfolding count_held
  skip st s = record s {
    res = count_held st (record s.res {
      skipped_not_due = s.res.skipped_not_due + 1;
      next_due_utc = note_due st.next_attempt_utc s.res.next_due_utc;
    });
  }

  -- Kept, and checked again on the ladder.
  unfoldable pub keep_damaged : String → State → Pass Text → Pass Text
  keep_damaged damage st s =
      let next : ℕ = now + backoff_seconds (st.failures + 1) in
      record {
        world =
            save_state c o
              (record st {
                damaged = true;
                last_error = damage;
                state = "waiting";
                reason = "";
                updated_utc = o.clock s.world.steps;
                failures = st.failures + 1;
                next_attempt_utc = next;
              })
              s.world;
        res = record s.res {
          damaged = s.res.damaged + 1;
          next_due_utc = note_due next s.res.next_due_utc;
        };
      }

  -- Whose evidence it is: the transport first, then the owner that the pass was given.
  unfoldable pub owner_of : ℕ → Package → Owner
  owner_of n p =
      if not (t.ready n)
      then signed_out
      else elim owner [ none ↦ mine | some f ↦ f n p.assignment_id p.evaluator_id ]

  already_waits : String → State → Bool
  already_waits why st =
      (st.state == "waiting")
      && ((st.reason == why) && (eqb st.next_attempt_utc 0 && (st.last_error == "")))

  unfoldable pub waiting_state : String → ℕ → State → State
  waiting_state why updated st = record st {
    state = "waiting";
    reason = why;
    last_error = "";
    next_attempt_utc = 0;
    updated_utc = updated;
  }

  -- The evaluator's account is not signed in: no attempt, no failure, no step of the ladder.
  unfoldable pub wait_for_account : String → State → Pass Text → Pass Text
  unfolding already_waits waiting_state
  wait_for_account why st s =
      let res' : PassResult = record s.res {
        pending = s.res.pending + 1;
        waiting_account = s.res.waiting_account + 1;
      } in
      if already_waits why st then record s { res = res' } else record {
        world =
            note_change c o (save_state c o (waiting_state why (o.clock s.world.steps) st) s.world);
        res = res';
      }

  unfoldable pub offer_of : String → Verified Text → State → Offer Text
  offer_of id v st = record {
    package_id = id;
    assignment_id = v.pkg.assignment_id;
    files = v.files;
    already_acked = only_known (known_of v.files) st.acked;
  }

  -- What the transport does with the offer.
  unfoldable pub delivery_of : String → Verified Text → State → Pass Text → Delivery Text
  delivery_of id v st s = t.deliver (start c o t now st s.world).1.steps (offer_of id v st)

  -- The variables of the attempt when the transport returns.
  unfoldable pub told : String → Verified Text → State → Pass Text → Sending Text
  told id v st s =
      let (st1, w1) = start c o t now st s.world in
      on_all_acked c o t now (known_of v.files) (delivery_of id v st s).reported
        (record { st = st1; merged = set_of (only_known (known_of v.files) st.acked); world = w1 })

  unfoldable pub merged_of : String → Verified Text → State → Pass Text → List String × ℕ
  merged_of id v st s =
      let sent : Sending Text = told id v st s in
      merge (known_of v.files) (delivery_of id v st s).answer.acked
        (sent.merged, sent.world.acked_files)

  -- One attempt, from its record to what its answer leads to.
  unfoldable pub attempt : String → Verified Text → State → Pass Text → Pass Text
  attempt id v st s =
      let sent : Sending Text = told id v st s in
      let (merged, count) = merged_of id v st s in
      let st2 : State = record sent.st {
        acked = merged;
        state = "waiting";
        reason = "";
        updated_utc = o.clock sent.world.steps;
      } in
      settle c o t now id v.pkg v.files (delivery_of id v st s).answer st2
        (ltb (length (only_known (known_of v.files) st.acked)) (length merged))
        (eqb (length merged) (length (known_of v.files)))
        (record {
          world = record sent.world { acked_files = count };
          res = record s.res { transport_calls = s.res.transport_calls + 1 };
        })

  -- A whole package.
  unfoldable pub offer_package : String → Verified Text → State → Pass Text → Pass Text
  offer_package id v st s = elim (owner_of s.world.steps v.pkg) [
    | signed_out ↦ wait_for_account reason_signed_out st s
    | other_account ↦ wait_for_account reason_other_account st s
    | _ ↦ attempt id v st s
  ]

  -- The assignment that the package names, as far as it could be read.
  unfoldable pub assigned : Verified Text → State → State
  assigned v st =
      if v.pkg.assignment_id == "" then st else record st { assignment_id = v.pkg.assignment_id }

  unfoldable pub whole : Verified Text → State → State
  whole v st = record (assigned v st) { damaged = false }

  -- A package without a receipt that is due.
  unfoldable pub try_package : String → Verified Text → State → Pass Text → Pass Text
  try_package id v st s =
      if not (v.damage == "")
      then keep_damaged v.damage (assigned v st) s
      else offer_package id v (whole v st) s

  unfoldable pub visit : String → Pass Text → Pass Text
  visit id s = elim (c.read_receipt s.world.receipts id) [
    | some _ ↦ finish_removal id s
    | none ↦
        let st : State = load_state c o s.world id in
        if not_due st then skip st s else try_package id (verify_package c s.world.outbox id) st s
  ]

  unfoldable pub visit_all : List String → Pass Text → Pass Text
  visit_all [] s = s
  visit_all (id ∷ ids) s = visit_all ids (visit id s)

  -- exists_quiet(outbox_dir(r, id))
  in_outbox : String → List (Entry Text) → Bool
  in_outbox id [] = false
  in_outbox id (e ∷ es) = (e.id == id) || in_outbox id es

  -- A delivery state whose package left the outbox is stale.
  sweep : List String → World Text → World Text
  sweep [] w = w
  sweep (id ∷ ids) w = sweep ids (if in_outbox id w.outbox then w else remove_state c o id w)

  -- The loop over the outbox.
  unfoldable pub all_visited : World Text → Pass Text
  all_visited w = visit_all (outbox_ids c.is_hex32 w.outbox) (record { world = w; res = no_result })

  unfoldable pub run_pass : World Text → Pass Text
  unfolding sweep in_outbox
  run_pass w =
      if not o.rooted
      then record { world = w; res = no_result }
      else let s : Pass Text = all_visited w in
        record s { world = sweep (map (λ e. e.0) s.world.delivery) s.world }
