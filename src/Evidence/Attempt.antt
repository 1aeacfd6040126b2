-- ===== src/Evidence/Attempt.antt =====
-- One delivery attempt of run_pass (src/shared/evidence_queue.hpp): the record of its start, the
-- acknowledged sets that the transport reports as it goes, and what its answer leads to.
pub mod Box
pub mod Acked
pub mod Persist
use virule_client.Prelude.{
  ℕ, suc, ◌+◌, String, List, [], ◌∷◌, map, Option, none, some, Bool, true, false, not, ◌&&◌, ◌||◌,
  eqb, ltb, ◌==◌, if◌then◌else◌, contains, insert, length, Dict,
}
use virule_client.Evidence.Ladder.{backoff_seconds}
use virule_client.Evidence.Json.{Json}
use virule_client.Evidence.Core.{Core, Package, PackageFile, Receipt}
use virule_client.Evidence.Document.{State, reason_signed_out, reason_refused, reason_offline}
use virule_client.Evidence.Answer.{
  Answer, AnswerKind, answered, unavailable, failed, Offer, OfferFile, Delivery, Transport,
}
use virule_client.Evidence.World.{World, Outside, save_state, remove_state, note_change, count_up}

pub record PassResult : Type 0 where
  pub delivered : ℕ
  pub cleaned : ℕ
  pub pending : ℕ
  pub waiting_account : ℕ
  pub damaged : ℕ
  pub skipped_not_due : ℕ
  pub transport_calls : ℕ
  pub next_due_utc : ℕ

-- A pass under way: the state and the result so far.
pub record Pass (Text : Type 0) : Type 0 where
  pub world : World Text
  pub res : PassResult

-- `next_due_utc`, 0 for none, is the earliest of the next attempts.
unfoldable pub note_due : ℕ → ℕ → ℕ
note_due t due = if eqb due 0 || ltb t due then t else due

-- Set operations of the attempt.
unfoldable pub set_of : List String → List String
set_of [] = []
set_of (x ∷ xs) = insert x (set_of xs)

unfoldable pub known_of : {Text : Type 0} → List (OfferFile Text) → List String
known_of = map (λ f. f.file)

unfoldable pub only_known : List String → List String → List String
only_known known [] = []
only_known known (a ∷ as') =
    let rest = only_known known as' in if contains known a then a ∷ rest else rest

-- if (contains(known, a) && merged.insert(a).second) acked_file_counter().fetch_add(1)
unfoldable pub merge_one : List String → String → List String × ℕ → List String × ℕ
merge_one known a m =
    if contains known a && not (contains m.0 a) then (insert a m.0, count_up m.1) else m

unfoldable pub merge : List String → List String → List String × ℕ → List String × ℕ
merge known [] m = m
merge known (a ∷ names) m = merge known names (merge_one known a m)

-- The attempt's variables: the delivery state, the merged set, and the world.
pub record Sending (Text : Type 0) : Type 0 where
  pub st : State
  pub merged : List String
  pub world : World Text

module _ {j : Json} (c : Core j) (o : Outside j.Text) (t : Transport j.Text) (now : ℕ) where
  open j use {Text}

  -- The attempt is recorded as it starts.
  unfoldable pub start : State → World Text → State × World Text
  start st w =
      let st' : State = record st {
        attempts = st.attempts + 1;
        state = "sending";
        reason = "";
        updated_utc = o.clock w.steps;
      } in
      (st', save_state c o st' w)

  -- offer.on_acked: nothing is written where the set did not grow.
  unfoldable pub on_acked : List String → List String → Sending Text → Sending Text
  unfolding merge
  on_acked known names s =
      let (merged, count) = merge known names (s.merged, s.world.acked_files) in
      if not (ltb (length s.merged) (length merged))
      then s
      else let w : World Text = record s.world { acked_files = count } in
        let st' : State = record s.st { acked = merged; updated_utc = o.clock w.steps } in
        record { st = st'; merged = merged; world = note_change c o (save_state c o st' w) }

  unfoldable pub on_all_acked : List String → List (List String) → Sending Text → Sending Text
  on_all_acked known [] s = s
  on_all_acked known (names ∷ rest) s = on_all_acked known rest (on_acked known names s)

  -- The receipt of a package that the service acknowledged whole.
  unfoldable pub receipt_of : String → Package → List (OfferFile Text) → Answer Text → Receipt
  receipt_of id p files ans = record {
    package_id = id;
    assignment_id = p.assignment_id;
    receipt_id = ans.receipt_id;
    acknowledged_utc = o.utc_text now;
    files = map (λ f. record { file = f.file; sha256 = f.sha256; bytes = f.bytes }) files;
    simulated = t.simulated;
  }

  -- The end of an attempt that did not deliver: the ladder, from its start after progress.
  unfoldable pub retry_later : State → Bool → Pass Text → Pass Text
  retry_later st progress p =
      let failures : ℕ = if progress then 1 else st.failures + 1 in
      let next : ℕ = now + backoff_seconds failures in
      record {
        world = save_state c o (record st { failures = failures; next_attempt_utc = next }) p.world;
        res = record p.res {
          pending = p.res.pending + 1;
          next_due_utc = note_due next p.res.next_due_utc;
        };
      }

  -- Signed out while the pass ran.
  unfoldable pub wait_signed_out : State → Pass Text → Pass Text
  wait_signed_out st p = record {
    world =
        save_state c o
          (record st { reason = reason_signed_out; last_error = ""; next_attempt_utc = 0 }) p.world;
    res = record p.res { pending = p.res.pending + 1; waiting_account = p.res.waiting_account + 1 };
  }

  -- After the receipt is written.
  unfoldable pub delivered : String → Package → Answer Text → Pass Text → Pass Text
  delivered id p ans s =
      let w : World Text = remove_state c o id s.world in
      let kept : Dict Text = elim ans.progress [
        | none ↦ w.progress
        | some doc ↦ c.store_progress w.steps w.progress p.assignment_id doc
      ] in
      record {
        world = note_change c o (record w { progress = kept });
        res = record s.res { delivered = s.res.delivered + 1 };
      }

  or_default : String → String → String
  or_default text other = if text == "" then other else text

  -- The error and the reason that an answer leaves, where it neither delivered nor waits.
  unfoldable pub error_of : Answer Text → Bool → State → State
  unfolding or_default
  error_of ans all_acked st = elim ans.kind [
    | answered ↦ record st {
      last_error =
          if not ans.complete
          then "partial acknowledgment"
          else if not all_acked
          then "the acknowledgment did not cover every file"
          else "the acknowledgment carried no receipt";
    }
    | unavailable ↦ record st { last_error = or_default ans.error "transport unavailable" }
    | failed ↦ record st {
      last_error = or_default ans.error "delivery failed";
      reason = if ans.refused then reason_refused else if ans.no_answer then reason_offline else "";
    }
  ]

  unfoldable pub is_answered : Answer Text → Bool
  is_answered ans = elim ans.kind [ answered ↦ true | _ ↦ false ]

  unfoldable pub is_unavailable : Answer Text → Bool
  is_unavailable ans = elim ans.kind [ unavailable ↦ true | _ ↦ false ]

  -- ans.kind == Answered && ans.complete && all_acked && !ans.receipt_id.empty()
  unfoldable pub is_whole : Answer Text → Bool → Bool
  unfolding is_answered
  is_whole ans all_acked =
      is_answered ans && (ans.complete && (all_acked && not (ans.receipt_id == "")))

  -- The receipt first, durably; a receipt that could not be written leaves the package for a retry.
  unfoldable pub try_deliver :
      String → Package → List (OfferFile Text) → Answer Text → State → Bool → Pass Text → Pass Text
  try_deliver id p files ans st progress s =
      let (written, box') = c.acknowledge s.world.steps s.world.box (receipt_of id p files ans) in
      let s' : Pass Text = record s {
        world = record s.world { box = box'; steps = suc s.world.steps };
      } in
      if written
      then delivered id p ans s'
      else retry_later (record st { last_error = "the receipt could not be written" }) progress s'

  -- After the answer.
  unfoldable pub settle :
      String
      → Package
      → List (OfferFile Text)
      → Answer Text
      → State
      → Bool
      → Bool
      → Pass Text
      → Pass Text
  unfolding is_unavailable
  settle id p files ans st progress all_acked s =
      if is_whole ans all_acked
      then try_deliver id p files ans st progress s
      else if is_unavailable ans && ans.signed_out
      then wait_signed_out st s
      else retry_later (error_of ans all_acked st) progress s
