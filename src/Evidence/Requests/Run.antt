-- ===== src/Evidence/Requests/Run.antt =====
-- run_requests of src/shared/evidence_queue.hpp: one request of the folder, and the loop over all
-- of them, the early completions before the reports.
pub mod Cases
pub mod Safety
pub mod Counts
pub mod Receipts
pub mod Held
use virule_client.Prelude.{
  ℕ, suc, ◌+◌, ◌-◌, String, List, [], ◌∷◌, ◌++◌, map, Option, none, some, Bool, true, false, not,
  ◌&&◌, ◌||◌, eqb, ltb, leb, ◌==◌, if◌then◌else◌, Dict, lookup, sort,
}
use virule_client.Evidence.Ladder.{backoff_cap}
use virule_client.Evidence.Json.{Json}
use virule_client.Evidence.Core.{Core}
use virule_client.Evidence.Answer.{Transport}
use virule_client.Evidence.World.{World, Outside, Kind, early, report}
use virule_client.Evidence.Pass.{Owner, OwnerFn, mine, signed_out, other_account, unknown}
use virule_client.Evidence.Requests.{
  RequestState, fresh_request, RequestResult, RequestCore, load_request_state, request_evaluator,
}
use virule_client.Evidence.Requests.Visit.{Requests, remove_request, request_id, hold, send}

abbrev pub no_requests : RequestResult
no_requests = record {
  acknowledged = 0;
  refused = 0;
  pending = 0;
  waiting_account = 0;
  next_due_utc = 0;
  heard = [];
}

module _ {j : Json} (c : Core j) (r : RequestCore j) (o : Outside j.Text) (t : Transport j.Text)
    (owner : Option OwnerFn) (force : Bool) (now : ℕ) where
  open j use {Text, empty}

  -- A request waits for its evaluator's account: no attempt and no ladder step.
  unfoldable pub wait_account : Requests Text → Requests Text
  wait_account s = record s {
    res = record s.res { pending = s.res.pending + 1; waiting_account = s.res.waiting_account + 1 };
  }

  -- Whose the request is: the transport first, then the owner that the pass was given.
  unfoldable pub request_owner : ℕ → String → Text → Owner
  request_owner n a text =
      if not (t.ready n)
      then signed_out
      else elim owner [ none ↦ mine | some f ↦ f n a (request_evaluator r c.is_hex32 a text) ]

  -- The delivery state of the request: of another request it counts as none.
  unfoldable pub state_of : Kind → String → String → World Text → RequestState
  state_of k a id w =
      let st : RequestState = load_request_state j (lookup a (w.request_delivery k)) in
      if st.id == id then st else fresh_request id

  unfoldable pub is_waiting : RequestState → Bool
  is_waiting st =
      not force && (ltb now st.next_attempt_utc && leb (st.next_attempt_utc - now) backoff_cap)

  -- A request without a receipt.
  unfoldable pub try_request :
      Kind → String → String → Text → RequestState → Requests Text → Requests Text
  try_request k a id text st s =
      if st.refused
      then record s { res = record s.res { refused = s.res.refused + 1 } }
      else if is_waiting st
      then record s { res = hold c r o t owner force now st.next_attempt_utc s.res }
      else elim (request_owner s.world.steps a text) [
        | signed_out ↦ wait_account s
        | other_account ↦ wait_account s
        | _ ↦ send c r o t owner force now k a id text st s
      ]

  unfoldable pub text_of : Kind → String → World Text → Text
  text_of k a w = elim (lookup a (w.requests k)) [ none ↦ empty | some text ↦ text ]

  unfoldable pub visit_request : Kind → String → Requests Text → Requests Text
  visit_request k a s =
      let text : Text = text_of k a s.world in
      elim (request_id c r o t owner force now k a text) [
        | none ↦ s
        | some id ↦ elim (lookup a (s.world.request_receipts k)) [
          | some _ ↦ record s { world = remove_request c r o t owner force now k a s.world }
          | none ↦ try_request k a id text (state_of k a id s.world) s
        ]
      ]

  unfoldable pub visit_requests : List (Kind × String) → Requests Text → Requests Text
  visit_requests [] s = s
  visit_requests ((k, a) ∷ items) s = visit_requests items (visit_request k a s)

  -- The names of a folder that name an assignment.
  unfoldable pub names_of : Dict Text → List String
  names_of [] = []
  names_of ((a, _) ∷ d) = let rest = names_of d in if c.is_hex32 a then a ∷ rest else rest

  unfoldable pub items_of : World Text → List (Kind × String)
  items_of w =
      map (λ a. (early, a)) (sort (names_of (w.requests early)))
      ++ map (λ a. (report, a)) (sort (names_of (w.requests report)))

  unfoldable pub run_requests : World Text → Requests Text
  run_requests w =
      let begun : Requests Text = record { world = w; res = no_requests } in
      if not o.rooted then begun else visit_requests (items_of w) begun
