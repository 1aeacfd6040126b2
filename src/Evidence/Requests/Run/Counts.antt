-- ===== src/Evidence/Requests/Run/Counts.antt =====
-- What a pass over the requests counts, and when it wants to be called again.
use virule_client.Prelude.{
  ℕ, suc, ◌+◌, ◌≤◌, ◌<◌, String, ◌≡◌, refl, ◌⊎◌, inl, List, [], ◌∷◌, Option, none, some, Bool, true,
  not, arith, if_branches, length,
}
use virule_client.Evidence.Ladder.{backoff_bounds}
use virule_client.Evidence.Json.{Json}
use virule_client.Evidence.Core.{Core}
use virule_client.Evidence.Answer.{Transport, ServiceReply}
use virule_client.Evidence.World.{World, Outside, Kind}
use virule_client.Evidence.Attempt.{note_due}
use virule_client.Evidence.Pass.{OwnerFn}
use virule_client.Evidence.Requests.{RequestState, RequestResult, RequestCore}
use virule_client.Evidence.Requests.Visit.{
  Requests, hold, schedule, recorded, refuse, settle_reply, post, hold_report, send,
  acknowledge_request,
}
use virule_client.Evidence.Requests.Run.{
  wait_account, is_waiting, visit_request, visit_requests, run_requests, items_of, no_requests,
}
use virule_client.Evidence.Requests.Run.Cases.{
  try_cases, request_cases, settle_cases, post_cases, send_cases, refused_before,
}

abbrev pub tally : RequestResult → ℕ
tally res = res.acknowledged + res.refused + res.pending

-- Requests wait for an account only, and no time is named; or another is pending, and the time is
-- within half an hour.
abbrev pub IsDue : ℕ → RequestResult → Type 0
IsDue now res =
    ((res.pending ≡ res.waiting_account) × (res.next_due_utc ≡ 0))
    ⊎ ((res.waiting_account < res.pending)
        × ((now < res.next_due_utc) × (res.next_due_utc ≤ now + 1800)))

-- From one result to a later one, `n` requests on.
pub record Counted (now n : ℕ) (before after : RequestResult) : Type 0 where
  pub once : tally after ≤ tally before + n
  pub heard : length before.heard ≡ before.acknowledged → length after.heard ≡ after.acknowledged
  pub due : IsDue now before → IsDue now after

Counted-suc :
    {now n : ℕ} {a b d : RequestResult}
    → Counted now 1 a b
    → Counted now n b d
    → Counted now (suc n) a d
Counted-suc h k = record {
  once = omega (arith, h.once, k.once);
  heard = λ e. k.heard (h.heard e);
  due = λ e. k.due (h.due e);
}

Counted-zero : {now n : ℕ} (a : RequestResult) → Counted now n a a
Counted-zero a = record { once = omega arith; heard = λ e. e; due = λ e. e }

module _ {j : Json} (c : Core j) (r : RequestCore j) (o : Outside j.Text) (t : Transport j.Text)
    (owner : Option OwnerFn) (force : Bool) (now : ℕ) where
  open j use {Text}

  abbrev Once : Requests Text → Requests Text → Type 0
  Once s s' = Counted now 1 s.res s'.res

  hold-Counted :
      (next : ℕ) (res : RequestResult)
      → now < next
      → next ≤ now + 1800
      → Counted now 1 res (hold c r o t owner force now next res)
  unfolding hold note_due
  hold-Counted next res h k = record {
    once = omega arith;
    heard = λ e. e;
    due = λ e. ground (arith, e);
  }

  schedule-Counted :
      (k : Kind) (a : String) (st : RequestState) (s : Requests Text)
      → Once s (schedule c r o t owner force now k a st s)
  unfolding schedule
  schedule-Counted k a st s =
      hold-Counted _ s.res (omega (arith, backoff_bounds (st.failures + 1)))
        (omega (arith, backoff_bounds (st.failures + 1)))

  acknowledge_request-Counted :
      (k : Kind) (a : String) (doc : Text) (s : Requests Text)
      → Once s (acknowledge_request c r o t owner force now k a doc s)
  unfolding acknowledge_request
  acknowledge_request-Counted k a doc s = record {
    once = omega arith;
    heard = λ e. omega (arith, e);
    due = λ e. e;
  }

  recorded-Counted :
      (k : Kind) (a : String) (st : RequestState) (doc : Option Text) (s : Requests Text)
      → Once s (recorded c r o t owner force now k a st doc s)
  unfolding recorded
  recorded-Counted k a st none s = schedule-Counted k a _ s
  recorded-Counted k a st (some doc) s =
      if_branches (Once s) (c.writes s.world.steps) (λ _. acknowledge_request-Counted k a doc s)
        (λ _. schedule-Counted k a _ _)

  refuse-Counted :
      (k : Kind) (a : String) (st : RequestState) (s : Requests Text)
      → Once s (refuse c r o t owner force now k a st s)
  unfolding refuse
  refuse-Counted k a st s = record { once = omega arith; heard = λ e. e; due = λ e. e }

  settle_reply-Counted :
      (k : Kind) (a id : String) (st : RequestState) (reply : ServiceReply Text) (s : Requests Text)
      → Once s (settle_reply c r o t owner force now k a id st reply s)
  settle_reply-Counted k a id st reply s =
      settle_cases c r o t owner force now k a id st reply s (Once s)
        (λ _. recorded-Counted k a st _ s) (λ st'. schedule-Counted k a st' s)
        (λ st'. refuse-Counted k a st' s)

  post-Counted :
      (k : Kind) (a id : String) (body : Text) (st : RequestState) (s : Requests Text)
      → Once s (post c r o t owner force now k a id body st s)
  post-Counted k a id body st s =
      post_cases c r o t owner force now k a id body st s (Once s)
        (λ st'. schedule-Counted k a st' s) (λ reply st' e. settle_reply-Counted k a id st' reply _)

  send-Counted :
      (k : Kind) (a id : String) (text : Text) (st : RequestState) (s : Requests Text)
      → Once s (send c r o t owner force now k a id text st s)
  unfolding hold_report
  send-Counted k a id text st s =
      send_cases c r o t owner force now k a id text st s (Once s)
        (λ why. hold-Counted (now + 30) s.res (omega arith) (omega arith))
        (λ body. post-Counted k a id body st s)

  refused_before-Counted : (s : Requests Text) → Once s (refused_before c r o t owner force now s)
  refused_before-Counted s = record { once = omega arith; heard = λ e. e; due = λ e. e }

  wait_account-Counted : (s : Requests Text) → Once s (wait_account c r o t owner force now s)
  unfolding wait_account
  wait_account-Counted s = record {
    once = omega arith;
    heard = λ e. e;
    due = λ e. ground (arith, e);
  }

  later-Counted :
      (st : RequestState) (s : Requests Text)
      → is_waiting c r o t owner force now st ≡ true
      → Counted now 1 s.res (hold c r o t owner force now st.next_attempt_utc s.res)
  unfolding is_waiting
  later-Counted st s h = hold-Counted st.next_attempt_utc s.res (ground arith) (ground arith)

  visit_request-Counted :
      (k : Kind) (a : String) (s : Requests Text)
      → Once s (visit_request c r o t owner force now k a s)
  visit_request-Counted k a s =
      request_cases c r o t owner force now k a s (Once s) (Counted-zero s.res)
        (λ doc e. Counted-zero s.res)
        (λ id e n.
          try_cases c r o t owner force now k a s (Once s) id _ (λ _. refused_before-Counted s)
            (later-Counted _ s) (wait_account-Counted s) (λ _ _ _. send-Counted k a id _ _ s))

  visit_requests-Counted :
      (items : List (Kind × String)) (s : Requests Text)
      → Counted now (length items) s.res (visit_requests c r o t owner force now items s).res
  unfolding visit_requests
  visit_requests-Counted [] s = Counted-zero s.res
  visit_requests-Counted ((k, a) ∷ items) s =
      Counted-suc (visit_request-Counted k a s)
        (visit_requests-Counted items (visit_request c r o t owner force now k a s))

  run_requests-Counted :
      (w : World Text)
      → Counted now
          (length (items_of c r o t owner force now w))
          no_requests
          (run_requests c r o t owner force now w).res
  unfolding run_requests
  run_requests-Counted w =
      if_branches
        (λ (s : Requests Text).
          Counted now (length (items_of c r o t owner force now w)) no_requests s.res)
        (not o.rooted) (λ _. Counted-zero no_requests)
        (λ _.
          visit_requests-Counted (items_of c r o t owner force now w)
            (record { world = w; res = no_requests }))

  -- A pass over the requests counts at most the requests of the folder as acknowledged, refused or
  -- pending, tells of as many acknowledgments as it counts, and names the
  -- time of the next pass: none where every pending request waits for an account, and otherwise a
  -- time after now and at most half an hour from it.
  pub run_requests-accounted :
      (w : World Text)
      → let res = (run_requests c r o t owner force now w).res in
        (tally res ≤ length (items_of c r o t owner force now w))
        × ((length res.heard ≡ res.acknowledged) × IsDue now res)
  run_requests-accounted w =
      let h = run_requests-Counted w in
      (omega (arith, h.once), (h.heard refl, h.due (inl (refl, refl))))
