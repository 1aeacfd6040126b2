-- ===== src/Evidence/Requests/Run/Safety.antt =====
-- What a pass over the requests keeps of them and of their receipts.
use virule_client.Prelude.{
  ℕ, String, ◌≡◌, refl, ◌⊎◌, inl, inr, List, [], ◌∷◌, Option, none, some, Bool, true, false, arith,
  ◌&&◌, not, ◌==◌, eq_iff, Bool-cases, if_branches, if◌then◌else◌, Dict, lookup, put, without,
  lookup-put, lookup-without,
}
use virule_client.Evidence.Json.{Json}
use virule_client.Evidence.Core.{Core}
use virule_client.Evidence.Answer.{Transport, ServiceReply}
use virule_client.Evidence.World.{
  World, Outside, Kind, early, report, at_kind, same_kind, note_change,
}
use virule_client.Evidence.Pass.{OwnerFn}
use virule_client.Evidence.Requests.{RequestState, RequestCore}
use virule_client.Evidence.Requests.Visit.{
  Requests, save_request, remove_request, remove_request_state, schedule, recorded, refuse,
  settle_reply, keep_progress, post, hold_report, send, acknowledge_request,
}
use virule_client.Evidence.Requests.Run.{
  wait_account, visit_request, visit_requests, run_requests, items_of, no_requests,
}
use virule_client.Evidence.Requests.Run.Cases.{
  try_cases, request_cases, settle_cases, post_cases, send_cases,
}

module _ {Text : Type 0} where
  unfoldable pub stored : Dict Text → String → Bool
  stored d a = elim (lookup a d) [ none ↦ false | some _ ↦ true ]

  pub stored-put :
      (k k' : Kind) (a a' : String) (v : Text) (f : Kind → Dict Text)
      → stored (at_kind k (put a v (f k)) f k') a'
        ≡ (if same_kind k k' && (a == a') then true else stored (f k') a')
  unfolding stored
  stored-put early early a a' v f = ground (arith, lookup-put a a' v (f early))
  stored-put early report a a' v f = refl
  stored-put report early a a' v f = refl
  stored-put report report a a' v f = ground (arith, lookup-put a a' v (f report))

  pub stored-without :
      (k k' : Kind) (a a' : String) (f : Kind → Dict Text)
      → stored (at_kind k (without a (f k)) f k') a'
        ≡ (if same_kind k k' && (a == a') then false else stored (f k') a')
  unfolding stored
  stored-without early early a a' f = ground (arith, lookup-without a a' (f early))
  stored-without early report a a' f = refl
  stored-without report early a a' f = refl
  stored-without report report a a' f = ground (arith, lookup-without a a' (f report))

  stored_same :
      (k k' : Kind) (a a' : String) (f : Kind → Dict Text)
      → (same_kind k k' && (a == a')) ≡ true
      → stored (f k) a ≡ stored (f k') a'
  stored_same early early a a' f h = ground (arith, eq_iff a a')
  stored_same early report a a' f h = ground arith
  stored_same report early a a' f h = ground arith
  stored_same report report a a' f h = ground (arith, eq_iff a a')

  -- No request is lost and no receipt is: a request is still in the folder, or it has a receipt.
  pub record KeepsRequests (w w' : World Text) : Type 0 where
    pub kept :
        (k : Kind) (a : String)
        → stored (w.requests k) a ≡ true
        → (stored (w'.requests k) a ≡ true) ⊎ (stored (w'.request_receipts k) a ≡ true)
    pub receipted :
        (k : Kind) (a : String)
        → stored (w.request_receipts k) a ≡ true
        → stored (w'.request_receipts k) a ≡ true

  pub KeepsRequests-trans :
      {u v w : World Text} → KeepsRequests u v → KeepsRequests v w → KeepsRequests u w
  KeepsRequests-trans {u} {v} {w} h k = record {
    kept = λ d a e. ground (arith, h.kept d a e, k.kept d a, k.receipted d a);
    receipted = λ d a e. k.receipted d a (h.receipted d a e);
  }

  pub KeepsRequests-of_same :
      (w w' : World Text)
      → w'.requests ≡ w.requests
      → w'.request_receipts ≡ w.request_receipts
      → KeepsRequests w w'
  KeepsRequests-of_same w w' e f = record {
    kept = λ k a h. inl (rw (e, h) refl);
    receipted = λ k a h. rw (f, h) refl;
  }

module _ {j : Json} (c : Core j) (r : RequestCore j) (o : Outside j.Text) (t : Transport j.Text)
    (owner : Option OwnerFn) (force : Bool) (now : ℕ) where
  open j use {Text}

  -- The requests of a result, kept.
  abbrev Keeps : Requests Text → Requests Text → Type 0
  Keeps s s' = KeepsRequests s.world s'.world

  Keeps-same : (s : Requests Text) → Keeps s s
  Keeps-same s = KeepsRequests-of_same s.world s.world refl refl

  -- Under a receipt, the request can go.
  remove_request-Keeps :
      (k : Kind) (a : String) (w : World Text)
      → stored (w.request_receipts k) a ≡ true
      → KeepsRequests w (remove_request c r o t owner force now k a w)
  unfolding remove_request
  remove_request-Keeps k a w h = record {
    kept = λ k' a' e.
        ground
          (arith, stored-without k k' a a' w.requests, stored_same k k' a a' w.request_receipts);
    receipted = λ k' a' e. e;
  }

  acknowledge_request-Keeps :
      (k : Kind) (a : String) (doc : Text) (s : Requests Text)
      → Keeps s (acknowledge_request c r o t owner force now k a doc s)
  unfolding acknowledge_request remove_request remove_request_state note_change
  acknowledge_request-Keeps k a doc s = record {
    kept = λ k' a' e. ground (
      arith,
      stored-without k k' a a' s.world.requests,
      stored-put k k' a a' doc s.world.request_receipts,
    );
    receipted = λ k' a' e. ground (arith, stored-put k k' a a' doc s.world.request_receipts);
  }

  schedule-Keeps :
      (k : Kind) (a : String) (st : RequestState) (s : Requests Text)
      → Keeps s (schedule c r o t owner force now k a st s)
  unfolding schedule save_request
  schedule-Keeps k a st s = KeepsRequests-of_same _ _ refl refl

  recorded-Keeps :
      (k : Kind) (a : String) (st : RequestState) (doc : Option Text) (s : Requests Text)
      → Keeps s (recorded c r o t owner force now k a st doc s)
  unfolding recorded
  recorded-Keeps k a st none s = schedule-Keeps k a _ s
  recorded-Keeps k a st (some doc) s = elim (Bool-cases (c.writes s.world.steps)) [
    | inl e ↦ rw (e, recorded) (acknowledge_request-Keeps k a doc s)
    | inr e ↦
        rw (e, recorded)
          (KeepsRequests-trans (KeepsRequests-of_same _ _ refl refl) (schedule-Keeps k a _ _))
  ]

  refuse-Keeps :
      (k : Kind) (a : String) (st : RequestState) (s : Requests Text)
      → Keeps s (refuse c r o t owner force now k a st s)
  unfolding refuse save_request note_change
  refuse-Keeps k a st s = KeepsRequests-of_same _ _ refl refl

  settle_reply-Keeps :
      (k : Kind) (a id : String) (st : RequestState) (reply : ServiceReply Text) (s : Requests Text)
      → Keeps s (settle_reply c r o t owner force now k a id st reply s)
  settle_reply-Keeps k a id st reply s =
      settle_cases c r o t owner force now k a id st reply s (Keeps s)
        (λ _. recorded-Keeps k a st _ s) (λ st'. schedule-Keeps k a st' s)
        (λ st'. refuse-Keeps k a st' s)

  keep_progress-requests :
      (a : String) (reply : ServiceReply Text) (w : World Text)
      → KeepsRequests w (keep_progress c r o t owner force now a reply w)
  unfolding keep_progress
  keep_progress-requests a reply w = KeepsRequests-of_same _ _ (ground arith) (ground arith)

  post-Keeps :
      (k : Kind) (a id : String) (body : Text) (st : RequestState) (s : Requests Text)
      → Keeps s (post c r o t owner force now k a id body st s)
  post-Keeps k a id body st s =
      post_cases c r o t owner force now k a id body st s (Keeps s)
        (λ st'. schedule-Keeps k a st' s)
        (λ reply st' e.
          KeepsRequests-trans (keep_progress-requests a reply s.world)
            (settle_reply-Keeps k a id st' reply _))

  send-Keeps :
      (k : Kind) (a id : String) (text : Text) (st : RequestState) (s : Requests Text)
      → Keeps s (send c r o t owner force now k a id text st s)
  unfolding hold_report save_request
  send-Keeps k a id text st s =
      send_cases c r o t owner force now k a id text st s (Keeps s)
        (λ why. KeepsRequests-of_same _ _ refl refl) (λ body. post-Keeps k a id body st s)

  visit_request-Keeps :
      (k : Kind) (a : String) (s : Requests Text)
      → Keeps s (visit_request c r o t owner force now k a s)
  unfolding wait_account stored
  visit_request-Keeps k a s =
      request_cases c r o t owner force now k a s (Keeps s) (Keeps-same s)
        (λ doc e. remove_request-Keeps k a s.world (rw (e, stored) refl))
        (λ id e n.
          try_cases c r o t owner force now k a s (Keeps s) id _ (λ _. Keeps-same s)
            (λ _. Keeps-same s) (Keeps-same s) (λ _ _ _. send-Keeps k a id _ _ s))

  visit_requests-Keeps :
      (items : List (Kind × String)) (s : Requests Text)
      → Keeps s (visit_requests c r o t owner force now items s)
  unfolding visit_requests
  visit_requests-Keeps [] s = Keeps-same s
  visit_requests-Keeps ((k, a) ∷ items) s =
      KeepsRequests-trans (visit_request-Keeps k a s) (visit_requests-Keeps items _)

  -- A pass over the requests, whatever the file system and the service answer, keeps every request
  -- in its folder unless it has a receipt, and loses no receipt.
  pub run_requests-KeepsRequests :
      (w : World Text) → KeepsRequests w (run_requests c r o t owner force now w).world
  unfolding run_requests
  run_requests-KeepsRequests w =
      if_branches (λ (s : Requests Text). KeepsRequests w s.world) (not o.rooted)
        (λ _. KeepsRequests-of_same w w refl refl)
        (λ _.
          visit_requests-Keeps (items_of c r o t owner force now w)
            (record { world = w; res = no_requests }))
