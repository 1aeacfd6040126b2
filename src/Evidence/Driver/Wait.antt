-- ===== src/Evidence/Driver/Wait.antt =====
-- How long the evidence thread waits.
use virule_client.Prelude.{ℕ, ◌+◌, ◌≤◌, ◌<◌, ◌≡◌, refl, Option, some, Bool, false, arith, ◌||◌}
use virule_client.Evidence.Json.{Json}
use virule_client.Evidence.Core.{Core}
use virule_client.Evidence.Answer.{Transport}
use virule_client.Evidence.World.{Outside}
use virule_client.Evidence.Attempt.{PassResult}
use virule_client.Evidence.Pass.{OwnerFn, run_pass}
use virule_client.Evidence.Pass.Due.{HasTime, run_pass-HasTime}
use virule_client.Evidence.Requests.{RequestCore, RequestResult}
use virule_client.Evidence.Requests.Run.{run_requests}
use virule_client.Evidence.Requests.Run.Counts.{IsDue, run_requests-accounted}
use virule_client.Evidence.Driver.{
  due_of, wait_ms, passes, turn, Driver, account_wait_poll_ms, poll_without_wake_ms,
}

-- Something that stays here to be delivered.
abbrev pub is_owed : PassResult → RequestResult → ℕ
is_owed r q = r.pending + r.damaged + q.pending

wait_ms_pos :
    (t : ℕ) (ready wake : Bool) (r : PassResult) (q : RequestResult)
    → 1000 ≤ wait_ms t ready wake r q
unfolding wait_ms
wait_ms_pos t ready wake r q = ground arith

-- A wait with something owed is at most half an hour.
wait_ms_bound :
    (t : ℕ) (ready wake : Bool) (r : PassResult) (q : RequestResult)
    → HasTime r
    → IsDue t q
    → 0 < is_owed r q
    → wait_ms t ready wake r q ≤ 1800000
unfolding wait_ms due_of
wait_ms_bound t ready wake r q h k e = ground (arith, h, k, e)

wait_ms_account :
    (t : ℕ) (ready wake : Bool) (r : PassResult) (q : RequestResult)
    → 0 < r.waiting_account + q.waiting_account
    → wait_ms t ready wake r q ≤ account_wait_poll_ms
unfolding wait_ms
wait_ms_account t ready wake r q e = ground (arith, e)

wait_ms_polls :
    (t : ℕ) (ready : Bool) (r : PassResult) (q : RequestResult)
    → wait_ms t ready false r q ≤ poll_without_wake_ms
unfolding wait_ms
wait_ms_polls t ready r q = ground arith

-- What a turn's results ask of its wait.
pub record WaitsFor (wake : Bool) (r : PassResult) (q : RequestResult) (wait : ℕ) : Type 0 where
  pub never_spins : 1000 ≤ wait
  pub owed : 0 < is_owed r q → wait ≤ 1800000
  pub account : 0 < r.waiting_account + q.waiting_account → wait ≤ account_wait_poll_ms
  pub polls : wake ≡ false → wait ≤ poll_without_wake_ms

module _ {j : Json} (c : Core j) (r : RequestCore j) (o : Outside j.Text) (t : Transport j.Text)
    (owner : Option OwnerFn) where
  open j use {Text}

  -- A turn that is not paused runs the pass over the packages and then the pass over the requests in
  -- the world that the first leaves, both forced if that was asked for or is still owed; it tells the
  -- results of both, keeps the world that the second leaves, and owes no forced pass. It then waits at
  -- least a second; at most half an hour if a package or a request stays pending or damaged, at most five minutes if one of them
  -- waits for an account, and at most a minute if there is no wake event.
  pub turn-WaitsFor :
      (wake : Bool) (now : ℕ) (d : Driver Text)
      → let p = run_pass c o t owner (d.asked || d.force) now d.world in
        let q = run_requests c r o t owner (d.asked || d.force) now p.world in
        let u = turn c r o t owner false wake now d in
        (u.results ≡ some (p.res, q.res))
        × ((u.after.world ≡ q.world)
            × (((u.after.asked ≡ false) × (u.after.force ≡ false))
                × WaitsFor wake p.res q.res u.wait))
  unfolding turn passes
  turn-WaitsFor wake now d =
      let force : Bool = d.asked || d.force in
      let s = run_pass c o t owner force now d.world in
      let v = run_requests c r o t owner force now s.world in
      let ready : Bool = t.ready v.world.steps in
      (
        refl,
        (
          refl,
          (
            (refl, refl),
            record {
              never_spins = wait_ms_pos now ready wake s.res v.res;
              owed =
                  wait_ms_bound now ready wake s.res v.res
                    (run_pass-HasTime c o t owner force now d.world)
                    (run_requests-accounted c r o t owner force now s.world).1.1;
              account = wait_ms_account now ready wake s.res v.res;
              polls = λ e. rw e (wait_ms_polls now ready s.res v.res);
            },
          ),
        ),
      )
