-- ===== src/Evidence/Driver.antt =====
-- One turn of run_driver of src/shared/evidence_queue.hpp: the two passes, and how long the evidence
-- thread then waits. The event objects and the wait itself are the operating system's.
pub mod Wait
use virule_client.Prelude.{
  ℕ, suc, ◌+◌, ◌-◌, ◌*◌, ◌^◌, String, Option, none, some, Bool, true, false, not, ◌&&◌, ◌||◌, ltb,
  leb, eqb, if◌then◌else◌,
}
use virule_client.Evidence.Ladder.{backoff_cap}
use virule_client.Evidence.Json.{Json}
use virule_client.Evidence.Core.{Core}
use virule_client.Evidence.Answer.{Transport}
use virule_client.Evidence.World.{World, Outside}
use virule_client.Evidence.Attempt.{PassResult, Pass}
use virule_client.Evidence.Pass.{OwnerFn, run_pass}
use virule_client.Evidence.Requests.{RequestCore, RequestResult}
use virule_client.Evidence.Requests.Visit.{Requests}
use virule_client.Evidence.Requests.Run.{run_requests}

-- kPollWithoutWakeMs, kPausedPollMs, kAccountWaitPollMs, and INFINITE of Windows
abbrev pub poll_without_wake_ms : ℕ
poll_without_wake_ms = 60000

abbrev pub paused_poll_ms : ℕ
paused_poll_ms = 60000

abbrev pub account_wait_poll_ms : ℕ
account_wait_poll_ms = 5 * 60 * 1000

abbrev pub infinite : ℕ
infinite = 2 ^ 32 - 1

abbrev pub min_ms : ℕ → ℕ → ℕ
min_ms a b = if ltb b a then b else a

-- std::clamp(s, 1, kBackoffCap)
abbrev pub clamp_wait : ℕ → ℕ
clamp_wait s = if ltb s 1 then 1 else if ltb backoff_cap s then backoff_cap else s

-- The earlier of the two times; 0 is none.
unfoldable pub due_of : PassResult → RequestResult → ℕ
due_of r q =
    if ltb 0 q.next_due_utc && (eqb r.next_due_utc 0 || ltb q.next_due_utc r.next_due_utc)
    then q.next_due_utc
    else r.next_due_utc

unfoldable pub wait_ms : ℕ → Bool → Bool → PassResult → RequestResult → ℕ
wait_ms t ready wake r q =
    let due : ℕ = due_of r q in
    let a : ℕ = if ltb 0 due then clamp_wait (due - t) * 1000 else infinite in
    let b : ℕ = if ltb 0 q.pending && not ready then min_ms a poll_without_wake_ms else a in
    let d : ℕ =
      if ltb 0 r.waiting_account || ltb 0 q.waiting_account
      then min_ms b account_wait_poll_ms
      else b in
    if not wake then min_ms d poll_without_wake_ms else d

-- What the thread holds between two turns: `force`, and the flag that request_forced_pass sets.
pub record Driver (Text : Type 0) : Type 0 where
  pub world : World Text
  pub force : Bool
  pub asked : Bool

pub record Turn (Text : Type 0) : Type 0 where
  pub after : Driver Text
  pub wait : ℕ
  -- none: paused
  pub results : Option (PassResult × RequestResult)

module _ {j : Json} (c : Core j) (r : RequestCore j) (o : Outside j.Text) (t : Transport j.Text)
    (owner : Option OwnerFn) where
  open j use {Text}

  unfoldable pub passes : Bool → ℕ → Bool → World Text → Turn Text
  passes wake now force w =
      let p : Pass Text = run_pass c o t owner force now w in
      let q : Requests Text = run_requests c r o t owner force now p.world in
      record {
        after = record { world = q.world; force = false; asked = false };
        wait = wait_ms now (t.ready q.world.steps) wake p.res q.res;
        results = some (p.res, q.res);
      }

  -- While an uninstall pauses the delivery nothing runs, and a forced pass stays asked for.
  unfoldable pub turn : Bool → Bool → ℕ → Driver Text → Turn Text
  turn paused wake now d =
      if paused
      then record { after = d; wait = paused_poll_ms; results = none }
      else passes wake now (d.asked || d.force) d.world
