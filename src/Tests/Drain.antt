-- ===== src/Tests/Drain.antt =====
-- A wait that stalls, the packages that it is for, and a turn of the driver.
use virule_client.Prelude.{
  ℕ, ◌*◌, ◌≤◌, ◌≡◌, refl, String, List, [], ◌∷◌, Option, none, some, true, false, arith, contains,
}
use virule_client.Evidence.Core.{Package, Entry}
use virule_client.Evidence.Outbox.{outbox_ids}
use virule_client.Evidence.Pass.{run_pass}
use virule_client.Evidence.Requests.Run.{run_requests}
use virule_client.Evidence.Drain.{
  stalled, Look, Watch, has_moved, noted, rewake, has_stalled, wait_on, drain_owned_outbox,
  owned_pending,
}
use virule_client.Evidence.Drain.Ends.{IsQuiet, HasEnded, drain_owned_outbox-ends}
use virule_client.Evidence.Drain.Since.{Explains, drain_owned_outbox-Explains}
use virule_client.Evidence.Drain.Owned.{IsOwned, contains-owned_pending}
use virule_client.Evidence.Driver.{Driver, turn}
use virule_client.Evidence.Driver.Wait.{WaitsFor, turn-WaitsFor}
use virule_client.Tests.Sample.{Doc, core, hex32}
use virule_client.Tests.Passes.{id_one, package_one, world_one, outside}
use virule_client.Tests.Requests.{request_core, service, world_two}

-- A package that never moves, looked at each second.
abbrev still : ℕ → Look
still i = record { pending = id_one ∷ []; acked = 0; counter = 0; tick = 1000 * i }

still-IsQuiet : (i : ℕ) → 1 ≤ i → IsQuiet (still i) 1 0 0
still-IsQuiet i h = record { same_pending = refl; same_acked = refl; same_counter = refl }

drain_owned_outbox-ends_example : HasEnded 3000 1000 (drain_owned_outbox 3000 1000 3 still)
drain_owned_outbox-ends_example =
    drain_owned_outbox-ends 3000 1000 2 still still-IsQuiet (omega arith)

abbrev given_up : Watch
given_up = record {
  pending = id_one ∷ [];
  acked = 0;
  counter = 0;
  last_progress = 0;
  last_wake = 2000;
  wakes = 3;
}

drain_owned_outbox-Explains_example : Explains 3000 still (stalled, given_up)
unfolding drain_owned_outbox wait_on has_moved noted rewake has_stalled
drain_owned_outbox-Explains_example =
    drain_owned_outbox-Explains 3000 1000 still 3 (stalled, given_up) refl

abbrev head_of : List (Entry Doc) → String → Option Package
head_of es id = some package_one

contains-owned_pending_example :
    (contains (owned_pending core outside none head_of 0 world_one).0 id_one ≡ true
      → IsOwned core outside none head_of 0 world_one id_one)
    × (IsOwned core outside none head_of 0 world_one id_one
        → contains (owned_pending core outside none head_of 0 world_one).0 id_one ≡ true)
unfolding outbox_ids contains hex32
contains-owned_pending_example =
    contains-owned_pending core outside none head_of 0 world_one id_one refl

abbrev starting : Driver Doc
starting = record { world = world_two; force = true; asked = false }

turn-WaitsFor_example :
    let p = run_pass core outside service none true 100 world_two in
    let q = run_requests core request_core outside service none true 100 p.world in
    let u = turn core request_core outside service none false true 100 starting in
    (u.results ≡ some (p.res, q.res))
    × ((u.after.world ≡ q.world)
        × (((u.after.asked ≡ false) × (u.after.force ≡ false)) × WaitsFor true p.res q.res u.wait))
turn-WaitsFor_example = turn-WaitsFor core request_core outside service none true 100 starting
