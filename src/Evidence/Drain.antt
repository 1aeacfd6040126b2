-- ===== src/Evidence/Drain.antt =====
-- The uninstall's wait for undelivered evidence, drain_owned_outbox of
-- src/shared/evidence_queue.hpp. The log lines are not modelled.
pub mod Ends
pub mod Owned
pub mod Since
use virule_client.Prelude.{
  ℕ, zero, suc, ◌+◌, ◌-◌, ◌%◌, ◌^◌, String, List, [], ◌∷◌, Option, none, some, Bool, true, false,
  not, ◌&&◌, ◌||◌, ltb, leb, eqb, if◌then◌else◌, length, lookup,
}
use virule_client.Evidence.Json.{Json}
use virule_client.Evidence.Core.{Core, Package, Entry}
use virule_client.Evidence.Outbox.{outbox_ids}
use virule_client.Evidence.World.{World, Outside, load_state}
use virule_client.Evidence.Pass.{Owner, OwnerFn, mine, signed_out, other_account, unknown}

pub data DrainEnd : Type 0 where
  nothing_owned stalled all_delivered : DrainEnd

-- kUninstallStallMs, and the default `rewake_ms`
abbrev pub uninstall_stall_ms : ℕ
uninstall_stall_ms = 60000

abbrev pub default_rewake_ms : ℕ
default_rewake_ms = 10000

-- Subtraction of std::uint64_t.
abbrev pub minus_u64 : ℕ → ℕ → ℕ
minus_u64 a b = (a % 2 ^ 64 + (2 ^ 64 - b % 2 ^ 64)) % 2 ^ 64

abbrev pub is_foreign_owner : Owner → Bool
is_foreign_owner signed_out = true
is_foreign_owner other_account = true
is_foreign_owner _ = false

-- What one look at the evidence root tells.
pub record Look : Type 0 where
  pub pending : List String
  pub acked : ℕ
  pub counter : ℕ
  pub tick : ℕ

-- The variables of the wait. `wakes` counts the calls of `wake`.
pub record Watch : Type 0 where
  pub pending : List String
  pub acked : ℕ
  pub counter : ℕ
  pub last_progress : ℕ
  pub last_wake : ℕ
  pub wakes : ℕ

-- The owner is asked once for each package of a look, each time anew.
module _ {j : Json} (c : Core j) (o : Outside j.Text) (owner : Option (String → OwnerFn))
    (read_outbox_package : List (Entry j.Text) → String → Option Package) where
  open j use {Text}

  -- The account that would deliver the package is the evaluator's, or it is not decidable now.
  owner_waited_for : ℕ → String → Package → Bool
  owner_waited_for n id p = elim owner [
    | none ↦ true
    | some f ↦ not (is_foreign_owner (f id n p.assignment_id p.evaluator_id))
  ]

  -- The wait is for the package: no receipt, not damaged, readable, and not another account's.
  unfoldable pub is_waited_for : ℕ → World Text → String → Bool
  unfolding owner_waited_for
  is_waited_for n w id = elim (lookup id w.receipts) [
    | some _ ↦ false
    | none ↦ not (load_state c o w id).damaged && elim (read_outbox_package w.outbox id) [
      | none ↦ false
      | some p ↦ owner_waited_for n id p
    ]
  ]

  -- The loop over the outbox, with the sum of the acknowledged files.
  unfoldable pub pending_of : ℕ → World Text → List String → List String × ℕ
  pending_of n w [] = ([], 0)
  pending_of n w (id ∷ ids) =
      let (rest, total) = pending_of n w ids in
      if is_waited_for n w id
      then (id ∷ rest, (length (load_state c o w id).acked + total) % 2 ^ 64)
      else (rest, total)

  unfoldable pub owned_pending : ℕ → World Text → List String × ℕ
  owned_pending n w = pending_of n w (outbox_ids c.is_hex32 w.outbox)

  unfoldable pub look_at : ℕ → World Text → ℕ → Look
  look_at n w tick = record {
    pending = (owned_pending n w).0;
    acked = (owned_pending n w).1;
    counter = w.acked_files;
    tick = tick;
  }

-- Something was delivered or acknowledged since the last look.
unfoldable pub has_moved : Look → Watch → Bool
has_moved l s =
    ltb (length l.pending) (length s.pending)
    || (ltb s.acked l.acked || not (eqb l.counter s.counter))

-- The variables after a look.
unfoldable pub noted : Look → Watch → Watch
noted l s = record s {
  pending = l.pending;
  acked = l.acked;
  counter = l.counter;
  last_progress = if has_moved l s then l.tick else s.last_progress;
  last_wake = if has_moved l s then l.tick else s.last_wake;
}

module _ (stall_ms rewake_ms : ℕ) where
  -- A forced pass again while nothing moves.
  unfoldable pub rewake : ℕ → Watch → Watch
  rewake t s =
      if leb rewake_ms (minus_u64 t s.last_wake)
      then record s { last_wake = t; wakes = suc s.wakes }
      else s

  unfoldable pub has_stalled : ℕ → Watch → Bool
  has_stalled t s = leb stall_ms (minus_u64 t s.last_progress)

  -- The loop: what the look of each poll gives, for `fuel` polls from the n-th on. None: it waits still.
  unfoldable pub wait_on : ℕ → (ℕ → Look) → ℕ → Watch → Option (DrainEnd × Watch)
  wait_on zero look n s = none
  wait_on (suc fuel) look n s =
      let l : Look = look n in
      let s' : Watch = noted l s in
      let rest = wait_on fuel look (suc n) (rewake l.tick s') in
      if eqb (length l.pending) 0
      then some (all_delivered, s)
      else if has_stalled l.tick s'
      then some (stalled, s')
      else rest

  -- Whole: nothing owned, or a forced pass and the loop. `begun` is the tick when the wait begins.
  unfoldable pub drain_owned_outbox : ℕ → (ℕ → Look) → Option (DrainEnd × Watch)
  drain_owned_outbox fuel look =
      let l : Look = look 0 in
      let s : Watch = record {
        pending = l.pending;
        acked = l.acked;
        counter = l.counter;
        last_progress = l.tick;
        last_wake = l.tick;
        wakes = 1;
      } in
      if eqb (length l.pending) 0
      then some (nothing_owned, record s { wakes = 0 })
      else wait_on fuel look 1 s
