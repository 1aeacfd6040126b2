-- ===== src/Evidence/Pass/Counts.antt =====
-- What a pass counts.
use virule_client.Prelude.{ℕ, ◌+◌, String, ◌≡◌, ◌⊎◌, List, [], ◌∷◌, Option, Bool, true, false, ◌==◌}
use virule_client.Evidence.Json.{Json}
use virule_client.Evidence.Core.{Core, Box, Receipt}
use virule_client.Evidence.Answer.{Answer, Transport}
use virule_client.Evidence.Outbox.{verify_package}
use virule_client.Evidence.World.{World, Outside, load_state}
use virule_client.Evidence.Attempt.{PassResult, Pass, delivered}
use virule_client.Evidence.Attempt.Box.{has_receipt}
use virule_client.Evidence.Pass.{OwnerFn}

-- The counters of delivered, cleaned, pending and damaged packages, each raised by so much.
abbrev pub Raises : PassResult → PassResult → ℕ → ℕ → ℕ → ℕ → Type 0
Raises r r' d k p m =
    (r'.delivered ≡ r.delivered + d)
    × (r'.cleaned ≡ r.cleaned + k)
    × (r'.pending ≡ r.pending + p)
    × (r'.damaged ≡ r.damaged + m)

module _ {j : Json} (c : Core j) (o : Outside j.Text) where
  open j use {Text}

  -- A receipt of the package was written, or none was.
  abbrev pub IsWritten : String → Box Text → Box Text → Type 0
  IsWritten id b b' =
      (n : ℕ) × (r : Receipt) × (r.package_id ≡ id)
      × ((c.acknowledge n b r).0 ≡ true)
      × (b' ≡ (c.acknowledge n b r).1)

  abbrev pub IsUnwritten : String → Box Text → Box Text → Type 0
  IsUnwritten id b b' =
      (b' ≡ b)
      ⊎ ((n : ℕ) × (r : Receipt) × (r.package_id ≡ id)
          × ((c.acknowledge n b r).0 ≡ false)
          × (b' ≡ (c.acknowledge n b r).1))

  -- A delivery from one result to the next: delivered with a receipt, or pending without.
  abbrev IsSettled : String → Box Text → PassResult → Pass Text → Type 0
  IsSettled id b res r =
      (IsWritten id b r.world.box × Raises res r.res 1 0 0 0)
      ⊎ (IsUnwritten id b r.world.box × Raises res r.res 0 0 1 0)

  -- Which one of the four counters a visit raises, and why.
  abbrev pub IsCounted : String → Pass Text → Pass Text → Type 0
  IsCounted id s r =
      ((has_receipt c s.world id ≡ true) × Raises s.res r.res 0 1 0 0)
      ⊎ (((((verify_package c s.world.outbox id).damage == "") ≡ false)
            ⊎ ((load_state c o s.world id).damaged ≡ true))
          × Raises s.res r.res 0 0 0 1)
      ⊎ ((((verify_package c s.world.outbox id).damage == "") ≡ true)
          × IsWritten id s.world.box r.world.box
          × Raises s.res r.res 1 0 0 0)
      ⊎ (((((verify_package c s.world.outbox id).damage == "") ≡ true)
            ⊎ ((load_state c o s.world id).damaged ≡ false))
          × IsUnwritten id s.world.box r.world.box
          × Raises s.res r.res 0 0 1 0)

  -- The visits of packages in turn, each of them counted.
  abbrev pub AreCounted : List String → Pass Text → Pass Text → Type 0
  AreCounted [] s r = r ≡ s
  AreCounted (id ∷ ids) s r = (m : Pass Text) × IsCounted id s m × AreCounted ids m r

module _ {j : Json} (c : Core j) (o : Outside j.Text) (t : Transport j.Text)
    (owner : Option OwnerFn) (force : Bool) (now : ℕ) where
  open j use {Text}

  abbrev OnePending : PassResult → PassResult → Type 0
  OnePending r r' = Raises r r' 0 0 1 0
