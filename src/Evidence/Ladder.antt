-- ===== src/Evidence/Ladder.antt =====
-- The retry ladder of src/shared/evidence_queue.hpp, in seconds.
use virule_client.Prelude.{
  ℕ, ◌-◌, ◌≤◌, ◌<◌, List, [], ◌∷◌, none, some, arith, get_elem?, length, leb, if◌then◌else◌,
}

abbrev pub backoff_ladder : List ℕ
backoff_ladder = 10 ∷ 60 ∷ 300 ∷ 900 ∷ 1800 ∷ []

abbrev pub backoff_cap : ℕ
backoff_cap = 1800

-- kLadderSteps
abbrev pub ladder_steps : ℕ
ladder_steps = length backoff_ladder

abbrev at_most : ℕ → ℕ → ℕ
at_most a b = if leb a b then a else b

-- The index into the ladder; 0 stands for the early return.
unfoldable pub ladder_index : ℕ → ℕ
ladder_index failures = if leb failures 0 then 0 else at_most (failures - 1) (ladder_steps - 1)

-- A read past the end gives 0; `ladder_index-lt` shows that none is made.
unfoldable pub backoff_seconds : ℕ → ℕ
unfolding ladder_index
backoff_seconds failures = elim (get_elem? backoff_ladder (ladder_index failures)) [
  | none ↦ 0
  | some s ↦ s
]

ladder_index-lt : (failures : ℕ) → ladder_index failures < ladder_steps
unfolding ladder_index
ladder_index-lt failures = ground arith

pub backoff_bounds : (f : ℕ) → (10 ≤ backoff_seconds f) × (backoff_seconds f ≤ backoff_cap)
unfolding backoff_seconds
backoff_bounds f = ground arith

backoff_mono : (f g : ℕ) → f ≤ g → backoff_seconds f ≤ backoff_seconds g
unfolding backoff_seconds
backoff_mono f g h = ground arith

-- No read of the ladder is out of bounds; a wait is between ten seconds and half an hour, and more
-- failures never wait less.
pub backoff_seconds_lem :
    (f g : ℕ)
    → f ≤ g
    → (ladder_index f < ladder_steps)
      × ((10 ≤ backoff_seconds f)
          × ((backoff_seconds f ≤ backoff_seconds g) × (backoff_seconds g ≤ backoff_cap)))
backoff_seconds_lem f g h =
    (ladder_index-lt f, ((backoff_bounds f).0, (backoff_mono f g h, (backoff_bounds g).1)))
