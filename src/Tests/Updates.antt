-- ===== src/Tests/Updates.antt =====
-- Three scheduled checks that fail for more than two days after a contact.
use virule_client.Prelude.{ℕ, ◌+◌, ◌≤◌, ◌<◌, ◌≡◌, refl, List, [], ◌∷◌, true, false, arith, All}
use virule_client.Update.Health.{
  Result, blocked, after, failures_since, record_result, note_result, blocked_lem,
}

abbrev failed_at : ℕ → Result
failed_at t = record { now = t; reached = false; scheduled = true }

abbrev requests_made : List Result
requests_made =
    failed_at 90000
    ∷ failed_at 50000
    ∷ failed_at 20000
    ∷ record { now = 1000; reached = true; scheduled = true }
    ∷ []

blocked_lem_example :
    (3 ≤ failures_since requests_made)
    × All (λ (e : Result). e.reached ≡ true → e.now + 172800 < 200000) requests_made
unfolding blocked after record_result note_result
blocked_lem_example =
    blocked_lem requests_made 200000 (omega arith, (omega arith, (omega arith, omega arith))) refl
