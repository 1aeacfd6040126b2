-- ===== src/Update/Health.antt =====
-- Whether the update service is out of reach: src/shared/update_health.hpp. The text of
-- update_health.json is not modelled: the file holds a state, or none where it cannot be read.
use virule_client.Prelude.{
  ℕ, ◌+◌, ◌*◌, ◌≤◌, ◌<◌, ◌≡◌, List, [], ◌∷◌, Option, none, some, Bool, true, ◌&&◌, ◌||◌, arith, ltb,
  leb, eqb, if◌then◌else◌, All,
}

-- kBlockedAfterSeconds, kBlockedAfterAttempts
abbrev pub blocked_after_seconds : ℕ
blocked_after_seconds = 48 * 60 * 60

abbrev pub blocked_after_attempts : ℕ
blocked_after_attempts = 3

pub record Health : Type 0 where
  pub last_contact_utc : ℕ
  pub failed_attempts : ℕ

abbrev pub never_attempted : Health
never_attempted = record { last_contact_utc = 0; failed_attempts = 0 }

-- One finished request to the update service.
pub record Result : Type 0 where
  pub now : ℕ
  pub reached : Bool
  pub scheduled : Bool

unfoldable pub note_result : Result → Health → Health
note_result e s =
    if e.reached then record { last_contact_utc = e.now; failed_attempts = 0 } else record {
      last_contact_utc =
          if leb s.last_contact_utc 0 || ltb e.now s.last_contact_utc
          then e.now
          else s.last_contact_utc;
      failed_attempts =
          if e.scheduled && ltb s.failed_attempts 1000000
          then s.failed_attempts + 1
          else s.failed_attempts;
    }

unfoldable pub blocked : Health → ℕ → Bool
blocked s now =
    ltb 0 s.last_contact_utc
    && (leb blocked_after_attempts s.failed_attempts
        && ltb (s.last_contact_utc + blocked_after_seconds) now)

abbrev pub load : Option Health → Health
load file = elim file [ none ↦ never_attempted | some s ↦ s ]

abbrev is_same : Health → Health → Bool
is_same a b = eqb a.last_contact_utc b.last_contact_utc && eqb a.failed_attempts b.failed_attempts

-- record: a result that changes nothing is not written; a write that fails leaves the file.
unfoldable pub record_result : Bool → Result → Option Health → Option Health
record_result writes e file =
    let s : Health = note_result e (load file) in
    if is_same s (load file) then file else if writes then some s else file

-- The file after a sequence of results, the latest first, when every write is made.
unfoldable pub after : List Result → Option Health
after [] = none
after (e ∷ es) = record_result true e (after es)

-- The scheduled checks that failed since the last contact.
unfoldable pub failures_since : List Result → ℕ
failures_since [] = 0
failures_since (e ∷ es) =
    let n = failures_since es in if e.reached then 0 else if e.scheduled then n + 1 else n

-- The clock never goes back, and it has started.
abbrev pub IsForward : List Result → Type 0
IsForward [] = Unit
IsForward (e ∷ []) = 0 < e.now
IsForward (e ∷ f ∷ es) = (f.now ≤ e.now) × IsForward (f ∷ es)

-- Every contact is at or before the time.
abbrev pub Contacts : ℕ → List Result → Type 0
Contacts t es = All (λ (e : Result). e.reached ≡ true → e.now ≤ t) es

after_load :
    (e : Result) (es : List Result) → load (after (e ∷ es)) ≡ note_result e (load (after es))
unfolding after record_result
after_load e es = ground arith

failures_counted : (es : List Result) → (load (after es)).failed_attempts ≤ failures_since es
unfolding failures_since note_result after
failures_counted [] = omega arith
failures_counted (e ∷ es) = rw (after_load e es) (ground (arith, failures_counted es))

Contacts-mono : (t u : ℕ) (es : List Result) → t ≤ u → Contacts t es → Contacts u es
Contacts-mono t u [] h k = tt
Contacts-mono t u (e ∷ es) h k = ((λ r. omega (arith, h, k.0 r)), Contacts-mono t u es h k.1)

last_contact_le : (e : Result) (es : List Result) → (load (after (e ∷ es))).last_contact_utc ≤ e.now
unfolding note_result
last_contact_le e es = rw (after_load e es) (ground arith)

-- A later request never moves the last contact back.
last_contact_grows :
    (e : Result) (es : List Result)
    → (load (after es)).last_contact_utc ≤ e.now
    → (load (after es)).last_contact_utc ≤ (load (after (e ∷ es))).last_contact_utc
unfolding note_result
last_contact_grows e es h = rw (after_load e es) (ground (arith, h))

last_contact_reached :
    (e : Result) (es : List Result)
    → e.reached ≡ true
    → e.now ≤ (load (after (e ∷ es))).last_contact_utc
unfolding note_result
last_contact_reached e es h = rw (after_load e es) (ground (arith, h))

Contacts-load : (es : List Result) → IsForward es → Contacts (load (after es)).last_contact_utc es
Contacts-load [] h = tt
Contacts-load (e ∷ []) h = (last_contact_reached e [], tt)
Contacts-load (e ∷ f ∷ es) h = (
  last_contact_reached e (f ∷ es),
  Contacts-mono _ _ (f ∷ es)
      (last_contact_grows e (f ∷ es) (omega (arith, last_contact_le f es, h.0)))
      (Contacts-load (f ∷ es) h.1),
)

blocked_time : (s : Health) (t u : ℕ) → blocked s t ≡ true → u ≤ s.last_contact_utc → u + 172800 < t
unfolding blocked
blocked_time s t u h k = ground (arith, h, k)

blocked_count : (s : Health) (t : ℕ) → blocked s t ≡ true → 3 ≤ s.failed_attempts
unfolding blocked
blocked_count s t h = ground (arith, h)

blocked-Contacts :
    (s : Health) (t : ℕ) (es : List Result)
    → blocked s t ≡ true
    → Contacts s.last_contact_utc es
    → All (λ (e : Result). e.reached ≡ true → e.now + 172800 < t) es
blocked-Contacts s t [] h k = tt
blocked-Contacts s t (e ∷ es) h k =
    ((λ r. blocked_time s t e.now h (k.0 r)), blocked-Contacts s t es h k.1)

-- After a sequence of requests by a clock that never goes back, each of them written, the service
-- counts as blocked only if at least three scheduled checks failed since the last contact and every contact
-- is more than 48 hours old.
pub blocked_lem :
    (es : List Result) (t : ℕ)
    → IsForward es
    → blocked (load (after es)) t ≡ true
    → (3 ≤ failures_since es) × All (λ (e : Result). e.reached ≡ true → e.now + 172800 < t) es
blocked_lem es t f h = (
  omega (arith, blocked_count (load (after es)) t h, failures_counted es),
  blocked-Contacts (load (after es)) t es h (Contacts-load es f),
)
