-- ===== src/Transfers/Control/Last.antt =====
-- Which pauses stand after a sequence of controls (src/client/transfers.hpp, control and is_paused).
use virule_client.Prelude.{
  ◌≡◌, refl, String, List, [], ◌∷◌, Bool, true, false, not, ◌&&◌, ◌||◌, if_branches, if◌then◌else◌,
  contains, eq_iff, arith, ◌==◌,
}
use virule_client.Transfers.Control.{
  Controls, Action, pause, resume, retry, erase_id, add_id, note_action, is_paused_now,
}

-- A control of an assignment.
pub record Asking : Type 0 where
  pub action : Action
  pub assignment : String

abbrev pub is_pause : Action → Bool
is_pause pause = true
is_pause _ = false

-- The controls in turn, the latest first.
abbrev pub noted : List Asking → Controls → Controls
noted [] c = c
noted (a ∷ asks) c = note_action a.action a.assignment (noted asks c)

-- Each assignment's last control decides, and before one the pauses that stood.
abbrev pub last_word : List Asking → Controls → String → Bool
last_word [] c id = is_paused_now id c
last_word (a ∷ asks) c id = if a.assignment == id then is_pause a.action else last_word asks c id

contains-erase_id :
    (id x : String) (xs : List String)
    → contains (erase_id id xs) x ≡ (contains xs x && not (id == x))
unfolding erase_id contains
contains-erase_id id x [] = refl
contains-erase_id id x (y ∷ ys) =
    ground (arith, contains-erase_id id x ys, eq_iff y id, eq_iff id x, eq_iff y x)

contains-add_id :
    (id x : String) (xs : List String) → contains (add_id id xs) x ≡ ((id == x) || contains xs x)
unfolding contains
contains-add_id id x xs =
    if_branches (λ (ys : List String). contains ys x ≡ ((id == x) || contains xs x))
      (contains xs id) (λ h. ground (arith, h, eq_iff id x)) (λ _. refl)

is_paused_now-note_action :
    (a : Action) (id x : String) (c : Controls)
    → is_paused_now x (note_action a id c) ≡ (if id == x then is_pause a else is_paused_now x c)
unfolding note_action
is_paused_now-note_action pause id x c = ground (arith, contains-add_id id x c.paused_ids)
is_paused_now-note_action resume id x c = ground (arith, contains-erase_id id x c.paused_ids)
is_paused_now-note_action retry id x c = ground (arith, contains-erase_id id x c.paused_ids)

-- After a sequence of controls the set of live pauses, which is_paused asks, holds an assignment
-- exactly if the last of them that names it is a pause, or none names it and the set held it
-- before. The flag of the job itself is another thing.
pub is_paused_now-noted :
    (asks : List Asking) (c : Controls) (id : String)
    → is_paused_now id (noted asks c) ≡ last_word asks c id
is_paused_now-noted [] c id = refl
is_paused_now-noted (a ∷ asks) c id = ground (
  arith,
  is_paused_now-note_action a.action a.assignment id (noted asks c),
  is_paused_now-noted asks c id,
)
