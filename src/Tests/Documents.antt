-- ===== src/Tests/Documents.antt =====
-- The delivery documents, the outbox's order, the ladder and an attempt at concrete inputs.
use virule_client.Prelude.{
  ◌≤◌, ◌<◌, ◌≡◌, refl, inl, String, List, [], ◌∷◌, some, true, false, arith,
}
use mathlib.Core.List.{Perm}
use virule_client.Evidence.Ladder.{
  backoff_seconds, backoff_cap, ladder_index, ladder_steps, backoff_seconds_lem,
}
use virule_client.Evidence.Core.{Entry}
use virule_client.Evidence.Document.{
  State, IsStored, state_json, parse_state, parse-state_json_stored,
}
use virule_client.Evidence.Outbox.{ordered}
use virule_client.Evidence.Outbox.Order.{
  IsOldestFirst, filter, is_package_folder, ordered-IsOldestFirst,
}
use virule_client.Evidence.Attempt.{start, on_all_acked, set_of, only_known}
use virule_client.Evidence.Attempt.Persist.{IsPersisted, reports-IsPersisted}
use virule_client.Tests.Sample.{Doc, json, json_laws, core, hex32}
use virule_client.Tests.Passes.{id_one, world_one, outside, carrier, files_one}

abbrev state_one : State
state_one = record {
  package_id = id_one;
  assignment_id = "a1";
  attempts = 3;
  failures = 2;
  next_attempt_utc = 160;
  last_error = "offline";
  damaged = false;
  acked = "000001.jpg" ∷ "package.json" ∷ [];
  state = "sending";
  reason = "offline";
  updated_utc = 100;
}

state_one-IsStored : IsStored json hex32 state_one
unfolding hex32
state_one-IsStored = record {
  hex_id = refl;
  mode = inl refl;
  ordered = (refl, tt);
  named = (refl, (refl, tt));
}

parse-state_json_stored_example :
    parse_state json hex32 (state_json json state_one) ≡ some state_one
parse-state_json_stored_example =
    parse-state_json_stored json hex32 json_laws state_one state_one-IsStored

abbrev entries : List (Entry Doc)
entries =
    record { created = 2; id = id_one; is_directory = true; files = files_one }
    ∷ record {
      created = 1;
      id = "fedcba9876543210fedcba9876543210";
      is_directory = true;
      files = files_one;
    }
    ∷ record { created = 0; id = "stray"; is_directory = true; files = files_one }
    ∷ []

ordered-IsOldestFirst_example :
    IsOldestFirst (ordered hex32 entries)
    × Perm (ordered hex32 entries) (filter (is_package_folder hex32) entries)
ordered-IsOldestFirst_example = ordered-IsOldestFirst hex32 entries

backoff_seconds_lem_example :
    (ladder_index 2 < ladder_steps)
    × ((10 ≤ backoff_seconds 2)
        × ((backoff_seconds 2 ≤ backoff_seconds 7) × (backoff_seconds 7 ≤ backoff_cap)))
backoff_seconds_lem_example = backoff_seconds_lem 2 7 (omega arith)

abbrev known_files : List String
known_files = "package.json" ∷ "000001.jpg" ∷ []

abbrev told_twice : List (List String)
told_twice = ("package.json" ∷ []) ∷ ("000001.jpg" ∷ "package.json" ∷ []) ∷ []

reports-IsPersisted_example :
    let (st1, w1) = start core outside carrier 100 state_one world_one in
    IsPersisted core outside carrier 100 id_one (
      on_all_acked core outside carrier 100 known_files told_twice
        (record { st = st1; merged = set_of (only_known known_files state_one.acked); world = w1 }))
unfolding hex32
reports-IsPersisted_example =
    reports-IsPersisted core outside carrier 100 json_laws id_one refl (λ n. refl) known_files
      told_twice state_one world_one refl
