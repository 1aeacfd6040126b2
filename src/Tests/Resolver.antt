-- ===== src/Tests/Resolver.antt =====
-- A resolver that asks once, and one that another sign-in left behind.
use virule_client.Prelude.{◌≡◌, refl, [], ◌∷◌, none, some, lookup}
use virule_client.Evidence.Pass.{mine, other_account}
use virule_client.Evidence.Resolver.{
  Resolver, Call, fresh_resolver, is_synced, sync, local_account_id, remember, hear, ask, decide,
  with_account, evaluator_of, owner,
}
use virule_client.Evidence.Resolver.Memory.{owner-forgets, owner_lasts}
use virule_client.Tests.Sample.{Doc, blank, json, hex32}
use virule_client.Tests.Passes.{id_one}

abbrev first_call : Call Doc
first_call = record {
  signed_in = some "ana@example.org";
  before = 1;
  after = 1;
  reply = record { status = 409; body = blank };
}

abbrev later_call : Call Doc
later_call = record first_call { reply = record { status = 404; body = blank } }

abbrev left_behind : Resolver
left_behind = record {
  generation = 0;
  email = "ben@example.org";
  account_id = "b1";
  known = (id_one, other_account) ∷ [];
}

owner-forgets_example :
    owner json hex32 (λ a. none) [] id_one "e1" first_call left_behind
    ≡ owner json hex32 (λ a. none) [] id_one "e1" first_call fresh_resolver
unfolding is_synced
owner-forgets_example =
    owner-forgets json hex32 (λ a. none) [] id_one "e1" "ana@example.org" first_call left_behind
      fresh_resolver refl refl refl refl

owner_lasts_example :
    (owner json hex32
      (λ a. none)
      []
      id_one
      "e1"
      later_call
      (owner json hex32 (λ a. none) [] id_one "e1" first_call fresh_resolver).1).0
    ≡ mine
unfolding owner decide with_account local_account_id sync is_synced ask hear remember evaluator_of
    lookup hex32
owner_lasts_example =
    owner_lasts json hex32 (λ a. none) [] id_one "e1" "ana@example.org" first_call later_call
      fresh_resolver refl refl refl refl
