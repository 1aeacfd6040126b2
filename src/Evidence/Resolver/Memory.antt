-- ===== src/Evidence/Resolver/Memory.antt =====
-- What the Resolver remembers, and what a new sign-in forgets.
use virule_client.Prelude.{
  ℕ, String, ◌≡◌, ◌≢◌, ◌∙◌, sym, ap, subst, refl, inl, inr, List, Option, some, Bool, true, false,
  not, arith, ◌&&◌, ◌||◌, ◌==◌, eq_iff, if◌then◌else◌, Bool-cases, lookup, lookup-put,
}
use virule_client.Evidence.Json.{Json}
use virule_client.Evidence.Answer.{ServiceReply}
use virule_client.Evidence.Pass.{Owner, mine}
use virule_client.Evidence.Resolver.{
  Job, Resolver, Call, is_synced, sync, local_account_id, told_evaluator, remember, hear_ticket,
  hear, ask, decide, with_account, evaluator_of, owner,
}

module _ (j : Json) (is_hex32 : String → Bool) (ticket : String → Option j.Text)
    (jobs : List Job) where
  open j use {Text}

  -- When somebody is signed in and the resolver has not seen this sign-in, nothing that it learned
  -- before decides: the answer and what is then remembered are those of any other resolver that has
  -- not seen it.
  pub owner-forgets :
      (a evaluator_id email : String) (call : Call Text) (r s : Resolver)
      → call.signed_in ≡ some email
      → (email == "") ≡ false
      → is_synced email call.before r ≡ false
      → is_synced email call.before s ≡ false
      → owner j is_hex32 ticket jobs a evaluator_id call r
        ≡ owner j is_hex32 ticket jobs a evaluator_id call s
  unfolding owner sync
  owner-forgets a evaluator_id email call r s e b h k = rw (e, b, h, k) refl

  -- The resolver knows that the assignment's evidence is the signed-in account's.
  unfoldable pub knows_mine : String → String → Resolver → Bool
  knows_mine a evaluator r =
      if not (r.account_id == "") && not (evaluator == "")
      then r.account_id == evaluator
      else elim (lookup a r.known) [ some mine ↦ true | _ ↦ false ]

  decide_mine :
      (a evaluator email : String) (call : Call Text) (r : Resolver)
      → knows_mine a evaluator r ≡ true
      → (decide j is_hex32 ticket jobs a evaluator email call r).0 ≡ mine
  unfolding decide knows_mine
  decide_mine a evaluator email call r h = ground (arith, h)

  hear_learns :
      (a evaluator : String) (reply : ServiceReply Text) (r : Resolver)
      → (not (r.account_id == "") && not (evaluator == "")) ≡ false
      → (hear j is_hex32 ticket jobs a evaluator reply r).0 ≡ mine
      → knows_mine a evaluator (hear j is_hex32 ticket jobs a evaluator reply r).1 ≡ true
  unfolding hear hear_ticket remember knows_mine
  hear_learns a evaluator reply r n h = ground (
    arith,
    n,
    h,
    lookup-put a a mine r.known,
    eq_iff a a,
    eq_iff evaluator "",
    eq_iff (told_evaluator j is_hex32 ticket jobs reply.body) evaluator,
    eq_iff (told_evaluator j is_hex32 ticket jobs reply.body) "",
  )

  ask_learns :
      (a evaluator email : String) (call : Call Text) (r : Resolver)
      → (not (r.account_id == "") && not (evaluator == "")) ≡ false
      → (ask j is_hex32 ticket jobs a evaluator email call r).0 ≡ mine
      → knows_mine a evaluator (ask j is_hex32 ticket jobs a evaluator email call r).1 ≡ true
  unfolding ask sync
  ask_learns a evaluator email call r n h =
      ground (arith, n, h, hear_learns a evaluator call.reply r n)

  decide_learns :
      (a evaluator email : String) (call : Call Text) (r : Resolver)
      → (decide j is_hex32 ticket jobs a evaluator email call r).0 ≡ mine
      → knows_mine a evaluator (decide j is_hex32 ticket jobs a evaluator email call r).1 ≡ true
  unfolding decide knows_mine
  decide_learns a evaluator email call r h =
      ground (arith, h, ask_learns a evaluator email call r, decide_mine a evaluator email call r)

  -- An answer is given under the sign-in that the call met first, and the id is not forgotten.
  ask_keeps :
      (a evaluator email : String) (call : Call Text) (r : Resolver)
      → is_synced email call.before r ≡ true
      → (ask j is_hex32 ticket jobs a evaluator email call r).0 ≡ mine
      → is_synced email call.before (ask j is_hex32 ticket jobs a evaluator email call r).1 ≡ true
  unfolding ask sync hear hear_ticket remember is_synced
  ask_keeps a evaluator email call r h m = ground (arith, h, m)

  decide_keeps :
      (a evaluator email : String) (call : Call Text) (r : Resolver)
      → is_synced email call.before r ≡ true
      → (decide j is_hex32 ticket jobs a evaluator email call r).0 ≡ mine
      → is_synced email call.before (decide j is_hex32 ticket jobs a evaluator email call r).1
        ≡ true
  unfolding decide
  decide_keeps a evaluator email call r h m =
      ground (arith, h, m, ask_keeps a evaluator email call r h)

  -- With an id, or with none that a local ticket names.
  unfoldable is_settled : String → Resolver → Bool
  is_settled email r =
      not (r.account_id == "") || (local_account_id j is_hex32 ticket jobs email == "")

  with_account-settled :
      (email : String) (r : Resolver)
      → is_settled email (with_account j is_hex32 ticket jobs email r) ≡ true
  unfolding is_settled with_account
  with_account-settled email r = ground arith

  decide_settled :
      (a evaluator email : String) (call : Call Text) (r : Resolver)
      → is_settled email r ≡ true
      → (decide j is_hex32 ticket jobs a evaluator email call r).0 ≡ mine
      → is_settled email (decide j is_hex32 ticket jobs a evaluator email call r).1 ≡ true
  unfolding is_settled decide ask sync hear hear_ticket remember
  decide_settled a evaluator email call r h m = ground (arith, h, m)

  with_account-knows_mine :
      (a evaluator email : String) (r : Resolver)
      → is_settled email r ≡ true
      → knows_mine a evaluator r ≡ true
      → knows_mine a evaluator (with_account j is_hex32 ticket jobs email r) ≡ true
  unfolding is_settled knows_mine with_account
  with_account-knows_mine a evaluator email r h k =
      ground (arith, h, k, eq_iff (local_account_id j is_hex32 ticket jobs email) "")

  sync_synced : (email : String) (g : ℕ) (r : Resolver) → is_synced email g (sync email g r) ≡ true
  unfolding is_synced sync
  sync_synced email g r = ground (arith, eq_iff email email)

  with_account_synced :
      (email : String) (g : ℕ) (r : Resolver)
      → is_synced email g r ≡ true
      → is_synced email g (with_account j is_hex32 ticket jobs email r) ≡ true
  unfolding is_synced with_account
  with_account_synced email g r h = ground (arith, h)

  sync_of_synced :
      (email : String) (g : ℕ) (r : Resolver) → is_synced email g r ≡ true → sync email g r ≡ r
  unfolding sync is_synced
  sync_of_synced email g r h = ground (arith, h)

  signed_out_not_mine :
      (a evaluator_id email : String) (call : Call Text) (r : Resolver)
      → call.signed_in ≡ some email
      → (email == "") ≡ true
      → (owner j is_hex32 ticket jobs a evaluator_id call r).0 ≢ mine
  unfolding owner
  signed_out_not_mine a evaluator_id email call r e b m = ground (arith, e, b, m)

  owner_decides :
      (a evaluator_id email : String) (call : Call Text) (r : Resolver)
      → call.signed_in ≡ some email
      → (email == "") ≡ false
      → owner j is_hex32 ticket jobs a evaluator_id call r
        ≡ decide j is_hex32 ticket jobs a
            (evaluator_of j is_hex32 ticket jobs a evaluator_id)
            email
            call
            (with_account j is_hex32 ticket jobs email (sync email call.before r))
  unfolding owner
  owner_decides a evaluator_id email call r e b = rw (e, b) refl

  -- When a question about some evidence is answered that it is the account's, then the next
  -- question about it, on what the resolver then remembers and while neither the account nor the
  -- sign-in changed, is answered so without asking the service, whatever it would answer.
  pub owner_lasts :
      (a evaluator_id email : String) (call later : Call Text) (r : Resolver)
      → call.signed_in ≡ some email
      → later.signed_in ≡ some email
      → later.before ≡ call.before
      → (owner j is_hex32 ticket jobs a evaluator_id call r).0 ≡ mine
      → (owner j is_hex32 ticket jobs a evaluator_id later
          (owner j is_hex32 ticket jobs a evaluator_id call r).1).0
        ≡ mine
  owner_lasts a evaluator_id email call later r e f g m = elim (Bool-cases (email == "")) [
    | inl b ↦ absurd (signed_out_not_mine a evaluator_id email call r e b m)
    | inr b ↦
        let ev : String = evaluator_of j is_hex32 ticket jobs a evaluator_id in
        let r1 : Resolver = with_account j is_hex32 ticket jobs email (sync email call.before r) in
        let m1 : (decide j is_hex32 ticket jobs a ev email call r1).0 ≡ mine =
          ap (λ (x : Owner × Resolver). x.0) (sym (owner_decides a evaluator_id email call r e b))
          ∙ m in
        let r2 : Resolver = (decide j is_hex32 ticket jobs a ev email call r1).1 in
        let here : is_synced email call.before r1 ≡ true =
          with_account_synced email call.before (sync email call.before r)
            (sync_synced email call.before r) in
        let kept : is_synced email later.before r2 ≡ true =
          rw g (decide_keeps a ev email call r1 here m1) in
        let known : knows_mine a ev (with_account j is_hex32 ticket jobs email r2) ≡ true =
          with_account-knows_mine a ev email r2
            (decide_settled a ev email call r1
              (with_account-settled email (sync email call.before r)) m1)
            (decide_learns a ev email call r1 m1) in
        let asked : owner j is_hex32 ticket jobs a evaluator_id call r
            ≡ decide j is_hex32 ticket jobs a ev email call r1 =
          owner_decides a evaluator_id email call r e b in
        let again : owner j is_hex32 ticket jobs a evaluator_id later r2
            ≡ decide j is_hex32 ticket jobs a ev email later
                (with_account j is_hex32 ticket jobs email (sync email later.before r2)) =
          owner_decides a evaluator_id email later r2 f b in
        subst
          (λ (x : Owner × Resolver).
            (owner j is_hex32 ticket jobs a evaluator_id later x.1).0 ≡ mine)
          (sym asked)
          (ap (λ (x : Owner × Resolver). x.0) again
            ∙ subst
                (λ (x : Resolver).
                  (decide j is_hex32 ticket jobs a ev email later
                    (with_account j is_hex32 ticket jobs email x)).0
                  ≡ mine)
                (sym (sync_of_synced email later.before r2 kept))
                (decide_mine a ev email later _ known))
  ]
