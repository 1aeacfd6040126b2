-- ===== src/Evidence/Drain/Owned.antt =====
-- Which packages the wait is for.
use virule_client.Prelude.{
  ℕ, String, ◌≡◌, refl, List, [], ◌∷◌, Option, none, some, true, false, arith, ◌&&◌, eq_iff, inl,
  inr, Option-cases, contains, lookup,
}
use virule_client.Evidence.Json.{Json}
use virule_client.Evidence.Core.{Core, Package, Entry}
use virule_client.Evidence.Outbox.{outbox_ids}
use virule_client.Evidence.World.{World, Outside, load_state}
use virule_client.Evidence.Pass.{OwnerFn}
use virule_client.Evidence.Drain.{is_waited_for, pending_of, owned_pending, is_foreign_owner}

module _ {j : Json} (c : Core j) (o : Outside j.Text) (owner : Option (String → OwnerFn))
    (read_outbox_package : List (Entry j.Text) → String → Option Package) where
  open j use {Text}

  contains-pending_of :
      (n : ℕ) (w : World Text) (ids : List String) (id : String)
      → contains (pending_of c o owner read_outbox_package n w ids).0 id
        ≡ (contains ids id && is_waited_for c o owner read_outbox_package n w id)
  unfolding pending_of contains
  contains-pending_of n w [] id = refl
  contains-pending_of n w (k ∷ ids) id = ground (arith, contains-pending_of n w ids id, eq_iff k id)

  -- The package has a readable head, and the account signed in may deliver it.
  pub record IsOwned (n : ℕ) (w : World Text) (id : String) : Type 0 where
    pub pkg : Package
    pub unreceipted : lookup id w.receipts ≡ none
    pub undamaged : (load_state c o w id).damaged ≡ false
    pub readable : read_outbox_package w.outbox id ≡ some pkg
    pub own :
        (f : String → OwnerFn)
        → owner ≡ some f
        → is_foreign_owner (f id n pkg.assignment_id pkg.evaluator_id) ≡ false

  is_waited_for-IsOwned :
      (n : ℕ) (w : World Text) (id : String)
      → is_waited_for c o owner read_outbox_package n w id ≡ true
      → IsOwned n w id
  unfolding is_waited_for
  is_waited_for-IsOwned n w id h = elim (Option-cases (lookup id w.receipts)) [
    | inr (doc, e) ↦ absurd (ground (arith, e, h))
    | inl e ↦ elim (Option-cases (read_outbox_package w.outbox id)) [
      | inl f ↦ absurd (ground (arith, e, f, h))
      | inr (p, f) ↦ record {
        pkg = p;
        unreceipted = e;
        undamaged = ground (arith, e, f, h);
        readable = f;
        own = λ g eg. ground (arith, e, f, h, eg);
      }
    ]
  ]

  is_waited_for_of-IsOwned :
      (n : ℕ) (w : World Text) (id : String)
      → IsOwned n w id
      → is_waited_for c o owner read_outbox_package n w id ≡ true
  unfolding is_waited_for
  is_waited_for_of-IsOwned n w id h = elim (Option-cases owner) [
    | inl e ↦ ground (arith, h.unreceipted, h.undamaged, h.readable, e)
    | inr (g, e) ↦ ground (arith, h.unreceipted, h.undamaged, h.readable, e, h.own g e)
  ]

  -- The wait is for exactly the packages of the outbox that have no receipt, are not damaged, can be
  -- read, and are not another account's or a signed-out computer's.
  pub contains-owned_pending :
      (n : ℕ) (w : World Text) (id : String)
      → contains (outbox_ids c.is_hex32 w.outbox) id ≡ true
      → (contains (owned_pending c o owner read_outbox_package n w).0 id ≡ true → IsOwned n w id)
        × (IsOwned n w id → contains (owned_pending c o owner read_outbox_package n w).0 id ≡ true)
  unfolding owned_pending
  contains-owned_pending n w id m = (
    (λ h.
        is_waited_for-IsOwned n w id
          (ground (arith, contains-pending_of n w (outbox_ids c.is_hex32 w.outbox) id, h, m))),
    (λ h. ground (
      arith,
      contains-pending_of n w (outbox_ids c.is_hex32 w.outbox) id,
      is_waited_for_of-IsOwned n w id h,
      m,
    )),
  )
