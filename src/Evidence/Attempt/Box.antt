-- ===== src/Evidence/Attempt/Box.antt =====
-- What an attempt leaves alone while it runs, and what its end does to the receipts and the outbox.
use virule_client.Prelude.{
  ℕ, String, ◌≡◌, refl, ◌⊎◌, inl, inr, List, [], ◌∷◌, none, some, Bool, true, false, arith, eq_iff,
  ◌==◌,
}
use virule_client.Evidence.Json.{Json}
use virule_client.Evidence.Core.{Core, CoreLaws, IsReadable, Package, Receipt, payload}
use virule_client.Evidence.Document.{State}
use virule_client.Evidence.Answer.{Answer, OfferFile, Transport}
use virule_client.Evidence.World.{World, Outside, save_state, remove_state, note_change}
use virule_client.Evidence.Attempt.{
  Pass, Sending, start, on_acked, on_all_acked, receipt_of, retry_later, wait_signed_out, delivered,
  try_deliver, settle, is_whole,
}

module _ {j : Json} (c : Core j) where
  open j use {Text}

  unfoldable pub has_receipt : World Text → String → Bool
  has_receipt w id = elim (c.read_receipt w.receipts id) [ none ↦ false | some _ ↦ true ]

  -- No package is lost and no receipt is: a package's files are as they were, or it has a receipt.
  pub record KeepsEvidence (w w' : World Text) : Type 0 where
    pub kept :
        (id : String) → (payload w'.outbox id ≡ payload w.outbox id) ⊎ (has_receipt w' id ≡ true)
    pub receipted : (id : String) → has_receipt w id ≡ true → has_receipt w' id ≡ true

  pub KeepsEvidence-trans :
      {u v w : World Text} → KeepsEvidence u v → KeepsEvidence v w → KeepsEvidence u w
  KeepsEvidence-trans {u} {v} {w} h k = record {
    kept = λ id. ground (arith, h.kept id, k.kept id, k.receipted id);
    receipted = λ id r. k.receipted id (h.receipted id r);
  }

  pub KeepsEvidence-of_box : (w w' : World Text) → w'.box ≡ w.box → KeepsEvidence w w'
  unfolding has_receipt
  KeepsEvidence-of_box w w' e = record { kept = λ id. inl (cc); receipted = λ id r. ground arith }

module _ {j : Json} (c : Core j) (o : Outside j.Text) (t : Transport j.Text) (now : ℕ) where
  open j use {Text}

  pub start-box : (st : State) (w : World Text) → (start c o t now st w).1.box ≡ w.box
  unfolding start save_state
  start-box st w = refl

  on_acked-box :
      (known names : List String) (s : Sending Text)
      → (on_acked c o t now known names s).world.box ≡ s.world.box
  unfolding on_acked save_state note_change
  on_acked-box known names s = ground arith

  pub on_all_acked-box :
      (known : List String) (reported : List (List String)) (s : Sending Text)
      → (on_all_acked c o t now known reported s).world.box ≡ s.world.box
  unfolding on_all_acked
  on_all_acked-box known [] s = refl
  on_all_acked-box known (names ∷ rest) s =
      cc
        (on_acked-box known names s, on_all_acked-box known rest (on_acked c o t now known names s))

  delivered-box :
      (id : String) (p : Package) (ans : Answer Text) (s : Pass Text)
      → (delivered c o t now id p ans s).world.box ≡ s.world.box
  unfolding delivered remove_state note_change
  delivered-box id p ans s = refl

  pub receipt_of-IsReadable :
      (id : String) (p : Package) (files : List (OfferFile Text)) (ans : Answer Text)
      → c.is_hex32 id ≡ true
      → c.is_hex32 p.assignment_id ≡ true
      → (ans.receipt_id == "") ≡ false
      → IsReadable c.is_hex32 (receipt_of c o t now id p files ans)
  unfolding receipt_of
  receipt_of-IsReadable id p files ans h k n = record {
    package_hex = h;
    assignment_hex = k;
    named = n;
  }

  module _ (laws : CoreLaws c) where
    acknowledged_kept :
        (n : ℕ) (w w' : World Text) (r : Receipt)
        → IsReadable c.is_hex32 r
        → w'.box ≡ (c.acknowledge n w.box r).1
        → (id : String)
        → (payload w'.outbox id ≡ payload w.outbox id) ⊎ (has_receipt c w' id ≡ true)
    unfolding has_receipt
    acknowledged_kept n w w' r k e id = ground (
      arith,
      laws.refused n w.box r,
      laws.written n w.box r k,
      laws.other_payloads n w.box r id,
      eq_iff r.package_id id,
    )

    acknowledged_receipted :
        (n : ℕ) (w w' : World Text) (r : Receipt)
        → IsReadable c.is_hex32 r
        → w'.box ≡ (c.acknowledge n w.box r).1
        → (id : String) → has_receipt c w id ≡ true
        → has_receipt c w' id ≡ true
    unfolding has_receipt
    acknowledged_receipted n w w' r k e id h = ground (
      arith,
      laws.refused n w.box r,
      laws.written n w.box r k,
      laws.other_receipts n w.box r id,
      eq_iff r.package_id id,
    )

    try_deliver-box :
        (id : String) (p : Package) (files : List (OfferFile Text)) (ans : Answer Text) (st : State)
        (progress : Bool) (s : Pass Text)
        → (try_deliver c o t now id p files ans st progress s).world.box
          ≡ (c.acknowledge s.world.steps s.world.box (receipt_of c o t now id p files ans)).1
    unfolding try_deliver retry_later save_state delivered remove_state note_change
    try_deliver-box id p files ans st progress s = ground arith

    -- An answer changes the receipts and the outbox by `acknowledge` alone.
    settle-box :
        (id : String) (p : Package) (files : List (OfferFile Text)) (ans : Answer Text) (st : State)
        (progress all_acked : Bool) (s : Pass Text)
        → let after = (settle c o t now id p files ans st progress all_acked s).world.box in
          (after ≡ s.world.box)
          ⊎ (((ans.receipt_id == "") ≡ false)
              × (after
                  ≡ (c.acknowledge s.world.steps s.world.box
                      (receipt_of c o t now id p files ans)).1))
    unfolding settle retry_later wait_signed_out save_state is_whole
    settle-box id p files ans st progress all_acked s =
        ground (arith, try_deliver-box id p files ans st progress s)

    pub settle-KeepsEvidence :
        (id : String) (p : Package) (files : List (OfferFile Text)) (ans : Answer Text) (st : State)
        (progress all_acked : Bool) (s : Pass Text)
        → c.is_hex32 id ≡ true
        → c.is_hex32 p.assignment_id ≡ true
        → KeepsEvidence c s.world (settle c o t now id p files ans st progress all_acked s).world
    settle-KeepsEvidence id p files ans st progress all_acked s hid hp =
        elim (settle-box id p files ans st progress all_acked s) [
          | inl e ↦ KeepsEvidence-of_box c _ _ e
          | inr (named, e) ↦
              let k = receipt_of-IsReadable id p files ans hid hp named in
              record {
                kept = acknowledged_kept s.world.steps s.world _ _ k e;
                receipted = acknowledged_receipted s.world.steps s.world _ _ k e;
              }
        ]
