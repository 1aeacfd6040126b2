-- ===== src/Transfers/Upload/Parts/Ends.antt =====
-- How the loop of send_parts (src/client/transfers.hpp) ends, and what it has sent.
use virule_client.Prelude.{
  ℕ, suc, zero, ◌+◌, ◌-◌, ◌*◌, ◌≤◌, ◌<◌, ◌≡◌, refl, ◌⊎◌, inl, inr, ◌∷◌, Option, none, some, eqb,
  if_branches, ≤-cases, arith, ◌==◌,
}
use virule_client.Evidence.Json.{Json}
use virule_client.Transfers.Site.{Env, Verification}
use virule_client.Transfers.Outcome.{At, save_job, defer_job, call, answer}
use virule_client.Transfers.Calls.{Adds, nothing, one_more, Adds-trans}
use virule_client.Transfers.Upload.Session.{Step, reopen, advance, reading_of}
use virule_client.Transfers.Upload.Parts.{
  Turned, leaves, goes_to, count, part_turn, parts_from, send_parts, listed_parts,
}
use virule_client.Transfers.Upload.Parts.Turns.{
  IsVerifiedPart, Sends, Turns, Advances, IsRenewed, part_turn-Turns,
}

module _ {j : Json} (e : Env j) (v : Verification) where
  open j use {Text}
  open e use {Bytes}

  -- Fuel for the turns that are left, where the service renews no session from call `last` on.
  record IsEnough (last fuel n tries steps : ℕ) : Type 0 where
    pub first : 1 ≤ n
    pub few : tries ≤ 3
    pub before : steps < last → (last - steps) + 4 * count v.part_sha256 + 5 ≤ fuel
    pub after : last ≤ steps → (4 * (count v.part_sha256 + 1 - n) + 4) - tries ≤ fuel

  Advances-first :
      {n tries m t : ℕ} {s s1 : At Text Bytes} → Advances e v n tries s m t s1 → 1 ≤ n → 1 ≤ m
  Advances-first a h = elim a.moves [
    | inl (next, _) ↦ omega (arith, next)
    | inr (inl (again, _, _)) ↦ omega (arith, again, h)
    | inr (inr (first, _, _)) ↦ omega (arith, first)
  ]

  Advances-few :
      {n tries m t : ℕ} {s s1 : At Text Bytes} → Advances e v n tries s m t s1 → tries ≤ 3 → t ≤ 3
  Advances-few a h = elim a.moves [
    | inl (_, less) ↦ omega (arith, less, h)
    | inr (inl (_, _, few)) ↦ few
    | inr (inr (_, same, _)) ↦ omega (arith, same, h)
  ]

  IsEnough-zero : (last n tries steps : ℕ) → ¬ (IsEnough last zero n tries steps)
  IsEnough-zero last n tries steps h = elim (≤-cases last steps) [
    | inl l ↦ (let b = h.after l in let f = h.few in omega (arith, b, f))
    | inr l ↦ (let b = h.before l in omega (arith, b))
  ]

  module _ (last : ℕ) (final : (k : ℕ) → last ≤ k → ¬ (IsRenewed e v k)) where
    -- While the service may still renew: the loop goes on anywhere, later.
    IsEnough-before :
        (fuel n tries m t k k1 : ℕ)
        → IsEnough last (suc fuel) n tries k
        → k < last
        → k < k1
        → 1 ≤ m
        → t ≤ 3
        → IsEnough last fuel m t k1
    IsEnough-before fuel n tries m t k k1 h l later f u =
        let b = h.before l in
        record {
          first = f;
          few = u;
          before = λ g. omega (arith, b, later, g);
          after = λ g. omega (arith, b, f, l);
        }

    -- From then on: at a later part, or at the same one again.
    IsEnough-after :
        (fuel n tries m t k k1 : ℕ)
        → IsEnough last (suc fuel) n tries k
        → last ≤ k
        → k < k1
        → n ≤ count v.part_sha256
        → ((m ≡ n + 1) × (t ≤ tries)) ⊎ ((m ≡ n) × (t ≡ tries + 1) × (t ≤ 3))
        → IsEnough last fuel m t k1
    IsEnough-after fuel n tries m t k k1 h l later is_part (inl (next, u)) =
        let b = h.after l in
        let f = h.first in
        let w = h.few in
        record {
          first = omega (arith, next);
          few = omega (arith, u, w);
          before = λ g. omega (arith, g, later, l);
          after = λ _. omega (arith, b, next, u, w, is_part, f);
        }
    IsEnough-after fuel n tries m t k k1 h l later is_part (inr (again, more, u)) =
        let b = h.after l in
        let f = h.first in
        record {
          first = omega (arith, again, f);
          few = u;
          before = λ g. omega (arith, g, later, l);
          after = λ _. omega (arith, b, again, more, u, is_part, f);
        }

    IsEnough-turn :
        (fuel n tries : ℕ) (s : At Text Bytes) (m t : ℕ) (s1 : At Text Bytes)
        → IsEnough last (suc fuel) n tries s.site.steps
        → Advances e v n tries s m t s1
        → IsEnough last fuel m t s1.site.steps
    IsEnough-turn fuel n tries s m t s1 h a = elim (≤-cases last s.site.steps) [
      | inr l ↦
          IsEnough-before fuel n tries m t s.site.steps s1.site.steps h l a.later
            (Advances-first a h.first) (Advances-few a h.few)
      | inl l ↦
          IsEnough-after fuel n tries m t s.site.steps s1.site.steps h l a.later a.is_part
            (elim a.moves [
              | inl next ↦ inl next
              | inr (inl again) ↦ inr again
              | inr (inr (first, same, renewed)) ↦ absurd (final s.site.steps l renewed)
            ])
    ]

    abbrev Ends : Option (Step Text Bytes) → Type 0
    Ends r = (t : Step Text Bytes) × (r ≡ some t)

    parts_from-ends :
        (fuel n tries : ℕ) (s : At Text Bytes)
        → IsEnough last fuel n tries s.site.steps
        → (t : Step Text Bytes) × (parts_from e v fuel n tries s ≡ some t)
    unfolding parts_from
    parts_from-ends zero n tries s h = absurd (IsEnough-zero last n tries s.site.steps h)
    parts_from-ends (suc fuel) n tries s h =
        goes (part_turn e v n tries s) (part_turn-Turns e v n tries s)
          (λ m t s1 a. parts_from-ends fuel m t s1 (IsEnough-turn fuel n tries s m t s1 h a))
      where
        goes :
            (r : Turned Text Bytes)
            → Turns e v n tries s r
            → ((m t : ℕ) (s1 : At Text Bytes)
                → Advances e v n tries s m t s1
                → (u : Step Text Bytes) × (parts_from e v fuel m t s1 ≡ some u))
            → (u : Step Text Bytes) × (elim r [
              | leaves t ↦ some t
              | goes_to m t s1 ↦ parts_from e v fuel m t s1
            ]
                ≡ some u)
        goes (leaves t) _ _ = (t, refl)
        goes (goes_to m t s1) (_, a) next = next m t s1 a

    -- A call of send_parts ends, with as many turns as the calls that are left until the service
    -- renews no session any more, and four for each part and five more: from the call `last` on no
    -- renewal is answered 200.
    pub send_parts-ends :
        (fuel : ℕ) (s : At Text Bytes)
        → (last - s.site.steps) + 4 * count v.part_sha256 + 5 ≤ fuel
        → (t : Step Text Bytes) × (send_parts e v fuel s ≡ some t)
    unfolding send_parts listed_parts call save_job
    send_parts-ends fuel s h =
        if_branches Ends (eqb (answer e (reading_of e s) s).status 200)
          (λ _.
            if_branches Ends
              (e.find_string (answer e (reading_of e s) s).body "state" == "verified")
              (λ _. (_, refl))
              (λ _. parts_from-ends fuel 1 0 _ (record {
                first = omega arith;
                few = omega arith;
                before = λ g. omega (arith, g, h);
                after = λ g. omega (arith, g, h);
              })))
          (λ _.
            if_branches Ends (eqb (answer e (reading_of e s) s).status 404) (λ _. (_, refl))
              (λ _. (_, refl)))

  -- What a result has, where there is one.
  abbrev pub Sent : At Text Bytes → Option (Step Text Bytes) → Type 0
  Sent s none = Unit
  Sent s (some t) = Sends e v s t.at

  Sent-after :
      (s s1 : At Text Bytes) (r : Option (Step Text Bytes)) → Sends e v s s1 → Sent s1 r → Sent s r
  Sent-after s s1 none a h = tt
  Sent-after s s1 (some t) a h = Adds-trans a h

  parts_from-Sent : (fuel n tries : ℕ) (s : At Text Bytes) → Sent s (parts_from e v fuel n tries s)
  unfolding parts_from
  parts_from-Sent zero n tries s = tt
  parts_from-Sent (suc fuel) n tries s =
      goes (part_turn e v n tries s) (part_turn-Turns e v n tries s)
        (λ m t s1. parts_from-Sent fuel m t s1)
    where
      goes :
          (r : Turned Text Bytes)
          → Turns e v n tries s r
          → ((m t : ℕ) (s1 : At Text Bytes) → Sent s1 (parts_from e v fuel m t s1))
          → Sent s (elim r [ leaves t ↦ some t | goes_to m t s1 ↦ parts_from e v fuel m t s1 ])
      goes (leaves t) a _ = a
      goes (goes_to m t s1) (a, _) next =
          Sent-after s s1 (parts_from e v fuel m t s1) a (next m t s1)

  pub send_parts-Sent : (fuel : ℕ) (s : At Text Bytes) → Sent s (send_parts e v fuel s)
  unfolding send_parts listed_parts call save_job defer_job reopen advance
  send_parts-Sent fuel s =
      let read : Adds (IsVerifiedPart e v) s.site.sent (reading_of e s ∷ s.site.sent) =
        one_more (reading_of e s) s.site.sent tt nothing in
      if_branches (Sent s) (eqb (answer e (reading_of e s) s).status 200)
        (λ _.
          if_branches (Sent s)
            (e.find_string (answer e (reading_of e s) s).body "state" == "verified") (λ _. read)
            (λ _.
              let s2 : At Text Bytes =
                listed_parts e v (answer e (reading_of e s) s).body (call e (reading_of e s) s) in
              Sent-after s s2 (parts_from e v fuel 1 0 s2) read (parts_from-Sent fuel 1 0 s2)))
        (λ _.
          if_branches (Sent s) (eqb (answer e (reading_of e s) s).status 404) (λ _. read)
            (λ _. read))
